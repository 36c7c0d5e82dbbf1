-- ===== src/Nodes/Taints.antt =====
-- The taints of a node before and after the agent is ready.
use mesh_cni.Nodes.{
  Taint, NodeSpec, Node, NodeApi, is_startup, retain, untainted, with_taints, with_spec, on_node,
  remove_startup_taint,
}
use mesh_cni.Prelude.Result.{Result, ok, err}
use text.Mathlib.Text.{◌==◌ as str_eq}
use text.Mathlib.TextEquality.{eq_iff}
use mesh_cni.Prelude.{
  ◌≢◌, arith, String, List, [], ◌∷◌, Option, some, none, Bool, true, not, ◌≡◌, refl, sym, ap, ◌∙◌,
  ◌↔◌, inl, inr, IsIn, Bool-cases,
}

IsIn-retain :
    {A : Type 0} (p : A → Bool) (x : A) (xs : List A)
    → IsIn x (retain p xs) ↔ (IsIn x xs × (p x ≡ true))
unfolding retain
IsIn-retain p x [] = (λ h. absurd h, λ h. h.0)
IsIn-retain p x (y ∷ ys) =
    let (out, into) = IsIn-retain p x ys in
    elim (Bool-cases (p y)) [
      | inl e ↦ rw e (
        λ h. elim h [ inl q ↦ (inl q, ap p q ∙ e) | inr i ↦ let (j, g) = out i in (inr j, g) ],
        λ (h, g). elim h [ inl q ↦ inl q | inr i ↦ inr (into (i, g)) ],
      )
      | inr e ↦ rw e (
        λ i. let (j, g) = out i in (inr j, g),
        λ (h, g). elim h [
          | inl q ↦ absurd (let wrong : p y ≡ true = ap p (sym q) ∙ g in cc)
          | inr i ↦ into (i, g)
        ],
      )
    ]

-- What the agent relies on: the server gives the node that it has under a name, and has the one
-- that replaced it.
pub record IsNodeApi {S Others : Type 0} (api : NodeApi S Others) : Type 0 where
  pub view : S → String → Option (Node Others)
  pub got :
      (s : S) (name : String) (node : Node Others)
      → api.get s name ≡ ok node
      → (view s name ≡ some node) × (node.name_any ≡ name)
  pub replaced :
      (name : String) (node : Node Others) (s : S)
      → (api.replace name node s).0 ≡ ok tt
      → view (api.replace name node s).1 name ≡ some node

-- A taint that is neither the agent's own nor Cilium's mark of a node that is not ready.
abbrev pub IsOther : Taint → Type 0
IsOther t = (t.key ≢ "mesh-cni.dev/startup") × (t.key ≢ "node.cilium.io/agent-not-ready")

-- The taints of a node, none where the field is missing.
abbrev pub taints_in : {Others : Type 0} → Option (NodeSpec Others) → List Taint
taints_in none = []
taints_in (some spec) = elim spec.taints [ none ↦ [] | some taints ↦ taints ]

module _ {S Others : Type 0} {api : NodeApi S Others} (laws : IsNodeApi api) where
  open laws use {view}

  -- What the call leaves of a node that the server had.
  abbrev Cleared : String → Node Others → S → Type 0
  Cleared name node t =
      (node' : Node Others) × (view t name ≡ some node')
      × ((x : Taint) → IsIn x (taints_in node'.spec) ↔ (IsIn x (taints_in node.spec) × IsOther x))

  is_startup_iff : (t : Taint) → (not (is_startup t) ≡ true) ↔ IsOther t
  unfolding is_startup
  is_startup_iff t = elim (Bool-cases (str_eq t.key "mesh-cni.dev/startup")) [
    | inl a ↦ (
      λ h. absurd (ground (arith, a, h)),
      λ (h, _). absurd (h ((eq_iff t.key "mesh-cni.dev/startup").0 a)),
    )
    | inr a ↦ elim (Bool-cases (str_eq t.key "node.cilium.io/agent-not-ready")) [
      | inl b ↦ (
        λ h. absurd (ground (arith, a, b, h)),
        λ (_, h). absurd (h ((eq_iff t.key "node.cilium.io/agent-not-ready").0 b)),
      )
      | inr b ↦ (
        λ h. (
          λ q. let z = (eq_iff t.key "mesh-cni.dev/startup").1 q in cc,
          λ q. let z = (eq_iff t.key "node.cilium.io/agent-not-ready").1 q in cc,
        ),
        λ h. ground (arith, a, b),
      )
    ]
  ]

  with_taints-Cleared :
      (name : String) (s : S) (node : Node Others) (spec : NodeSpec Others)
      → node.spec ≡ some spec
      → view s name ≡ some node
      → node.name_any ≡ name
      → (taints : Option (List Taint)) → spec.taints ≡ taints
      → (with_taints api node spec taints s).0 ≡ ok tt
      → Cleared name node (with_taints api node spec taints s).1
  with_taints-Cleared name s node spec at seen named none none_of done =
      (node, seen, λ x. rw (at, none_of) (λ h. absurd h, λ h. h.0))
  with_taints-Cleared name s node spec at seen named (some taints) all done =
      let sent = untainted api node spec taints in
      (
        sent,
        ap (view (api.replace node.name_any sent s).1) (sym named)
            ∙ laws.replaced node.name_any sent s done,
        λ x.
            let (out, into) = IsIn-retain (λ t. not (is_startup t)) x taints in
            let (a, b) = is_startup_iff x in
            rw (at, all) (λ h. let (i, q) = out h in (i, a q), λ (i, q). into (i, b q)),
      )

  -- If the agent's call for its node returns `Ok`, the server had the node, and has it with exactly
  -- the taints that it had before, without those whose key is the agent's own mark of a node that
  -- is not ready or Cilium's.
  pub remove_startup_taint_iff :
      (name : String) (s : S)
      → (remove_startup_taint api name s).0 ≡ ok tt
      → (node node' : Node Others) × (view s name ≡ some node)
        × (view (remove_startup_taint api name s).1 name ≡ some node')
        × ((t : Taint) → IsIn t (taints_in node'.spec) ↔ (IsIn t (taints_in node.spec) × IsOther t))
  unfolding remove_startup_taint
  remove_startup_taint_iff name s done = go (api.get s name) refl done
    where
      on_spec :
          (node : Node Others)
          → view s name ≡ some node
          → node.name_any ≡ name
          → (spec : Option (NodeSpec Others)) → node.spec ≡ spec
          → (with_spec api node spec s).0 ≡ ok tt
          → Cleared name node (with_spec api node spec s).1
      on_spec node seen named none at done = (node, seen, λ x. rw at (λ h. absurd h, λ h. h.0))
      on_spec node seen named (some spec) at done =
          with_taints-Cleared name s node spec at seen named spec.taints refl done

      go :
          (r : Result (Node Others))
          → api.get s name ≡ r
          → (on_node api r s).0 ≡ ok tt
          → (node node' : Node Others) × (view s name ≡ some node)
            × (view (on_node api r s).1 name ≡ some node')
            × ((t : Taint)
                → IsIn t (taints_in node'.spec) ↔ (IsIn t (taints_in node.spec) × IsOther t))
      go (err e) q done = cc
      go (ok node) q done =
          let (seen, named) = laws.got s name node q in
          let (node', there, same) = on_spec node seen named node.spec refl done in
          (node, node', seen, there, same)
