-- ===== src/IdentityGen.antt =====
-- mesh-cni-identity-gen-controller/src/controller.rs, with `sanitize_pod_labels` of
-- mesh-cni-k8s-utils/src/lib.rs: the identities of the pods of a namespace. The name of an identity is
-- the SHA-256 of its spec as JSON, `hash_name`, which is `none` where the conversion fails; the
-- draws of the random number generator are a list, and `none` is a loop that has used them up. Of
-- the objects' metadata the fields that the code reads are modelled.
pub mod Desired
pub mod Plan
pub mod Draw
use mesh_cni.Prelude.{
  ℕ, String, List, [], ◌∷◌, ◌++◌, Option, some, none, Bool, true, false, ◌&&◌, ◌||◌, not, ◌==◌,
  if◌then◌else◌, map, filter_map,
}
use mesh_cni.Prelude.HashMap.{HashMap}
use text.Mathlib.Text.{◌==◌ as str_eq}

abbrev pub Labels : Type 0
Labels = HashMap String String

pub record IdentitySpec : Type 0 where
  pub namespace_labels : Labels
  pub pod_labels : Labels
  pub id : ℕ

pub record Identity : Type 0 where
  pub name : Option String
  pub namespace : Option String
  pub spec : IdentitySpec

pub record Namespace : Type 0 where
  pub name_any : String
  pub labels : Labels

pub record Pod : Type 0 where
  pub namespace : Option String
  pub labels : Labels

-- `BTreeMap::remove`
unfoldable pub remove_label : String → Labels → Labels
remove_label key [] = []
remove_label key ((k, v) ∷ rest) =
    let tail = remove_label key rest in if str_eq key k then tail else (k, v) ∷ tail

unfoldable pub sanitize_pod_labels : Labels → Labels
sanitize_pod_labels labels =
    remove_label "pod-template-generation"
      (remove_label "pod-template-hash" (remove_label "controller-revision-hash" labels))

unfoldable pub uses : ℕ → List Identity → Bool
uses candidate [] = false
uses candidate (i ∷ rest) = (i.spec.id == candidate) || uses candidate rest

-- The loop over candidates, with the draws that are left.
unfoldable pub pick_id : List Identity → List ℕ → Option (ℕ × List ℕ)
pick_id identities [] = none
pick_id identities (candidate ∷ draws) =
    let rest = pick_id identities draws in
    if uses candidate identities then rest else some (candidate, draws)

-- `opt.as_deref() == Some(name)`
abbrev pub is_text : Option String → String → Bool
is_text none name = false
is_text (some other) name = str_eq other name

unfoldable pub contains : List String → String → Bool
contains [] name = false
contains (n ∷ ns) name = str_eq n name || contains ns name

pub data Outcome (A : Type 0) : Type 0 where
  ok : A → List ℕ → Outcome A
  hash_conversion_failure : Outcome A
  out_of_draws : Outcome A

pub data Request : Type 0 where
  patch : String → Identity → Request
  delete : String → Request

-- `Identity::new` with the id that was drawn.
unfoldable pub with_id : String → IdentitySpec → Option (ℕ × List ℕ) → Outcome Identity
with_id name spec none = Outcome.out_of_draws
with_id name spec (some (id, draws)) =
    Outcome.ok (record { name = some name; namespace = none; spec = record spec { id = id } }) draws

-- The spec that is hashed.
abbrev pub spec_of : Namespace → Pod → IdentitySpec
spec_of ns pod = record {
  namespace_labels = ns.labels;
  pod_labels = sanitize_pod_labels pod.labels;
  id = 0;
}

module _ (hash_name : IdentitySpec → Option String) (get : String → String → Option Identity)
    (identities : List Identity) where
  -- `get` is the lookup of a name within a namespace in the store.
  unfoldable pub get_or_generate_identity : Namespace → Pod → List ℕ → Outcome Identity
  get_or_generate_identity ns pod draws = elim (hash_name (spec_of ns pod)) [
    | none ↦ Outcome.hash_conversion_failure
    | some name ↦ elim (get name ns.name_any) [
      | some ident ↦ Outcome.ok ident draws
      | none ↦ with_id name (spec_of ns pod) (pick_id identities draws)
    ]
  ]

  -- The pushes of an identity that has a name.
  abbrev pub with_name : Identity → List (String × Identity) → List (String × Identity)
  with_name i desired = elim i.name [ none ↦ desired | some n ↦ (n, i) ∷ desired ]

  unfoldable pub prepend :
      Identity → Outcome (List (String × Identity)) → Outcome (List (String × Identity))
  prepend i (Outcome.ok desired draws) = Outcome.ok (with_name i desired) draws
  prepend i Outcome.hash_conversion_failure = Outcome.hash_conversion_failure
  prepend i Outcome.out_of_draws = Outcome.out_of_draws

  -- The loop over the pods, which fills the two collections of `reconcile_namespace`.
  unfoldable pub collect_desired :
      Namespace → List Pod → List ℕ → Outcome (List (String × Identity))
  collect_desired ns [] draws = Outcome.ok [] draws
  collect_desired ns (pod ∷ pods) draws = elim (is_text pod.namespace ns.name_any) [
    | false ↦ collect_desired ns pods draws
    | true ↦ elim (get_or_generate_identity ns pod draws) [
      | ok i left ↦ prepend i (collect_desired ns pods left)
      | hash_conversion_failure ↦ Outcome.hash_conversion_failure
      | out_of_draws ↦ Outcome.out_of_draws
    ]
  ]

abbrev pub names : List (String × Identity) → List String
names = map (λ d. d.0)

unfoldable pub stale_name : List String → Option String → Option Request
stale_name desired_names none = none
stale_name desired_names (some n) =
    if contains desired_names n then none else some (Request.delete n)

-- The body of the loop over the stored identities; `none` is its `continue`.
unfoldable pub stale : Namespace → List String → Identity → Option Request
stale ns desired_names i =
    if is_text i.namespace ns.name_any then stale_name desired_names i.name else none

abbrev pub requests : Namespace → List (String × Identity) → List Identity → List Request
requests ns desired later =
    map (λ d. Request.patch d.0 d.1) desired ++ filter_map (stale ns (names desired)) later

unfoldable pub planned :
    Namespace → List Identity → Outcome (List (String × Identity)) → Outcome (List Request)
planned ns later (Outcome.ok desired draws) = Outcome.ok (requests ns desired later) draws
planned ns later Outcome.hash_conversion_failure = Outcome.hash_conversion_failure
planned ns later Outcome.out_of_draws = Outcome.out_of_draws

-- The requests of `reconcile_namespace`, which are sent in order up to the first that fails;
-- `later` is the store of identities after the patches.
unfoldable pub reconcile_namespace :
    (IdentitySpec → Option String)
    → (String → String → Option Identity)
    → List Identity
    → List Identity
    → Namespace
    → List Pod
    → List ℕ
    → Outcome (List Request)
reconcile_namespace hash_name get identities later ns pods draws =
    planned ns later (collect_desired hash_name get identities ns pods draws)
