-- ===== src/IdentityGen/Plan.antt =====
-- Which identities `reconcile_namespace` writes and deletes.
use mesh_cni.IdentityGen.Desired.{FindsByName, Needed, contains_iff, names-collect_desired}
use mesh_cni.IdentityGen.{
  IdentitySpec, Identity, Namespace, Pod, Outcome, Request, is_text, contains, collect_desired,
  names, stale, stale_name, requests, planned, reconcile_namespace,
}
use mesh_cni.Prelude.{
  ℕ, String, List, [], ◌∷◌, Option, some, none, Bool, true, false, ◌≡◌, refl, sym, ap, ◌∙◌, inl,
  inr, ◌↔◌, map, filter_map, IsIn, IsIn-append, IsIn-append_left, IsIn-append_right,
  IsIn-filter_map, Bool-cases, if◌then◌else◌,
}
use mathlib.Core.Path.{subst}

abbrev patches : List (String × Identity) → List Request
patches desired = map (λ d. Request.patch d.0 d.1) desired

patches_no_delete :
    (n : String) (desired : List (String × Identity)) → ¬ IsIn (Request.delete n) (patches desired)
patches_no_delete n [] h = h
patches_no_delete n (d ∷ desired) (inl e) = cc
patches_no_delete n (d ∷ desired) (inr h) = patches_no_delete n desired h

patches_has_name :
    (n : String) (desired : List (String × Identity))
    → IsIn n (names desired)
    → (i : Identity) × IsIn (Request.patch n i) (patches desired)
patches_has_name n [] h = absurd h
patches_has_name n (d ∷ desired) (inl e) = (d.1, inl (rw e))
patches_has_name n (d ∷ desired) (inr h) = let (i, k) = patches_has_name n desired h in (i, inr k)

name_of_patch :
    (n : String) (i : Identity) (desired : List (String × Identity))
    → IsIn (Request.patch n i) (patches desired)
    → IsIn n (names desired)
name_of_patch n i [] h = absurd h
name_of_patch n i (d ∷ desired) (inl e) = inl (cc)
name_of_patch n i (d ∷ desired) (inr h) = inr (name_of_patch n i desired h)

-- A stored identity is deleted if and only if it is of the namespace, has the name, and the name
-- is not wanted.
stale_iff :
    (ns : Namespace) (wanted : List String) (i : Identity) (r : Request)
    → (stale ns wanted i ≡ some r) ↔ (
        (n : String) × (r ≡ Request.delete n)
        × (is_text i.namespace ns.name_any ≡ true)
        × (i.name ≡ some n)
        × (contains wanted n ≡ false))
unfolding stale stale_name
stale_iff ns wanted i r = (
  go (is_text i.namespace ns.name_any) i.name,
  λ (n, same, here, named, unwanted). rw (here, named, unwanted, stale) (ap some (sym same)),
)
  where
    go :
        (b : Bool) (o : Option String)
        → (if b then stale_name wanted o else none) ≡ some r
        → (n : String) × (r ≡ Request.delete n)
          × (b ≡ true)
          × (o ≡ some n)
          × (contains wanted n ≡ false)
    go false o h = absurd (cc)
    go true none h = absurd (cc)
    go true (some n) h = elim (Bool-cases (contains wanted n)) [
      | inl e ↦ absurd (let q : none ≡ some r = rw e at h in cc)
      | inr e ↦ let q : some (Request.delete n) ≡ some r = rw e at h in (n, cc, refl, refl, e)
    ]

planned-ok :
    (ns : Namespace) (later : List Identity) (o : Outcome (List (String × Identity)))
    {all : List Request} {left : List ℕ}
    → planned ns later o ≡ Outcome.ok all left
    → (desired : List (String × Identity)) × (o ≡ Outcome.ok desired left)
      × (requests ns desired later ≡ all)
unfolding planned
planned-ok ns later (Outcome.ok desired draws) h = (desired, cc, cc)
planned-ok ns later Outcome.hash_conversion_failure h = absurd (cc)
planned-ok ns later Outcome.out_of_draws h = absurd (cc)

module _ (hash_name : IdentitySpec → Option String) (get : String → String → Option Identity)
    (identities later : List Identity) where
  -- The requests of a call that comes to its requests, where the lookup finds objects by their
  -- name. An identity is deleted if and only if a stored identity of the namespace has its name
  -- and no pod of the namespace hashes to it.
  pub delete-reconcile_namespace :
      (ns : Namespace) (pods : List Pod) (draws left : List ℕ) (all : List Request) (n : String)
      → FindsByName hash_name get identities
      → reconcile_namespace hash_name get identities later ns pods draws ≡ Outcome.ok all left
      → IsIn (Request.delete n) all ↔ (
          ((i : Identity) × IsIn i later
            × (is_text i.namespace ns.name_any ≡ true)
            × (i.name ≡ some n))
          × ¬ Needed hash_name get identities ns pods n)
  unfolding reconcile_namespace planned
  delete-reconcile_namespace ns pods draws left all n finds h =
      let (desired, got, same) =
        planned-ok ns later (collect_desired hash_name get identities ns pods draws) h in
      subst
        (λ l. IsIn (Request.delete n) l ↔ (
          ((i : Identity) × IsIn i later
            × (is_text i.namespace ns.name_any ≡ true)
            × (i.name ≡ some n))
          × ¬ Needed hash_name get identities ns pods n))
        same
        (
          out desired (names-collect_desired hash_name get identities finds ns pods draws got n),
          into desired (names-collect_desired hash_name get identities finds ns pods draws got n),
        )
    where
      out :
          (desired : List (String × Identity))
          → IsIn n (names desired) ↔ Needed hash_name get identities ns pods n
          → IsIn (Request.delete n) (requests ns desired later)
          → ((i : Identity) × IsIn i later
              × (is_text i.namespace ns.name_any ≡ true)
              × (i.name ≡ some n))
            × ¬ Needed hash_name get identities ns pods n
      out desired needs k =
          elim (IsIn-append (Request.delete n) (patches desired)
            (filter_map (stale ns (names desired)) later) k) [
              | inl p ↦ absurd (patches_no_delete n desired p)
              | inr q ↦
                  let (i, at, e) =
                    (IsIn-filter_map (stale ns (names desired)) (Request.delete n) later).0 q in
                  let (m, r, here, named, unwanted) =
                    (stale_iff ns (names desired) i (Request.delete n)).0 e in
                  let same : m ≡ n = cc in
                  (
                    (i, at, here, named ∙ ap some same),
                    λ need.
                        let wanted : contains (names desired) n ≡ true =
                          (contains_iff (names desired) n).1 (needs.1 need) in
                        let free : contains (names desired) n ≡ false =
                          ap (contains (names desired)) (sym same) ∙ unwanted in
                        cc,
                  )
            ]

      into :
          (desired : List (String × Identity))
          → IsIn n (names desired) ↔ Needed hash_name get identities ns pods n
          → ((i : Identity) × IsIn i later
              × (is_text i.namespace ns.name_any ≡ true)
              × (i.name ≡ some n))
            × ¬ Needed hash_name get identities ns pods n
          → IsIn (Request.delete n) (requests ns desired later)
      into desired needs ((i, at, here, named), free) =
          elim (Bool-cases (contains (names desired) n)) [
            | inl wanted ↦ absurd (free (needs.0 ((contains_iff (names desired) n).0 wanted)))
            | inr unwanted ↦
                IsIn-append_right (Request.delete n) (patches desired)
                  (filter_map (stale ns (names desired)) later)
                  ((IsIn-filter_map (stale ns (names desired)) (Request.delete n) later).1 (
                    i,
                    at,
                    (stale_iff ns (names desired) i (Request.delete n)).1
                        (n, refl, here, named, unwanted),
                  ))
          ]

  -- Of the same call: an identity is written if and only if some pod of the namespace hashes to its
  -- name.
  pub patch-reconcile_namespace :
      (ns : Namespace) (pods : List Pod) (draws left : List ℕ) (all : List Request) (n : String)
      → FindsByName hash_name get identities
      → reconcile_namespace hash_name get identities later ns pods draws ≡ Outcome.ok all left
      → ((i : Identity) × IsIn (Request.patch n i) all) ↔ Needed hash_name get identities ns pods n
  unfolding reconcile_namespace planned
  patch-reconcile_namespace ns pods draws left all n finds h =
      let (desired, got, same) =
        planned-ok ns later (collect_desired hash_name get identities ns pods draws) h in
      let needs = names-collect_desired hash_name get identities finds ns pods draws got n in
      (
        λ (i, k).
            needs.0 (written desired i (subst (λ l. IsIn (Request.patch n i) l) (sym same) k)),
        λ need.
            let (i, k) = patches_has_name n desired (needs.1 need) in
            (
              i,
              subst (λ l. IsIn (Request.patch n i) l) same
                  (IsIn-append_left (Request.patch n i) (patches desired)
                    (filter_map (stale ns (names desired)) later) k),
            ),
      )
    where
      written :
          (desired : List (String × Identity)) (i : Identity)
          → IsIn (Request.patch n i) (requests ns desired later)
          → IsIn n (names desired)
      written desired i k =
          elim (IsIn-append (Request.patch n i) (patches desired)
            (filter_map (stale ns (names desired)) later) k) [
              | inl p ↦ name_of_patch n i desired p
              | inr q ↦
                  let (j, at, e) =
                    (IsIn-filter_map (stale ns (names desired)) (Request.patch n i) later).0 q in
                  let (m, r, here, named, unwanted) =
                    (stale_iff ns (names desired) j (Request.patch n i)).0 e in
                  absurd (cc)
            ]
