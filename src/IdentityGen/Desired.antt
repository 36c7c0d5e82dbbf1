-- ===== src/IdentityGen/Desired.antt =====
-- The identities that the pods of a namespace need.
use mesh_cni.IdentityGen.{
  ok, hash_conversion_failure, out_of_draws, spec_of, IdentitySpec, Identity, Namespace, Pod,
  Outcome, pick_id, is_text, contains, with_id, get_or_generate_identity, with_name, prepend,
  collect_desired, names,
}
use mesh_cni.Prelude.{
  ℕ, String, List, [], ◌∷◌, Option, some, none, true, ◌≡◌, refl, sym, ap, ◌∙◌, inl, inr, ◌↔◌, IsIn,
  Bool-cases, Option-cases,
}
use mathlib.Core.Path.{subst}
use text.Mathlib.TextEquality.{eq_iff}
use text.Mathlib.Text.{◌==◌ as str_eq}

pub contains_iff : (ns : List String) (n : String) → (contains ns n ≡ true) ↔ IsIn n ns
unfolding contains
contains_iff ns n = (out ns, into ns)
  where
    out : (ns : List String) → contains ns n ≡ true → IsIn n ns
    out [] h = absurd (cc)
    out (m ∷ ns) h = elim (Bool-cases (str_eq m n)) [
      | inl e ↦ inl (sym ((eq_iff m n).0 e))
      | inr e ↦ inr (out ns (rw e at h))
    ]

    into : (ns : List String) → IsIn n ns → contains ns n ≡ true
    into [] h = absurd h
    into (m ∷ ns) (inl e) = let q : str_eq m n ≡ true = (eq_iff m n).1 (sym e) in rw q
    into (m ∷ ns) (inr h) = elim (Bool-cases (str_eq m n)) [
      | inl e ↦ rw e
      | inr e ↦ rw e (into ns h)
    ]

module _ (hash_name : IdentitySpec → Option String) (get : String → String → Option Identity)
    (identities : List Identity) where
  -- The lookup finds an object of that name.
  abbrev pub FindsByName : Type 0
  FindsByName = (name ns : String) (i : Identity) → get name ns ≡ some i → i.name ≡ some name

  -- Some pod of the namespace has the identity `n`.
  abbrev pub Needed : Namespace → List Pod → String → Type 0
  Needed ns pods n =
      (pod : Pod) × IsIn pod pods
      × (is_text pod.namespace ns.name_any ≡ true)
      × (hash_name (spec_of ns pod) ≡ some n)

  -- What a call that returns an identity found: its name is the hash, and it is the stored one or
  -- a new one whose id was drawn.
  pub get_or_generate_identity-named :
      FindsByName
      → (ns : Namespace) (pod : Pod) (draws : List ℕ) {i : Identity} {left : List ℕ}
      → get_or_generate_identity hash_name get identities ns pod draws ≡ Outcome.ok i left
      → (n : String) × (hash_name (spec_of ns pod) ≡ some n) × (i.name ≡ some n)
  unfolding get_or_generate_identity with_id
  get_or_generate_identity-named finds ns pod draws {i} {left} h =
      elim (Option-cases (hash_name (spec_of ns pod))) [
        | inl e ↦ absurd (
            let q : Outcome.hash_conversion_failure ≡ Outcome.ok i left =
              rw (e, get_or_generate_identity) at h in
            cc)
        | inr (n, e) ↦ elim (Option-cases (get n ns.name_any)) [
          | inr (j, f) ↦
              let q : Outcome.ok j draws ≡ Outcome.ok i left =
                rw (e, f, get_or_generate_identity) at h in
              let same : j ≡ i = cc in
              (n, e, ap (λ (x : Identity). x.name) (sym same) ∙ finds n ns.name_any j f)
          | inl f ↦ elim (Option-cases (pick_id identities draws)) [
            | inl g ↦ absurd (
                let q : Outcome.out_of_draws ≡ Outcome.ok i left =
                  rw (e, f, g, get_or_generate_identity) at h in
                cc)
            | inr (p, g) ↦
                let made : Identity = record {
                  name = some n;
                  namespace = none;
                  spec = record (spec_of ns pod) { id = p.0 };
                } in
                let q : Outcome.ok made p.1 ≡ Outcome.ok i left =
                  rw (e, f, g, get_or_generate_identity) at h in
                let same : made ≡ i = cc in (n, e, ap (λ (x : Identity). x.name) (sym same))
          ]
        ]
      ]

  -- What `prepend` makes of a result.
  pub prepend-ok :
      (i : Identity) (n : String) (o : Outcome (List (String × Identity)))
      {desired : List (String × Identity)} {left : List ℕ}
      → i.name ≡ some n
      → prepend hash_name get identities i o ≡ Outcome.ok desired left
      → (rest : List (String × Identity)) × (o ≡ Outcome.ok rest left) × (desired ≡ (n, i) ∷ rest)
  unfolding prepend
  prepend-ok i n (Outcome.ok rest draws) {desired} {left} e h =
      let q : Outcome.ok ((n, i) ∷ rest) draws ≡ Outcome.ok desired left = rw (e, with_name) at h in
      (rest, cc, cc)
  prepend-ok i n Outcome.hash_conversion_failure e h = absurd (cc)
  prepend-ok i n Outcome.out_of_draws e h = absurd (cc)

  -- A pod of the namespace pushes its identity, before those of the pods behind it.
  pub collect_desired-pod :
      FindsByName
      → (ns : Namespace) (pod : Pod) (pods : List Pod) (draws : List ℕ)
        {desired : List (String × Identity)} {left : List ℕ}
      → is_text pod.namespace ns.name_any ≡ true
      → collect_desired hash_name get identities ns (pod ∷ pods) draws ≡ Outcome.ok desired left
      → (n : String) × (i : Identity) × (rest : List (String × Identity)) × (mid : List ℕ)
        × (hash_name (spec_of ns pod) ≡ some n)
        × (collect_desired hash_name get identities ns pods mid ≡ Outcome.ok rest left)
        × (desired ≡ (n, i) ∷ rest)
  unfolding collect_desired
  collect_desired-pod finds ns pod pods draws {desired} {left} here h =
      go (get_or_generate_identity hash_name get identities ns pod draws) refl
        (rw (here, collect_desired) at h)
    where
      go :
          (o : Outcome Identity)
          → get_or_generate_identity hash_name get identities ns pod draws ≡ o
          → elim o [
            | ok i mid ↦
                prepend hash_name get identities i
                  (collect_desired hash_name get identities ns pods mid)
            | hash_conversion_failure ↦ Outcome.hash_conversion_failure
            | out_of_draws ↦ Outcome.out_of_draws
          ]
            ≡ Outcome.ok desired left
          → (n : String) × (i : Identity) × (rest : List (String × Identity)) × (mid : List ℕ)
            × (hash_name (spec_of ns pod) ≡ some n)
            × (collect_desired hash_name get identities ns pods mid ≡ Outcome.ok rest left)
            × (desired ≡ (n, i) ∷ rest)
      go (Outcome.ok i mid) e k =
          let (n, hashed, named) = get_or_generate_identity-named finds ns pod draws e in
          let (rest, a, b) =
            prepend-ok i n (collect_desired hash_name get identities ns pods mid) named k in
          (n, i, rest, mid, hashed, a, b)
      go Outcome.hash_conversion_failure e k = absurd (cc)
      go Outcome.out_of_draws e k = absurd (cc)

  pub names-collect_desired :
      FindsByName
      → (ns : Namespace) (pods : List Pod) (draws : List ℕ) {desired : List (String × Identity)}
        {left : List ℕ}
      → collect_desired hash_name get identities ns pods draws ≡ Outcome.ok desired left
      → (n : String) → IsIn n (names desired) ↔ Needed ns pods n
  unfolding collect_desired
  names-collect_desired finds ns [] draws {desired} {left} h n =
      let same : [] ≡ desired = cc in rw (← same) (λ k. absurd k, λ (pod, k, _, _). absurd k)
  names-collect_desired finds ns (pod ∷ pods) draws {desired} {left} h n =
      elim (Bool-cases (is_text pod.namespace ns.name_any)) [
        | inr e ↦
            let (out, into) =
              names-collect_desired finds ns pods draws (rw (e, collect_desired) at h) n in
            (
              λ k. let (p, a, b, c) = out k in (p, inr a, b, c),
              λ (p, a, b, c). elim a [
                | inl same ↦
                    absurd (let q : is_text pod.namespace ns.name_any ≡ true = rw (← same) b in cc)
                | inr a' ↦ into (p, a', b, c)
              ],
            )
        | inl e ↦
            let (m, i, rest, mid, hashed, tail, same) =
              collect_desired-pod finds ns pod pods draws e h in
            let (out, into) = names-collect_desired finds ns pods mid tail n in
            (
              λ k. elim (subst (λ (d : List (String × Identity)). IsIn n (names d)) same k) [
                | inl q ↦ (pod, inl refl, e, hashed ∙ ap some (sym q))
                | inr k' ↦ let (p, a, b, c) = out k' in (p, inr a, b, c)
              ],
              λ (p, a, b, c).
                  subst (λ (d : List (String × Identity)). IsIn n (names d)) (sym same)
                    (elim a [
                      | inl q ↦
                          let z : some m ≡ some n =
                            sym hashed ∙ ap (λ x. hash_name (spec_of ns x)) (sym q) ∙ c in
                          inl (cc)
                      | inr a' ↦ inr (into (p, a', b, c))
                    ]),
            )
      ]
