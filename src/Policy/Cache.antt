-- ===== src/Policy/Cache.antt =====
-- The cache of the policy map and the map itself.
use mesh_cni.BpfMap.Laws.{IsMap}
use mesh_cni.BpfMap.{AyaMap, collect_from}
use mesh_cni.Common.{PolicyKey, PolicyValue, policy_key_eq, policy_value_eq}
use mesh_cni.Policy.{
  PolicyBpfStateInner, policy_map, with_cache, try_new, store_policy, update_policy, delete_policy,
}
use mesh_cni.Prelude.{
  List, [], ◌∷◌, Option, some, none, ◌≡◌, refl, sym, ap, ◌∙◌, ◌⊎◌, inl, inr, ◌↔◌, ite, if_pos,
  if_neg, IsIn, String, Option-cases,
}
use mesh_cni.Prelude.HashMap
use mesh_cni.Prelude.HashMap.{HashMap, Key}
use mesh_cni.Prelude.Result.{Result, ok, err, Result-cases}

-- A key's value in the table that `get_state` and `try_new` build is that of the last item with
-- the key; `f` says what each item has.
module _ {K V : Type 0} ⦃key : Key K⦄ (f : K → Option V) where
  collect_from_sound :
      (acc : HashMap K V) (l : List (Result (K × V))) {m : HashMap K V}
      → ((j : K) (v : V) → HashMap.get j acc ≡ some v → f j ≡ some v)
      → ((j : K) (v : V) → IsIn (ok (j, v)) l → f j ≡ some v)
      → collect_from (λ k. k) acc l ≡ ok m
      → (j : K) (v : V) → HashMap.get j m ≡ some v
      → f j ≡ some v
  unfolding collect_from
  collect_from_sound acc [] {m} h g e j v q = h j v (let p : acc ≡ m = cc in rw p q)
  collect_from_sound acc (err x ∷ l) h g e j v q = absurd (cc)
  collect_from_sound acc (ok (k, w) ∷ l) h g e j v q =
      collect_from_sound (HashMap.insert k w acc) l
        (λ i u r. elim (key.same i k) [
          | yes p ↦
              let a : ite (key.same i k) (some w) (HashMap.get i acc) ≡ some u =
                sym (HashMap.get-insert k i w acc) ∙ r in
              let b : some w ≡ some u =
                sym (if_pos (key.same i k) p (some w) (HashMap.get i acc)) ∙ a in
              ap f p ∙ g k w (inl refl) ∙ b
          | no p ↦ h i u (
              sym (
                HashMap.get-insert k i w acc ∙ if_neg (key.same i k) p (some w) (HashMap.get i acc))
              ∙ r)
        ])
        (λ i u r. g i u (inr r)) e j v q

  collect_from_complete :
      (acc : HashMap K V) (l : List (Result (K × V))) {m : HashMap K V}
      → collect_from (λ k. k) acc l ≡ ok m
      → (j : K) (v : V) → IsIn (ok (j, v)) l ⊎ (HashMap.get j acc ≡ some v)
      → (u : V) × (HashMap.get j m ≡ some u)
  unfolding collect_from
  collect_from_complete acc [] e j v (inl h) = absurd h
  collect_from_complete acc [] {m} e j v (inr q) = (v, let p : acc ≡ m = cc in rw (← p) q)
  collect_from_complete acc (err x ∷ l) e j v h = absurd (cc)
  collect_from_complete acc (ok (k, w) ∷ l) e j v (inl (inr h)) =
      collect_from_complete (HashMap.insert k w acc) l e j v (inl h)
  collect_from_complete acc (ok (k, w) ∷ l) e j v (inl (inl h)) =
      let p : j ≡ k = cc in
      collect_from_complete (HashMap.insert k w acc) l e j w
        (inr (HashMap.get-insert k j w acc ∙ if_pos (key.same j k) p (some w) (HashMap.get j acc)))
  collect_from_complete acc (ok (k, w) ∷ l) e j v (inr q) = elim (key.same j k) [
    | yes p ↦
        collect_from_complete (HashMap.insert k w acc) l e j w (
          inr (HashMap.get-insert k j w acc ∙ if_pos (key.same j k) p (some w) (HashMap.get j acc)))
    | no p ↦ collect_from_complete (HashMap.insert k w acc) l e j v (
        inr
          (HashMap.get-insert k j w acc ∙ if_neg (key.same j k) p (some w) (HashMap.get j acc) ∙ q))
  ]

module _ {M : Type 0} (map : AyaMap M PolicyKey PolicyValue) (laws : IsMap (policy_map map)) where
  -- Every key has the same value in the cache as in the map.
  abbrev pub IsMirror : PolicyBpfStateInner M → Type 0
  IsMirror st = (k : PolicyKey) → laws.view st.bpf_map k ≡ HashMap.get k st.cache

  -- The items of a map's iteration are its entries.
  abbrev pub IsIteration : M → Type 0
  IsIteration m =
      (k : PolicyKey) (v : PolicyValue) → IsIn (ok (k, v)) (map.iter m) ↔ (laws.view m k ≡ some v)

  -- `try_new`, when it returns a state: the map is untouched and the cache has exactly the entries
  -- that it had when the agent started, if the iteration gives the entries of the map.
  pub try_new-IsMirror :
      (m : M) {st : PolicyBpfStateInner M}
      → IsIteration m
      → try_new map m ≡ ok st
      → (st.bpf_map ≡ m) × IsMirror st
  unfolding try_new with_cache HashMap.get
  try_new-IsMirror m {st} iteration e =
      elim (Result-cases (collect_from (λ k. k) [] (map.iter m))) [
        | inr (x, q) ↦ absurd (let z : err x ≡ ok st = rw q at e in cc)
        | inl (c, q) ↦
            let z : ok (record { cache = c; bpf_map = m }) ≡ ok st = rw q at e in
            let same : record { cache = c; bpf_map = m } ≡ st = cc in
            (
              sym (ap (λ (t : PolicyBpfStateInner M). t.bpf_map) same),
              rw (← same) (λ k. agree c q k),
            )
      ]
    where
      agree :
          (c : HashMap PolicyKey PolicyValue)
          → collect_from (λ k. k) [] (map.iter m) ≡ ok c
          → (k : PolicyKey) → laws.view m k ≡ HashMap.get k c
      agree c q k = elim (Option-cases (laws.view m k)) [
        | inr (v, s) ↦
            let (u, t) =
              collect_from_complete (laws.view m) [] (map.iter m) q k v
                (inl ((iteration k v).1 s)) in
            collect_from_sound (laws.view m) [] (map.iter m) (λ j w r. absurd (cc))
              (λ j w. (iteration j w).0) q k u t
            ∙ sym t
        | inl s ↦ elim (Option-cases (HashMap.get k c)) [
          | inl t ↦ s ∙ sym t
          | inr (u, t) ↦
              collect_from_sound (laws.view m) [] (map.iter m) (λ j w r. absurd (cc))
                (λ j w. (iteration j w).0) q k u t
              ∙ sym t
        ]
      ]

  -- What a call left: the cache still mirrors the map; if the call returned `Ok`, key `k` has the
  -- value `v` and every other one what it had; on an error nothing changed.
  pub data Outcome (k : PolicyKey) (v : Option PolicyValue) (st : PolicyBpfStateInner M)
      : Result (Unit {0}) × PolicyBpfStateInner M → Type 0 where
    done :
        {t : PolicyBpfStateInner M}
        → IsMirror t
        → ((j : PolicyKey)
            → HashMap.get j t.cache ≡ ite (policy_key_eq.same j k) v (HashMap.get j st.cache))
        → Outcome k v st (ok tt, t)
    failed :
        {e : String} {t : PolicyBpfStateInner M}
        → IsMirror t
        → ((j : PolicyKey) → HashMap.get j t.cache ≡ HashMap.get j st.cache)
        → Outcome k v st (err e, t)

  store_policy-Outcome :
      (k : PolicyKey) (value : PolicyValue) (st : PolicyBpfStateInner M)
      → IsMirror st
      → Outcome k (some value) st (store_policy map k value st)
  unfolding store_policy
  store_policy-Outcome k value st h =
      elim (Result-cases ((policy_map map).update k value st.bpf_map).0) [
        | inl (_, q) ↦
            rw (q, store_policy)
              (Outcome.done
                (λ j.
                  laws.update_ok k value st.bpf_map j q
                  ∙ ap (ite (policy_key_eq.same j k) (some value)) (h j)
                  ∙ sym (HashMap.get-insert k j value st.cache))
                (λ j. HashMap.get-insert k j value st.cache))
        | inr (x, q) ↦
            rw (q, store_policy)
              (Outcome.failed (λ j. laws.update_err k value st.bpf_map x j q ∙ h j) (λ j. refl))
      ]

  update_policy-Outcome :
      (k : PolicyKey) (value : PolicyValue) (st : PolicyBpfStateInner M)
      → IsMirror st
      → Outcome k (some value) st (update_policy map k value st)
  unfolding update_policy
  update_policy-Outcome k value st h = elim (Option-cases (HashMap.get k st.cache)) [
    | inl absent ↦ rw (absent, update_policy) (store_policy-Outcome k value st h)
    | inr (current, present) ↦ elim (policy_value_eq.same current value) [
      | yes p ↦
          rw
            (
              present,
              update_policy,
              if_pos (policy_value_eq.same current value) p (ok tt, st)
                  (store_policy map k value st),
            )
            (Outcome.done h (λ j. elim (policy_key_eq.same j k) [
              | yes s ↦
                  ap (λ x. HashMap.get x st.cache) s
                  ∙ present
                  ∙ ap some p
                  ∙ sym (if_pos (policy_key_eq.same j k) s _ _)
              | no s ↦ sym (if_neg (policy_key_eq.same j k) s _ _)
            ]))
      | no p ↦
          rw
            (
              present,
              update_policy,
              if_neg (policy_value_eq.same current value) p (ok tt, st)
                  (store_policy map k value st),
            )
            (store_policy-Outcome k value st h)
    ]
  ]

  delete_policy-Outcome :
      (k : PolicyKey) (st : PolicyBpfStateInner M)
      → IsMirror st
      → Outcome k none st (delete_policy map k st)
  unfolding delete_policy
  delete_policy-Outcome k st h = elim (Result-cases ((policy_map map).delete k st.bpf_map).0) [
    | inl (_, q) ↦
        rw (q, delete_policy)
          (Outcome.done
            (λ j.
              laws.delete_ok k st.bpf_map j q
              ∙ ap (ite (policy_key_eq.same j k) none) (h j)
              ∙ sym (HashMap.get-remove k j st.cache))
            (λ j. HashMap.get-remove k j st.cache))
    | inr (x, q) ↦
        rw (q, delete_policy)
          (Outcome.failed (λ j. laws.delete_err k st.bpf_map x j q ∙ h j) (λ j. refl))
  ]

  -- From a state whose cache mirrors the map, `update` and `delete` keep the cache a mirror of the
  -- map whatever the map answers. On `Ok`, `update` gives exactly that key the value, also where it
  -- skips the map because the cache has the value already, and `delete` removes exactly that key.
  -- On an error no entry changes.
  pub update_delete_policy-Outcome :
      (k : PolicyKey) (value : PolicyValue) (st : PolicyBpfStateInner M)
      → IsMirror st
      → Outcome k (some value) st (update_policy map k value st)
        × Outcome k none st (delete_policy map k st)
  update_delete_policy-Outcome k value st h =
      (update_policy-Outcome k value st h, delete_policy-Outcome k st h)
