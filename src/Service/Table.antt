-- ===== src/Service/Table.antt =====
-- A family's services as one table from keys to the recorded count and the listed endpoints, and
-- what `update` and `remove` make of it.
use mesh_cni.BpfMap.{BpfMap}
use mesh_cni.Common.{ServiceValue, EndpointKey, endpoint_key_eq}
use mesh_cni.Prelude.{
  ℕ, List, Option, some, none, ◌≡◌, refl, sym, ap, ◌∙◌, ite, if_pos, if_neg, inl, inr, length, take,
  Option-cases,
}
use mathlib.Core.Option
use mesh_cni.Prelude.HashMap
use mesh_cni.Prelude.HashMap.{Key}
use mesh_cni.Prelude.Result.{ok}
use mesh_cni.Service.Listing.{
  listing, IsNumbered, listing-update_new, listing-update_known, listing-remove,
}
use mesh_cni.Service.Update.{update-Inserted, update-Replaced, remove-Removed}
use mesh_cni.Service.{ServiceEndpoint, update, remove}

abbrev pub both : {A B : Type 0} → Option A → Option B → Option (A × B)
both none o = none
both (some a) none = none
both (some a) (some b) = some (a, b)

both-ite :
    {A B P : Type 0} (d : Dec P) (a : A) (b : B) (x : Option A) (y : Option B)
    → both (ite d (some a) x) (ite d (some b) y) ≡ ite d (some (a, b)) (both x y)
both-ite (yes p) a b x y = refl
both-ite (no p) a b x y = refl

both-ite-none :
    {A B P : Type 0} (d : Dec P) (x : Option A) (y : Option B)
    → both (ite d none x) (ite d none y) ≡ ite d none (both x y)
both-ite-none (yes p) x y = refl
both-ite-none (no p) x y = refl

-- The count of a service is that of its first endpoints, and its list never gets longer.
abbrev pub put : {A : Type 0} → Option (ℕ × List A) → List A → ℕ × List A
put none value = (length value, value)
put (some (count, _)) value = (count, take count value)

module _ {S E SK EV : Type 0} ⦃key : Key SK⦄ where
  abbrev pub counted : ServiceEndpoint S E SK EV → SK → Option ℕ
  counted st k = Option.map (λ (v : ServiceValue). v.count) (HashMap.get k st.service_cache)

  abbrev pub table : ServiceEndpoint S E SK EV → SK → Option (ℕ × List EV)
  table st k = both (counted st k) (listing st k)

  pub table-listing :
      (st : ServiceEndpoint S E SK EV) (k : SK) → Option.map (λ r. r.1) (table st k) ≡ listing st k
  unfolding listing
  table-listing st k = elim (Option-cases (HashMap.get k st.service_cache)) [
    | inl e ↦ rw e refl
    | inr (v, e) ↦ rw e refl
  ]

  module _ (services : BpfMap S SK ServiceValue SK)
      (endpoints : BpfMap E EndpointKey EV EndpointKey) (limit : ℕ) (st : ServiceEndpoint S E SK EV)
      (num : IsNumbered limit st) (k j : SK) where
    pub table-update :
        (value : List EV) {r : ℕ}
        → (update services endpoints k value limit st).0 ≡ ok r
        → table (update services endpoints k value limit st).1 j
          ≡ ite (key.same j k) (some (put (table st k) value)) (table st j)
    unfolding listing
    table-update value {r} h = elim (Option-cases (HashMap.get k st.service_cache)) [
      | inl absent ↦
          let w = update-Inserted services endpoints k value limit st absent h in
          let st' = (update services endpoints k value limit st).1 in
          let counts : counted st' j ≡ ite (key.same j k) (some (length value)) (counted st j) =
            elim (key.same j k) [
              | yes p ↦
                  ap (counted st') p
                  ∙ ap (Option.map (λ (v : ServiceValue). v.count)) w.service
                  ∙ sym (if_pos (key.same j k) p (some (length value)) (counted st j))
              | no p ↦
                  ap (Option.map (λ (v : ServiceValue). v.count)) (w.other_services j p)
                  ∙ sym (if_neg (key.same j k) p (some (length value)) (counted st j))
            ] in
          let lists = (listing-update_new services endpoints limit st num k j value absent h).0 in
          ap (λ c. both c (listing st' j)) counts
          ∙ ap (both (ite (key.same j k) (some (length value)) (counted st j))) lists
          ∙ both-ite (key.same j k) (length value) value (counted st j) (listing st j)
          ∙ ap
              (λ x.
                ite (key.same j k)
                  (some (
                    put (both (Option.map (λ (v : ServiceValue). v.count) x) (listing st k)) value))
                  (table st j))
              (sym absent)
      | inr (v, present) ↦
          let w = update-Replaced services endpoints k value limit st present h in
          let st' = (update services endpoints k value limit st).1 in
          let counts : counted st' j ≡ ite (key.same j k) (some v.count) (counted st j) =
            elim (key.same j k) [
              | yes p ↦
                  ap (λ c. Option.map (λ (v : ServiceValue). v.count) (HashMap.get j c)) w.services
                  ∙ ap (counted st) p
                  ∙ ap (Option.map (λ (v : ServiceValue). v.count)) present
                  ∙ sym (if_pos (key.same j k) p (some v.count) (counted st j))
              | no p ↦
                  ap (λ c. Option.map (λ (v : ServiceValue). v.count) (HashMap.get j c)) w.services
                  ∙ sym (if_neg (key.same j k) p (some v.count) (counted st j))
            ] in
          let lists =
            (listing-update_known services endpoints limit st num k j value limit present h).0 in
          let entry : put (table st k) value ≡ (v.count, take v.count value) = rw present refl in
          ap (λ c. both c (listing st' j)) counts
          ∙ ap (both (ite (key.same j k) (some v.count) (counted st j))) lists
          ∙ both-ite (key.same j k) v.count (take v.count value) (counted st j) (listing st j)
          ∙ ap (λ x. ite (key.same j k) (some x) (table st j)) (sym entry)
    ]

    pub table-remove :
        (remove services endpoints k st).0 ≡ ok tt
        → table (remove services endpoints k st).1 j ≡ ite (key.same j k) none (table st j)
    unfolding remove listing
    table-remove h = elim (Option-cases (HashMap.get k st.service_cache)) [
      | inl absent ↦
          rw (absent, remove)
            (elim (key.same j k) [
              | yes p ↦
                  ap (table st) p
                  ∙ ap (λ x. both (Option.map (λ (v : ServiceValue). v.count) x) (listing st k))
                      absent
                  ∙ sym (if_pos (key.same j k) p none (table st j))
              | no p ↦ sym (if_neg (key.same j k) p none (table st j))
            ])
      | inr (v, present) ↦
          let w = remove-Removed services endpoints k st present h in
          let st' = (remove services endpoints k st).1 in
          let counts : counted st' j ≡ ite (key.same j k) none (counted st j) =
            elim (key.same j k) [
              | yes p ↦
                  ap (Option.map (λ (v : ServiceValue). v.count))
                    (w.services j ∙ if_pos (key.same j k) p none _)
                  ∙ sym (if_pos (key.same j k) p none (counted st j))
              | no p ↦
                  ap (Option.map (λ (v : ServiceValue). v.count))
                    (w.services j ∙ if_neg (key.same j k) p none _)
                  ∙ sym (if_neg (key.same j k) p none (counted st j))
            ] in
          let lists = (listing-remove services endpoints limit st num k j present h).0 in
          ap (λ c. both c (listing st' j)) counts
          ∙ ap (both (ite (key.same j k) none (counted st j))) lists
          ∙ both-ite-none (key.same j k) (counted st j) (listing st j)
    ]
