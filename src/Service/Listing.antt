-- ===== src/Service/Listing.antt =====
-- The services of `ServiceEndpoint` as a table from keys to lists of endpoints, and what
-- `update` and `remove` do to the table.
mod Table
unfoldable pub use Table.{listing}
pub use Table.{IsNumbered, OthersKept}
use mesh_cni.BpfMap.{BpfMap}
use mesh_cni.Common.{ServiceValue, EndpointKey, endpoint_key, endpoint_key_eq}
use mesh_cni.Prelude.{
  ℕ, zero, suc, ◌+◌, ◌≤◌, ◌<◌, ◌^◌, ◌%◌, List, [], ◌∷◌, Option, some, none, ◌≡◌, ◌≢◌, ◌⊎◌, refl, ap,
  sym, ◌∙◌, ite, if_pos, if_neg, inl, inr, arith, length, get_elem?, take, take-nil, Option-cases,
}
use mathlib.Core.Option
use mesh_cni.Prelude.HashMap
use mesh_cni.Prelude.HashMap.{HashMap, Key}
use mesh_cni.Prelude.Result.{ok}
use mesh_cni.Service.Changes.{Inserted, Replaced, Removed}
use mesh_cni.Service.Update.{update-Inserted, update-Replaced, remove-Removed}
use mesh_cni.Service.{ServiceEndpoint, update, remove, collect_endpoints, endpoints_of}
use mesh_cni.Service.Listing.Table.{
  listing-Inserted, listing-Replaced, listing-Removed, Inserted-IsNumbered, Replaced-IsNumbered,
  Removed-IsNumbered,
}

module _ {S E SK EV : Type 0} ⦃key : Key SK⦄ where
  every_key :
      (k j : SK) (st st' : ServiceEndpoint S E SK EV) {x : Option (List EV)}
      → (listing st' k ≡ x) × OthersKept k st st'
      → listing st' j ≡ ite (key.same j k) x (listing st j)
  every_key k j st st' {x} (listed, others) = elim (key.same j k) [
    | yes p ↦ ap (listing st') p ∙ listed ∙ sym (if_pos (key.same j k) p x (listing st j))
    | no p ↦ others j p ∙ sym (if_neg (key.same j k) p x (listing st j))
  ]

module _ {S E SK EV : Type 0} ⦃key : Key SK⦄ (services : BpfMap S SK ServiceValue SK)
    (endpoints : BpfMap E EndpointKey EV EndpointKey) (limit : ℕ) (st : ServiceEndpoint S E SK EV)
    (num : IsNumbered limit st) (k j : SK) where
  -- `update` of a new key with the id `limit`, where the services' ids are distinct and below
  -- `limit`: when it returns `Ok`, exactly the given endpoints are listed for the key, in order,
  -- every other service keeps its list, the ids stay distinct with `limit` taken, and the id that
  -- it returns is the next one, modulo 2 ^ 16.
  pub listing-update_new :
      (value : List EV) {r : ℕ}
      → HashMap.get k st.service_cache ≡ none
      → (update services endpoints k value limit st).0 ≡ ok r
      → (listing (update services endpoints k value limit st).1 j
          ≡ ite (key.same j k) (some value) (listing st j))
        × IsNumbered (limit + 1) (update services endpoints k value limit st).1
        × (r ≡ (limit + 1) % 2 ^ 16)
  listing-update_new value {r} absent h =
      let i = update-Inserted services endpoints k value limit st absent h in
      (
        every_key k j st _ (listing-Inserted k value limit r num i),
        Inserted-IsNumbered k value limit r num i,
        i.next_id,
      )

  -- `update` of a key that is a service with `v.count` endpoints, where the services' ids are
  -- distinct and below `limit`, when it returns `Ok`: only the first `v.count` of the given
  -- endpoints are listed from then on, for the count is never written again; every other service
  -- keeps its list, the ids stay as they were, and the service's own id is returned.
  pub listing-update_known :
      (value : List EV) (id : ℕ) {v : ServiceValue} {r : ℕ}
      → HashMap.get k st.service_cache ≡ some v
      → (update services endpoints k value id st).0 ≡ ok r
      → (listing (update services endpoints k value id st).1 j
          ≡ ite (key.same j k) (some (take v.count value)) (listing st j))
        × IsNumbered limit (update services endpoints k value id st).1
        × (r ≡ v.id)
  listing-update_known value id {v} {r} present h =
      let i = update-Replaced services endpoints k value id st present h in
      (
        every_key k j st _ (listing-Replaced k v value limit r present num i),
        Replaced-IsNumbered v value limit r num i,
        i.same_id,
      )

  -- `remove` of a service, where the services' ids are distinct and below `limit`, when it returns
  -- `Ok`: the key is no service any more, every other service keeps its list, and the ids stay
  -- distinct.
  pub listing-remove :
      {v : ServiceValue}
      → HashMap.get k st.service_cache ≡ some v
      → (remove services endpoints k st).0 ≡ ok tt
      → (listing (remove services endpoints k st).1 j ≡ ite (key.same j k) none (listing st j))
        × IsNumbered limit (remove services endpoints k st).1
  listing-remove {v} present h =
      let i = remove-Removed services endpoints k st present h in
      (
        every_key k j st _ (listing-Removed k v limit present num i),
        Removed-IsNumbered k v limit num i,
      )
