-- ===== src/Service/State/Restart.antt =====
-- The ids after a restart of the agent: the maps stay pinned, and the caches and the counter are new.
use mathlib.Core.Path.{subst}
use mesh_cni.BpfMap.Laws.{IsMap}
use mesh_cni.BpfMap.{BpfMap}
use mesh_cni.Common.{
  ServiceKey, ServiceKeyV4, ServiceKeyV6, ServiceValue, EndpointKey, EndpointValue, EndpointValueV4,
  EndpointValueV6, endpoint_key, endpoint_key_eq, service_key_v4_eq, service_key_v6_eq,
}
use mesh_cni.Prelude.{
  ℕ, ◌+◌, ◌%◌, ◌^◌, ◌≡◌, ◌≢◌, refl, sym, ◌∙◌, ap, inl, inr, if_pos, if_neg, List, [], ◌∷◌, some,
  none, length, String,
}
use mesh_cni.Prelude.HashMap
use mesh_cni.Prelude.HashMap.{Key, HashMap}
use mesh_cni.Prelude.Result.{ok, Result-cases, pure, lift, then_do-eq-ok, bind-Keeps, Keeps, ◌>>◌}
use mesh_cni.Service.Endpoints.{u16_try_from-eq-ok}
use mesh_cni.Service.State.{new_state, bumped, update_state, v4_endpoints}
use mesh_cni.Service.{
  ServiceEndpoint, new, put_service, put_endpoint, put_endpoints_from, insert_new_service, update,
  u16_try_from, try_from_error,
}

module _ {S E SK EV : Type 0} ⦃key : Key SK⦄ (services : BpfMap S SK ServiceValue SK)
    (endpoints : BpfMap E EndpointKey EV EndpointKey) where
  abbrev HasMap : S → ServiceEndpoint S E SK EV → Type 0
  HasMap m s = s.service_map ≡ m

  put_endpoint-HasMap :
      (m : S) (k : EndpointKey) (ep : EV) → Keeps (HasMap m) (put_endpoint services endpoints k ep)
  unfolding put_endpoint
  put_endpoint-HasMap m k ep st h = elim (Result-cases (endpoints.update k ep st.endpoint_map).0) [
    | inl (_, e) ↦ rw e h
    | inr (msg, e) ↦ rw e h
  ]

  put_endpoints_from-HasMap :
      (m : S) (message : String) (id position : ℕ) (eps : List EV)
      → Keeps (HasMap m) (put_endpoints_from services endpoints message id position eps)
  unfolding put_endpoints_from
  put_endpoints_from-HasMap m message id position [] = λ st h. h
  put_endpoints_from-HasMap m message id position (ep ∷ eps) =
      bind-Keeps (HasMap m) (lift (u16_try_from message position)) _ (λ s h. h)
        λ p.
          bind-Keeps (HasMap m) (put_endpoint services endpoints (endpoint_key id p) ep) _
            (put_endpoint-HasMap m _ ep)
            λ _. put_endpoints_from-HasMap m message id (position + 1) eps

  put_service-map :
      (k : SK) (v : ServiceValue) (st : ServiceEndpoint S E SK EV)
      → (put_service services endpoints k v st).0 ≡ ok tt
      → ((services.update k v st.service_map).0 ≡ ok tt)
        × ((put_service services endpoints k v st).1.service_map
            ≡ (services.update k v st.service_map).1)
  unfolding put_service
  put_service-map k v st h = elim (Result-cases (services.update k v st.service_map).0) [
    | inl (_, e) ↦ (e, rw e)
    | inr (msg, e) ↦ absurd (let q = rw e at h in cc)
  ]

  -- The service map has taken one entry.
  abbrev Took : SK → ServiceValue → S → ServiceEndpoint S E SK EV → Type 0
  Took k v m t = ((services.update k v m).0 ≡ ok tt) × (t.service_map ≡ (services.update k v m).1)

  insert_new_service-Took :
      (k : SK) (value : List EV) (id : ℕ) (st : ServiceEndpoint S E SK EV) {r : ℕ}
      → (insert_new_service services endpoints k value id st).0 ≡ ok r
      → Took k
          (record { id = id; count = length value })
          st.service_map
          (insert_new_service services endpoints k value id st).1
  unfolding insert_new_service
  insert_new_service-Took k value id st h =
      let put = put_endpoints_from services endpoints try_from_error id 0 value in
      let finish = put >> pure ((id + 1) % 2 ^ 16) in
      let (n, fits, h₁, same₁) =
        then_do-eq-ok (lift (u16_try_from try_from_error (length value)) st)
          (λ n. put_service services endpoints k (record { id = id; count = n }) >> finish) h in
      let count = (u16_try_from-eq-ok try_from_error (length value) fits).1 in
      let v : ServiceValue = record { id = id; count = n } in
      let (_, e₂, h₂, same₂) =
        then_do-eq-ok (put_service services endpoints k v st) (λ _. finish) h₁ in
      let (taken, at) = put_service-map k v st e₂ in
      let st₁ = (put_service services endpoints k v st).1 in
      let m = (services.update k v st.service_map).1 in
      let kept : (finish st₁).1.service_map ≡ m =
        bind-Keeps (HasMap m) put (λ _. pure ((id + 1) % 2 ^ 16))
          (put_endpoints_from-HasMap m try_from_error id 0 value) (λ _ s q. q) st₁ at in
      subst
        (λ (c : ℕ).
          Took k (record { id = id; count = c }) st.service_map
            (insert_new_service services endpoints k value id st).1)
        count (taken, ap (λ x. x.1.service_map) (same₁ ∙ same₂) ∙ kept)

  update-Took :
      (k : SK) (value : List EV) (id : ℕ) (st : ServiceEndpoint S E SK EV) {r : ℕ}
      → HashMap.get k st.service_cache ≡ none
      → (update services endpoints k value id st).0 ≡ ok r
      → Took k
          (record { id = id; count = length value })
          st.service_map
          (update services endpoints k value id st).1
  unfolding update
  update-Took k value id st absent h =
      elim (Result-cases (u16_try_from try_from_error (length value))) [
        | inr (msg, e) ↦ absurd (let q = rw (e, update) at h in cc)
        | inl (n, e) ↦
            rw (e, absent, update)
              (insert_new_service-Took k value id st (rw (e, absent, update) at h))
      ]

module _ {S4 E4 S6 E6 : Type 0} (services4 : BpfMap S4 ServiceKeyV4 ServiceValue ServiceKeyV4)
    (endpoints4 : BpfMap E4 EndpointKey EndpointValueV4 EndpointKey)
    (services6 : BpfMap S6 ServiceKeyV6 ServiceValue ServiceKeyV6)
    (endpoints6 : BpfMap E6 EndpointKey EndpointValueV6 EndpointKey) (laws : IsMap services4) where
  -- The service map once a new run of the agent has added its first service.
  abbrev pub map_after : S4 → E4 → S6 → E6 → ServiceKeyV4 → List EndpointValue → S4
  map_after s4 e4 s6 e6 k value =
      (update_state services4 endpoints4 services6 endpoints6 (ServiceKey.v4 k) value
        (new_state (new s4 e4) (new s6 e6))).1.service_endpoint_v4.service_map

  -- A service that an earlier run of the agent left in the pinned map with id 128, the first that
  -- it gave: the first other service that the new run adds gets the same id, and the map holds
  -- both.
  pub restart_shares_id :
      (s4 : S4) (e4 : E4) (s6 : S6) (e6 : E6) (j k : ServiceKeyV4) (v : ServiceValue)
      (value : List EndpointValue)
      → laws.view s4 j ≡ some v
      → v.id ≡ 128
      → j ≢ k
      → (update_state services4 endpoints4 services6 endpoints6
          (ServiceKey.v4 k)
          value
          (new_state (new s4 e4) (new s6 e6))).0
        ≡ ok tt
      → (w : ServiceValue) × (laws.view (map_after s4 e4 s6 e6 k value) j ≡ some v)
        × (laws.view (map_after s4 e4 s6 e6 k value) k ≡ some w)
        × (w.id ≡ v.id)
  unfolding update_state bumped new_state new HashMap.get
  restart_shares_id s4 e4 s6 e6 j k v value left first ne done =
      elim (Result-cases (update services4 endpoints4 k (v4_endpoints value) 128 (new s4 e4)).0) [
        | inr (msg, e) ↦ absurd (let q = rw (e, bumped) at done in cc)
        | inl (r, e) ↦
            let w : ServiceValue = record { id = 128; count = length (v4_endpoints value) } in
            let (taken, at) =
              update-Took services4 endpoints4 k (v4_endpoints value) 128 (new s4 e4) refl e in
            (
              w,
              ap (λ m. laws.view m j) at
                  ∙ laws.update_ok k w s4 j taken
                  ∙ if_neg (service_key_v4_eq.same j k) ne (some w) _
                  ∙ left,
              ap (λ m. laws.view m k) at
                  ∙ laws.update_ok k w s4 k taken
                  ∙ if_pos (service_key_v4_eq.same k k) refl (some w) _,
              sym first,
            )
      ]
