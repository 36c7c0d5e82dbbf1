-- ===== src/Service/State/Faults.antt =====
-- Where `ServiceEndpointState` gives one id to two services.
use mesh_cni.BpfMap.{BpfMap}
use mesh_cni.Common.{
  ServiceKey, ServiceKeyV4, ServiceKeyV6, ServiceValue, EndpointKey, EndpointValue, EndpointValueV4,
  EndpointValueV6, endpoint_key, endpoint_key_eq, service_key_v4_eq, service_key_v6_eq,
}
use mesh_cni.Prelude.{
  ℕ, ◌+◌, ◌%◌, ◌^◌, ◌<◌, ◌≡◌, ◌≢◌, refl, ◌∙◌, ap, inl, inr, if_pos, arith, List, [], ◌∷◌, Option,
  some, none, length, String,
}
use mesh_cni.Prelude.HashMap
use mesh_cni.Prelude.HashMap.{Key, HashMap}
use mesh_cni.Prelude.Result.{ok, err, Result-cases, pure, lift, then_do_ok, bind-Keeps, Keeps, ◌>>◌}
use mesh_cni.Service.Endpoints.{put_service-eq-ok}
use mesh_cni.Service.Update.{update-Inserted}
use mesh_cni.Service.State.{State, bump, bumped, update_state, v4_endpoints}
use mesh_cni.Service.{
  ServiceEndpoint, put_service, put_endpoint, put_endpoints_from, insert_new_service, update,
  u16_try_from, try_from_error,
}

abbrev numbered : ℕ → ℕ → Option ServiceValue
numbered count id = some (record { id = id; count = count })

module _ {S E SK EV : Type 0} ⦃key : Key SK⦄ (services : BpfMap S SK ServiceValue SK)
    (endpoints : BpfMap E EndpointKey EV EndpointKey) where
  abbrev HasCache : HashMap SK ServiceValue → ServiceEndpoint S E SK EV → Type 0
  HasCache c s = s.service_cache ≡ c

  put_endpoint-HasCache :
      (c : HashMap SK ServiceValue) (k : EndpointKey) (ep : EV)
      → Keeps (HasCache c) (put_endpoint services endpoints k ep)
  unfolding put_endpoint
  put_endpoint-HasCache c k ep st m =
      elim (Result-cases (endpoints.update k ep st.endpoint_map).0) [
        | inl (_, e) ↦ rw e m
        | inr (msg, e) ↦ rw e m
      ]

  put_endpoints_from-HasCache :
      (c : HashMap SK ServiceValue) (message : String) (id position : ℕ) (eps : List EV)
      → Keeps (HasCache c) (put_endpoints_from services endpoints message id position eps)
  unfolding put_endpoints_from
  put_endpoints_from-HasCache c message id position [] = λ st m. m
  put_endpoints_from-HasCache c message id position (ep ∷ eps) =
      bind-Keeps (HasCache c) (lift (u16_try_from message position)) _ (λ s m. m)
        λ p.
          bind-Keeps (HasCache c) (put_endpoint services endpoints (endpoint_key id p) ep) _
            (put_endpoint-HasCache c _ ep)
            λ _. put_endpoints_from-HasCache c message id (position + 1) eps

  -- Once the service map has taken a new service, the cache has it, whatever the endpoints do.
  update-service_kept :
      (k : SK) (value : List EV) (id : ℕ) (st : ServiceEndpoint S E SK EV)
      → HashMap.get k st.service_cache ≡ none
      → u16_try_from try_from_error (length value) ≡ ok (length value)
      → (put_service services endpoints k (record { id = id; count = length value }) st).0 ≡ ok tt
      → (update services endpoints k value id st).1.service_cache
        ≡ HashMap.insert k (record { id = id; count = length value }) st.service_cache
  unfolding update insert_new_service
  update-service_kept k value id st absent fits stored =
      let v : ServiceValue = record { id = id; count = length value } in
      let put = put_endpoints_from services endpoints try_from_error id 0 value in
      let cache = HashMap.insert k v st.service_cache in
      let w = put_service-eq-ok services endpoints k v st stored in
      rw (absent, fits)
        (rw
          (then_do_ok (put_service services endpoints k v st) (λ _. put >> pure ((id + 1) % 2 ^ 16))
            stored)
          (bind-Keeps (HasCache cache) put (λ _. pure ((id + 1) % 2 ^ 16))
            (put_endpoints_from-HasCache cache try_from_error id 0 value) (λ _ s m. m)
            (put_service services endpoints k v st).1 w.0))

module _ {S4 E4 S6 E6 : Type 0} (services4 : BpfMap S4 ServiceKeyV4 ServiceValue ServiceKeyV4)
    (endpoints4 : BpfMap E4 EndpointKey EndpointValueV4 EndpointKey)
    (services6 : BpfMap S6 ServiceKeyV6 ServiceValue ServiceKeyV6)
    (endpoints6 : BpfMap E6 EndpointKey EndpointValueV6 EndpointKey) (s : State S4 E4 S6 E6)
    (k j : ServiceKeyV4) (value value' : List EndpointValue) where
  abbrev after_k : State S4 E4 S6 E6
  after_k = (update_state services4 endpoints4 services6 endpoints6 (ServiceKey.v4 k) value s).1

  abbrev after_j : State S4 E4 S6 E6
  after_j =
      (update_state services4 endpoints4 services6 endpoints6 (ServiceKey.v4 j) value' after_k).1

  -- The second service takes the id that the counter still shows, and the first keeps its own.
  second_service :
      (v : ServiceValue)
      → HashMap.get k after_k.service_endpoint_v4.service_cache ≡ some v
      → k ≢ j
      → HashMap.get j after_k.service_endpoint_v4.service_cache ≡ none
      → (update_state services4 endpoints4 services6 endpoints6 (ServiceKey.v4 j) value' after_k).0
        ≡ ok tt
      → (HashMap.get k after_j.service_endpoint_v4.service_cache ≡ some v)
        × (HashMap.get j after_j.service_endpoint_v4.service_cache
            ≡ some (record { id = after_k.id; count = length (v4_endpoints value') }))
  unfolding update_state bumped
  second_service v at_k ne absent done =
      elim (Result-cases
        (update services4 endpoints4 j (v4_endpoints value') after_k.id
          after_k.service_endpoint_v4).0) [
            | inr (msg, e) ↦ absurd (let q = rw (e, bumped) at done in cc)
            | inl (r, e) ↦
                let i =
                  update-Inserted services4 endpoints4 j (v4_endpoints value') after_k.id
                    after_k.service_endpoint_v4 absent e in
                (i.other_services k ne ∙ at_k, i.service)
          ]

  -- At the end of the id range: if the counter is 65535, two services that are new one after the
  -- other get the same id, though both updates return `Ok`.
  pub id_range_end :
      s.id ≡ 65535
      → k ≢ j
      → HashMap.get k s.service_endpoint_v4.service_cache ≡ none
      → (update_state services4 endpoints4 services6 endpoints6 (ServiceKey.v4 k) value s).0 ≡ ok tt
      → HashMap.get j after_k.service_endpoint_v4.service_cache ≡ none
      → (update_state services4 endpoints4 services6 endpoints6 (ServiceKey.v4 j) value' after_k).0
        ≡ ok tt
      → (HashMap.get k after_j.service_endpoint_v4.service_cache
          ≡ some (record { id = 65535; count = length (v4_endpoints value) }))
        × (HashMap.get j after_j.service_endpoint_v4.service_cache
            ≡ some (record { id = 65535; count = length (v4_endpoints value') }))
  unfolding update_state bumped bump
  id_range_end full ne absent done absent' done' =
      elim (Result-cases
        (update services4 endpoints4 k (v4_endpoints value) s.id s.service_endpoint_v4).0) [
          | inr (msg, e) ↦ absurd (let q = rw (e, bumped) at done in cc)
          | inl (r, e) ↦
              let i =
                update-Inserted services4 endpoints4 k (v4_endpoints value) s.id
                  s.service_endpoint_v4 absent e in
              let still : after_k.id ≡ 65535 = rw (e, bumped) (ground (arith, i.next_id)) in
              let two = second_service _ i.service ne absent' done' in
              (
                two.0 ∙ ap (numbered (length (v4_endpoints value))) full,
                two.1 ∙ ap (numbered (length (v4_endpoints value'))) still,
              )
        ]

  -- If the endpoint map refuses an endpoint of a new service, the service stays in the service
  -- map with an id that the counter still shows, and the next new service gets the same id.
  pub failed_update_id :
      (e : String)
      → length (v4_endpoints value) < 2 ^ 16
      → k ≢ j
      → HashMap.get k s.service_endpoint_v4.service_cache ≡ none
      → (services4.update k
          (record { id = s.id; count = length (v4_endpoints value) })
          s.service_endpoint_v4.service_map).0
        ≡ ok tt
      → (update_state services4 endpoints4 services6 endpoints6 (ServiceKey.v4 k) value s).0 ≡ err e
      → HashMap.get j s.service_endpoint_v4.service_cache ≡ none
      → (update_state services4 endpoints4 services6 endpoints6 (ServiceKey.v4 j) value' after_k).0
        ≡ ok tt
      → (HashMap.get k after_j.service_endpoint_v4.service_cache
          ≡ some (record { id = s.id; count = length (v4_endpoints value) }))
        × (HashMap.get j after_j.service_endpoint_v4.service_cache
            ≡ some (record { id = s.id; count = length (v4_endpoints value') }))
  unfolding update_state bumped u16_try_from put_service
  failed_update_id msg fits ne absent stored failed absent' done' =
      elim (Result-cases
        (update services4 endpoints4 k (v4_endpoints value) s.id s.service_endpoint_v4).0) [
          | inl (r, e) ↦ absurd (let q = rw (e, bumped) at failed in cc)
          | inr (m, e) ↦
              let v : ServiceValue = record { id = s.id; count = length (v4_endpoints value) } in
              let kept =
                update-service_kept services4 endpoints4 k (v4_endpoints value) s.id
                  s.service_endpoint_v4 absent (ground arith) (rw stored) in
              let still : after_k.id ≡ s.id = rw (e, bumped) in
              let at_k : HashMap.get k after_k.service_endpoint_v4.service_cache ≡ some v =
                rw kept (
                  HashMap.get-insert k k v _
                  ∙ if_pos (service_key_v4_eq.same k k) refl (some v)
                      (HashMap.get k s.service_endpoint_v4.service_cache)) in
              let at_j : HashMap.get j after_k.service_endpoint_v4.service_cache ≡ none =
                rw kept (HashMap.get-insert k j v _ ∙ (ground (arith))) in
              let two = second_service v at_k ne at_j done' in
              (two.0, two.1 ∙ ap (numbered (length (v4_endpoints value'))) still)
        ]
