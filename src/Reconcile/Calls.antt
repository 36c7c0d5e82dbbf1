-- ===== src/Reconcile/Calls.antt =====
-- What `reconcile` leaves of a deleted object.
use mesh_cni.BpfMap.{BpfMap}
use mesh_cni.Common.{
  ServiceKey, ServiceKeyV4, ServiceKeyV6, ServiceValue, EndpointKey, EndpointValue, EndpointValueV4,
  EndpointValueV6, service_key_v4_eq, service_key_v6_eq, service_key_eq,
}
use mesh_cni.Prelude.{
  String, List, [], ◌∷◌, some, none, Bool, true, false, ◌≡◌, refl, ◌∙◌, inl, inr, if_pos,
}
use mesh_cni.Prelude.HashMap
use mesh_cni.Prelude.HashMap.{HashMap}
use mesh_cni.Prelude.Result.{Result, ok, err, Proc, pure, then_do, Result-cases}
use mesh_cni.Reconcile.{
  MeshController, Action, mesh_service, remove_keys, update_pairs, apply_pairs, reconcile,
}
use mesh_cni.Service.Update.{remove-Removed}
use mesh_cni.Service.Listing.{listing, IsNumbered, listing-update_new, listing-remove}
use mesh_cni.Service.State.{State, update_state, remove_state, v4_endpoints, bumped}
use mesh_cni.Service.{update}

module _ {S4 E4 S6 E6 : Type 0} (services4 : BpfMap S4 ServiceKeyV4 ServiceValue ServiceKeyV4)
    (endpoints4 : BpfMap E4 EndpointKey EndpointValueV4 EndpointKey)
    (services6 : BpfMap S6 ServiceKeyV6 ServiceValue ServiceKeyV6)
    (endpoints6 : BpfMap E6 EndpointKey EndpointValueV6 EndpointKey) where
  abbrev updates : ServiceKey → List EndpointValue → Proc (State S4 E4 S6 E6) (Unit {0})
  updates = update_state services4 endpoints4 services6 endpoints6

  abbrev removes : ServiceKey → Proc (State S4 E4 S6 E6) (Unit {0})
  removes = remove_state services4 endpoints4 services6 endpoints6

  first_step :
      (r : Result (Unit {0}) × State S4 E4 S6 E6) (f : Proc (State S4 E4 S6 E6) Action) {x : Action}
      → (then_do (then_do r (λ _. pure tt)) (λ _. f)).0 ≡ ok x
      → (r.0 ≡ ok tt) × (then_do (then_do r (λ _. pure tt)) (λ _. f) ≡ f r.1)
  first_step (ok _, s) f h = (refl, refl)
  first_step (err e, s) f h = absurd (cc)

  after_update :
      (k : ServiceKeyV4) (value : List EndpointValue) (s : State S4 E4 S6 E6)
      → IsNumbered s.id s.service_endpoint_v4
      → HashMap.get k s.service_endpoint_v4.service_cache ≡ none
      → (updates (ServiceKey.v4 k) value s).0 ≡ ok tt
      → listing (updates (ServiceKey.v4 k) value s).1.service_endpoint_v4 k
        ≡ some (v4_endpoints value)
  unfolding update_state bumped
  after_update k value s num absent done =
      elim (Result-cases
        (update services4 endpoints4 k (v4_endpoints value) s.id s.service_endpoint_v4).0) [
          | inr (msg, e) ↦ absurd (let q = rw (e, bumped) at done in cc)
          | inl (r, e) ↦
              (listing-update_new services4 endpoints4 s.id s.service_endpoint_v4 num k k
                (v4_endpoints value) absent e).0
              ∙ if_pos (service_key_v4_eq.same k k) refl (some (v4_endpoints value))
                  (listing s.service_endpoint_v4 k)
        ]

  removed_then_updated :
      (k : ServiceKeyV4) (v : ServiceValue) (value : List EndpointValue) (s : State S4 E4 S6 E6)
      → IsNumbered s.id s.service_endpoint_v4
      → HashMap.get k s.service_endpoint_v4.service_cache ≡ some v
      → (apply_pairs updates removes true ((ServiceKey.v4 k, value) ∷ []) s).0
        ≡ ok Action.await_change
      → listing
          (apply_pairs updates removes true ((ServiceKey.v4 k, value) ∷ []) s).1.service_endpoint_v4
          k
        ≡ some (v4_endpoints value)
  unfolding apply_pairs remove_keys update_pairs remove_state
  removed_then_updated k v value s num present done =
      let (e, same) = first_step (removes (ServiceKey.v4 k) s) _ done in
      let t : State S4 E4 S6 E6 = (removes (ServiceKey.v4 k) s).1 in
      let (e', same') =
        first_step (updates (ServiceKey.v4 k) value t) (pure Action.await_change)
          (let q = same in rw q at done) in
      let gone = remove-Removed services4 endpoints4 k s.service_endpoint_v4 present e in
      let num' =
        (listing-remove services4 endpoints4 s.id s.service_endpoint_v4 num k k present e).1 in
      rw same (
        rw same' (
          after_update k value t num'
            (gone.services k
              ∙ if_pos (service_key_v4_eq.same k k) refl none
                  (HashMap.get k s.service_endpoint_v4.service_cache))
            e'))

  -- A deleted object that gives one IPv4 service, which the state has: when `reconcile` reaches
  -- the calls and returns `Ok`, the service is there still, with all the endpoints that the
  -- deleted object gives.
  pub deleted_service_stays :
      {K : Type 0} (c : MeshController K) (matches : String → String → HashMap String String → Bool)
      (o : K) (namespace : String) (k : ServiceKeyV4) (v : ServiceValue)
      (value : List EndpointValue) (s : State S4 E4 S6 E6)
      → c.namespace o ≡ some namespace
      → matches mesh_service "true" (c.labels o) ≡ false
      → c.is_current o ≡ true
      → c.is_deleted o ≡ true
      → c.generate_service_pairs o ≡ (ServiceKey.v4 k, value) ∷ []
      → IsNumbered s.id s.service_endpoint_v4
      → HashMap.get k s.service_endpoint_v4.service_cache ≡ some v
      → (reconcile updates removes c matches o s).0 ≡ ok Action.await_change
      → listing (reconcile updates removes c matches o s).1.service_endpoint_v4 k
        ≡ some (v4_endpoints value)
  unfolding reconcile
  deleted_service_stays c matches o namespace k v value s given mesh current deleted pairs num
        present done =
      let same : reconcile updates removes c matches o s
          ≡ apply_pairs updates removes true ((ServiceKey.v4 k, value) ∷ []) s =
        rw (given, reconcile, mesh, current, deleted, pairs) in
      rw same (removed_then_updated k v value s num present (let q = same in rw q at done))
