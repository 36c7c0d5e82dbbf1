-- ===== src/Service/State.antt =====
-- mesh-cni/src/bpf/service/state.rs: `ServiceEndpointState`, both address families behind one
-- mutex, with the counter of service ids. A call holds the lock from its first line to its end,
-- so the calls are functions of the locked state.
pub mod Ids
pub mod Faults
pub mod Restart
pub mod Cached
pub mod Refined
use mesh_cni.BpfMap.{BpfMap}
use mesh_cni.Common.{
  ServiceKey, ServiceKeyV4, ServiceKeyV6, ServiceValue, EndpointKey, EndpointValue, EndpointValueV4,
  EndpointValueV6, endpoint_key_eq, service_key_eq, service_key_v4_eq, service_key_v6_eq,
}
use mesh_cni.Prelude.{ℕ, ◌+◌, ◌%◌, ◌^◌, List, [], ◌∷◌, Option, some, none, map, ltb, if◌then◌else◌}
use mesh_cni.Prelude.HashMap
use mesh_cni.Prelude.HashMap.{HashMap, Key}
use mesh_cni.Prelude.Result.{Result, ok, err, Proc, and_then}
use mesh_cni.Service.{ServiceEndpoint, new, update, remove, endpoints_of}

unfoldable pub v4_endpoints : List EndpointValue → List EndpointValueV4
v4_endpoints [] = []
v4_endpoints (EndpointValue.v4 e ∷ es) = e ∷ v4_endpoints es
v4_endpoints (EndpointValue.v6 e ∷ es) = v4_endpoints es

unfoldable pub v6_endpoints : List EndpointValue → List EndpointValueV6
v6_endpoints [] = []
v6_endpoints (EndpointValue.v4 e ∷ es) = v6_endpoints es
v6_endpoints (EndpointValue.v6 e ∷ es) = e ∷ v6_endpoints es

pub record State (S4 E4 S6 E6 : Type 0) : Type 0 where
  pub service_endpoint_v4 : ServiceEndpoint S4 E4 ServiceKeyV4 EndpointValueV4
  pub service_endpoint_v6 : ServiceEndpoint S6 E6 ServiceKeyV6 EndpointValueV6
  pub id : ℕ

unfoldable pub new_state :
    {S4 E4 S6 E6 : Type 0}
    → ServiceEndpoint S4 E4 ServiceKeyV4 EndpointValueV4
    → ServiceEndpoint S6 E6 ServiceKeyV6 EndpointValueV6
    → State S4 E4 S6 E6
new_state v4 v6 = record { service_endpoint_v4 = v4; service_endpoint_v6 = v6; id = 128 }

-- `if new_id > current_id { state.id += 1 }`
unfoldable pub bump : ℕ → ℕ → ℕ
bump current_id new_id = if ltb current_id new_id then (current_id + 1) % 2 ^ 16 else current_id

-- The end of `update`, from the result of the family's `update`.
unfoldable pub bumped : ℕ → Result ℕ → Result (Unit {0}) × ℕ
bumped current_id (ok new_id) = (ok tt, bump current_id new_id)
bumped current_id (err e) = (err e, current_id)

-- The loop of `state_from_cache` over the services of one family.
unfoldable pub list_services :
    {SK EV : Type 0}
    → (SK → ServiceKey)
    → (EV → EndpointValue)
    → HashMap EndpointKey EV
    → List (SK × ServiceValue)
    → HashMap ServiceKey (List EndpointValue)
    → HashMap ServiceKey (List EndpointValue)
list_services to_key to_value cache [] out = out
list_services to_key to_value cache ((k, v) ∷ rest) out =
    list_services to_key to_value cache rest
      (HashMap.insert (to_key k) (map to_value (endpoints_of cache v)) out)

-- The loop of `get_service_map` and `get_endpoint_map`.
unfoldable pub copy_from : {K V : Type 0} ⦃key : Key K⦄ → List (K × V) → HashMap K V → HashMap K V
copy_from [] map = map
copy_from ((k, v) ∷ rest) map = copy_from rest (HashMap.insert k v map)

abbrev pub copy_state : {K V : Type 0} ⦃key : Key K⦄ → Result (HashMap K V) → Result (HashMap K V)
copy_state (ok state) = ok (copy_from state [])
copy_state (err e) = err e

module _ {S4 E4 S6 E6 : Type 0} (services4 : BpfMap S4 ServiceKeyV4 ServiceValue ServiceKeyV4)
    (endpoints4 : BpfMap E4 EndpointKey EndpointValueV4 EndpointKey)
    (services6 : BpfMap S6 ServiceKeyV6 ServiceValue ServiceKeyV6)
    (endpoints6 : BpfMap E6 EndpointKey EndpointValueV6 EndpointKey) where
  unfoldable pub update_state :
      ServiceKey → List EndpointValue → Proc (State S4 E4 S6 E6) (Unit {0})
  update_state (ServiceKey.v4 k) value s =
      let r = update services4 endpoints4 k (v4_endpoints value) s.id s.service_endpoint_v4 in
      let b = bumped s.id r.0 in (b.0, record s { service_endpoint_v4 = r.1; id = b.1 })
  update_state (ServiceKey.v6 k) value s =
      let r = update services6 endpoints6 k (v6_endpoints value) s.id s.service_endpoint_v6 in
      let b = bumped s.id r.0 in (b.0, record s { service_endpoint_v6 = r.1; id = b.1 })

  unfoldable pub remove_state : ServiceKey → Proc (State S4 E4 S6 E6) (Unit {0})
  remove_state (ServiceKey.v4 k) s =
      let r = remove services4 endpoints4 k s.service_endpoint_v4 in
      (r.0, record s { service_endpoint_v4 = r.1 })
  remove_state (ServiceKey.v6 k) s =
      let r = remove services6 endpoints6 k s.service_endpoint_v6 in
      (r.0, record s { service_endpoint_v6 = r.1 })

  unfoldable pub state_from_cache : State S4 E4 S6 E6 → HashMap ServiceKey (List EndpointValue)
  state_from_cache s =
      let v4 = s.service_endpoint_v4 in
      let v6 = s.service_endpoint_v6 in
      list_services ServiceKey.v6 EndpointValue.v6 v6.endpoint_cache v6.service_cache
        (list_services ServiceKey.v4 EndpointValue.v4 v4.endpoint_cache v4.service_cache [])

  -- The same of what `get_state` of the four maps returns; the first error ends it.
  unfoldable pub state_from_map :
      State S4 E4 S6 E6 → Result (HashMap ServiceKey (List EndpointValue))
  state_from_map s =
      let v4 = s.service_endpoint_v4 in
      let v6 = s.service_endpoint_v6 in
      and_then (copy_state (services4.get_state v4.service_map)) λ service_map_v4.
        and_then (copy_state (endpoints4.get_state v4.endpoint_map)) λ endpoint_map_v4.
          and_then (copy_state (services6.get_state v6.service_map)) λ service_map_v6.
            and_then (copy_state (endpoints6.get_state v6.endpoint_map)) λ endpoint_map_v6. ok (
              list_services ServiceKey.v6 EndpointValue.v6 endpoint_map_v6 service_map_v6
                (list_services ServiceKey.v4 EndpointValue.v4 endpoint_map_v4 service_map_v4 []))
