-- ===== src/Tests/Ids.antt =====
-- The ids of services, and the inputs on which two services share one.
use mesh_cni.BpfMap.Laws.{hash_map-IsMap}
use mesh_cni.BpfMap.{BpfMap, hash_map}
use mesh_cni.Common.{
  ServiceKey, ServiceKeyV4, ServiceKeyV6, ServiceValue, EndpointKey, EndpointValue, EndpointValueV6,
  service_key_v4_eq, service_key_v6_eq, service_key_eq, endpoint_key_eq,
}
use mesh_cni.Prelude.{List, [], ◌∷◌, some, none, ◌≡◌, ◌≢◌, refl, ap, arith}
use mathlib.Core.Option
use mesh_cni.Prelude.HashMap
use mesh_cni.Prelude.HashMap.{HashMap}
use mesh_cni.Prelude.Result.{ok}
use mesh_cni.Service.{new}
use mesh_cni.Service.State.Refined.{specified_all, no_services, state_from_cache-specified_all}
use mesh_cni.Service.State.Faults.{id_range_end}
use mesh_cni.Service.State.Restart.{restart_shares_id}
use mesh_cni.Service.State.Ids.{Call, call, run, HasIds, run-HasIds}
use mesh_cni.Service.State.{
  State, new_state, state_from_cache, update_state, remove_state, bump, bumped, v4_endpoints,
  v6_endpoints,
}
use mesh_cni.Tests.Fixture.{program, Map4, EndpointMap4, services4, endpoints4, web, db, endpoint}

abbrev pub Map6 : Type 0
Map6 = HashMap ServiceKeyV6 ServiceValue

abbrev pub EndpointMap6 : Type 0
EndpointMap6 = HashMap EndpointKey EndpointValueV6

abbrev pub services6 : BpfMap Map6 ServiceKeyV6 ServiceValue ServiceKeyV6
services6 = hash_map

abbrev pub endpoints6 : BpfMap EndpointMap6 EndpointKey EndpointValueV6 EndpointKey
endpoints6 = hash_map

unfoldable pub states : Unit {0}
unfolding program new_state update_state remove_state bump bumped v4_endpoints v6_endpoints call run
    new
states = tt

abbrev pub FullState : Type 0
FullState = State Map4 EndpointMap4 Map6 EndpointMap6

abbrev pub one : List EndpointValue
one = EndpointValue.v4 (endpoint 1) ∷ []

abbrev web6_key : ServiceKeyV6
web6_key = record { ip = 1; port = 80; protocol = 6; pad = 0 }

abbrev web6 : ServiceKey
web6 = ServiceKey.v6 web6_key

abbrev calls : List Call
calls =
    Call.upsert (ServiceKey.v4 web) one
    ∷ Call.upsert web6 []
    ∷ Call.delete (ServiceKey.v4 web)
    ∷ Call.upsert (ServiceKey.v4 db) one
    ∷ []

abbrev pub start : FullState
start = new_state (new [] []) (new [] [])

calls_ok : (run services4 endpoints4 services6 endpoints6 calls start).0 ≡ ok tt
unfolding states
calls_ok = refl

run-HasIds_example :
    HasIds services4 endpoints4 services6 endpoints6
      (run services4 endpoints4 services6 endpoints6 calls start).1
run-HasIds_example =
    run-HasIds services4 endpoints4 services6 endpoints6 [] [] [] [] calls (omega arith) calls_ok

state_from_cache-specified_all_example :
    HashMap.get (ServiceKey.v4 db) (
      state_from_cache services4 endpoints4 services6 endpoints6
        (run services4 endpoints4 services6 endpoints6 calls start).1)
    ≡ Option.map (λ r. r.1) (specified_all calls no_services (ServiceKey.v4 db))
state_from_cache-specified_all_example =
    state_from_cache-specified_all services4 endpoints4 services6 endpoints6 [] [] [] [] calls
      (ServiceKey.v4 db) (omega arith) calls_ok

-- what the calls say of a service that was added, one that was removed and one that is empty
specified_db : specified_all calls no_services (ServiceKey.v4 db) ≡ some (1, one)
unfolding states
specified_db = refl

specified_web : specified_all calls no_services (ServiceKey.v4 web) ≡ none
unfolding states
specified_web = refl

specified_web6 : specified_all calls no_services web6 ≡ some (0, [])
unfolding states
specified_web6 = refl

-- the counter at its end
abbrev last : FullState
last = record start { id = 65535 }

abbrev pub with_one : FullState → FullState
with_one s = (update_state services4 endpoints4 services6 endpoints6 (ServiceKey.v4 web) one s).1

abbrev with_both : FullState → FullState
with_both s =
    (update_state services4 endpoints4 services6 endpoints6 (ServiceKey.v4 db) one (with_one s)).1

web-ne-db : web ≢ db
web-ne-db e =
    let q : web.ip ≡ db.ip = ap (λ (k : ServiceKeyV4). k.ip) e in absurd (omega (arith, q))

last-web : HashMap.get web last.service_endpoint_v4.service_cache ≡ none
unfolding states
last-web = refl

last-update_web :
    (update_state services4 endpoints4 services6 endpoints6 (ServiceKey.v4 web) one last).0 ≡ ok tt
unfolding states
last-update_web = refl

last-db : HashMap.get db (with_one last).service_endpoint_v4.service_cache ≡ none
unfolding states
last-db = refl

last-update_db :
    (update_state services4 endpoints4 services6 endpoints6
      (ServiceKey.v4 db)
      one
      (with_one last)).0
    ≡ ok tt
unfolding states
last-update_db = refl

id_range_end_example :
    (HashMap.get web (with_both last).service_endpoint_v4.service_cache
      ≡ some (record { id = 65535; count = 1 }))
    × (HashMap.get db (with_both last).service_endpoint_v4.service_cache
        ≡ some (record { id = 65535; count = 1 }))
unfolding v4_endpoints
id_range_end_example =
    id_range_end services4 endpoints4 services6 endpoints6 last web db one one refl web-ne-db
      last-web last-update_web last-db last-update_db

-- what an earlier run of the agent left
abbrev left_map : Map4
left_map = (web, record { id = 128; count = 1 }) ∷ []

abbrev restarted : FullState
restarted = new_state (new left_map []) (new [] [])

left_web : HashMap.get web left_map ≡ some (record { id = 128; count = 1 })
unfolding states
left_web = refl

restarted-db :
    (update_state services4 endpoints4 services6 endpoints6 (ServiceKey.v4 db) one restarted).0
    ≡ ok tt
unfolding states
restarted-db = refl

abbrev map_after : Map4
map_after =
    (update_state services4 endpoints4 services6 endpoints6 (ServiceKey.v4 db) one
      restarted).1.service_endpoint_v4.service_map

restart_shares_id_example :
    (w : ServiceValue) × (HashMap.get web map_after ≡ some (record { id = 128; count = 1 }))
    × (HashMap.get db map_after ≡ some w)
    × (w.id ≡ 128)
restart_shares_id_example =
    restart_shares_id services4 endpoints4 services6 endpoints6 hash_map-IsMap left_map [] [] [] web
      db (record { id = 128; count = 1 }) one left_web refl web-ne-db restarted-db
