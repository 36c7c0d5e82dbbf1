-- ===== src/Tests/Replies.antt =====
-- The reply of `list_services` after two services were added and one of them removed.
use mesh_cni.Common.{ServiceKey, EndpointValue, protocol_of_u32, protocol_to_string}
use mesh_cni.Prelude.{ℕ, arith, List, [], ◌∷◌, some, false, ◌≡◌, ◌↔◌, refl, IsIn}
use mesh_cni.Prelude.Result.{ok}
use mesh_cni.Replies.Entries.{IsEntry}
use mesh_cni.Replies.Services.{list_services_iff}
use mesh_cni.Service.State.Refined.{specified_all, no_services}
use mesh_cni.Replies.{
  Display, ServiceWithEndpoints, service_with_endpoints, endpoint_v4, endpoint_v6, list_entries,
}
use mesh_cni.Replies
use mesh_cni.Service.State.Ids.{Call, run}
use mesh_cni.Service.State.{state_from_cache, list_services}
use mesh_cni.Tests.Fixture.{services4, endpoints4, web, db}
use mesh_cni.Tests.Ids.{services6, endpoints6, states, one, start}

abbrev display : Display
display = record { ipv4 = λ bits. "10.0.0.2"; ipv6 = λ bits. "::1"; number = λ n. "80" }

abbrev calls : List Call
calls =
    Call.upsert (ServiceKey.v4 web) []
    ∷ Call.upsert (ServiceKey.v4 db) one
    ∷ Call.delete (ServiceKey.v4 web)
    ∷ []

abbrev db_entry : ServiceWithEndpoints
db_entry = record {
  service_endpoint = "10.0.0.2:80";
  protocol = "TCP";
  endpoints = "10.0.0.2:80" ∷ [];
}

replied :
    Replies.list_services display services4 endpoints4 services6 endpoints6 false
      (run services4 endpoints4 services6 endpoints6 calls start).1
    ≡ ok (db_entry ∷ [])
unfolding states Replies.list_services state_from_cache list_services list_entries
    service_with_endpoints endpoint_v4 endpoint_v6 protocol_of_u32 protocol_to_string
replied = refl

calls_ok : (run services4 endpoints4 services6 endpoints6 calls start).0 ≡ ok tt
unfolding states
calls_ok = refl

list_services_iff_example : IsIn db_entry (db_entry ∷ []) ↔ (
    (k : ServiceKey) × (n : ℕ) × (endpoints : List EndpointValue) × (specified_all calls no_services
        k
      ≡ some (n, endpoints))
    × IsEntry display k endpoints db_entry)
list_services_iff_example =
    list_services_iff services4 endpoints4 services6 endpoints6 display [] [] [] [] calls
      (db_entry ∷ []) (omega arith) calls_ok replied db_entry
