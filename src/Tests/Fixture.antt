-- ===== src/Tests/Fixture.antt =====
-- The inputs that the tests share.
use mesh_cni.BpfMap.{BpfMap, hash_map}
use mesh_cni.Common.{
  ServiceKeyV4, ServiceValue, EndpointKey, EndpointValueV4, service_key_v4_new, endpoint_key_eq,
  service_key_v4_eq, service_key_v6_eq, deciders, PolicyKey-discrete, PolicyValue-discrete,
  ConntrackKeyV4-discrete,
}
use mesh_cni.Prelude.{ℕ, List, [], ◌∷◌, ℕ_discrete, dec_lt, dec_le}
use mesh_cni.Prelude.HashMap
use mesh_cni.Prelude.HashMap.{HashMap}
use mesh_cni.Service
use mesh_cni.Service.{ServiceEndpoint}

unfoldable pub maps : Unit {0}
unfolding hash_map HashMap.get HashMap.insert HashMap.remove deciders ℕ_discrete dec_lt dec_le
    PolicyKey-discrete PolicyValue-discrete ConntrackKeyV4-discrete
maps = tt

unfoldable pub program : Unit {0}
unfolding maps Service.u16_try_from Service.new Service.put_endpoint Service.put_endpoints_from
    Service.insert_endpoints Service.drop_endpoint Service.drop_endpoints_from
    Service.delete_endpoints Service.put_service Service.insert_new_service Service.update_service
    Service.update Service.drop_service Service.remove Service.collect_endpoints
    Service.endpoints_of
program = tt

abbrev pub Map4 : Type 0
Map4 = HashMap ServiceKeyV4 ServiceValue

abbrev pub EndpointMap4 : Type 0
EndpointMap4 = HashMap EndpointKey EndpointValueV4

abbrev pub Services4 : Type 0
Services4 = ServiceEndpoint Map4 EndpointMap4 ServiceKeyV4 EndpointValueV4

abbrev pub services4 : BpfMap Map4 ServiceKeyV4 ServiceValue ServiceKeyV4
services4 = hash_map

abbrev pub endpoints4 : BpfMap EndpointMap4 EndpointKey EndpointValueV4 EndpointKey
endpoints4 = hash_map

abbrev pub web : ServiceKeyV4
web = service_key_v4_new 0x0a000001 80 6

abbrev pub db : ServiceKeyV4
db = service_key_v4_new 0x0a000002 80 6

abbrev pub endpoint : ℕ → EndpointValueV4
endpoint ip = record { ip = ip; port = 8080; protocol = 6 }

abbrev pub two : List EndpointValueV4
two = endpoint 1 ∷ endpoint 2 ∷ []

abbrev pub fresh : Services4
fresh = record { service_cache = []; service_map = []; endpoint_cache = []; endpoint_map = [] }

-- after `update` of `web` with the two endpoints
abbrev pub with_web : Services4
with_web = (Service.update services4 endpoints4 web two 128 fresh).1
