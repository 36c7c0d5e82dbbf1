-- ===== src/Replies.antt =====
-- mesh-cni/src/http/grpc/service.rs, conntrack.rs, policy.rs and ip.rs: the lists that the agent
-- answers to the command line. How the standard library prints addresses and numbers is the
-- parameter `Display`.
pub mod Entries
pub mod Services
use mesh_cni.BpfMap.{BpfMap}
use mesh_cni.Common.{
  ServiceKey, ServiceKeyV4, ServiceKeyV6, ServiceValue, EndpointKey, EndpointValue, EndpointValueV4,
  EndpointValueV6, KubeProtocol, protocol_of_u32, protocol_to_string, ConntrackKeyV4, PolicyKey,
  PolicyValue, action_of_u8, action_to_string, policy_protocol_of_u8, policy_protocol_to_string,
}
use mesh_cni.Ip.{IpNetwork, State as IpState, networks}
use mesh_cni.Prelude.{
  ℕ, String, List, [], ◌∷◌, Option, some, none, Bool, true, false, ◌==◌, if◌then◌else◌, map,
  filter_map,
}
use mesh_cni.Prelude.HashMap.{HashMap}
use mesh_cni.Prelude.Result.{Result, ok, err, and_then}
use mesh_cni.Service.State.{State, state_from_cache, state_from_map}
use Prim.Native.String.{◌++◌ as append}

-- `Display` of `Ipv4Addr`, `Ipv6Addr` by their bits, and of numbers.
pub record Display : Type 0 where
  pub ipv4 : ℕ → String
  pub ipv6 : ℕ → String
  pub number : ℕ → String

pub record ServiceWithEndpoints : Type 0 where
  pub service_endpoint : String
  pub protocol : String
  pub endpoints : List String

pub record Connection : Type 0 where
  pub src_ip : String
  pub src_port : ℕ
  pub dst_ip : String
  pub dst_port : ℕ
  pub proto : String

pub record PolicySet : Type 0 where
  pub src_id : ℕ
  pub dst_id : ℕ
  pub dst_port : ℕ
  pub proto : String
  pub action : String

pub record IpId : Type 0 where
  pub ip : String
  pub id : ℕ

unfoldable pub proto_name : ℕ → Option String
proto_name proto =
    if proto == 1
    then some "ICMPv4"
    else if proto == 6
    then some "TCP"
    else if proto == 17
    then some "UDP"
    else if proto == 58
    then some "ICMPv6"
    else if proto == 132
    then some "SCTP"
    else none

abbrev pub of_result : {A : Type 0} → Result A → Option A
of_result (ok a) = some a
of_result (err e) = none

module _ (display : Display) where
  -- `format!("{}:{}", ip, port)`
  abbrev pub ip_port : String → ℕ → String
  ip_port ip port = append ip (append ":" (display.number port))

  unfoldable pub endpoint_v4 : EndpointValue → Option String
  endpoint_v4 (EndpointValue.v4 e) = some (ip_port (display.ipv4 e.ip) e.port)
  endpoint_v4 (EndpointValue.v6 e) = none

  unfoldable pub endpoint_v6 : EndpointValue → Option String
  endpoint_v6 (EndpointValue.v4 e) = none
  endpoint_v6 (EndpointValue.v6 e) = some (ip_port (display.ipv6 e.ip) e.port)

  abbrev pub with_protocol :
      String → List String → Result KubeProtocol → Result ServiceWithEndpoints
  with_protocol service_endpoint endpoints (ok protocol) = ok (record {
    service_endpoint = service_endpoint;
    protocol = protocol_to_string protocol;
    endpoints = endpoints;
  })
  with_protocol service_endpoint endpoints (err e) = err e

  -- The body of the loop of `list_services`.
  unfoldable pub service_with_endpoints :
      ServiceKey → List EndpointValue → Result ServiceWithEndpoints
  service_with_endpoints (ServiceKey.v4 k) v =
      with_protocol (ip_port (display.ipv4 k.ip) k.port) (filter_map endpoint_v4 v)
        (protocol_of_u32 k.protocol)
  service_with_endpoints (ServiceKey.v6 k) v =
      with_protocol (ip_port (display.ipv6 k.ip) k.port) (filter_map endpoint_v6 v)
        (protocol_of_u32 k.protocol)

  -- The loop of `list_services`, which the first error ends.
  unfoldable pub list_entries :
      List (ServiceKey × List EndpointValue) → Result (List ServiceWithEndpoints)
  list_entries [] = ok []
  list_entries ((k, v) ∷ rest) =
      and_then (service_with_endpoints k v)
        λ s. and_then (list_entries rest) λ services. ok (s ∷ services)

  unfoldable pub list_services :
      {S4 E4 S6 E6 : Type 0}
      → BpfMap S4 ServiceKeyV4 ServiceValue ServiceKeyV4
      → BpfMap E4 EndpointKey EndpointValueV4 EndpointKey
      → BpfMap S6 ServiceKeyV6 ServiceValue ServiceKeyV6
      → BpfMap E6 EndpointKey EndpointValueV6 EndpointKey
      → Bool
      → State S4 E4 S6 E6
      → Result (List ServiceWithEndpoints)
  list_services services4 endpoints4 services6 endpoints6 from_map s =
      and_then
        (if from_map
          then state_from_map services4 endpoints4 services6 endpoints6 s
          else ok (state_from_cache services4 endpoints4 services6 endpoints6 s))
        list_entries

  abbrev pub with_proto : ConntrackKeyV4 → Option String → Result Connection
  with_proto key none = err "unsupported proto found in conntrack key"
  with_proto key (some proto) = ok (record {
    src_ip = display.ipv4 key.src_ip;
    src_port = key.src_port;
    dst_ip = display.ipv4 key.dst_ip;
    dst_port = key.dst_port;
    proto = proto;
  })

  unfoldable pub connection_from_keyv4 : ConntrackKeyV4 → Result Connection
  connection_from_keyv4 key = with_proto key (proto_name key.proto)

  -- The closure of `get_conntrack`: what cannot be read or converted is left out.
  unfoldable pub connection_of_key : Result ConntrackKeyV4 → Option Connection
  connection_of_key (ok key) = of_result (connection_from_keyv4 key)
  connection_of_key (err e) = none

  -- `get_conntrack`, on the keys of the map that `load_map` opens.
  unfoldable pub get_conntrack : Result (List (Result ConntrackKeyV4)) → Result (List Connection)
  get_conntrack (ok keys) = ok (filter_map connection_of_key keys)
  get_conntrack (err e) = err (append "failed to load map: " e)

unfoldable pub policy_set : PolicyKey × PolicyValue → PolicySet
policy_set (k, v) = record {
  src_id = k.src_id;
  dst_id = k.dst_id;
  dst_port = k.dst_port;
  proto = policy_protocol_to_string (policy_protocol_of_u8 k.proto);
  action = action_to_string (action_of_u8 v.action);
}

unfoldable pub list_policy : Result (HashMap PolicyKey PolicyValue) → Result (List PolicySet)
list_policy (ok policy_state) = ok (map policy_set policy_state)
list_policy (err e) = err e

module _ {M4 M6 N4 N6 : Type 0} (show_network : IpNetwork N4 N6 → String) where
  unfoldable pub list_ips : IpState M4 M6 N4 N6 → List IpId
  list_ips s = map (λ r. record { ip = show_network r.0; id = r.1 }) (networks s)
