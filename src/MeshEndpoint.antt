-- ===== src/MeshEndpoint.antt =====
-- mesh-cni-crds/src/v1alpha1/meshendpoint.rs: from a Kubernetes service and its endpoint slices
-- to the endpoints of each service key. Of the Kubernetes objects the fields that the code reads
-- are modelled; parsing an address and matching a label are parameters.
pub mod Pairs
pub mod Generate
use mesh_cni.Common.{
  ServiceKey, service_key_v4, service_key_v6, service_key_eq, EndpointValue, KubeProtocol,
  KubeProtocol-discrete, protocol_number, protocol_of_str, protocol_to_string, IpAddr,
}
use mesh_cni.Prelude.{
  ℕ, ◌%◌, ◌^◌, String, List, [], ◌∷◌, ◌++◌, Option, some, none, Bool, true, false, not, ◌&&◌, ◌||◌,
  ite, if◌then◌else◌, filter_map, flat_map,
}
use mesh_cni.Prelude.HashMap
use mesh_cni.Prelude.HashMap.{HashMap}
use mesh_cni.Prelude.Result.{Result, ok, err}
use text.Mathlib.Text.{◌==◌ as str_eq}

pub record BackendPortMapping : Type 0 where
  pub ip : IpAddr
  pub service_port : ℕ
  pub backend_port : ℕ
  pub protocol : String

pub record MeshEndpointSpec : Type 0 where
  pub service_ips : List IpAddr
  pub backend_port_mappings : List BackendPortMapping

-- `unwrap_or_default` on a parsed protocol.
unfoldable pub protocol_or_default : Result KubeProtocol → KubeProtocol
protocol_or_default (ok p) = p
protocol_or_default (err _) = KubeProtocol.tcp

unfoldable pub kube_proto_from_str : Option String → KubeProtocol
kube_proto_from_str none = KubeProtocol.tcp
kube_proto_from_str (some p) = protocol_or_default (protocol_of_str p)

abbrev pub Pairs : Type 0
Pairs = HashMap ServiceKey (List EndpointValue)

-- The `match` on the two addresses; `none` is its `continue`.
unfoldable pub pair_of :
    IpAddr → IpAddr → BackendPortMapping → ℕ → Option (ServiceKey × EndpointValue)
pair_of (IpAddr.v4 svc) (IpAddr.v4 ep) m protocol = some (
  service_key_v4 svc m.service_port protocol,
  EndpointValue.v4 (record { ip = ep; port = m.backend_port; protocol = protocol }),
)
pair_of (IpAddr.v6 svc) (IpAddr.v6 ep) m protocol = some (
  service_key_v6 svc m.service_port protocol,
  EndpointValue.v6 (record { ip = ep; port = m.backend_port; protocol = protocol }),
)
pair_of (IpAddr.v4 svc) (IpAddr.v6 ep) m protocol = none
pair_of (IpAddr.v6 svc) (IpAddr.v4 ep) m protocol = none

unfoldable pub mapping_pair : IpAddr → BackendPortMapping → Option (ServiceKey × EndpointValue)
mapping_pair service_ip m =
    pair_of service_ip m.ip m (protocol_number (kube_proto_from_str (some m.protocol)))

-- `get_mut` and `push`, or `insert`.
unfoldable pub push_pair : ServiceKey → EndpointValue → Pairs → Pairs
push_pair k v result = elim (HashMap.get k result) [
  | some eps ↦ HashMap.insert k (eps ++ v ∷ []) result
  | none ↦ HashMap.insert k (v ∷ []) result
]

unfoldable pub add_mapping : IpAddr → BackendPortMapping → Pairs → Pairs
add_mapping service_ip m result = elim (mapping_pair service_ip m) [
  | none ↦ result
  | some (k, v) ↦ push_pair k v result
]

unfoldable pub add_mappings : IpAddr → List BackendPortMapping → Pairs → Pairs
add_mappings service_ip [] result = result
add_mappings service_ip (m ∷ ms) result =
    add_mappings service_ip ms (add_mapping service_ip m result)

unfoldable pub add_service_ips : List IpAddr → List BackendPortMapping → Pairs → Pairs
add_service_ips [] ms result = result
add_service_ips (ip ∷ ips) ms result = add_service_ips ips ms (add_mappings ip ms result)

unfoldable pub generate_bpf_service_endpoints : MeshEndpointSpec → Pairs
generate_bpf_service_endpoints spec = add_service_ips spec.service_ips spec.backend_port_mappings []

-- The Kubernetes objects.
pub record ObjectMeta : Type 0 where
  pub name_any : String
  pub namespace : Option String
  pub labels : HashMap String String

pub record ServicePort : Type 0 where
  pub name : Option String
  pub port : ℕ
  pub protocol : Option String

pub record ServiceSpec : Type 0 where
  pub cluster_ips : Option (List String)
  pub ports : Option (List ServicePort)

pub record Service : Type 0 where
  pub metadata : ObjectMeta
  pub spec : Option ServiceSpec

pub record EndpointConditions : Type 0 where
  pub ready : Option Bool
  pub terminating : Option Bool

pub record Endpoint : Type 0 where
  pub addresses : List String
  pub conditions : Option EndpointConditions

pub record EndpointPort : Type 0 where
  pub name : Option String
  pub port : Option ℕ
  pub protocol : Option String

pub record EndpointSlice : Type 0 where
  pub metadata : ObjectMeta
  pub endpoints : List Endpoint
  pub ports : Option (List EndpointPort)

-- `opt == Some(true)`
abbrev pub is_true : Option Bool → Bool
is_true (some true) = true
is_true (some false) = false
is_true none = false

abbrev pub is_none : Option Bool → Bool
is_none none = true
is_none (some _) = false

unfoldable pub endpoint_ready : EndpointConditions → Bool
endpoint_ready c = (is_true c.ready || is_none c.ready) && not (is_true c.terminating)

module _ (parse_ip : String → Option IpAddr) where
  -- The loops over texts that keep the addresses that parse.
  abbrev pub parse_all : List String → List IpAddr
  parse_all = filter_map parse_ip

  unfoldable pub service_ips_from_service : Service → List IpAddr
  service_ips_from_service service = elim service.spec [
    | none ↦ []
    | some spec ↦ elim spec.cluster_ips [ none ↦ [] | some ips ↦ parse_all ips ]
  ]

  unfoldable pub endpoint_ips : Endpoint → List IpAddr
  endpoint_ips ep = elim ep.conditions [
    | none ↦ []
    | some c ↦ if endpoint_ready c then parse_all ep.addresses else []
  ]

  unfoldable pub backend_ips_from_ep_slice : EndpointSlice → List IpAddr
  backend_ips_from_ep_slice slice = flat_map endpoint_ips slice.endpoints

  unfoldable pub backend_port_from : List EndpointPort → String → KubeProtocol → Option ℕ
  backend_port_from [] name protocol = none
  backend_port_from (p ∷ ps) name protocol =
      let rest = backend_port_from ps name protocol in
      elim p.name [
        | none ↦ rest
        | some n ↦ elim p.port [
          | none ↦ rest
          | some port ↦
              if str_eq n name
              then ite (KubeProtocol-discrete (kube_proto_from_str p.protocol) protocol)
                  (some (port % 2 ^ 16)) rest
              else rest
        ]
      ]

  unfoldable pub backend_port_from_ep_slice : EndpointSlice → String → KubeProtocol → Option ℕ
  backend_port_from_ep_slice slice name protocol = elim slice.ports [
    | none ↦ none
    | some ports ↦ backend_port_from ports name protocol
  ]
