-- ===== src/MeshEndpoint/Generate/Spec.antt =====
-- `generate_mesh_endpoint_spec` and the functions that it calls, over the ports of a service and
-- the endpoint slices of the store.
use mesh_cni.Common.{KubeProtocol, protocol_of_str, protocol_to_string, IpAddr}
use mesh_cni.MeshEndpoint.{
  BackendPortMapping, MeshEndpointSpec, Service, ServicePort, EndpointSlice,
  service_ips_from_service, backend_ips_from_ep_slice, backend_port_from_ep_slice,
}
use mesh_cni.Prelude.{
  ℕ, ◌%◌, ◌^◌, String, List, [], Option, some, none, Bool, false, ◌&&◌, if◌then◌else◌, filter_map,
  flat_map,
}
use mesh_cni.Prelude.HashMap.{HashMap}
use mesh_cni.Prelude.Result.{Result, ok, err}
use text.Mathlib.Text.{◌==◌ as str_eq}

abbrev pub service_owner_label : String
service_owner_label = "kubernetes.io/service-name"

-- `unwrap_or_default` on the name of a port.
abbrev pub name_or_empty : Option String → String
name_or_empty none = ""
name_or_empty (some name) = name

abbrev pub NamedPort : Type 0
NamedPort = String × ℕ × KubeProtocol

unfoldable pub with_protocol : ServicePort → Result KubeProtocol → Option NamedPort
with_protocol sp (err _) = none
with_protocol sp (ok protocol) = some (name_or_empty sp.name, sp.port % 2 ^ 16, protocol)

-- The body of the loop of `service_names_ports_protocols`; `none` is its `continue`.
unfoldable pub name_port_protocol : ServicePort → Option NamedPort
name_port_protocol sp = elim sp.protocol [
  | none ↦ none
  | some protocol ↦ with_protocol sp (protocol_of_str protocol)
]

unfoldable pub service_names_ports_protocols : Service → List NamedPort
service_names_ports_protocols service = elim service.spec [
  | none ↦ []
  | some spec ↦ elim spec.ports [ none ↦ [] | some ports ↦ filter_map name_port_protocol ports ]
]

abbrev pub same_namespace : Option String → String → Bool
same_namespace none namespace = false
same_namespace (some other) namespace = str_eq other namespace

-- `matches key value labels` is what the selector of `Expression::Equal(key, value)` answers, of
-- the crate `kube`.
module _ (parse_ip : String → Option IpAddr)
    (matches : String → String → HashMap String String → Bool) where
  -- The body of the innermost loop; `none` is its `continue`.
  unfoldable pub port_mapping : EndpointSlice → IpAddr → NamedPort → Option BackendPortMapping
  port_mapping slice ip (name, service_port, protocol) =
      elim (backend_port_from_ep_slice parse_ip slice name protocol) [
        | none ↦ none
        | some backend_port ↦ some (record {
          ip = ip;
          service_port = service_port;
          backend_port = backend_port;
          protocol = protocol_to_string protocol;
        })
      ]

  -- The filter of `endpoint_slices_owned_by_service`.
  unfoldable pub owned : Service → String → EndpointSlice → Bool
  owned service namespace ep =
      matches service_owner_label service.metadata.name_any ep.metadata.labels
      && same_namespace ep.metadata.namespace namespace

  abbrev pub if_owned : Service → String → EndpointSlice → Option EndpointSlice
  if_owned service namespace ep = if owned service namespace ep then some ep else none

  -- The body, from the service's namespace.
  unfoldable pub owned_in : Service → List EndpointSlice → Option String → List EndpointSlice
  owned_in service store none = []
  owned_in service store (some namespace) = filter_map (if_owned service namespace) store

  unfoldable pub endpoint_slices_owned_by_service :
      List EndpointSlice → Service → List EndpointSlice
  endpoint_slices_owned_by_service store service = owned_in service store service.metadata.namespace

  unfoldable pub slice_mappings : List NamedPort → EndpointSlice → List BackendPortMapping
  slice_mappings ports slice =
      flat_map (λ ip. filter_map (port_mapping slice ip) ports)
        (backend_ips_from_ep_slice parse_ip slice)

  unfoldable pub generate_mesh_endpoint_spec : List EndpointSlice → Service → MeshEndpointSpec
  generate_mesh_endpoint_spec store service = record {
    service_ips = service_ips_from_service parse_ip service;
    backend_port_mappings =
        flat_map (slice_mappings (service_names_ports_protocols service))
          (endpoint_slices_owned_by_service store service);
  }
