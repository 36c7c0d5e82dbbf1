-- ===== src/MeshEndpoint/Generate.antt =====
-- `generate_mesh_endpoint_spec`: the spec of a service from the endpoint slices that it owns. A
-- port is a natural number, as the API server does not accept a negative one.
mod Spec
mod Ports
mod Meaning
unfoldable pub use Spec.*
use mesh_cni.Common.{KubeProtocol, protocol_of_str, protocol_to_string, IpAddr}
use mesh_cni.MeshEndpoint.Generate.Ports.{IsFirst}
use mesh_cni.MeshEndpoint.Generate.Meaning.{
  IsNamedPort, service_names_ports_protocols-IsNamedPort, endpoint_ready_iff, owned_iff,
  port_mapping_iff,
}
use mesh_cni.MeshEndpoint.{
  EndpointPort, BackendPortMapping, MeshEndpointSpec, Service, ServicePort, Endpoint,
  EndpointConditions, EndpointSlice, endpoint_ready, service_ips_from_service, endpoint_ips,
  backend_ips_from_ep_slice, backend_port_from_ep_slice,
}
use mesh_cni.Prelude.{
  ◌≢◌, ℕ, ◌%◌, ◌^◌, String, List, [], Option, some, none, Bool, true, false, ◌&&◌, if◌then◌else◌,
  filter_map, flat_map, IsIn, IsIn-filter_map, IsIn-flat_map, ◌↔◌, ◌≡◌, refl, inl, inr, sym, ◌∙◌,
  ap, Option-cases, Bool-cases,
}
use mathlib.Core.Path.{subst}
use mesh_cni.Prelude.HashMap.{HashMap}
use mesh_cni.Prelude.Result.{Result, ok, err}
use text.Mathlib.Text.{◌==◌ as str_eq}

-- `matches key value labels` is what the selector of `Expression::Equal(key, value)` answers, of
-- the crate `kube`.
module _ (parse_ip : String → Option IpAddr)
    (matches : String → String → HashMap String String → Bool) where
  -- Where a mapping comes from: a slice of the service's namespace whose owner label is the
  -- service's name, an address of one of its endpoints that is not marked unready or terminating,
  -- a port of the service with a known protocol, and the first port of the slice with its name and
  -- protocol.
  pub record Sourced (store : List EndpointSlice) (service : Service) (m : BackendPortMapping)
      : Type 0 where
    pub namespace : String
    pub slice : EndpointSlice
    pub endpoint : Endpoint
    pub conditions : EndpointConditions
    pub address : String
    pub ip : IpAddr
    pub port : NamedPort
    pub backend_port : ℕ
    pub slice_ports : List EndpointPort
    pub in_namespace : service.metadata.namespace ≡ some namespace
    pub in_store : IsIn slice store
    pub slice_in_namespace : slice.metadata.namespace ≡ some namespace
    pub has_owner :
        matches "kubernetes.io/service-name" service.metadata.name_any slice.metadata.labels ≡ true
    pub in_slice : IsIn endpoint slice.endpoints
    pub has_conditions : endpoint.conditions ≡ some conditions
    pub is_ready : conditions.ready ≢ some false
    pub not_terminating : conditions.terminating ≢ some true
    pub in_addresses : IsIn address endpoint.addresses
    pub parsed : parse_ip address ≡ some ip
    pub in_ports : IsNamedPort service port
    pub has_ports : slice.ports ≡ some slice_ports
    pub is_first : IsFirst slice_ports port.0 port.2 backend_port
    pub is_mapping : m ≡ record {
      ip = ip;
      service_port = port.1;
      backend_port = backend_port;
      protocol = protocol_to_string port.2;
    }

  IsIn-endpoint_ips :
      (ip : IpAddr) (ep : Endpoint)
      → IsIn ip (endpoint_ips parse_ip ep) ↔ (
          (c : EndpointConditions) × (a : String) × (ep.conditions ≡ some c)
          × (endpoint_ready c ≡ true)
          × IsIn a ep.addresses
          × (parse_ip a ≡ some ip))
  unfolding endpoint_ips
  IsIn-endpoint_ips ip ep = elim (Option-cases ep.conditions) [
    | inl e ↦ (
      rw (e, endpoint_ips) (λ h. absurd h),
      λ (c, a, s, _, _, _). let q = sym e ∙ s in absurd (cc),
    )
    | inr (c, e) ↦ elim (Bool-cases (endpoint_ready c)) [
      | inl r ↦ (
        rw (e, endpoint_ips, r)
            (λ h.
              let (a, i, p) = (IsIn-filter_map parse_ip ip ep.addresses).0 h in
              (c, a, refl, r, i, p)),
        λ (c', a, s, r', i, p).
            rw (e, endpoint_ips, r) ((IsIn-filter_map parse_ip ip ep.addresses).1 (a, i, p)),
      )
      | inr r ↦ (
        rw (e, endpoint_ips, r) (λ h. absurd h),
        λ (c', a, s, r', _, _). let q : some c ≡ some c' = sym e ∙ s in absurd (cc),
      )
    ]
  ]

  IsIn-owned :
      (slice : EndpointSlice) (store : List EndpointSlice) (service : Service)
      → IsIn slice (endpoint_slices_owned_by_service parse_ip matches store service) ↔ (
          (namespace : String) × (service.metadata.namespace ≡ some namespace)
          × IsIn slice store
          × (owned parse_ip matches service namespace slice ≡ true))
  unfolding endpoint_slices_owned_by_service owned_in
  IsIn-owned slice store service = elim (Option-cases service.metadata.namespace) [
    | inl e ↦ (
      λ h.
          let empty : IsIn slice [] =
            subst (IsIn slice) (ap (owned_in parse_ip matches service store) e) h in
          absurd empty,
      λ (n, s, _, _). let q = sym e ∙ s in absurd (cc),
    )
    | inr (n, e) ↦ (
      λ h.
          let (x, i, p) =
            (IsIn-filter_map (if_owned parse_ip matches service n) slice store).0
              (subst (IsIn slice) (ap (owned_in parse_ip matches service store) e) h) in
          let (at, is) = kept n x i p in (n, e, at, is),
      λ (n', s, i, o).
          subst (IsIn slice) (sym (ap (owned_in parse_ip matches service store) s)) (
            (IsIn-filter_map (if_owned parse_ip matches service n') slice store).1
              (slice, i, rw o)),
    )
  ]
    where
      kept :
          (n : String) (x : EndpointSlice)
          → IsIn x store
          → if_owned parse_ip matches service n x ≡ some slice
          → IsIn slice store × (owned parse_ip matches service n slice ≡ true)
      kept n x i p = elim (Bool-cases (owned parse_ip matches service n x)) [
        | inl o ↦
            let q : some x ≡ some slice = rw o at p in
            let same : x ≡ slice = cc in rw (← same) (i, o)
        | inr o ↦ let q : none ≡ some slice = rw o at p in absurd (cc)
      ]

  -- The mappings of the generated spec are exactly those that join: a slice of the service's
  -- namespace whose owner label is the service's name; an address that parses, of an endpoint of the
  -- slice with conditions that are neither unready nor terminating; a port of the service with a
  -- known protocol; and the first port of the slice with that name and protocol.
  pub generate_mesh_endpoint_spec-Sourced :
      (store : List EndpointSlice) (service : Service) (m : BackendPortMapping)
      → IsIn m (generate_mesh_endpoint_spec parse_ip matches store service).backend_port_mappings
        ↔ Sourced store service m
  unfolding generate_mesh_endpoint_spec slice_mappings backend_ips_from_ep_slice
  generate_mesh_endpoint_spec-Sourced store service m = (out, into)
    where
      out :
          IsIn m (generate_mesh_endpoint_spec parse_ip matches store service).backend_port_mappings
          → Sourced store service m
      out h =
          let (slice, owns, h₁) =
            (IsIn-flat_map (slice_mappings parse_ip matches (service_names_ports_protocols service))
                m (endpoint_slices_owned_by_service parse_ip matches store service)).0
              h in
          let (n, s, i, o) = (IsIn-owned slice store service).0 owns in
          let (ip, ips, h₂) =
            (IsIn-flat_map
                (λ ip.
                  filter_map (port_mapping parse_ip matches slice ip)
                    (service_names_ports_protocols service))
                m (backend_ips_from_ep_slice parse_ip slice)).0
              h₁ in
          let (ep, eps, h₃) = (IsIn-flat_map (endpoint_ips parse_ip) ip slice.endpoints).0 ips in
          let (c, a, has, ready, addr, parsed) = (IsIn-endpoint_ips ip ep).0 h₃ in
          let (port, at, gives) =
            (IsIn-filter_map (port_mapping parse_ip matches slice ip) m
                (service_names_ports_protocols service)).0
              h₂ in
          let (owner_label, in_ns) = (owned_iff parse_ip matches service n slice).0 o in
          let (is_ready, live) = (endpoint_ready_iff c).0 ready in
          let (backend, ports, has_ports, first, made) =
            (port_mapping_iff parse_ip matches slice ip port.0 port.1 port.2 m).0 gives in
          record {
            namespace = n;
            slice = slice;
            endpoint = ep;
            conditions = c;
            address = a;
            ip = ip;
            port = port;
            backend_port = backend;
            slice_ports = ports;
            in_namespace = s;
            in_store = i;
            slice_in_namespace = in_ns;
            has_owner = owner_label;
            in_slice = eps;
            has_conditions = has;
            is_ready = is_ready;
            not_terminating = live;
            in_addresses = addr;
            parsed = parsed;
            in_ports = (service_names_ports_protocols-IsNamedPort service port).0 at;
            has_ports = has_ports;
            is_first = first;
            is_mapping = made;
          }

      into :
          Sourced store service m
          → IsIn m
              (generate_mesh_endpoint_spec parse_ip matches store service).backend_port_mappings
      into s =
          (IsIn-flat_map (slice_mappings parse_ip matches (service_names_ports_protocols service)) m
              (endpoint_slices_owned_by_service parse_ip matches store service)).1
            (
              s.slice,
              (IsIn-owned s.slice store service).1 (
                s.namespace,
                s.in_namespace,
                s.in_store,
                (owned_iff parse_ip matches service s.namespace s.slice).1
                    (s.has_owner, s.slice_in_namespace),
              ),
              (IsIn-flat_map
                    (λ ip.
                      filter_map (port_mapping parse_ip matches s.slice ip)
                        (service_names_ports_protocols service))
                    m (backend_ips_from_ep_slice parse_ip s.slice)).1
                  (
                    s.ip,
                    (IsIn-flat_map (endpoint_ips parse_ip) s.ip s.slice.endpoints).1 (
                      s.endpoint,
                      s.in_slice,
                      (IsIn-endpoint_ips s.ip s.endpoint).1 (
                        s.conditions,
                        s.address,
                        s.has_conditions,
                        (endpoint_ready_iff s.conditions).1 (s.is_ready, s.not_terminating),
                        s.in_addresses,
                        s.parsed,
                      ),
                    ),
                    (IsIn-filter_map (port_mapping parse_ip matches s.slice s.ip) m
                          (service_names_ports_protocols service)).1
                        (
                          s.port,
                          (service_names_ports_protocols-IsNamedPort service s.port).1 s.in_ports,
                          (port_mapping_iff parse_ip matches s.slice s.ip s.port.0 s.port.1 s.port.2
                                m).1
                              (
                                s.backend_port, s.slice_ports, s.has_ports, s.is_first,
                                s.is_mapping,
                              ),
                        ),
                  ),
            )
