-- ===== src/MeshEndpoint/Generate/Meaning.antt =====
-- What the tests of `generate_mesh_endpoint_spec` mean: a port of the service, a ready endpoint, a
-- slice of the service and a mapping.
use mesh_cni.Common.{KubeProtocol, protocol_of_str, protocol_to_string, IpAddr}
use mesh_cni.MeshEndpoint.Generate.Spec.{
  NamedPort, name_or_empty, with_protocol, name_port_protocol, service_names_ports_protocols,
  same_namespace, port_mapping, owned,
}
use mesh_cni.MeshEndpoint.{
  BackendPortMapping, Service, ServiceSpec, ServicePort, EndpointConditions, EndpointPort,
  EndpointSlice, endpoint_ready, backend_port_from_ep_slice,
}
use mesh_cni.Prelude.{
  ℕ, ◌%◌, ◌^◌, String, List, [], Option, some, none, Bool, true, false, IsIn, IsIn-filter_map, ◌↔◌,
  ◌≡◌, ◌≢◌, refl, inl, inr, sym, ◌∙◌, ap, Option-cases, arith, ◌&&◌, filter_map,
}
use mesh_cni.Prelude.HashMap.{HashMap}
use mesh_cni.Prelude.Result.{ok, Result-cases}
use text.Mathlib.Text.{◌==◌ as str_eq}
use text.Mathlib.TextEquality.{eq_iff}
use mesh_cni.MeshEndpoint.Generate.Ports.{IsFirst, backend_port_from_ep_slice-IsFirst}

-- A port of the service with a protocol that is known, by its name or an empty one.
abbrev pub IsNamedPort : Service → NamedPort → Type 0
IsNamedPort service port =
    (spec : ServiceSpec) × (ports : List ServicePort) × (sp : ServicePort) × (text : String)
    × (protocol : KubeProtocol) × (service.spec ≡ some spec)
    × (spec.ports ≡ some ports)
    × IsIn sp ports
    × (sp.protocol ≡ some text)
    × (protocol_of_str text ≡ ok protocol)
    × (port ≡ (name_or_empty sp.name, sp.port % 2 ^ 16, protocol))

name_port_protocol_iff :
    (sp : ServicePort) (port : NamedPort)
    → (name_port_protocol sp ≡ some port) ↔ (
        (text : String) × (protocol : KubeProtocol) × (sp.protocol ≡ some text)
        × (protocol_of_str text ≡ ok protocol)
        × (port ≡ (name_or_empty sp.name, sp.port % 2 ^ 16, protocol)))
unfolding name_port_protocol with_protocol
name_port_protocol_iff sp port = elim (Option-cases sp.protocol) [
  | inl e ↦ (λ h. absurd (ground (arith, e)), λ (_, _, q, _, _). absurd (let z = sym e ∙ q in cc))
  | inr (text, e) ↦ elim (Result-cases (protocol_of_str text)) [
    | inl (protocol, f) ↦ (
      λ h. (text, protocol, e, f, ground (arith, e, f)),
      λ (t, p, q, g, s).
          let same : text ≡ t = (let z = sym e ∙ q in cc) in
          let same_protocol : protocol ≡ p = (let z = sym f ∙ ap protocol_of_str same ∙ g in cc) in
          ground (arith, e, f, s, same_protocol),
    )
    | inr (x, f) ↦ (
      λ h. absurd (ground (arith, e, f)),
      λ (t, p, q, g, s).
          let same : text ≡ t = (let z = sym e ∙ q in cc) in
          absurd (let z = sym f ∙ ap protocol_of_str same ∙ g in cc),
    )
  ]
]

pub service_names_ports_protocols-IsNamedPort :
    (service : Service) (port : NamedPort)
    → IsIn port (service_names_ports_protocols service) ↔ IsNamedPort service port
unfolding service_names_ports_protocols
service_names_ports_protocols-IsNamedPort service port = on_spec service.spec
  where
    Named : Option ServiceSpec → Type 0
    Named o =
        (spec : ServiceSpec) × (ports : List ServicePort) × (sp : ServicePort) × (text : String)
        × (protocol : KubeProtocol) × (o ≡ some spec)
        × (spec.ports ≡ some ports)
        × IsIn sp ports
        × (sp.protocol ≡ some text)
        × (protocol_of_str text ≡ ok protocol)
        × (port ≡ (name_or_empty sp.name, sp.port % 2 ^ 16, protocol))

    on_ports :
        (spec : ServiceSpec) (o : Option (List ServicePort))
        → spec.ports ≡ o
        → IsIn port (elim o [ none ↦ [] | some ports ↦ filter_map name_port_protocol ports ])
          ↔ Named (some spec)
    on_ports spec none e = (
      λ h. absurd h,
      λ (spec', _, _, _, _, q, g, _, _, _, _).
          let same : spec ≡ spec' = cc in
          absurd (let z = sym e ∙ ap (λ (x : ServiceSpec). x.ports) same ∙ g in cc),
    )
    on_ports spec (some ports) e =
        let (out, into) = IsIn-filter_map name_port_protocol port ports in
        (
          λ h.
              let (sp, i, q) = out h in
              let (text, protocol, a, c, d) = (name_port_protocol_iff sp port).0 q in
              (spec, ports, sp, text, protocol, refl, e, i, a, c, d),
          λ (spec', ports', sp, text, protocol, q, g, i, a, c, d).
              let same : spec ≡ spec' = cc in
              let z = sym e ∙ ap (λ (x : ServiceSpec). x.ports) same ∙ g in
              let same_ports : ports' ≡ ports = cc in
              into (
                sp,
                rw (← same_ports) i,
                (name_port_protocol_iff sp port).1 (text, protocol, a, c, d),
              ),
        )

    on_spec :
        (o : Option ServiceSpec)
        → IsIn port (elim o [
          | none ↦ []
          | some spec ↦ elim spec.ports [
            | none ↦ []
            | some ports ↦ filter_map name_port_protocol ports
          ]
        ])
          ↔ Named o
    on_spec none = (λ h. absurd h, λ (_, _, _, _, _, h, _, _, _, _, _). absurd (cc))
    on_spec (some spec) = on_ports spec spec.ports refl

pub endpoint_ready_iff :
    (c : EndpointConditions)
    → (endpoint_ready c ≡ true) ↔ ((c.ready ≢ some false) × (c.terminating ≢ some true))
unfolding endpoint_ready
endpoint_ready_iff c = go c.ready c.terminating
  where
    go :
        (r t : Option Bool)
        → (endpoint_ready (record { ready = r; terminating = t }) ≡ true)
          ↔ ((r ≢ some false) × (t ≢ some true))
    go none none = ground arith
    go none (some true) = ground arith
    go none (some false) = ground arith
    go (some true) none = ground arith
    go (some true) (some true) = ground arith
    go (some true) (some false) = ground arith
    go (some false) none = ground arith
    go (some false) (some true) = ground arith
    go (some false) (some false) = ground arith

module _ (parse_ip : String → Option IpAddr)
    (matches : String → String → HashMap String String → Bool) where
  -- A slice in the namespace whose owner label is the service's name.
  pub owned_iff :
      (service : Service) (namespace : String) (slice : EndpointSlice)
      → (owned parse_ip matches service namespace slice ≡ true) ↔ (
          (matches "kubernetes.io/service-name" service.metadata.name_any slice.metadata.labels
            ≡ true)
          × (slice.metadata.namespace ≡ some namespace))
  unfolding owned
  owned_iff service namespace slice =
      go (matches "kubernetes.io/service-name" service.metadata.name_any slice.metadata.labels)
        slice.metadata.namespace
    where
      go :
          (m : Bool) (o : Option String)
          → ((m && same_namespace o namespace) ≡ true) ↔ ((m ≡ true) × (o ≡ some namespace))
      go m none = (λ h. absurd (ground arith), λ (_, h). cc)
      go m (some n) = (
        λ h.
            let a : str_eq n namespace ≡ true = ground arith in
            (ground arith, ap some ((eq_iff n namespace).0 a)),
        λ (h, q).
            let same : n ≡ namespace = cc in let a = (eq_iff n namespace).1 same in ground arith,
      )

  pub port_mapping_iff :
      (slice : EndpointSlice) (ip : IpAddr) (name : String) (port : ℕ) (protocol : KubeProtocol)
      (m : BackendPortMapping)
      → (port_mapping parse_ip matches slice ip (name, port, protocol) ≡ some m) ↔ (
          (backend : ℕ) × (ports : List EndpointPort) × (slice.ports ≡ some ports)
          × IsFirst ports name protocol backend
          × (m ≡ record {
            ip = ip;
            service_port = port;
            backend_port = backend;
            protocol = protocol_to_string protocol;
          }))
  unfolding port_mapping
  port_mapping_iff slice ip name port protocol m =
      elim (Option-cases (backend_port_from_ep_slice parse_ip slice name protocol)) [
        | inl e ↦ (
          λ h. absurd (ground (arith, e)),
          λ (backend, ports, q, i, _).
              let f =
                (backend_port_from_ep_slice-IsFirst parse_ip slice name protocol backend).1
                  (ports, q, i) in
              absurd (let z = sym e ∙ f in cc),
        )
        | inr (b, e) ↦ (
          λ h.
              let (ports, q, i) =
                (backend_port_from_ep_slice-IsFirst parse_ip slice name protocol b).0 e in
              (b, ports, q, i, ground (arith, e)),
          λ (backend, ports, q, i, s).
              let f =
                (backend_port_from_ep_slice-IsFirst parse_ip slice name protocol backend).1
                  (ports, q, i) in
              rw (f, port_mapping) (ap some (sym s)),
        )
      ]
