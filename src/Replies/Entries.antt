-- ===== src/Replies/Entries.antt =====
-- What `list_services` prints of a service.
use mesh_cni.Common.{
  ServiceKey, EndpointValue, EndpointValueV4, EndpointValueV6, KubeProtocol, protocol_of_u32,
  protocol_to_string, service_key_v4_eq, service_key_v6_eq, service_key_eq, endpoint_key_eq,
}
use mesh_cni.Prelude.{ℕ, String, filter_map, List, [], ◌∷◌, map, ◌≡◌, ◌↔◌, refl, sym, ap}
use mesh_cni.Prelude.Result.{Result, ok, err}
use mesh_cni.Replies.{
  Display, ServiceWithEndpoints, service_with_endpoints, endpoint_v4, endpoint_v6, with_protocol,
}
use Prim.Native.String.{◌++◌ as append}

-- The endpoints of a key's family.
abbrev pub IsOfFamily : ServiceKey → List EndpointValue → Type 0
IsOfFamily (ServiceKey.v4 k) v = (l : List EndpointValueV4) × (map EndpointValue.v4 l ≡ v)
IsOfFamily (ServiceKey.v6 k) v = (l : List EndpointValueV6) × (map EndpointValue.v6 l ≡ v)

module _ (display : Display) where
  -- An address, a colon and a port.
  abbrev pub print_key : ServiceKey → String
  print_key (ServiceKey.v4 k) = append (display.ipv4 k.ip) (append ":" (display.number k.port))
  print_key (ServiceKey.v6 k) = append (display.ipv6 k.ip) (append ":" (display.number k.port))

  abbrev pub print_endpoint : EndpointValue → String
  print_endpoint (EndpointValue.v4 e) =
      append (display.ipv4 e.ip) (append ":" (display.number e.port))
  print_endpoint (EndpointValue.v6 e) =
      append (display.ipv6 e.ip) (append ":" (display.number e.port))

  abbrev pub protocol_in : ServiceKey → ℕ
  protocol_in (ServiceKey.v4 k) = k.protocol
  protocol_in (ServiceKey.v6 k) = k.protocol

  -- What is printed of a service.
  abbrev pub IsEntry : ServiceKey → List EndpointValue → ServiceWithEndpoints → Type 0
  IsEntry k endpoints entry =
      (protocol : KubeProtocol) × (protocol_of_u32 (protocol_in k) ≡ ok protocol)
      × (entry ≡ record {
        service_endpoint = print_key k;
        protocol = protocol_to_string protocol;
        endpoints = map print_endpoint endpoints;
      })

  filter_map-endpoint_v4 :
      (l : List EndpointValueV4)
      → filter_map (endpoint_v4 display) (map EndpointValue.v4 l)
        ≡ map print_endpoint (map EndpointValue.v4 l)
  unfolding endpoint_v4
  filter_map-endpoint_v4 [] = refl
  filter_map-endpoint_v4 (e ∷ l) =
      ap (◌∷◌ (print_endpoint (EndpointValue.v4 e))) (filter_map-endpoint_v4 l)

  filter_map-endpoint_v6 :
      (l : List EndpointValueV6)
      → filter_map (endpoint_v6 display) (map EndpointValue.v6 l)
        ≡ map print_endpoint (map EndpointValue.v6 l)
  unfolding endpoint_v6
  filter_map-endpoint_v6 [] = refl
  filter_map-endpoint_v6 (e ∷ l) =
      ap (◌∷◌ (print_endpoint (EndpointValue.v6 e))) (filter_map-endpoint_v6 l)

  with_protocol_iff :
      (name : String) (printed endpoints : List String) (r : Result KubeProtocol)
      (entry : ServiceWithEndpoints)
      → printed ≡ endpoints
      → (with_protocol display name printed r ≡ ok entry) ↔ (
          (protocol : KubeProtocol) × (r ≡ ok protocol)
          × (entry ≡ record {
            service_endpoint = name;
            protocol = protocol_to_string protocol;
            endpoints = endpoints;
          }))
  with_protocol_iff name printed endpoints (err x) entry same =
      (λ h. absurd (cc), λ (_, h, _). absurd (cc))
  with_protocol_iff name printed endpoints (ok p) entry same = (
    λ h.
        let made : entry ≡ record {
          service_endpoint = name;
          protocol = protocol_to_string p;
          endpoints = printed;
        } =
          cc in
        (p, refl, rw (← same) made),
    λ (q, h, made). let pq : q ≡ p = cc in rw same (ap ok (sym (rw pq at made))),
  )

  pub service_with_endpoints-IsEntry :
      (k : ServiceKey) (v : List EndpointValue) (entry : ServiceWithEndpoints)
      → IsOfFamily k v
      → (service_with_endpoints display k v ≡ ok entry) ↔ IsEntry k v entry
  unfolding service_with_endpoints
  service_with_endpoints-IsEntry (ServiceKey.v4 k) v entry (l, of) =
      with_protocol_iff _ _ (map print_endpoint v) (protocol_of_u32 k.protocol) entry
        (rw (← of) (filter_map-endpoint_v4 l))
  service_with_endpoints-IsEntry (ServiceKey.v6 k) v entry (l, of) =
      with_protocol_iff _ _ (map print_endpoint v) (protocol_of_u32 k.protocol) entry
        (rw (← of) (filter_map-endpoint_v6 l))
