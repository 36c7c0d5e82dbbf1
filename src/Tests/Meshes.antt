-- ===== src/Tests/Meshes.antt =====
-- The endpoints of a service, from the Kubernetes objects.
use mesh_cni.Common.{service_key_eq, IpAddr}
use mesh_cni.MeshEndpoint.Generate.{
  Sourced, generate_mesh_endpoint_spec, generate_mesh_endpoint_spec-Sourced,
}
use mesh_cni.MeshService.Settled.{Stored, AsWanted, carried_out, reconcile_service-settles}
use mesh_cni.MeshService.{MeshEndpoint, reconcile_service}
use mesh_cni.MeshEndpoint.{BackendPortMapping, MeshEndpointSpec, ObjectMeta, Service, EndpointSlice}
use mesh_cni.Prelude.{
  refl, String, [], ◌∷◌, Option, some, none, Bool, true, false, ◌≡◌, ◌≢◌, ◌⊎◌, ◌↔◌, IsIn,
}
use mesh_cni.Prelude.HashMap
use mesh_cni.Prelude.HashMap.{HashMap}

abbrev mapping : IpAddr → BackendPortMapping
mapping ip = record { ip = ip; service_port = 80; backend_port = 8080; protocol = "TCP" }

-- an IPv6 endpoint among two of IPv4
abbrev spec : MeshEndpointSpec
spec = record {
  service_ips = IpAddr.v4 1 ∷ [];
  backend_port_mappings =
      mapping (IpAddr.v4 11) ∷ mapping (IpAddr.v6 12) ∷ mapping (IpAddr.v4 13) ∷ [];
}

-- every text is the address 7, and every selector matches
abbrev parse_ip : String → Option IpAddr
parse_ip s = some (IpAddr.v4 7)

abbrev matches : String → String → HashMap String String → Bool
matches key value labels = true

abbrev meta : String → ObjectMeta
meta name = record { name_any = name; namespace = some "default"; labels = [] }

abbrev web : Service
web = record {
  metadata = meta "web";
  spec = some (record {
    cluster_ips = some ("10.0.0.1" ∷ []);
    ports = some (record { name = some "http"; port = 80; protocol = some "TCP" } ∷ []);
  });
}

abbrev slice : EndpointSlice
slice = record {
  metadata = meta "web-abc";
  endpoints =
      record {
        addresses = "10.1.0.1" ∷ [];
        conditions = some (record { ready = some true; terminating = none });
      }
      ∷ [];
  ports = some (record { name = some "http"; port = some 8080; protocol = some "TCP" } ∷ []);
}

generate_mesh_endpoint_spec-Sourced_example :
    IsIn
      (mapping (IpAddr.v4 7))
      (generate_mesh_endpoint_spec parse_ip matches (slice ∷ []) web).backend_port_mappings
    ↔ Sourced parse_ip matches (slice ∷ []) web (mapping (IpAddr.v4 7))
generate_mesh_endpoint_spec-Sourced_example =
    generate_mesh_endpoint_spec-Sourced parse_ip matches (slice ∷ []) web (mapping (IpAddr.v4 7))

not_stored :
    (mep : MeshEndpoint) → Path (Option MeshEndpoint) none (some mep) → mep.name_any ≡ "web"
not_stored mep h = cc

-- the service has the annotation, and no spec has been stored
abbrev differs : String → String → HashMap String String → Bool
differs key value annotations = false

abbrev same_spec : MeshEndpointSpec → MeshEndpointSpec → Bool
same_spec a b = true

same_spec_refl : (spec : MeshEndpointSpec) → same_spec spec spec ≡ true
same_spec_refl s = refl

abbrev nothing : Stored
nothing ns name = none

reconcile_service-settles_example :
    let request =
      reconcile_service parse_ip matches differs same_spec (slice ∷ []) web [] none none in
    AsWanted parse_ip matches differs same_spec
      (slice ∷ [])
      web
      []
      none
      (carried_out request nothing "default" "web")
    × ((n m : String) → (n ≢ "default") ⊎ (m ≢ "web") → carried_out request nothing n m ≡ none)
    × (reconcile_service parse_ip matches differs same_spec
          (slice ∷ [])
          web
          []
          none
          (carried_out request nothing "default" "web")
        ≡ none)
reconcile_service-settles_example =
    reconcile_service-settles parse_ip matches differs same_spec (slice ∷ []) web [] none "default"
      nothing refl same_spec_refl not_stored
