-- ===== src/MeshEndpoint/Pairs.antt =====
-- The table that `generate_bpf_service_endpoints` builds, against a list for each key.
use mesh_cni.Common.{ServiceKey, service_key_eq, EndpointValue, IpAddr}
use mesh_cni.MeshEndpoint.{BackendPortMapping, mapping_pair}
use mesh_cni.Prelude.{List, [], ◌∷◌, ◌++◌, Option, some, none, ite}
use mesh_cni.Prelude.HashMap

-- What one mapping gives for one service address and key.
unfoldable pub mapping_for : ServiceKey → Option (ServiceKey × EndpointValue) → List EndpointValue
mapping_for k none = []
mapping_for k (some (j, v)) = ite (service_key_eq.same k j) (v ∷ []) []

unfoldable pub mappings_for : ServiceKey → IpAddr → List BackendPortMapping → List EndpointValue
mappings_for k ip [] = []
mappings_for k ip (m ∷ ms) = mapping_for k (mapping_pair ip m) ++ mappings_for k ip ms

-- All the endpoints of a key, in the order of the addresses and then of the mappings.
unfoldable pub endpoints_for :
    ServiceKey → List IpAddr → List BackendPortMapping → List EndpointValue
endpoints_for k [] ms = []
endpoints_for k (ip ∷ ips) ms = mappings_for k ip ms ++ endpoints_for k ips ms

-- A row of the table with more endpoints behind it; no row is made for no endpoint.
abbrev extended : Option (List EndpointValue) → List EndpointValue → Option (List EndpointValue)
extended none [] = none
extended none (v ∷ vs) = some (v ∷ vs)
extended (some eps) vs = some (eps ++ vs)

-- The row that a list of endpoints makes: none if the list is empty.
abbrev pub row : List EndpointValue → Option (List EndpointValue)
row [] = none
row (v ∷ vs) = some (v ∷ vs)
