-- ===== src/MeshService.antt =====
-- mesh-cni-service-controller/src/controller.rs: the mesh endpoint of a service that is shared
-- between clusters. The service's annotations and uid, and the mesh endpoint of its name that the
-- store has, are arguments; `differs key value labels` is what the selector of
-- `Expression::NotEqual(key, value)` answers, of the crate `kube`, and `same_spec` the derived `==`.
pub mod Settled
use mesh_cni.Common.{IpAddr}
use mesh_cni.MeshEndpoint.Generate.{generate_mesh_endpoint_spec, service_owner_label}
use mesh_cni.MeshEndpoint.{MeshEndpointSpec, Service, EndpointSlice}
use mesh_cni.Prelude.{String, List, Option, some, none, Bool, true, false, if◌then◌else◌}
use mesh_cni.Prelude.HashMap.{HashMap}

abbrev pub mesh_service : String
mesh_service = "io.cilium/global-service"

pub record MeshEndpoint : Type 0 where
  pub name_any : String
  pub spec : MeshEndpointSpec

pub record OwnerReference : Type 0 where
  pub api_version : String
  pub block_owner_deletion : Bool
  pub controller : Bool
  pub kind : String
  pub name : String
  pub uid : String

-- A request to the API server, within a namespace.
pub data Request : Type 0 where
  delete : String → String → Request
  apply : String → MeshEndpoint → OwnerReference → Request

abbrev pub uid_or_empty : Option String → String
uid_or_empty none = ""
uid_or_empty (some uid) = uid

unfoldable pub owner_references : Service → Option String → OwnerReference
owner_references service uid = record {
  api_version = "v1";
  block_owner_deletion = true;
  controller = true;
  kind = "Service";
  name = service.metadata.name_any;
  uid = uid_or_empty uid;
}

-- The service a slice belongs to, by namespace and name; `label` is the value of its owner label.
unfoldable pub endpoint_slice_mapper : EndpointSlice → Option String → Option (String × String)
endpoint_slice_mapper slice label = elim slice.metadata.namespace [
  | none ↦ none
  | some namespace ↦ elim label [ none ↦ none | some service_name ↦ some (namespace, service_name) ]
]

module _ (parse_ip : String → Option IpAddr)
    (matches differs : String → String → HashMap String String → Bool)
    (same_spec : MeshEndpointSpec → MeshEndpointSpec → Bool) (store : List EndpointSlice) where
  -- For a service without the annotation.
  unfoldable pub remove_request : String → Option MeshEndpoint → Option Request
  remove_request ns none = none
  remove_request ns (some mesh) = some (Request.delete ns mesh.name_any)

  -- For a service with it.
  unfoldable pub apply_request :
      String → Service → Option String → Option MeshEndpoint → Option Request
  apply_request ns service uid cached =
      let spec = generate_mesh_endpoint_spec parse_ip matches store service in
      let request = some (
        Request.apply ns (record { name_any = service.metadata.name_any; spec = spec })
          (owner_references service uid)) in
      elim cached [ none ↦ request | some mep ↦ if same_spec mep.spec spec then none else request ]

  -- The body, from the service's namespace.
  unfoldable pub reconcile_in :
      Service
      → HashMap String String
      → Option String
      → Option MeshEndpoint
      → Option String
      → Option Request
  reconcile_in service annotations uid cached none = none
  reconcile_in service annotations uid cached (some ns) =
      if differs mesh_service "true" annotations
      then remove_request ns cached
      else apply_request ns service uid cached

  -- The request that `reconcile` sends, if any; it then waits for the next change.
  unfoldable pub reconcile_service :
      Service → HashMap String String → Option String → Option MeshEndpoint → Option Request
  reconcile_service service annotations uid cached =
      reconcile_in service annotations uid cached service.metadata.namespace
