-- ===== src/Reconcile.antt =====
-- mesh-cni-service-bpf-controller/src/controller.rs: what the agent does when a mesh endpoint, a
-- service or an endpoint slice changes. The stores of `kube` are parameters, `get` for the lookup
-- of the cached object and a list for its state; `matches` is as in MeshEndpoint/Generate. The
-- BPF state is that of Service/State, which `ctx.service_bpf_state` is.
pub mod Calls
pub mod Slices
use mesh_cni.Common.{ServiceKey, EndpointValue, IpAddr, service_key_eq}
use mesh_cni.MeshEndpoint.Generate.{
  service_owner_label, generate_mesh_endpoint_spec, same_namespace,
}
use mesh_cni.MeshEndpoint.{
  MeshEndpointSpec, Pairs, Service, EndpointSlice, generate_bpf_service_endpoints,
}
use mesh_cni.Prelude.{
  ℕ, String, List, [], ◌∷◌, Option, some, none, Bool, true, false, ◌&&◌, not, if◌then◌else◌,
  filter_map,
}
use mesh_cni.Prelude.HashMap.{HashMap}
use mesh_cni.Prelude.Result.{Result, ok, err, Proc, pure, ◌>>=◌, ◌>>◌}
use text.Mathlib.Text.{◌==◌ as str_eq}

-- `Action` of `kube`; the time to a requeue is in milliseconds.
pub data Action : Type 0 where
  await_change : Action
  requeue : ℕ → Action

abbrev pub mesh_service : String
mesh_service = "mesh-cni.dev/multi-cluster"

-- What `reconcile` asks of an object of kind `K`.
pub record MeshController (K : Type 0) : Type 0 where
  pub namespace : K → Option String
  pub labels : K → HashMap String String
  pub is_deleted : K → Bool
  pub generate_service_pairs : K → Pairs
  pub is_current : K → Bool

-- `is_current`: the object in the store against this one; `same` compares what the kind compares.
unfoldable pub is_current_with : {K : Type 0} → (K → K → Bool) → Option K → K → Bool
is_current_with same none k = false
is_current_with same (some cached) k = same cached k

-- `==` on the namespaces.
abbrev pub both_namespaces : Option String → Option String → Bool
both_namespaces none none = true
both_namespaces none (some b) = false
both_namespaces (some a) o = same_namespace o a

module _ (parse_ip : String → Option IpAddr)
    (matches : String → String → HashMap String String → Bool)
    (endpoint_slice_state : List EndpointSlice) (service_state : List Service) where
  -- `generate_service_pairs` of a service.
  unfoldable pub service_pairs : Service → Pairs
  service_pairs service =
      generate_bpf_service_endpoints
        (generate_mesh_endpoint_spec parse_ip matches endpoint_slice_state service)

  -- The filter in `generate_service_pairs` of an endpoint slice.
  unfoldable pub is_service_of : EndpointSlice → Service → Bool
  is_service_of slice s =
      both_namespaces slice.metadata.namespace s.metadata.namespace
      && matches service_owner_label slice.metadata.name_any s.metadata.labels

  unfoldable pub first_pairs : List Service → Pairs
  first_pairs [] = []
  first_pairs (service ∷ _) = service_pairs service

  unfoldable pub slice_pairs : EndpointSlice → Pairs
  slice_pairs slice =
      first_pairs (filter_map (λ s. if is_service_of slice s then some s else none) service_state)

module _ {S : Type 0} (update : ServiceKey → List EndpointValue → Proc S (Unit {0}))
    (remove : ServiceKey → Proc S (Unit {0})) where
  unfoldable pub remove_keys : Pairs → Proc S (Unit {0})
  remove_keys [] = pure tt
  remove_keys ((k, v) ∷ rest) = do remove k; remove_keys rest

  unfoldable pub update_pairs : Pairs → Proc S (Unit {0})
  update_pairs [] = pure tt
  update_pairs ((k, v) ∷ rest) = do update k v; update_pairs rest

  -- From `generate_service_pairs` on.
  unfoldable pub apply_pairs : Bool → Pairs → Proc S Action
  apply_pairs is_deleted service_pairs = do
    if is_deleted then remove_keys service_pairs else pure tt
    update_pairs service_pairs
    pure Action.await_change

  unfoldable pub reconcile :
      {K : Type 0}
      → MeshController K
      → (String → String → HashMap String String → Bool)
      → K
      → Proc S Action
  reconcile c matches k s = elim (c.namespace k) [
    | none ↦ (err "missing namespace", s)
    | some ns ↦
        if matches mesh_service "true" (c.labels k)
        then (ok Action.await_change, s)
        else if not (c.is_current k)
        then (ok (Action.requeue 200), s)
        else apply_pairs (c.is_deleted k) (c.generate_service_pairs k) s
  ]
