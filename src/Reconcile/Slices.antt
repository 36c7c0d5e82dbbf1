-- ===== src/Reconcile/Slices.antt =====
-- `generate_service_pairs` of an endpoint slice: which service it finds.
use mesh_cni.Common.{IpAddr}
use mesh_cni.MeshEndpoint.Generate.{service_owner_label}
use mesh_cni.MeshEndpoint.{Service, EndpointSlice}
use mesh_cni.Prelude.{
  String, List, [], ◌∷◌, Option, some, none, Bool, true, false, ◌&&◌, if◌then◌else◌, filter_map,
  IsIn, ◌≡◌, refl, ◌⊎◌, inl, inr, Bool-cases,
}
use mesh_cni.Prelude.HashMap.{HashMap}
use mesh_cni.Reconcile.{both_namespaces, is_service_of, first_pairs, slice_pairs, service_pairs}

module _ (parse_ip : String → Option IpAddr)
    (matches : String → String → HashMap String String → Bool)
    (endpoint_slice_state : List EndpointSlice) (service_state : List Service) where
  both_true : (a b : Bool) → (a && b) ≡ true → (a ≡ true) × (b ≡ true)
  both_true true b h = (refl, h)
  both_true false b h = absurd (cc)

  -- The services and slices of the cluster, and a slice: either it gives no pairs at all, or they
  -- are those of a service of its namespace whose labels match `kubernetes.io/service-name` with
  -- the name of the slice itself. That a service owns the slice plays no part.
  pub slice_pairs-named :
      (slice : EndpointSlice)
      → (slice_pairs parse_ip matches endpoint_slice_state service_state slice ≡ [])
        ⊎ ((s : Service) × IsIn s service_state
            × (both_namespaces slice.metadata.namespace s.metadata.namespace ≡ true)
            × (matches service_owner_label slice.metadata.name_any s.metadata.labels ≡ true)
            × (slice_pairs parse_ip matches endpoint_slice_state service_state slice
                ≡ service_pairs parse_ip matches endpoint_slice_state service_state s))
  unfolding slice_pairs first_pairs is_service_of
  slice_pairs-named slice = go service_state (λ s h. h)
    where
      go :
          (l : List Service)
          → ((s : Service) → IsIn s l → IsIn s service_state)
          → (first_pairs parse_ip matches endpoint_slice_state service_state (
                filter_map
                  (λ s.
                    if is_service_of parse_ip matches endpoint_slice_state service_state slice s
                    then some s
                    else none)
                  l)
              ≡ [])
            ⊎ ((s : Service) × IsIn s service_state
                × (both_namespaces slice.metadata.namespace s.metadata.namespace ≡ true)
                × (matches service_owner_label slice.metadata.name_any s.metadata.labels ≡ true)
                × (first_pairs parse_ip matches endpoint_slice_state service_state (
                      filter_map
                        (λ s.
                          if is_service_of parse_ip matches endpoint_slice_state service_state slice
                            s
                          then some s
                          else none)
                        l)
                    ≡ service_pairs parse_ip matches endpoint_slice_state service_state s))
      go [] inside = inl refl
      go (s ∷ l) inside =
          elim (Bool-cases
            (is_service_of parse_ip matches endpoint_slice_state service_state slice s)) [
              | inl e ↦
                  let (a, b) =
                    both_true (both_namespaces slice.metadata.namespace s.metadata.namespace)
                      (matches service_owner_label slice.metadata.name_any s.metadata.labels) e in
                  inr (s, inside s (inl refl), a, b, rw e)
              | inr e ↦ rw (e, is_service_of) (go l (λ t h. inside t (inr h)))
            ]
