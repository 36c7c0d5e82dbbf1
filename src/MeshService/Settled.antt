-- ===== src/MeshService/Settled.antt =====
-- When `reconcile` has nothing to send.
use mesh_cni.Common.{IpAddr}
use mesh_cni.MeshEndpoint.Generate.{generate_mesh_endpoint_spec}
use mesh_cni.MeshEndpoint.{MeshEndpointSpec, Service, EndpointSlice}
use mesh_cni.MeshService.{
  MeshEndpoint, Request, mesh_service, remove_request, apply_request, reconcile_in,
  reconcile_service,
}
use mesh_cni.Prelude.{
  String, List, Option, some, none, Bool, true, false, ◌≡◌, refl, sym, ◌⊎◌, inl, inr, ◌↔◌, ◌≢◌,
  ◌&&◌, if◌then◌else◌, Bool-cases, arith,
}
use mathlib.Core.Path.{subst}
use text.Mathlib.Text.{◌==◌ as str_eq}
use text.Mathlib.TextEquality.{eq_iff}
use mesh_cni.Prelude.HashMap.{HashMap}

-- The mesh endpoints of the API server, by namespace and name.
abbrev pub Stored : Type 0
Stored = String → String → Option MeshEndpoint

-- One of them changes.
abbrev pub stored_with : String → String → Option MeshEndpoint → Stored → Stored
stored_with ns name mep stored n m = if str_eq n ns && str_eq m name then mep else stored n m

-- The mesh endpoints that are stored after a request was carried out.
abbrev pub carried_out : Option Request → Stored → Stored
carried_out none stored = stored
carried_out (some (Request.delete ns name)) stored = stored_with ns name none stored
carried_out (some (Request.apply ns mep owner)) stored =
    stored_with ns mep.name_any (some mep) stored

stored_with-same :
    (ns name : String) (mep : Option MeshEndpoint) (stored : Stored)
    → stored_with ns name mep stored ns name ≡ mep
stored_with-same ns name mep stored =
    let a = (eq_iff ns ns).1 refl in let b = (eq_iff name name).1 refl in rw (a, b) refl

stored_with-other :
    (ns name n m : String) (mep : Option MeshEndpoint) (stored : Stored)
    → (n ≢ ns) ⊎ (m ≢ name)
    → stored_with ns name mep stored n m ≡ stored n m
stored_with-other ns name n m mep stored ne = elim (Bool-cases (str_eq n ns)) [
  | inr e ↦ rw e refl
  | inl e ↦ elim (Bool-cases (str_eq m name)) [
    | inr f ↦ rw (e, f) refl
    | inl f ↦ absurd (elim ne [ inl h ↦ h ((eq_iff n ns).0 e) | inr h ↦ h ((eq_iff m name).0 f) ])
  ]
]

module _ (parse_ip : String → Option IpAddr)
    (matches differs : String → String → HashMap String String → Bool)
    (same_spec : MeshEndpointSpec → MeshEndpointSpec → Bool) (store : List EndpointSlice)
    (service : Service) (annotations : HashMap String String) (uid : Option String) where
  -- The stored mesh endpoint is as it should be.
  abbrev pub AsWanted : Option MeshEndpoint → Type 0
  AsWanted cached =
      ((differs mesh_service "true" annotations ≡ true) × (cached ≡ none))
      ⊎ ((differs mesh_service "true" annotations ≡ false)
          × ((mep : MeshEndpoint) × (cached ≡ some mep)
              × (same_spec mep.spec (generate_mesh_endpoint_spec parse_ip matches store service)
                  ≡ true)))

  abbrev reconciled : Option MeshEndpoint → Option String → Option Request
  reconciled cached =
      reconcile_in parse_ip matches differs same_spec store service annotations uid cached

  in_namespace :
      (ns : String) (cached : Option MeshEndpoint)
      → (reconciled cached (some ns) ≡ none) ↔ AsWanted cached
  unfolding reconcile_in remove_request apply_request
  in_namespace ns none = elim (Bool-cases (differs mesh_service "true" annotations)) [
    | inl e ↦ (λ _. inl (e, refl), λ _. rw e)
    | inr e ↦ (λ h. absurd (ground (arith, h, e)), λ w. absurd (ground (arith, w, e)))
  ]
  in_namespace ns (some mep) = elim (Bool-cases (differs mesh_service "true" annotations)) [
    | inl e ↦ (
      λ h. absurd (ground (arith, h, e)),
      λ w. absurd (elim w [ inl (d, c) ↦ cc | inr (d, _) ↦ cc ]),
    )
    | inr e ↦
        elim (Bool-cases
          (same_spec mep.spec (generate_mesh_endpoint_spec parse_ip matches store service))) [
            | inl f ↦ (λ _. inr (e, (mep, refl, f)), λ _. rw (e, f))
            | inr f ↦ (
              λ h. absurd (ground (arith, h, e, f)),
              λ w. absurd (elim w [
                | inl (d, c) ↦ cc
                | inr (d, (m, c, t)) ↦
                    let same : mep ≡ m = cc in
                    let u : same_spec mep.spec
                          (generate_mesh_endpoint_spec parse_ip matches store service)
                        ≡ true =
                      rw same t in
                    cc
              ]),
            )
          ]
  ]

  -- For a service whose namespace is given, `reconcile` sends nothing if and only if a service
  -- without the annotation has no mesh endpoint, and one with it has one with the generated spec.
  pub reconcile_service-none :
      (namespace : String) (cached : Option MeshEndpoint)
      → service.metadata.namespace ≡ some namespace
      → (reconcile_service parse_ip matches differs same_spec store service annotations uid cached
          ≡ none)
        ↔ AsWanted cached
  unfolding reconcile_service
  reconcile_service-none namespace cached given =
      subst (λ o. (reconciled cached o ≡ none) ↔ AsWanted cached) (sym given)
        (in_namespace namespace cached)

  after-AsWanted :
      (ns : String) (stored : Stored)
      → ((spec : MeshEndpointSpec) → same_spec spec spec ≡ true)
      → (cached : Option MeshEndpoint) → stored ns service.metadata.name_any ≡ cached
      → ((mep : MeshEndpoint) → cached ≡ some mep → mep.name_any ≡ service.metadata.name_any)
      → AsWanted (carried_out (reconciled cached (some ns)) stored ns service.metadata.name_any)
        × ((n m : String)
            → (n ≢ ns) ⊎ (m ≢ service.metadata.name_any)
            → carried_out (reconciled cached (some ns)) stored n m ≡ stored n m)
  unfolding reconcile_in remove_request apply_request
  after-AsWanted ns stored reflexive none at named =
      elim (Bool-cases (differs mesh_service "true" annotations)) [
        | inl e ↦ rw e (inl (refl, at), λ n m ne. refl)
        | inr e ↦ rw e (
          inr (
            refl,
            (
              _,
              stored_with-same ns service.metadata.name_any _ stored,
              reflexive (generate_mesh_endpoint_spec parse_ip matches store service),
            ),
          ),
          λ n m. stored_with-other ns service.metadata.name_any n m _ stored,
        )
      ]
  after-AsWanted ns stored reflexive (some mep) at named =
      elim (Bool-cases (differs mesh_service "true" annotations)) [
        | inl e ↦
            rw (e, named mep refl)
              (
                inl (refl, stored_with-same ns service.metadata.name_any none stored),
                λ n m. stored_with-other ns service.metadata.name_any n m none stored,
              )
        | inr e ↦
            elim (Bool-cases
              (same_spec mep.spec (generate_mesh_endpoint_spec parse_ip matches store service))) [
                | inl f ↦ rw (e, f) (inr (refl, (mep, at, f)), λ n m ne. refl)
                | inr f ↦
                    rw (e, f)
                      (
                        inr (
                          refl,
                          (
                            _,
                            stored_with-same ns service.metadata.name_any _ stored,
                            reflexive (generate_mesh_endpoint_spec parse_ip matches store service),
                          ),
                        ),
                        λ n m. stored_with-other ns service.metadata.name_any n m _ stored,
                      )
              ]
      ]

  -- For a service in a namespace, where the store knows each mesh endpoint by its own name and a
  -- spec equals itself: once the request of `reconcile` was carried out on the object that it
  -- names, the mesh endpoint of the service's namespace and name is as wanted (none without the
  -- annotation, one with the generated spec with it), no other object has changed, and `reconcile`
  -- on the same service and slices sends nothing more.
  pub reconcile_service-settles :
      (ns : String) (stored : Stored)
      → service.metadata.namespace ≡ some ns
      → ((spec : MeshEndpointSpec) → same_spec spec spec ≡ true)
      → ((mep : MeshEndpoint)
          → stored ns service.metadata.name_any ≡ some mep
          → mep.name_any ≡ service.metadata.name_any)
      → let request =
          reconcile_service parse_ip matches differs same_spec store service annotations uid
            (stored ns service.metadata.name_any) in
        AsWanted (carried_out request stored ns service.metadata.name_any)
        × ((n m : String)
            → (n ≢ ns) ⊎ (m ≢ service.metadata.name_any)
            → carried_out request stored n m ≡ stored n m)
        × (reconcile_service parse_ip matches differs same_spec store service annotations uid
              (carried_out request stored ns service.metadata.name_any)
            ≡ none)
  unfolding reconcile_service
  reconcile_service-settles ns stored given reflexive named =
      let after =
        after-AsWanted ns stored reflexive (stored ns service.metadata.name_any) refl named in
      let moved =
        subst
          (λ o.
            AsWanted (
              carried_out (reconciled (stored ns service.metadata.name_any) o) stored ns
                service.metadata.name_any)
            × ((n m : String)
                → (n ≢ ns) ⊎ (m ≢ service.metadata.name_any)
                → carried_out (reconciled (stored ns service.metadata.name_any) o) stored n m
                  ≡ stored n m))
          (sym given) after in
      (moved.0, moved.1, (reconcile_service-none ns _ given).1 moved.0)
