-- ===== src/Connect4/Backends.antt =====
-- What the program at `connect4` does on each branch, and with a full list of endpoints.
use mesh_cni.Common.{
  ServiceKeyV4, ServiceValue, EndpointKey, endpoint_key, endpoint_key_eq, EndpointValueV4,
}
use mesh_cni.Connect4.{
  SockAddr, Verdict, ok, err, af_inet, build_service_key, get_position, redirect, choose,
  try_connect4, exit_code,
}
use mesh_cni.Prelude.{
  ℕ, zero, suc, ◌+◌, ◌%◌, ◌^◌, ◌<◌, ◌≤◌, ◌≡◌, ◌⊎◌, inl, inr, ◌↔◌, refl, Option, some, List, ◌∷◌,
  false, arith, length, get_elem?, get_elem?-some, Option-cases, Bool-cases, ◌==◌,
}
use mesh_cni.Prelude.Bytes.{Endian, to_be}
use mesh_cni.Prelude.HashMap
use mesh_cni.Prelude.HashMap.{HashMap}
use mesh_cni.Service.{collect_endpoints}

module _ {EV : Type 0} (cache : HashMap EndpointKey EV) where
  length-collect_endpoints-le : (id n pos : ℕ) → length (collect_endpoints cache id n pos) ≤ n
  unfolding collect_endpoints
  length-collect_endpoints-le id zero pos = omega arith
  length-collect_endpoints-le id (suc n) pos =
      ground (arith, length-collect_endpoints-le id n (pos + 1))

  -- If as many endpoints are listed as are counted, each stands at its place.
  pub collect_endpoints-full :
      (id n pos i : ℕ)
      → length (collect_endpoints cache id n pos) ≡ n
      → i < n
      → HashMap.get (endpoint_key id (pos + i)) cache
        ≡ get_elem? (collect_endpoints cache id n pos) i
  unfolding collect_endpoints
  collect_endpoints-full id zero pos i full h = absurd (omega arith)
  collect_endpoints-full id (suc n) pos i full h =
      elim (Option-cases (HashMap.get (endpoint_key id pos) cache)) [
        | inl e ↦ absurd (
            let f = rw (e, collect_endpoints) at full in
            omega (arith, length-collect_endpoints-le id n (pos + 1)))
        | inr (ep, e) ↦
            let f = rw (e, collect_endpoints) at full in
            rw (e, collect_endpoints)
              (place i h ep e (λ j l. collect_endpoints-full id n (pos + 1) j (omega arith) l))
      ]
    where
      place :
          (i : ℕ)
          → i < suc n
          → (ep : EV) → HashMap.get (endpoint_key id pos) cache ≡ some ep
          → ((j : ℕ)
              → j < n
              → HashMap.get (endpoint_key id (pos + 1 + j)) cache
                ≡ get_elem? (collect_endpoints cache id n (pos + 1)) j)
          → HashMap.get (endpoint_key id (pos + i)) cache
            ≡ get_elem? (ep ∷ collect_endpoints cache id n (pos + 1)) i
      place zero h ep e rest = let z : pos + 0 ≡ pos = omega arith in rw z e
      place (suc i) h ep e rest =
          let z : pos + suc i ≡ pos + 1 + i = omega arith in rw z (rest i (omega arith))

Verdict-cases : {A : Type 0} (r : Verdict A) → ((a : A) × (r ≡ ok a)) ⊎ ((ret : ℕ) × (r ≡ err ret))
Verdict-cases (ok a) = inl (a, refl)
Verdict-cases (err ret) = inr (ret, refl)

get_position-lt : (random count : ℕ) → (count == 0) ≡ false → get_position random count < count
unfolding get_position
get_position-lt random count h = let pos : 0 < count = ground arith in omega arith

module _ (e : Endian) (services : ServiceKeyV4 → Option ServiceValue)
    (endpoints : EndpointKey → Option EndpointValueV4) (random : ℕ) where
  -- The address is changed only when the program allows the connection, and then to an endpoint
  -- that the map has at a position below the service's count: its address and its port are
  -- written in network order, and the rest of the context stays.
  pub try_connect4-redirect :
      (ctx : SockAddr)
      → ((try_connect4 e services endpoints random ctx).1 ≡ ctx)
        ⊎ ((k : ServiceKeyV4) × (v : ServiceValue) × (position : ℕ) × (ep : EndpointValueV4)
            × (build_service_key e ctx ≡ ok k)
            × (services k ≡ some v)
            × (position < v.count)
            × (endpoints (endpoint_key v.id position) ≡ some ep)
            × (try_connect4 e services endpoints random ctx
                ≡ (ok 1, record ctx { user_ip4 = to_be e 4 ep.ip; user_port = to_be e 2 ep.port })))
  unfolding try_connect4 choose redirect
  try_connect4-redirect ctx = elim (Bool-cases (ctx.user_family == af_inet)) [
    | inr other ↦ inl (rw other)
    | inl inet ↦ elim (Verdict-cases (build_service_key e ctx)) [
      | inr (ret, b) ↦ inl (rw (inet, b))
      | inl (k, b) ↦ elim (Option-cases (services k)) [
        | inl absent ↦ inl (rw (inet, b, absent))
        | inr (v, found) ↦ elim (Bool-cases (v.count == 0)) [
          | inl empty ↦ inl (rw (inet, b, found, empty))
          | inr some_ep ↦
              elim (Option-cases (endpoints (endpoint_key v.id (get_position random v.count)))) [
                | inl lost ↦ inl (rw (inet, b, found, some_ep, lost))
                | inr (ep, at) ↦ inr (
                  k,
                  v,
                  get_position random v.count,
                  ep,
                  b,
                  found,
                  get_position-lt random v.count some_ep,
                  at,
                  rw (inet, b, found, some_ep, at),
                )
              ]
        ]
      ]
    ]
  ]

  -- The exit code is 0, a denial, exactly for an IPv4 socket whose protocol fits a byte and whose
  -- address is that of a service without endpoints; it is 1 otherwise.
  pub exit_code-try_connect4 :
      (ctx : SockAddr)
      → (exit_code (try_connect4 e services endpoints random ctx).0 ≤ 1)
        × ((exit_code (try_connect4 e services endpoints random ctx).0 ≡ 0) ↔ (
            (ctx.user_family ≡ af_inet)
            × ((k : ServiceKeyV4) × (v : ServiceValue) × (build_service_key e ctx ≡ ok k)
                × (services k ≡ some v)
                × (v.count ≡ 0))))
  unfolding try_connect4 choose exit_code build_service_key
  exit_code-try_connect4 ctx =
      (ground arith, (denied, λ h. ground (arith, h.0, h.1.2, h.1.3, h.1.4)))
    where
      denied :
          exit_code (try_connect4 e services endpoints random ctx).0 ≡ 0
          → (ctx.user_family ≡ af_inet)
            × ((k : ServiceKeyV4) × (v : ServiceValue) × (build_service_key e ctx ≡ ok k)
                × (services k ≡ some v)
                × (v.count ≡ 0))
      denied h = elim (Verdict-cases (build_service_key e ctx)) [
        | inr (ret, b) ↦ absurd (ground arith)
        | inl (k, b) ↦ elim (Option-cases (services k)) [
          | inl absent ↦ absurd (ground arith)
          | inr (v, found) ↦ (ground arith, (k, v, b, found, ground arith))
        ]
      ]

  -- A service whose endpoints are in the map at each position below its count: the connection
  -- goes to one of these.
  pub try_connect4-one_of :
      (ctx : SockAddr) (k : ServiceKeyV4) (v : ServiceValue) (eps : List EndpointValueV4)
      → ctx.user_family ≡ af_inet
      → build_service_key e ctx ≡ ok k
      → services k ≡ some v
      → 0 < v.count
      → v.count ≤ length eps
      → ((i : ℕ) → i < v.count → endpoints (endpoint_key v.id i) ≡ get_elem? eps i)
      → (i : ℕ) × (ep : EndpointValueV4) × (i < v.count)
        × (get_elem? eps i ≡ some ep)
        × (try_connect4 e services endpoints random ctx
            ≡ (ok 1, record ctx { user_ip4 = to_be e 4 ep.ip; user_port = to_be e 2 ep.port }))
  unfolding try_connect4 choose get_position redirect
  try_connect4-one_of ctx k v eps family built found some_ep enough stored =
      let i = (random % 2 ^ 16) % v.count in
      let small : i < v.count = omega arith in
      let (ep, at) = get_elem?-some eps i (omega arith) in
      (i, ep, small, at, ground (arith, stored i small))
