-- ===== src/Connect4/Fresh.antt =====
-- The agent and the kernel program together: what a client that connects to a service meets after
-- `ServiceEndpoint::update` and `remove`. The program reads the maps that the agent writes.
use mesh_cni.BpfMap.Laws.{IsMap}
use mesh_cni.BpfMap.{BpfMap}
use mesh_cni.Common.{
  ServiceKeyV4, ServiceValue, EndpointKey, EndpointValueV4, endpoint_key, endpoint_key_eq,
  service_key_v4_eq,
}
use mesh_cni.Connect4.Backends.{collect_endpoints-full, try_connect4-one_of}
use mesh_cni.Connect4.{
  SockAddr, Verdict, ok, af_inet, build_service_key, get_position, choose, try_connect4,
}
use mesh_cni.Prelude.{
  ℕ, ◌+◌, ◌<◌, ◌≤◌, ◌≡◌, refl, ap, ◌∙◌, if_pos, some, none, List, arith, length, get_elem?,
}
use mesh_cni.Prelude.Bytes.{Endian, to_be}
use mesh_cni.Prelude.HashMap
use mesh_cni.Prelude.Result
use mesh_cni.Service.Mirror.{IsMirror, update-IsMirror, remove-IsMirror}
use mesh_cni.Service.Changes.{Inserted}
use mesh_cni.Service.Update.{update-Inserted, update-Replaced, remove-Removed}
use mesh_cni.Service.{ServiceEndpoint, update, remove, endpoints_of}

module _ {S E : Type 0} {services : BpfMap S ServiceKeyV4 ServiceValue ServiceKeyV4}
    {endpoints : BpfMap E EndpointKey EndpointValueV4 EndpointKey} (sl : IsMap services)
    (el : IsMap endpoints) (e : Endian) (random : ℕ) (k : ServiceKeyV4) (ctx : SockAddr) where
  -- The program run on the maps of an agent's state.
  unfoldable pub connect : ServiceEndpoint S E ServiceKeyV4 EndpointValueV4 → Verdict ℕ × SockAddr
  connect st = try_connect4 e (sl.view st.service_map) (el.view st.endpoint_map) random ctx

  module _ (st : ServiceEndpoint S E ServiceKeyV4 EndpointValueV4) (mirror : IsMirror sl el st)
      (family : ctx.user_family ≡ af_inet) (built : build_service_key e ctx ≡ ok k) where
    -- Where the caches are a copy of the maps and the context is that of an IPv4 connection to the
    -- service: after `update` of a new service with at least one endpoint returned `Ok`, the
    -- connection goes to the address and the port of one of these endpoints, in network order,
    -- whatever the random number.
    pub connect-update_new :
        (value : List EndpointValueV4) (id : ℕ) {r : ℕ}
        → 0 < length value
        → HashMap.get k st.service_cache ≡ none
        → (update services endpoints k value id st).0 ≡ Result.ok r
        → (i : ℕ) × (ep : EndpointValueV4) × (i < length value)
          × (get_elem? value i ≡ some ep)
          × (connect (update services endpoints k value id st).1
              ≡ (ok 1, record ctx { user_ip4 = to_be e 4 ep.ip; user_port = to_be e 2 ep.port }))
    unfolding connect endpoints_of
    connect-update_new value id some_ep absent done =
        let st' = (update services endpoints k value id st).1 in
        let m = update-IsMirror sl el k value id st mirror in
        let w = update-Inserted services endpoints k value id st absent done in
        try_connect4-one_of e (sl.view st'.service_map) (el.view st'.endpoint_map) random ctx k
          (record { id = id; count = length value }) value family built
          (m.same_services k ∙ w.service) some_ep (omega arith)
          (λ i h. m.same_endpoints (endpoint_key id i) ∙ stored st' w i h)
      where
        stored :
            {r : ℕ} (st' : ServiceEndpoint S E ServiceKeyV4 EndpointValueV4)
            → Inserted k value id r st st'
            → (i : ℕ) → i < length value
            → HashMap.get (endpoint_key id i) st'.endpoint_cache ≡ get_elem? value i
        stored st' w i h =
            let z : 0 + i ≡ i = omega arith in
            rw z at (
              collect_endpoints-full st'.endpoint_cache id (length value) 0 i (ap length w.listed)
                h)
            ∙ ap (λ (l : List EndpointValueV4). get_elem? l i) w.listed

    -- Where the caches are a copy of the maps and the context is that of an IPv4 connection to the
    -- service: after `update` of a known service with endpoints, and with at least as many new ones
    -- as its count, returned `Ok`, the connection goes to the address and the port of one of the
    -- first `v.count` new ones, in network order.
    pub connect-update_known :
        (value : List EndpointValueV4) (id : ℕ) (v : ServiceValue) {r : ℕ}
        → 0 < v.count
        → v.count ≤ length value
        → HashMap.get k st.service_cache ≡ some v
        → (update services endpoints k value id st).0 ≡ Result.ok r
        → (i : ℕ) × (ep : EndpointValueV4) × (i < v.count)
          × (get_elem? value i ≡ some ep)
          × (connect (update services endpoints k value id st).1
              ≡ (ok 1, record ctx { user_ip4 = to_be e 4 ep.ip; user_port = to_be e 2 ep.port }))
    unfolding connect
    connect-update_known value id v some_ep enough present done =
        let st' = (update services endpoints k value id st).1 in
        let m = update-IsMirror sl el k value id st mirror in
        let w = update-Replaced services endpoints k value id st present done in
        try_connect4-one_of e (sl.view st'.service_map) (el.view st'.endpoint_map) random ctx k v
          value family built (m.same_services k ∙ ap (HashMap.get k) w.services ∙ present) some_ep
          enough (λ i h. m.same_endpoints (endpoint_key v.id i) ∙ w.stored i (omega arith))

    -- Where the caches are a copy of the maps and the context is that of an IPv4 connection to the
    -- service: after `update` of a known service with fewer endpoints than its count returned `Ok`,
    -- the program allows the connection with its address unchanged whenever the random position is
    -- one of those that were deleted, for the count in the service map still covers them.
    pub connect-update_shrunk :
        (value : List EndpointValueV4) (id : ℕ) (v : ServiceValue) {r : ℕ}
        → HashMap.get k st.service_cache ≡ some v
        → length value ≤ get_position random v.count
        → get_position random v.count < v.count
        → (update services endpoints k value id st).0 ≡ Result.ok r
        → connect (update services endpoints k value id st).1 ≡ (ok 1, ctx)
    unfolding connect try_connect4 choose
    connect-update_shrunk value id v present gone inside done =
        let st' = (update services endpoints k value id st).1 in
        let m = update-IsMirror sl el k value id st mirror in
        let w = update-Replaced services endpoints k value id st present done in
        let at = get_position random v.count in
        ground (
          arith,
          m.same_services k,
          ap (HashMap.get k) w.services,
          present,
          m.same_endpoints (endpoint_key v.id at),
          w.dropped at gone inside,
        )

    -- Where the caches are a copy of the maps and the context is that of an IPv4 connection to the
    -- service: after `remove` of the service returned `Ok`, the connection is allowed with its
    -- address unchanged.
    pub connect-remove :
        (v : ServiceValue)
        → HashMap.get k st.service_cache ≡ some v
        → (remove services endpoints k st).0 ≡ Result.ok tt
        → connect (remove services endpoints k st).1 ≡ (ok 1, ctx)
    unfolding connect try_connect4
    connect-remove v present done =
        let st' = (remove services endpoints k st).1 in
        let m = remove-IsMirror sl el k st mirror in
        let w = remove-Removed services endpoints k st present done in
        let gone =
          m.same_services k
          ∙ w.services k
          ∙ if_pos (service_key_v4_eq.same k k) refl none (HashMap.get k st.service_cache) in
        ground (arith, gone)
