-- ===== src/Service/State/Ids.antt =====
-- The ids that `ServiceEndpointState` gives out.
use mesh_cni.BpfMap.{BpfMap}
use mesh_cni.Common.{
  ServiceKey, ServiceKeyV4, ServiceKeyV6, ServiceValue, EndpointKey, EndpointValue, EndpointValueV4,
  EndpointValueV6, service_key_v4_eq, service_key_v6_eq,
}
use mesh_cni.Prelude.{
  ℕ, ◌+◌, ◌^◌, ◌<◌, ◌≤◌, ◌≡◌, inl, inr, arith, List, [], ◌∷◌, length, Option-cases,
}
use mesh_cni.Prelude.HashMap
use mesh_cni.Prelude.HashMap.{Key}
use mesh_cni.Prelude.Result.{ok, Result-cases, Proc, pure, then_do-eq-ok, ◌>>◌}
use mesh_cni.Service.Listing.{IsNumbered, listing-update_new, listing-update_known, listing-remove}
use mesh_cni.Service.State.{
  State, new_state, bump, bumped, update_state, remove_state, v4_endpoints, v6_endpoints,
}
use mesh_cni.Service.{ServiceEndpoint, new, update, remove}

IsNumbered-mono :
    {S E SK EV : Type 0} ⦃key : Key SK⦄ {m n : ℕ} {st : ServiceEndpoint S E SK EV}
    → m ≤ n
    → IsNumbered m st
    → IsNumbered n st
IsNumbered-mono h num = record {
  below = λ k v e. omega (arith, h, num.below k v e);
  distinct = num.distinct;
}

-- One family: an `update` that returns `Ok` keeps the ids apart below the bumped counter.
module _ {S E SK EV : Type 0} ⦃key : Key SK⦄ (services : BpfMap S SK ServiceValue SK)
    (endpoints : BpfMap E EndpointKey EV EndpointKey) where
  bump-IsNumbered :
      (k : SK) (value : List EV) (id : ℕ) (st : ServiceEndpoint S E SK EV) {r : ℕ}
      → IsNumbered id st
      → id + 1 < 2 ^ 16
      → (update services endpoints k value id st).0 ≡ ok r
      → IsNumbered (bump id r) (update services endpoints k value id st).1
        × (id ≤ bump id r)
        × (bump id r ≤ id + 1)
  unfolding bump
  bump-IsNumbered k value id st {r} num room h =
      elim (Option-cases (HashMap.get k st.service_cache)) [
        | inl absent ↦
            let (_, n, e) = listing-update_new services endpoints id st num k k value absent h in
            let b : bump id r ≡ id + 1 = ground arith in (rw b n, omega arith, omega arith)
        | inr (v, present) ↦
            let (_, n, e) =
              listing-update_known services endpoints id st num k k value id present h in
            let b : bump id r ≡ id = ground (arith, num.below k v present) in
            (rw b n, omega arith, omega arith)
      ]

  remove-IsNumbered :
      (k : SK) (id : ℕ) (st : ServiceEndpoint S E SK EV)
      → IsNumbered id st
      → (remove services endpoints k st).0 ≡ ok tt
      → IsNumbered id (remove services endpoints k st).1
  unfolding remove
  remove-IsNumbered k id st num h = elim (Option-cases (HashMap.get k st.service_cache)) [
    | inl absent ↦ rw (absent, remove) num
    | inr (v, present) ↦ (listing-remove services endpoints id st num k k present h).1
  ]

pub data Call : Type 0 where
  upsert : ServiceKey → List EndpointValue → Call
  delete : ServiceKey → Call

module _ {S4 E4 S6 E6 : Type 0} (services4 : BpfMap S4 ServiceKeyV4 ServiceValue ServiceKeyV4)
    (endpoints4 : BpfMap E4 EndpointKey EndpointValueV4 EndpointKey)
    (services6 : BpfMap S6 ServiceKeyV6 ServiceValue ServiceKeyV6)
    (endpoints6 : BpfMap E6 EndpointKey EndpointValueV6 EndpointKey) where
  -- Within each family no two services share an id, and the counter is above all of them.
  pub record HasIds (s : State S4 E4 S6 E6) : Type 0 where
    pub v4 : IsNumbered s.id s.service_endpoint_v4
    pub v6 : IsNumbered s.id s.service_endpoint_v6

  unfoldable pub call : Call → Proc (State S4 E4 S6 E6) (Unit {0})
  call (Call.upsert k value) = update_state services4 endpoints4 services6 endpoints6 k value
  call (Call.delete k) = remove_state services4 endpoints4 services6 endpoints6 k

  -- Calls in the order in which they take the lock; the first error ends the run.
  unfoldable pub run : List Call → Proc (State S4 E4 S6 E6) (Unit {0})
  run [] = pure tt
  run (c ∷ cs) = do call c; run cs

  pub call-HasIds :
      (c : Call) (s : State S4 E4 S6 E6)
      → HasIds s
      → s.id + 1 < 2 ^ 16
      → (call c s).0 ≡ ok tt
      → HasIds (call c s).1 × (s.id ≤ (call c s).1.id) × ((call c s).1.id ≤ s.id + 1)
  unfolding call update_state remove_state bumped
  call-HasIds (Call.upsert (ServiceKey.v4 k) value) s h room done =
      elim (Result-cases
        (update services4 endpoints4 k (v4_endpoints value) s.id s.service_endpoint_v4).0) [
          | inr (msg, e) ↦ absurd (let q = rw (e, bumped) at done in cc)
          | inl (r, e) ↦
              let (n, lo, hi) =
                bump-IsNumbered services4 endpoints4 k (v4_endpoints value) s.id
                  s.service_endpoint_v4 h.v4 room e in
              rw (e, bumped) (record { v4 = n; v6 = IsNumbered-mono lo h.v6 }, lo, hi)
        ]
  call-HasIds (Call.upsert (ServiceKey.v6 k) value) s h room done =
      elim (Result-cases
        (update services6 endpoints6 k (v6_endpoints value) s.id s.service_endpoint_v6).0) [
          | inr (msg, e) ↦ absurd (let q = rw (e, bumped) at done in cc)
          | inl (r, e) ↦
              let (n, lo, hi) =
                bump-IsNumbered services6 endpoints6 k (v6_endpoints value) s.id
                  s.service_endpoint_v6 h.v6 room e in
              rw (e, bumped) (record { v6 = n; v4 = IsNumbered-mono lo h.v4 }, lo, hi)
        ]
  call-HasIds (Call.delete (ServiceKey.v4 k)) s h room done = (
    record {
      v4 = remove-IsNumbered services4 endpoints4 k s.id s.service_endpoint_v4 h.v4 done;
      v6 = h.v6;
    },
    omega arith,
    omega arith,
  )
  call-HasIds (Call.delete (ServiceKey.v6 k)) s h room done = (
    record {
      v6 = remove-IsNumbered services6 endpoints6 k s.id s.service_endpoint_v6 h.v6 done;
      v4 = h.v4;
    },
    omega arith,
    omega arith,
  )

  run-HasIds_from :
      (cs : List Call) (s : State S4 E4 S6 E6)
      → HasIds s
      → s.id + length cs < 2 ^ 16
      → (run cs s).0 ≡ ok tt
      → HasIds (run cs s).1
  unfolding run
  run-HasIds_from [] s h room done = h
  run-HasIds_from (c ∷ cs) s h room done =
      let (_, e, rest, same) = then_do-eq-ok (call c s) (λ _. run cs) done in
      let (h', _, hi) = call-HasIds c s h (omega arith) e in
      rw same (run-HasIds_from cs (call c s).1 h' (omega arith) rest)

  pub fresh-HasIds :
      (s4 : S4) (e4 : E4) (s6 : S6) (e6 : E6) → HasIds (new_state (new s4 e4) (new s6 e6))
  unfolding new_state new HashMap.get
  fresh-HasIds s4 e4 s6 e6 = record {
    v4 = record {
      below = λ k v e. absurd (ground arith);
      distinct = λ j k v w e f same. absurd (ground arith);
    };
    v6 = record {
      below = λ k v e. absurd (ground arith);
      distinct = λ j k v w e f same. absurd (ground arith);
    };
  }

  -- Any run of updates and removals on a fresh state, over any maps, in which every call
  -- returns `Ok`, keeps the ids apart, if it has fewer than 65408 calls.
  pub run-HasIds :
      (s4 : S4) (e4 : E4) (s6 : S6) (e6 : E6) (cs : List Call)
      → length cs < 65408
      → (run cs (new_state (new s4 e4) (new s6 e6))).0 ≡ ok tt
      → HasIds (run cs (new_state (new s4 e4) (new s6 e6))).1
  unfolding new_state
  run-HasIds s4 e4 s6 e6 cs room done =
      run-HasIds_from cs (new_state (new s4 e4) (new s6 e6)) (fresh-HasIds s4 e4 s6 e6)
        (omega arith) done
