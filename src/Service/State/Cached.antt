-- ===== src/Service/State/Cached.antt =====
-- `state_from_cache`, the list that the agent serves, against the services' own lists.
use mesh_cni.BpfMap.{BpfMap}
use mesh_cni.Common.{
  ServiceKey, ServiceKeyV4, ServiceKeyV6, ServiceValue, EndpointKey, EndpointValue, EndpointValueV4,
  EndpointValueV6, service_key_v4_eq, service_key_v6_eq, service_key_eq,
}
use mesh_cni.Prelude.{
  List, [], ◌∷◌, map, Option, some, none, ◌≡◌, ◌≢◌, refl, sym, ap, ◌∙◌, if_pos, if_neg, inl, inr,
  Option-cases,
}
use mathlib.Core.Option
use mesh_cni.Prelude.HashMap
use mesh_cni.Prelude.HashMap.{HashMap, Key}
use mesh_cni.Prelude.Result.{Keeps, bind-Keeps}
use mesh_cni.Service.Distinct.{IsDistinct, update-HasDistinct, remove-HasDistinct}
use mesh_cni.Service.Listing.{listing}
use mesh_cni.Service.State.Ids.{Call, call, run}
use mesh_cni.Service.State.{
  State, new_state, list_services, state_from_cache, update_state, remove_state, v4_endpoints,
  v6_endpoints,
}
use mesh_cni.Service.{ServiceEndpoint, new, endpoints_of}

abbrev or_else : {A : Type 0} → Option A → Option A → Option A
or_else none o = o
or_else (some a) o = some a

module _ {SK EV : Type 0} ⦃key : Key SK⦄ (to_key : SK → ServiceKey) (to_value : EV → EndpointValue)
    (cache : HashMap EndpointKey EV) where
  abbrev values : ServiceValue → List EndpointValue
  values v = map to_value (endpoints_of cache v)

  -- A key of the family has the endpoints of its service, or what the table had.
  get-list_services :
      ((j k : SK) → to_key j ≡ to_key k → j ≡ k)
      → (k : SK) (l : List (SK × ServiceValue)) (out : HashMap ServiceKey (List EndpointValue))
      → IsDistinct l
      → HashMap.get (to_key k) (list_services to_key to_value cache l out)
        ≡ or_else (Option.map values (HashMap.get k l)) (HashMap.get (to_key k) out)
  unfolding list_services HashMap.get
  get-list_services inj k [] out h = refl
  get-list_services inj k ((i, v) ∷ l) out (fresh, h) = elim (key.same k i) [
    | yes p ↦
        let absent : HashMap.get k l ≡ none = ap (λ x. HashMap.get x l) p ∙ fresh in
        get-list_services inj k l (HashMap.insert (to_key i) (values v) out) h
        ∙ ap
            (λ o.
              or_else (Option.map values o)
                (HashMap.get (to_key k) (HashMap.insert (to_key i) (values v) out)))
            absent
        ∙ HashMap.get-insert (to_key i) (to_key k) (values v) out
        ∙ if_pos (service_key_eq.same (to_key k) (to_key i)) (ap to_key p) (some (values v))
            (HashMap.get (to_key k) out)
        ∙ sym (
            ap (λ o. or_else (Option.map values o) (HashMap.get (to_key k) out))
              (if_pos (key.same k i) p (some v) (HashMap.get k l)))
    | no p ↦
        get-list_services inj k l (HashMap.insert (to_key i) (values v) out) h
        ∙ ap (or_else (Option.map values (HashMap.get k l))) (
            HashMap.get-insert (to_key i) (to_key k) (values v) out
            ∙ if_neg (service_key_eq.same (to_key k) (to_key i)) (λ q. p (inj k i q))
                (some (values v)) (HashMap.get (to_key k) out))
        ∙ sym (
            ap (λ o. or_else (Option.map values o) (HashMap.get (to_key k) out))
              (if_neg (key.same k i) p (some v) (HashMap.get k l)))
  ]

  -- The other family's keys are left alone.
  get-list_services_other :
      (j : ServiceKey)
      → ((k : SK) → j ≢ to_key k)
      → (l : List (SK × ServiceValue)) (out : HashMap ServiceKey (List EndpointValue))
      → HashMap.get j (list_services to_key to_value cache l out) ≡ HashMap.get j out
  unfolding list_services
  get-list_services_other j ne [] out = refl
  get-list_services_other j ne ((i, v) ∷ l) out =
      get-list_services_other j ne l (HashMap.insert (to_key i) (values v) out)
      ∙ HashMap.get-insert (to_key i) j (values v) out
      ∙ if_neg (service_key_eq.same j (to_key i)) (ne i) (some (values v)) (HashMap.get j out)

  or_else-listing :
      {S E : Type 0} (st : ServiceEndpoint S E SK EV) (k : SK)
      → st.endpoint_cache ≡ cache
      → or_else (Option.map values (HashMap.get k st.service_cache)) none
        ≡ Option.map (map to_value) (listing st k)
  unfolding listing
  or_else-listing st k e = elim (Option-cases (HashMap.get k st.service_cache)) [
    | inl a ↦ rw a
    | inr (v, a) ↦ rw (a, e)
  ]

module _ {S4 E4 S6 E6 : Type 0} (services4 : BpfMap S4 ServiceKeyV4 ServiceValue ServiceKeyV4)
    (endpoints4 : BpfMap E4 EndpointKey EndpointValueV4 EndpointKey)
    (services6 : BpfMap S6 ServiceKeyV6 ServiceValue ServiceKeyV6)
    (endpoints6 : BpfMap E6 EndpointKey EndpointValueV6 EndpointKey) where
  abbrev BothDistinct : State S4 E4 S6 E6 → Type 0
  BothDistinct s =
      IsDistinct s.service_endpoint_v4.service_cache
      × IsDistinct s.service_endpoint_v6.service_cache

  call-BothDistinct :
      (c : Call) → Keeps BothDistinct (call services4 endpoints4 services6 endpoints6 c)
  unfolding call update_state remove_state
  call-BothDistinct (Call.upsert (ServiceKey.v4 k) value) s (a, b) = (
    update-HasDistinct services4 endpoints4 k (v4_endpoints value) s.id s.service_endpoint_v4 a,
    b,
  )
  call-BothDistinct (Call.upsert (ServiceKey.v6 k) value) s (a, b) = (
    a,
    update-HasDistinct services6 endpoints6 k (v6_endpoints value) s.id s.service_endpoint_v6 b,
  )
  call-BothDistinct (Call.delete (ServiceKey.v4 k)) s (a, b) =
      (remove-HasDistinct services4 endpoints4 k s.service_endpoint_v4 a, b)
  call-BothDistinct (Call.delete (ServiceKey.v6 k)) s (a, b) =
      (a, remove-HasDistinct services6 endpoints6 k s.service_endpoint_v6 b)

  run-BothDistinct :
      (cs : List Call) → Keeps BothDistinct (run services4 endpoints4 services6 endpoints6 cs)
  unfolding run
  run-BothDistinct [] = λ s h. h
  run-BothDistinct (c ∷ cs) =
      bind-Keeps BothDistinct (call services4 endpoints4 services6 endpoints6 c) _
        (call-BothDistinct c) (λ _. run-BothDistinct cs)

  -- After any run of updates and removals on a fresh state, which ends at the first call that
  -- fails and keeps what that call did, the table of `state_from_cache` has for each key of
  -- either family exactly the list of its service.
  pub get-state_from_cache :
      (s4 : S4) (e4 : E4) (s6 : S6) (e6 : E6) (cs : List Call) (k : ServiceKeyV4) (j : ServiceKeyV6)
      → (HashMap.get (ServiceKey.v4 k) (
            state_from_cache services4 endpoints4 services6 endpoints6
              (run services4 endpoints4 services6 endpoints6 cs
                (new_state (new s4 e4) (new s6 e6))).1)
          ≡ Option.map (map EndpointValue.v4) (
              listing
                (run services4 endpoints4 services6 endpoints6 cs
                  (new_state (new s4 e4) (new s6 e6))).1.service_endpoint_v4
                k))
        × (HashMap.get (ServiceKey.v6 j) (
              state_from_cache services4 endpoints4 services6 endpoints6
                (run services4 endpoints4 services6 endpoints6 cs
                  (new_state (new s4 e4) (new s6 e6))).1)
            ≡ Option.map (map EndpointValue.v6) (
                listing
                  (run services4 endpoints4 services6 endpoints6 cs
                    (new_state (new s4 e4) (new s6 e6))).1.service_endpoint_v6
                  j))
  unfolding state_from_cache new_state new HashMap.get
  get-state_from_cache s4 e4 s6 e6 cs k j =
      let (a, b) = run-BothDistinct cs (new_state (new s4 e4) (new s6 e6)) (tt, tt) in
      go (run services4 endpoints4 services6 endpoints6 cs (new_state (new s4 e4) (new s6 e6))).1 a
        b
    where
      go :
          (s : State S4 E4 S6 E6)
          → IsDistinct s.service_endpoint_v4.service_cache
          → IsDistinct s.service_endpoint_v6.service_cache
          → (HashMap.get
                (ServiceKey.v4 k)
                (state_from_cache services4 endpoints4 services6 endpoints6 s)
              ≡ Option.map (map EndpointValue.v4) (listing s.service_endpoint_v4 k))
            × (HashMap.get
                  (ServiceKey.v6 j)
                  (state_from_cache services4 endpoints4 services6 endpoints6 s)
                ≡ Option.map (map EndpointValue.v6) (listing s.service_endpoint_v6 j))
      go s a b =
          let v4 = s.service_endpoint_v4 in
          let v6 = s.service_endpoint_v6 in
          let out =
            list_services ServiceKey.v4 EndpointValue.v4 v4.endpoint_cache v4.service_cache [] in
          (
            get-list_services_other ServiceKey.v6 EndpointValue.v6 v6.endpoint_cache
                  (ServiceKey.v4 k) (λ i e. cc) v6.service_cache out
                ∙ get-list_services ServiceKey.v4 EndpointValue.v4 v4.endpoint_cache (λ x y e. cc) k
                    v4.service_cache [] a
                ∙ or_else-listing ServiceKey.v4 EndpointValue.v4 v4.endpoint_cache v4 k refl,
            get-list_services ServiceKey.v6 EndpointValue.v6 v6.endpoint_cache (λ x y e. cc) j
                  v6.service_cache out b
                ∙ ap
                    (or_else (
                      Option.map (values ServiceKey.v6 EndpointValue.v6 v6.endpoint_cache)
                        (HashMap.get j v6.service_cache)))
                    (get-list_services_other ServiceKey.v4 EndpointValue.v4 v4.endpoint_cache
                      (ServiceKey.v6 j) (λ i e. cc) v4.service_cache [])
                ∙ or_else-listing ServiceKey.v6 EndpointValue.v6 v6.endpoint_cache v6 j refl,
          )
