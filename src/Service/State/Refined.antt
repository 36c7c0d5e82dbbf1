-- ===== src/Service/State/Refined.antt =====
-- `ServiceEndpointState` against one table of services, whatever the ids, the caches and the maps.
use mesh_cni.BpfMap.{BpfMap}
use mesh_cni.Common.{
  ServiceKey, ServiceKeyV4, ServiceKeyV6, ServiceValue, EndpointKey, EndpointValue, EndpointValueV4,
  EndpointValueV6, service_key_v4_eq, service_key_v6_eq, service_key_eq,
}
use mesh_cni.Prelude.{
  ℕ, zero, suc, ◌+◌, ◌<◌, ◌^◌, List, [], ◌∷◌, map, length, take, Option, some, none, ◌≡◌, refl, sym,
  ap, ◌∙◌, ite, if_neg, arith, inl, inr,
}
use mathlib.Core.Option
use mesh_cni.Prelude.HashMap
use mesh_cni.Prelude.HashMap.{HashMap, Key}
use mesh_cni.Prelude.Result.{Result-cases, ok, then_do-eq-ok}
use mesh_cni.Service.State.Cached.{get-state_from_cache}
use mesh_cni.Service.State.Ids.{Call, call, run, HasIds, call-HasIds, fresh-HasIds}
use mesh_cni.Service.State.{
  State, new_state, state_from_cache, update_state, remove_state, bumped, v4_endpoints,
  v6_endpoints,
}
use mesh_cni.Service.Table.{put, table, table-listing, table-update, table-remove}
use mesh_cni.Service.{new, update}

-- The endpoints of a list that are of the key's family.
abbrev pub of_family : ServiceKey → List EndpointValue → List EndpointValue
of_family k [] = []
of_family (ServiceKey.v4 k) (EndpointValue.v4 e ∷ es) =
    EndpointValue.v4 e ∷ of_family (ServiceKey.v4 k) es
of_family (ServiceKey.v4 k) (EndpointValue.v6 e ∷ es) = of_family (ServiceKey.v4 k) es
of_family (ServiceKey.v6 k) (EndpointValue.v4 e ∷ es) = of_family (ServiceKey.v6 k) es
of_family (ServiceKey.v6 k) (EndpointValue.v6 e ∷ es) =
    EndpointValue.v6 e ∷ of_family (ServiceKey.v6 k) es

-- The services, each with the count of its first endpoints and the endpoints that it has now.
abbrev pub Services : Type 0
Services = ServiceKey → Option (ℕ × List EndpointValue)

-- What a call does to the services: an update of an unknown key records all endpoints of its family
-- and their number, one of a known key the first of them up to that number; a removal takes the
-- key away. No other key is touched.
abbrev pub specified : Call → Services → Services
specified (Call.upsert k value) services j =
    ite (service_key_eq.same j k) (some (put (services k) (of_family k value))) (services j)
specified (Call.delete k) services j = ite (service_key_eq.same j k) none (services j)

abbrev pub specified_all : List Call → Services → Services
specified_all [] services = services
specified_all (c ∷ cs) services = specified_all cs (specified c services)

abbrev pub no_services : Services
no_services k = none

v4_endpoints-of_family :
    (k : ServiceKeyV4) (value : List EndpointValue)
    → map EndpointValue.v4 (v4_endpoints value) ≡ of_family (ServiceKey.v4 k) value
unfolding v4_endpoints
v4_endpoints-of_family k [] = refl
v4_endpoints-of_family k (EndpointValue.v4 e ∷ es) =
    ap (◌∷◌ (EndpointValue.v4 e)) (v4_endpoints-of_family k es)
v4_endpoints-of_family k (EndpointValue.v6 e ∷ es) = v4_endpoints-of_family k es

v6_endpoints-of_family :
    (k : ServiceKeyV6) (value : List EndpointValue)
    → map EndpointValue.v6 (v6_endpoints value) ≡ of_family (ServiceKey.v6 k) value
unfolding v6_endpoints
v6_endpoints-of_family k [] = refl
v6_endpoints-of_family k (EndpointValue.v4 e ∷ es) = v6_endpoints-of_family k es
v6_endpoints-of_family k (EndpointValue.v6 e ∷ es) =
    ap (◌∷◌ (EndpointValue.v6 e)) (v6_endpoints-of_family k es)

module _ {A B : Type 0} (f : A → B) where
  abbrev on_list : ℕ × List A → ℕ × List B
  on_list (n, l) = (n, map f l)

  length-map : (l : List A) → length (map f l) ≡ length l
  length-map [] = refl
  length-map (a ∷ l) = ap suc (length-map l)

  map-take : (n : ℕ) (l : List A) → map f (take n l) ≡ take n (map f l)
  map-take zero l = refl
  map-take (suc n) [] = refl
  map-take (suc n) (a ∷ l) = ap (◌∷◌ (f a)) (map-take n l)

  map-put :
      (o : Option (ℕ × List A)) (l : List A)
      → on_list (put o l) ≡ put (Option.map on_list o) (map f l)
  map-put none l = ap (λ n. (n, map f l)) (sym (length-map l))
  map-put (some (n, _)) l = ap (λ x. (n, x)) (map-take n l)

  map-ite :
      {P Q : Type 0} (p : Dec P) (q : Dec Q) (x y : Option (ℕ × List A))
      → (P → Q)
      → (Q → P)
      → Option.map on_list (ite p x y) ≡ ite q (Option.map on_list x) (Option.map on_list y)
  map-ite (yes p) (yes q) x y to from = refl
  map-ite (yes p) (no q) x y to from = absurd (q (to p))
  map-ite (no p) (yes q) x y to from = absurd (p (from q))
  map-ite (no p) (no q) x y to from = refl

module _ {S4 E4 S6 E6 : Type 0} (services4 : BpfMap S4 ServiceKeyV4 ServiceValue ServiceKeyV4)
    (endpoints4 : BpfMap E4 EndpointKey EndpointValueV4 EndpointKey)
    (services6 : BpfMap S6 ServiceKeyV6 ServiceValue ServiceKeyV6)
    (endpoints6 : BpfMap E6 EndpointKey EndpointValueV6 EndpointKey) where
  -- The services that a state stands for.
  abbrev pub services_of : State S4 E4 S6 E6 → Services
  services_of s (ServiceKey.v4 k) =
      Option.map (on_list EndpointValue.v4) (table s.service_endpoint_v4 k)
  services_of s (ServiceKey.v6 k) =
      Option.map (on_list EndpointValue.v6) (table s.service_endpoint_v6 k)

  services_of-call :
      (c : Call) (s : State S4 E4 S6 E6) (j : ServiceKey)
      → HasIds services4 endpoints4 services6 endpoints6 s
      → (call services4 endpoints4 services6 endpoints6 c s).0 ≡ ok tt
      → services_of (call services4 endpoints4 services6 endpoints6 c s).1 j
        ≡ specified c (services_of s) j
  unfolding call update_state remove_state bumped
  services_of-call (Call.upsert (ServiceKey.v4 k) value) s (ServiceKey.v4 j) h done =
      let st = s.service_endpoint_v4 in
      elim (Result-cases (update services4 endpoints4 k (v4_endpoints value) s.id st).0) [
        | inr (msg, e) ↦ absurd (let q = rw (e, bumped) at done in cc)
        | inl (r, e) ↦
            ap (Option.map (on_list EndpointValue.v4))
              (table-update services4 endpoints4 s.id st h.v4 k j (v4_endpoints value) e)
            ∙ map-ite EndpointValue.v4 (service_key_v4_eq.same j k)
                (service_key_eq.same (ServiceKey.v4 j) (ServiceKey.v4 k))
                (some (put (table st k) (v4_endpoints value))) (table st j) (ap ServiceKey.v4)
                (λ q. cc)
            ∙ ap
                (λ x.
                  ite (service_key_eq.same (ServiceKey.v4 j) (ServiceKey.v4 k)) (some x)
                    (services_of s (ServiceKey.v4 j)))
                (map-put EndpointValue.v4 (table st k) (v4_endpoints value)
                  ∙ ap (put (services_of s (ServiceKey.v4 k))) (v4_endpoints-of_family k value))
      ]
  services_of-call (Call.upsert (ServiceKey.v6 k) value) s (ServiceKey.v6 j) h done =
      let st = s.service_endpoint_v6 in
      elim (Result-cases (update services6 endpoints6 k (v6_endpoints value) s.id st).0) [
        | inr (msg, e) ↦ absurd (let q = rw (e, bumped) at done in cc)
        | inl (r, e) ↦
            ap (Option.map (on_list EndpointValue.v6))
              (table-update services6 endpoints6 s.id st h.v6 k j (v6_endpoints value) e)
            ∙ map-ite EndpointValue.v6 (service_key_v6_eq.same j k)
                (service_key_eq.same (ServiceKey.v6 j) (ServiceKey.v6 k))
                (some (put (table st k) (v6_endpoints value))) (table st j) (ap ServiceKey.v6)
                (λ q. cc)
            ∙ ap
                (λ x.
                  ite (service_key_eq.same (ServiceKey.v6 j) (ServiceKey.v6 k)) (some x)
                    (services_of s (ServiceKey.v6 j)))
                (map-put EndpointValue.v6 (table st k) (v6_endpoints value)
                  ∙ ap (put (services_of s (ServiceKey.v6 k))) (v6_endpoints-of_family k value))
      ]
  services_of-call (Call.upsert (ServiceKey.v4 k) value) s (ServiceKey.v6 j) h done =
      sym (if_neg (service_key_eq.same (ServiceKey.v6 j) (ServiceKey.v4 k)) (λ e. cc) _ _)
  services_of-call (Call.upsert (ServiceKey.v6 k) value) s (ServiceKey.v4 j) h done =
      sym (if_neg (service_key_eq.same (ServiceKey.v4 j) (ServiceKey.v6 k)) (λ e. cc) _ _)
  services_of-call (Call.delete (ServiceKey.v4 k)) s (ServiceKey.v4 j) h done =
      let st = s.service_endpoint_v4 in
      ap (Option.map (on_list EndpointValue.v4))
        (table-remove services4 endpoints4 s.id st h.v4 k j done)
      ∙ map-ite EndpointValue.v4 (service_key_v4_eq.same j k)
          (service_key_eq.same (ServiceKey.v4 j) (ServiceKey.v4 k)) none (table st j)
          (ap ServiceKey.v4) (λ q. cc)
  services_of-call (Call.delete (ServiceKey.v6 k)) s (ServiceKey.v6 j) h done =
      let st = s.service_endpoint_v6 in
      ap (Option.map (on_list EndpointValue.v6))
        (table-remove services6 endpoints6 s.id st h.v6 k j done)
      ∙ map-ite EndpointValue.v6 (service_key_v6_eq.same j k)
          (service_key_eq.same (ServiceKey.v6 j) (ServiceKey.v6 k)) none (table st j)
          (ap ServiceKey.v6) (λ q. cc)
  services_of-call (Call.delete (ServiceKey.v4 k)) s (ServiceKey.v6 j) h done =
      sym (if_neg (service_key_eq.same (ServiceKey.v6 j) (ServiceKey.v4 k)) (λ e. cc) _ _)
  services_of-call (Call.delete (ServiceKey.v6 k)) s (ServiceKey.v4 j) h done =
      sym (if_neg (service_key_eq.same (ServiceKey.v4 j) (ServiceKey.v6 k)) (λ e. cc) _ _)

  services_of-run :
      (cs : List Call) (s : State S4 E4 S6 E6) (j : ServiceKey)
      → HasIds services4 endpoints4 services6 endpoints6 s
      → s.id + length cs < 2 ^ 16
      → (run services4 endpoints4 services6 endpoints6 cs s).0 ≡ ok tt
      → services_of (run services4 endpoints4 services6 endpoints6 cs s).1 j
        ≡ specified_all cs (services_of s) j
  unfolding run
  services_of-run [] s j h room done = refl
  services_of-run (c ∷ cs) s j h room done =
      let (_, e, rest, same) =
        then_do-eq-ok (call services4 endpoints4 services6 endpoints6 c s)
          (λ _. run services4 endpoints4 services6 endpoints6 cs) done in
      let (h', _, hi) =
        call-HasIds services4 endpoints4 services6 endpoints6 c s h (omega arith) e in
      let t = (call services4 endpoints4 services6 endpoints6 c s).1 in
      let step : services_of t ≡ specified c (services_of s) =
        λ i x. services_of-call c s x h e i in
      rw same (services_of-run cs t j h' (omega arith) rest)
      ∙ ap (λ services. specified_all cs services j) step

  services_of-new_state :
      (s4 : S4) (e4 : E4) (s6 : S6) (e6 : E6) (k : ServiceKey)
      → services_of (new_state (new s4 e4) (new s6 e6)) k ≡ no_services k
  unfolding new_state new HashMap.get
  services_of-new_state s4 e4 s6 e6 (ServiceKey.v4 k) = refl
  services_of-new_state s4 e4 s6 e6 (ServiceKey.v6 k) = refl

  -- After any run of fewer than 65408 updates and removals on a fresh state, all of which return
  -- `Ok`, the table of `state_from_cache` has for each key of either family the endpoints that the
  -- calls say: those of its family in the last update since its last removal, up to the number that
  -- the first update since then gave; and it has no other key.
  pub state_from_cache-specified_all :
      (s4 : S4) (e4 : E4) (s6 : S6) (e6 : E6) (cs : List Call) (k : ServiceKey)
      → length cs < 65408
      → (run services4 endpoints4 services6 endpoints6 cs (new_state (new s4 e4) (new s6 e6))).0
        ≡ ok tt
      → HashMap.get k (
          state_from_cache services4 endpoints4 services6 endpoints6
            (run services4 endpoints4 services6 endpoints6 cs
              (new_state (new s4 e4) (new s6 e6))).1)
        ≡ Option.map (λ r. r.1) (specified_all cs no_services k)
  unfolding new_state
  state_from_cache-specified_all s4 e4 s6 e6 cs k room done =
      listed k
      ∙ ap (Option.map (λ r. r.1)) (
          services_of-run cs start k
            (fresh-HasIds services4 endpoints4 services6 endpoints6 s4 e4 s6 e6) (omega arith) done)
      ∙ ap (λ services. Option.map (λ r. r.1) (specified_all cs services k))
          (λ i x. services_of-new_state s4 e4 s6 e6 x i)
    where
      start : State S4 E4 S6 E6
      start = new_state (new s4 e4) (new s6 e6)

      after : State S4 E4 S6 E6
      after = (run services4 endpoints4 services6 endpoints6 cs start).1

      lists :
          {A : Type 0} (f : A → EndpointValue) (o : Option (ℕ × List A))
          → Option.map (map f) (Option.map (λ r. r.1) o)
            ≡ Option.map (λ r. r.1) (Option.map (on_list f) o)
      lists f none = refl
      lists f (some r) = refl

      listed :
          (k : ServiceKey)
          → HashMap.get k (state_from_cache services4 endpoints4 services6 endpoints6 after)
            ≡ Option.map (λ r. r.1) (services_of after k)
      listed (ServiceKey.v4 k) =
          (get-state_from_cache services4 endpoints4 services6 endpoints6 s4 e4 s6 e6 cs k
            (record { ip = 0; port = 0; protocol = 0; pad = 0 })).0
          ∙ ap (Option.map (map EndpointValue.v4)) (sym (table-listing after.service_endpoint_v4 k))
          ∙ lists EndpointValue.v4 (table after.service_endpoint_v4 k)
      listed (ServiceKey.v6 k) =
          (get-state_from_cache services4 endpoints4 services6 endpoints6 s4 e4 s6 e6 cs
            (record { ip = 0; port = 0; protocol = 0; pad = 0 }) k).1
          ∙ ap (Option.map (map EndpointValue.v6)) (sym (table-listing after.service_endpoint_v6 k))
          ∙ lists EndpointValue.v6 (table after.service_endpoint_v6 k)
