-- ===== src/Replies/Services.antt =====
-- The reply of `list_services` against the services' own lists.
use mathlib.Core.Option
use mesh_cni.BpfMap.{BpfMap}
use mesh_cni.Common.{
  ServiceKey, ServiceKeyV4, ServiceKeyV6, ServiceValue, EndpointKey, EndpointValue, EndpointValueV4,
  EndpointValueV6, service_key_v4_eq, service_key_v6_eq, service_key_eq, endpoint_key_eq,
}
use mesh_cni.Prelude.{
  ℕ, ◌<◌, length, Option-cases, none, List, [], ◌∷◌, map, Option, some, false, ◌≡◌, ◌↔◌, refl, sym,
  ap, ◌∙◌, if_pos, if_neg, inl, inr, IsIn,
}
use mesh_cni.Prelude.HashMap
use mesh_cni.Prelude.HashMap.{HashMap, Key}
use mesh_cni.Prelude.Result.{Result, ok, err, and_then}
use mesh_cni.Replies.{
  Display, ServiceWithEndpoints, service_with_endpoints, list_entries, endpoint_v4, endpoint_v6,
  with_protocol,
}
use mesh_cni.Service.State.Refined.{specified_all, no_services, state_from_cache-specified_all}
use mesh_cni.Replies
use mesh_cni.Service.Distinct.{IsDistinct, insert-IsDistinct}
use mesh_cni.Service.Listing.{listing}
use mesh_cni.Service.State.Cached.{get-state_from_cache}
use mesh_cni.Service.State.Ids.{Call, run}
use mesh_cni.Service.State.{State, new_state, list_services, state_from_cache}
use mesh_cni.Service.{new, endpoints_of}
use mesh_cni.Replies.Entries.{IsOfFamily, IsEntry, service_with_endpoints-IsEntry}

module _ {K V : Type 0} ⦃key : Key K⦄ where
  get-IsIn :
      (k : K) (v : V) (m : HashMap K V) → IsDistinct m → IsIn (k, v) m → HashMap.get k m ≡ some v
  unfolding HashMap.get
  get-IsIn k v [] h i = absurd i
  get-IsIn k v ((j, w) ∷ m) (fresh, h) (inl e) =
      let p : k ≡ j = cc in
      let q : w ≡ v = cc in if_pos (key.same k j) p (some w) (HashMap.get k m) ∙ ap some q
  get-IsIn k v ((j, w) ∷ m) (fresh, h) (inr i) = elim (key.same k j) [
    | yes p ↦
        let one = get-IsIn k v m h i in let two = ap (λ x. HashMap.get x m) p ∙ fresh in absurd (cc)
    | no p ↦ if_neg (key.same k j) p (some w) (HashMap.get k m) ∙ get-IsIn k v m h i
  ]

  IsIn-get : (k : K) (v : V) (m : HashMap K V) → HashMap.get k m ≡ some v → IsIn (k, v) m
  unfolding HashMap.get
  IsIn-get k v [] e = cc
  IsIn-get k v ((j, w) ∷ m) e = elim (key.same k j) [
    | yes p ↦
        let q : some w ≡ some v = sym (if_pos (key.same k j) p (some w) (HashMap.get k m)) ∙ e in
        inl (cc)
    | no p ↦ inr (IsIn-get k v m (sym (if_neg (key.same k j) p (some w) (HashMap.get k m)) ∙ e))
  ]

module _ (display : Display) where
  abbrev FromTable : List (ServiceKey × List EndpointValue) → ServiceWithEndpoints → Type 0
  FromTable table entry =
      (k : ServiceKey) × (v : List EndpointValue) × IsIn (k, v) table
      × (service_with_endpoints display k v ≡ ok entry)

  list_entries_iff :
      (table : List (ServiceKey × List EndpointValue)) (out : List ServiceWithEndpoints)
      → list_entries display table ≡ ok out
      → (entry : ServiceWithEndpoints) → IsIn entry out ↔ FromTable table entry
  unfolding list_entries
  list_entries_iff [] out h =
      let e : out ≡ [] = cc in λ entry. rw e (λ i. absurd i, λ f. absurd (f.2))
  list_entries_iff ((k, v) ∷ rest) out h =
      on_first (list_entries_iff rest) (service_with_endpoints display k v) refl h
    where
      on_rest :
          (s : ServiceWithEndpoints)
          → service_with_endpoints display k v ≡ ok s
          → (r : Result (List ServiceWithEndpoints))
          → ((o : List ServiceWithEndpoints)
              → r ≡ ok o
              → (entry : ServiceWithEndpoints) → IsIn entry o ↔ FromTable rest entry)
          → and_then r (λ services. ok (s ∷ services)) ≡ ok out
          → (entry : ServiceWithEndpoints) → IsIn entry out ↔ FromTable ((k, v) ∷ rest) entry
      on_rest s q (err x) ih g entry = cc
      on_rest s q (ok o) ih g entry =
          let e : out ≡ s ∷ o = cc in
          rw e (
            λ i. elim i [
              | inl same ↦ (k, v, inl refl, q ∙ ap ok (sym same))
              | inr j ↦ let (k', v', m, f) = (ih o refl entry).0 j in (k', v', inr m, f)
            ],
            λ f. elim (f.2) [
              | inl same ↦
                  let p : k ≡ f.0 = cc in
                  let p' : v ≡ f.1 = cc in
                  let r : ok s ≡ ok entry =
                    sym q
                    ∙ ap (λ x. service_with_endpoints display x v) p
                    ∙ ap (service_with_endpoints display f.0) p'
                    ∙ f.3 in
                  inl (cc)
              | inr j ↦ inr ((ih o refl entry).1 (f.0, f.1, j, f.3))
            ],
          )

      on_first :
          ((o : List ServiceWithEndpoints)
            → list_entries display rest ≡ ok o
            → (entry : ServiceWithEndpoints) → IsIn entry o ↔ FromTable rest entry)
          → (r : Result ServiceWithEndpoints) → service_with_endpoints display k v ≡ r
          → and_then r (λ s. and_then (list_entries display rest) λ services. ok (s ∷ services))
            ≡ ok out
          → (entry : ServiceWithEndpoints) → IsIn entry out ↔ FromTable ((k, v) ∷ rest) entry
      on_first ih (err x) q g = cc
      on_first ih (ok s) q g = on_rest s q (list_entries display rest) ih g

counted_list :
    {A : Type 0} (o : Option (ℕ × A)) (a : A)
    → Option.map (λ r. r.1) o ≡ some a
    → (n : ℕ) × (o ≡ some (n, a))
counted_list none a h = absurd (cc)
counted_list (some (n, b)) a h = let same : b ≡ a = cc in (n, ap (λ x. some (n, x)) same)

list_services-IsDistinct :
    {SK EV : Type 0} (to_key : SK → ServiceKey) (to_value : EV → EndpointValue)
    (cache : HashMap EndpointKey EV) (l : List (SK × ServiceValue))
    (out : HashMap ServiceKey (List EndpointValue))
    → IsDistinct out
    → IsDistinct (list_services to_key to_value cache l out)
unfolding list_services
list_services-IsDistinct to_key to_value cache [] out h = h
list_services-IsDistinct to_key to_value cache ((k, v) ∷ rest) out h =
    list_services-IsDistinct to_key to_value cache rest _
      (insert-IsDistinct (to_key k) (map to_value (endpoints_of cache v)) out h)

module _ {S4 E4 S6 E6 : Type 0} (services4 : BpfMap S4 ServiceKeyV4 ServiceValue ServiceKeyV4)
    (endpoints4 : BpfMap E4 EndpointKey EndpointValueV4 EndpointKey)
    (services6 : BpfMap S6 ServiceKeyV6 ServiceValue ServiceKeyV6)
    (endpoints6 : BpfMap E6 EndpointKey EndpointValueV6 EndpointKey) where
  -- The list of a service of either family.
  abbrev pub listed : State S4 E4 S6 E6 → ServiceKey → Option (List EndpointValue)
  listed s (ServiceKey.v4 k) = Option.map (map EndpointValue.v4) (listing s.service_endpoint_v4 k)
  listed s (ServiceKey.v6 k) = Option.map (map EndpointValue.v6) (listing s.service_endpoint_v6 k)

  get-listed :
      (s4 : S4) (e4 : E4) (s6 : S6) (e6 : E6) (cs : List Call) (k : ServiceKey)
      → HashMap.get k (
          state_from_cache services4 endpoints4 services6 endpoints6
            (run services4 endpoints4 services6 endpoints6 cs
              (new_state (new s4 e4) (new s6 e6))).1)
        ≡ listed
            (run services4 endpoints4 services6 endpoints6 cs (new_state (new s4 e4) (new s6 e6))).1
            k
  get-listed s4 e4 s6 e6 cs (ServiceKey.v4 k) =
      (get-state_from_cache services4 endpoints4 services6 endpoints6 s4 e4 s6 e6 cs k
        (record { ip = 0; port = 0; protocol = 0; pad = 0 })).0
  get-listed s4 e4 s6 e6 cs (ServiceKey.v6 k) =
      (get-state_from_cache services4 endpoints4 services6 endpoints6 s4 e4 s6 e6 cs
        (record { ip = 0; port = 0; protocol = 0; pad = 0 }) k).1

  state_from_cache-IsDistinct :
      (s : State S4 E4 S6 E6)
      → IsDistinct (state_from_cache services4 endpoints4 services6 endpoints6 s)
  unfolding state_from_cache
  state_from_cache-IsDistinct s =
      list_services-IsDistinct ServiceKey.v6 EndpointValue.v6 _ s.service_endpoint_v6.service_cache
        _
        (list_services-IsDistinct ServiceKey.v4 EndpointValue.v4 _
          s.service_endpoint_v4.service_cache [] tt)

  IsIn-list_services :
      (display : Display) (s4 : S4) (e4 : E4) (s6 : S6) (e6 : E6) (cs : List Call)
      (out : List ServiceWithEndpoints)
      → Replies.list_services display services4 endpoints4 services6 endpoints6 false
          (run services4 endpoints4 services6 endpoints6 cs (new_state (new s4 e4) (new s6 e6))).1
        ≡ ok out
      → (entry : ServiceWithEndpoints)
      → IsIn entry out ↔ (
          (k : ServiceKey) × (v : List EndpointValue) × (listed
              (run services4 endpoints4 services6 endpoints6 cs
                (new_state (new s4 e4) (new s6 e6))).1
              k
            ≡ some v)
          × (service_with_endpoints display k v ≡ ok entry))
  unfolding Replies.list_services
  IsIn-list_services display s4 e4 s6 e6 cs out h entry =
      let s =
        (run services4 endpoints4 services6 endpoints6 cs (new_state (new s4 e4) (new s6 e6))).1 in
      let table = state_from_cache services4 endpoints4 services6 endpoints6 s in
      let (there, back) = list_entries_iff display table out h entry in
      (
        λ i.
            let (k, v, m, f) = there i in
            (
              k,
              v,
              sym (get-listed s4 e4 s6 e6 cs k)
                  ∙ get-IsIn k v table (state_from_cache-IsDistinct s) m,
              f,
            ),
        λ (k, v, m, f). back (k, v, IsIn-get k v table (get-listed s4 e4 s6 e6 cs k ∙ m), f),
      )

  -- A listed service has endpoints of its own family.
  listed_family :
      (s : State S4 E4 S6 E6) (k : ServiceKey) (v : List EndpointValue)
      → listed s k ≡ some v
      → IsOfFamily k v
  listed_family s (ServiceKey.v4 k) v h = elim (Option-cases (listing s.service_endpoint_v4 k)) [
    | inl e ↦ absurd (let q = ap (Option.map (map EndpointValue.v4)) (sym e) ∙ h in cc)
    | inr (l, e) ↦
        let q = ap (Option.map (map EndpointValue.v4)) (sym e) ∙ h in
        let same : map EndpointValue.v4 l ≡ v = cc in (l, same)
  ]
  listed_family s (ServiceKey.v6 k) v h = elim (Option-cases (listing s.service_endpoint_v6 k)) [
    | inl e ↦ absurd (let q = ap (Option.map (map EndpointValue.v6)) (sym e) ∙ h in cc)
    | inr (l, e) ↦
        let q = ap (Option.map (map EndpointValue.v6)) (sym e) ∙ h in
        let same : map EndpointValue.v6 l ≡ v = cc in (l, same)
  ]

  -- After any run of fewer than 65408 updates and removals on a fresh state, all of which return
  -- `Ok`, the entries of a reply of `list_services` from the cache are exactly those of the services
  -- that the calls say: a service's address and port, the name of its protocol, and the addresses
  -- and ports of its endpoints, in order.
  pub list_services_iff :
      (display : Display) (s4 : S4) (e4 : E4) (s6 : S6) (e6 : E6) (cs : List Call)
      (out : List ServiceWithEndpoints)
      → length cs < 65408
      → (run services4 endpoints4 services6 endpoints6 cs (new_state (new s4 e4) (new s6 e6))).0
        ≡ ok tt
      → Replies.list_services display services4 endpoints4 services6 endpoints6 false
          (run services4 endpoints4 services6 endpoints6 cs (new_state (new s4 e4) (new s6 e6))).1
        ≡ ok out
      → (entry : ServiceWithEndpoints)
      → IsIn entry out ↔ (
          (k : ServiceKey) × (n : ℕ) × (endpoints : List EndpointValue) × (specified_all cs
              no_services k
            ≡ some (n, endpoints))
          × IsEntry display k endpoints entry)
  list_services_iff display s4 e4 s6 e6 cs out room done h entry =
      let (there, back) = IsIn-list_services display s4 e4 s6 e6 cs out h entry in
      let s =
        (run services4 endpoints4 services6 endpoints6 cs (new_state (new s4 e4) (new s6 e6))).1 in
      let same : (k : ServiceKey)
          → listed s k ≡ Option.map (λ r. r.1) (specified_all cs no_services k) =
        λ k.
          sym (get-listed s4 e4 s6 e6 cs k)
          ∙ state_from_cache-specified_all services4 endpoints4 services6 endpoints6 s4 e4 s6 e6 cs
              k room done in
      (
        λ i.
            let (k, v, m, f) = there i in
            let (n, e) = counted_list (specified_all cs no_services k) v (sym (same k) ∙ m) in
            (
              k,
              n,
              v,
              e,
              (service_with_endpoints-IsEntry display k v entry (listed_family s k v m)).0 f,
            ),
        λ (k, n, v, e, f).
            let m = same k ∙ ap (Option.map (λ r. r.1)) e in
            back (
              k,
              v,
              m,
              (service_with_endpoints-IsEntry display k v entry (listed_family s k v m)).1 f,
            ),
      )
