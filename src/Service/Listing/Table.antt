-- ===== src/Service/Listing/Table.antt =====
-- The table of the services of `ServiceEndpoint`, as the changes of `update` and `remove` to the
-- caches change it.
use mesh_cni.Common.{ServiceValue, EndpointKey, endpoint_key, endpoint_key_eq}
use mesh_cni.Prelude.{
  ℕ, zero, suc, ◌+◌, ◌≤◌, ◌<◌, List, [], ◌∷◌, Option, some, none, ◌≡◌, ◌≢◌, ◌⊎◌, refl, ap, sym, ◌∙◌,
  if_pos, if_neg, inl, inr, arith, length, get_elem?, take, take-nil, Option-cases,
}
use mathlib.Core.Option
use mesh_cni.Prelude.HashMap
use mesh_cni.Prelude.HashMap.{HashMap, Key}
use mesh_cni.Service.Changes.{Inserted, Replaced, Removed}
use mesh_cni.Service.{ServiceEndpoint, collect_endpoints, endpoints_of}

module _ {EV : Type 0} (cache : HashMap EndpointKey EV) where
  collect_endpoints-take :
      (id n pos : ℕ) (eps : List EV)
      → ((i : ℕ) → i < length eps → HashMap.get (endpoint_key id (pos + i)) cache ≡ get_elem? eps i)
      → ((i : ℕ) → length eps ≤ i → i < n → HashMap.get (endpoint_key id (pos + i)) cache ≡ none)
      → collect_endpoints cache id n pos ≡ take n eps
  unfolding collect_endpoints
  collect_endpoints-take id zero pos eps stored absent = refl
  collect_endpoints-take id (suc n) pos [] stored absent =
      let here : HashMap.get (endpoint_key id pos) cache ≡ none =
        let e : pos ≡ pos + 0 = omega arith in rw e (absent 0 (omega arith) (omega arith)) in
      rw (here, collect_endpoints)
        (collect_endpoints-take id n (pos + 1) [] (λ i h. absurd (omega arith))
            (λ i lo hi.
              let e : pos + 1 + i ≡ pos + suc i = omega arith in
              rw e (absent (suc i) (omega arith) (omega arith)))
          ∙ take-nil n)
  collect_endpoints-take id (suc n) pos (ep ∷ eps) stored absent =
      let here : HashMap.get (endpoint_key id pos) cache ≡ some ep =
        let e : pos ≡ pos + 0 = omega arith in rw e (stored 0 (omega arith)) in
      rw (here, collect_endpoints)
        (ap (◌∷◌ ep) (
          collect_endpoints-take id n (pos + 1) eps
            (λ i h.
              let e : pos + 1 + i ≡ pos + suc i = omega arith in
              rw e (stored (suc i) (omega arith)))
            (λ i lo hi.
              let e : pos + 1 + i ≡ pos + suc i = omega arith in
              rw e (absent (suc i) (omega arith) (omega arith)))))

  collect_endpoints_congr :
      (cache' : HashMap EndpointKey EV) (id n pos : ℕ)
      → ((q : ℕ) → HashMap.get (endpoint_key id q) cache' ≡ HashMap.get (endpoint_key id q) cache)
      → collect_endpoints cache' id n pos ≡ collect_endpoints cache id n pos
  unfolding collect_endpoints
  collect_endpoints_congr cache' id zero pos h = refl
  collect_endpoints_congr cache' id (suc n) pos h =
      let rest = collect_endpoints_congr cache' id n (pos + 1) h in ground (arith, h pos, rest)

module _ {S E SK EV : Type 0} ⦃key : Key SK⦄ where
  -- The endpoints that are listed for a key, if it is a service.
  unfoldable pub listing : ServiceEndpoint S E SK EV → SK → Option (List EV)
  listing st k = Option.map (endpoints_of st.endpoint_cache) (HashMap.get k st.service_cache)

  -- No two services share an id, and each is below `limit`.
  pub record IsNumbered (limit : ℕ) (st : ServiceEndpoint S E SK EV) : Type 0 where
    pub below : (k : SK) (v : ServiceValue) → HashMap.get k st.service_cache ≡ some v → v.id < limit
    pub distinct :
        (j k : SK) (v w : ServiceValue)
        → HashMap.get j st.service_cache ≡ some v
        → HashMap.get k st.service_cache ≡ some w
        → v.id ≡ w.id
        → j ≡ k

  -- Every other row of the table is as it was.
  abbrev pub OthersKept : SK → ServiceEndpoint S E SK EV → ServiceEndpoint S E SK EV → Type 0
  OthersKept k st st' = (j : SK) → j ≢ k → listing st' j ≡ listing st j

  listing_congr :
      (j : SK) (st st' : ServiceEndpoint S E SK EV)
      → HashMap.get j st'.service_cache ≡ HashMap.get j st.service_cache
      → ((v : ServiceValue)
          → HashMap.get j st.service_cache ≡ some v
          → (q : ℕ)
          → HashMap.get (endpoint_key v.id q) st'.endpoint_cache
            ≡ HashMap.get (endpoint_key v.id q) st.endpoint_cache)
      → listing st' j ≡ listing st j
  unfolding listing endpoints_of
  listing_congr j st st' same h = elim (Option-cases (HashMap.get j st.service_cache)) [
    | inl e ↦ rw (same, e)
    | inr (v, e) ↦
        rw (same, e)
          (ap some
            (collect_endpoints_congr st.endpoint_cache st'.endpoint_cache v.id v.count 0 (h v e)))
  ]

  Inserted-owner :
      (k : SK) (value : List EV) (id r : ℕ) {st st' : ServiceEndpoint S E SK EV}
      → Inserted k value id r st st'
      → (j : SK) (v : ServiceValue) → HashMap.get j st'.service_cache ≡ some v
      → ((j ≡ k) × (v.id ≡ id)) ⊎ (HashMap.get j st.service_cache ≡ some v)
  Inserted-owner k value id r {st} {st'} i j v e = elim (key.same j k) [
    | yes p ↦
        let e' : HashMap.get k st'.service_cache ≡ some v = rw (← p) e in
        let same : some (record { id = id; count = length value }) ≡ some v = sym i.service ∙ e' in
        inl (p, ground arith)
    | no p ↦ inr (sym (i.other_services j p) ∙ e)
  ]

  pub Inserted-IsNumbered :
      (k : SK) (value : List EV) (id r : ℕ) {st st' : ServiceEndpoint S E SK EV}
      → IsNumbered id st
      → Inserted k value id r st st'
      → IsNumbered (id + 1) st'
  Inserted-IsNumbered k value id r {st} {st'} num i = record {
    below = λ j v e. elim (Inserted-owner k value id r i j v e) [
      | inl (_, new) ↦ omega arith
      | inr old ↦ omega (arith, num.below j v old)
    ];
    distinct = λ j l v w e f same. elim (Inserted-owner k value id r i j v e) [
      | inl (p, new) ↦ elim (Inserted-owner k value id r i l w f) [
        | inl (q, _) ↦ p ∙ sym q
        | inr old ↦ absurd (omega (arith, num.below l w old))
      ]
      | inr old ↦ elim (Inserted-owner k value id r i l w f) [
        | inl (q, new) ↦ absurd (omega (arith, num.below j v old))
        | inr older ↦ num.distinct j l v w old older same
      ]
    ];
  }

  pub listing-Inserted :
      (k : SK) (value : List EV) (id r : ℕ) {st st' : ServiceEndpoint S E SK EV}
      → IsNumbered id st
      → Inserted k value id r st st'
      → (listing st' k ≡ some value) × OthersKept k st st'
  unfolding listing
  listing-Inserted k value id r {st} {st'} num i = (
    rw i.service (ap some i.listed),
    λ j ne.
        listing_congr j st st' (i.other_services j ne)
          (λ v e q. i.other_endpoints v.id q (inl (omega (arith, num.below j v e)))),
  )

  pub listing-Replaced :
      (k : SK) (v : ServiceValue) (value : List EV) (limit r : ℕ)
      {st st' : ServiceEndpoint S E SK EV}
      → HashMap.get k st.service_cache ≡ some v
      → IsNumbered limit st
      → Replaced v value r st st'
      → (listing st' k ≡ some (take v.count value)) × OthersKept k st st'
  unfolding listing endpoints_of
  listing-Replaced k v value limit r {st} {st'} present num i = (
    rw (i.services, present)
        (ap some (
          collect_endpoints-take st'.endpoint_cache v.id v.count 0 value
            (λ q n. let z : 0 + q ≡ q = omega arith in rw z (i.stored q n))
            (λ q lo hi. let z : 0 + q ≡ q = omega arith in rw z (i.dropped q lo hi)))),
    λ j ne.
        listing_congr j st st' (rw i.services)
          (λ w e q. i.other_endpoints w.id q (λ same. ne (num.distinct j k w v e present same))),
  )

  pub listing-Removed :
      (k : SK) (v : ServiceValue) (limit : ℕ) {st st' : ServiceEndpoint S E SK EV}
      → HashMap.get k st.service_cache ≡ some v
      → IsNumbered limit st
      → Removed k v st st'
      → (listing st' k ≡ none) × OthersKept k st st'
  unfolding listing
  listing-Removed k v limit {st} {st'} present num i = (
    rw (i.services k, if_pos (key.same k k) refl none (HashMap.get k st.service_cache)),
    λ j ne.
        listing_congr j st st'
          (i.services j ∙ if_neg (key.same j k) ne none (HashMap.get j st.service_cache))
          (λ w e q.
            i.other_endpoints w.id q (inl (λ same. ne (num.distinct j k w v e present same)))),
  )

  pub Removed-IsNumbered :
      (k : SK) (v : ServiceValue) (limit : ℕ) {st st' : ServiceEndpoint S E SK EV}
      → IsNumbered limit st
      → Removed k v st st'
      → IsNumbered limit st'
  Removed-IsNumbered k v limit {st} {st'} num i = record {
    below = λ j w e. num.below j w (old j w e);
    distinct = λ j l w u e f same. num.distinct j l w u (old j w e) (old l u f) same;
  }
    where
      old :
          (j : SK) (w : ServiceValue)
          → HashMap.get j st'.service_cache ≡ some w
          → HashMap.get j st.service_cache ≡ some w
      old j w e = ground (arith, i.services j)

  pub Replaced-IsNumbered :
      (v : ServiceValue) (value : List EV) (limit r : ℕ) {st st' : ServiceEndpoint S E SK EV}
      → IsNumbered limit st
      → Replaced v value r st st'
      → IsNumbered limit st'
  Replaced-IsNumbered v value limit r {st} {st'} num i = record {
    below = rw i.services num.below;
    distinct = rw i.services num.distinct;
  }
