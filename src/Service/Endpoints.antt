-- ===== src/Service/Endpoints.antt =====
-- What the endpoint loops of `ServiceEndpoint` leave in the cache when they succeed.
use mesh_cni.BpfMap.{BpfMap}
use mesh_cni.Common.{ServiceValue, EndpointKey, endpoint_key, endpoint_key_eq}
use mesh_cni.Prelude.{
  ℕ, zero, suc, ◌+◌, ◌≤◌, ◌<◌, ◌^◌, String, List, [], ◌∷◌, some, none, ◌≡◌, ◌≢◌, ◌⊎◌, refl, ap, ◌∙◌,
  ite, inl, inr, arith, length, get_elem?,
}
use mesh_cni.Prelude.HashMap
use mesh_cni.Prelude.HashMap.{HashMap, Key}
use mesh_cni.Prelude.Result.{ok, Result-cases, then_do-eq-ok, lift, ◌>>◌}
use mesh_cni.Service.{
  ServiceEndpoint, put_endpoint, put_endpoints_from, drop_endpoint, drop_endpoints_from,
  put_service, u16_try_from, drop_service,
}

-- The endpoint key (a, q) is none of (id, pos), …, (id, pos + n - 1).
abbrev pub Outside : ℕ → ℕ → ℕ → ℕ → ℕ → Type 0
Outside id pos n a q = (a ≢ id) ⊎ (q < pos) ⊎ (pos + n ≤ q)

pub u16_try_from-eq-ok :
    (message : String) (n : ℕ) {m : ℕ} → u16_try_from message n ≡ ok m → (n < 2 ^ 16) × (m ≡ n)
unfolding u16_try_from
u16_try_from-eq-ok message n h = ground arith

module _ {S E SK EV : Type 0} where
  pub record Puts (id pos : ℕ) (eps : List EV) (st st' : ServiceEndpoint S E SK EV) : Type 0 where
    pub services : st'.service_cache ≡ st.service_cache
    pub stored :
        (i : ℕ)
        → i < length eps
        → HashMap.get (endpoint_key id (pos + i)) st'.endpoint_cache ≡ get_elem? eps i
    pub others :
        (a q : ℕ)
        → Outside id pos (length eps) a q
        → HashMap.get (endpoint_key a q) st'.endpoint_cache
          ≡ HashMap.get (endpoint_key a q) st.endpoint_cache

  pub record Drops (id pos n : ℕ) (st st' : ServiceEndpoint S E SK EV) : Type 0 where
    pub services : st'.service_cache ≡ st.service_cache
    pub dropped :
        (q : ℕ) → pos ≤ q → q < pos + n → HashMap.get (endpoint_key id q) st'.endpoint_cache ≡ none
    pub others :
        (a q : ℕ)
        → Outside id pos n a q
        → HashMap.get (endpoint_key a q) st'.endpoint_cache
          ≡ HashMap.get (endpoint_key a q) st.endpoint_cache

module _ {S E SK EV : Type 0} (id pos : ℕ) {st st₁ st' : ServiceEndpoint S E SK EV}
    (same : st₁.service_cache ≡ st.service_cache) where
  Puts-cons :
      (ep : EV) (eps : List EV)
      → st₁.endpoint_cache ≡ HashMap.insert (endpoint_key id pos) ep st.endpoint_cache
      → Puts id (pos + 1) eps st₁ st'
      → Puts id pos (ep ∷ eps) st st'
  Puts-cons ep eps e p = record {
    services = p.services ∙ same;
    stored = first;
    others = λ a q o. ground (arith, p.others a q, get₁ a q);
  }
    where
      get₁ :
          (a q : ℕ)
          → HashMap.get (endpoint_key a q) st₁.endpoint_cache
            ≡ ite
                (endpoint_key_eq.same (endpoint_key a q) (endpoint_key id pos))
                (some ep)
                (HashMap.get (endpoint_key a q) st.endpoint_cache)
      get₁ a q =
          rw e (HashMap.get-insert (endpoint_key id pos) (endpoint_key a q) ep st.endpoint_cache)

      first :
          (i : ℕ)
          → i < length (ep ∷ eps)
          → HashMap.get (endpoint_key id (pos + i)) st'.endpoint_cache ≡ get_elem? (ep ∷ eps) i
      first zero n = ground (arith, p.others id (pos + 0), get₁ id (pos + 0))
      first (suc i) n =
          let e : pos + suc i ≡ pos + 1 + i = omega arith in rw e (p.stored i (omega arith))

  Drops-cons :
      (n : ℕ)
      → st₁.endpoint_cache ≡ HashMap.remove (endpoint_key id pos) st.endpoint_cache
      → Drops id (pos + 1) n st₁ st'
      → Drops id pos (suc n) st st'
  Drops-cons n e p = record {
    services = p.services ∙ same;
    dropped = λ q lo hi. ground (arith, p.dropped q, p.others id q, get₁ id q);
    others = λ a q o. ground (arith, p.others a q, get₁ a q);
  }
    where
      get₁ :
          (a q : ℕ)
          → HashMap.get (endpoint_key a q) st₁.endpoint_cache
            ≡ ite
                (endpoint_key_eq.same (endpoint_key a q) (endpoint_key id pos))
                none
                (HashMap.get (endpoint_key a q) st.endpoint_cache)
      get₁ a q =
          rw e (HashMap.get-remove (endpoint_key id pos) (endpoint_key a q) st.endpoint_cache)

module _ {S E SK EV : Type 0} ⦃key : Key SK⦄ (services : BpfMap S SK ServiceValue SK)
    (endpoints : BpfMap E EndpointKey EV EndpointKey) where
  put_endpoint-eq-ok :
      (k : EndpointKey) (ep : EV) (st : ServiceEndpoint S E SK EV)
      → (put_endpoint services endpoints k ep st).0 ≡ ok tt
      → ((put_endpoint services endpoints k ep st).1.service_cache ≡ st.service_cache)
        × ((put_endpoint services endpoints k ep st).1.endpoint_cache
            ≡ HashMap.insert k ep st.endpoint_cache)
  unfolding put_endpoint
  put_endpoint-eq-ok k ep st h = elim (Result-cases (endpoints.update k ep st.endpoint_map).0) [
    | inl (_, e) ↦ rw e (refl, refl)
    | inr (msg, e) ↦ absurd (let q = rw e at h in cc)
  ]

  drop_endpoint-eq-ok :
      (k : EndpointKey) (st : ServiceEndpoint S E SK EV)
      → (drop_endpoint services endpoints k st).0 ≡ ok tt
      → ((drop_endpoint services endpoints k st).1.service_cache ≡ st.service_cache)
        × ((drop_endpoint services endpoints k st).1.endpoint_cache
            ≡ HashMap.remove k st.endpoint_cache)
  unfolding drop_endpoint
  drop_endpoint-eq-ok k st h = elim (Result-cases (endpoints.delete k st.endpoint_map).0) [
    | inl (_, e) ↦ rw e (refl, refl)
    | inr (msg, e) ↦ absurd (let q = rw e at h in cc)
  ]

  pub put_endpoints_from-Puts :
      (message : String) (id pos : ℕ) (eps : List EV) (st : ServiceEndpoint S E SK EV)
      → (put_endpoints_from services endpoints message id pos eps st).0 ≡ ok tt
      → Puts id pos eps st (put_endpoints_from services endpoints message id pos eps st).1
  unfolding put_endpoints_from
  put_endpoints_from-Puts message id pos [] st h = record {
    services = refl;
    stored = λ i n. absurd (omega arith);
    others = λ a q o. refl;
  }
  put_endpoints_from-Puts message id pos (ep ∷ eps) st h =
      let next = put_endpoints_from services endpoints message id (pos + 1) eps in
      let (p, fits, h₁, same₁) =
        then_do-eq-ok (lift (u16_try_from message pos) st)
          (λ p. (put_endpoint services endpoints (endpoint_key id p) ep >> next)) h in
      let (u, done, h₂, same₂) =
        then_do-eq-ok (put_endpoint services endpoints (endpoint_key id p) ep st) (λ _. next) h₁ in
      let put = put_endpoint-eq-ok (endpoint_key id p) ep st done in
      let at : p ≡ pos = (u16_try_from-eq-ok message pos fits).1 in
      rw (same₁, same₂)
        (Puts-cons id pos put.0 ep eps
          (put.1 ∙ ap (λ (x : ℕ). HashMap.insert (endpoint_key id x) ep st.endpoint_cache) at)
          (put_endpoints_from-Puts message id (pos + 1) eps _ h₂))

  pub drop_endpoints_from-Drops :
      (id n pos : ℕ) (st : ServiceEndpoint S E SK EV)
      → (drop_endpoints_from services endpoints id n pos st).0 ≡ ok tt
      → Drops id pos n st (drop_endpoints_from services endpoints id n pos st).1
  unfolding drop_endpoints_from
  drop_endpoints_from-Drops id zero pos st h = record {
    services = refl;
    dropped = λ q lo hi. absurd (omega arith);
    others = λ a q o. refl;
  }
  drop_endpoints_from-Drops id (suc n) pos st h =
      let (u, done, h₂, same₂) =
        then_do-eq-ok (drop_endpoint services endpoints (endpoint_key id pos) st)
          (λ _. drop_endpoints_from services endpoints id n (pos + 1)) h in
      let drop = drop_endpoint-eq-ok (endpoint_key id pos) st done in
      rw same₂ (Drops-cons id pos drop.0 n drop.1 (drop_endpoints_from-Drops id n (pos + 1) _ h₂))

  pub put_service-eq-ok :
      (k : SK) (v : ServiceValue) (st : ServiceEndpoint S E SK EV)
      → (put_service services endpoints k v st).0 ≡ ok tt
      → ((put_service services endpoints k v st).1.service_cache
          ≡ HashMap.insert k v st.service_cache)
        × ((put_service services endpoints k v st).1.endpoint_cache ≡ st.endpoint_cache)
  unfolding put_service
  put_service-eq-ok k v st h = elim (Result-cases (services.update k v st.service_map).0) [
    | inl (_, e) ↦ rw e (refl, refl)
    | inr (msg, e) ↦ absurd (let q = rw e at h in cc)
  ]

  pub drop_service-eq-ok :
      (k : SK) (st : ServiceEndpoint S E SK EV)
      → (drop_service services endpoints k st).0 ≡ ok tt
      → ((drop_service services endpoints k st).1.service_cache ≡ HashMap.remove k st.service_cache)
        × ((drop_service services endpoints k st).1.endpoint_cache ≡ st.endpoint_cache)
  unfolding drop_service
  drop_service-eq-ok k st h = elim (Result-cases (services.delete k st.service_map).0) [
    | inl (_, e) ↦ rw e (refl, refl)
    | inr (msg, e) ↦ absurd (let q = rw e at h in cc)
  ]
