-- ===== src/Service/Update.antt =====
-- What `update` and `remove` of `ServiceEndpoint` do to the caches, on each branch that returns.
use mesh_cni.BpfMap.{BpfMap}
use mesh_cni.Common.{ServiceValue, EndpointKey, endpoint_key, endpoint_key_eq}
use mesh_cni.Prelude.{
  ℕ, suc, ◌+◌, ◌-◌, ◌<◌, ◌^◌, ◌%◌, Bool, true, false, if◌then◌else◌, List, [], ◌∷◌, some, none, ◌≡◌,
  refl, ap, ◌∙◌, ite, inl, inr, arith, ltb, length, get_elem?,
}
use mesh_cni.Prelude.HashMap
use mesh_cni.Prelude.HashMap.{HashMap, Key}
use mesh_cni.Prelude.Result.{ok, Result-cases, then_do-eq-ok, lift, pure, Proc, ◌>>◌}
use mesh_cni.Service.Changes.{Inserted, Replaced, Removed}
use mesh_cni.Service.Endpoints.{
  Puts, Drops, put_endpoints_from-Puts, drop_endpoints_from-Drops, put_service-eq-ok,
  drop_service-eq-ok, u16_try_from-eq-ok,
}
use mesh_cni.Service.{
  ServiceEndpoint, put_endpoints_from, insert_endpoints, drop_endpoints_from, delete_endpoints,
  put_service, insert_new_service, update_service, update, drop_service, remove, u16_try_from,
  try_from_error, position_error, collect_endpoints, endpoints_of,
}

collect_endpoints-stored :
    {EV : Type 0} (cache : HashMap EndpointKey EV) (id pos : ℕ) (eps : List EV)
    → ((i : ℕ) → i < length eps → HashMap.get (endpoint_key id (pos + i)) cache ≡ get_elem? eps i)
    → collect_endpoints cache id (length eps) pos ≡ eps
unfolding collect_endpoints
collect_endpoints-stored cache id pos [] h = refl
collect_endpoints-stored cache id pos (ep ∷ eps) h =
    let rest =
      collect_endpoints-stored cache id (pos + 1) eps (λ i n.
        let e : pos + 1 + i ≡ pos + suc i = omega arith in rw e (h (suc i) (omega arith))) in
    let here : HashMap.get (endpoint_key id pos) cache ≡ some ep =
      let e : pos ≡ pos + 0 = omega arith in rw e (h 0 (omega arith)) in
    rw (here, collect_endpoints) (ap (◌∷◌ ep) rest)

module _ {S E SK EV : Type 0} ⦃key : Key SK⦄ (k : SK) (value : List EV) where
  Puts-Inserted :
      (id n r : ℕ) {st st₁ st' : ServiceEndpoint S E SK EV}
      → (length value < 2 ^ 16) × (n ≡ length value)
      → (st₁.service_cache ≡ HashMap.insert k (record { id = id; count = n }) st.service_cache)
        × (st₁.endpoint_cache ≡ st.endpoint_cache)
      → Puts id 0 value st₁ st'
      → r ≡ (id + 1) % 2 ^ 16
      → Inserted k value id r st st'
  unfolding endpoints_of
  Puts-Inserted id n r {st} {st₁} {st'} f w p e = record {
    next_id = e;
    fits = f.0;
    service = ground (arith, get₁ k, f.1);
    other_services = λ j ne. ground (arith, get₁ j);
    listed = collect_endpoints-stored st'.endpoint_cache id 0 value p.stored;
    other_endpoints = λ a q o. rw (← w.1) (p.others a q o);
  }
    where
      get₁ :
          (j : SK)
          → HashMap.get j st'.service_cache
            ≡ ite
                (key.same j k)
                (some (record { id = id; count = n }))
                (HashMap.get j st.service_cache)
      get₁ j =
          rw (p.services, w.0)
            (HashMap.get-insert k j (record { id = id; count = n }) st.service_cache)

  Drops-Replaced :
      (v : ServiceValue) (r : ℕ) {st st₁ st' : ServiceEndpoint S E SK EV}
      → length value < 2 ^ 16
      → r ≡ v.id
      → Puts v.id 0 value st st₁
      → Drops v.id (length value) (v.count - length value) st₁ st'
      → Replaced v value r st st'
  Drops-Replaced v r {st} {st₁} {st'} f e p d = record {
    same_id = e;
    fits = f;
    services = d.services ∙ p.services;
    stored = λ i n.
        let z : 0 + i ≡ i = omega arith in d.others v.id i (inr (inl n)) ∙ rw z at (p.stored i n);
    dropped = λ q lo hi. d.dropped q lo (omega arith);
    beyond = λ q lo hi.
        d.others v.id q (inr (inr (omega arith))) ∙ p.others v.id q (inr (inr (omega arith)));
    other_endpoints = λ a q o. d.others a q (inl o) ∙ p.others a q (inl o);
  }

  Drops-Removed :
      (v : ServiceValue) {st st₁ st' : ServiceEndpoint S E SK EV}
      → Drops v.id 0 (v.count - 0) st st₁
      → (st'.service_cache ≡ HashMap.remove k st₁.service_cache)
        × (st'.endpoint_cache ≡ st₁.endpoint_cache)
      → Removed k v st st'
  Drops-Removed v {st} {st₁} {st'} d w = record {
    services = λ j. rw (w.0, d.services) (HashMap.get-remove k j st.service_cache);
    dropped = λ q n. rw w.1 (d.dropped q (omega arith) (omega arith));
    other_endpoints = λ a q o. rw w.1 (d.others a q (ground arith));
  }

module _ {S E SK EV : Type 0} ⦃key : Key SK⦄ (services : BpfMap S SK ServiceValue SK)
    (endpoints : BpfMap E EndpointKey EV EndpointKey) (k : SK) where
  insert_new_service-Inserted :
      (value : List EV) (id : ℕ) (st : ServiceEndpoint S E SK EV) {r : ℕ}
      → (insert_new_service services endpoints k value id st).0 ≡ ok r
      → Inserted k value id r st (insert_new_service services endpoints k value id st).1
  unfolding insert_new_service
  insert_new_service-Inserted value id st h =
      let put = put_endpoints_from services endpoints try_from_error id 0 value in
      let finish = put >> pure ((id + 1) % 2 ^ 16) in
      let (n, fits, h₁, same₁) =
        then_do-eq-ok (lift (u16_try_from try_from_error (length value)) st)
          (λ n. put_service services endpoints k (record { id = id; count = n }) >> finish) h in
      let (_, e₂, h₂, same₂) =
        then_do-eq-ok (put_service services endpoints k (record { id = id; count = n }) st)
          (λ _. finish) h₁ in
      let st₁ = (put_service services endpoints k (record { id = id; count = n }) st).1 in
      let (_, e₃, h₃, same₃) = then_do-eq-ok (put st₁) (λ _. pure ((id + 1) % 2 ^ 16)) h₂ in
      rw (same₁, same₂, same₃)
        (Puts-Inserted k value id n _ (u16_try_from-eq-ok try_from_error (length value) fits)
          (put_service-eq-ok services endpoints k _ st e₂)
          (put_endpoints_from-Puts services endpoints try_from_error id 0 value st₁ e₃) (cc))

  update_service-Replaced :
      (value : List EV) (v : ServiceValue) (st : ServiceEndpoint S E SK EV) {r : ℕ}
      → length value < 2 ^ 16
      → (update_service services endpoints v (length value) value st).0 ≡ ok r
      → Replaced v value r st (update_service services endpoints v (length value) value st).1
  unfolding update_service insert_endpoints delete_endpoints
  update_service-Replaced value v st f h =
      let n = length value in
      let put = put_endpoints_from services endpoints position_error v.id 0 value in
      let shrink : Proc (ServiceEndpoint S E SK EV) (Unit {0}) =
        if ltb n v.count
        then drop_endpoints_from services endpoints v.id (v.count - n) n
        else pure tt in
      let (_, e₁, h₁, same₁) = then_do-eq-ok (put st) (λ _. shrink >> pure v.id) h in
      let st₁ = (put st).1 in
      let (_, e₂, h₂, same₂) = then_do-eq-ok (shrink st₁) (λ _. pure v.id) h₁ in
      let p = put_endpoints_from-Puts services endpoints position_error v.id 0 value st e₁ in
      rw (same₁, same₂) (Drops-Replaced k value v _ f (cc) p (dropped (ltb n v.count) refl st₁ e₂))
    where
      dropped :
          (b : Bool)
          → ltb (length value) v.count ≡ b
          → (st₁ : ServiceEndpoint S E SK EV)
          → ((if b
                then drop_endpoints_from services endpoints v.id
                    (v.count - length value)
                    (length value)
                else pure tt)
              st₁).0
            ≡ ok tt
          → Drops v.id
              (length value)
              (v.count - length value)
              st₁
              ((if b
                  then drop_endpoints_from services endpoints v.id
                      (v.count - length value)
                      (length value)
                  else pure tt)
                st₁).1
      dropped true _ st₁ =
          drop_endpoints_from-Drops services endpoints v.id (v.count - length value) (length value)
            st₁
      dropped false b st₁ = λ e. record {
        services = refl;
        dropped = λ q lo hi. absurd (ground arith);
        others = λ a q o. refl;
      }

  -- `update` on a key that the cache lacks, when it returns `Ok`.
  pub update-Inserted :
      (value : List EV) (id : ℕ) (st : ServiceEndpoint S E SK EV) {r : ℕ}
      → HashMap.get k st.service_cache ≡ none
      → (update services endpoints k value id st).0 ≡ ok r
      → Inserted k value id r st (update services endpoints k value id st).1
  unfolding update
  update-Inserted value id st absent h =
      elim (Result-cases (u16_try_from try_from_error (length value))) [
        | inr (msg, e) ↦ absurd (let q = rw (e, update) at h in cc)
        | inl (n, e) ↦
            rw (e, absent, update)
              (insert_new_service-Inserted value id st (rw (e, absent, update) at h))
      ]

  pub update-Replaced :
      (value : List EV) (id : ℕ) (st : ServiceEndpoint S E SK EV) {v : ServiceValue} {r : ℕ}
      → HashMap.get k st.service_cache ≡ some v
      → (update services endpoints k value id st).0 ≡ ok r
      → Replaced v value r st (update services endpoints k value id st).1
  unfolding update
  update-Replaced value id st {v} present h =
      elim (Result-cases (u16_try_from try_from_error (length value))) [
        | inr (msg, e) ↦ absurd (let q = rw (e, update) at h in cc)
        | inl (n, e) ↦
            let f = u16_try_from-eq-ok try_from_error (length value) e in
            let e' = rw f.1 at e in
            rw (e', present, update)
              (update_service-Replaced value v st f.0 (rw (e', present, update) at h))
      ]

  pub remove-Removed :
      (st : ServiceEndpoint S E SK EV) {v : ServiceValue}
      → HashMap.get k st.service_cache ≡ some v
      → (remove services endpoints k st).0 ≡ ok tt
      → Removed k v st (remove services endpoints k st).1
  unfolding remove delete_endpoints
  remove-Removed st {v} present h =
      let dropping = drop_endpoints_from services endpoints v.id (v.count - 0) 0 in
      let h' = rw (present, remove) at h in
      let (_, e₁, h₁, same₁) =
        then_do-eq-ok (dropping st) (λ _. drop_service services endpoints k) h' in
      rw (present, remove)
        (rw same₁ (
          Drops-Removed k [] v
            (drop_endpoints_from-Drops services endpoints v.id (v.count - 0) 0 st e₁)
            (drop_service-eq-ok services endpoints k _ h₁)))
