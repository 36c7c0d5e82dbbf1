-- ===== src/Service/Mirror.antt =====
-- The caches of `ServiceEndpoint` and the BPF maps behind them.
use mesh_cni.BpfMap.Laws.{IsMap}
use mesh_cni.BpfMap.{BpfMap}
use mesh_cni.Common.{ServiceValue, EndpointKey, endpoint_key, endpoint_key_eq}
use mesh_cni.Prelude.{
  ℕ, zero, suc, ◌+◌, ◌-◌, String, Bool, true, false, if◌then◌else◌, List, [], ◌∷◌, ◌≡◌, inl, inr,
  arith, ltb, length, Option-cases,
}
use mesh_cni.Prelude.HashMap
use mesh_cni.Prelude.HashMap.{HashMap, Key}
use mesh_cni.Prelude.Result.{Result-cases, Keeps, bind-Keeps, lift, pure}
use mesh_cni.Service.{
  ServiceEndpoint, put_endpoint, put_endpoints_from, insert_endpoints, drop_endpoint,
  drop_endpoints_from, delete_endpoints, put_service, insert_new_service, update_service, update,
  drop_service, remove, u16_try_from, try_from_error, position_error,
}

module _ {S E SK EV : Type 0} ⦃key : Key SK⦄ {services : BpfMap S SK ServiceValue SK}
    {endpoints : BpfMap E EndpointKey EV EndpointKey} (sl : IsMap services)
    (el : IsMap endpoints) where
  pub record IsMirror (st : ServiceEndpoint S E SK EV) : Type 0 where
    pub same_services : (k : SK) → sl.view st.service_map k ≡ HashMap.get k st.service_cache
    pub same_endpoints :
        (k : EndpointKey) → el.view st.endpoint_map k ≡ HashMap.get k st.endpoint_cache

  put_endpoint-IsMirror :
      (k : EndpointKey) (ep : EV) (st : ServiceEndpoint S E SK EV)
      → IsMirror st
      → IsMirror (put_endpoint services endpoints k ep st).1
  unfolding put_endpoint
  put_endpoint-IsMirror k ep st m = elim (Result-cases (endpoints.update k ep st.endpoint_map).0) [
    | inl (_, e) ↦ rw e (record {
      same_services = m.same_services;
      same_endpoints = λ j. ground (
        arith,
        HashMap.get-insert k j ep st.endpoint_cache,
        el.update_ok k ep st.endpoint_map j e,
        m.same_endpoints j,
      );
    })
    | inr (msg, e) ↦ rw e (record {
      same_services = m.same_services;
      same_endpoints =
          λ j. ground (arith, el.update_err k ep st.endpoint_map msg j e, m.same_endpoints j);
    })
  ]

  drop_endpoint-IsMirror : (k : EndpointKey) → Keeps IsMirror (drop_endpoint services endpoints k)
  unfolding drop_endpoint
  drop_endpoint-IsMirror k st m = elim (Result-cases (endpoints.delete k st.endpoint_map).0) [
    | inl (_, e) ↦ rw e (record {
      same_services = m.same_services;
      same_endpoints = λ j. ground (
        arith,
        HashMap.get-remove k j st.endpoint_cache,
        el.delete_ok k st.endpoint_map j e,
        m.same_endpoints j,
      );
    })
    | inr (msg, e) ↦ rw e (record {
      same_services = m.same_services;
      same_endpoints =
          λ j. ground (arith, el.delete_err k st.endpoint_map msg j e, m.same_endpoints j);
    })
  ]

  put_service-IsMirror :
      (k : SK) (v : ServiceValue) → Keeps IsMirror (put_service services endpoints k v)
  unfolding put_service
  put_service-IsMirror k v st m = elim (Result-cases (services.update k v st.service_map).0) [
    | inl (_, e) ↦ rw e (record {
      same_endpoints = m.same_endpoints;
      same_services = λ j. ground (
        arith,
        HashMap.get-insert k j v st.service_cache,
        sl.update_ok k v st.service_map j e,
        m.same_services j,
      );
    })
    | inr (msg, e) ↦ rw e (record {
      same_endpoints = m.same_endpoints;
      same_services =
          λ j. ground (arith, sl.update_err k v st.service_map msg j e, m.same_services j);
    })
  ]

  drop_service-IsMirror : (k : SK) → Keeps IsMirror (drop_service services endpoints k)
  unfolding drop_service
  drop_service-IsMirror k st m = elim (Result-cases (services.delete k st.service_map).0) [
    | inl (_, e) ↦ rw e (record {
      same_endpoints = m.same_endpoints;
      same_services = λ j. ground (
        arith,
        HashMap.get-remove k j st.service_cache,
        sl.delete_ok k st.service_map j e,
        m.same_services j,
      );
    })
    | inr (msg, e) ↦ rw e (record {
      same_endpoints = m.same_endpoints;
      same_services =
          λ j. ground (arith, sl.delete_err k st.service_map msg j e, m.same_services j);
    })
  ]

  put_endpoints_from-IsMirror :
      (message : String) (id position : ℕ) (eps : List EV)
      → Keeps IsMirror (put_endpoints_from services endpoints message id position eps)
  unfolding put_endpoints_from
  put_endpoints_from-IsMirror message id position [] = λ st m. m
  put_endpoints_from-IsMirror message id position (ep ∷ eps) =
      bind-Keeps IsMirror (lift (u16_try_from message position)) _ (λ s m. m)
        λ p.
          bind-Keeps IsMirror (put_endpoint services endpoints (endpoint_key id p) ep) _
            (put_endpoint-IsMirror _ ep)
            λ _. put_endpoints_from-IsMirror message id (position + 1) eps

  drop_endpoints_from-IsMirror :
      (id rounds idx : ℕ) → Keeps IsMirror (drop_endpoints_from services endpoints id rounds idx)
  unfolding drop_endpoints_from
  drop_endpoints_from-IsMirror id zero idx = λ st m. m
  drop_endpoints_from-IsMirror id (suc rounds) idx =
      bind-Keeps IsMirror (drop_endpoint services endpoints (endpoint_key id idx)) _
        (drop_endpoint-IsMirror _) λ _. drop_endpoints_from-IsMirror id rounds (idx + 1)

  insert_new_service-IsMirror :
      (k : SK) (value : List EV) (id : ℕ)
      → Keeps IsMirror (insert_new_service services endpoints k value id)
  unfolding insert_new_service
  insert_new_service-IsMirror k value id =
      bind-Keeps IsMirror (lift (u16_try_from try_from_error (length value))) _ (λ s m. m)
        λ count.
          bind-Keeps IsMirror (put_service services endpoints k _) _ (put_service-IsMirror k _) λ _.
            bind-Keeps IsMirror (put_endpoints_from services endpoints try_from_error id 0 value) _
              (put_endpoints_from-IsMirror try_from_error id 0 value) λ _ s m. m

  update_service-IsMirror :
      (current : ServiceValue) (n : ℕ) (value : List EV)
      → Keeps IsMirror (update_service services endpoints current n value)
  unfolding update_service insert_endpoints delete_endpoints
  update_service-IsMirror current n value =
      bind-Keeps IsMirror (put_endpoints_from services endpoints position_error current.id 0 value)
        _ (put_endpoints_from-IsMirror position_error current.id 0 value)
        λ _.
          bind-Keeps IsMirror
            (if ltb n current.count
              then drop_endpoints_from services endpoints current.id (current.count - n) n
              else pure tt)
            _ (shrink (ltb n current.count)) λ _ s m. m
    where
      shrink :
          (b : Bool)
          → Keeps IsMirror (
              if b
              then drop_endpoints_from services endpoints current.id (current.count - n) n
              else pure tt)
      shrink true = drop_endpoints_from-IsMirror current.id (current.count - n) n
      shrink false = λ s m. m

  -- If the caches are a copy of the maps, they are one after `update`, whatever it returns: also
  -- where a call on a map fails half-way.
  pub update-IsMirror :
      (k : SK) (value : List EV) (id : ℕ) (st : ServiceEndpoint S E SK EV)
      → IsMirror st
      → IsMirror (update services endpoints k value id st).1
  unfolding update
  update-IsMirror k value id st m =
      elim (Result-cases (u16_try_from try_from_error (length value))) [
        | inr (msg, e) ↦ rw e m
        | inl (n, e) ↦ elim (Option-cases (HashMap.get k st.service_cache)) [
          | inl absent ↦ rw (e, absent) (insert_new_service-IsMirror k value id st m)
          | inr (current, present) ↦ rw (e, present) (update_service-IsMirror current n value st m)
        ]
      ]

  -- If the caches are a copy of the maps, they are one after `remove`, whatever it returns.
  pub remove-IsMirror :
      (k : SK) (st : ServiceEndpoint S E SK EV)
      → IsMirror st
      → IsMirror (remove services endpoints k st).1
  unfolding remove delete_endpoints
  remove-IsMirror k st m = elim (Option-cases (HashMap.get k st.service_cache)) [
    | inl absent ↦ rw (absent, remove) m
    | inr (v, present) ↦
        rw (present, remove)
          (bind-Keeps IsMirror (drop_endpoints_from services endpoints v.id (v.count - 0) 0) _
            (drop_endpoints_from-IsMirror v.id (v.count - 0) 0) (λ _. drop_service-IsMirror k) st m)
  ]
