-- ===== src/Service/Distinct.antt =====
-- No key stands twice in the cache of services.
use mesh_cni.BpfMap.{BpfMap}
use mesh_cni.Common.{ServiceValue, EndpointKey, endpoint_key, endpoint_key_eq}
use mesh_cni.Prelude.{
  ℕ, zero, suc, ◌+◌, ◌-◌, ◌≡◌, refl, sym, ◌∙◌, ap, if_pos, if_neg, inl, inr, List, [], ◌∷◌, some,
  none, Bool, true, false, ltb, length, if◌then◌else◌, String, Option-cases,
}
use mesh_cni.Prelude.HashMap
use mesh_cni.Prelude.HashMap.{Key, HashMap}
use mesh_cni.Prelude.Result.{Result-cases, Keeps, bind-Keeps, lift, pure}
use mesh_cni.Service.{
  ServiceEndpoint, u16_try_from, try_from_error, position_error, put_endpoint, put_endpoints_from,
  insert_endpoints, drop_endpoint, drop_endpoints_from, delete_endpoints, put_service,
  insert_new_service, update_service, update, drop_service, remove,
}

module _ {K V : Type 0} ⦃key : Key K⦄ where
  abbrev pub IsDistinct : HashMap K V → Type 0
  IsDistinct [] = Unit
  IsDistinct ((k, v) ∷ m) = (HashMap.get k m ≡ none) × IsDistinct m

  pub insert-IsDistinct :
      (k : K) (v : V) (m : HashMap K V) → IsDistinct m → IsDistinct (HashMap.insert k v m)
  unfolding HashMap.insert HashMap.get
  insert-IsDistinct k v [] h = (refl, tt)
  insert-IsDistinct k v ((j, w) ∷ m) (fresh, h) = elim (key.same k j) [
    | yes p ↦
        rw (if_pos (key.same k j) p ((k, v) ∷ m) ((j, w) ∷ HashMap.insert k v m))
          (ap (λ x. HashMap.get x m) p ∙ fresh, h)
    | no p ↦ rw (if_neg (key.same k j) p ((k, v) ∷ m) ((j, w) ∷ HashMap.insert k v m)) (
      HashMap.get-insert k j v m
          ∙ if_neg (key.same j k) (λ q. p (sym q)) (some v) (HashMap.get j m)
          ∙ fresh,
      insert-IsDistinct k v m h,
    )
  ]

  remove-IsDistinct : (k : K) (m : HashMap K V) → IsDistinct m → IsDistinct (HashMap.remove k m)
  unfolding HashMap.remove
  remove-IsDistinct k [] h = tt
  remove-IsDistinct k ((j, w) ∷ m) (fresh, h) = elim (key.same k j) [
    | yes p ↦
        rw (if_pos (key.same k j) p (HashMap.remove k m) ((j, w) ∷ HashMap.remove k m))
          (remove-IsDistinct k m h)
    | no p ↦ rw (if_neg (key.same k j) p (HashMap.remove k m) ((j, w) ∷ HashMap.remove k m)) (
      HashMap.get-remove k j m
          ∙ if_neg (key.same j k) (λ q. p (sym q)) none (HashMap.get j m)
          ∙ fresh,
      remove-IsDistinct k m h,
    )
  ]

module _ {S E SK EV : Type 0} ⦃key : Key SK⦄ (services : BpfMap S SK ServiceValue SK)
    (endpoints : BpfMap E EndpointKey EV EndpointKey) where
  abbrev pub HasDistinct : ServiceEndpoint S E SK EV → Type 0
  HasDistinct st = IsDistinct st.service_cache

  put_endpoint-HasDistinct :
      (k : EndpointKey) (ep : EV) → Keeps HasDistinct (put_endpoint services endpoints k ep)
  unfolding put_endpoint
  put_endpoint-HasDistinct k ep st m =
      elim (Result-cases (endpoints.update k ep st.endpoint_map).0) [
        | inl (_, e) ↦ rw e m
        | inr (_, e) ↦ rw e m
      ]

  drop_endpoint-HasDistinct :
      (k : EndpointKey) → Keeps HasDistinct (drop_endpoint services endpoints k)
  unfolding drop_endpoint
  drop_endpoint-HasDistinct k st m = elim (Result-cases (endpoints.delete k st.endpoint_map).0) [
    | inl (_, e) ↦ rw e m
    | inr (_, e) ↦ rw e m
  ]

  put_service-HasDistinct :
      (k : SK) (v : ServiceValue) → Keeps HasDistinct (put_service services endpoints k v)
  unfolding put_service
  put_service-HasDistinct k v st m = elim (Result-cases (services.update k v st.service_map).0) [
    | inl (_, e) ↦ rw e (insert-IsDistinct k v st.service_cache m)
    | inr (_, e) ↦ rw e m
  ]

  drop_service-HasDistinct : (k : SK) → Keeps HasDistinct (drop_service services endpoints k)
  unfolding drop_service
  drop_service-HasDistinct k st m = elim (Result-cases (services.delete k st.service_map).0) [
    | inl (_, e) ↦ rw e (remove-IsDistinct k st.service_cache m)
    | inr (_, e) ↦ rw e m
  ]

  put_endpoints_from-HasDistinct :
      (message : String) (id position : ℕ) (eps : List EV)
      → Keeps HasDistinct (put_endpoints_from services endpoints message id position eps)
  unfolding put_endpoints_from
  put_endpoints_from-HasDistinct message id position [] = λ st m. m
  put_endpoints_from-HasDistinct message id position (ep ∷ eps) =
      bind-Keeps HasDistinct (lift (u16_try_from message position)) _ (λ s m. m)
        λ p.
          bind-Keeps HasDistinct (put_endpoint services endpoints (endpoint_key id p) ep) _
            (put_endpoint-HasDistinct _ ep)
            λ _. put_endpoints_from-HasDistinct message id (position + 1) eps

  drop_endpoints_from-HasDistinct :
      (id rounds idx : ℕ) → Keeps HasDistinct (drop_endpoints_from services endpoints id rounds idx)
  unfolding drop_endpoints_from
  drop_endpoints_from-HasDistinct id zero idx = λ st m. m
  drop_endpoints_from-HasDistinct id (suc rounds) idx =
      bind-Keeps HasDistinct (drop_endpoint services endpoints (endpoint_key id idx)) _
        (drop_endpoint-HasDistinct _) λ _. drop_endpoints_from-HasDistinct id rounds (idx + 1)

  insert_new_service-HasDistinct :
      (k : SK) (value : List EV) (id : ℕ)
      → Keeps HasDistinct (insert_new_service services endpoints k value id)
  unfolding insert_new_service
  insert_new_service-HasDistinct k value id =
      bind-Keeps HasDistinct (lift (u16_try_from try_from_error (length value))) _ (λ s m. m)
        λ count.
          bind-Keeps HasDistinct (put_service services endpoints k _) _
            (put_service-HasDistinct k _)
            λ _.
              bind-Keeps HasDistinct
                (put_endpoints_from services endpoints try_from_error id 0 value) _
                (put_endpoints_from-HasDistinct try_from_error id 0 value) λ _ s m. m

  update_service-HasDistinct :
      (current : ServiceValue) (n : ℕ) (value : List EV)
      → Keeps HasDistinct (update_service services endpoints current n value)
  unfolding update_service insert_endpoints delete_endpoints
  update_service-HasDistinct current n value =
      bind-Keeps HasDistinct
        (put_endpoints_from services endpoints position_error current.id 0 value) _
        (put_endpoints_from-HasDistinct position_error current.id 0 value)
        λ _.
          bind-Keeps HasDistinct
            (if ltb n current.count
              then drop_endpoints_from services endpoints current.id (current.count - n) n
              else pure tt)
            _ (shrink (ltb n current.count)) λ _ s m. m
    where
      shrink :
          (b : Bool)
          → Keeps HasDistinct (
              if b
              then drop_endpoints_from services endpoints current.id (current.count - n) n
              else pure tt)
      shrink true = drop_endpoints_from-HasDistinct current.id (current.count - n) n
      shrink false = λ s m. m

  pub update-HasDistinct :
      (k : SK) (value : List EV) (id : ℕ) (st : ServiceEndpoint S E SK EV)
      → HasDistinct st
      → HasDistinct (update services endpoints k value id st).1
  unfolding update
  update-HasDistinct k value id st m =
      elim (Result-cases (u16_try_from try_from_error (length value))) [
        | inr (msg, e) ↦ rw e m
        | inl (n, e) ↦ elim (Option-cases (HashMap.get k st.service_cache)) [
          | inl absent ↦ rw (e, absent) (insert_new_service-HasDistinct k value id st m)
          | inr (current, present) ↦
              rw (e, present) (update_service-HasDistinct current n value st m)
        ]
      ]

  pub remove-HasDistinct :
      (k : SK) (st : ServiceEndpoint S E SK EV)
      → HasDistinct st
      → HasDistinct (remove services endpoints k st).1
  unfolding remove delete_endpoints
  remove-HasDistinct k st m = elim (Option-cases (HashMap.get k st.service_cache)) [
    | inl absent ↦ rw (absent, remove) m
    | inr (v, present) ↦
        rw (present, remove)
          (bind-Keeps HasDistinct (drop_endpoints_from services endpoints v.id (v.count - 0) 0) _
            (drop_endpoints_from-HasDistinct v.id (v.count - 0) 0) (λ _. drop_service-HasDistinct k)
            st m)
  ]
