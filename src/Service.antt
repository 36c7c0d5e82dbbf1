-- ===== src/Service.antt =====
-- mesh-cni/src/bpf/service/state.rs: `ServiceEndpoint`, the cached service and endpoint maps of
-- one address family. Vectors of references are lists; `id += 1` wraps, as in a release build.
pub mod Endpoints
pub mod Mirror
pub mod Changes
pub mod Update
pub mod Listing
pub mod Table
pub mod Distinct
pub mod State
use mesh_cni.BpfMap.{BpfMap}
use mesh_cni.Common.{ServiceValue, EndpointKey, endpoint_key, endpoint_key_eq}
use mesh_cni.Prelude.{
  ℕ, zero, suc, ◌+◌, ◌-◌, ◌%◌, ◌^◌, String, List, [], ◌∷◌, Option, some, none, ltb, length,
  if◌then◌else◌,
}
use mesh_cni.Prelude.HashMap
use mesh_cni.Prelude.HashMap.{HashMap, Key}
use mesh_cni.Prelude.Result.{Result, ok, err, Proc, pure, lift, ◌>>=◌, ◌>>◌}

-- `u16::try_from` of a `usize`, with the text of the error that the caller makes of it.
unfoldable pub u16_try_from : String → ℕ → Result ℕ
u16_try_from message n = if ltb n (2 ^ 16) then ok n else err message

abbrev pub try_from_error : String
try_from_error = "out of range integral type conversion attempted"

abbrev pub position_error : String
position_error = "failed to convert position: out of range integral type conversion attempted"

pub record ServiceEndpoint (S E SK EV : Type 0) : Type 0 where
  pub service_cache : HashMap SK ServiceValue
  pub service_map : S
  pub endpoint_cache : HashMap EndpointKey EV
  pub endpoint_map : E

unfoldable pub new : {S E SK EV : Type 0} → S → E → ServiceEndpoint S E SK EV
new service_map endpoint_map = record {
  service_cache = [];
  service_map = service_map;
  endpoint_cache = [];
  endpoint_map = endpoint_map;
}

module _ {S E SK EV : Type 0} ⦃key : Key SK⦄ (services : BpfMap S SK ServiceValue SK)
    (endpoints : BpfMap E EndpointKey EV EndpointKey) where
  -- A call on `self.service_map` and on `self.endpoint_map`.
  abbrev pub on_service_map : Proc S (Unit {0}) → Proc (ServiceEndpoint S E SK EV) (Unit {0})
  on_service_map m s = let r = m s.service_map in (r.0, record s { service_map = r.1 })

  abbrev pub on_endpoint_map : Proc E (Unit {0}) → Proc (ServiceEndpoint S E SK EV) (Unit {0})
  on_endpoint_map m s = let r = m s.endpoint_map in (r.0, record s { endpoint_map = r.1 })

  -- The body of the loops of `insert_endpoints` and `insert_new_service`.
  unfoldable pub put_endpoint : EndpointKey → EV → Proc (ServiceEndpoint S E SK EV) (Unit {0})
  put_endpoint k ep = do
    on_endpoint_map (endpoints.update k ep)
    λ s. (ok tt, record s { endpoint_cache = HashMap.insert k ep s.endpoint_cache })

  -- The loop over `endpoints.iter().enumerate()`, from a position on.
  unfoldable pub put_endpoints_from :
      String → ℕ → ℕ → List EV → Proc (ServiceEndpoint S E SK EV) (Unit {0})
  put_endpoints_from message id position [] = pure tt
  put_endpoints_from message id position (ep ∷ eps) = do
    p ← lift (u16_try_from message position)
    put_endpoint (endpoint_key id p) ep
    put_endpoints_from message id (position + 1) eps

  unfoldable pub insert_endpoints :
      ServiceValue → List EV → Proc (ServiceEndpoint S E SK EV) (Unit {0})
  insert_endpoints service_value eps = put_endpoints_from position_error service_value.id 0 eps

  unfoldable pub drop_endpoint : EndpointKey → Proc (ServiceEndpoint S E SK EV) (Unit {0})
  drop_endpoint k = do
    on_endpoint_map (endpoints.delete k)
    λ s. (ok tt, record s { endpoint_cache = HashMap.remove k s.endpoint_cache })

  -- The loop over a range, by the rounds left and the index.
  unfoldable pub drop_endpoints_from : ℕ → ℕ → ℕ → Proc (ServiceEndpoint S E SK EV) (Unit {0})
  drop_endpoints_from id zero idx = pure tt
  drop_endpoints_from id (suc rounds) idx = do
    drop_endpoint (endpoint_key id idx)
    drop_endpoints_from id rounds (idx + 1)

  -- The range `start..end`.
  unfoldable pub delete_endpoints :
      ServiceValue → ℕ → ℕ → Proc (ServiceEndpoint S E SK EV) (Unit {0})
  delete_endpoints service_value start end =
      drop_endpoints_from service_value.id (end - start) start

  unfoldable pub put_service : SK → ServiceValue → Proc (ServiceEndpoint S E SK EV) (Unit {0})
  put_service k v = do
    on_service_map (services.update k v)
    λ s. (ok tt, record s { service_cache = HashMap.insert k v s.service_cache })

  unfoldable pub insert_new_service : SK → List EV → ℕ → Proc (ServiceEndpoint S E SK EV) ℕ
  insert_new_service k value id = do
    count ← lift (u16_try_from try_from_error (length value))
    put_service k (record { id = id; count = count })
    put_endpoints_from try_from_error id 0 value
    pure ((id + 1) % 2 ^ 16)

  -- `update` on a key that the cache has.
  unfoldable pub update_service : ServiceValue → ℕ → List EV → Proc (ServiceEndpoint S E SK EV) ℕ
  update_service current new_count value = do
    insert_endpoints (record { id = current.id; count = new_count }) value
    if ltb new_count current.count
        then delete_endpoints (record { id = current.id; count = new_count }) new_count
            current.count
        else pure tt
    pure current.id

  unfoldable pub update : SK → List EV → ℕ → Proc (ServiceEndpoint S E SK EV) ℕ
  update k value id s =
      (do
        new_count ← lift (u16_try_from try_from_error (length value))
        elim (HashMap.get k s.service_cache) [
          | none ↦ insert_new_service k value id
          | some current ↦ update_service current new_count value
        ])
        s

  unfoldable pub drop_service : SK → Proc (ServiceEndpoint S E SK EV) (Unit {0})
  drop_service k = do
    on_service_map (services.delete k)
    λ s. (ok tt, record s { service_cache = HashMap.remove k s.service_cache })

  unfoldable pub remove : SK → Proc (ServiceEndpoint S E SK EV) (Unit {0})
  remove k s = elim (HashMap.get k s.service_cache) [
    | none ↦ (ok tt, s)
    | some service_value ↦
        (do delete_endpoints service_value 0 service_value.count; drop_service k) s
  ]

-- The loop of `state_from_cache` and `state_from_map` over `0..count`: an endpoint that is not
-- found is skipped.
unfoldable pub collect_endpoints : {EV : Type 0} → HashMap EndpointKey EV → ℕ → ℕ → ℕ → List EV
collect_endpoints cache id zero idx = []
collect_endpoints cache id (suc rounds) idx =
    let rest = collect_endpoints cache id rounds (idx + 1) in
    elim (HashMap.get (endpoint_key id idx) cache) [ none ↦ rest | some ep ↦ ep ∷ rest ]

unfoldable pub endpoints_of : {EV : Type 0} → HashMap EndpointKey EV → ServiceValue → List EV
endpoints_of cache v = collect_endpoints cache v.id v.count 0
