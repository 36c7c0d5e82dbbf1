-- ===== src/Service/Changes.antt =====
-- What the caches of a `ServiceEndpoint` hold after an update or a removal that returned `Ok`.
use mesh_cni.Common.{ServiceValue, endpoint_key, endpoint_key_eq}
use mesh_cni.Prelude.{
  ℕ, ◌+◌, ◌≤◌, ◌<◌, ◌^◌, ◌%◌, List, some, none, ◌≡◌, ◌≢◌, ite, length, get_elem?,
}
use mesh_cni.Prelude.HashMap
use mesh_cni.Prelude.HashMap.{HashMap, Key}
use mesh_cni.Service.Endpoints.{Outside}
use mesh_cni.Service.{ServiceEndpoint, endpoints_of}

-- The service is new: the caches after `update` returned `r`.
pub record Inserted {S E SK EV : Type 0} ⦃key : Key SK⦄ (k : SK) (value : List EV) (id r : ℕ)
    (st st' : ServiceEndpoint S E SK EV) : Type 0 where
  pub next_id : r ≡ (id + 1) % 2 ^ 16
  pub fits : length value < 2 ^ 16
  pub service : HashMap.get k st'.service_cache ≡ some (record { id = id; count = length value })
  pub other_services :
      (j : SK) → j ≢ k → HashMap.get j st'.service_cache ≡ HashMap.get j st.service_cache
  pub listed : endpoints_of st'.endpoint_cache (record { id = id; count = length value }) ≡ value
  pub other_endpoints :
      (a q : ℕ)
      → Outside id 0 (length value) a q
      → HashMap.get (endpoint_key a q) st'.endpoint_cache
        ≡ HashMap.get (endpoint_key a q) st.endpoint_cache

-- The service is known with the value `v`: its record stays, whatever the number of endpoints.
pub record Replaced {S E SK EV : Type 0} (v : ServiceValue) (value : List EV) (r : ℕ)
    (st st' : ServiceEndpoint S E SK EV) : Type 0 where
  pub same_id : r ≡ v.id
  pub fits : length value < 2 ^ 16
  pub services : st'.service_cache ≡ st.service_cache
  pub stored :
      (i : ℕ)
      → i < length value
      → HashMap.get (endpoint_key v.id i) st'.endpoint_cache ≡ get_elem? value i
  pub dropped :
      (q : ℕ)
      → length value ≤ q
      → q < v.count
      → HashMap.get (endpoint_key v.id q) st'.endpoint_cache ≡ none
  pub beyond :
      (q : ℕ)
      → length value ≤ q
      → v.count ≤ q
      → HashMap.get (endpoint_key v.id q) st'.endpoint_cache
        ≡ HashMap.get (endpoint_key v.id q) st.endpoint_cache
  pub other_endpoints :
      (a q : ℕ)
      → a ≢ v.id
      → HashMap.get (endpoint_key a q) st'.endpoint_cache
        ≡ HashMap.get (endpoint_key a q) st.endpoint_cache

pub record Removed {S E SK EV : Type 0} ⦃key : Key SK⦄ (k : SK) (v : ServiceValue)
    (st st' : ServiceEndpoint S E SK EV) : Type 0 where
  pub services :
      (j : SK)
      → HashMap.get j st'.service_cache ≡ ite (key.same j k) none (HashMap.get j st.service_cache)
  pub dropped : (q : ℕ) → q < v.count → HashMap.get (endpoint_key v.id q) st'.endpoint_cache ≡ none
  pub other_endpoints :
      (a q : ℕ)
      → Outside v.id 0 v.count a q
      → HashMap.get (endpoint_key a q) st'.endpoint_cache
        ≡ HashMap.get (endpoint_key a q) st.endpoint_cache
