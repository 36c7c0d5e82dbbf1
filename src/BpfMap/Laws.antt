-- ===== src/BpfMap/Laws.antt =====
-- What a client of a BPF map relies on: a call that returns `Ok` changes one key, and a call
-- that returns an error changes nothing.
use mesh_cni.BpfMap.{BpfMap, hash_map}
use mesh_cni.Prelude.{Option, some, none, ◌≡◌, ite, String}
use mesh_cni.Prelude.HashMap
use mesh_cni.Prelude.HashMap.{HashMap, Key}
use mesh_cni.Prelude.Result.{ok, err}

pub record IsMap {M K V KO : Type 0} ⦃key : Key K⦄ (b : BpfMap M K V KO) : Type 0 where
  -- the entries, as a function
  pub view : M → K → Option V
  pub update_ok :
      (k : K) (v : V) (s : M) (j : K)
      → (b.update k v s).0 ≡ ok tt
      → view (b.update k v s).1 j ≡ ite (key.same j k) (some v) (view s j)
  pub update_err :
      (k : K) (v : V) (s : M) (e : String) (j : K)
      → (b.update k v s).0 ≡ err e
      → view (b.update k v s).1 j ≡ view s j
  pub delete_ok :
      (k : K) (s : M) (j : K)
      → (b.delete k s).0 ≡ ok tt
      → view (b.delete k s).1 j ≡ ite (key.same j k) none (view s j)
  pub delete_err :
      (k : K) (s : M) (e : String) (j : K)
      → (b.delete k s).0 ≡ err e
      → view (b.delete k s).1 j ≡ view s j

module _ {K V : Type 0} ⦃key : Key K⦄ where
  pub hash_map-update :
      (k : K) (v : V) (s : HashMap K V) (j : K)
      → HashMap.get j (hash_map.update k v s).1 ≡ ite (key.same j k) (some v) (HashMap.get j s)
  unfolding hash_map
  hash_map-update k v s j = HashMap.get-insert k j v s

  pub hash_map-delete :
      (k : K) (s : HashMap K V) (j : K)
      → HashMap.get j (hash_map.delete k s).1 ≡ ite (key.same j k) none (HashMap.get j s)
  unfolding hash_map
  hash_map-delete k s j = HashMap.get-remove k j s

  pub hash_map-update_ok :
      (k : K) (v : V) (s : HashMap K V) (e : String) → ¬ ((hash_map.update k v s).0 ≡ err e)
  unfolding hash_map
  hash_map-update_ok k v s e h = cc

  pub hash_map-delete_ok :
      (k : K) (s : HashMap K V) (e : String) → ¬ (((hash_map {V = V}).delete k s).0 ≡ err e)
  unfolding hash_map
  hash_map-delete_ok k s e h = cc

  -- The hash map of the process has these laws, and never refuses.
  abbrev pub hash_map-IsMap : IsMap (hash_map {K = K} {V = V})
  hash_map-IsMap = record {
    view = λ m k. HashMap.get k m;
    update_ok = λ k v s j _. hash_map-update k v s j;
    update_err = λ k v s e j h. absurd (hash_map-update_ok k v s e h);
    delete_ok = λ k s j _. hash_map-delete k s j;
    delete_err = λ k s e j h. absurd (hash_map-delete_ok k s e h);
  }
