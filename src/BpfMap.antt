-- ===== src/BpfMap.antt =====
-- mesh-cni/src/bpf/mod.rs: the trait `BpfMap`, and its implementations for the hash map of the
-- process and for the kernel's maps. The kernel's map is a parameter, `AyaMap`.
pub mod Laws
use mesh_cni.Prelude.{List, [], ◌∷◌, some, none}
use mesh_cni.Prelude.HashMap
use mesh_cni.Prelude.HashMap.{HashMap, Key}
use mesh_cni.Prelude.Result.{Result, ok, err, Proc}

-- The trait: `M` is the implementing type. A call on `&mut self` returns the new map.
pub record BpfMap (M K V KO : Type 0) : Type 0 where
  pub update : K → V → Proc M (Unit {0})
  pub delete : K → Proc M (Unit {0})
  pub get : M → K → Result V
  pub get_state : M → Result (HashMap KO V)

-- What the source calls of aya's `HashMap` and `LpmTrie`, the flags being 0.
pub record AyaMap (M K V : Type 0) : Type 0 where
  pub insert : K → V → Proc M (Unit {0})
  pub remove : K → Proc M (Unit {0})
  pub get : M → K → Result V
  pub iter : M → List (Result (K × V))

module _ {K V : Type 0} ⦃key : Key K⦄ where
  -- `impl BpfMap for ahash::HashMap`
  unfoldable pub hash_map : BpfMap (HashMap K V) K V K
  hash_map = record {
    update = λ k v m. (ok tt, HashMap.insert k v m);
    delete = λ k m. (ok tt, HashMap.remove k m);
    get = λ m k. elim (HashMap.get k m) [ some i ↦ ok i | none ↦ err "not found" ];
    get_state = λ m. ok m;
  }

module _ {K V KO : Type 0} ⦃key : Key KO⦄ where
  -- The loop of `get_state`; `key_output` is the identity for `HashMap`, and
  -- `key_to_network` for `LpmTrie`.
  unfoldable pub collect_from :
      (K → KO) → HashMap KO V → List (Result (K × V)) → Result (HashMap KO V)
  collect_from key_output map [] = ok map
  collect_from key_output map (ok (k, v) ∷ rest) =
      collect_from key_output (HashMap.insert (key_output k) v map) rest
  collect_from key_output map (err e ∷ rest) = err e

  -- `impl BpfMap for HashMap<T, K, V>` and for `LpmTrie<T, _, V>`
  unfoldable pub aya_map : {M : Type 0} → (K → KO) → AyaMap M K V → BpfMap M K V KO
  aya_map key_output m = record {
    update = m.insert;
    delete = m.remove;
    get = m.get;
    get_state = λ s. collect_from key_output [] (m.iter s);
  }
