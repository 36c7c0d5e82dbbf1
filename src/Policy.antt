-- ===== src/Policy.antt =====
-- mesh-cni/src/bpf/policy/state.rs: the policy map behind a cache that is read from the map when
-- the agent starts. `PolicyBpfState` takes a lock around each call of the inner state, and
-- `PolicyState` passes its calls on, so the functions stand for all three.
pub mod Cache
use mesh_cni.BpfMap.{BpfMap, AyaMap, aya_map, collect_from}
use mesh_cni.Common.{PolicyKey, PolicyValue, policy_key_eq, policy_value_eq}
use mesh_cni.Prelude.{[], Option, some, none, ite}
use mesh_cni.Prelude.HashMap
use mesh_cni.Prelude.HashMap.{HashMap}
use mesh_cni.Prelude.Result.{Result, ok, err, Proc}

pub record PolicyBpfStateInner (M : Type 0) : Type 0 where
  pub cache : HashMap PolicyKey PolicyValue
  pub bpf_map : M

module _ {M : Type 0} (map : AyaMap M PolicyKey PolicyValue) where
  -- `impl BpfMap for HashMap<T, K, V>`
  abbrev pub policy_map : BpfMap M PolicyKey PolicyValue PolicyKey
  policy_map = aya_map (λ k. k) map

  -- The `match` on the result of the loop over the map.
  unfoldable pub with_cache :
      M → Result (HashMap PolicyKey PolicyValue) → Result (PolicyBpfStateInner M)
  with_cache bpf_map (ok cache) = ok (record { cache = cache; bpf_map = bpf_map })
  with_cache bpf_map (err e) = err e

  unfoldable pub try_new : M → Result (PolicyBpfStateInner M)
  try_new bpf_map = with_cache bpf_map (collect_from (λ k. k) [] (map.iter bpf_map))

  unfoldable pub store_policy : PolicyKey → PolicyValue → Proc (PolicyBpfStateInner M) (Unit {0})
  store_policy k value st = elim (policy_map.update k value st.bpf_map).0 [
    | ok _ ↦ (
      ok tt,
      record {
        cache = HashMap.insert k value st.cache;
        bpf_map = (policy_map.update k value st.bpf_map).1;
      },
    )
    | err e ↦ (err e, record st { bpf_map = (policy_map.update k value st.bpf_map).1 })
  ]

  unfoldable pub update_policy : PolicyKey → PolicyValue → Proc (PolicyBpfStateInner M) (Unit {0})
  update_policy k value st = elim (HashMap.get k st.cache) [
    | none ↦ store_policy k value st
    | some current ↦ ite (policy_value_eq.same current value) (ok tt, st) (store_policy k value st)
  ]

  unfoldable pub delete_policy : PolicyKey → Proc (PolicyBpfStateInner M) (Unit {0})
  delete_policy k st = elim (policy_map.delete k st.bpf_map).0 [
    | ok _ ↦ (
      ok tt,
      record { cache = HashMap.remove k st.cache; bpf_map = (policy_map.delete k st.bpf_map).1 },
    )
    | err e ↦ (err e, record st { bpf_map = (policy_map.delete k st.bpf_map).1 })
  ]

  unfoldable pub get_policy : PolicyKey → PolicyBpfStateInner M → Result PolicyValue
  get_policy k st = elim (HashMap.get k st.cache) [
    | some v ↦ ok v
    | none ↦ err "key does not exist"
  ]
