-- ===== src/Tests/Policies.antt =====
-- The policy map's cache, and the rules that select an identity.
use mesh_cni.BpfMap.Laws.{
  IsMap, hash_map-update, hash_map-delete, hash_map-update_ok, hash_map-delete_ok,
}
use mesh_cni.BpfMap.{AyaMap, aya_map, hash_map, collect_from}
use mesh_cni.Common.{PolicyKey, PolicyValue, policy_key_eq, policy_value_eq}
use mesh_cni.Policy.Cache.{
  IsMirror, IsIteration, Outcome, try_new-IsMirror, update_delete_policy-Outcome,
}
use mesh_cni.Policy.{
  PolicyBpfStateInner, policy_map, with_cache, try_new, update_policy, delete_policy,
}
use mesh_cni.Prelude.{
  ℕ, List, [], ◌∷◌, Option, some, none, Bool, true, false, ◌≡◌, ◌↔◌, inl, inr, refl, arith, IsIn,
}
use mesh_cni.Prelude.HashMap
use mesh_cni.Prelude.HashMap.{HashMap}
use mesh_cni.Prelude.Result.{Result, ok}
use mesh_cni.Selector.Rules.{IsSelected, rules_select_identity_iff}
use mesh_cni.Selector.{
  PolicyType, Labels, Identity, NetworkPolicyPeer, NetworkPolicyRule, NetworkPolicy,
  ingress_rules_select_identity, egress_rules_select_identity,
}
use mesh_cni.Tests.Fixture.{maps}

abbrev Table : Type 0
Table = HashMap PolicyKey PolicyValue

abbrev items : Table → List (Result (PolicyKey × PolicyValue))
items [] = []
items (x ∷ m) = ok x ∷ items m

policies : Unit {0}
unfolding maps try_new with_cache collect_from
policies = tt

-- the kernel's map as a table
abbrev table : AyaMap Table PolicyKey PolicyValue
table = record {
  insert = hash_map.update;
  remove = hash_map.delete;
  get = hash_map.get;
  iter = items;
}

table-IsMap : IsMap (policy_map table)
unfolding aya_map
table-IsMap = record {
  view = λ m k. HashMap.get k m;
  update_ok = λ k v s j _. hash_map-update k v s j;
  update_err = λ k v s e j h. absurd (hash_map-update_ok k v s e h);
  delete_ok = λ k s j _. hash_map-delete k s j;
  delete_err = λ k s e j h. absurd (hash_map-delete_ok k s e h);
}

abbrev key : PolicyKey
key = record { src_id = 1; dst_id = 2; dst_port = 80; proto = 6; pad = 0 }

abbrev deny : PolicyValue
deny = record { action = 1 }

-- the map that an earlier agent left
abbrev pinned : Table
pinned = (key, deny) ∷ []

pinned-IsIteration : IsIteration table table-IsMap pinned
unfolding table-IsMap HashMap.get
pinned-IsIteration k v = (out, λ h. inl (ground arith))
  where
    out : IsIn (ok (k, v)) (items pinned) → HashMap.get k pinned ≡ some v
    out (inl e) = ground arith
    out (inr h) = absurd h

abbrev start : PolicyBpfStateInner Table
start = record { cache = pinned; bpf_map = pinned }

started : try_new table pinned ≡ ok start
unfolding policies
started = refl

start-IsMirror : IsMirror table table-IsMap start
start-IsMirror = (try_new-IsMirror table table-IsMap pinned pinned-IsIteration started).1

update_delete_policy-Outcome_example :
    Outcome table table-IsMap key
      (some (record { action = 0 }))
      start
      (update_policy table key (record { action = 0 }) start)
    × Outcome table table-IsMap key none start (delete_policy table key start)
update_delete_policy-Outcome_example =
    update_delete_policy-Outcome table table-IsMap key (record { action = 0 }) start start-IsMirror

-- selectors are numbers, and each matches every set of labels
abbrev matcher : ℕ → Option (Labels → Bool)
matcher n = some (λ labels. true)

abbrev identity : Identity
identity = record { namespace = some "default"; namespace_labels = []; pod_labels = [] }

abbrev peer : NetworkPolicyPeer ℕ
peer = record { has_ip_block = false; pod_selector = some 1; namespace_selector = none }

abbrev rule : NetworkPolicyRule ℕ ℕ
rule = record { peers = some (peer ∷ []); ports = 80 }

abbrev policy : NetworkPolicy ℕ ℕ
policy = record {
  namespace = some "default";
  spec = some (record {
    pod_selector = some 1;
    policy_types = none;
    ingress = some (rule ∷ []);
    egress = some (rule ∷ []);
  });
}

rules_select_identity_iff_example :
    (IsIn rule (ingress_rules_select_identity matcher identity policy)
      ↔ IsSelected matcher PolicyType.ingress (λ spec. spec.ingress) rule identity policy)
    × (IsIn rule (egress_rules_select_identity matcher identity policy)
        ↔ IsSelected matcher PolicyType.egress (λ spec. spec.egress) rule identity policy)
rules_select_identity_iff_example = rules_select_identity_iff matcher rule identity policy
