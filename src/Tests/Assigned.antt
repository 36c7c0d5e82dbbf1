-- ===== src/Tests/Assigned.antt =====
-- The identities of a pod and of the agent's own node, both at 10.0.0.1.
use mesh_cni.BpfMap.{hash_map}
use mesh_cni.Common.{IpAddr}
use mesh_cni.Conntrack.{identity}
use mesh_cni.Identities.Classified.{identity-reconcile_pod}
use mesh_cni.Identities.Networks.{network_state, BothMirror}
use mesh_cni.Identities.Outcomes.{
  Assigned, reconcile_node-Assigned, PodOutcome, reconcile_pod-PodOutcome,
}
use mesh_cni.Identities.{
  Pod, Node, reconcile_node, reconcile_pod, reconcile_in, store_ips, selects, find, ips_of, ip_net,
  is_host_network, labels_eq, pod_namespace_labels_match,
}
use mesh_cni.IdentityGen.{Identity, Namespace, sanitize_pod_labels, remove_label}
use mesh_cni.Ip.{
  State, update_network, with_v4, store, key_to_network, network_key, LpmKey, lpm_key_eq,
  LpmKey-discrete,
}
use mesh_cni.Ip
use mesh_cni.Prelude.{
  IsIn, inl, arith, ℕ, dec_lt, dec_le, ℕ_discrete, String, List, [], ◌∷◌, Option, some, none, ◌≡◌,
  refl, if◌then◌else◌,
}
use mesh_cni.Prelude.Bytes.{Endian, to_be, swap_bytes}
use mesh_cni.Prelude.HashMap
use mesh_cni.Prelude.HashMap.{Key}
use mesh_cni.Prelude.Result.{Result, ok}
use mesh_cni.Reconcile.{Action}
use mesh_cni.Tests.Nets.{Net, Trie, network_lib, net_key, net_new, net-discrete, trie-IsMap}
use text.Mathlib.Text.{◌==◌ as str_eq}

instance abbrev net4_key : Key (Net 4 32)
net4_key = net_key 4 32

instance abbrev net6_key : Key (Net 16 128)
net6_key = net_key 16 128

abbrev Networks : Type 0
Networks = State Trie Trie (Net 4 32) (Net 16 128)

abbrev empty : Networks
empty = record {
  ipv4_state = record { cache = []; bpf_map = [] };
  ipv6_state = record { cache = []; bpf_map = [] };
}

abbrev parse_ip : String → Option IpAddr
parse_ip text = if str_eq text "10.0.0.1" then some (IpAddr.v4 0x0a000001) else none

abbrev mirror :
    BothMirror
      (network_lib 4 32)
      (network_lib 16 128)
      Endian.little
      (trie-IsMap 4 32)
      (trie-IsMap 16 128)
      empty
unfolding HashMap.get
mirror = (λ n. refl, λ n. refl)

abbrev shop : Namespace
shop = record { name_any = "shop"; labels = [] }

abbrev stored : List Identity
stored =
    record {
      name = some "i";
      namespace = some "shop";
      spec = record { namespace_labels = []; pod_labels = ("app", "web") ∷ []; id = 130 };
    }
    ∷ []

abbrev web_pod : Pod
web_pod = record {
  namespace = some "shop";
  labels = ("app", "web") ∷ ("pod-template-hash", "x1") ∷ [];
  host_network = some none;
  pod_ips = some (some ("10.0.0.1" ∷ []));
}

reconcile_pod-PodOutcome_example :
    (r : Result Action × Networks) × (reconcile_pod
        (network_lib 4 32)
        (network_lib 16 128)
        (network_state
          (network_lib 4 32)
          (network_lib 16 128)
          Endian.little
          (trie-IsMap 4 32)
          (trie-IsMap 16 128))
        parse_ip
        (λ name. some shop)
        stored
        web_pod
        empty
      ≡ some r)
    × PodOutcome
        (network_lib 4 32)
        (network_lib 16 128)
        Endian.little
        (trie-IsMap 4 32)
        (trie-IsMap 16 128)
        parse_ip
        (λ name. some shop)
        stored
        web_pod
        empty
        r
reconcile_pod-PodOutcome_example =
    reconcile_pod-PodOutcome (network_lib 4 32) (network_lib 16 128) Endian.little (trie-IsMap 4 32)
      (trie-IsMap 16 128) parse_ip (λ name. some shop) stored web_pod empty mirror

abbrev own_node : Node
own_node = record { name_any = "node-a"; addresses = some (some ("10.0.0.1" ∷ [])) }

reconcile_node-Assigned_example :
    (r : Result Action × Networks) × (reconcile_node
        (network_lib 4 32)
        (network_lib 16 128)
        (network_state
          (network_lib 4 32)
          (network_lib 16 128)
          Endian.little
          (trie-IsMap 4 32)
          (trie-IsMap 16 128))
        parse_ip
        "node-a"
        own_node
        empty
      ≡ some r)
    × Assigned
        (network_lib 4 32)
        (network_lib 16 128)
        Endian.little
        (trie-IsMap 4 32)
        (trie-IsMap 16 128)
        parse_ip
        (ips_of parse_ip own_node.addresses)
        10
        empty
        r
reconcile_node-Assigned_example =
    reconcile_node-Assigned (network_lib 4 32) (network_lib 16 128) Endian.little (trie-IsMap 4 32)
      (trie-IsMap 16 128) parse_ip "node-a" own_node empty mirror

abbrev handled : Option (Result Action × Networks)
handled =
    reconcile_pod (network_lib 4 32) (network_lib 16 128)
      (network_state (network_lib 4 32) (network_lib 16 128) Endian.little (trie-IsMap 4 32)
        (trie-IsMap 16 128))
      parse_ip (λ name. some shop) stored web_pod empty

abbrev with_pod : Networks
with_pod = elim handled [ some r ↦ r.1 | none ↦ empty ]

controlling : Unit {0}
unfolding reconcile_pod reconcile_in store_ips selects find ips_of ip_net is_host_network labels_eq
    pod_namespace_labels_match update_network with_v4 Ip.update store key_to_network network_key
    net_new HashMap.get HashMap.insert net-discrete hash_map sanitize_pod_labels remove_label to_be
    swap_bytes dec_lt dec_le ℕ_discrete
controlling = tt

requeues : handled ≡ some (ok (Action.requeue 300000), with_pod)
unfolding controlling
requeues = refl

listed : IsIn (IpAddr.v4 0x0a000001) (ips_of parse_ip web_pod.pod_ips)
unfolding controlling
listed = inl refl

-- The lookup of the trie, where no key is a prefix of another.
abbrev lookup : Trie → LpmKey → Option ℕ
lookup m k = (trie-IsMap 4 32).view m k

identity-reconcile_pod_example :
    (name : String) × (ns : Namespace) × (i : Identity) × (web_pod.namespace ≡ some name)
    × (Path (Option Namespace) (some shop) (some ns))
    × (find (selects ns web_pod) stored ≡ some i)
    × (identity (lookup with_pod.ipv4_state.bpf_map) Endian.little 0x0a000001 ≡ some i.spec.id)
identity-reconcile_pod_example =
    identity-reconcile_pod (network_lib 4 32) (network_lib 16 128) Endian.little (trie-IsMap 4 32)
      (trie-IsMap 16 128) lookup (λ m k id full h. h) parse_ip (λ name. some shop) stored web_pod
      empty with_pod 0x0a000001 mirror requeues listed (omega arith)
