-- ===== src/Identities.antt =====
-- mesh-cni-identity-controller/src/pod.rs, node.rs and controller.rs: the identities of the
-- addresses of pods and nodes, which the agent writes to the networks of Ip. Of the objects the
-- fields that the code reads are modelled; the stores of `kube` and the parsing of addresses are
-- parameters. A `BTreeMap` of labels is the list of its entries in the order of the keys.
pub mod Networks
pub mod Outcomes
pub mod Classified
use mesh_cni.Common.{IpAddr}
use mesh_cni.Ip.{NetworkLib, IpNetwork}
use mesh_cni.IdentityGen.{Labels, Identity, Namespace, sanitize_pod_labels, is_text}
use mesh_cni.Prelude.{
  ℕ, String, List, [], ◌∷◌, Option, some, none, Bool, true, false, ◌&&◌, if◌then◌else◌, filter_map,
}
use mesh_cni.Prelude.Result.{Result, ok, err}
use mesh_cni.Reconcile.{Action}
use Prim.Native.String.{◌++◌ as append}
use text.Mathlib.Text.{◌==◌ as str_eq}

-- The trait `IdentityBpfState`; `none` is a panic.
pub record IdentityBpfState (S N4 N6 : Type 0) : Type 0 where
  pub update : IpNetwork N4 N6 → ℕ → S → Option (Result (Unit {0}) × S)

pub record Pod : Type 0 where
  pub namespace : Option String
  pub labels : Labels
  -- `spec.host_network`
  pub host_network : Option (Option Bool)
  -- `status.pod_ips`
  pub pod_ips : Option (Option (List String))

pub record Node : Type 0 where
  pub name_any : String
  -- `status.addresses`
  pub addresses : Option (Option (List String))

-- `==` of two `BTreeMap`s
unfoldable pub labels_eq : Labels → Labels → Bool
labels_eq [] [] = true
labels_eq [] (_ ∷ _) = false
labels_eq (_ ∷ _) [] = false
labels_eq ((k, v) ∷ xs) ((j, w) ∷ ys) = (str_eq k j && str_eq v w) && labels_eq xs ys

unfoldable pub pod_namespace_labels_match : Identity → Pod → Namespace → Bool
pod_namespace_labels_match identity pod ns =
    labels_eq identity.spec.pod_labels (sanitize_pod_labels pod.labels)
    && labels_eq ns.labels identity.spec.namespace_labels

-- The closure of `find` in `reconcile` of a pod.
unfoldable pub selects : Namespace → Pod → Identity → Bool
selects ns pod identity =
    is_text identity.namespace ns.name_any && pod_namespace_labels_match identity pod ns

unfoldable pub find : {A : Type 0} → (A → Bool) → List A → Option A
find p [] = none
find p (x ∷ xs) = let rest = find p xs in if p x then some x else rest

unfoldable pub is_host_network : Option (Option Bool) → Bool
is_host_network none = false
is_host_network (some none) = false
is_host_network (some (some b)) = b

abbrev local_node_id : ℕ
local_node_id = 10

abbrev remote_node_id : ℕ
remote_node_id = 11

-- `DEFAULT_REQUEUE_DURATION`, in milliseconds.
abbrev default_requeue : ℕ
default_requeue = 300000

module _ (parse_ip : String → Option IpAddr) where
  -- `pod_ips` and `node_ips`
  unfoldable pub ips_of : Option (Option (List String)) → List IpAddr
  ips_of none = []
  ips_of (some none) = []
  ips_of (some (some texts)) = filter_map parse_ip texts

module _ {S N4 N6 : Type 0} (lib4 : NetworkLib N4 4 32) (lib6 : NetworkLib N6 16 128)
    (bpf_maps : IdentityBpfState S N4 N6) where
  abbrev as_v4 : Option N4 → Option (IpNetwork N4 N6)
  as_v4 none = none
  as_v4 (some n) = some (IpNetwork.v4 n)

  abbrev as_v6 : Option N6 → Option (IpNetwork N4 N6)
  as_v6 none = none
  as_v6 (some n) = some (IpNetwork.v6 n)

  -- `IpNetwork::new(ip, prefix)` with the prefix of a single address.
  unfoldable pub ip_net : IpAddr → Option (IpNetwork N4 N6)
  ip_net (IpAddr.v4 ip) = as_v4 (lib4.new ip 32)
  ip_net (IpAddr.v6 ip) = as_v6 (lib6.new ip 128)

  -- What follows an update in the loop.
  abbrev and_then_store :
      (S → Option (Result (Unit {0}) × S))
      → Option (Result (Unit {0}) × S)
      → Option (Result (Unit {0}) × S)
  and_then_store rest none = none
  and_then_store rest (some (ok _, s)) = rest s
  and_then_store rest (some (err e, s)) = some (err (append "update/delete error: " e), s)

  -- The loop over the addresses, in both controllers; the text of `IpNetworkError` is left out.
  unfoldable pub store_ips : ℕ → List IpAddr → S → Option (Result (Unit {0}) × S)
  store_ips id [] s = some (ok tt, s)
  store_ips id (ip ∷ rest) s = elim (ip_net ip) [
    | none ↦ some (err "invalid ip network construction", s)
    | some net ↦ and_then_store (store_ips id rest) (bpf_maps.update net id s)
  ]

  abbrev requeued : Option (Result (Unit {0}) × S) → Option (Result Action × S)
  requeued none = none
  requeued (some (ok _, s)) = some (ok (Action.requeue default_requeue), s)
  requeued (some (err e, s)) = some (err e, s)

  -- `reconcile` of a node.
  unfoldable pub reconcile_node :
      (String → Option IpAddr) → String → Node → S → Option (Result Action × S)
  reconcile_node parse_ip node_name node s = requeued (
      store_ips (if str_eq node.name_any node_name then local_node_id else remote_node_id)
        (ips_of parse_ip node.addresses) s)

  module _ (parse_ip : String → Option IpAddr) (get_namespace : String → Option Namespace)
      (identities : List Identity) where
    -- `reconcile` of a pod, from its namespace on.
    unfoldable pub reconcile_in : Pod → Namespace → S → Option (Result Action × S)
    reconcile_in pod ns s =
        if is_host_network pod.host_network
        then some (ok Action.await_change, s)
        else elim (find (selects ns pod) identities) [
          | none ↦ some (err "resource not found", s)
          | some identity ↦ requeued (store_ips identity.spec.id (ips_of parse_ip pod.pod_ips) s)
        ]

    -- `reconcile` of a pod.
    unfoldable pub reconcile_pod : Pod → S → Option (Result Action × S)
    reconcile_pod pod s = elim pod.namespace [
      | none ↦ some (err "encountered invalid resource", s)
      | some name ↦ elim (get_namespace name) [
        | none ↦ some (err "resource not found", s)
        | some ns ↦ reconcile_in pod ns s
      ]
    ]
