-- ===== src/Identities/Outcomes.antt =====
-- What the controllers of pods and nodes leave in the state of Ip.
use mesh_cni.BpfMap.Laws.{IsMap}
use mesh_cni.BpfMap.{BpfMap}
use mesh_cni.Common.{IpAddr}
use mesh_cni.Identities.Networks.{network_state, BothMirror, StoredAll, store_ips-StoredAll}
use mesh_cni.Identities.{
  Pod, Node, store_ips, ips_of, reconcile_node, reconcile_pod, reconcile_in, selects, find,
  is_host_network, requeued,
}
use mesh_cni.IdentityGen.{Identity, Namespace}
use mesh_cni.Ip.{NetworkLib, LpmKey, lpm_key_eq, State}
use mesh_cni.Prelude.{
  ℕ, String, List, Option, some, none, true, false, ◌≡◌, refl, inl, inr, Option-cases, Bool-cases,
  if◌then◌else◌,
}
use mesh_cni.Prelude.Bytes.{Endian}
use mesh_cni.Prelude.HashMap.{Key}
use mesh_cni.Prelude.Result.{Result, ok, err}
use mesh_cni.Reconcile.{Action}
use text.Mathlib.Text.{◌==◌ as str_eq}

module _ {M4 M6 N4 N6 : Type 0} ⦃key4 : Key N4⦄ ⦃key6 : Key N6⦄ (lib4 : NetworkLib N4 4 32)
    (lib6 : NetworkLib N6 16 128) (e : Endian) {b4 : BpfMap M4 LpmKey ℕ N4}
    {b6 : BpfMap M6 LpmKey ℕ N6} (laws4 : IsMap b4) (laws6 : IsMap b6)
    (parse_ip : String → Option IpAddr) where
  -- A controller that is done with all addresses, or stopped at one.
  pub data Assigned (ips : List IpAddr) (id : ℕ) (s : State M4 M6 N4 N6)
      : Result Action × State M4 M6 N4 N6 → Type 0 where
    done :
        {t : State M4 M6 N4 N6}
        → StoredAll lib4 lib6 e laws4 laws6 ips id s Unit t
        → Assigned ips id s (ok (Action.requeue 300000), t)
    stopped :
        {x : String} {t : State M4 M6 N4 N6}
        → StoredAll lib4 lib6 e laws4 laws6 ips id s ⊥ t
        → Assigned ips id s (err x, t)

  requeued-Assigned :
      (ips : List IpAddr) (id : ℕ) (s : State M4 M6 N4 N6)
      → BothMirror lib4 lib6 e laws4 laws6 s
      → (r : Result Action × State M4 M6 N4 N6) × (requeued lib4 lib6
            (network_state lib4 lib6 e laws4 laws6)
            (store_ips lib4 lib6 (network_state lib4 lib6 e laws4 laws6) id ips s)
          ≡ some r)
        × Assigned ips id s r
  requeued-Assigned ips id s h =
      let (r, p, all) = store_ips-StoredAll lib4 lib6 e laws4 laws6 id ips s h in rw p (go r all)
    where
      go :
          (r : Result (Unit {0}) × State M4 M6 N4 N6)
          → StoredAll lib4 lib6 e laws4 laws6 ips id s (r.0 ≡ ok tt) r.1
          → (r' : Result Action × State M4 M6 N4 N6) × (requeued lib4 lib6
                (network_state lib4 lib6 e laws4 laws6)
                (some r)
              ≡ some r')
            × Assigned ips id s r'
      go (ok a, t) all = (
        (ok (Action.requeue 300000), t),
        refl,
        Assigned.done (record {
          mirrors = all.mirrors;
          kept = all.kept;
          others = all.others;
          stored = λ _. all.stored refl;
        }),
      )
      go (err x, t) all = (
        (err x, t),
        refl,
        Assigned.stopped (record {
          mirrors = all.mirrors;
          kept = all.kept;
          others = all.others;
          stored = λ h. absurd h;
        }),
      )

  -- From caches that mirror the tries, the controller of nodes never panics and keeps them so. If
  -- it returns `Ok`, each address of the node that parses has identity 10 on the node's own agent
  -- and 11 on the others, and no other network has changed; on an error no network outside the
  -- node's addresses has changed.
  pub reconcile_node-Assigned :
      (node_name : String) (node : Node) (s : State M4 M6 N4 N6)
      → BothMirror lib4 lib6 e laws4 laws6 s
      → (r : Result Action × State M4 M6 N4 N6) × (reconcile_node lib4 lib6
            (network_state lib4 lib6 e laws4 laws6)
            parse_ip
            node_name
            node
            s
          ≡ some r)
        × Assigned
            (ips_of parse_ip node.addresses)
            (if str_eq node.name_any node_name then 10 else 11)
            s
            r
  unfolding reconcile_node
  reconcile_node-Assigned node_name node s h =
      requeued-Assigned (ips_of parse_ip node.addresses)
        (if str_eq node.name_any node_name then 10 else 11) s h

  module _ (get_namespace : String → Option Namespace) (identities : List Identity) where
    pub data PodOutcome (pod : Pod) (s : State M4 M6 N4 N6)
        : Result Action × State M4 M6 N4 N6 → Type 0 where
      assigned :
          {r : Result Action × State M4 M6 N4 N6} {name : String} {ns : Namespace}
          {identity : Identity}
          → pod.namespace ≡ some name
          → get_namespace name ≡ some ns
          → is_host_network pod.host_network ≡ false
          → find (selects ns pod) identities ≡ some identity
          → Assigned (ips_of parse_ip pod.pod_ips) identity.spec.id s r
          → PodOutcome pod s r
      on_host_network :
          is_host_network pod.host_network ≡ true → PodOutcome pod s (ok Action.await_change, s)
      no_namespace : pod.namespace ≡ none → PodOutcome pod s (err "encountered invalid resource", s)
      unknown_namespace :
          {name : String}
          → pod.namespace ≡ some name
          → get_namespace name ≡ none
          → PodOutcome pod s (err "resource not found", s)
      no_identity :
          {name : String} {ns : Namespace}
          → pod.namespace ≡ some name
          → get_namespace name ≡ some ns
          → find (selects ns pod) identities ≡ none
          → PodOutcome pod s (err "resource not found", s)

    -- From caches that mirror the tries, the controller of pods never panics. It gives the
    -- addresses of a pod the identity in the pod's namespace that is the first to match its labels,
    -- as for nodes. A pod on the host's network, one whose namespace is not known and one that no
    -- identity matches change nothing; the last two are errors.
    pub reconcile_pod-PodOutcome :
        (pod : Pod) (s : State M4 M6 N4 N6)
        → BothMirror lib4 lib6 e laws4 laws6 s
        → (r : Result Action × State M4 M6 N4 N6) × (reconcile_pod lib4 lib6
              (network_state lib4 lib6 e laws4 laws6)
              parse_ip
              get_namespace
              identities
              pod
              s
            ≡ some r)
          × PodOutcome pod s r
    unfolding reconcile_pod reconcile_in
    reconcile_pod-PodOutcome pod s h = elim (Option-cases pod.namespace) [
      | inl absent ↦ (
        (err "encountered invalid resource", s),
        rw (absent, reconcile_pod),
        PodOutcome.no_namespace absent,
      )
      | inr (name, named) ↦ elim (Option-cases (get_namespace name)) [
        | inl absent ↦ (
          (err "resource not found", s),
          rw (named, reconcile_pod, absent),
          PodOutcome.unknown_namespace named absent,
        )
        | inr (ns, found) ↦ elim (Bool-cases (is_host_network pod.host_network)) [
          | inl host ↦ (
            (ok Action.await_change, s),
            rw (named, reconcile_pod, found, host),
            PodOutcome.on_host_network host,
          )
          | inr own ↦ elim (Option-cases (find (selects ns pod) identities)) [
            | inl absent ↦ (
              (err "resource not found", s),
              rw (named, reconcile_pod, found, own, absent),
              PodOutcome.no_identity named found absent,
            )
            | inr (identity, first) ↦
                let (r, p, all) =
                  requeued-Assigned (ips_of parse_ip pod.pod_ips) identity.spec.id s h in
                (
                  r,
                  rw (named, reconcile_pod, found, own, first) p,
                  PodOutcome.assigned named found own first all,
                )
          ]
        ]
      ]
    ]
