-- ===== src/Identities/Classified.antt =====
-- What the traffic classifier finds after the controller of pods.
use mesh_cni.BpfMap.Laws.{IsMap}
use mesh_cni.BpfMap.{BpfMap}
use mesh_cni.Common.{IpAddr}
use mesh_cni.Conntrack.{identity}
use mesh_cni.Identities.Networks.{network_state, BothMirror, StoredAll}
use mesh_cni.Identities.Outcomes.{Assigned, PodOutcome, reconcile_pod-PodOutcome}
use mesh_cni.Identities.{Pod, ips_of, ip_net, reconcile_pod, selects, find}
use mesh_cni.IdentityGen.{Identity, Namespace}
use mesh_cni.Ip.Keys.{host_key-network_key}
use mesh_cni.Ip.{NetworkLib, LpmKey, lpm_key_eq, IpNetwork, State, host_key}
use mesh_cni.Prelude.{ℕ, ◌^◌, ◌<◌, String, List, Option, some, ◌≡◌, refl, sym, ap, ◌∙◌, IsIn, arith}
use mesh_cni.Prelude.Bytes.{Endian}
use mesh_cni.Prelude.HashMap
use mesh_cni.Prelude.HashMap.{Key}
use mesh_cni.Prelude.Result.{Result, ok}
use mesh_cni.Reconcile.{Action}

module _ {M4 M6 N4 N6 : Type 0} ⦃key4 : Key N4⦄ ⦃key6 : Key N6⦄ (lib4 : NetworkLib N4 4 32)
    (lib6 : NetworkLib N6 16 128) (e : Endian) {b4 : BpfMap M4 LpmKey ℕ N4}
    {b6 : BpfMap M6 LpmKey ℕ N6} (laws4 : IsMap b4) (laws6 : IsMap b6) where
  -- The lookup of the trie in the kernel: a key of full length finds its own entry before any
  -- shorter prefix.
  abbrev pub IsLookup : (M4 → LpmKey → Option ℕ) → Type 0
  IsLookup lookup =
      (m : M4) (k : LpmKey) (id : ℕ)
      → k.prefix_len ≡ 32
      → laws4.view m k ≡ some id
      → lookup m k ≡ some id

  module _ (lookup : M4 → LpmKey → Option ℕ) (finds : IsLookup lookup) where
    -- What was stored for an address is what the classifier finds for it.
    identity-StoredAll :
        (ips : List IpAddr) (id : ℕ) (s t : State M4 M6 N4 N6) (ip : ℕ)
        → StoredAll lib4 lib6 e laws4 laws6 ips id s Unit t
        → IsIn (IpAddr.v4 ip) ips
        → ip < 256 ^ 4
        → identity (lookup t.ipv4_state.bpf_map) e ip ≡ some id
    unfolding identity host_key ip_net
    identity-StoredAll ips id s t ip all i small =
        let (n, new) = lib4.new_some ip 32 small (omega arith) in
        let stored : HashMap.get n t.ipv4_state.cache ≡ some id =
          all.stored tt (IpNetwork.v4 n) (IpAddr.v4 ip, i, rw new) in
        let in_trie = all.mirrors.0 n in
        let at : host_key lib4 e ip ≡ _ = host_key-network_key lib4 e ip n new in
        finds t.ipv4_state.bpf_map (host_key lib4 e ip) id refl
          (ap (laws4.view t.ipv4_state.bpf_map) at ∙ in_trie ∙ stored)

    module _ (parse_ip : String → Option IpAddr) (get_namespace : String → Option Namespace)
        (identities : List Identity) where
      -- From caches that mirror the tries: once the controller of pods has handled a pod that has
      -- its own network and asks to be called again, the classifier finds for each IPv4 address of
      -- the pod the identity of the pod, which is the first that matches the pod's labels in the
      -- namespace that the store has under the pod's own.
      pub identity-reconcile_pod :
          (pod : Pod) (s t : State M4 M6 N4 N6) (ip : ℕ)
          → BothMirror lib4 lib6 e laws4 laws6 s
          → reconcile_pod lib4 lib6
              (network_state lib4 lib6 e laws4 laws6)
              parse_ip
              get_namespace
              identities
              pod
              s
            ≡ some (ok (Action.requeue 300000), t)
          → IsIn (IpAddr.v4 ip) (ips_of parse_ip pod.pod_ips)
          → ip < 256 ^ 4
          → (name : String) × (ns : Namespace) × (i : Identity) × (pod.namespace ≡ some name)
            × (get_namespace name ≡ some ns)
            × (find (selects ns pod) identities ≡ some i)
            × (identity (lookup t.ipv4_state.bpf_map) e ip ≡ some i.spec.id)
      identity-reconcile_pod pod s t ip h done listed small =
          let (r, q, outcome) =
            reconcile_pod-PodOutcome lib4 lib6 e laws4 laws6 parse_ip get_namespace identities pod s
              h in
          let same : r ≡ (ok (Action.requeue 300000), t) = cc in go r outcome same
        where
          Goal : Type 0
          Goal =
              (name : String) × (ns : Namespace) × (i : Identity) × (pod.namespace ≡ some name)
              × (get_namespace name ≡ some ns)
              × (find (selects ns pod) identities ≡ some i)
              × (identity (lookup t.ipv4_state.bpf_map) e ip ≡ some i.spec.id)

          on_assigned :
              (name : String) (ns : Namespace) (i : Identity)
              (r : Result Action × State M4 M6 N4 N6)
              → pod.namespace ≡ some name
              → get_namespace name ≡ some ns
              → find (selects ns pod) identities ≡ some i
              → Assigned lib4 lib6 e laws4 laws6 parse_ip
                  (ips_of parse_ip pod.pod_ips)
                  i.spec.id
                  s
                  r
              → r ≡ (ok (Action.requeue 300000), t)
              → Goal
          on_assigned name ns i _ named found first (Assigned.done {t = u} all) same =
              let at : u ≡ t = ap (λ x. x.1) same in
              (
                name,
                ns,
                i,
                named,
                found,
                first,
                ap (λ (w : State M4 M6 N4 N6). identity (lookup w.ipv4_state.bpf_map) e ip) (sym at)
                    ∙ identity-StoredAll (ips_of parse_ip pod.pod_ips) i.spec.id s u ip all listed
                        small,
              )
          on_assigned name ns i _ named found first (Assigned.stopped all) same =
              let wrong = ap (λ x. x.0) same in absurd (cc)

          go :
              (r : Result Action × State M4 M6 N4 N6)
              → PodOutcome lib4 lib6 e laws4 laws6 parse_ip get_namespace identities pod s r
              → r ≡ (ok (Action.requeue 300000), t)
              → Goal
          go r
                (PodOutcome.assigned {name = name} {ns = ns} {identity = i} named found own first
                  all)
                same =
              on_assigned name ns i r named found first all same
          go _ (PodOutcome.on_host_network host) same =
              let wrong = ap (λ x. x.0) same in absurd (cc)
          go _ (PodOutcome.no_namespace x) same = let wrong = ap (λ x. x.0) same in absurd (cc)
          go _ (PodOutcome.unknown_namespace x y) same =
              let wrong = ap (λ x. x.0) same in absurd (cc)
          go _ (PodOutcome.no_identity x y z) same = let wrong = ap (λ x. x.0) same in absurd (cc)
