-- ===== src/Ip.antt =====
-- mesh-cni/src/bpf/ip/state.rs and convert.rs: the identity of each IP network, in an LPM trie
-- for each address family behind a cache. The crate `ipnetwork` is a parameter, `NetworkLib`.
pub mod Keys
pub mod Cache
use mesh_cni.BpfMap.{BpfMap}
use mesh_cni.Common.{IpAddr}
use mesh_cni.Prelude.{
  ℕ, ◌%◌, ◌^◌, ◌≤◌, ◌<◌, ◌≡◌, List, [], ◌∷◌, ◌++◌, map, Option, some, none, ite, ℕ_discrete,
}
use mesh_cni.Prelude.Bytes.{Endian, to_be, from_be}
use mesh_cni.Prelude.HashMap
use mesh_cni.Prelude.HashMap.{HashMap, Key}
use mesh_cni.Prelude.Result.{Result, ok, err, Proc}

-- `Ipv4Network` (bytes = 4, max_prefix = 32) and `Ipv6Network` (16, 128): an address and a prefix
-- length, which `new` accepts up to the width of the address.
pub record NetworkLib (N : Type 0) (bytes max_prefix : ℕ) : Type 0 where
  pub new : ℕ → ℕ → Option N
  pub ip : N → ℕ
  pub prefix : N → ℕ
  pub ip_lt : (n : N) → ip n < 256 ^ bytes
  pub prefix_le : (n : N) → prefix n ≤ max_prefix
  pub new_lem : (n : N) → new (ip n) (prefix n) ≡ some n
  pub new_some : (a p : ℕ) → a < 256 ^ bytes → p ≤ max_prefix → (n : N) × (new a p ≡ some n)
  pub new_parts : (a p : ℕ) (n : N) → new a p ≡ some n → (ip n ≡ a) × (prefix n ≡ p)

-- aya's `lpm_trie::Key`.
pub record LpmKey : Type 0 where
  pub prefix_len : ℕ
  pub payload : ℕ

unfoldable pub LpmKey-discrete : Discrete LpmKey
LpmKey-discrete = hlevel ℕ_discrete

instance abbrev pub lpm_key_eq : Key LpmKey
lpm_key_eq = record { same = LpmKey-discrete }

module _ {N : Type 0} {bytes max_prefix : ℕ} (lib : NetworkLib N bytes max_prefix)
    (e : Endian) where
  -- `ip4_key_to_network` and `ip6_key_to_network`; `none` is the panic of `unwrap`.
  unfoldable pub key_to_network : LpmKey → Option N
  key_to_network k = lib.new (from_be e bytes k.payload) (k.prefix_len % 2 ^ 8)

  -- The key that `IpNetworkState::update` makes of a network.
  unfoldable pub network_key : N → LpmKey
  network_key n = record { prefix_len = lib.prefix n; payload = to_be e bytes (lib.ip n) }

  -- The key that `IpNetworkState::delete` makes of an address.
  unfoldable pub host_key : ℕ → LpmKey
  host_key ip = record { prefix_len = max_prefix; payload = to_be e bytes ip }

-- `IpBpfStateV4` and `IpBpfStateV6`.
pub record IpBpfState (M N : Type 0) : Type 0 where
  pub cache : HashMap N ℕ
  pub bpf_map : M

unfoldable pub new_ip_state : {M N : Type 0} → M → IpBpfState M N
new_ip_state bpf_map = record { cache = []; bpf_map = bpf_map }

module _ {M N : Type 0} ⦃key : Key N⦄ {bytes max_prefix : ℕ} (lib : NetworkLib N bytes max_prefix)
    (e : Endian) (b : BpfMap M LpmKey ℕ N) where
  -- The `match` on the map's answer.
  unfoldable pub store : LpmKey → N → ℕ → Proc (IpBpfState M N) (Unit {0})
  store k network value st = elim (b.update k value st.bpf_map).0 [
    | ok _ ↦ (
      ok tt,
      record {
        cache = HashMap.insert network value st.cache;
        bpf_map = (b.update k value st.bpf_map).1;
      },
    )
    | err x ↦ (err x, record st { bpf_map = (b.update k value st.bpf_map).1 })
  ]

  -- `IpBpfStateV4::update`; `none` is a panic.
  unfoldable pub update : LpmKey → ℕ → IpBpfState M N → Option (Result (Unit {0}) × IpBpfState M N)
  update k value st = elim (key_to_network lib e k) [
    | none ↦ none
    | some network ↦ elim (HashMap.get network st.cache) [
      | none ↦ some (store k network value st)
      | some current ↦
          ite (ℕ_discrete current value) (some (ok tt, st)) (some (store k network value st))
    ]
  ]

  unfoldable pub delete : LpmKey → IpBpfState M N → Option (Result (Unit {0}) × IpBpfState M N)
  delete k st = elim (b.delete k st.bpf_map).0 [
    | err x ↦ some (err x, record st { bpf_map = (b.delete k st.bpf_map).1 })
    | ok _ ↦ elim (key_to_network lib e k) [
      | none ↦ none
      | some network ↦ some (
        ok tt,
        record { cache = HashMap.remove network st.cache; bpf_map = (b.delete k st.bpf_map).1 },
      )
    ]
  ]

pub data IpNetwork (N4 N6 : Type 0) : Type 0 where
  v4 : N4 → IpNetwork N4 N6
  v6 : N6 → IpNetwork N4 N6

-- `IpNetworkState`, behind its mutex.
pub record State (M4 M6 N4 N6 : Type 0) : Type 0 where
  pub ipv4_state : IpBpfState M4 N4
  pub ipv6_state : IpBpfState M6 N6

module _ {M4 M6 N4 N6 : Type 0} ⦃key4 : Key N4⦄ ⦃key6 : Key N6⦄ (lib4 : NetworkLib N4 4 32)
    (lib6 : NetworkLib N6 16 128) (e : Endian) (b4 : BpfMap M4 LpmKey ℕ N4)
    (b6 : BpfMap M6 LpmKey ℕ N6) where
  unfoldable pub with_v4 :
      State M4 M6 N4 N6
      → Option (Result (Unit {0}) × IpBpfState M4 N4)
      → Option (Result (Unit {0}) × State M4 M6 N4 N6)
  with_v4 s none = none
  with_v4 s (some (r, t)) = some (r, record s { ipv4_state = t })

  unfoldable pub with_v6 :
      State M4 M6 N4 N6
      → Option (Result (Unit {0}) × IpBpfState M6 N6)
      → Option (Result (Unit {0}) × State M4 M6 N4 N6)
  with_v6 s none = none
  with_v6 s (some (r, t)) = some (r, record s { ipv6_state = t })

  -- `IpNetworkState::update`
  unfoldable pub update_network :
      IpNetwork N4 N6 → ℕ → State M4 M6 N4 N6 → Option (Result (Unit {0}) × State M4 M6 N4 N6)
  update_network (IpNetwork.v4 n) id s =
      with_v4 s (update lib4 e b4 (network_key lib4 e n) id s.ipv4_state)
  update_network (IpNetwork.v6 n) id s =
      with_v6 s (update lib6 e b6 (network_key lib6 e n) id s.ipv6_state)

  -- `IpNetworkState::delete`
  unfoldable pub delete_address :
      IpAddr → State M4 M6 N4 N6 → Option (Result (Unit {0}) × State M4 M6 N4 N6)
  delete_address (IpAddr.v4 ip) s = with_v4 s (delete lib4 e b4 (host_key lib4 e ip) s.ipv4_state)
  delete_address (IpAddr.v6 ip) s = with_v6 s (delete lib6 e b6 (host_key lib6 e ip) s.ipv6_state)

-- `IpNetworkState::state`
unfoldable pub networks : {M4 M6 N4 N6 : Type 0} → State M4 M6 N4 N6 → List (IpNetwork N4 N6 × ℕ)
networks s =
    map (λ r. (IpNetwork.v4 r.0, r.1)) s.ipv4_state.cache
    ++ map (λ r. (IpNetwork.v6 r.0, r.1)) s.ipv6_state.cache
