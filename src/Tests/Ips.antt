-- ===== src/Tests/Ips.antt =====
-- Identities of IPv4 networks.
use mesh_cni.BpfMap.Laws.{IsMap}
use mesh_cni.BpfMap.{BpfMap}
use mesh_cni.Ip.{NetworkLib, LpmKey, lpm_key_eq, IpBpfState, network_key, host_key, key_to_network}
use mesh_cni.Ip
use mesh_cni.Ip.Cache.{same_key, IsMirror, Outcome, delete-Outcome}
use mesh_cni.Prelude.{ℕ, [], ◌∷◌, some, none, ◌≡◌, refl, arith}
use mesh_cni.Tests.Nets.{Net, Trie, network_lib, net_key, trie, trie-IsMap}
use mesh_cni.Prelude.Bytes.{Endian}
use mesh_cni.Prelude.HashMap
use mesh_cni.Prelude.HashMap.{HashMap, Key}
use mesh_cni.Prelude.Result.{Result}

abbrev Net4 : Type 0
Net4 = Net 4 32

instance abbrev net4_key : Key Net4
net4_key = net_key 4 32

abbrev ipv4 : NetworkLib Net4 4 32
ipv4 = network_lib 4 32

abbrev trie4 : BpfMap Trie LpmKey ℕ Net4
trie4 = trie 4 32

abbrev trie4-IsMap : IsMap trie4
trie4-IsMap = trie-IsMap 4 32

-- 10.0.0.1/32
abbrev host : Net4
host = ((0x0a000001, 32), (omega arith, omega arith))

abbrev empty : IpBpfState Trie Net4
empty = record { cache = []; bpf_map = [] }

empty-IsMirror : IsMirror ipv4 (omega arith) Endian.little trie4-IsMap empty
unfolding HashMap.get
empty-IsMirror n = refl

-- the trie with the identity of the host
abbrev with_host : IpBpfState Trie Net4
with_host = record {
  cache = (host, 7) ∷ [];
  bpf_map = (network_key ipv4 Endian.little host, 7) ∷ [];
}

new_host : ipv4.new 0x0a000001 32 ≡ some host
new_host = ipv4.new_lem host

with_host-IsMirror : IsMirror ipv4 (omega arith) Endian.little trie4-IsMap with_host
unfolding HashMap.get
with_host-IsMirror n = same_key ipv4 (omega arith) Endian.little trie4-IsMap host n (some 7) none

delete-Outcome_example :
    (r : Result (Unit {0}) × IpBpfState Trie Net4) × (Ip.delete ipv4 Endian.little trie4
        (host_key ipv4 Endian.little 0x0a000001)
        with_host
      ≡ some r)
    × Outcome ipv4 (omega arith) Endian.little trie4-IsMap host none with_host r
delete-Outcome_example =
    delete-Outcome ipv4 (omega arith) Endian.little trie4-IsMap 0x0a000001 host with_host new_host
      with_host-IsMirror
