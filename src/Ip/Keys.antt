-- ===== src/Ip/Keys.antt =====
-- Networks and their keys in the LPM trie.
use mesh_cni.Ip.{NetworkLib, key_to_network, network_key, host_key}
use mesh_cni.Prelude.{ℕ, ◌%◌, ◌^◌, ◌<◌, ◌≡◌, some, ap, sym, arith}
use mesh_cni.Prelude.Bytes.{Endian, from_be-to_be}

module _ {N : Type 0} {bytes max_prefix : ℕ} (lib : NetworkLib N bytes max_prefix)
    (e : Endian) where
  -- A network is recovered from its key, on a machine of either byte order, if prefix lengths
  -- fit a byte: the `unwrap` in `ip4_key_to_network` and `ip6_key_to_network` does not panic.
  pub key_to_network-network_key :
      (n : N) → max_prefix < 256 → key_to_network lib e (network_key lib e n) ≡ some n
  unfolding key_to_network network_key
  key_to_network-network_key n small =
      let p : lib.prefix n % 2 ^ 8 ≡ lib.prefix n = omega (arith, lib.prefix_le n) in
      rw (key_to_network, network_key, from_be-to_be e bytes (lib.ip n) (lib.ip_lt n), p)
        (lib.new_lem n)

  pub network_key-injective :
      (n m : N) → max_prefix < 256 → network_key lib e n ≡ network_key lib e m → n ≡ m
  network_key-injective n m small h =
      let a = key_to_network-network_key n small in
      let b = key_to_network-network_key m small in cc (sym a, ap (key_to_network lib e) h, b)

  -- The key of an address alone is that of its network of full length.
  pub host_key-network_key :
      (ip : ℕ) (n : N) → lib.new ip max_prefix ≡ some n → host_key lib e ip ≡ network_key lib e n
  unfolding host_key network_key
  host_key-network_key ip n h = let (a, p) = lib.new_parts ip max_prefix n h in rw (a, p)
