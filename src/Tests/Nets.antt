-- ===== src/Tests/Nets.antt =====
-- The crate `ipnetwork` as pairs of an address and a prefix length in range, for both families, and
-- a trie that takes every key.
use mesh_cni.BpfMap.Laws.{IsMap, hash_map-IsMap}
use mesh_cni.BpfMap.{BpfMap, hash_map}
use mesh_cni.Ip.{NetworkLib, LpmKey, lpm_key_eq}
use mesh_cni.Prelude.{
  ℕ, ◌^◌, ◌<◌, ◌≤◌, [], Option, some, none, ◌≡◌, refl, sym, ap, dec_lt, dec_le, ℕ_discrete,
}
use mesh_cni.Prelude.HashMap.{HashMap, Key}
use mesh_cni.Prelude.Result.{ok}
use mathlib.Core.HLevel.{Σ_prop_path}
use native.Mathlib.Bridge.{le_prop}

pair-discrete : Discrete (ℕ × ℕ)
pair-discrete = hlevel ℕ_discrete

abbrev pub Trie : Type 0
Trie = HashMap LpmKey ℕ

module _ (bytes max_prefix : ℕ) where
  abbrev pub Net : Type 0
  Net = (x : ℕ × ℕ) × ((x.0 < 256 ^ bytes) × (x.1 ≤ max_prefix))

  same_net : (m n : Net) → m.0 ≡ n.0 → m ≡ n
  same_net m n e = Σ_prop_path (λ x. hlevel (le_prop)) e

  unfoldable pub net-discrete : Discrete Net
  unfolding pair-discrete same_net
  net-discrete m n = elim (pair-discrete m.0 n.0) [
    | yes e ↦ yes (same_net m n e)
    | no f ↦ no (λ e. f (ap (λ (x : Net). x.0) e))
  ]

  make : (a p : ℕ) → Dec (a < 256 ^ bytes) → Dec (p ≤ max_prefix) → Option Net
  make a p (yes h) (yes g) = some ((a, p), (h, g))
  make a p (yes h) (no _) = none
  make a p (no _) _ = none

  unfoldable pub net_new : ℕ → ℕ → Option Net
  unfolding make
  net_new a p = make a p (dec_lt a (256 ^ bytes)) (dec_le p max_prefix)

  make-some :
      (a p : ℕ) (d : Dec (a < 256 ^ bytes)) (f : Dec (p ≤ max_prefix)) (h : a < 256 ^ bytes)
      (g : p ≤ max_prefix)
      → make a p d f ≡ some ((a, p), (h, g))
  unfolding make
  make-some a p (yes h') (yes g') h g = ap some (same_net _ _ refl)
  make-some a p (yes h') (no f) h g = absurd (f g)
  make-some a p (no f) d h g = absurd (f h)

  make-parts :
      (a p : ℕ) (d : Dec (a < 256 ^ bytes)) (f : Dec (p ≤ max_prefix)) (n : Net)
      → make a p d f ≡ some n
      → ((n.0).0 ≡ a) × ((n.0).1 ≡ p)
  unfolding make
  make-parts a p (yes h) (yes g) n e =
      let same : ((a, p), (h, g)) ≡ n = cc in
      (ap (λ (x : Net). (x.0).0) (sym same), ap (λ (x : Net). (x.0).1) (sym same))
  make-parts a p (yes h) (no _) n e = absurd (cc)
  make-parts a p (no _) d n e = absurd (cc)

  pub net_new_self : (n : Net) → net_new (n.0).0 (n.0).1 ≡ some n
  unfolding net_new
  net_new_self n =
      make-some (n.0).0 (n.0).1 (dec_lt (n.0).0 (256 ^ bytes)) (dec_le (n.0).1 max_prefix) (n.1).0
        (n.1).1

  pub net_new-some :
      (a p : ℕ) → a < 256 ^ bytes → p ≤ max_prefix → (n : Net) × (net_new a p ≡ some n)
  unfolding net_new
  net_new-some a p h g =
      (((a, p), (h, g)), make-some a p (dec_lt a (256 ^ bytes)) (dec_le p max_prefix) h g)

  pub net_new-parts : (a p : ℕ) (n : Net) → net_new a p ≡ some n → ((n.0).0 ≡ a) × ((n.0).1 ≡ p)
  unfolding net_new
  net_new-parts a p n e = make-parts a p (dec_lt a (256 ^ bytes)) (dec_le p max_prefix) n e

  -- `Ipv4Network` at 4 and 32, `Ipv6Network` at 16 and 128
  abbrev pub network_lib : NetworkLib Net bytes max_prefix
  network_lib = record {
    new = net_new;
    ip = λ n. (n.0).0;
    prefix = λ n. (n.0).1;
    ip_lt = λ n. (n.1).0;
    prefix_le = λ n. (n.1).1;
    new_lem = net_new_self;
    new_some = net_new-some;
    new_parts = net_new-parts;
  }

  abbrev pub net_key : Key Net
  net_key = record { same = net-discrete }

  abbrev pub trie : BpfMap Trie LpmKey ℕ Net
  trie = record {
    update = hash_map.update;
    delete = hash_map.delete;
    get = hash_map.get;
    get_state = λ m. ok [];
  }

  abbrev pub trie-IsMap : IsMap trie
  trie-IsMap = record {
    view = hash_map-IsMap.view;
    update_ok = hash_map-IsMap.update_ok;
    update_err = hash_map-IsMap.update_err;
    delete_ok = hash_map-IsMap.delete_ok;
    delete_err = hash_map-IsMap.delete_err;
  }
