-- ===== src/Ip/Cache.antt =====
-- The cache of `IpBpfState` and the trie behind it. The trie is taken to keep its entries by key, as
-- a map does: so it is for keys of full length, which are all that the controllers make, and for
-- shorter ones whose host bits are zero.
use mesh_cni.BpfMap.Laws.{IsMap}
use mesh_cni.BpfMap.{BpfMap}
use mesh_cni.Ip.Keys.{key_to_network-network_key, network_key-injective, host_key-network_key}
use mesh_cni.Ip.{
  NetworkLib, LpmKey, lpm_key_eq, IpBpfState, network_key, host_key, store, update, delete,
}
use mesh_cni.Prelude.{
  ℕ, ◌<◌, ◌≡◌, inl, inr, refl, Option, some, none, String, ap, sym, ◌∙◌, ite, if_pos, if_neg,
  ℕ_discrete, Option-cases,
}
use mesh_cni.Prelude.Bytes.{Endian}
use mesh_cni.Prelude.HashMap
use mesh_cni.Prelude.HashMap.{HashMap, Key}
use mesh_cni.Prelude.Result.{Result, ok, err, Result-cases}

module _ {M N : Type 0} ⦃key : Key N⦄ {bytes max_prefix : ℕ} (lib : NetworkLib N bytes max_prefix)
    (small : max_prefix < 256) (e : Endian) {b : BpfMap M LpmKey ℕ N} (laws : IsMap b) where
  -- Every network has the same identity in the trie as in the cache.
  abbrev pub IsMirror : IpBpfState M N → Type 0
  IsMirror st = (n : N) → laws.view st.bpf_map (network_key lib e n) ≡ HashMap.get n st.cache

  -- What a call left: the state still mirrors the trie, and if the call returned `Ok`, network
  -- `n` has the value `v` and every other one has what it had; on an error nothing changed.
  pub data Outcome (n : N) (v : Option ℕ) (st : IpBpfState M N)
      : Result (Unit {0}) × IpBpfState M N → Type 0 where
    done :
        {t : IpBpfState M N}
        → IsMirror t
        → ((m : N) → HashMap.get m t.cache ≡ ite (key.same m n) v (HashMap.get m st.cache))
        → Outcome n v st (ok tt, t)
    failed :
        {x : String} {t : IpBpfState M N}
        → IsMirror t
        → ((m : N) → HashMap.get m t.cache ≡ HashMap.get m st.cache)
        → Outcome n v st (err x, t)

  -- The equality of keys is that of networks.
  pub same_key :
      {A : Type 0} (n m : N) (x y : A)
      → ite (lpm_key_eq.same (network_key lib e m) (network_key lib e n)) x y
        ≡ ite (key.same m n) x y
  same_key n m x y = elim (key.same m n) [
    | yes p ↦
        if_pos (lpm_key_eq.same _ _) (ap (network_key lib e) p) x y
        ∙ sym (if_pos (key.same m n) p x y)
    | no p ↦
        if_neg (lpm_key_eq.same _ _) (λ q. p (network_key-injective lib e m n small q)) x y
        ∙ sym (if_neg (key.same m n) p x y)
  ]

  store-Outcome :
      (n : N) (value : ℕ) (st : IpBpfState M N)
      → IsMirror st
      → Outcome n (some value) st (store lib e b (network_key lib e n) n value st)
  unfolding store
  store-Outcome n value st h =
      elim (Result-cases (b.update (network_key lib e n) value st.bpf_map).0) [
        | inl (_, q) ↦
            rw (q, store)
              (Outcome.done
                (λ m.
                  laws.update_ok (network_key lib e n) value st.bpf_map (network_key lib e m) q
                  ∙ same_key n m (some value) _
                  ∙ ap (ite (key.same m n) (some value)) (h m)
                  ∙ sym (HashMap.get-insert n m value st.cache))
                (λ m. HashMap.get-insert n m value st.cache))
        | inr (x, q) ↦
            rw (q, store)
              (Outcome.failed
                (λ m.
                  laws.update_err (network_key lib e n) value st.bpf_map x (network_key lib e m) q
                  ∙ h m)
                (λ m. refl))
      ]

  -- From a state whose cache mirrors the trie, a trie that keeps its entries by key, `update` of a
  -- network never panics, keeps the cache a mirror whatever the trie answers, and on `Ok` gives
  -- exactly that network the identity, also where the call skips the trie because the cache has the
  -- value already. On an error no entry changes.
  pub update-Outcome :
      (n : N) (value : ℕ) (st : IpBpfState M N)
      → IsMirror st
      → (r : Result (Unit {0}) × IpBpfState M N) × (update lib e b (network_key lib e n) value st
          ≡ some r)
        × Outcome n (some value) st r
  unfolding update
  update-Outcome n value st h = elim (Option-cases (HashMap.get n st.cache)) [
    | inl absent ↦ (
      store lib e b (network_key lib e n) n value st,
      rw (key_to_network-network_key lib e n small, update, absent),
      store-Outcome n value st h,
    )
    | inr (current, present) ↦ elim (ℕ_discrete current value) [
      | yes p ↦ (
        (ok tt, st),
        rw (key_to_network-network_key lib e n small, update, present)
            (if_pos (ℕ_discrete current value) p _ _),
        Outcome.done h (λ m. elim (key.same m n) [
          | yes s ↦
              ap (λ x. HashMap.get x st.cache) s
              ∙ present
              ∙ ap some p
              ∙ sym (if_pos (key.same m n) s _ _)
          | no s ↦ sym (if_neg (key.same m n) s _ _)
        ]),
      )
      | no p ↦ (
        store lib e b (network_key lib e n) n value st,
        rw (key_to_network-network_key lib e n small, update, present)
            (if_neg (ℕ_discrete current value) p _ _),
        store-Outcome n value st h,
      )
    ]
  ]

  -- From a state whose cache mirrors the trie, `delete` of an address whose network of full length
  -- is `n` never panics, keeps the cache a mirror, and on `Ok` removes exactly that network; shorter
  -- prefixes stay. On an error no entry changes.
  pub delete-Outcome :
      (ip : ℕ) (n : N) (st : IpBpfState M N)
      → lib.new ip max_prefix ≡ some n
      → IsMirror st
      → (r : Result (Unit {0}) × IpBpfState M N) × (delete lib e b (host_key lib e ip) st ≡ some r)
        × Outcome n none st r
  unfolding delete
  delete-Outcome ip n st host h =
      rw (host_key-network_key lib e ip n host)
        (elim (Result-cases (b.delete (network_key lib e n) st.bpf_map).0) [
          | inl (_, q) ↦ (
            (
              ok tt,
              record {
                cache = HashMap.remove n st.cache;
                bpf_map = (b.delete (network_key lib e n) st.bpf_map).1;
              },
            ),
            rw (q, delete, key_to_network-network_key lib e n small),
            Outcome.done
                (λ m.
                  laws.delete_ok (network_key lib e n) st.bpf_map (network_key lib e m) q
                  ∙ same_key n m none _
                  ∙ ap (ite (key.same m n) none) (h m)
                  ∙ sym (HashMap.get-remove n m st.cache))
                (λ m. HashMap.get-remove n m st.cache),
          )
          | inr (x, q) ↦ (
            (err x, record st { bpf_map = (b.delete (network_key lib e n) st.bpf_map).1 }),
            rw (q, delete),
            Outcome.failed
                (λ m.
                  laws.delete_err (network_key lib e n) st.bpf_map x (network_key lib e m) q ∙ h m)
                (λ m. refl),
          )
        ])
