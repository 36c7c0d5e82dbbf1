-- ===== src/Identities/Networks.antt =====
-- The identities of the networks of pods and nodes, after the controllers and Ip.
use mesh_cni.BpfMap.Laws.{IsMap}
use mesh_cni.BpfMap.{BpfMap}
use mesh_cni.Common.{IpAddr}
use mesh_cni.Identities.{IdentityBpfState, ip_net, store_ips, and_then_store}
use mesh_cni.Ip.Cache.{Outcome, update-Outcome}
use mesh_cni.Ip.Cache
use mesh_cni.Ip.{
  NetworkLib, LpmKey, lpm_key_eq, IpNetwork, IpBpfState, State, update_network, with_v4, with_v6,
}
use mesh_cni.Prelude.{
  ℕ, ◌<◌, List, [], ◌∷◌, Option, some, none, ◌≡◌, ◌≢◌, refl, sym, ap, ◌∙◌, inl, inr, ite, if_pos,
  if_neg, IsIn, arith,
}
use mesh_cni.Prelude.Bytes.{Endian}
use mesh_cni.Prelude.HashMap
use mesh_cni.Prelude.HashMap.{HashMap, Key}
use mesh_cni.Prelude.Result.{Result, ok, err}

pub small4 : 32 < 256
small4 = omega arith

pub small6 : 128 < 256
small6 = omega arith

ite_same : {A P : Type 0} (d : Dec P) (x : A) → ite d x x ≡ x
ite_same (yes p) x = refl
ite_same (no p) x = refl

each :
    {A B : Type 0} (P : IpNetwork A B → Type 0)
    → ((j : A) → P (IpNetwork.v4 j))
    → ((j : B) → P (IpNetwork.v6 j))
    → (m : IpNetwork A B) → P m
each P f g (IpNetwork.v4 j) = f j
each P f g (IpNetwork.v6 j) = g j

-- A value that one key is given stays where it is already.
get-kept :
    {N : Type 0} ⦃key : Key N⦄ (n : N) (id : ℕ) (c d : HashMap N ℕ)
    → ((m : N) → HashMap.get m d ≡ ite (key.same m n) (some id) (HashMap.get m c))
    → (m : N) → HashMap.get m c ≡ some id
    → HashMap.get m d ≡ some id
get-kept ⦃key⦄ n id c d gets m h =
    gets m ∙ ap (ite (key.same m n) (some id)) h ∙ ite_same (key.same m n) (some id)

module _ {M4 M6 N4 N6 : Type 0} ⦃key4 : Key N4⦄ ⦃key6 : Key N6⦄ (lib4 : NetworkLib N4 4 32)
    (lib6 : NetworkLib N6 16 128) (e : Endian) {b4 : BpfMap M4 LpmKey ℕ N4}
    {b6 : BpfMap M6 LpmKey ℕ N6} (laws4 : IsMap b4) (laws6 : IsMap b6) where
  -- `IpNetworkState` as an `IdentityBpfState`.
  abbrev pub network_state : IdentityBpfState (State M4 M6 N4 N6) N4 N6
  network_state = record { update = update_network lib4 lib6 e b4 b6 }

  -- The identity of a network, and the caches of both families against their tries.
  abbrev pub identity_of : State M4 M6 N4 N6 → IpNetwork N4 N6 → Option ℕ
  identity_of s (IpNetwork.v4 n) = HashMap.get n s.ipv4_state.cache
  identity_of s (IpNetwork.v6 n) = HashMap.get n s.ipv6_state.cache

  abbrev pub BothMirror : State M4 M6 N4 N6 → Type 0
  BothMirror s =
      Cache.IsMirror lib4 small4 e laws4 s.ipv4_state
      × Cache.IsMirror lib6 small6 e laws6 s.ipv6_state

  abbrev KeepsId : ℕ → State M4 M6 N4 N6 → State M4 M6 N4 N6 → IpNetwork N4 N6 → Type 0
  KeepsId id s t m = identity_of s m ≡ some id → identity_of t m ≡ some id

  abbrev SameBut :
      IpNetwork N4 N6 → State M4 M6 N4 N6 → State M4 M6 N4 N6 → IpNetwork N4 N6 → Type 0
  SameBut n s t m = m ≢ n → identity_of t m ≡ identity_of s m

  -- What one update of network `n` leaves.
  record Stored (n : IpNetwork N4 N6) (id : ℕ) (s : State M4 M6 N4 N6)
      (r : Result (Unit {0}) × State M4 M6 N4 N6) : Type 0 where
    mirrors : BothMirror r.1
    kept : (m : IpNetwork N4 N6) → identity_of s m ≡ some id → identity_of r.1 m ≡ some id
    others : (m : IpNetwork N4 N6) → m ≢ n → identity_of r.1 m ≡ identity_of s m
    stored : r.0 ≡ ok tt → identity_of r.1 n ≡ some id

  update_network-Stored :
      (n : IpNetwork N4 N6) (id : ℕ) (s : State M4 M6 N4 N6)
      → BothMirror s
      → (r : Result (Unit {0}) × State M4 M6 N4 N6) × (update_network lib4 lib6 e b4 b6 n id s
          ≡ some r)
        × Stored n id s r
  unfolding update_network with_v4 with_v6
  update_network-Stored (IpNetwork.v4 n) id s (h4, h6) =
      let (r, q, o) = update-Outcome lib4 small4 e laws4 n id s.ipv4_state h4 in
      ((r.0, record s { ipv4_state = r.1 }), rw (q, update_network, with_v4), go r o)
    where
      go :
          (r : Result (Unit {0}) × IpBpfState M4 N4)
          → Outcome lib4 small4 e laws4 n (some id) s.ipv4_state r
          → Stored (IpNetwork.v4 n) id s (r.0, record s { ipv4_state = r.1 })
      go _ (Outcome.done {t} mirror gets) = record {
        mirrors = (mirror, h6);
        kept =
            each (KeepsId id s (record s { ipv4_state = t }))
              (λ j. get-kept n id s.ipv4_state.cache t.cache gets j) (λ j h. h);
        others =
            each (SameBut (IpNetwork.v4 n) s (record s { ipv4_state = t }))
              (λ j ne. gets j ∙ if_neg (key4.same j n) (λ q. ne (ap IpNetwork.v4 q)) _ _)
              (λ j ne. refl);
        stored = λ _. gets n ∙ if_pos (key4.same n n) refl (some id) _;
      }
      go _ (Outcome.failed {t} mirror gets) = record {
        mirrors = (mirror, h6);
        kept = each (KeepsId id s (record s { ipv4_state = t })) (λ j h. gets j ∙ h) (λ j h. h);
        others =
            each (SameBut (IpNetwork.v4 n) s (record s { ipv4_state = t })) (λ j ne. gets j)
              (λ j ne. refl);
        stored = λ h. cc;
      }
  update_network-Stored (IpNetwork.v6 n) id s (h4, h6) =
      let (r, q, o) = update-Outcome lib6 small6 e laws6 n id s.ipv6_state h6 in
      ((r.0, record s { ipv6_state = r.1 }), rw (q, update_network, with_v6), go r o)
    where
      go :
          (r : Result (Unit {0}) × IpBpfState M6 N6)
          → Outcome lib6 small6 e laws6 n (some id) s.ipv6_state r
          → Stored (IpNetwork.v6 n) id s (r.0, record s { ipv6_state = r.1 })
      go _ (Outcome.done {t} mirror gets) = record {
        mirrors = (h4, mirror);
        kept =
            each (KeepsId id s (record s { ipv6_state = t })) (λ j h. h)
              (λ j. get-kept n id s.ipv6_state.cache t.cache gets j);
        others =
            each (SameBut (IpNetwork.v6 n) s (record s { ipv6_state = t })) (λ j ne. refl)
              (λ j ne. gets j ∙ if_neg (key6.same j n) (λ q. ne (ap IpNetwork.v6 q)) _ _);
        stored = λ _. gets n ∙ if_pos (key6.same n n) refl (some id) _;
      }
      go _ (Outcome.failed {t} mirror gets) = record {
        mirrors = (h4, mirror);
        kept = each (KeepsId id s (record s { ipv6_state = t })) (λ j h. h) (λ j h. gets j ∙ h);
        others =
            each (SameBut (IpNetwork.v6 n) s (record s { ipv6_state = t })) (λ j ne. refl)
              (λ j ne. gets j);
        stored = λ h. cc;
      }

  -- A network of one of the addresses.
  abbrev pub IsNetOf : List IpAddr → IpNetwork N4 N6 → Type 0
  IsNetOf ips n = (ip : IpAddr) × IsIn ip ips × (ip_net lib4 lib6 network_state ip ≡ some n)

  -- What a loop over addresses leaves: on `Ok` each of their networks has the identity, and
  -- whatever it returns the caches mirror the tries and no other network has changed.
  pub record StoredAll (ips : List IpAddr) (id : ℕ) (s : State M4 M6 N4 N6) (done : Type 0)
      (t : State M4 M6 N4 N6) : Type 0 where
    pub mirrors : BothMirror t
    pub kept : (m : IpNetwork N4 N6) → identity_of s m ≡ some id → identity_of t m ≡ some id
    pub others : (m : IpNetwork N4 N6) → ¬ (IsNetOf ips m) → identity_of t m ≡ identity_of s m
    pub stored : done → (m : IpNetwork N4 N6) → IsNetOf ips m → identity_of t m ≡ some id

  pub store_ips-StoredAll :
      (id : ℕ) (ips : List IpAddr) (s : State M4 M6 N4 N6)
      → BothMirror s
      → (r : Result (Unit {0}) × State M4 M6 N4 N6) × (store_ips lib4 lib6 network_state id ips s
          ≡ some r)
        × StoredAll ips id s (r.0 ≡ ok tt) r.1
  unfolding store_ips
  store_ips-StoredAll id [] s h = (
    (ok tt, s),
    refl,
    record { mirrors = h; kept = λ m q. q; others = λ m q. refl; stored = λ _ m q. absurd (q.1) },
  )
  store_ips-StoredAll id (ip ∷ rest) s h =
      on_net (store_ips-StoredAll id rest) (ip_net lib4 lib6 network_state ip) refl
    where
      Goal : Option (Result (Unit {0}) × State M4 M6 N4 N6) → Type 0
      Goal o =
          (r : Result (Unit {0}) × State M4 M6 N4 N6) × (o ≡ some r)
          × StoredAll (ip ∷ rest) id s (r.0 ≡ ok tt) r.1

      Later : Type 0
      Later =
          (t : State M4 M6 N4 N6)
          → BothMirror t
          → (r : Result (Unit {0}) × State M4 M6 N4 N6) × (store_ips lib4 lib6 network_state id rest
                t
              ≡ some r)
            × StoredAll rest id t (r.0 ≡ ok tt) r.1

      on_result :
          Later
          → (n : IpNetwork N4 N6) → ip_net lib4 lib6 network_state ip ≡ some n
          → (r : Result (Unit {0}) × State M4 M6 N4 N6) → Stored n id s r
          → Goal (
              and_then_store lib4 lib6 network_state
                (store_ips lib4 lib6 network_state id rest)
                (some r))
      on_result later n q (err x, t) st = (
        _,
        refl,
        record {
          mirrors = st.mirrors;
          kept = st.kept;
          others = λ m ne. st.others m (λ e. ne (ip, inl refl, q ∙ ap some (sym e)));
          stored = λ h. cc;
        },
      )
      on_result later n q (ok a, t) st =
          let (r, p, all) = later t st.mirrors in
          (
            r,
            p,
            record {
              mirrors = all.mirrors;
              kept = λ m h. all.kept m (st.kept m h);
              others = λ m ne.
                  all.others m (λ o. ne (o.0, inr o.1, o.2))
                  ∙ st.others m (λ e. ne (ip, inl refl, q ∙ ap some (sym e)));
              stored = λ done m o. elim (o.1) [
                | inl same ↦
                    let here : ip_net lib4 lib6 network_state ip ≡ some m =
                      ap (ip_net lib4 lib6 network_state) (sym same) ∙ o.2 in
                    let n_m : n ≡ m = cc in all.kept m (rw (← n_m) (st.stored refl))
                | inr j ↦ all.stored done m (o.0, j, o.2)
              ];
            },
          )

      on_net :
          Later
          → (o : Option (IpNetwork N4 N6)) → ip_net lib4 lib6 network_state ip ≡ o
          → Goal (elim o [
            | none ↦ some (err "invalid ip network construction", s)
            | some net ↦
                and_then_store lib4 lib6 network_state
                  (store_ips lib4 lib6 network_state id rest)
                  (network_state.update net id s)
          ])
      on_net later none q = (
        _,
        refl,
        record { mirrors = h; kept = λ m g. g; others = λ m ne. refl; stored = λ h. cc },
      )
      on_net later (some n) q =
          let (r, p, st) = update_network-Stored n id s h in rw p (on_result later n q r st)
