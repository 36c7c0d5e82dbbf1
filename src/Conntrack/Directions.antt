-- ===== src/Conntrack/Directions.antt =====
-- The connections that the classifier keeps: one entry for both directions, opened by a first
-- packet, and no packet stopped.
use mesh_cni.Conntrack.Packets.{Tracked, try_ingress-Tracked}
use mesh_cni.Common.{ConntrackKeyV4, ConntrackValue, conntrack_key_eq}
use mesh_cni.Conntrack.{
  Packet, Ports, Ipv4Hdr, LruMap, reverse_key, seen, track, packet_key, try_ingress,
}
use mesh_cni.Ip.{LpmKey}
use mesh_cni.Prelude.{
  ℕ, Option, some, none, Bool, true, false, ◌≡◌, ◌≢◌, ◌⊎◌, inl, inr, refl, sym, ap, ◌∙◌,
  if◌then◌else◌, arith, Option-cases, Bool-cases,
}
use mesh_cni.Prelude.Bytes.{Endian}

-- What the source relies on of the kernel's LRU map: an insertion leaves the entry of another key
-- alone or evicts it.
abbrev pub Evicts : {M : Type 0} → LruMap M → Type 0
Evicts {M} ct =
    (k j : ConntrackKeyV4) (v : ConntrackValue) (m : M)
    → j ≢ k
    → (ct.get (ct.insert k v m).1 j ≡ ct.get m j) ⊎ (ct.get (ct.insert k v m).1 j ≡ none)

pub reverse-reverse : (k : ConntrackKeyV4) → k.pad ≡ 0 → reverse_key (reverse_key k) ≡ k
unfolding reverse_key
reverse-reverse k h = ground arith

-- The two directions of a connection are never both in the map, unless they are one.
abbrev pub IsOneWay : {M : Type 0} → LruMap M → M → Type 0
IsOneWay ct m =
    (j : ConntrackKeyV4)
    → j.pad ≡ 0
    → j ≢ reverse_key j
    → (ct.get m j ≡ none) ⊎ (ct.get m (reverse_key j) ≡ none)

reverse_key-pad : (k : ConntrackKeyV4) → (reverse_key k).pad ≡ 0
unfolding reverse_key
reverse_key-pad k = refl

module _ {M : Type 0} (ct : LruMap M) (evicts : Evicts ct) (now : ℕ) where
  seen-absent :
      (k j : ConntrackKeyV4) (m : M) → j ≢ k → ct.get m j ≡ none → ct.get (seen ct now k m) j ≡ none
  seen-absent k j m ne h = elim (evicts k j (record { last_seen_ns = now }) m ne) [
    | inl same ↦ same ∙ h
    | inr gone ↦ gone
  ]

  seen-IsOneWay :
      (k : ConntrackKeyV4) (m : M)
      → k.pad ≡ 0
      → (k ≢ reverse_key k → ct.get m (reverse_key k) ≡ none)
      → IsOneWay ct m
      → IsOneWay ct (seen ct now k m)
  seen-IsOneWay k m pad alone one j padded ne = elim (conntrack_key_eq.same j k) [
    | yes p ↦
        let ne' : k ≢ reverse_key k = rw (← p) ne in
        inr (seen-absent k (reverse_key j) m (rw p (λ q. ne' (sym q))) (rw p (alone ne')))
    | no p ↦ elim (conntrack_key_eq.same (reverse_key j) k) [
      | yes q ↦
          let back : reverse_key k ≡ j = ap reverse_key (sym q) ∙ reverse-reverse j padded in
          let ne' : k ≢ reverse_key k = λ s. p (sym (s ∙ back)) in
          inl (seen-absent k j m p (rw (← back) (alone ne')))
      | no q ↦ elim (one j padded ne) [
        | inl a ↦ inl (seen-absent k j m p a)
        | inr b ↦ inr (seen-absent k (reverse_key j) m q b)
      ]
    ]
  ]

  track-IsOneWay :
      (k : ConntrackKeyV4) (opens : Bool) (m : M)
      → k.pad ≡ 0
      → IsOneWay ct m
      → IsOneWay ct (track ct now k opens m)
  unfolding track
  track-IsOneWay k opens m pad one = elim (Option-cases (ct.get m k)) [
    | inr (v, e) ↦ rw (e, track) (seen-IsOneWay k m pad (λ ne. other k v pad e ne) one)
    | inl e ↦ elim (Option-cases (ct.get m (reverse_key k))) [
      | inr (w, f) ↦
          rw (e, track, f)
            (seen-IsOneWay (reverse_key k) m (reverse_key-pad k)
              (λ ne. rw (reverse-reverse k pad) e) one)
      | inl f ↦ rw (e, track, f) (opened opens f)
    ]
  ]
    where
      other :
          (k : ConntrackKeyV4) (v : ConntrackValue)
          → k.pad ≡ 0
          → ct.get m k ≡ some v
          → k ≢ reverse_key k
          → ct.get m (reverse_key k) ≡ none
      other k v pad e ne = elim (one k pad ne) [ inl a ↦ absurd (cc) | inr b ↦ b ]

      opened :
          (b : Bool)
          → ct.get m (reverse_key k) ≡ none
          → IsOneWay ct (if b then seen ct now k m else m)
      opened true f = seen-IsOneWay k m pad (λ _. f) one
      opened false f = one

module _ (tc_act_pipe : ℕ) {M : Type 0} (ct : LruMap M) (id_v4 : LpmKey → Option ℕ) (e : Endian)
    (now : ℕ) (packet : Packet) (m : M) where
  packet_key-pad : (h : Ipv4Hdr) (p : Ports) → (packet_key h p).pad ≡ 0
  unfolding packet_key
  packet_key-pad h p = refl

  -- A map that does not hold both directions of any connection does not do so after a packet, if
  -- an insertion does no more to the other entries than evict them.
  pub try_ingress-IsOneWay :
      Evicts ct → IsOneWay ct m → IsOneWay ct (try_ingress tc_act_pipe ct id_v4 e now packet m).1
  try_ingress-IsOneWay evicts one = elim (try_ingress-Tracked tc_act_pipe ct id_v4 e now packet m) [
    | inl same ↦ rw same one
    | inr (h, p, _, done) ↦
        rw done
          (track-IsOneWay ct evicts now (packet_key h p) p.should_insert m (packet_key-pad h p) one)
  ]

  -- An entry that was not in the map before a packet is there after it only if it is the packet's
  -- own connection, in the packet's direction, the packet may open one (UDP, or TCP with SYN and
  -- without ACK), both its addresses have identities, and the opposite direction was not there.
  pub try_ingress-opens :
      (j : ConntrackKeyV4) (v : ConntrackValue)
      → Evicts ct
      → ct.get m j ≡ none
      → ct.get (try_ingress tc_act_pipe ct id_v4 e now packet m).1 j ≡ some v
      → (h : Ipv4Hdr) × (p : Ports) × Tracked tc_act_pipe id_v4 e packet h p
        × (p.should_insert ≡ true)
        × (j ≡ packet_key h p)
        × (ct.get m (reverse_key j) ≡ none)
  unfolding track packet_key
  try_ingress-opens j v evicts before after =
      elim (try_ingress-Tracked tc_act_pipe ct id_v4 e now packet m) [
        | inl same ↦ absurd (let q = rw same at after in cc)
        | inr (h, p, t, done) ↦ elim (conntrack_key_eq.same j (packet_key h p)) [
          | no ne ↦ absurd (unopened h p ne (rw done at after))
          | yes s ↦ elim (Option-cases (ct.get m (reverse_key (packet_key h p)))) [
            | inr (w, f) ↦ absurd (replied h p s w f (rw done at after))
            | inl f ↦ elim (Bool-cases p.should_insert) [
              | inl opens ↦ (h, p, t, opens, s, rw s f)
              | inr closed ↦ absurd (unsent h p s f closed (rw done at after))
            ]
          ]
        ]
      ]
    where
      kept : (k : ConntrackKeyV4) → j ≢ k → ct.get (seen ct now k m) j ≡ some v → ⊥
      kept k ne a = let q = seen-absent ct evicts now k j m ne before in cc

      absent : (h : Ipv4Hdr) (p : Ports) → j ≡ packet_key h p → ct.get m (packet_key h p) ≡ none
      absent h p s = rw (← s) before

      unopened :
          (h : Ipv4Hdr) (p : Ports)
          → j ≢ packet_key h p
          → ct.get (track ct now (packet_key h p) p.should_insert m) j ≡ some v
          → ⊥
      unopened h p ne a = elim (Option-cases (ct.get m (packet_key h p))) [
        | inr (w, f) ↦ kept (packet_key h p) ne (rw (f, track) at a)
        | inl f ↦ elim (Option-cases (ct.get m (reverse_key (packet_key h p)))) [
          | inr (w, g) ↦
              kept (reverse_key (packet_key h p)) (λ q. let x = rw (← q) at g in cc)
                (rw (f, track, g) at a)
          | inl g ↦ elim (Bool-cases p.should_insert) [
            | inl b ↦ kept (packet_key h p) ne (rw (f, track, g, b) at a)
            | inr b ↦ let q = rw (f, track, g, b) at a in cc
          ]
        ]
      ]

      replied :
          (h : Ipv4Hdr) (p : Ports)
          → j ≡ packet_key h p
          → (w : ConntrackValue) → ct.get m (reverse_key (packet_key h p)) ≡ some w
          → ct.get (track ct now (packet_key h p) p.should_insert m) j ≡ some v
          → ⊥
      replied h p s w f a =
          kept (reverse_key (packet_key h p)) (λ q. let g = rw (← q) at f in cc)
            (rw (absent h p s, track, f) at a)

      unsent :
          (h : Ipv4Hdr) (p : Ports)
          → j ≡ packet_key h p
          → ct.get m (reverse_key (packet_key h p)) ≡ none
          → p.should_insert ≡ false
          → ct.get (track ct now (packet_key h p) p.should_insert m) j ≡ some v
          → ⊥
      unsent h p s f closed a = let q = rw (absent h p s, track, f, closed) at a in cc
