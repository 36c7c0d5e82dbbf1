-- ===== src/Conntrack/Packets.antt =====
-- The packets for which the classifier changes the map of connections.
use mesh_cni.Common.{conntrack_key_eq}
use mesh_cni.Connect4.{Verdict, ok, err}
use mesh_cni.Conntrack.{
  Packet, Ports, Ipv4Hdr, LruMap, EtherType, from_be_bytes, ports, track, packet_key, identity,
  handle_ipv4, try_ingress,
}
use mesh_cni.Ip.{LpmKey}
use mesh_cni.Prelude.{ℕ, Option, some, none, ◌≡◌, ◌⊎◌, inl, inr, refl, arith, Option-cases}
use mesh_cni.Prelude.Bytes.{Endian}

-- What the packet says, where the classifier comes to look into the map.
pub data Tracked (tc_act_pipe : ℕ) (id_v4 : LpmKey → Option ℕ) (e : Endian) (packet : Packet)
    (h : Ipv4Hdr) (p : Ports) : Type 0 where
  tracked :
      (src_id dst_id : ℕ)
      → packet.eth ≡ some (some EtherType.ipv4)
      → packet.ipv4 ≡ some h
      → identity id_v4 e (from_be_bytes h.src_addr) ≡ some src_id
      → identity id_v4 e (from_be_bytes h.dst_addr) ≡ some dst_id
      → ports tc_act_pipe h.proto packet ≡ ok (some p)
      → Tracked tc_act_pipe id_v4 e packet h p

module _ (tc_act_pipe : ℕ) {M : Type 0} (ct : LruMap M) (id_v4 : LpmKey → Option ℕ) (e : Endian)
    (now : ℕ) (packet : Packet) (m : M) where
  -- The classifier leaves the map alone, or tracks the packet's connection; the second only for an
  -- IPv4 packet between two addresses with identities whose TCP or UDP header could be read.
  pub try_ingress-Tracked :
      ((try_ingress tc_act_pipe ct id_v4 e now packet m).1 ≡ m)
      ⊎ ((h : Ipv4Hdr) × (p : Ports) × Tracked tc_act_pipe id_v4 e packet h p
          × ((try_ingress tc_act_pipe ct id_v4 e now packet m).1
              ≡ track ct now (packet_key h p) p.should_insert m))
  unfolding try_ingress handle_ipv4
  try_ingress-Tracked = elim (eth-cases packet.eth) [
    | inr other ↦ inl (ground (arith, other))
    | inl ipv4 ↦ elim (Option-cases packet.ipv4) [
      | inl a ↦ inl (ground arith)
      | inr (h, b) ↦ elim (Option-cases (identity id_v4 e (from_be_bytes h.src_addr))) [
        | inl a ↦ inl (ground arith)
        | inr (s, c) ↦ elim (Option-cases (identity id_v4 e (from_be_bytes h.dst_addr))) [
          | inl a ↦ inl (ground arith)
          | inr (d, f) ↦ elim (ports-cases (ports tc_act_pipe h.proto packet)) [
            | inr (inl (ret, a)) ↦ inl (ground arith)
            | inr (inr a) ↦ inl (ground arith)
            | inl (p, g) ↦ inr (h, p, tracked s d ipv4 b c f g, ground arith)
          ]
        ]
      ]
    ]
  ]
    where
      eth-cases :
          (o : Option (Option EtherType))
          → (o ≡ some (some EtherType.ipv4))
            ⊎ ((o ≡ none) ⊎ (o ≡ some none) ⊎ (o ≡ some (some EtherType.other)))
      eth-cases none = inr (inl refl)
      eth-cases (some none) = inr (inr (inl refl))
      eth-cases (some (some EtherType.ipv4)) = inl refl
      eth-cases (some (some EtherType.other)) = inr (inr (inr refl))

      ports-cases :
          (r : Verdict (Option Ports))
          → ((p : Ports) × (r ≡ ok (some p))) ⊎ ((ret : ℕ) × (r ≡ err ret)) ⊎ (r ≡ ok none)
      ports-cases (ok (some p)) = inl (p, refl)
      ports-cases (ok none) = inr (inr refl)
      ports-cases (err ret) = inr (inl (ret, refl))
