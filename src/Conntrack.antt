-- ===== src/Conntrack.antt =====
-- mesh-cni-policy-ebpf/src/ingress.rs, ipv4.rs, lib.rs and main.rs: the traffic classifier, which
-- tracks connections. What `ctx.load` returns at each offset is the packet; the crate
-- `network_types` decodes it. The trie of identities is a function, the LRU map a parameter.
pub mod Packets
pub mod Directions
pub mod Cleanup
use mesh_cni.Common.{ConntrackKeyV4, ConntrackValue}
use mesh_cni.Connect4.{Verdict, ok, err}
use mesh_cni.Ip.{LpmKey}
use mesh_cni.Prelude.{
  ℕ, ◌+◌, ◌*◌, List, [], ◌∷◌, Option, some, none, Bool, true, false, not, ◌&&◌, ◌==◌, if◌then◌else◌,
}
use mesh_cni.Prelude.Bytes.{Endian, to_be}
use mesh_cni.Prelude.Result.{Result}

-- `from_be_bytes`
unfoldable pub from_be_bytes_acc : ℕ → List ℕ → ℕ
from_be_bytes_acc acc [] = acc
from_be_bytes_acc acc (b ∷ bs) = from_be_bytes_acc (acc * 256 + b) bs

abbrev pub from_be_bytes : List ℕ → ℕ
from_be_bytes = from_be_bytes_acc 0

pub data EtherType : Type 0 where
  ipv4 other : EtherType

pub data IpProto : Type 0 where
  tcp udp sctp : IpProto
  other : ℕ → IpProto

-- `as u8`
unfoldable pub proto_number : IpProto → ℕ
proto_number IpProto.tcp = 6
proto_number IpProto.udp = 17
proto_number IpProto.sctp = 132
proto_number (IpProto.other n) = n

pub record Ipv4Hdr : Type 0 where
  pub src_addr : List ℕ
  pub dst_addr : List ℕ
  pub proto : IpProto

pub record TcpHdr : Type 0 where
  pub source : List ℕ
  pub dest : List ℕ
  pub syn : ℕ
  pub ack : ℕ

pub record UdpHdr : Type 0 where
  pub src : List ℕ
  pub dst : List ℕ

-- The headers that can be loaded; the outer `none` of `eth` is a failed load, the inner one an
-- unknown ether type.
pub record Packet : Type 0 where
  pub eth : Option (Option EtherType)
  pub ipv4 : Option Ipv4Hdr
  pub tcp : Option TcpHdr
  pub udp : Option UdpHdr

pub record LruMap (M : Type 0) : Type 0 where
  pub get : M → ConntrackKeyV4 → Option ConntrackValue
  pub insert : ConntrackKeyV4 → ConntrackValue → M → Result (Unit {0}) × M

-- The tuple that the `match` on the protocol binds, without the protocol's number.
pub record Ports : Type 0 where
  pub src_port : ℕ
  pub dst_port : ℕ
  pub should_insert : Bool

unfoldable pub reverse_key : ConntrackKeyV4 → ConntrackKeyV4
reverse_key k = record {
  src_ip = k.dst_ip;
  dst_ip = k.src_ip;
  src_port = k.dst_port;
  dst_port = k.src_port;
  proto = k.proto;
  pad = 0;
}

unfoldable pub packet_key : Ipv4Hdr → Ports → ConntrackKeyV4
packet_key h p = record {
  src_ip = from_be_bytes h.src_addr;
  dst_ip = from_be_bytes h.dst_addr;
  src_port = p.src_port;
  dst_port = p.dst_port;
  proto = proto_number h.proto;
  pad = 0;
}

-- `id_v4(LpmKey::new(32, ip.to_be()))`
unfoldable pub identity : (LpmKey → Option ℕ) → Endian → ℕ → Option ℕ
identity id_v4 e ip = id_v4 (record { prefix_len = 32; payload = to_be e 4 ip })

module _ {M : Type 0} (ct : LruMap M) (now : ℕ) where
  -- `CONNTRACK_V4.insert`, with its result dropped.
  abbrev pub seen : ConntrackKeyV4 → M → M
  seen k m = (ct.insert k (record { last_seen_ns = now }) m).1

  -- From the two lookups to the end of the function.
  unfoldable pub track : ConntrackKeyV4 → Bool → M → M
  track ct_key should_insert m = elim (ct.get m ct_key) [
    | some _ ↦ seen ct_key m
    | none ↦ elim (ct.get m (reverse_key ct_key)) [
      | some _ ↦ seen (reverse_key ct_key) m
      | none ↦ if should_insert then seen ct_key m else m
    ]
  ]

module _ (tc_act_pipe : ℕ) where
  unfoldable pub tcp_ports : Option TcpHdr → Verdict (Option Ports)
  tcp_ports none = err tc_act_pipe
  tcp_ports (some h) = ok (
      some (record {
        src_port = from_be_bytes h.source;
        dst_port = from_be_bytes h.dest;
        should_insert = (h.syn == 1) && not (h.ack == 1);
      }))

  unfoldable pub udp_ports : Option UdpHdr → Verdict (Option Ports)
  udp_ports none = err tc_act_pipe
  udp_ports (some h) = ok (
      some (record {
        src_port = from_be_bytes h.src;
        dst_port = from_be_bytes h.dst;
        should_insert = true;
      }))

  -- `none` is the early `return Ok(TC_ACT_PIPE)`.
  unfoldable pub ports : IpProto → Packet → Verdict (Option Ports)
  ports IpProto.tcp packet = tcp_ports packet.tcp
  ports IpProto.udp packet = udp_ports packet.udp
  ports IpProto.sctp packet = ok none
  ports (IpProto.other n) packet = ok none

  module _ {M : Type 0} (ct : LruMap M) (id_v4 : LpmKey → Option ℕ) (e : Endian) (now : ℕ) where
    unfoldable pub handle_ipv4 : Packet → M → Verdict ℕ × M
    handle_ipv4 packet m = elim packet.ipv4 [
      | none ↦ (err tc_act_pipe, m)
      | some h ↦ elim (identity id_v4 e (from_be_bytes h.src_addr)) [
        | none ↦ (ok tc_act_pipe, m)
        | some src_id ↦ elim (identity id_v4 e (from_be_bytes h.dst_addr)) [
          | none ↦ (ok tc_act_pipe, m)
          | some dst_id ↦ elim (ports h.proto packet) [
            | err ret ↦ (err ret, m)
            | ok none ↦ (ok tc_act_pipe, m)
            | ok (some p) ↦ (ok tc_act_pipe, track ct now (packet_key h p) p.should_insert m)
          ]
        ]
      ]
    ]

    unfoldable pub try_ingress : Packet → M → Verdict ℕ × M
    try_ingress packet m = elim packet.eth [
      | none ↦ (err tc_act_pipe, m)
      | some none ↦ (ok tc_act_pipe, m)
      | some (some EtherType.other) ↦ (ok tc_act_pipe, m)
      | some (some EtherType.ipv4) ↦ handle_ipv4 packet m
    ]
