-- ===== src/Tests/Connections.antt =====
-- Connection tracking: a packet that opens a connection, and a map with one entry.
use mesh_cni.Common.{ConntrackKeyV4, ConntrackValue, conntrack_key_eq}
use mesh_cni.Conntrack.Cleanup.{
  CtMap, CtLaws, Listed, timeout, cleanup_map, remove_all, collect_expired, is_expired,
}
use mesh_cni.Conntrack.Cleanup.Swept.{Swept, cleanup_map-Swept}
use mesh_cni.Conntrack.Packets.{Tracked}
use mesh_cni.Conntrack.Directions.{Evicts, IsOneWay, try_ingress-IsOneWay, try_ingress-opens}
use mesh_cni.Conntrack
use mesh_cni.Conntrack.{
  EtherType, IpProto, Ipv4Hdr, TcpHdr, Packet, LruMap, Ports, reverse_key, packet_key, identity,
  seen, track, ports, from_be_bytes_acc, proto_number, handle_ipv4, try_ingress,
}
use mesh_cni.Ip.{LpmKey}
use mesh_cni.Prelude.{
  ℕ, List, [], ◌∷◌, Option, some, none, ◌≡◌, ◌≢◌, inl, inr, refl, ◌∙◌, arith, ite, if_neg, true,
}
use mesh_cni.Prelude.Bytes.{Endian, to_be, swap_bytes}
use mesh_cni.Prelude.HashMap
use mesh_cni.Prelude.HashMap.{HashMap}
use mesh_cni.Prelude.Result.{Result, ok}
use mesh_cni.Tests.Fixture.{maps}

abbrev Table : Type 0
Table = HashMap ConntrackKeyV4 ConntrackValue

-- a map that never evicts
abbrev table : LruMap Table
table = record { get = λ m k. HashMap.get k m; insert = λ k v m. (ok tt, HashMap.insert k v m) }

table-Evicts : Evicts table
table-Evicts k j v m ne =
    inl (
      HashMap.get-insert k j v m ∙ if_neg (conntrack_key_eq.same j k) ne (some v) (HashMap.get j m))

tracking : Unit {0}
unfolding maps reverse_key packet_key identity track ports Conntrack.tcp_ports Conntrack.udp_ports
    from_be_bytes_acc proto_number handle_ipv4 try_ingress to_be swap_bytes remove_all
    collect_expired is_expired cleanup_map timeout
tracking = tt

abbrev header : Ipv4Hdr
header = record {
  src_addr = 10 ∷ 0 ∷ 0 ∷ 1 ∷ [];
  dst_addr = 10 ∷ 0 ∷ 0 ∷ 2 ∷ [];
  proto = IpProto.tcp;
}

-- a SYN from 10.0.0.1:1024 to 10.0.0.2:80
abbrev syn : Packet
syn = record {
  eth = some (some EtherType.ipv4);
  ipv4 = some header;
  tcp = some (record { source = 4 ∷ 0 ∷ []; dest = 0 ∷ 80 ∷ []; syn = 1; ack = 0 });
  udp = none;
}

-- every address has the identity 7
abbrev ids : LpmKey → Option ℕ
ids k = some 7

abbrev forward : ConntrackKeyV4
forward = record {
  src_ip = 0x0a000001;
  dst_ip = 0x0a000002;
  src_port = 1024;
  dst_port = 80;
  proto = 6;
  pad = 0;
}

abbrev nothing : Table
nothing = []

nothing-IsOneWay : IsOneWay table nothing
unfolding tracking
nothing-IsOneWay j pad ne = inl refl

try_ingress-IsOneWay_example :
    IsOneWay table (try_ingress 3 table ids Endian.little 100 syn nothing).1
try_ingress-IsOneWay_example =
    try_ingress-IsOneWay 3 table ids Endian.little 100 syn nothing table-Evicts nothing-IsOneWay

nothing-forward : table.get nothing forward ≡ none
unfolding tracking
nothing-forward = refl

forward_inserted :
    table.get (try_ingress 3 table ids Endian.little 100 syn nothing).1 forward
    ≡ some (record { last_seen_ns = 100 })
unfolding tracking
forward_inserted = refl

try_ingress-opens_example :
    (h : Ipv4Hdr) × (p : Ports) × Tracked 3 ids Endian.little syn h p
    × (p.should_insert ≡ true)
    × (forward ≡ packet_key h p)
    × (table.get nothing (reverse_key forward) ≡ none)
try_ingress-opens_example =
    try_ingress-opens 3 table ids Endian.little 100 syn nothing forward
      (record { last_seen_ns = 100 }) table-Evicts nothing-forward forward_inserted

abbrev One : Type 0
One = Option (ConntrackKeyV4 × ConntrackValue)

one_iter : One → List (Result (ConntrackKeyV4 × ConntrackValue))
one_iter none = []
one_iter (some x) = ok x ∷ []

one_remove : ConntrackKeyV4 → One → One
one_remove k none = none
one_remove k (some (j, v)) = ite (conntrack_key_eq.same k j) none (some (j, v))

one_view : One → ConntrackKeyV4 → Option ConntrackValue
one_view none k = none
one_view (some (j, v)) k = ite (conntrack_key_eq.same k j) (some v) none

-- a map with room for one entry
abbrev one_map : CtMap One
one_map = record { iter = one_iter; remove = λ k m. (ok tt, one_remove k m) }

one_remove-same : (k : ConntrackKeyV4) (m : One) → one_view (one_remove k m) k ≡ none
unfolding one_remove one_view
one_remove-same k none = refl
one_remove-same k (some (j, v)) = ground arith

one_remove-other :
    (k j : ConntrackKeyV4) (m : One) → j ≢ k → one_view (one_remove k m) j ≡ one_view m j
unfolding one_remove one_view
one_remove-other k j none ne = refl
one_remove-other k j (some (i, v)) ne = ground arith

one_iter-view :
    (m : One) (k : ConntrackKeyV4) (v : ConntrackValue)
    → one_view m k ≡ some v
    → Listed k v (one_iter m)
unfolding one_iter one_view
one_iter-view none k v h = absurd (cc)
one_iter-view (some (j, w)) k v h = inl (ground arith)

one_view-iter :
    (m : One) (k : ConntrackKeyV4) (v : ConntrackValue)
    → Listed k v (one_iter m)
    → one_view m k ≡ some v
unfolding one_iter one_view
one_view-iter none k v h = absurd h
one_view-iter (some (j, w)) k v (inl e) = ground arith
one_view-iter (some (j, w)) k v (inr h) = absurd h

abbrev one_map-CtLaws : CtLaws one_map
one_map-CtLaws = record {
  view = one_view;
  remove_same = λ k m _. one_remove-same k m;
  listed_of_view = one_iter-view;
  view_of_listed = one_view-iter;
  remove_other = one_remove-other;
}

abbrev udp_entry : ConntrackKeyV4
udp_entry = record { src_ip = 1; dst_ip = 2; src_port = 3; dst_port = 4; proto = 17; pad = 0 }

abbrev old_map : One
old_map = some (udp_entry, record { last_seen_ns = 5 })

old_view : one_view old_map udp_entry ≡ some (record { last_seen_ns = 5 })
unfolding tracking one_view
old_view = refl

timeout_udp : timeout 17 ≡ 60_000_000_000
unfolding tracking
timeout_udp = refl

-- 60 seconds have just passed
kept : (cleanup_map one_map (ok 60_000_000_005) old_map).1 ≡ old_map
unfolding tracking one_iter one_remove
kept = refl

cleanup_map-Swept_example :
    Swept one_map one_map-CtLaws 60_000_000_006 udp_entry
      (record { last_seen_ns = 5 })
      (cleanup_map one_map (ok 60_000_000_006) old_map).0
      (one_view (cleanup_map one_map (ok 60_000_000_006) old_map).1 udp_entry)
cleanup_map-Swept_example =
    cleanup_map-Swept one_map one_map-CtLaws 60_000_000_006 old_map udp_entry
      (record { last_seen_ns = 5 }) old_view
