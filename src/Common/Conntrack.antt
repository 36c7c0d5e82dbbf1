-- ===== src/Common/Conntrack.antt =====
-- mesh-cni-ebpf-common/src/conntrack.rs: the connection tracking map's key and value.
use mesh_cni.Prelude.{ℕ, ℕ_discrete}
use mesh_cni.Prelude.HashMap.{Key}

pub record ConntrackKeyV4 : Type 0 where
  pub src_ip : ℕ
  pub dst_ip : ℕ
  pub src_port : ℕ
  pub dst_port : ℕ
  pub proto : ℕ
  pub pad : ℕ

pub record ConntrackValue : Type 0 where
  pub last_seen_ns : ℕ

unfoldable pub ConntrackKeyV4-discrete : Discrete ConntrackKeyV4
ConntrackKeyV4-discrete = hlevel ℕ_discrete

instance abbrev pub conntrack_key_eq : Key ConntrackKeyV4
conntrack_key_eq = record { same = ConntrackKeyV4-discrete }
