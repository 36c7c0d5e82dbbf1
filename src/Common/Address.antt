-- ===== src/Common/Address.antt =====
-- The standard library's IP addresses by their bits.
use mesh_cni.Prelude.{ℕ}

pub data IpAddr : Type 0 where
  v4 : ℕ → IpAddr
  v6 : ℕ → IpAddr
