-- ===== src/Connect4.antt =====
-- mesh-cni-service-ebpf/src/service.rs and main.rs: the program at `connect4`, which replaces the
-- address of a service by that of one of its endpoints. The kernel's maps are functions here, and
-- the random number is an argument. `Err` carries an exit code, as `Ok` does.
pub mod Backends
pub mod Fresh
use mesh_cni.Common.{
  ServiceKeyV4, service_key_v4_new, ServiceValue, EndpointKey, endpoint_key, EndpointValueV4,
}
use mesh_cni.Prelude.{ℕ, ◌%◌, ◌^◌, Option, some, none, ltb, ◌==◌, not, if◌then◌else◌}
use mesh_cni.Prelude.Bytes.{Endian, to_be, from_be}

-- The fields of `bpf_sock_addr` that the program reads or writes, 32 bits each.
pub record SockAddr : Type 0 where
  pub user_family : ℕ
  pub user_ip4 : ℕ
  pub user_port : ℕ
  pub protocol : ℕ

-- `Result<T, i32>`
pub data Verdict (A : Type 0) : Type 0 where
  ok : A → Verdict A
  err : ℕ → Verdict A

abbrev pub af_inet : ℕ
af_inet = 2

unfoldable pub build_service_key : Endian → SockAddr → Verdict ServiceKeyV4
build_service_key e ctx =
    if ltb ctx.protocol (2 ^ 8)
    then ok (
        service_key_v4_new (from_be e 4 ctx.user_ip4) (from_be e 2 (ctx.user_port % 2 ^ 16))
          ctx.protocol)
    else err 1

-- `get_position`, with the number that `get_random` returns.
unfoldable pub get_position : ℕ → ℕ → ℕ
get_position random count = (random % 2 ^ 16) % count

-- The two stores to the context.
unfoldable pub redirect : Endian → EndpointValueV4 → SockAddr → SockAddr
redirect e ep ctx = record ctx { user_ip4 = to_be e 4 ep.ip; user_port = to_be e 2 ep.port }

module _ (e : Endian) (services : ServiceKeyV4 → Option ServiceValue)
    (endpoints : EndpointKey → Option EndpointValueV4) (random : ℕ) where
  unfoldable pub choose : ServiceValue → SockAddr → Verdict ℕ × SockAddr
  choose v ctx =
      if v.count == 0
      then (err 0, ctx)
      else elim (endpoints (endpoint_key v.id (get_position random v.count))) [
        | some ep ↦ (ok 1, redirect e ep ctx)
        | none ↦ (ok 1, ctx)
      ]

  unfoldable pub try_connect4 : SockAddr → Verdict ℕ × SockAddr
  try_connect4 ctx =
      if not (ctx.user_family == af_inet) then (ok 1, ctx) else elim (build_service_key e ctx) [
        | err ret ↦ (err ret, ctx)
        | ok k ↦ elim (services k) [ none ↦ (ok 1, ctx) | some v ↦ choose v ctx ]
      ]

-- `mesh_cni_cgroup_connect4`
unfoldable pub exit_code : Verdict ℕ → ℕ
exit_code (ok ret) = ret
exit_code (err ret) = ret
