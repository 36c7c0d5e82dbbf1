-- ===== src/Tests/Connects.antt =====
-- Connections to a service, on a little-endian machine.
use mesh_cni.BpfMap.Laws.{hash_map-IsMap}
use mesh_cni.Common.{
  ServiceKeyV4, ServiceValue, EndpointKey, EndpointValueV4, endpoint_key, service_key_v4_eq,
  endpoint_key_eq,
}
use mesh_cni.Connect4.Backends.{try_connect4-redirect, exit_code-try_connect4}
use mesh_cni.Connect4.Fresh.{
  connect, connect-update_new, connect-update_shrunk, connect-update_known, connect-remove,
}
use mesh_cni.Connect4.{
  SockAddr, Verdict, af_inet, build_service_key, get_position, try_connect4, exit_code,
}
use mesh_cni.Prelude.{
  ℕ, ◌<◌, ◌≤◌, List, [], ◌∷◌, Option, some, none, ◌≡◌, ◌⊎◌, ◌↔◌, refl, arith, length, get_elem?,
}
use mesh_cni.Prelude.Bytes
use mesh_cni.Prelude.Bytes.{Endian}
use mesh_cni.Prelude.HashMap
use mesh_cni.Prelude.Result.{ok}
use mesh_cni.Service
use mesh_cni.Service.Mirror.{IsMirror, update-IsMirror}
use mesh_cni.Tests.Fixture.{program, services4, endpoints4, web, endpoint, two, fresh, with_web}

connecting : Unit {0}
unfolding program build_service_key get_position Bytes.to_be Bytes.swap_bytes
connecting = tt

-- a connection to 10.0.0.1:80, in network order
abbrev ctx : SockAddr
ctx = record { user_family = 2; user_ip4 = 0x0100000a; user_port = 0x5000; protocol = 6 }

built : build_service_key Endian.little ctx ≡ Verdict.ok web
unfolding connecting
built = refl

fresh-IsMirror : IsMirror hash_map-IsMap hash_map-IsMap fresh
fresh-IsMirror = record { same_services = λ k. refl; same_endpoints = λ k. refl }

with_web-IsMirror : IsMirror hash_map-IsMap hash_map-IsMap with_web
with_web-IsMirror = update-IsMirror hash_map-IsMap hash_map-IsMap web two 128 fresh fresh-IsMirror

fresh-web : HashMap.get web fresh.service_cache ≡ none
unfolding connecting
fresh-web = refl

update_web : (Service.update services4 endpoints4 web two 128 fresh).0 ≡ ok 129
unfolding connecting
update_web = refl

connect-update_new_example :
    (i : ℕ) × (ep : EndpointValueV4) × (i < length two)
    × (get_elem? two i ≡ some ep)
    × (connect hash_map-IsMap hash_map-IsMap Endian.little 7 web ctx with_web ≡ (
      Verdict.ok 1,
      record ctx {
        user_ip4 = Bytes.to_be Endian.little 4 ep.ip;
        user_port = Bytes.to_be Endian.little 2 ep.port;
      },
    ))
connect-update_new_example =
    connect-update_new hash_map-IsMap hash_map-IsMap Endian.little 7 web ctx fresh fresh-IsMirror
      refl built two 128 (omega arith) fresh-web update_web

abbrev web_value : ServiceValue
web_value = record { id = 128; count = 2 }

with_web-web : HashMap.get web with_web.service_cache ≡ some web_value
unfolding connecting
with_web-web = refl

abbrev one : List EndpointValueV4
one = endpoint 3 ∷ []

update_one : (Service.update services4 endpoints4 web one 129 with_web).0 ≡ ok 128
unfolding connecting
update_one = refl

position_7 : get_position 7 2 ≡ 1
unfolding connecting
position_7 = refl

-- the second endpoint is gone, and the random number picks its position
connect-update_shrunk_example :
    connect hash_map-IsMap hash_map-IsMap Endian.little 7 web ctx
      (Service.update services4 endpoints4 web one 129 with_web).1
    ≡ (Verdict.ok 1, ctx)
connect-update_shrunk_example =
    connect-update_shrunk hash_map-IsMap hash_map-IsMap Endian.little 7 web ctx with_web
      with_web-IsMirror refl built one 129 web_value with_web-web (omega (arith, position_7))
      (omega (arith, position_7)) update_one

-- two other endpoints for the service
abbrev others : List EndpointValueV4
others = endpoint 3 ∷ endpoint 4 ∷ []

update_others : (Service.update services4 endpoints4 web others 129 with_web).0 ≡ ok 128
unfolding connecting
update_others = refl

connect-update_known_example :
    (i : ℕ) × (ep : EndpointValueV4) × (i < 2)
    × (get_elem? others i ≡ some ep)
    × (connect hash_map-IsMap hash_map-IsMap Endian.little 7 web ctx
          (Service.update services4 endpoints4 web others 129 with_web).1
        ≡ (
          Verdict.ok 1,
          record ctx {
            user_ip4 = Bytes.to_be Endian.little 4 ep.ip;
            user_port = Bytes.to_be Endian.little 2 ep.port;
          },
        ))
connect-update_known_example =
    connect-update_known hash_map-IsMap hash_map-IsMap Endian.little 7 web ctx with_web
      with_web-IsMirror refl built others 129 web_value (omega arith) (omega arith) with_web-web
      update_others

remove_web : (Service.remove services4 endpoints4 web with_web).0 ≡ ok tt
unfolding connecting
remove_web = refl

connect-remove_example :
    connect hash_map-IsMap hash_map-IsMap Endian.little 7 web ctx
      (Service.remove services4 endpoints4 web with_web).1
    ≡ (Verdict.ok 1, ctx)
connect-remove_example =
    connect-remove hash_map-IsMap hash_map-IsMap Endian.little 7 web ctx with_web with_web-IsMirror
      refl built web_value with_web-web remove_web

-- the kernel's maps with the service `web`
abbrev service_map : ServiceKeyV4 → Option ServiceValue
service_map k = HashMap.get k ((web, web_value) ∷ [])

abbrev endpoint_map : EndpointKey → Option EndpointValueV4
endpoint_map k =
    HashMap.get k ((endpoint_key 128 0, endpoint 1) ∷ (endpoint_key 128 1, endpoint 2) ∷ [])

try_connect4-redirect_example :
    ((try_connect4 Endian.little service_map endpoint_map 7 ctx).1 ≡ ctx)
    ⊎ ((k : ServiceKeyV4) × (v : ServiceValue) × (position : ℕ) × (ep : EndpointValueV4)
        × (build_service_key Endian.little ctx ≡ Verdict.ok k)
        × (service_map k ≡ some v)
        × (position < v.count)
        × (endpoint_map (endpoint_key v.id position) ≡ some ep)
        × (try_connect4 Endian.little service_map endpoint_map 7 ctx ≡ (
          Verdict.ok 1,
          record ctx {
            user_ip4 = Bytes.to_be Endian.little 4 ep.ip;
            user_port = Bytes.to_be Endian.little 2 ep.port;
          },
        )))
try_connect4-redirect_example = try_connect4-redirect Endian.little service_map endpoint_map 7 ctx

exit_code-try_connect4_example :
    (exit_code (try_connect4 Endian.little service_map endpoint_map 7 ctx).0 ≤ 1)
    × ((exit_code (try_connect4 Endian.little service_map endpoint_map 7 ctx).0 ≡ 0) ↔ (
        (ctx.user_family ≡ af_inet)
        × ((k : ServiceKeyV4) × (v : ServiceValue) × (build_service_key Endian.little ctx
              ≡ Verdict.ok k)
            × (service_map k ≡ some v)
            × (v.count ≡ 0))))
exit_code-try_connect4_example = exit_code-try_connect4 Endian.little service_map endpoint_map 7 ctx
