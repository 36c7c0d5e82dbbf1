-- ===== src/Tests/Reconciles.antt =====
-- The controller on a deleted object.
use mesh_cni.Common.{ServiceKey, service_key_v4_eq, service_key_v6_eq, endpoint_key_eq}
use mesh_cni.Prelude.{String, [], ◌∷◌, some, Bool, true, false, ◌≡◌, refl, arith}
use mesh_cni.Prelude.HashMap
use mesh_cni.Prelude.HashMap.{HashMap}
use mesh_cni.Prelude.Result.{ok}
use mesh_cni.Reconcile.Calls.{deleted_service_stays}
use mesh_cni.Reconcile.{Action, MeshController, remove_keys, update_pairs, apply_pairs, reconcile}
use mesh_cni.Service.Listing.{listing, IsNumbered}
use mesh_cni.Service.State.Ids.{Call, run-HasIds}
use mesh_cni.Service.State.{update_state, remove_state, v4_endpoints}
use mesh_cni.Tests.Fixture.{services4, endpoints4, web}
use mesh_cni.Tests.Ids.{states, FullState, services6, endpoints6, one, with_one, start}

reconciling : Unit {0}
unfolding states reconcile apply_pairs remove_keys update_pairs
reconciling = tt

-- the one object there is: deleted, and the same as the cached one
abbrev deleted : MeshController (Unit {0})
deleted = record {
  namespace = λ o. some "default";
  labels = λ o. [];
  is_deleted = λ o. true;
  generate_service_pairs = λ o. (ServiceKey.v4 web, one) ∷ [];
  is_current = λ o. true;
}

-- no label matches
abbrev matches : String → String → HashMap String String → Bool
matches key value labels = false

abbrev with_web : FullState
with_web = with_one start

with_web-IsNumbered : IsNumbered with_web.id with_web.service_endpoint_v4
unfolding reconciling
with_web-IsNumbered =
    (run-HasIds services4 endpoints4 services6 endpoints6 [] [] [] []
      (Call.upsert (ServiceKey.v4 web) one ∷ []) (omega arith) refl).v4

with_web-get :
    HashMap.get web with_web.service_endpoint_v4.service_cache
    ≡ some (record { id = 128; count = 1 })
unfolding reconciling
with_web-get = refl

deleted_ok :
    (reconcile
      (update_state services4 endpoints4 services6 endpoints6)
      (remove_state services4 endpoints4 services6 endpoints6)
      deleted
      matches
      tt
      with_web).0
    ≡ ok Action.await_change
unfolding reconciling
deleted_ok = refl

deleted_service_stays_example :
    listing
      (reconcile
        (update_state services4 endpoints4 services6 endpoints6)
        (remove_state services4 endpoints4 services6 endpoints6)
        deleted
        matches
        tt
        with_web).1.service_endpoint_v4
      web
    ≡ some (v4_endpoints one)
deleted_service_stays_example =
    deleted_service_stays services4 endpoints4 services6 endpoints6 deleted matches tt "default" web
      (record { id = 128; count = 1 }) one with_web refl refl refl refl refl with_web-IsNumbered
      with_web-get deleted_ok
