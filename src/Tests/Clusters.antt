-- ===== src/Tests/Clusters.antt =====
-- A deleted cluster whose controllers still run.
use mesh_cni.Clusters.{
  Controllers, new_cancellation, request_shutdown, is_shutdown_complete, mark_shutdown_complete,
  cleanup, handle, reconcile,
}
use mesh_cni.Prelude.HashMap
use mesh_cni.Prelude.HashMap.{string_key}
use mesh_cni.Prelude.Result.{ok}
use mesh_cni.Prelude.{[], ◌∷◌, ◌≡◌, refl}
use mesh_cni.Reconcile.{Action}

abbrev running : Controllers
running = ("west", new_cancellation) ∷ []

clusters : Unit {0}
unfolding cleanup handle reconcile request_shutdown is_shutdown_complete mark_shutdown_complete
    HashMap.get HashMap.insert HashMap.remove
clusters = tt

-- once the controllers have ended, the entry goes
ended :
    cleanup "west" (("west", mark_shutdown_complete (request_shutdown new_cancellation)) ∷ [])
    ≡ (ok Action.await_change, [])
unfolding clusters
ended = refl

-- while they run, they are asked to end and the entry stays
asked :
    cleanup "west" running
    ≡ (ok (Action.requeue 5000), ("west", request_shutdown new_cancellation) ∷ [])
unfolding clusters
asked = refl
