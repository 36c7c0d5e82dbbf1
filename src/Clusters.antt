-- ===== src/Clusters.antt =====
-- mesh-cni-cluster-controller/src/controller.rs and context.rs: the shutdown of a deleted cluster's
-- controllers. A cancellation and its handle share a token and a channel, which stand in the table
-- under the cluster's name; `finalizer` of the crate kube is a parameter of which nothing is
-- assumed. The program starts with an empty table and fills it nowhere yet.
pub mod Cleaned
use mesh_cni.Prelude.HashMap
use mesh_cni.Prelude.HashMap.{HashMap, string_key}
use mesh_cni.Prelude.Result.{Result, ok, Proc, pure, ◌>>=◌}
use mesh_cni.Prelude.{ℕ, String, Option, some, none, Bool, true, false, if◌then◌else◌}
use mesh_cni.Reconcile.{Action}

pub data ShutdownState : Type 0 where
  running completed : ShutdownState

-- The token, whether it is cancelled, and what the channel holds.
pub record ClusterCancellation : Type 0 where
  pub cancel : Bool
  pub shutdown : ShutdownState

-- `ClusterCancellation::new`
abbrev pub new_cancellation : ClusterCancellation
new_cancellation = record { cancel = false; shutdown = ShutdownState.running }

unfoldable pub request_shutdown : ClusterCancellation → ClusterCancellation
request_shutdown c = record c { cancel = true }

unfoldable pub is_shutdown_complete : ClusterCancellation → Bool
is_shutdown_complete c = elim c.shutdown [
  | ShutdownState.running ↦ false
  | ShutdownState.completed ↦ true
]

unfoldable pub mark_shutdown_complete : ClusterCancellation → ClusterCancellation
mark_shutdown_complete c = record c { shutdown = ShutdownState.completed }

-- `Context::controllers`, behind its mutex.
abbrev pub Controllers : Type 0
Controllers = HashMap String ClusterCancellation

-- In milliseconds.
abbrev shutdown_requeue : ℕ
shutdown_requeue = 5000

abbrev default_requeue : ℕ
default_requeue = 300000

-- kube's `finalizer::Event`, of which the cluster is given apart.
pub data Event : Type 0 where
  to_apply to_clean_up : Event

unfoldable pub cleanup : String → Proc Controllers Action
cleanup name controllers = elim (HashMap.get name controllers) [
  | some cancellation ↦
      let asked = HashMap.insert name (request_shutdown cancellation) controllers in
      if is_shutdown_complete cancellation
      then (ok Action.await_change, HashMap.remove name asked)
      else (ok (Action.requeue shutdown_requeue), asked)
  | none ↦ (ok Action.await_change, HashMap.remove name controllers)
]

unfoldable pub reconcile_cluster : Proc Controllers Action
reconcile_cluster = pure (Action.requeue default_requeue)

-- The closure of `reconcile`.
unfoldable pub handle : String → Event → Proc Controllers Action
handle name Event.to_apply = reconcile_cluster
handle name Event.to_clean_up = cleanup name

module _ {Api : Type 0}
    (finalizer : (Event → Proc Controllers Action) → Proc (Api × Controllers) Action) where
  unfoldable pub reconcile : String → Proc (Api × Controllers) Action
  reconcile name = finalizer (handle name) >>= λ _. pure (Action.requeue default_requeue)
