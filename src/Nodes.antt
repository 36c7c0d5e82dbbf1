-- ===== src/Nodes.antt =====
-- mesh-cni/src/kubernetes/node.rs: the taints that keep pods from a node until the agent is ready.
-- The API server behind `kube` is the parameter `NodeApi`; of a node the fields that are read are
-- modelled, and `others` stands for the rest of it and of a taint.
pub mod Taints
use mesh_cni.Prelude.Result.{Result, ok, err, Proc, pure}
use mesh_cni.Prelude.{
  String, List, [], ◌∷◌, Option, some, none, Bool, true, false, not, ◌||◌, if◌then◌else◌,
}
use text.Mathlib.Text.{◌==◌ as str_eq}

pub record Taint : Type 0 where
  pub key : String
  pub others : String

pub record NodeSpec (Others : Type 0) : Type 0 where
  pub taints : Option (List Taint)
  pub others : Others

pub record Node (Others : Type 0) : Type 0 where
  pub name_any : String
  pub spec : Option (NodeSpec Others)

pub record NodeApi (S Others : Type 0) : Type 0 where
  pub get : S → String → Result (Node Others)
  pub replace : String → Node Others → Proc S (Unit {0})

abbrev taint_mesh_startup : String
taint_mesh_startup = "mesh-cni.dev/startup"

abbrev taint_cilium_startup : String
taint_cilium_startup = "node.cilium.io/agent-not-ready"

unfoldable pub is_startup : Taint → Bool
is_startup t = str_eq t.key taint_mesh_startup || str_eq t.key taint_cilium_startup

unfoldable pub retain : {A : Type 0} → (A → Bool) → List A → List A
retain p [] = []
retain p (x ∷ xs) = let rest = retain p xs in if p x then x ∷ rest else rest

abbrev pub without_startup : List Taint → List Taint
without_startup = retain (λ t. not (is_startup t))

module _ {S Others : Type 0} (api : NodeApi S Others) where
  -- The node that is sent, where it has taints.
  abbrev pub untainted : Node Others → NodeSpec Others → List Taint → Node Others
  untainted node spec taints = record node {
    spec = some (record spec { taints = some (without_startup taints) });
  }

  abbrev pub with_taints : Node Others → NodeSpec Others → Option (List Taint) → Proc S (Unit {0})
  with_taints node spec none = pure tt
  with_taints node spec (some taints) = api.replace node.name_any (untainted node spec taints)

  abbrev pub with_spec : Node Others → Option (NodeSpec Others) → Proc S (Unit {0})
  with_spec node none = pure tt
  with_spec node (some spec) = with_taints node spec spec.taints

  abbrev pub on_node : Result (Node Others) → Proc S (Unit {0})
  on_node (err e) s = (err e, s)
  on_node (ok node) s = with_spec node node.spec s

  unfoldable pub remove_startup_taint : String → Proc S (Unit {0})
  remove_startup_taint node_name s = on_node (api.get s node_name) s
