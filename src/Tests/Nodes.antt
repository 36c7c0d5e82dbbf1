-- ===== src/Tests/Nodes.antt =====
-- A server with one node, which has a taint of the agent's start and another one.
use mesh_cni.Nodes.Taints.{IsNodeApi, taints_in, IsOther, remove_startup_taint_iff}
use mesh_cni.Nodes.{Taint, Node, NodeApi, is_startup, retain, remove_startup_taint}
use mesh_cni.Prelude.HashMap.{string_key}
use mesh_cni.Prelude.Result.{Result, Proc, ok, err}
use mesh_cni.Prelude.{String, Option, IsIn, ◌↔◌, some, none, [], ◌∷◌, ◌≡◌, refl, sym, ap, ◌∙◌}

abbrev same_name : (node : Node String) (name : String) → Dec (node.name_any ≡ name)
same_name node name = string_key.same node.name_any name

abbrev found :
    (node : Node String) (name : String) → Dec (node.name_any ≡ name) → Result (Node String)
found node name (yes p) = ok node
found node name (no p) = err "not found"

abbrev seen :
    (node : Node String) (name : String) → Dec (node.name_any ≡ name) → Option (Node String)
seen node name (yes p) = some node
seen node name (no p) = none

abbrev replaced :
    (name : String) (node : Node String)
    → Dec (node.name_any ≡ name)
    → Proc (Node String) (Unit {0})
replaced name node (yes p) s = (ok tt, node)
replaced name node (no p) s = (err "another name", s)

abbrev server : NodeApi (Node String) String
server = record {
  get = λ s name. found s name (same_name s name);
  replace = λ name node. replaced name node (same_name node name);
}

found-seen :
    (node other : Node String) (name : String) (d : Dec (node.name_any ≡ name))
    → found node name d ≡ ok other
    → (seen node name d ≡ some other) × (other.name_any ≡ name)
found-seen node other name (yes p) h =
    let same : node ≡ other = cc in (ap some same, ap (λ n. n.name_any) (sym same) ∙ p)
found-seen node other name (no p) h = cc

replaced-seen :
    (name : String) (node : Node String) (s : Node String) (d : Dec (node.name_any ≡ name))
    → (replaced name node d s).0 ≡ ok tt
    → seen (replaced name node d s).1 name (same_name (replaced name node d s).1 name) ≡ some node
replaced-seen name node s (yes p) h = seen_same (same_name node name)
  where
    seen_same : (d : Dec (node.name_any ≡ name)) → seen node name d ≡ some node
    seen_same (yes q) = refl
    seen_same (no q) = absurd (q p)
replaced-seen name node s (no p) h = cc

server-IsNodeApi : IsNodeApi server
server-IsNodeApi = record {
  view = λ s name. seen s name (same_name s name);
  got = λ s name node. found-seen s node name (same_name s name);
  replaced = λ name node s. replaced-seen name node s (same_name node name);
}

abbrev other : Taint
other = record { key = "dedicated"; others = "NoSchedule" }

abbrev tainted : Node String
tainted = record {
  name_any = "node-a";
  spec = some (record {
    taints = some (record { key = "mesh-cni.dev/startup"; others = "NoSchedule" } ∷ other ∷ []);
    others = "";
  });
}

cleared : taints_in (remove_startup_taint server "node-a" tainted).1.spec ≡ other ∷ []
unfolding remove_startup_taint retain is_startup
cleared = refl

cleared_ok : (remove_startup_taint server "node-a" tainted).0 ≡ ok tt
unfolding remove_startup_taint retain is_startup
cleared_ok = refl

remove_startup_taint_iff_example :
    (node node' : Node String) × (server-IsNodeApi.view tainted "node-a" ≡ some node)
    × (server-IsNodeApi.view (remove_startup_taint server "node-a" tainted).1 "node-a" ≡ some node')
    × ((t : Taint) → IsIn t (taints_in node'.spec) ↔ (IsIn t (taints_in node.spec) × IsOther t))
remove_startup_taint_iff_example =
    remove_startup_taint_iff server-IsNodeApi "node-a" tainted cleared_ok
