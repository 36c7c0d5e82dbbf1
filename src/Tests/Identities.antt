-- ===== src/Tests/Identities.antt =====
-- The identities of one namespace with a pod and a stale identity.
use mesh_cni.IdentityGen.Desired.{FindsByName, Needed}
use mesh_cni.IdentityGen.Plan.{delete-reconcile_namespace, patch-reconcile_namespace}
use mesh_cni.IdentityGen.{
  IdentitySpec, Identity, Namespace, Pod, Outcome, Request, spec_of, is_text, remove_label,
  sanitize_pod_labels, uses, pick_id, contains, with_id, get_or_generate_identity, prepend,
  collect_desired, stale, stale_name, planned, reconcile_namespace,
}
use mesh_cni.Prelude.{String, List, [], ◌∷◌, Option, some, none, true, ◌≡◌, ◌↔◌, refl, IsIn}

program : Unit {0}
unfolding remove_label sanitize_pod_labels uses pick_id contains with_id get_or_generate_identity
    prepend collect_desired stale stale_name planned reconcile_namespace
program = tt

-- every spec has the same hash
abbrev hash_name : IdentitySpec → Option String
hash_name spec = some "aa"

-- no identity is found in the store
abbrev get : String → String → Option Identity
get name ns = none

get-FindsByName : FindsByName hash_name get []
get-FindsByName name ns i h = absurd (cc)

abbrev ns : Namespace
ns = record { name_any = "web"; labels = ("env", "test") ∷ [] }

abbrev pod : Pod
pod = record { namespace = some "web"; labels = ("app", "demo") ∷ ("pod-template-hash", "x") ∷ [] }

-- an identity that no pod needs, with the id 7
abbrev old : Identity
old = record {
  name = some "bb";
  namespace = some "web";
  spec = record { namespace_labels = []; pod_labels = []; id = 7 };
}

abbrev made : Identity
made = record { name = some "aa"; namespace = none; spec = record (spec_of ns pod) { id = 8 } }

abbrev all : List Request
all = Request.patch "aa" made ∷ Request.delete "bb" ∷ []

planned_all :
    reconcile_namespace hash_name get (old ∷ []) (old ∷ []) ns (pod ∷ []) (7 ∷ 8 ∷ 9 ∷ [])
    ≡ Outcome.ok all (9 ∷ [])
unfolding program
planned_all = refl

delete-reconcile_namespace_example : IsIn (Request.delete "bb") all ↔ (
    ((i : Identity) × IsIn i (old ∷ [])
      × (is_text i.namespace ns.name_any ≡ true)
      × (i.name ≡ some "bb"))
    × ¬ Needed hash_name get (old ∷ []) ns (pod ∷ []) "bb")
delete-reconcile_namespace_example =
    delete-reconcile_namespace hash_name get (old ∷ []) (old ∷ []) ns (pod ∷ []) (7 ∷ 8 ∷ 9 ∷ [])
      (9 ∷ []) all "bb" get-FindsByName planned_all

patch-reconcile_namespace_example :
    ((i : Identity) × IsIn (Request.patch "aa" i) all)
    ↔ Needed hash_name get (old ∷ []) ns (pod ∷ []) "aa"
patch-reconcile_namespace_example =
    patch-reconcile_namespace hash_name get (old ∷ []) (old ∷ []) ns (pod ∷ []) (7 ∷ 8 ∷ 9 ∷ [])
      (9 ∷ []) all "aa" get-FindsByName planned_all
