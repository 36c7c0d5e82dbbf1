-- ===== src/Clusters/Cleaned.antt =====
-- The table of clusters after a clean-up.
use mesh_cni.Clusters.{
  ClusterCancellation, Controllers, request_shutdown, is_shutdown_complete, cleanup,
}
use mesh_cni.Prelude.HashMap
use mesh_cni.Prelude.HashMap.{string_key}
use mesh_cni.Prelude.{
  String, Option, some, none, ◌≡◌, sym, ◌∙◌, ite, if_pos, if_neg, inl, inr, Option-cases,
  Bool-cases, if◌then◌else◌,
}

-- What a clean-up makes of a cluster's entry.
abbrev pub cleaned : Option ClusterCancellation → Option ClusterCancellation
cleaned none = none
cleaned (some c) = if is_shutdown_complete c then none else some (request_shutdown c)

get-insert_remove :
    (name j : String) (c : ClusterCancellation) (s : Controllers)
    → HashMap.get j (HashMap.remove name (HashMap.insert name c s))
      ≡ ite (string_key.same j name) none (HashMap.get j s)
get-insert_remove name j c s = elim (string_key.same j name) [
  | yes p ↦
      HashMap.get-remove name j (HashMap.insert name c s)
      ∙ if_pos (string_key.same j name) p none _
      ∙ sym (if_pos (string_key.same j name) p none _)
  | no p ↦
      HashMap.get-remove name j (HashMap.insert name c s)
      ∙ if_neg (string_key.same j name) p none _
      ∙ HashMap.get-insert name j c s
      ∙ if_neg (string_key.same j name) p (some c) _
      ∙ sym (if_neg (string_key.same j name) p none _)
]

-- A clean-up takes a cluster's entry out of the table once the shutdown of its controllers is
-- complete, and until then asks for it and keeps the entry. No other entry changes.
pub get-cleanup :
    (name j : String) (s : Controllers)
    → HashMap.get j (cleanup name s).1
      ≡ ite (string_key.same j name) (cleaned (HashMap.get name s)) (HashMap.get j s)
unfolding cleanup
get-cleanup name j s = elim (Option-cases (HashMap.get name s)) [
  | inl absent ↦ rw (absent, cleanup) (HashMap.get-remove name j s)
  | inr (c, present) ↦ elim (Bool-cases (is_shutdown_complete c)) [
    | inl complete ↦
        rw (present, cleanup, complete) (get-insert_remove name j (request_shutdown c) s)
    | inr running ↦
        rw (present, cleanup, running) (HashMap.get-insert name j (request_shutdown c) s)
  ]
]
