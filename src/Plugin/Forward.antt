-- ===== src/Plugin/Forward.antt =====
-- The chained commands of the plugin: what is sent to the agent and what is answered.
use mesh_cni.Plugin.{Agent, Interface}
use mesh_cni.Prelude.{String, List, [], ◌∷◌, ◌++◌, some, none, ◌≡◌, ◌⊎◌}
use mesh_cni.Prelude.Result.{Result, ok, err}

-- The interfaces of the host.
unfoldable pub of_host : List Interface → List Interface
of_host [] = []
of_host (i ∷ rest) = elim i.sandbox [ some path ↦ of_host rest | none ↦ i ∷ of_host rest ]

module _ {Req Reply : Type 0} (agent : Agent Req Reply) where
  unfoldable pub Accepted : List Req → List Req → Type 0
  Accepted sent [] = Unit
  Accepted sent (q ∷ rest) =
      ((a : Reply) × (agent sent q ≡ ok a)) × Accepted (sent ++ (q ∷ [])) rest

  -- All requests are sent and accepted, or those up to the first that is refused.
  abbrev pub Sent : List Req → List Req → Result (Unit {0}) × List Req → Type 0
  Sent sent reqs r =
      (Accepted sent reqs × (r ≡ (ok tt, sent ++ reqs)))
      ⊎ ((done : List Req) × (q : Req) × (rest : List Req) × (e : String) × (reqs
            ≡ done ++ (q ∷ rest))
          × Accepted sent done
          × (agent (sent ++ done) q ≡ err e)
          × (r ≡ (err e, (sent ++ done) ++ (q ∷ []))))
