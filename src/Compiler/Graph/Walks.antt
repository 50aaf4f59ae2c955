-- ===== src/Compiler/Graph/Walks.antt =====
-- Walks of an adjacency of src/millforge/compiler/graph.py.
use millforge.Compiler.Graph.{Adjacency}
use millforge.Prelude.{String, [], true, ◌≡◌}
use millforge.Compiler.Collections.{member, get_or, string_eq}

module _ (adjacency : Adjacency) where
  -- `w` depends on `v`.
  abbrev pub Edge : String → String → Type 0
  Edge v w = member w (get_or v adjacency []) ≡ true

  -- The walks from `u`.
  pub data Reaches (u : String) : String → Type 0 where
    here : Reaches u u
    step : {v w : String} → Reaches u v → Edge v w → Reaches u w

  pub Reaches-trans : {u v w : String} → Reaches u v → Reaches v w → Reaches u w
  Reaches-trans p here = p
  Reaches-trans p (step q e) = step (Reaches-trans p q) e
