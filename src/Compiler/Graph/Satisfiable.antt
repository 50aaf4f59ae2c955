-- ===== src/Compiler/Graph/Satisfiable.antt =====
-- Which nodes can be reached with their prerequisites met, src/millforge/compiler/graph.py. The
-- recursion takes fuel; `none` is a KeyError or no fuel left.
pub mod Prerequisites
pub mod Answers
pub mod Met
use millforge.Prelude.{
  ℕ, zero, suc, String, List, [], ◌∷◌, length, any, Bool, true, false, Option, none, some, lookup,
}
use millforge.Compiler.Collections.{
  member, sorted, text_leb, insert, keys, string_eq, pair_eq, ◌>>=◌,
}
use millforge.Compiler.Source.{PrerequisiteSource, HarnessNodeSource}
use millforge.Compiler.Graph.{Adjacency, Nodes, Pairs}

-- The answers so far.
abbrev pub Memo : Type 0
Memo = List (String × Bool)

-- Whether a node has a refused prerequisite.
abbrev pub has_invalid : Pairs → HarnessNodeSource → Bool
has_invalid invalid node =
    any (λ (p : PrerequisiteSource). member (node.node_id, p.node_id) invalid) node.prerequisites

-- `all(satisfiable(p) for p in ps)`, which stops at the first that is not.
unfoldable pub all_satisfiable :
    (String → Memo → Option (Bool × Memo)) → List String → Memo → Option (Bool × Memo)
all_satisfiable satisfiable [] memo = some (true, memo)
all_satisfiable satisfiable (p ∷ ps) memo = do
  r ← satisfiable p memo
  elim r.0 [ true ↦ all_satisfiable satisfiable ps r.1 | false ↦ some (false, r.1) ]

abbrev pub remember : String → Bool × Memo → Bool × Memo
remember id (b, memo) = (b, insert id b memo)

module _ (nodes_by_id : Nodes) (reversed : Adjacency) (cycle_nodes : List String)
    (invalid : Pairs) where
  -- The rest of a call for a node in no cycle, by whether a prerequisite of it is refused.
  unfoldable pub settle :
      (String → Memo → Option (Bool × Memo)) → String → Memo → Bool → Option (Bool × Memo)
  settle satisfiable id memo true = some (remember id (false, memo))
  settle satisfiable id memo false = do
    prior ← lookup id reversed
    r ← all_satisfiable satisfiable prior memo
    some (remember id r)

  -- The rest of a call with no answer yet, by whether the node is in a cycle.
  unfoldable pub examine :
      (String → Memo → Option (Bool × Memo)) → String → Memo → Bool → Option (Bool × Memo)
  examine satisfiable id memo true = some (remember id (false, memo))
  examine satisfiable id memo false = do
    node ← lookup id nodes_by_id
    settle satisfiable id memo (has_invalid invalid node)

  -- A call, by the answer that the memo has.
  unfoldable pub recall :
      (String → Memo → Option (Bool × Memo)) → String → Memo → Option Bool → Option (Bool × Memo)
  recall satisfiable id memo (some b) = some (b, memo)
  recall satisfiable id memo none = examine satisfiable id memo (member id cycle_nodes)

  unfoldable pub satisfiable : ℕ → String → Memo → Option (Bool × Memo)
  satisfiable zero id memo = none
  satisfiable (suc fuel) id memo = recall (satisfiable fuel) id memo (lookup id memo)

  -- `{node_id for node_id in sorted(nodes_by_id) if satisfiable(node_id)}`
  unfoldable pub satisfiable_from : ℕ → List String → Memo → Option (List String)
  unfolding satisfiable
  satisfiable_from fuel [] memo = some []
  satisfiable_from fuel (id ∷ ids) memo = do
    r ← satisfiable fuel id memo
    rest ← satisfiable_from fuel ids r.1
    elim r.0 [ true ↦ some (id ∷ rest) | false ↦ some rest ]

  unfoldable pub satisfiable_nodes : Option (List String)
  unfolding satisfiable_from keys sorted
  satisfiable_nodes =
      satisfiable_from (suc (length (keys nodes_by_id))) (sorted text_leb (keys nodes_by_id)) []
