-- ===== src/Compiler/Graph/Reach.antt =====
-- The two walks over a harness graph, src/millforge/compiler/graph.py: the nodes that an unresolved
-- node blocks, and the required nodes that are no ancestors of a terminal node. Each `while` loop is
-- a recursion on fuel, and a stack has its top in front.
pub mod Blocked
pub mod Ancestors
pub mod Gaps
use mathlib.Core.List.{reverse}
use millforge.Compiler.Graph.{Adjacency}
use millforge.Prelude.{
  ℕ, zero, suc, ◌+◌, String, str_eq, List, [], ◌∷◌, ◌++◌, length, Bool, true, false, Option, none,
  some, if◌then◌else◌, lookup,
}
use millforge.Compiler.Collections.{
  member, difference, set_of, sorted, text_leb, keys, get_or, string_eq,
}

-- The `for` loop over the dependents: the blocked nodes and the stack.
unfoldable pub block_dependents :
    List String → List String → List String → List String × List String
block_dependents [] blocked stack = (blocked, stack)
block_dependents (d ∷ ds) blocked stack =
    block_dependents ds (if member d blocked then blocked else d ∷ blocked)
      (if member d blocked then stack else d ∷ stack)

-- The nodes that the adjacency points to.
unfoldable pub all_targets : Adjacency → List String
all_targets [] = []
all_targets ((k, vs) ∷ adjacency) = vs ++ all_targets adjacency

module _ (adjacency : Adjacency) where
  unfoldable pub block_from : ℕ → List String → List String → Option (List String)
  unfolding block_dependents lookup
  block_from fuel blocked [] = some blocked
  block_from zero blocked (current ∷ stack) = none
  block_from (suc fuel) blocked (current ∷ stack) =
      let (blocked', stack') = block_dependents (get_or current adjacency []) blocked stack in
      block_from fuel blocked' stack'

-- `_nodes_blocked_by_unresolved`, of the keys of the two dictionaries
unfoldable pub nodes_blocked_by_unresolved :
    List String → Adjacency → List String → Option (List String)
unfolding block_from all_targets difference sorted
nodes_blocked_by_unresolved node_ids adjacency resolved_ids =
    let unresolved = difference node_ids resolved_ids in
    block_from adjacency (length unresolved + length (all_targets adjacency)) unresolved
      (reverse (sorted text_leb unresolved))

-- A KeyError of `reverse[current]`, or no fuel left, is `none`.
module _ (reversed : Adjacency) where
  unfoldable pub ancestors_from : ℕ → List String → List String → Option (List String)
  unfolding lookup
  ancestors_from fuel ancestors [] = some ancestors
  ancestors_from zero ancestors (current ∷ stack) = none
  ancestors_from (suc fuel) ancestors (current ∷ stack) = elim (member current ancestors) [
    | true ↦ ancestors_from fuel ancestors stack
    | false ↦ elim (lookup current reversed) [
      | none ↦ none
      | some prior ↦ ancestors_from fuel (current ∷ ancestors) (reverse prior ++ stack)
    ]
  ]

  -- The ancestors of one terminal node.
  unfoldable pub ancestors_of : String → Option (List String)
  unfolding ancestors_from all_targets lookup
  ancestors_of terminal_node_id = elim (lookup terminal_node_id reversed) [
    | none ↦ none
    | some prior ↦ ancestors_from (length prior + length (all_targets reversed)) [] (reverse prior)
  ]

  -- `tuple(sorted(required - ancestors - {terminal_node_id}))`
  unfoldable pub missing_required : List String → String → Option (List String)
  unfolding ancestors_of difference sorted set_of
  missing_required required terminal_node_id = elim (ancestors_of terminal_node_id) [
    | none ↦ none
    | some ancestors ↦ some (
        sorted text_leb
          (difference (difference (set_of required) ancestors) (terminal_node_id ∷ [])))
  ]

  -- The gaps that are not empty, in the order of the dictionary.
  unfoldable pub gaps_of : List String → List String → Option Adjacency
  unfolding missing_required
  gaps_of required [] = some []
  gaps_of required (t ∷ ts) =
      let rest = gaps_of required ts in
      elim (missing_required required t) [
        | none ↦ none
        | some [] ↦ rest
        | some (m ∷ ms) ↦ elim rest [ none ↦ none | some gaps ↦ some ((t, m ∷ ms) ∷ gaps) ]
      ]
