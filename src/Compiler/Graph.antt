-- ===== src/Compiler/Graph.antt =====
-- The edges of a harness graph, src/millforge/compiler/graph.py: the prerequisites that are refused,
-- and the adjacency of the others. A prerequisite points to the nodes that depend on it.
pub mod Walks
pub mod Reach
pub mod Cycles
pub mod Edges
pub mod Satisfiable
pub mod Arguments
pub mod Validate
use millforge.Prelude.{
  ℕ, String, str_eq, List, [], ◌∷◌, ◌++◌, map, Bool, true, false, ◌&&◌, ◌||◌, not, Option, none,
  some, is_some, if◌then◌else◌, lookup,
}
use millforge.Compiler.Collections.{
  member, add, set_of, sorted, text_leb, insert, keys, get_or, string_eq, pair_eq, ◌>>=◌,
}
use millforge.Compiler.Source.{PrerequisiteSource, HarnessNodeSource}

abbrev pub Nodes : Type 0
Nodes = List (String × HarnessNodeSource)

abbrev pub Adjacency : Type 0
Adjacency = List (String × List String)

-- A dependent and its prerequisite.
abbrev pub Pairs : Type 0
Pairs = List (String × String)

-- `{node.node_id: node for node in source.graph.nodes}`
unfoldable pub nodes_from : Nodes → List HarnessNodeSource → Nodes
unfolding insert
nodes_from d [] = d
nodes_from d (node ∷ nodes) = nodes_from (insert node.node_id node d) nodes

-- The prerequisites of one node that come again.
unfoldable pub duplicates_of : String → List String → List PrerequisiteSource → Pairs
duplicates_of id seen [] = []
duplicates_of id seen (p ∷ ps) =
    let rest = duplicates_of id (p.node_id ∷ seen) ps in
    if member p.node_id seen then (id, p.node_id) ∷ rest else rest

unfoldable pub duplicate_prerequisite_pairs : List HarnessNodeSource → Pairs
unfolding duplicates_of
duplicate_prerequisite_pairs [] = []
duplicate_prerequisite_pairs (node ∷ nodes) =
    duplicates_of node.node_id [] node.prerequisites ++ duplicate_prerequisite_pairs nodes

-- `{(node.node_id, prerequisite.node_id) for node in nodes for prerequisite in node.prerequisites
-- if …}`
unfoldable pub node_pairs : (String → String → Bool) → String → List PrerequisiteSource → Pairs
node_pairs test id [] = []
node_pairs test id (p ∷ ps) =
    let rest = node_pairs test id ps in if test id p.node_id then (id, p.node_id) ∷ rest else rest

unfoldable pub pairs_where : (String → String → Bool) → List HarnessNodeSource → Pairs
unfolding node_pairs
pairs_where test [] = []
pairs_where test (node ∷ nodes) =
    node_pairs test node.node_id node.prerequisites ++ pairs_where test nodes

unfoldable pub is_known : Nodes → String → Bool
unfolding lookup
is_known nodes_by_id id = is_some (lookup id nodes_by_id)

unfoldable pub is_terminal_node : Nodes → String → Bool
unfolding lookup
is_terminal_node nodes_by_id id = elim (lookup id nodes_by_id) [
  | none ↦ false
  | some node ↦ is_some node.terminal_result
]

unfoldable pub unknown_prerequisite_pairs : List HarnessNodeSource → Nodes → Pairs
unfolding is_known pairs_where
unknown_prerequisite_pairs nodes nodes_by_id =
    pairs_where (λ id p. not (is_known nodes_by_id p)) nodes

unfoldable pub self_prerequisite_pairs : List HarnessNodeSource → Pairs
unfolding pairs_where
self_prerequisite_pairs nodes = pairs_where (λ id p. str_eq p id) nodes

unfoldable pub terminal_as_prerequisite_pairs : List HarnessNodeSource → Nodes → Pairs
unfolding is_terminal_node pairs_where
terminal_as_prerequisite_pairs nodes nodes_by_id =
    pairs_where (λ id p. is_terminal_node nodes_by_id p) nodes

-- `duplicate_edges | unknown_edges | self_edges | terminal_as_prereq_edges`
unfoldable pub invalid_pairs : List HarnessNodeSource → Nodes → Pairs
unfolding duplicate_prerequisite_pairs unknown_prerequisite_pairs self_prerequisite_pairs
    terminal_as_prerequisite_pairs
invalid_pairs nodes nodes_by_id =
    duplicate_prerequisite_pairs nodes
    ++ unknown_prerequisite_pairs nodes nodes_by_id
    ++ self_prerequisite_pairs nodes
    ++ terminal_as_prerequisite_pairs nodes nodes_by_id

-- `{node.node_id: [] for node in nodes}`
unfoldable pub empty_adjacency : Adjacency → List HarnessNodeSource → Adjacency
unfolding insert
empty_adjacency d [] = d
empty_adjacency d (node ∷ nodes) = empty_adjacency (insert node.node_id [] d) nodes

-- `d[k].append(v)`, where `none` is a KeyError
unfoldable pub append_at : String → String → Adjacency → Option Adjacency
append_at k v [] = none
append_at k v ((j, vs) ∷ d) =
    let rest = append_at k v d in
    if str_eq j k then some ((j, vs ++ (v ∷ [])) ∷ d) else (do d' ← rest; some ((j, vs) ∷ d'))

unfoldable pub append_prerequisites :
    Pairs → String → List PrerequisiteSource → Adjacency → Option Adjacency
unfolding append_at
append_prerequisites invalid id [] d = some d
append_prerequisites invalid id (p ∷ ps) d = do
  d' ← if member (id, p.node_id) invalid then some d else append_at p.node_id id d
  append_prerequisites invalid id ps d'

unfoldable pub append_edges : Pairs → List HarnessNodeSource → Adjacency → Option Adjacency
unfolding append_prerequisites
append_edges invalid [] d = some d
append_edges invalid (node ∷ nodes) d = do
  d' ← append_prerequisites invalid node.node_id node.prerequisites d
  append_edges invalid nodes d'

abbrev pub sort_targets : String × List String → String × List String
sort_targets (k, vs) = (k, sorted text_leb (set_of vs))

unfoldable pub valid_adjacency : List HarnessNodeSource → Pairs → Option Adjacency
unfolding empty_adjacency append_edges sorted set_of
valid_adjacency nodes invalid = do
  d ← append_edges invalid nodes (empty_adjacency [] nodes)
  some (map sort_targets d)

-- `adjacency.get(id, ())`
unfoldable pub targets : Adjacency → String → List String
unfolding lookup
targets adjacency id = get_or id adjacency []

unfoldable pub empty_reverse : Adjacency → Nodes → Adjacency
unfolding insert
empty_reverse d [] = d
empty_reverse d ((id, node) ∷ nodes) = empty_reverse (insert id [] d) nodes

unfoldable pub append_all : String → List String → Adjacency → Option Adjacency
unfolding append_at
append_all prerequisite [] d = some d
append_all prerequisite (dependent ∷ dependents) d = do
  d' ← append_at dependent prerequisite d
  append_all prerequisite dependents d'

unfoldable pub append_reversed : Adjacency → Adjacency → Option Adjacency
unfolding append_all
append_reversed [] d = some d
append_reversed ((prerequisite, dependents) ∷ rest) d = do
  d' ← append_all prerequisite dependents d
  append_reversed rest d'

abbrev pub sort_values : String × List String → String × List String
sort_values (k, vs) = (k, sorted text_leb vs)

unfoldable pub reverse_adjacency : Nodes → Adjacency → Option Adjacency
unfolding empty_reverse append_reversed sorted
reverse_adjacency nodes_by_id adjacency = do
  d ← append_reversed adjacency (empty_reverse [] nodes_by_id)
  some (map sort_values d)
