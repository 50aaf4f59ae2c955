-- ===== src/Compiler/Graph/Edges.antt =====
-- What the edges of a harness graph are, for the sets of pairs and the dictionaries of
-- src/millforge/compiler/graph.py.
pub mod Append
pub mod Pairs
pub mod Faults
pub mod Adjacency
pub mod Reverse
use mathlib.Core.List.{Memᴰ}
use millforge.Prelude.{
  ℕ, ◌+◌, ◌≤◌, String, str_eq, List, [], ◌∷◌, Bool, true, false, ◌≡◌, ◌≢◌, if◌then◌else◌,
}
use millforge.Compiler.Source.{PrerequisiteSource, HarnessNodeSource}
use millforge.Compiler.Graph.{Nodes, is_known, is_terminal_node}

-- A node `d` that names `p` among its prerequisites.
pub record IsDeclared (nodes : List HarnessNodeSource) (d p : String) : Type 0 where
  pub node : HarnessNodeSource
  pub listed : Memᴰ node nodes
  pub is_dependent : d ≡ node.node_id
  pub prerequisite : PrerequisiteSource
  pub named : Memᴰ prerequisite node.prerequisites
  pub is_prerequisite : p ≡ prerequisite.node_id

-- How often a node names `p`.
abbrev pub occurrences : String → List PrerequisiteSource → ℕ
occurrences p [] = 0
occurrences p (q ∷ qs) = (if str_eq p q.node_id then 1 else 0) + occurrences p qs

-- A node `d` that names `p` more than once.
pub record IsRepeated (nodes : List HarnessNodeSource) (d p : String) : Type 0 where
  pub node : HarnessNodeSource
  pub listed : Memᴰ node nodes
  pub is_dependent : d ≡ node.node_id
  pub twice : 2 ≤ occurrences p node.prerequisites

-- A prerequisite that none of the four faults has.
pub record IsValidEdge (nodes : List HarnessNodeSource) (nodes_by_id : Nodes) (d p : String)
    : Type 0 where
  pub declared : IsDeclared nodes d p
  pub known : is_known nodes_by_id p ≡ true
  pub other : d ≢ p
  pub no_terminal : is_terminal_node nodes_by_id p ≡ false
  pub once : ¬ IsRepeated nodes d p
