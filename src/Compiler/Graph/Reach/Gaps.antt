-- ===== src/Compiler/Graph/Reach/Gaps.antt =====
-- The required nodes that do not gate a terminal node, in the graph of the nodes:
-- `_required_ancestor_gaps` of src/millforge/compiler/graph.py.
use mathlib.Core.Path.{subst}
use millforge.Prelude.{String, List, [], true, some, ◌≡◌, ◌≢◌, sym, ◌∙◌, ◌↔◌}
use millforge.Compiler.Collections.{member, string_eq}
use millforge.Compiler.Source.{HarnessNodeSource}
use millforge.Compiler.Graph.{
  Adjacency, nodes_from, invalid_pairs, valid_adjacency, reverse_adjacency, is_known, targets,
}
use millforge.Compiler.Graph.Edges.{IsValidEdge}
use millforge.Compiler.Graph.Edges.Adjacency.{IsAdjacency, valid_adjacency-IsAdjacency}
use millforge.Compiler.Graph.Edges.Reverse.{IsReverse, reverse_adjacency-IsReverse}
use millforge.Compiler.Graph.Reach.{missing_required}
use millforge.Compiler.Graph.Reach.Ancestors.{IsAncestor, IsMissing, missing_required-IsMissing}
use millforge.Compiler.Graph.Satisfiable.Prerequisites.{some-injective}

-- `p` is a direct or indirect prerequisite of `t`, by the edges that the nodes declare.
pub data IsPrerequisite (nodes : List HarnessNodeSource) (t : String) : String → Type 0 where
  direct : {p : String} → IsValidEdge nodes (nodes_from [] nodes) t p → IsPrerequisite nodes t p
  further :
      {q p : String}
      → IsPrerequisite nodes t q
      → IsValidEdge nodes (nodes_from [] nodes) q p
      → IsPrerequisite nodes t p

-- A required node that does not gate the terminal node.
pub record IsUngated (nodes : List HarnessNodeSource) (required : List String) (t x : String)
    : Type 0 where
  pub is_required : member x required ≡ true
  pub is_other : x ≢ t
  pub is_no_prerequisite : ¬ IsPrerequisite nodes t x

module _ (nodes : List HarnessNodeSource) (reversed : Adjacency) (r : IsReverse nodes reversed)
    (t : String) where
  IsPrerequisite-IsAncestor : {p : String} → IsPrerequisite nodes t p → IsAncestor reversed t p
  unfolding targets
  IsPrerequisite-IsAncestor (IsPrerequisite.direct {p} e) = IsAncestor.direct ((r.holds t p).1 e)
  IsPrerequisite-IsAncestor (IsPrerequisite.further {q} {p} i e) =
      IsAncestor.further (IsPrerequisite-IsAncestor i) ((r.holds q p).1 e)

  IsAncestor-IsPrerequisite : {p : String} → IsAncestor reversed t p → IsPrerequisite nodes t p
  unfolding targets
  IsAncestor-IsPrerequisite (IsAncestor.direct {p} m) = IsPrerequisite.direct ((r.holds t p).0 m)
  IsAncestor-IsPrerequisite (IsAncestor.further {q} {p} i m) =
      IsPrerequisite.further (IsAncestor-IsPrerequisite i) ((r.holds q p).0 m)

  IsMissing-iff-IsUngated :
      (required : List String) (x : String)
      → IsMissing reversed required t x ↔ IsUngated nodes required t x
  IsMissing-iff-IsUngated required x = (
    λ m. record {
      is_required = m.is_required;
      is_other = m.is_other;
      is_no_prerequisite = λ i. m.is_no_ancestor (IsPrerequisite-IsAncestor i);
    },
    λ u. record {
      is_required = u.is_required;
      is_other = u.is_other;
      is_no_ancestor = λ i. u.is_no_prerequisite (IsAncestor-IsPrerequisite i);
    },
  )

-- For the reverse of the adjacency that is computed from the nodes, and a node of the graph, the
-- walk of `_required_ancestor_gaps` meets no KeyError and ends, and the gap is exactly the
-- required nodes, other than the node, that are no direct or indirect prerequisite of it, by the
-- edges that the nodes declare to known, other, non-terminal nodes, each once.
pub missing_required-AreMissing :
    (nodes : List HarnessNodeSource) (adjacency reversed : Adjacency) (required : List String)
    (t : String)
    → valid_adjacency nodes (invalid_pairs nodes (nodes_from [] nodes)) ≡ some adjacency
    → reverse_adjacency (nodes_from [] nodes) adjacency ≡ some reversed
    → is_known (nodes_from [] nodes) t ≡ true
    → (out : List String) × (missing_required reversed required t ≡ some out)
      × ((x : String) → (member x out ≡ true) ↔ IsUngated nodes required t x)
unfolding is_known targets
missing_required-AreMissing nodes adjacency reversed required t e f known =
    let (made, made_is, a0) = valid_adjacency-IsAdjacency nodes in
    let a = subst (IsAdjacency nodes) (some-injective made adjacency (sym made_is ∙ e)) a0 in
    let (back, back_is, r0) = reverse_adjacency-IsReverse nodes adjacency a in
    let r = subst (IsReverse nodes) (some-injective back reversed (sym back_is ∙ f)) r0 in
    let (out, out_is, found) =
      missing_required-IsMissing reversed required t (λ q p m. r.has p ∙ ((r.holds q p).0 m).known)
        (r.has t ∙ known) in
    let same = IsMissing-iff-IsUngated nodes reversed r t required in
    (out, out_is, λ x. (λ m. (same x).0 ((found x).0 m), λ u. (found x).1 ((same x).1 u)))
