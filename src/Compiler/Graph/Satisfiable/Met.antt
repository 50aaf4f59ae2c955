-- ===== src/Compiler/Graph/Satisfiable/Met.antt =====
-- `_satisfiable_nodes` of src/millforge/compiler/graph.py on the graph of the nodes.
use millforge.Prelude.{suc, String, List, [], length, true, some, ◌≡◌, refl, sym, ◌∙◌, ◌↔◌, arith}
use mathlib.Core.Path.{subst}
use millforge.Compiler.Collections.{member, sorted, text_leb, keys, get_or, string_eq}
use millforge.Compiler.Collections.Laws.{member-sorted}
use millforge.Compiler.Source.{HarnessNodeSource}
use millforge.Compiler.Graph.{
  Adjacency, Nodes, nodes_from, invalid_pairs, valid_adjacency, reverse_adjacency, is_known,
  targets,
}
use millforge.Compiler.Graph.Walks.{Reaches, here, step, Reaches-trans}
use millforge.Compiler.Graph.Cycles.{cycle_components, cycle_nodes}
use millforge.Compiler.Graph.Cycles.Correct.{
  IsCyclic, AreCycles, cycle_components-AreCycles, AreCycles-IsCyclic,
}
use millforge.Compiler.Graph.Edges.Adjacency.{IsAdjacency, valid_adjacency-IsAdjacency}
use millforge.Compiler.Graph.Edges.Reverse.{IsReverse, reverse_adjacency-IsReverse}
use millforge.Compiler.Graph.Reach.Blocked.{outside-le}
use millforge.Compiler.Graph.Reach.Ancestors.{IsAncestor, direct, further}
use millforge.Compiler.Graph.Satisfiable.{satisfiable_nodes}
use millforge.Compiler.Graph.Satisfiable.Prerequisites.{IsMet, some-injective, member-keys}
use millforge.Compiler.Graph.Satisfiable.Answers.{satisfiable_from-Kept}

module _ (nodes : List HarnessNodeSource) where
  abbrev by_id : Nodes
  by_id = nodes_from [] nodes

  module _ (adjacency reversed : Adjacency) (a : IsAdjacency nodes adjacency)
      (r : IsReverse nodes reversed) where
    Edge-of :
        (d p : String)
        → member p (get_or d reversed []) ≡ true
        → member d (get_or p adjacency []) ≡ true
    unfolding targets
    Edge-of d p m = (a.holds d p).1 ((r.holds d p).0 m)

    IsAncestor-Reaches : {t p : String} → IsAncestor reversed t p → Reaches adjacency p t
    IsAncestor-Reaches {t} (direct {p} m) = step here (Edge-of t p m)
    IsAncestor-Reaches (further {q} {p} i m) =
        Reaches-trans adjacency (step here (Edge-of q p m)) (IsAncestor-Reaches i)

    IsAncestor-IsCyclic : {x : String} → IsAncestor reversed x x → IsCyclic adjacency x
    unfolding targets
    IsAncestor-IsCyclic {x} (direct m) = absurd (((r.holds x x).0 m).other refl)
    IsAncestor-IsCyclic {x} (further {q} i m) = record {
      other = q;
      differs = λ e. ((r.holds q x).0 m).other (sym e);
      there = step here (Edge-of q x m);
      back = IsAncestor-Reaches i;
    }

  -- The nodes that a set of nodes should have.
  pub record AreMet (reversed : Adjacency) (cyclic list : List String) : Type 0 where
    pub met :
        (x : String)
        → (member x list ≡ true)
          ↔ ((is_known by_id x ≡ true) × IsMet by_id reversed cyclic (invalid_pairs nodes by_id) x)

  -- For the adjacency, its reverse and the cycles that are computed from the nodes,
  -- `_satisfiable_nodes` gives an answer: exactly the nodes in no cycle with no refused
  -- prerequisite whose prerequisites are such nodes too, as an inductive family has it. The memo
  -- and the order of the calls do not matter.
  pub satisfiable_nodes-AreMet :
      (adjacency reversed : Adjacency) (components : List (List String))
      → valid_adjacency nodes (invalid_pairs nodes by_id) ≡ some adjacency
      → reverse_adjacency by_id adjacency ≡ some reversed
      → cycle_components adjacency ≡ some components
      → (list : List String) × (satisfiable_nodes by_id reversed
            (cycle_nodes components)
            (invalid_pairs nodes by_id)
          ≡ some list)
        × AreMet reversed (cycle_nodes components) list
  unfolding satisfiable_nodes is_known targets
  satisfiable_nodes-AreMet adjacency reversed components e f g =
      let (made, made_is, a0) = valid_adjacency-IsAdjacency nodes in
      let a = subst (IsAdjacency nodes) (some-injective made adjacency (sym made_is ∙ e)) a0 in
      let (back, back_is, r0) = reverse_adjacency-IsReverse nodes adjacency a in
      let r = subst (IsReverse nodes) (some-injective back reversed (sym back_is ∙ f)) r0 in
      let (found, found_is, c0) = cycle_components-AreCycles adjacency in
      let c = subst (AreCycles adjacency) (some-injective found components (sym found_is ∙ g)) c0 in
      let ids = sorted text_leb (keys by_id) in
      let listed : (x : String) → member x ids ≡ is_known by_id x =
        λ x. member-sorted text_leb x (keys by_id) ∙ sym (member-keys x by_id) in
      let k =
        satisfiable_from-Kept by_id reversed (cycle_nodes components) (invalid_pairs nodes by_id)
          r.has (λ q p m. ((r.holds q p).0 m).known)
          (λ x i.
            (AreCycles-IsCyclic adjacency components c x).1
              (IsAncestor-IsCyclic adjacency reversed a r i))
          (suc (length (keys by_id))) ids [] (λ x m. sym (listed x) ∙ m) (λ x b m. absurd cc)
          (omega (arith, outside-le [] (keys by_id))) in
      (
        k.list,
        k.returns,
        record {
          met = λ x. (
            λ m. let (i, h) = (k.met x).0 m in (sym (listed x) ∙ i, h),
            λ h. (k.met x).1 (listed x ∙ h.0, h.1),
          );
        },
      )
