-- ===== src/Compiler/Graph/Cycles/Correct.antt =====
-- The components and the nodes that `_cycle_components` and `_cycle_nodes` of
-- src/millforge/compiler/graph.py report.
use mathlib.Core.List.{Memᴰ}
use millforge.Compiler.Graph.{Adjacency}
use millforge.Prelude.{
  String, List, [], true, false, some, ◌≡◌, ◌≢◌, refl, sym, ◌∙◌, ◌↔◌, inl, inr, Bool-cases,
}
use millforge.Compiler.Collections.{member, keys, sorted, text_leb, texts_leb, string_eq, ◌>>=◌}
use millforge.Compiler.Collections.Laws.{member-sorted}
use millforge.Compiler.Graph.Walks.{Reaches}
use millforge.Compiler.Graph.Cycles.{Tarjan, empty_state, cycle_components, cycle_nodes}
use millforge.Compiler.Graph.Cycles.Invariant.{Together, Other, Inv}
use millforge.Compiler.Graph.Cycles.Named.{
  Memᴰ-sorted, keys-all_nodes, Reaches-first, member-cycle_nodes,
}
use millforge.Compiler.Graph.Cycles.Roots.{empty-Inv, visit_roots-Inv}

module _ (adjacency : Adjacency) where
  -- With no gray node, the stack is empty.
  stack_empty : (s : Tarjan) → Inv adjacency [] s → (x : String) → member x s.stack ≡ false
  stack_empty s i x = elim (Bool-cases (member x s.stack)) [
    | inl m ↦ let d = i.down x m in let g = d.is_gray in cc
    | inr h ↦ h
  ]

  -- A node on a cycle with another node.
  pub record IsCyclic (x : String) : Type 0 where
    pub other : String
    pub differs : x ≢ other
    pub there : Reaches adjacency x other
    pub back : Reaches adjacency other x

  -- The components of the cycles: nodes of one reach one another, and two nodes that reach one
  -- another share one.
  pub record AreCycles (components : List (List String)) : Type 0 where
    pub sound :
        (c : List String) (x y : String)
        → Memᴰ c components
        → member x c ≡ true
        → member y c ≡ true
        → Reaches adjacency x y
    pub wide : (c : List String) (x : String) → Memᴰ c components → member x c ≡ true → Other c x
    pub complete :
        (x y : String)
        → x ≢ y
        → Reaches adjacency x y
        → Reaches adjacency y x
        → Together components x y

  -- `_cycle_components` gives its answer for every adjacency, with no KeyError and with the fuel
  -- it is given. Any two nodes of a component reach one another, each node of it has another one
  -- in it, and any two different nodes that reach one another are in one component.
  pub cycle_components-AreCycles :
      (components : List (List String)) × (cycle_components adjacency ≡ some components)
      × AreCycles components
  unfolding cycle_components
  cycle_components-AreCycles =
      let ids = sorted text_leb (keys adjacency) in
      let (t, e, i, more, all) =
        visit_roots-Inv adjacency ids empty_state (empty-Inv adjacency) (λ x m.
          keys-all_nodes adjacency x (sym (member-sorted text_leb x (keys adjacency)) ∙ m)) in
      (
        sorted texts_leb t.components,
        rw (e, ◌>>=◌) refl,
        record {
          sound = λ c x y m. i.sound c x y ((Memᴰ-sorted texts_leb c t.components).0 m);
          wide = λ c x m. i.wide c x ((Memᴰ-sorted texts_leb c t.components).0 m);
          complete = λ x y ne there back. elim (Reaches-first adjacency there) [
            | inl same ↦ absurd (ne same)
            | inr k ↦
                let seen = all x (member-sorted text_leb x (keys adjacency) ∙ k) in
                let g = i.complete x y seen (stack_empty t i x) there back ne in
                record {
                  component = g.component;
                  found = (Memᴰ-sorted texts_leb g.component t.components).1 g.found;
                  has_first = g.has_first;
                  has_second = g.has_second;
                }
          ];
        },
      )

  pub AreCycles-IsCyclic :
      (components : List (List String))
      → AreCycles components
      → (x : String) → (member x (cycle_nodes components) ≡ true) ↔ IsCyclic x
  AreCycles-IsCyclic components a x = (
    λ m.
        let (c, found, h) = (member-cycle_nodes components x).0 m in
        let o = a.wide c x found h in
        record {
          other = o.node;
          differs = o.differs;
          there = a.sound c x o.node found h o.is_in;
          back = a.sound c o.node x found o.is_in h;
        },
    λ k.
        let t = a.complete x k.other k.differs k.there k.back in
        (member-cycle_nodes components x).1 (t.component, t.found, t.has_first),
  )

  -- For every adjacency, the nodes that `_cycle_nodes` takes from the components are exactly those
  -- on a cycle with another node.
  pub cycle_nodes-IsCyclic :
      (components : List (List String)) × (cycle_components adjacency ≡ some components)
      × ((x : String) → (member x (cycle_nodes components) ≡ true) ↔ IsCyclic x)
  cycle_nodes-IsCyclic =
      let (components, e, a) = cycle_components-AreCycles in
      (components, e, AreCycles-IsCyclic components a)
