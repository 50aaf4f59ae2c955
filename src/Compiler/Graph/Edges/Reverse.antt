-- ===== src/Compiler/Graph/Edges/Reverse.antt =====
-- The reverse of an adjacency, of src/millforge/compiler/graph.py: the prerequisites of each node.
use mathlib.Core.Path.{fun_ext}
use text.Mathlib.TextEquality.{eq_iff}
use millforge.Prelude.{
  String, str_eq, List, [], ◌∷◌, ◌++◌, true, ◌&&◌, ◌||◌, Option, none, some, is_some, ◌≡◌, refl,
  sym, ap, ◌∙◌, ◌↔◌, inl, inr, lookup, arith, Bool-cases,
}
use millforge.Compiler.Collections.{
  member, or_else, sorted, text_leb, insert, string_eq, pair_eq, ◌>>=◌,
}
use millforge.Compiler.Collections.Laws.{member-append, member-sorted, HasUniqueKeys, has-insert}
use millforge.Compiler.Source.{HarnessNodeSource}
use millforge.Compiler.Graph.{
  Adjacency, Nodes, Pairs, targets, is_known, append_at, append_all, append_reversed, empty_reverse,
  reverse_adjacency,
}
use millforge.Compiler.Graph.Edges.{IsDeclared, IsValidEdge}
use millforge.Compiler.Graph.Edges.Append.{
  targets-cons, append_pairs, append_pairs-append, append_pairs-Extended,
}
use millforge.Compiler.Graph.Edges.Adjacency.{
  IsBlank, IsBlank-insert, nil-IsBlank, IsAdjacency, Memᴰ-is_known, by_id, map_values,
  map_values-IsSame, map-sort_values,
}

-- A prerequisite with each of its dependents.
fan : String → List String → Pairs
fan p [] = []
fan p (d ∷ ds) = (p, d) ∷ fan p ds

flat : Adjacency → Pairs
flat [] = []
flat ((p, ds) ∷ adjacency) = fan p ds ++ flat adjacency

append_all-eq-append_pairs :
    (p : String) (ds : List String) (d : Adjacency) → append_all p ds d ≡ append_pairs (fan p ds) d
unfolding append_all append_pairs fan
append_all-eq-append_pairs p [] d = refl
append_all-eq-append_pairs p (x ∷ ds) d =
    ap (λ (f : Adjacency → Option Adjacency). append_at x p d >>= f)
      (fun_ext (append_all-eq-append_pairs p ds))

append_reversed-eq-append_pairs :
    (adjacency d : Adjacency) → append_reversed adjacency d ≡ append_pairs (flat adjacency) d
unfolding append_reversed append_pairs flat
append_reversed-eq-append_pairs [] d = refl
append_reversed-eq-append_pairs ((p, ds) ∷ adjacency) d =
    rw (append_pairs-append (fan p ds) (flat adjacency) d) (
      rw (append_all-eq-append_pairs p ds d) (
        ap (λ (f : Adjacency → Option Adjacency). append_pairs (fan p ds) d >>= f)
          (fun_ext (append_reversed-eq-append_pairs adjacency))))

member-fan :
    (x y p : String) (ds : List String) → member (x, y) (fan p ds) ≡ (str_eq x p && member y ds)
unfolding fan
member-fan x y p [] = ground arith
member-fan x y p (d ∷ ds) = ground (arith, member-fan x y p ds)

targets-none : (x : String) (d : Adjacency) → lookup x d ≡ none → targets d x ≡ []
unfolding targets
targets-none x d h = ap (λ o. or_else o []) h

member-flat :
    (x y : String) (adjacency : Adjacency)
    → HasUniqueKeys adjacency
    → member (x, y) (flat adjacency) ≡ member y (targets adjacency x)
unfolding flat lookup
member-flat x y [] u = ap (member y) (sym (targets-none x [] refl))
member-flat x y ((p, ds) ∷ adjacency) u =
    let ih = member-flat x y adjacency u.1 in
    rw
      (
        targets-cons x p ds adjacency,
        member-append (x, y) (fan p ds) (flat adjacency),
        member-fan x y p ds,
        ih,
      )
      (elim (Bool-cases (str_eq p x)) [
        | inl same ↦
            let p_is : p ≡ x = (eq_iff p x).0 same in
            let none_left : targets adjacency x ≡ [] = targets-none x adjacency (rw p_is at u.0) in
            rw (same, none_left) (ground (arith, eq_iff x p))
        | inr other ↦ rw other (ground (arith, eq_iff x p, eq_iff p x))
      ])

empty_reverse-IsBlank :
    (nodes : Nodes) (d : Adjacency) (before : Nodes)
    → IsBlank d before
    → (all : Nodes) × IsBlank (empty_reverse d nodes) all
      × ((j : String) → is_known all j ≡ (is_known before j || is_known nodes j))
unfolding empty_reverse is_known lookup targets
empty_reverse-IsBlank [] d before b = (before, b, λ j. ground arith)
empty_reverse-IsBlank ((id, node) ∷ nodes) d before b =
    let (all, blank, known) =
      empty_reverse-IsBlank nodes (insert id [] d) (insert id node before)
        (IsBlank-insert d before id node b) in
    (all, blank, λ j. ground (arith, known j, has-insert j id node before))

nothing_known :
    (nodes : Nodes) (j : String) → (is_known [] j || is_known nodes j) ≡ is_known nodes j
unfolding is_known lookup
nothing_known nodes j = refl

module _ (nodes : List HarnessNodeSource) where
  -- The reverse of the graph's adjacency: its keys are the nodes.
  pub record IsReverse (reversed : Adjacency) : Type 0 where
    pub has : (j : String) → is_some (lookup j reversed) ≡ is_known (by_id nodes) j
    pub holds :
        (d p : String)
        → (member p (targets reversed d) ≡ true) ↔ IsValidEdge nodes (by_id nodes) d p

  IsDeclared-is_known : (d p : String) → IsDeclared nodes d p → is_known (by_id nodes) d ≡ true
  IsDeclared-is_known d p i = rw i.is_dependent (Memᴰ-is_known nodes [] i.node i.listed)

  pub reverse_adjacency-IsReverse :
      (adjacency : Adjacency)
      → IsAdjacency nodes adjacency
      → (reversed : Adjacency) × (reverse_adjacency (by_id nodes) adjacency ≡ some reversed)
        × IsReverse reversed
  unfolding reverse_adjacency
  reverse_adjacency-IsReverse adjacency a =
      let (all, blank, known) = empty_reverse-IsBlank (by_id nodes) [] [] nil-IsBlank in
      let keyed : (j : String)
          → is_some (lookup j (empty_reverse [] (by_id nodes))) ≡ is_known (by_id nodes) j =
        λ j. blank.has j ∙ (known j ∙ nothing_known (by_id nodes) j) in
      let (d, e, x) =
        append_pairs-Extended (flat adjacency) (empty_reverse [] (by_id nodes)) (λ p y m.
          let w = (a.holds y p).0 (sym (member-flat p y adjacency a.unique) ∙ m) in
          keyed y ∙ IsDeclared-is_known y p w.declared) in
      let same = map_values-IsSame (sorted text_leb) (member-sorted text_leb) d in
      let edge : (y p : String)
          → member p (targets (map_values (sorted text_leb) d) y) ≡ member y (targets adjacency p) =
        λ y p.
          same.holds y p
          ∙ x.holds y p
          ∙ rw (blank.empty y p) (member-flat p y adjacency a.unique) in
      (
        map_values (sorted text_leb) d,
        rw (append_reversed-eq-append_pairs adjacency (empty_reverse [] (by_id nodes)), e)
            (ap some (map-sort_values d)),
        record {
          has = λ j. same.has j ∙ x.has j ∙ keyed j;
          holds =
              λ y p. (λ m. (a.holds y p).0 (sym (edge y p) ∙ m), λ w. edge y p ∙ (a.holds y p).1 w);
        },
      )
