-- ===== src/Compiler/Graph/Validate/Total.antt =====
-- `validate_harness_graph` of src/millforge/compiler/graph.py returns or raises a ValidationError; it
-- meets no KeyError and no walk in it goes on for ever.
use mathlib.Core.Path.{subst}
use millforge.Prelude.{
  ℕ, String, List, [], ◌∷◌, true, Option, none, some, is_some, ◌≡◌, refl, sym, ◌∙◌, inl, inr,
  lookup, arith, str_eq, Bool-cases,
}
use text.Mathlib.TextEquality.{eq_iff}
use millforge.Compiler.Collections.{member, sorted, text_leb, keys, string_eq, pair_eq}
use millforge.Compiler.Collections.Laws.{member-sorted}
use millforge.Compiler.Source.{HarnessNodeSource, Value, ResolvedNode}
use millforge.Compiler.Diagnostics.{Fallible, ◌>>=◌, each, or_stuck, Redaction}
use millforge.Compiler.Diagnostics.Outcomes.{Ends, Ends->>=, Ends-each}
use millforge.Compiler.Graph.{
  Adjacency, nodes_from, invalid_pairs, valid_adjacency, reverse_adjacency, is_known, targets,
}
use millforge.Compiler.Graph.Cycles.{cycle_components, cycle_nodes}
use millforge.Compiler.Graph.Cycles.Correct.{cycle_components-AreCycles}
use millforge.Compiler.Graph.Edges.Adjacency.{valid_adjacency-IsAdjacency, Memᴰ-is_known}
use millforge.Compiler.Graph.Edges.Reverse.{reverse_adjacency-IsReverse}
use millforge.Compiler.Graph.Reach.{missing_required, gaps_of, nodes_blocked_by_unresolved}
use millforge.Compiler.Graph.Reach.Ancestors.{IsClosed, missing_required-IsMissing}
use millforge.Compiler.Graph.Reach.Blocked.{nodes_blocked_by_unresolved-IsBlocked}
use millforge.Compiler.Graph.Satisfiable.{satisfiable_nodes}
use millforge.Compiler.Graph.Satisfiable.Met.{satisfiable_nodes-AreMet}
use millforge.Compiler.Graph.Arguments.{resolved_entries, node_leb, argument_diagnostics}
use millforge.Compiler.Graph.Validate.{
  validate_harness_graph, edge_diagnostics, terminal_diagnostics, terminals_of, required_of,
  key_leb, cycle_diagnostic, required_terminal_diagnostics, reach_diagnostics,
}
use millforge.Compiler.Graph.Validate.Checks.{terminals_of-member}
use millforge.Compiler.Graph.Validate.Raises.{
  ok-Ends, edge_diagnostics-Ends, terminal_diagnostics-Ends, cycle_diagnostic-Ends,
}
use millforge.Compiler.Graph.Validate.Ends.{
  required_terminal_diagnostics-Ends, reach_diagnostics-Ends, argument_diagnostics-Ends,
}

Ends-or_stuck :
    {A B : Type 0} (o : Option A) (f : A → Fallible B) (a : A)
    → o ≡ some a
    → Ends (f a)
    → Ends (or_stuck o >>= f)
Ends-or_stuck none f a e h = cc
Ends-or_stuck (some b) f a e h = let same : a ≡ b = cc in subst (λ x. Ends (f x)) same h

gaps_of-cons :
    (reversed : Adjacency) (required ts missing : List String) (t : String) (gaps : Adjacency)
    → missing_required reversed required t ≡ some missing
    → gaps_of reversed required ts ≡ some gaps
    → (all : Adjacency) × (gaps_of reversed required (t ∷ ts) ≡ some all)
unfolding gaps_of
gaps_of-cons reversed required ts [] t gaps e f = (gaps, rw (gaps_of, e) f)
gaps_of-cons reversed required ts (m ∷ ms) t gaps e f =
    ((t, m ∷ ms) ∷ gaps, rw (gaps_of, e, f) refl)

-- The gaps of terminals that the dictionary has.
gaps_of_total :
    (reversed : Adjacency) (required ts : List String)
    → IsClosed reversed
    → ((t : String) → member t ts ≡ true → is_some (lookup t reversed) ≡ true)
    → (gaps : Adjacency) × (gaps_of reversed required ts ≡ some gaps)
unfolding gaps_of
gaps_of_total reversed required [] closed known = ([], refl)
gaps_of_total reversed required (t ∷ ts) closed known =
    let (missing, e, m) =
      missing_required-IsMissing reversed required t closed
        (known t (ground (arith, eq_iff t t))) in
    let (gaps, f) = gaps_of_total reversed required ts closed (λ s h. known s (ground arith)) in
    gaps_of-cons reversed required ts missing t gaps e f

member-pair_keys :
    (t : String) (d : List (String × String))
    → member t (keys d) ≡ true
    → (r : String) × (member (t, r) d ≡ true)
unfolding keys
member-pair_keys t [] m = cc
member-pair_keys t ((k, v) ∷ d) m = elim (Bool-cases (str_eq t k)) [
  | inl same ↦ (v, ground (arith, eq_iff v v))
  | inr other ↦ let (r, h) = member-pair_keys t d (ground arith) in (r, ground arith)
]

module _ (nodes : List HarnessNodeSource) where
  terminal_is_known :
      (t : String)
      → member t (sorted text_leb (keys (sorted key_leb (terminals_of nodes)))) ≡ true
      → is_known (nodes_from [] nodes) t ≡ true
  terminal_is_known t m =
      let terminals = sorted key_leb (terminals_of nodes) in
      let (r, h) =
        member-pair_keys t terminals (sym (member-sorted text_leb t (keys terminals)) ∙ m) in
      let (n, l, e, is) =
        terminals_of-member nodes t r
          (sym (member-sorted key_leb (t, r) (terminals_of nodes)) ∙ h) in
      subst (λ x. is_known (nodes_from [] nodes) x ≡ true) (sym e) (Memᴰ-is_known nodes [] n l)

module _ (redaction : Redaction) (compatibility_bytes : Value → Fallible (List ℕ))
    (total : (v : Value) → Ends (compatibility_bytes v)) where
  -- Where the bytes of every schema can be computed or raise a ValueError,
  -- `validate_harness_graph` returns or raises a ValueError, for every graph: it meets no
  -- KeyError, and no walk in it runs out of fuel.
  pub validate_harness_graph-Ends :
      (nodes : List HarnessNodeSource) (resolved : List (String × ResolvedNode))
      (allowed : Option (List String))
      → Ends (validate_harness_graph redaction compatibility_bytes nodes resolved allowed)
  unfolding validate_harness_graph is_known targets
  validate_harness_graph-Ends nodes resolved allowed =
      let by_id = nodes_from [] nodes in
      let resolved_by_id = resolved_entries resolved in
      let invalid = invalid_pairs nodes by_id in
      let terminals = sorted key_leb (terminals_of nodes) in
      let required = sorted text_leb (required_of nodes) in
      let sorted_nodes = sorted node_leb nodes in
      let (adjacency, adjacency_is, a) = valid_adjacency-IsAdjacency nodes in
      let (components, components_are, c) = cycle_components-AreCycles adjacency in
      let (reversed, reversed_is, r) = reverse_adjacency-IsReverse nodes adjacency a in
      let (satisfied, satisfied_are, s) =
        satisfiable_nodes-AreMet nodes adjacency reversed components adjacency_is reversed_is
          components_are in
      let (blocked, blocked_are, b) =
        nodes_blocked_by_unresolved-IsBlocked (keys by_id) (keys resolved_by_id) adjacency in
      let closed : IsClosed reversed = λ q p m. r.has p ∙ ((r.holds q p).0 m).known in
      let (gaps, gaps_are) =
        gaps_of_total reversed required (sorted text_leb (keys terminals)) closed
          (λ t m. r.has t ∙ terminal_is_known nodes t m) in
      Ends->>= (edge_diagnostics redaction nodes by_id) _
        (edge_diagnostics-Ends redaction nodes by_id)
        (λ edges _. Ends-or_stuck (valid_adjacency nodes invalid) _ adjacency adjacency_is (
          Ends-or_stuck (cycle_components adjacency) _ components components_are (
            Ends->>= (each (cycle_diagnostic redaction) components) _
              (Ends-each _ (cycle_diagnostic-Ends redaction) components)
              (λ cycles _.
                Ends->>= (terminal_diagnostics redaction allowed terminals) _
                  (terminal_diagnostics-Ends redaction allowed terminals)
                  (λ terminal _.
                    Ends->>= (required_terminal_diagnostics redaction sorted_nodes) _
                      (required_terminal_diagnostics-Ends redaction sorted_nodes)
                      (λ required_terminals _.
                        Ends-or_stuck (reverse_adjacency by_id adjacency) _ reversed reversed_is (
                          Ends-or_stuck
                            (satisfiable_nodes by_id reversed (cycle_nodes components) invalid) _
                            satisfied satisfied_are
                            (Ends-or_stuck
                              (nodes_blocked_by_unresolved (keys by_id) adjacency
                                (keys resolved_by_id))
                              _ blocked blocked_are
                              (Ends-or_stuck
                                (gaps_of reversed required (sorted text_leb (keys terminals))) _
                                gaps gaps_are
                                (Ends->>=
                                  (reach_diagnostics redaction invalid (cycle_nodes components)
                                    blocked satisfied required gaps sorted_nodes)
                                  _
                                  (reach_diagnostics-Ends redaction invalid (cycle_nodes components)
                                    blocked satisfied required gaps sorted_nodes)
                                  (λ reach _.
                                    Ends->>=
                                      (argument_diagnostics redaction compatibility_bytes by_id
                                        resolved_by_id invalid nodes)
                                      _
                                      (argument_diagnostics-Ends redaction compatibility_bytes total
                                        by_id resolved_by_id invalid nodes)
                                      (λ arguments _. ok-Ends _))))))))))))
