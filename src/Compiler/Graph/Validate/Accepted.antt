-- ===== src/Compiler/Graph/Validate/Accepted.antt =====
-- What `validate_harness_graph` of src/millforge/compiler/graph.py accepts.
use millforge.Prelude.{ℕ, String, List, [], ◌++◌, Option, some, ◌≡◌, ap, ◌∙◌}
use millforge.Compiler.Collections.{sorted, text_leb, keys, string_eq, pair_eq}
use millforge.Compiler.Source.{HarnessNodeSource, Value, ResolvedNode}
use millforge.Compiler.Diagnostics.{Fallible, ok, each, or_stuck, Redaction}
use millforge.Compiler.Diagnostics.Outcomes.{
  >>=-elim, or_stuck-eq-ok, append-eq-nil, sort_diagnostics-eq-nil,
}
use millforge.Compiler.Graph.{
  Adjacency, Nodes, Pairs, nodes_from, invalid_pairs, valid_adjacency, reverse_adjacency,
}
use millforge.Compiler.Graph.Reach.{nodes_blocked_by_unresolved, gaps_of}
use millforge.Compiler.Graph.Cycles.{cycle_components, cycle_nodes}
use millforge.Compiler.Graph.Satisfiable.{satisfiable_nodes}
use millforge.Compiler.Graph.Arguments.{resolved_entries, node_leb, argument_diagnostics}
use millforge.Compiler.Graph.Validate.{
  GraphValidationResult, validate_harness_graph, edge_diagnostics, terminal_diagnostics,
  terminals_of, required_of, required_terminal_diagnostics, reach_diagnostics, cycle_diagnostic,
  key_leb,
}

diagnostics_of : (a b : GraphValidationResult) → ok a ≡ ok b → a.diagnostics ≡ b.diagnostics
diagnostics_of a b h =
    ap (λ (o : Fallible GraphValidationResult). elim o [ ok x ↦ x.diagnostics | _ ↦ a.diagnostics ])
      h

module _ (redaction : Redaction) (nodes : List HarnessNodeSource)
    (resolved : List (String × ResolvedNode)) (allowed : Option (List String)) where
  abbrev nodes_by_id : Nodes
  nodes_by_id = nodes_from [] nodes

  abbrev invalid : Pairs
  invalid = invalid_pairs nodes nodes_by_id

  abbrev terminals : List (String × String)
  terminals = sorted key_leb (terminals_of nodes)

  abbrev required : List String
  required = sorted text_leb (required_of nodes)

  -- The parts of a run that returns with no diagnostics.
  pub record Clean : Type 0 where
    pub adjacency : Adjacency
    pub adjacency_is : valid_adjacency nodes invalid ≡ some adjacency
    pub components : List (List String)
    pub components_are : cycle_components adjacency ≡ some components
    pub reversed : Adjacency
    pub reversed_is : reverse_adjacency nodes_by_id adjacency ≡ some reversed
    pub satisfied : List String
    pub satisfied_is :
        satisfiable_nodes nodes_by_id reversed (cycle_nodes components) invalid ≡ some satisfied
    pub blocked : List String
    pub blocked_is :
        nodes_blocked_by_unresolved (keys nodes_by_id) adjacency (keys (resolved_entries resolved))
        ≡ some blocked
    pub gaps : Adjacency
    pub gaps_are : gaps_of reversed required (sorted text_leb (keys terminals)) ≡ some gaps
    pub no_edges : edge_diagnostics redaction nodes nodes_by_id ≡ ok []
    pub no_cycles : each (cycle_diagnostic redaction) components ≡ ok []
    pub no_terminal : terminal_diagnostics redaction allowed terminals ≡ ok []
    pub no_required : required_terminal_diagnostics redaction (sorted node_leb nodes) ≡ ok []
    pub no_reach :
        reach_diagnostics redaction invalid
          (cycle_nodes components)
          blocked
          satisfied
          required
          gaps
          (sorted node_leb nodes)
        ≡ ok []

  pub validate_harness_graph-Clean :
      (compatibility_bytes : Value → Fallible (List ℕ)) (r : GraphValidationResult)
      → validate_harness_graph redaction compatibility_bytes nodes resolved allowed ≡ ok r
      → r.diagnostics ≡ []
      → Clean
  unfolding validate_harness_graph
  validate_harness_graph-Clean compatibility_bytes r h none_left =
      >>=-elim (edge_diagnostics redaction nodes nodes_by_id) _ h λ edges e₁ h₁.
        >>=-elim (or_stuck (valid_adjacency nodes invalid)) _ h₁ λ adjacency e₂ h₂.
          >>=-elim (or_stuck (cycle_components adjacency)) _ h₂ λ components e₃ h₃.
            >>=-elim (each (cycle_diagnostic redaction) components) _ h₃ λ cycles e₄ h₄.
              >>=-elim (terminal_diagnostics redaction allowed terminals) _ h₄ λ terminal e₅ h₅.
                >>=-elim (required_terminal_diagnostics redaction (sorted node_leb nodes)) _ h₅
                  λ required_terminals e₆ h₆.
                    >>=-elim (or_stuck (reverse_adjacency nodes_by_id adjacency)) _ h₆
                      λ reversed e₇ h₇.
                        >>=-elim
                          (or_stuck (
                            satisfiable_nodes nodes_by_id reversed (cycle_nodes components)
                              invalid))
                          _ h₇
                          λ satisfied e₈ h₈.
                            >>=-elim
                              (or_stuck (
                                nodes_blocked_by_unresolved (keys nodes_by_id) adjacency
                                  (keys (resolved_entries resolved))))
                              _ h₈
                              λ blocked e₉ h₉.
                                >>=-elim
                                  (or_stuck
                                    (gaps_of reversed required (sorted text_leb (keys terminals))))
                                  _ h₉
                                  λ gaps e_a h_a.
                                    >>=-elim
                                      (reach_diagnostics redaction invalid (cycle_nodes components)
                                        blocked satisfied required gaps (sorted node_leb nodes))
                                      _ h_a
                                      λ reach e_b h_b.
                                        >>=-elim
                                          (argument_diagnostics redaction compatibility_bytes
                                            nodes_by_id (resolved_entries resolved) invalid nodes)
                                          _ h_b
                                          λ arguments e_c h_c.
                                            let all_nil =
                                              sort_diagnostics-eq-nil
                                                (edges
                                                  ++ (cycles
                                                      ++ (terminal
                                                          ++ (required_terminals
                                                            ++ (reach ++ arguments)))))
                                                (diagnostics_of _ r h_c ∙ none_left) in
                                            let (n₁, r₁) = append-eq-nil edges _ all_nil in
                                            let (n₂, r₂) = append-eq-nil cycles _ r₁ in
                                            let (n₃, r₃) = append-eq-nil terminal _ r₂ in
                                            let (n₄, r₄) = append-eq-nil required_terminals _ r₃ in
                                            let (n₅, r₅) = append-eq-nil reach _ r₄ in
                                            record {
                                              adjacency = adjacency;
                                              adjacency_is =
                                                  or_stuck-eq-ok (valid_adjacency nodes invalid)
                                                    adjacency e₂;
                                              components = components;
                                              components_are =
                                                  or_stuck-eq-ok (cycle_components adjacency)
                                                    components e₃;
                                              reversed = reversed;
                                              reversed_is =
                                                  or_stuck-eq-ok
                                                    (reverse_adjacency nodes_by_id adjacency)
                                                    reversed e₇;
                                              satisfied = satisfied;
                                              satisfied_is =
                                                  or_stuck-eq-ok
                                                    (satisfiable_nodes nodes_by_id reversed
                                                      (cycle_nodes components) invalid)
                                                    satisfied e₈;
                                              blocked = blocked;
                                              blocked_is =
                                                  or_stuck-eq-ok
                                                    (nodes_blocked_by_unresolved (keys nodes_by_id)
                                                      adjacency (keys (resolved_entries resolved)))
                                                    blocked e₉;
                                              gaps = gaps;
                                              gaps_are =
                                                  or_stuck-eq-ok
                                                    (gaps_of reversed required
                                                      (sorted text_leb (keys terminals)))
                                                    gaps e_a;
                                              no_edges = e₁ ∙ ap ok n₁;
                                              no_cycles = e₄ ∙ ap ok n₂;
                                              no_terminal = e₅ ∙ ap ok n₃;
                                              no_required = e₆ ∙ ap ok n₄;
                                              no_reach = e_b ∙ ap ok n₅;
                                            }
