-- ===== src/Compiler/Graph/Validate/Ends.antt =====
-- The diagnostics of single nodes and of argument matches end, src/millforge/compiler/graph.py.
use millforge.Prelude.{
  ℕ, String, List, [], ◌∷◌, ◌++◌, true, not, ◌&&◌, Option, none, some, is_some, lookup, str_in,
}
use millforge.Compiler.Collections.{member, sorted, get_or, string_eq, pair_eq, set_default}
use millforge.Compiler.Source.{
  ArgumentMatchSource, PrerequisiteSource, HarnessNodeSource, Value, Fields, get_field,
  ToolCatalogEntry,
}
use millforge.Compiler.Diagnostics.{Fallible, Redaction}
use millforge.Compiler.Diagnostics.Outcomes.{Ends, Ends->>=}
use millforge.Compiler.Graph.{Adjacency, Nodes, Pairs, is_known}
use millforge.Compiler.Graph.Arguments.{
  diagnostic, match_diagnostic, compatible, match_checks, differs_in, argument_edge_from,
  argument_edge_diagnostics, prerequisite_diagnostics, node_argument_diagnostics,
  argument_diagnostics, codes_eq, match_leb, node_leb, prerequisite_leb, schema_properties,
  required_properties,
}
use millforge.Compiler.Graph.Satisfiable.{has_invalid}
use millforge.Compiler.Graph.Validate.{
  required_terminal_diagnostics, unreachable_diagnostic, ungated_diagnostic, reach_diagnostic,
  reach_diagnostics,
}
use millforge.Compiler.Graph.Validate.Raises.{compiler_diagnostic-Ends, ok-Ends, if-Ends, when-Ends}

option-Ends :
    {A B : Type 0} (o : Option A) (m : Fallible B) (f : A → Fallible B)
    → Ends m
    → ((a : A) → Ends (f a))
    → Ends (elim o [ none ↦ m | some a ↦ f a ])
option-Ends none m f h k = h
option-Ends (some a) m f h k = k a

module _ (redaction : Redaction) where
  diagnostic-Ends :
      (code message : String) (node_id : Option String) (ids : List String)
      (fields : List (String × String))
      → Ends (diagnostic redaction code message node_id ids fields)
  unfolding diagnostic
  diagnostic-Ends code message node_id ids fields = compiler_diagnostic-Ends redaction _

  pub required_terminal_diagnostics-Ends :
      (nodes : List HarnessNodeSource) → Ends (required_terminal_diagnostics redaction nodes)
  unfolding required_terminal_diagnostics
  required_terminal_diagnostics-Ends [] = ok-Ends []
  required_terminal_diagnostics-Ends (node ∷ nodes) =
      Ends->>= _ _
        (when-Ends (node.required && is_some node.terminal_result) _
          (diagnostic-Ends "MF-G008" _ (some node.node_id) [] []))
        (λ here _.
          Ends->>= (required_terminal_diagnostics redaction nodes) _
            (required_terminal_diagnostics-Ends nodes) (λ rest _. ok-Ends (here ++ rest)))

  module _ (invalid : Pairs) (cyclic blocked satisfied required : List String)
      (gaps : Adjacency) where
    reach_diagnostic-Ends :
        (node : HarnessNodeSource)
        → Ends (reach_diagnostic redaction invalid cyclic blocked satisfied required gaps node)
    unfolding reach_diagnostic unreachable_diagnostic ungated_diagnostic
    reach_diagnostic-Ends node = if-Ends (member node.node_id cyclic) _ _ (ok-Ends []) (
        if-Ends (member node.node_id blocked) _ _ (ok-Ends []) (
          if-Ends (has_invalid invalid node) _ _ (ok-Ends []) (
            if-Ends (not (member node.node_id satisfied)) _ _
              (when-Ends true _ (diagnostic-Ends _ _ (some node.node_id) [] []))
              (when-Ends _ _ (
                diagnostic-Ends "MF-G006" _ (some node.node_id) (get_or node.node_id gaps [])
                  [])))))

    pub reach_diagnostics-Ends :
        (nodes : List HarnessNodeSource)
        → Ends (reach_diagnostics redaction invalid cyclic blocked satisfied required gaps nodes)
    unfolding reach_diagnostics
    reach_diagnostics-Ends [] = ok-Ends []
    reach_diagnostics-Ends (node ∷ nodes) =
        Ends->>= (reach_diagnostic redaction invalid cyclic blocked satisfied required gaps node) _
          (reach_diagnostic-Ends node)
          (λ here _.
            Ends->>=
              (reach_diagnostics redaction invalid cyclic blocked satisfied required gaps nodes) _
              (reach_diagnostics-Ends nodes) (λ rest _. ok-Ends (here ++ rest)))

  module _ (compatibility_bytes : Value → Fallible (List ℕ))
      (total : (v : Value) → Ends (compatibility_bytes v)) where
    module _ (node_id prerequisite_id : String) (prior current : Fields)
        (prior_required current_required : List String) where
      match_diagnostic-Ends :
          (message : String) (m : ArgumentMatchSource)
          → Ends (
              match_diagnostic redaction compatibility_bytes node_id prerequisite_id prior current
                prior_required current_required message m)
      unfolding match_diagnostic diagnostic
      match_diagnostic-Ends message m = compiler_diagnostic-Ends redaction _

      compatible-Ends :
          (v w : Value) (m : ArgumentMatchSource)
          → Ends (
              compatible redaction compatibility_bytes node_id prerequisite_id prior current
                prior_required current_required v w m)
      unfolding compatible
      compatible-Ends v w m = Ends->>= (compatibility_bytes v) _ (total v) (λ a _.
          Ends->>= (compatibility_bytes w) _ (total w)
            (λ b _. when-Ends (not (codes_eq a b)) _ (match_diagnostic-Ends _ m)))

      match_checks-Ends :
          (m : ArgumentMatchSource)
          → Ends (
              match_checks redaction compatibility_bytes node_id prerequisite_id prior current
                prior_required current_required m)
      unfolding match_checks
      match_checks-Ends m =
          option-Ends (get_field m.prior_argument prior) _ _
            (when-Ends true _ (match_diagnostic-Ends _ m))
            (λ v.
              option-Ends (get_field m.current_argument current) _ _
                (when-Ends true _ (match_diagnostic-Ends _ m))
                (λ w.
                  if-Ends (not (str_in m.prior_argument prior_required)) _ _
                    (when-Ends true _ (match_diagnostic-Ends _ m))
                    (if-Ends (not (str_in m.current_argument current_required)) _ _
                      (when-Ends true _ (match_diagnostic-Ends _ m)) (compatible-Ends v w m))))

      argument_edge_from-Ends :
          (prior_seen current_seen : List (String × String)) (ms : List ArgumentMatchSource)
          → Ends (
              argument_edge_from redaction compatibility_bytes node_id prerequisite_id prior current
                prior_required current_required prior_seen current_seen ms)
      unfolding argument_edge_from
      argument_edge_from-Ends prior_seen current_seen [] = ok-Ends []
      argument_edge_from-Ends prior_seen current_seen (m ∷ ms) =
          Ends->>= _ _
            (when-Ends (differs_in m.prior_argument m.current_argument prior_seen) _
              (match_diagnostic-Ends "Argument match fans out from one prerequisite argument." m))
            (λ out _.
              Ends->>= _ _
                (when-Ends (differs_in m.current_argument m.prior_argument current_seen) _
                  (match_diagnostic-Ends "Argument match fans in to one current argument." m))
                (λ into _.
                  Ends->>=
                    (match_checks redaction compatibility_bytes node_id prerequisite_id prior
                      current prior_required current_required m)
                    _ (match_checks-Ends m)
                    (λ checks _.
                      Ends->>= _ _
                        (argument_edge_from-Ends
                          (set_default m.prior_argument m.current_argument prior_seen)
                          (set_default m.current_argument m.prior_argument current_seen) ms)
                        (λ rest _. ok-Ends (out ++ (into ++ (checks ++ rest)))))))

      argument_edge_diagnostics-Ends :
          (ms : List ArgumentMatchSource)
          → Ends (
              argument_edge_diagnostics redaction compatibility_bytes node_id prerequisite_id prior
                current prior_required current_required ms)
      unfolding argument_edge_diagnostics
      argument_edge_diagnostics-Ends ms = argument_edge_from-Ends [] [] (sorted match_leb ms)

    module _ (by_id : Nodes) (resolved_by_id : List (String × ToolCatalogEntry))
        (invalid : Pairs) where
      prerequisite_diagnostics-Ends :
          (node : HarnessNodeSource) (current : Fields) (ps : List PrerequisiteSource)
          → Ends (
              prerequisite_diagnostics redaction compatibility_bytes by_id resolved_by_id invalid
                node current ps)
      unfolding prerequisite_diagnostics
      prerequisite_diagnostics-Ends node current [] = ok-Ends []
      prerequisite_diagnostics-Ends node current (p ∷ ps) =
          Ends->>= _ _
            (if-Ends (member (node.node_id, p.node_id) invalid) _ _ (ok-Ends []) (
              option-Ends (lookup p.node_id resolved_by_id) _ _ (ok-Ends []) (λ prior.
                if-Ends (not (is_known by_id p.node_id)) _ _ (ok-Ends []) (
                  argument_edge_diagnostics-Ends node.node_id p.node_id
                    (schema_properties prior.input_schema) (schema_properties current)
                    (required_properties prior.input_schema) (required_properties current)
                    p.argument_matches))))
            (λ here _.
              Ends->>=
                (prerequisite_diagnostics redaction compatibility_bytes by_id resolved_by_id invalid
                  node current ps)
                _ (prerequisite_diagnostics-Ends node current ps)
                (λ rest _. ok-Ends (here ++ rest)))

      node_argument_diagnostics-Ends :
          (nodes : List HarnessNodeSource)
          → Ends (
              node_argument_diagnostics redaction compatibility_bytes by_id resolved_by_id invalid
                nodes)
      unfolding node_argument_diagnostics
      node_argument_diagnostics-Ends [] = ok-Ends []
      node_argument_diagnostics-Ends (node ∷ nodes) =
          Ends->>= _ _
            (option-Ends (lookup node.node_id resolved_by_id) _ _ (ok-Ends []) (λ current.
              prerequisite_diagnostics-Ends node current.input_schema
                (sorted prerequisite_leb node.prerequisites)))
            (λ here _.
              Ends->>=
                (node_argument_diagnostics redaction compatibility_bytes by_id resolved_by_id
                  invalid nodes)
                _ (node_argument_diagnostics-Ends nodes) (λ rest _. ok-Ends (here ++ rest)))

      pub argument_diagnostics-Ends :
          (nodes : List HarnessNodeSource)
          → Ends (
              argument_diagnostics redaction compatibility_bytes by_id resolved_by_id invalid nodes)
      unfolding argument_diagnostics
      argument_diagnostics-Ends nodes = node_argument_diagnostics-Ends (sorted node_leb nodes)
