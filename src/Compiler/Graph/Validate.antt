-- ===== src/Compiler/Graph/Validate.antt =====
-- `validate_harness_graph`, src/millforge/compiler/graph.py.
pub mod Accepted
pub mod Checks
pub mod Cycles
pub mod Results
pub mod Ends
pub mod Raises
pub mod Total
pub mod WellFormed
use Prim.Native.String.{◌++◌ as text_append}
use millforge.Prelude.{
  ℕ, String, str_eq, str_in, List, [], ◌∷◌, ◌++◌, all, any, map, Bool, true, false, not, ◌&&◌,
  Option, none, some, is_some, if◌then◌else◌, lookup,
}
use millforge.Compiler.Collections.{
  Eq, member, add, set_of, difference, sorted, text_leb, pair_leb, insert, set_default, keys,
  get_or, string_eq, pair_eq,
}
use millforge.Compiler.Source.{
  PrerequisiteSource, HarnessNodeSource, Value, ToolCatalogEntry, ResolvedNode,
}
use millforge.Compiler.Diagnostics.{
  Fallible, ok, ◌>>=◌, each, when, or_stuck, Redaction, CompilerDiagnostic, DiagnosticList,
  sort_diagnostics,
}
use millforge.Compiler.Graph.{
  Adjacency, Nodes, Pairs, nodes_from, duplicate_prerequisite_pairs, unknown_prerequisite_pairs,
  self_prerequisite_pairs, terminal_as_prerequisite_pairs, invalid_pairs, valid_adjacency,
  reverse_adjacency,
}
use millforge.Compiler.Graph.Reach.{nodes_blocked_by_unresolved, gaps_of}
use millforge.Compiler.Graph.Cycles.{cycle_components, cycle_nodes}
use millforge.Compiler.Graph.Satisfiable.{satisfiable_nodes, has_invalid}
use millforge.Compiler.Graph.Arguments.{
  repr, diagnostic, resolved_entries, node_leb, argument_diagnostics,
}

pub record GraphValidationResult : Type 0 where
  pub diagnostics : List CompilerDiagnostic
  pub terminal_node_ids : List String
  pub terminal_result_map : List (String × String)
  pub required_node_ids : List String

-- `f"{a}{b}{c}{d}{e}"`
abbrev pub formatted : List String → String
formatted [] = ""
formatted (s ∷ ss) = text_append s (formatted ss)

-- `", ".join(ss)`
abbrev pub joined : List String → String
joined [] = ""
joined (s ∷ []) = s
joined (s ∷ t ∷ ss) = text_append s (text_append ", " (joined (t ∷ ss)))

-- The nodes with a terminal result, with it.
unfoldable pub terminals_of : List HarnessNodeSource → List (String × String)
terminals_of [] = []
terminals_of (node ∷ nodes) =
    let rest = terminals_of nodes in
    elim node.terminal_result [ none ↦ rest | some result ↦ (node.node_id, result) ∷ rest ]

unfoldable pub required_of : List HarnessNodeSource → List String
required_of [] = []
required_of (node ∷ nodes) =
    let rest = required_of nodes in if node.required then node.node_id ∷ rest else rest

-- The nodes of one terminal result.
unfoldable pub nodes_with_result : String → List (String × String) → List String
nodes_with_result result [] = []
nodes_with_result result ((id, r) ∷ terminals) =
    let rest = nodes_with_result result terminals in if str_eq r result then id ∷ rest else rest

-- `duplicate_terminal_results` after the loop; `firsts` is `terminal_results`.
unfoldable pub duplicate_results : List (String × String) → List (String × String) → List String
unfolding lookup set_default
duplicate_results firsts [] = []
duplicate_results firsts ((id, result) ∷ terminals) =
    let rest = duplicate_results (set_default result id firsts) terminals in
    if str_eq (get_or result firsts id) id then rest else result ∷ rest

unfoldable pub results_of : List (String × String) → List String
results_of [] = []
results_of ((id, result) ∷ terminals) = result ∷ results_of terminals

unfoldable pub result_map : List (String × String) → List (String × String) → List (String × String)
unfolding insert
result_map d [] = d
result_map d ((id, result) ∷ terminals) = result_map (insert id result d) terminals

abbrev pub first_id : List String → Option String
first_id [] = none
first_id (id ∷ ids) = some id

abbrev pub other_ids : List String → List String
other_ids [] = []
other_ids (id ∷ ids) = ids

abbrev pub key_leb : String × String → String × String → Bool
key_leb (a, x) (b, y) = text_leb a b

-- `result not in allowed`, where there are allowed results
abbrev pub illegal : Option (List String) → String → Bool
illegal none result = false
illegal (some allowed) result = not (member result allowed)

abbrev pub unused_results : Option (List String) → List String → List String
unused_results none seen = []
unused_results (some allowed) seen = sorted text_leb (difference (set_of allowed) seen)

-- `sorted(pairs)`, of a set
abbrev pub sorted_pairs : Pairs → Pairs
sorted_pairs pairs = sorted pair_leb (set_of pairs)

module _ (redaction : Redaction) where
  unfoldable pub unknown_diagnostic : String × String → Fallible CompilerDiagnostic
  unfolding diagnostic
  unknown_diagnostic (dependent, prereq) =
      diagnostic redaction "MF-G001"
        (formatted
          ("Node " ∷ repr dependent ∷ " references unknown prerequisite " ∷ repr prereq ∷ "." ∷ []))
        (some dependent) [] (("prerequisite", prereq) ∷ [])

  unfoldable pub self_diagnostic : String × String → Fallible CompilerDiagnostic
  unfolding diagnostic
  self_diagnostic (id, prereq) =
      diagnostic redaction "MF-G002"
        (formatted ("Node " ∷ repr id ∷ " cannot require itself." ∷ [])) (some id) [] []

  unfoldable pub duplicate_diagnostic : String × String → Fallible CompilerDiagnostic
  unfolding diagnostic
  duplicate_diagnostic (dependent, prereq) =
      diagnostic redaction "MF-G003"
        (formatted
          ("Node " ∷ repr dependent ∷ " declares duplicate prerequisite " ∷ repr prereq ∷ "." ∷ []))
        (some dependent) [] (("prerequisite", prereq) ∷ [])

  unfoldable pub terminal_prerequisite_diagnostic : String × String → Fallible CompilerDiagnostic
  unfolding diagnostic
  terminal_prerequisite_diagnostic (dependent, prereq) =
      diagnostic redaction "MF-G013"
        (formatted ("Terminal node " ∷ repr prereq ∷ " cannot be a prerequisite." ∷ []))
        (some dependent) (prereq ∷ []) []

  unfoldable pub cycle_diagnostic : List String → Fallible CompilerDiagnostic
  unfolding diagnostic
  cycle_diagnostic component =
      diagnostic redaction "MF-G004"
        (formatted ("Prerequisite cycle includes " ∷ joined component ∷ "." ∷ []))
        (first_id component) (other_ids component) []

  unfoldable pub illegal_diagnostic : String × String → Fallible CompilerDiagnostic
  unfolding diagnostic
  illegal_diagnostic (id, result) =
      diagnostic redaction "MF-G009"
        (formatted ("Terminal result " ∷ repr result ∷ " is not allowed." ∷ [])) (some id) []
        (("terminal_result", result) ∷ [])

  unfoldable pub illegal_diagnostics :
      Option (List String) → List (String × String) → DiagnosticList
  unfolding illegal_diagnostic
  illegal_diagnostics allowed [] = ok []
  illegal_diagnostics allowed ((id, result) ∷ terminals) = do
    here ← when (illegal allowed result) (illegal_diagnostic (id, result))
    rest ← illegal_diagnostics allowed terminals
    ok (here ++ rest)

  unfoldable pub duplicate_result_diagnostic :
      List (String × String) → String → Fallible CompilerDiagnostic
  unfolding diagnostic nodes_with_result
  duplicate_result_diagnostic terminals result =
      diagnostic redaction "MF-G010"
        (formatted ("Terminal result " ∷ repr result ∷ " is used by multiple nodes." ∷ []))
        (first_id (nodes_with_result result terminals))
        (other_ids (nodes_with_result result terminals)) (("terminal_result", result) ∷ [])

  unfoldable pub unused_diagnostic : String → Fallible CompilerDiagnostic
  unfolding diagnostic
  unused_diagnostic result =
      diagnostic redaction "MF-G011"
        (formatted ("Terminal result " ∷ repr result ∷ " has no terminal node." ∷ [])) none []
        (("terminal_result", result) ∷ [])

  unfoldable pub no_terminal_diagnostic : Fallible CompilerDiagnostic
  unfolding diagnostic
  no_terminal_diagnostic =
      diagnostic redaction "MF-G011" "Graph must contain at least one terminal node." none [] []

  unfoldable pub required_terminal_diagnostics : List HarnessNodeSource → DiagnosticList
  unfolding diagnostic
  required_terminal_diagnostics [] = ok []
  required_terminal_diagnostics (node ∷ nodes) = do
    here ← when (node.required && is_some node.terminal_result) (
        diagnostic redaction "MF-G008"
          (formatted ("Terminal node " ∷ repr node.node_id ∷ " cannot be required." ∷ []))
          (some node.node_id) [] [])
    rest ← required_terminal_diagnostics nodes
    ok (here ++ rest)

  -- The code of a node that no root reaches.
  abbrev pub unreachable_code : HarnessNodeSource → String
  unreachable_code node =
      if is_some node.terminal_result
      then "MF-G006"
      else if node.required
      then "MF-G007"
      else "MF-G005"

  module _ (invalid : Pairs) (cyclic blocked satisfied required : List String)
      (gaps : Adjacency) where
    unfoldable pub unreachable_diagnostic : HarnessNodeSource → Fallible CompilerDiagnostic
    unfolding diagnostic
    unreachable_diagnostic node =
        diagnostic redaction (unreachable_code node)
          (formatted ("Node " ∷ repr node.node_id ∷ " is not reachable from graph roots." ∷ []))
          (some node.node_id) [] []

    unfoldable pub ungated_diagnostic :
        HarnessNodeSource → List String → Fallible CompilerDiagnostic
    unfolding diagnostic
    ungated_diagnostic node missing =
        diagnostic redaction "MF-G006"
          (formatted
            ("Terminal node " ∷ repr node.node_id ∷ " is not gated by required nodes." ∷ []))
          (some node.node_id) missing []

    -- `missing_required and all(…)`
    abbrev pub all_satisfied : List String → Bool
    all_satisfied [] = false
    all_satisfied (m ∷ ms) = all (λ id. member id satisfied) (m ∷ ms)

    unfoldable pub reach_diagnostic : HarnessNodeSource → DiagnosticList
    unfolding lookup unreachable_diagnostic ungated_diagnostic
    reach_diagnostic node =
        if member node.node_id cyclic
        then ok []
        else if member node.node_id blocked
        then ok []
        else if has_invalid invalid node
        then ok []
        else if not (member node.node_id satisfied)
        then when true (unreachable_diagnostic node)
        else when
            (is_some node.terminal_result
              && not (member node.node_id required)
              && all_satisfied (get_or node.node_id gaps []))
            (ungated_diagnostic node (get_or node.node_id gaps []))

    unfoldable pub reach_diagnostics : List HarnessNodeSource → DiagnosticList
    unfolding reach_diagnostic
    reach_diagnostics [] = ok []
    reach_diagnostics (node ∷ nodes) = do
      here ← reach_diagnostic node
      rest ← reach_diagnostics nodes
      ok (here ++ rest)

  -- The diagnostics of the refused prerequisites.
  unfoldable pub edge_diagnostics : List HarnessNodeSource → Nodes → DiagnosticList
  unfolding each unknown_diagnostic self_diagnostic duplicate_diagnostic
      terminal_prerequisite_diagnostic duplicate_prerequisite_pairs unknown_prerequisite_pairs
      self_prerequisite_pairs terminal_as_prerequisite_pairs sorted set_of
  edge_diagnostics nodes nodes_by_id = do
    unknown ← each unknown_diagnostic (sorted_pairs (unknown_prerequisite_pairs nodes nodes_by_id))
    own ← each self_diagnostic (sorted_pairs (self_prerequisite_pairs nodes))
    duplicate ← each duplicate_diagnostic (sorted_pairs (duplicate_prerequisite_pairs nodes))
    terminal ←
        each terminal_prerequisite_diagnostic
          (sorted_pairs (terminal_as_prerequisite_pairs nodes nodes_by_id))
    ok (unknown ++ (own ++ (duplicate ++ terminal)))

  -- The diagnostics of the terminal nodes, sorted by their ids.
  unfoldable pub terminal_diagnostics :
      Option (List String) → List (String × String) → DiagnosticList
  unfolding each illegal_diagnostics duplicate_result_diagnostic unused_diagnostic
      no_terminal_diagnostic duplicate_results results_of sorted set_of difference
  terminal_diagnostics allowed terminals = do
    absent ← elim terminals [ [] ↦ when true no_terminal_diagnostic | _ ∷ _ ↦ ok [] ]
    not_allowed ← illegal_diagnostics allowed terminals
    repeated ←
        each (duplicate_result_diagnostic terminals)
          (sorted text_leb (set_of (duplicate_results [] terminals)))
    unused ← each unused_diagnostic (unused_results allowed (results_of terminals))
    ok (absent ++ (not_allowed ++ (repeated ++ unused)))

  unfoldable pub validate_harness_graph :
      (Value → Fallible (List ℕ))
      → List HarnessNodeSource
      → List (String × ResolvedNode)
      → Option (List String)
      → Fallible GraphValidationResult
  unfolding nodes_from invalid_pairs valid_adjacency reverse_adjacency cycle_components cycle_nodes
      each cycle_diagnostic edge_diagnostics terminal_diagnostics terminals_of required_of sorted
      keys required_terminal_diagnostics satisfiable_nodes nodes_blocked_by_unresolved gaps_of
      resolved_entries reach_diagnostics argument_diagnostics sort_diagnostics result_map
  validate_harness_graph compatibility_bytes nodes resolved allowed = do
    let nodes_by_id = nodes_from [] nodes
    let resolved_by_id = resolved_entries resolved
    let invalid = invalid_pairs nodes nodes_by_id
    edges ← edge_diagnostics nodes nodes_by_id
    adjacency ← or_stuck (valid_adjacency nodes invalid)
    components ← or_stuck (cycle_components adjacency)
    cycles ← each cycle_diagnostic components
    let terminals = sorted key_leb (terminals_of nodes)
    let required = sorted text_leb (required_of nodes)
    let by_id = sorted node_leb nodes
    terminal ← terminal_diagnostics allowed terminals
    required_terminals ← required_terminal_diagnostics by_id
    reversed ← or_stuck (reverse_adjacency nodes_by_id adjacency)
    satisfied ← or_stuck (satisfiable_nodes nodes_by_id reversed (cycle_nodes components) invalid)
    blocked ←
        or_stuck (nodes_blocked_by_unresolved (keys nodes_by_id) adjacency (keys resolved_by_id))
    gaps ← or_stuck (gaps_of reversed required (sorted text_leb (keys terminals)))
    reach ← reach_diagnostics invalid (cycle_nodes components) blocked satisfied required gaps by_id
    arguments ←
        argument_diagnostics redaction compatibility_bytes nodes_by_id resolved_by_id invalid nodes
    ok (record {
      diagnostics =
          sort_diagnostics
            (edges ++ (cycles ++ (terminal ++ (required_terminals ++ (reach ++ arguments)))));
      terminal_node_ids = keys terminals;
      terminal_result_map = sorted pair_leb (result_map [] terminals);
      required_node_ids = required;
    })
