-- ===== src/Compiler/Tests.antt =====
-- Small harness graphs, what src/millforge/compiler/graph.py makes of them, and the theorems at them.
use mathlib.Core.List.{Memᴰ}
use millforge.Prelude.{
  ℕ, suc, ◌+◌, String, List, [], ◌∷◌, length, map, true, false, none, some, ◌≡◌, refl, ◌↔◌, inr,
  arith,
}
use millforge.Compiler.Collections.{member, string_eq}
use millforge.Compiler.Source.{
  PrerequisiteSource, HarnessNodeSource, Value, ResolvedNode, entry, end, ToolCatalogEntry,
}
use millforge.Compiler.Diagnostics.{
  CompilerDiagnostic, is_admitted, Fallible, ok, value_error, Redaction,
}
use millforge.Compiler.Diagnostics.Outcomes.{Ends}
use millforge.Compiler.Diagnostics.Registry.{phase_index, graph, internal, error, warning}
use millforge.Compiler.Diagnostics.Bound.{
  Bounded, bound_diagnostics, bound_diagnostics-Bounded, diagnostics_truncated_warning,
}
use millforge.Compiler.Capabilities.{CapabilityValidationResult, validate_capability_grants}
use millforge.Compiler.Capabilities.Granted.{is_required, validate_capability_grants-Granted}
use millforge.Compiler.Graph.{
  Adjacency, nodes_from, invalid_pairs, valid_adjacency, reverse_adjacency, is_known,
}
use millforge.Compiler.Graph.Cycles.{
  Tarjan, empty_state, all_nodes, visit_roots, cycle_components, cycle_nodes,
}
use millforge.Compiler.Graph.Cycles.Invariant.{Inv, visited}
use millforge.Compiler.Graph.Cycles.Roots.{empty-Inv, visit_roots-Inv}
use millforge.Compiler.Graph.Cycles.Correct.{
  AreCycles, IsCyclic, cycle_components-AreCycles, cycle_nodes-IsCyclic,
}
use millforge.Compiler.Graph.Edges.Adjacency.{IsAdjacency, valid_adjacency-IsAdjacency}
use millforge.Compiler.Graph.Reach.{missing_required, nodes_blocked_by_unresolved}
use millforge.Compiler.Graph.Reach.Blocked.{IsBlocked, nodes_blocked_by_unresolved-IsBlocked}
use millforge.Compiler.Graph.Reach.Gaps.{IsUngated, missing_required-AreMissing}
use millforge.Compiler.Graph.Satisfiable.{
  satisfiable_nodes, recall, examine, settle, all_satisfiable,
}
use millforge.Compiler.Graph.Satisfiable.Met.{AreMet, satisfiable_nodes-AreMet}
use millforge.Compiler.Graph.Validate.{GraphValidationResult, validate_harness_graph}
use millforge.Compiler.Graph.Validate.Cycles.{validate_harness_graph-cycle_limit}
use millforge.Compiler.Graph.Validate.Total.{validate_harness_graph-Ends}
use millforge.Compiler.Graph.Validate.WellFormed.{IsWellFormed, validate_harness_graph-IsWellFormed}

abbrev no_redaction : Redaction
no_redaction = record { message = λ text. text; field_value = λ key value. value }

abbrev no_bytes : Value → Fallible (List ℕ)
no_bytes v = ok []

abbrev needs : String → PrerequisiteSource
needs id = record { node_id = id; argument_matches = [] }

abbrev plain_node : String → List String → HarnessNodeSource
plain_node id prerequisites = record {
  node_id = id;
  tool_ref = "tool@1";
  required = false;
  prerequisites = map needs prerequisites;
  terminal_result = none;
  produces = [];
}

-- "read" is required, and "end" is terminal.
abbrev read_node : HarnessNodeSource
read_node = record (plain_node "read" []) { required = true }

abbrev end_node : HarnessNodeSource
end_node = record (plain_node "end" ("read" ∷ [])) { terminal_result = some "done" }

abbrev good_nodes : List HarnessNodeSource
good_nodes = read_node ∷ end_node ∷ []

abbrev catalog_entry : ResolvedNode
catalog_entry =
    let e : ToolCatalogEntry = record {
      input_schema = end;
      required_capabilities = "files" ∷ [];
    } in
    entry e

abbrev good_resolved : List (String × ResolvedNode)
good_resolved = ("read", catalog_entry) ∷ ("end", catalog_entry) ∷ []

abbrev good_result : GraphValidationResult
good_result = record {
  diagnostics = [];
  terminal_node_ids = "end" ∷ [];
  terminal_result_map = ("end", "done") ∷ [];
  required_node_ids = "read" ∷ [];
}

good_accepted :
    validate_harness_graph no_redaction no_bytes good_nodes good_resolved (some ("done" ∷ []))
    ≡ ok good_result
unfolding validate_harness_graph recall examine settle all_satisfiable
good_accepted = refl

abbrev good_adjacency : Adjacency
good_adjacency = ("read", "end" ∷ []) ∷ ("end", []) ∷ []

abbrev good_reversed : Adjacency
good_reversed = ("read", []) ∷ ("end", "read" ∷ []) ∷ []

-- "a" and "b" are a cycle, on which "c" depends.
abbrev two_cycle : Adjacency
two_cycle = ("a", "b" ∷ "c" ∷ []) ∷ ("b", "a" ∷ []) ∷ ("c", []) ∷ []

one_component : cycle_components two_cycle ≡ some (("a" ∷ "b" ∷ []) ∷ [])
unfolding cycle_components
one_component = refl

no_bytes-Ends : (v : Value) → Ends (no_bytes v)
no_bytes-Ends v = inr ([], refl)

cycle_components-AreCycles_example :
    (components : List (List String)) × (cycle_components two_cycle ≡ some components)
    × AreCycles two_cycle components
cycle_components-AreCycles_example = cycle_components-AreCycles two_cycle

cycle_nodes-IsCyclic_example :
    (components : List (List String)) × (cycle_components two_cycle ≡ some components)
    × ((x : String) → (member x (cycle_nodes components) ≡ true) ↔ IsCyclic two_cycle x)
cycle_nodes-IsCyclic_example = cycle_nodes-IsCyclic two_cycle

a_is_named : (x : String) → member x ("a" ∷ []) ≡ true → member x (all_nodes two_cycle) ≡ true
unfolding all_nodes
a_is_named x m = ground arith

visit_roots-Inv_example :
    (t : Tarjan) × (visit_roots two_cycle
        (suc (length (all_nodes two_cycle)))
        ("a" ∷ [])
        empty_state
      ≡ some t)
    × Inv two_cycle [] t
    × ((x : String) → visited empty_state x ≡ true → visited t x ≡ true)
    × ((x : String) → member x ("a" ∷ []) ≡ true → visited t x ≡ true)
visit_roots-Inv_example =
    visit_roots-Inv two_cycle ("a" ∷ []) empty_state (empty-Inv two_cycle) a_is_named

validate_harness_graph-IsWellFormed_example : IsWellFormed good_nodes (some ("done" ∷ []))
validate_harness_graph-IsWellFormed_example =
    validate_harness_graph-IsWellFormed no_redaction no_bytes good_nodes good_resolved
      (some ("done" ∷ [])) good_result good_accepted refl

validate_harness_graph-Ends_example :
    Ends (validate_harness_graph no_redaction no_bytes good_nodes good_resolved none)
validate_harness_graph-Ends_example =
    validate_harness_graph-Ends no_redaction no_bytes no_bytes-Ends good_nodes good_resolved none

good_adjacency_is :
    valid_adjacency good_nodes (invalid_pairs good_nodes (nodes_from [] good_nodes))
    ≡ some good_adjacency
unfolding valid_adjacency invalid_pairs nodes_from
good_adjacency_is = refl

good_reversed_is : reverse_adjacency (nodes_from [] good_nodes) good_adjacency ≡ some good_reversed
unfolding reverse_adjacency nodes_from
good_reversed_is = refl

good_components_are : cycle_components good_adjacency ≡ some []
unfolding cycle_components
good_components_are = refl

end_is_known : is_known (nodes_from [] good_nodes) "end" ≡ true
unfolding is_known nodes_from
end_is_known = refl

valid_adjacency-IsAdjacency_example :
    (adjacency : Adjacency) × (valid_adjacency good_nodes
        (invalid_pairs good_nodes (nodes_from [] good_nodes))
      ≡ some adjacency)
    × IsAdjacency good_nodes adjacency
valid_adjacency-IsAdjacency_example = valid_adjacency-IsAdjacency good_nodes

satisfiable_nodes-AreMet_example :
    (list : List String) × (satisfiable_nodes
        (nodes_from [] good_nodes)
        good_reversed
        (cycle_nodes [])
        (invalid_pairs good_nodes (nodes_from [] good_nodes))
      ≡ some list)
    × AreMet good_nodes good_reversed (cycle_nodes []) list
satisfiable_nodes-AreMet_example =
    satisfiable_nodes-AreMet good_nodes good_adjacency good_reversed [] good_adjacency_is
      good_reversed_is good_components_are

missing_required-AreMissing_example :
    (out : List String) × (missing_required good_reversed ("read" ∷ "end" ∷ []) "end" ≡ some out)
    × ((x : String) → (member x out ≡ true) ↔ IsUngated good_nodes ("read" ∷ "end" ∷ []) "end" x)
missing_required-AreMissing_example =
    missing_required-AreMissing good_nodes good_adjacency good_reversed ("read" ∷ "end" ∷ []) "end"
      good_adjacency_is good_reversed_is end_is_known

nodes_blocked_by_unresolved-IsBlocked_example :
    (out : List String) × (nodes_blocked_by_unresolved
        ("read" ∷ "end" ∷ [])
        good_adjacency
        ("end" ∷ [])
      ≡ some out)
    × ((x : String)
        → (member x out ≡ true) ↔ IsBlocked ("read" ∷ "end" ∷ []) ("end" ∷ []) good_adjacency x)
nodes_blocked_by_unresolved-IsBlocked_example =
    nodes_blocked_by_unresolved-IsBlocked ("read" ∷ "end" ∷ []) ("end" ∷ []) good_adjacency

-- A cycle of eighteen nodes.
abbrev ring_ids : List String
ring_ids =
    "n00" ∷ "n01" ∷ "n02" ∷ "n03" ∷ "n04" ∷ "n05" ∷ "n06" ∷ "n07" ∷ "n08" ∷ "n09" ∷ "n10" ∷ "n11"
    ∷ "n12" ∷ "n13" ∷ "n14" ∷ "n15" ∷ "n16" ∷ "n17" ∷ []

abbrev ring_from : String → List String → List HarnessNodeSource
ring_from before [] = []
ring_from before (id ∷ ids) = plain_node id (before ∷ []) ∷ ring_from id ids

abbrev ring : List HarnessNodeSource
ring = ring_from "n17" ring_ids

abbrev ring_edges : List String → Adjacency
ring_edges [] = []
ring_edges (id ∷ []) = (id, "n00" ∷ []) ∷ []
ring_edges (id ∷ next ∷ ids) = (id, next ∷ []) ∷ ring_edges (next ∷ ids)

ring_adjacency_is :
    valid_adjacency ring (invalid_pairs ring (nodes_from [] ring)) ≡ some (ring_edges ring_ids)
unfolding valid_adjacency invalid_pairs nodes_from
ring_adjacency_is = refl

ring_components_are : cycle_components (ring_edges ring_ids) ≡ some (ring_ids ∷ [])
unfolding cycle_components
ring_components_are = refl

validate_harness_graph-cycle_limit_example :
    validate_harness_graph no_redaction no_bytes ring [] none ≡ value_error
validate_harness_graph-cycle_limit_example =
    validate_harness_graph-cycle_limit no_redaction no_bytes ring [] none (ring_edges ring_ids)
      (ring_ids ∷ []) ring_ids ring_adjacency_is ring_components_are (Memᴰ.head refl) (omega arith)

-- Each diagnostic takes 100000 bytes, so that two of them fit.
abbrev large_size : List CompilerDiagnostic → ℕ
large_size [] = 0
large_size (d ∷ ds) = 100000 + large_size ds

abbrev unknown_node : String → CompilerDiagnostic
unknown_node id = record {
  code = "MF-G001";
  severity = error;
  phase = graph;
  message = "An unknown node.";
  source_reference = none;
  harness_id = none;
  node_id = some id;
  related_ids = [];
  suggested_fix = none;
  fields = [];
}

abbrev three_diagnostics : List CompilerDiagnostic
three_diagnostics = unknown_node "b" ∷ unknown_node "a" ∷ unknown_node "c" ∷ []

abbrev notice : CompilerDiagnostic
notice = record {
  code = "MF-D001";
  severity = warning;
  phase = internal;
  message = "Diagnostics were truncated.";
  source_reference = none;
  harness_id = none;
  node_id = none;
  related_ids = [];
  suggested_fix = none;
  fields = [];
}

notice_is : diagnostics_truncated_warning no_redaction ≡ ok notice
unfolding diagnostics_truncated_warning is_admitted phase_index
notice_is = refl

one_kept :
    bound_diagnostics large_size no_redaction three_diagnostics
    ≡ ok (unknown_node "a" ∷ notice ∷ [])
unfolding bound_diagnostics is_admitted phase_index
one_kept = refl

bound_diagnostics-Bounded_example :
    (out : List CompilerDiagnostic) × (bound_diagnostics large_size no_redaction three_diagnostics
      ≡ ok out)
    × Bounded large_size notice three_diagnostics out
bound_diagnostics-Bounded_example =
    bound_diagnostics-Bounded large_size no_redaction notice notice_is three_diagnostics

abbrev granted_result : CapabilityValidationResult
granted_result = record { required_capability_ids = "files" ∷ []; diagnostics = [] }

granted_result_is :
    validate_capability_grants no_redaction good_resolved ("files" ∷ "web" ∷ []) ≡ ok granted_result
unfolding validate_capability_grants
granted_result_is = refl

validate_capability_grants-Granted_example :
    ((c : String) → member c ("files" ∷ []) ≡ is_required good_resolved c)
    × ((◌≡◌ {A = List CompilerDiagnostic} [] []) ↔ (
        (c : String) → is_required good_resolved c ≡ true → member c ("files" ∷ "web" ∷ []) ≡ true))
validate_capability_grants-Granted_example =
    validate_capability_grants-Granted no_redaction ("files" ∷ "web" ∷ []) good_resolved
      granted_result granted_result_is
