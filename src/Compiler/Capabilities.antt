-- ===== src/Compiler/Capabilities.antt =====
-- `validate_capability_grants` of src/millforge/compiler/capabilities.py.
pub mod Granted
use Prim.Native.String.{◌++◌ as text_append}
use millforge.Prelude.{String, List, [], ◌∷◌, ◌++◌, Bool, not, none, some, lookup}
use millforge.Compiler.Collections.{member, sorted, text_leb, insert, keys, get_or, string_eq}
use millforge.Compiler.Source.{ResolvedNode, entry, resolved, ToolCatalogEntry}
use millforge.Compiler.Diagnostics.{
  Fallible, ok, ◌>>=◌, when, Redaction, DiagnosticField, CompilerDiagnostic, DiagnosticList,
  compiler_diagnostic, sort_diagnostics,
}
use millforge.Compiler.Diagnostics.Registry.{capability, error}
use millforge.Compiler.Graph.Arguments.{repr}
use millforge.Compiler.Graph.Validate.{first_id, other_ids}

pub record CapabilityValidationResult : Type 0 where
  pub required_capability_ids : List String
  pub diagnostics : List CompilerDiagnostic

-- The nodes of each capability.
abbrev pub CapabilityNodes : Type 0
CapabilityNodes = List (String × List String)

abbrev pub capabilities_of : ResolvedNode → List String
capabilities_of (entry e) = e.required_capabilities
capabilities_of (resolved d) = d.descriptor.required_capabilities

unfoldable pub add_node : String → List String → CapabilityNodes → CapabilityNodes
unfolding insert lookup
add_node id [] d = d
add_node id (c ∷ cs) d = add_node id cs (insert c (get_or c d [] ++ id ∷ []) d)

unfoldable pub capability_nodes : List (String × ResolvedNode) → CapabilityNodes → CapabilityNodes
unfolding add_node
capability_nodes [] d = d
capability_nodes ((id, v) ∷ nodes) d = capability_nodes nodes (add_node id (capabilities_of v) d)

-- The keys of a dictionary are different, so its items are sorted by them.
abbrev pub item_leb : String × List String → String × List String → Bool
item_leb (a, x) (b, y) = text_leb a b

module _ (redaction : Redaction) where
  unfoldable pub capability_diagnostic : String → List String → Fallible CompilerDiagnostic
  unfolding compiler_diagnostic sorted
  capability_diagnostic id node_ids = compiler_diagnostic redaction (record {
    code = "MF-C001";
    severity = error;
    phase = capability;
    message = text_append "Required capability " (text_append (repr id) " is not granted.");
    source_reference = none;
    harness_id = none;
    node_id = first_id (sorted text_leb node_ids);
    related_ids = other_ids (sorted text_leb node_ids);
    suggested_fix = none;
    fields =
        let field : DiagnosticField = record {
          key = "capability_id";
          value = redaction.field_value "capability_id" id;
        } in
        field ∷ [];
  })

  unfoldable pub missing_grants : List String → CapabilityNodes → DiagnosticList
  unfolding capability_diagnostic
  missing_grants granted [] = ok []
  missing_grants granted ((id, node_ids) ∷ items) = do
    here ← when (not (member id granted)) (capability_diagnostic id node_ids)
    rest ← missing_grants granted items
    ok (here ++ rest)

  unfoldable pub validate_capability_grants :
      List (String × ResolvedNode) → List String → Fallible CapabilityValidationResult
  unfolding capability_nodes keys sorted missing_grants sort_diagnostics
  validate_capability_grants nodes granted = do
    diagnostics ← missing_grants granted (sorted item_leb (capability_nodes nodes []))
    ok (record {
      required_capability_ids = sorted text_leb (keys (capability_nodes nodes []));
      diagnostics = sort_diagnostics diagnostics;
    })
