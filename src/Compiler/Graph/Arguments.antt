-- ===== src/Compiler/Graph/Arguments.antt =====
-- The checks of argument matches, src/millforge/compiler/graph.py, and its `_diagnostic`.
use Prim.Native.String.{◌++◌ as text_append}
use millforge.Prelude.{
  ℕ, String, str_eq, str_in, List, [], ◌∷◌, ◌++◌, map, Bool, true, false, not, ◌&&◌, ◌==◌, Option,
  none, some, if◌then◌else◌, lookup,
}
use millforge.Compiler.Collections.{
  member, sorted, text_leb, pair_leb, set_default, string_eq, pair_eq,
}
use millforge.Compiler.Source.{
  ArgumentMatchSource, PrerequisiteSource, HarnessNodeSource, Value, Fields, end, array, object,
  get_field, texts_of, ToolCatalogEntry, ResolvedNode, entry, resolved,
}
use millforge.Compiler.Diagnostics.{
  Fallible, ok, ◌>>=◌, when, Redaction, DiagnosticField, CompilerDiagnostic, DiagnosticList,
  compiler_diagnostic,
}
use millforge.Compiler.Diagnostics.Registry.{graph, error}
use millforge.Compiler.Graph.{Nodes, Pairs, is_known}

-- `f"{id!r}"`: an id holds no quote, no backslash and nothing that is not printable.
abbrev pub repr : String → String
repr id = text_append "'" (text_append id "'")

-- `_diagnostic`
unfoldable pub diagnostic :
    Redaction
    → String
    → String
    → Option String
    → List String
    → List (String × String)
    → Fallible CompilerDiagnostic
unfolding compiler_diagnostic sorted
diagnostic redaction code message node_id related_ids fields =
    compiler_diagnostic redaction (record {
      code = code;
      severity = error;
      phase = graph;
      message = message;
      source_reference = none;
      harness_id = none;
      node_id = node_id;
      related_ids = related_ids;
      suggested_fix = none;
      fields =
          map
            (λ (f : String × String).
              let field : DiagnosticField = record {
                key = f.0;
                value = redaction.field_value f.0 f.1;
              } in
              field)
            (sorted pair_leb fields);
    })

unfoldable pub resolved_entries : List (String × ResolvedNode) → List (String × ToolCatalogEntry)
resolved_entries [] = []
resolved_entries ((id, entry e) ∷ rest) = (id, e) ∷ resolved_entries rest
resolved_entries ((id, resolved d) ∷ rest) = (id, d.descriptor) ∷ resolved_entries rest

-- `_schema_properties`
unfoldable pub schema_properties : Fields → Fields
unfolding get_field
schema_properties schema = elim (get_field "properties" schema) [
  | some (object fields) ↦ fields
  | _ ↦ end
]

-- `_required_properties`, of which only texts are looked up
unfoldable pub required_properties : Fields → List String
unfolding get_field texts_of
required_properties schema = elim (get_field "required" schema) [
  | some (array items) ↦ texts_of items
  | _ ↦ []
]

abbrev pub differs_in : String → String → List (String × String) → Bool
differs_in k v seen = elim (lookup k seen) [ none ↦ false | some w ↦ not (str_eq w v) ]

abbrev pub codes_eq : List ℕ → List ℕ → Bool
codes_eq [] [] = true
codes_eq (x ∷ xs) (y ∷ ys) = x == y && codes_eq xs ys
codes_eq xs ys = false

abbrev pub match_leb : ArgumentMatchSource → ArgumentMatchSource → Bool
match_leb a b =
    pair_leb (a.prior_argument, a.current_argument) (b.prior_argument, b.current_argument)

abbrev pub prerequisite_leb : PrerequisiteSource → PrerequisiteSource → Bool
prerequisite_leb p q = text_leb p.node_id q.node_id

abbrev pub node_leb : HarnessNodeSource → HarnessNodeSource → Bool
node_leb m n = text_leb m.node_id n.node_id

-- The canonical bytes of a property's schema, `property_schema_compatibility_bytes`, are an argument.
module _ (redaction : Redaction) (compatibility_bytes : Value → Fallible (List ℕ)) where
  module _ (node_id prerequisite_id : String) (prior_properties current_properties : Fields)
      (prior_required current_required : List String) where
    unfoldable pub match_diagnostic : String → ArgumentMatchSource → Fallible CompilerDiagnostic
    unfolding diagnostic
    match_diagnostic message m =
        diagnostic redaction "MF-G012" message (some node_id) (prerequisite_id ∷ []) (
          ("prerequisite", prerequisite_id)
          ∷ ("prior_argument", m.prior_argument)
          ∷ ("current_argument", m.current_argument)
          ∷ [])

    -- The comparison of the two schemas.
    unfoldable pub compatible : Value → Value → ArgumentMatchSource → DiagnosticList
    unfolding match_diagnostic
    compatible prior current m = do
      a ← compatibility_bytes prior
      b ← compatibility_bytes current
      when (not (codes_eq a b)) (match_diagnostic "Argument match schemas are not compatible." m)

    -- The checks that end with `continue`, and the last one.
    unfoldable pub match_checks : ArgumentMatchSource → DiagnosticList
    unfolding get_field str_in match_diagnostic compatible
    match_checks m = elim (get_field m.prior_argument prior_properties) [
      | none ↦
          when true (match_diagnostic "Argument match references unknown prerequisite argument." m)
      | some prior ↦ elim (get_field m.current_argument current_properties) [
        | none ↦
            when true (match_diagnostic "Argument match references unknown current argument." m)
        | some current ↦
            if not (str_in m.prior_argument prior_required)
            then when true
                (match_diagnostic "Prerequisite argument match source must be required." m)
            else if not (str_in m.current_argument current_required)
            then when true (match_diagnostic "Current argument match target must be required." m)
            else compatible prior current m
      ]
    ]

    unfoldable pub argument_edge_from :
        List (String × String) → List (String × String) → List ArgumentMatchSource → DiagnosticList
    unfolding lookup set_default match_diagnostic match_checks
    argument_edge_from prior_seen current_seen [] = ok []
    argument_edge_from prior_seen current_seen (m ∷ ms) = do
      out ←
          when (differs_in m.prior_argument m.current_argument prior_seen)
            (match_diagnostic "Argument match fans out from one prerequisite argument." m)
      into ←
          when (differs_in m.current_argument m.prior_argument current_seen)
            (match_diagnostic "Argument match fans in to one current argument." m)
      checks ← match_checks m
      rest ←
          argument_edge_from (set_default m.prior_argument m.current_argument prior_seen)
            (set_default m.current_argument m.prior_argument current_seen) ms
      ok (out ++ (into ++ (checks ++ rest)))

    -- `_argument_edge_diagnostics`
    unfoldable pub argument_edge_diagnostics : List ArgumentMatchSource → DiagnosticList
    unfolding argument_edge_from sorted
    argument_edge_diagnostics matches = argument_edge_from [] [] (sorted match_leb matches)

  module _ (nodes_by_id : Nodes) (resolved_by_id : List (String × ToolCatalogEntry))
      (invalid : Pairs) where
    unfoldable pub prerequisite_diagnostics :
        HarnessNodeSource → Fields → List PrerequisiteSource → DiagnosticList
    unfolding lookup is_known argument_edge_diagnostics schema_properties required_properties
    prerequisite_diagnostics node current [] = ok []
    prerequisite_diagnostics node current (p ∷ ps) = do
      here ←
          if member (node.node_id, p.node_id) invalid
          then ok []
          else elim (lookup p.node_id resolved_by_id) [
            | none ↦ ok []
            | some prior ↦
                if not (is_known nodes_by_id p.node_id)
                then ok []
                else argument_edge_diagnostics node.node_id p.node_id
                    (schema_properties prior.input_schema) (schema_properties current)
                    (required_properties prior.input_schema) (required_properties current)
                    p.argument_matches
          ]
      rest ← prerequisite_diagnostics node current ps
      ok (here ++ rest)

    unfoldable pub node_argument_diagnostics : List HarnessNodeSource → DiagnosticList
    unfolding lookup prerequisite_diagnostics sorted
    node_argument_diagnostics [] = ok []
    node_argument_diagnostics (node ∷ nodes) = do
      here ← elim (lookup node.node_id resolved_by_id) [
        | none ↦ ok []
        | some current ↦
            prerequisite_diagnostics node current.input_schema
              (sorted prerequisite_leb node.prerequisites)
      ]
      rest ← node_argument_diagnostics nodes
      ok (here ++ rest)

    -- `_argument_diagnostics`
    unfoldable pub argument_diagnostics : List HarnessNodeSource → DiagnosticList
    unfolding node_argument_diagnostics sorted
    argument_diagnostics nodes = node_argument_diagnostics (sorted node_leb nodes)
