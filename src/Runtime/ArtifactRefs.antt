-- ===== src/Runtime/ArtifactRefs.antt =====
-- The standard artifacts and the references to them: artifacts.py and the helpers of
-- src/millforge/runtime.py.
use millforge.Prelude.{String, List, [], ◌∷◌, ◌++◌, Bool, true, false, map, if◌then◌else◌}
use millforge.Runtime.Contracts.{ArtifactRef}

-- `STANDARD_ARTIFACT_FILENAMES`, in artifacts.py: its keys, and the file of each.
pub data ArtifactId : Type 0 where
  terminal_result execution_summary events tool_trace metrics artifact_manifest diagnostic :
      ArtifactId

unfoldable pub artifact_key : ArtifactId → String
artifact_key ArtifactId.terminal_result = "terminal_result"
artifact_key ArtifactId.execution_summary = "execution_summary"
artifact_key ArtifactId.events = "events"
artifact_key ArtifactId.tool_trace = "tool_trace"
artifact_key ArtifactId.metrics = "metrics"
artifact_key ArtifactId.artifact_manifest = "artifact_manifest"
artifact_key ArtifactId.diagnostic = "diagnostic"

unfoldable pub standard_filename : ArtifactId → String
standard_filename ArtifactId.terminal_result = "terminal_result.json"
standard_filename ArtifactId.execution_summary = "execution_summary.json"
standard_filename ArtifactId.events = "events.jsonl"
standard_filename ArtifactId.tool_trace = "tool_trace.jsonl"
standard_filename ArtifactId.metrics = "metrics.json"
standard_filename ArtifactId.artifact_manifest = "artifact_manifest.json"
standard_filename ArtifactId.diagnostic = "diagnostic.json"

-- `_build_artifact_ref`
unfoldable pub build_artifact_ref : ArtifactId → ArtifactRef
unfolding artifact_key standard_filename
build_artifact_ref i = record {
  artifact_id = artifact_key i;
  path = record { absolute = false; parts = "millforge" ∷ standard_filename i ∷ [] };
}

abbrev pub if_diagnostic : Bool → List ArtifactId
if_diagnostic true = ArtifactId.diagnostic ∷ []
if_diagnostic false = []

-- `_build_success_artifact_refs`
unfoldable pub success_artifact_ids : Bool → List ArtifactId
success_artifact_ids include_diagnostic =
    (ArtifactId.terminal_result ∷ ArtifactId.execution_summary ∷ ArtifactId.events
      ∷ ArtifactId.tool_trace ∷ ArtifactId.metrics ∷ [])
    ++ (if_diagnostic include_diagnostic ++ ArtifactId.artifact_manifest ∷ [])

unfoldable pub build_success_artifact_refs : Bool → List ArtifactRef
build_success_artifact_refs include_diagnostic =
    map build_artifact_ref (success_artifact_ids include_diagnostic)

-- `artifact_ids` of `_write_non_terminal_artifacts`, without the manifest
unfoldable pub non_terminal_artifact_ids : Bool → Bool → List ArtifactId
non_terminal_artifact_ids has_session has_diagnostic =
    (ArtifactId.execution_summary ∷ ArtifactId.metrics ∷ [])
    ++ ((if has_session then ArtifactId.events ∷ ArtifactId.tool_trace ∷ [] else [])
        ++ if_diagnostic has_diagnostic)
