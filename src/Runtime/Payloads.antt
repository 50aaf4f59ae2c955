-- ===== src/Runtime/Payloads.antt =====
-- What the runtime of src/millforge/runtime.py hands to its artifact writer.
use millforge.Prelude.{String, List, Option}
use millforge.Runtime.States.{ExecutionStatus, ExecutionResultClass, TerminalCertainty}
use millforge.Runtime.Contracts.{DiagnosticMetadata, FilePath, StageIdentity, UsageMetadata}

pub record TerminalResultPayload : Type 0 where
  pub schema_version : String
  pub request_id : String
  pub run_id : String
  pub stage : StageIdentity
  pub terminal_result : String
  pub result_class : ExecutionResultClass
  pub summary_artifact_paths : List FilePath
  pub compiled_harness_sha256 : String
  pub terminal_certainty : TerminalCertainty

pub record ExecutionSummaryPayload : Type 0 where
  pub schema_version : String
  pub request_id : String
  pub run_id : String
  pub stage : StageIdentity
  pub status : ExecutionStatus
  pub result_class : ExecutionResultClass
  pub diagnostic_error_code : Option String
  pub terminal_certainty : TerminalCertainty

pub record MetricsPayload : Type 0 where
  pub schema_version : String
  pub request_id : String
  pub run_id : String
  pub session_id : Option String
  pub status : String
  pub usage : Option UsageMetadata

pub record ManifestPayload : Type 0 where
  pub schema_version : String
  pub request_id : String
  pub run_id : String
  -- the `artifact_id` of each entry
  pub artifacts : List String

pub data Payload : Type 0 where
  terminal_result : TerminalResultPayload → Payload
  execution_summary : ExecutionSummaryPayload → Payload
  events tool_trace : List String → Payload
  metrics : MetricsPayload → Payload
  diagnostic : DiagnosticMetadata → Payload
  artifact_manifest : ManifestPayload → Payload
