-- ===== src/Runtime/Contracts.antt =====
-- The records of src/millforge/contracts.py and src/millforge/compiled_plan.py that the runtime
-- reads and builds, with the fields that it uses. Clock readings and timeouts, floats in the
-- source, are naturals in one unit; a JSON value is its canonical text.
use millforge.Prelude.{
  ℕ, String, List, Bool, true, false, not, ◌&&◌, ◌||◌, Option, none, some, ◌==◌, str_eq, is_some,
  if◌then◌else◌,
}
use millforge.Runtime.States.{
  ExecutionStatus, ExecutionResultClass, TerminalCertainty, GuardedSessionStatus,
  DiagnosticCategory, is_completed, is_committed, is_domain_class,
}

pub data Plane : Type 0 where
  execution planning learning : Plane

pub record StageIdentity : Type 0 where
  pub plane : Plane
  pub node_id : String
  pub stage_kind_id : String

-- A path is absolute or not, and its components.
pub record FilePath : Type 0 where
  pub absolute : Bool
  pub parts : List String

pub record CompiledHarnessRef : Type 0 where
  pub harness_id : String
  pub harness_version : ℕ
  pub path : FilePath
  pub digest : String

pub record RunDirRef : Type 0 where
  pub run_id : String
  pub path : FilePath

pub record ArtifactRef : Type 0 where
  pub artifact_id : String
  pub path : FilePath

pub record TimeoutRef : Type 0 where
  pub timeout_seconds : ℕ
  pub deadline : Option String

pub record SelectedOutputRequirement : Type 0 where
  pub required : Bool
  pub json_schema : String
  pub schema_sha256 : String

pub data SelectedOutput : Type 0 where
  absent : SelectedOutput
  present : String → SelectedOutput

pub record TerminalSelectedOutputRequirement : Type 0 where
  pub terminal_result : String
  pub selected_output : SelectedOutputRequirement

pub record HarnessExecutionRequest : Type 0 where
  pub request_id : String
  pub run_id : String
  pub work_item_id : String
  pub stage : StageIdentity
  pub compiled_harness : CompiledHarnessRef
  -- the `capability_id` of each grant of the envelope
  pub grants : List String
  pub input_artifacts : List ArtifactRef
  pub run_directory : RunDirRef
  pub timeout : TimeoutRef
  pub cancellation_id : String
  -- `model_profile.profile_id`
  pub model_profile : String
  pub selected_output_requirements : List TerminalSelectedOutputRequirement

pub record CompiledHarnessPlan : Type 0 where
  pub harness_id : String
  pub harness_version : ℕ
  pub compiled_sha256 : String
  pub stage_kind_ids : List String
  pub model_profile : String
  pub required_capabilities : List String
  pub terminal_result_map : List (String × String)
  pub artifact_policy : String

pub record Deadline : Type 0 where
  pub started_monotonic : ℕ
  pub outer_deadline_monotonic : ℕ
  pub effective_deadline_monotonic : ℕ

pub record TokenUsage : Type 0 where
  pub input_tokens : ℕ
  pub output_tokens : ℕ
  pub total_tokens : ℕ
  pub provider_reported : Bool

pub record UsageMetadata : Type 0 where
  pub model_calls : ℕ
  pub tool_calls : ℕ
  pub token_usage : Option TokenUsage

-- The instants that `TimingMetadata` shows as texts, and the duration in the unit in which instants
-- are counted.
pub record TimingMetadata : Type 0 where
  pub started_at : ℕ
  pub completed_at : ℕ
  pub duration_ms : ℕ

pub record DiagnosticMetadata : Type 0 where
  pub error_code : String
  pub category : DiagnosticCategory
  pub message : String
  pub retryable : Bool
  pub origin : String

pub record TerminalIntent : Type 0 where
  pub request_id : String
  pub run_id : String
  pub stage : StageIdentity
  pub terminal_node_id : String
  pub terminal_result : String
  pub summary : String
  pub artifact_refs : List ArtifactRef
  pub selected_output : Option SelectedOutput
  pub selected_output_schema_sha256 : Option String

pub record ToolExecutionContext : Type 0 where
  pub request_id : String
  pub run_id : String
  pub stage : StageIdentity
  pub run_directory : RunDirRef
  pub grants : List String
  pub timeout : TimeoutRef
  pub cancellation_id : String
  pub deadline : Deadline
  pub workspace_root : FilePath
  pub artifact_root : FilePath
  pub compiled_artifact_policy : String
  pub input_artifacts : List ArtifactRef
  pub work_item_id : String
  pub cancellation_requested : Bool
  pub current_monotonic : ℕ

pub record GuardedSessionRequest : Type 0 where
  pub session_id : String
  pub execution_request : HarnessExecutionRequest
  pub deadline : Deadline
  pub tool_execution_context : Option ToolExecutionContext

-- An event or a trace record is the text of its JSON dump.
pub record GuardedSessionResult : Type 0 where
  pub session_id : String
  pub status : GuardedSessionStatus
  pub terminal_intent : Option TerminalIntent
  pub artifact_refs : List ArtifactRef
  pub usage : Option UsageMetadata
  pub diagnostic : Option DiagnosticMetadata
  pub events : List String
  pub tool_trace : List String

pub record HarnessExecutionResult : Type 0 where
  pub status : ExecutionStatus
  pub result_class : ExecutionResultClass
  pub request_id : String
  pub run_id : String
  pub stage : StageIdentity
  pub terminal_intent : Option TerminalIntent
  pub artifact_refs : List ArtifactRef
  pub compiled_harness : CompiledHarnessRef
  pub usage : Option UsageMetadata
  pub timing : TimingMetadata
  pub diagnostic : Option DiagnosticMetadata
  pub terminal_certainty : TerminalCertainty
  pub selected_output : Option SelectedOutput
  pub selected_output_schema_sha256 : Option String

-- `==` on the contracts
abbrev pub plane_index : Plane → ℕ
plane_index Plane.execution = 0
plane_index Plane.planning = 1
plane_index Plane.learning = 2

unfoldable pub stage_eq : StageIdentity → StageIdentity → Bool
stage_eq a b =
    plane_index a.plane == plane_index b.plane
    && str_eq a.node_id b.node_id
    && str_eq a.stage_kind_id b.stage_kind_id

abbrev pub optional_str_eq : Option String → Option String → Bool
optional_str_eq none none = true
optional_str_eq (some a) (some b) = str_eq a b
optional_str_eq _ _ = false

unfoldable pub selected_output_eq : SelectedOutput → SelectedOutput → Bool
selected_output_eq SelectedOutput.absent SelectedOutput.absent = true
selected_output_eq (SelectedOutput.present a) (SelectedOutput.present b) = str_eq a b
selected_output_eq _ _ = false

abbrev pub optional_output_eq : Option SelectedOutput → Option SelectedOutput → Bool
optional_output_eq none none = true
optional_output_eq (some a) (some b) = selected_output_eq a b
optional_output_eq _ _ = false

-- The part of `_check_result_class_invariants` that asks for a terminal intent.
unfoldable pub intent_admitted : HarnessExecutionResult → Option TerminalIntent → Bool
intent_admitted r none = not (is_committed r.terminal_certainty) || is_domain_class r.result_class
intent_admitted r (some t) =
    is_completed r.status
    && is_domain_class r.result_class
    && str_eq t.request_id r.request_id
    && str_eq t.run_id r.run_id
    && stage_eq t.stage r.stage
    && optional_output_eq t.selected_output r.selected_output
    && optional_str_eq t.selected_output_schema_sha256 r.selected_output_schema_sha256

abbrev pub bool_eq : Bool → Bool → Bool
bool_eq true b = b
bool_eq false b = not b

-- `HarnessExecutionResult._check_result_class_invariants`: no `ValueError`.
unfoldable pub check_result_class_invariants : HarnessExecutionResult → Bool
unfolding intent_admitted
check_result_class_invariants r =
    bool_eq (is_some r.selected_output) (is_some r.selected_output_schema_sha256)
    && (if is_completed r.status
        then is_domain_class r.result_class
        else not (is_domain_class r.result_class))
    && intent_admitted r r.terminal_intent
    && (not (is_some r.selected_output) || is_some r.terminal_intent)
