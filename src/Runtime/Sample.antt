-- ===== src/Runtime/Sample.antt =====
-- A small harness, a request for it and a workspace, for runs of src/millforge/runtime.py.
use millforge.Prelude.{ℕ, String, [], ◌∷◌, Bool, true, false, Option, none, some, inr}
use millforge.Runtime.States.{GuardedSessionStatus, RuntimeState}
use millforge.Runtime.Contracts.{
  ArtifactRef, CompiledHarnessPlan, CompiledHarnessRef, Deadline, FilePath, GuardedSessionRequest,
  GuardedSessionResult, HarnessExecutionRequest, Plane, StageIdentity, TerminalIntent,
}
use millforge.Runtime.Effects.{Call, Env, IsoInstant, Rt}

abbrev pub stage : StageIdentity
stage = record { plane = Plane.execution; node_id = "n1"; stage_kind_id = "builder" }

abbrev pub harness : CompiledHarnessRef
harness = record {
  harness_id = "h";
  harness_version = 1;
  path = record { absolute = false; parts = "h.json" ∷ [] };
  digest = "d0";
}

abbrev pub run_path : FilePath
run_path = record { absolute = true; parts = "runs" ∷ "r1" ∷ [] }

abbrev pub notes : ArtifactRef
notes = record {
  artifact_id = "notes";
  path = record { absolute = false; parts = "millforge" ∷ "notes.md" ∷ [] };
}

abbrev pub request_with_deadline : Option String → HarnessExecutionRequest
request_with_deadline deadline = record {
  request_id = "q1";
  run_id = "r1";
  work_item_id = "w1";
  stage = stage;
  compiled_harness = harness;
  grants = "read" ∷ "write" ∷ [];
  input_artifacts = notes ∷ [];
  run_directory = record { run_id = "r1"; path = run_path };
  timeout = record { timeout_seconds = 1000; deadline = deadline };
  cancellation_id = "c1";
  model_profile = "small";
  selected_output_requirements = [];
}

abbrev pub request : HarnessExecutionRequest
request = request_with_deadline none

abbrev pub plan : CompiledHarnessPlan
plan = record {
  harness_id = "h";
  harness_version = 1;
  compiled_sha256 = "d0";
  stage_kind_ids = "builder" ∷ [];
  model_profile = "small";
  required_capabilities = "read" ∷ [];
  terminal_result_map = ("done", "complete") ∷ [];
  artifact_policy = "default";
}

abbrev pub intent : TerminalIntent
intent = record {
  request_id = "q1";
  run_id = "r1";
  stage = stage;
  terminal_node_id = "done";
  terminal_result = "complete";
  summary = "it is done";
  artifact_refs = [];
  selected_output = none;
  selected_output_schema_sha256 = none;
}

abbrev pub session_result : GuardedSessionStatus → GuardedSessionRequest → GuardedSessionResult
session_result status session = record {
  session_id = session.session_id;
  status = status;
  terminal_intent = some intent;
  artifact_refs = [];
  usage = none;
  diagnostic = none;
  events = [];
  tool_trace = [];
}

abbrev pub deadline : Deadline
deadline = record {
  started_monotonic = 0;
  outer_deadline_monotonic = 1000;
  effective_deadline_monotonic = 1000;
}

abbrev pub session : GuardedSessionRequest
session = record {
  session_id = "session-1";
  execution_request = request;
  deadline = deadline;
  tool_execution_context = none;
}

-- A workspace in which all goes well, with the instants at which it is cancelled.
abbrev pub env_with : (ℕ → Bool) → GuardedSessionStatus → Env
env_with cancelled status = record {
  utc_now = λ n. n;
  monotonic = λ n. n;
  is_cancelled = cancelled;
  resolve_cancellation = λ _. none;
  fromisoformat = λ _. IsoInstant.naive;
  load = λ _ _. Call.gives plan;
  run_session = λ session _. Call.gives (session_result status session);
  write = λ _ _ _. none;
  uuid4 = λ _. "session-1";
  workspace_root = none;
  cwd = inr (record { absolute = true; parts = [] });
  exists = λ _. inr true;
  is_dir = λ _. inr true;
  is_file = λ _. inr true;
  mkdir = λ _. none;
  resolve = λ p. inr p;
  resolve_strict = λ p. inr p;
  read_first_byte = λ _. none;
  admit_value = λ _ v. some v;
}

abbrev pub env : Env
env = env_with (λ _. false) GuardedSessionStatus.terminal

abbrev pub start : Rt
start = record {
  state = RuntimeState.received;
  started_at = none;
  run_directory_prepared = false;
  external_cancel_finalized = false;
  readings = 0;
  effects = [];
}
