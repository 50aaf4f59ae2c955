-- ===== src/Runtime/Results.antt =====
-- The result factories and the finalizers of src/millforge/runtime.py.
pub mod Endings
pub mod Finalizers
pub mod Agreement
use millforge.Prelude.{
  ℕ, ◌-◌, ltb, String, List, [], ◌++◌, Option, none, some, ◌⊎◌, inl, inr, is_some, if◌then◌else◌,
}
use Prim.Native.String.{◌++◌ as text_append}
use millforge.Runtime.States.{
  ExecutionStatus, ExecutionResultClass, FailureOrigin, RuntimeState, TerminalCertainty,
  origin_value,
}
use millforge.Runtime.Contracts.{
  ArtifactRef, DiagnosticMetadata, GuardedSessionResult, HarnessExecutionRequest,
  HarnessExecutionResult, TerminalIntent, TimingMetadata, UsageMetadata,
}
use millforge.Runtime.Classify.{classify_failure, diagnostic_category, is_retryable}
use millforge.Runtime.Effects.{
  Env, Exec, Exn, ExnKind, ok, ◌>>=◌, ◌>>◌, pure, raise_if, try_except, is_exception,
}
use millforge.Runtime.Machine.{transition_to, enter_non_terminal_finalizing}
use millforge.Runtime.Preflight.{read_utc}
use millforge.Runtime.Artifacts.{write_non_terminal_artifacts}
use millforge.Runtime.ArtifactRefs.{build_success_artifact_refs}

-- The state that `_failure_result` moves to.
unfoldable pub failure_target : FailureOrigin → RuntimeState
failure_target FailureOrigin.already_cancelled = RuntimeState.interrupted
failure_target _ = RuntimeState.failed

-- The state that the finalizers move to.
unfoldable pub status_target : ExecutionStatus → RuntimeState
status_target ExecutionStatus.interrupted = RuntimeState.interrupted
status_target _ = RuntimeState.failed

-- The diagnostic of a failure with a message.
unfoldable pub failure_diagnostic : FailureOrigin → Option String → Option DiagnosticMetadata
failure_diagnostic origin none = none
failure_diagnostic origin (some text) = some (record {
  error_code = origin_value origin;
  category = diagnostic_category origin;
  message = text;
  retryable = is_retryable origin;
  origin = origin_value origin;
})

-- A result that echoes the request and has no terminal intent.
abbrev pub non_domain_result :
    HarnessExecutionRequest
    → ExecutionStatus
    → ExecutionResultClass
    → List ArtifactRef
    → Option UsageMetadata
    → TimingMetadata
    → Option DiagnosticMetadata
    → TerminalCertainty
    → HarnessExecutionResult
non_domain_result request status result_class refs usage timing diagnosis certainty = record {
  status = status;
  result_class = result_class;
  request_id = request.request_id;
  run_id = request.run_id;
  stage = request.stage;
  terminal_intent = none;
  artifact_refs = refs;
  compiled_harness = request.compiled_harness;
  usage = usage;
  timing = timing;
  diagnostic = diagnosis;
  terminal_certainty = certainty;
  selected_output = none;
  selected_output_schema_sha256 = none;
}

abbrev pub started_or : Option ℕ → ℕ → ℕ
started_or none now = now
started_or (some t) now = t

unfoldable pub get_started_at : Exec (Option ℕ)
get_started_at s = (ok s.started_at, s)

abbrev no_usage : UsageMetadata
no_usage = record { model_calls = 0; tool_calls = 0; token_usage = none }

abbrev usage_or_zero : Option UsageMetadata → UsageMetadata
usage_or_zero none = no_usage
usage_or_zero (some u) = u

module _ (env : Env) where
  -- `_timing`: where the clock has gone back, `TimingMetadata` refuses the duration.
  unfoldable pub build_timing : Exec TimingMetadata
  build_timing = do
    now ← read_utc env
    started ← get_started_at
    raise_if (ltb now (started_or started now)) ExnKind.validation_error
        "duration_ms: Input should be greater than or equal to 0"
    pure (record {
      started_at = started_or started now;
      completed_at = now;
      duration_ms = now - started_or started now;
    })

  -- `_failure_result`; no caller gives it a terminal intent
  unfoldable pub failure_result :
      FailureOrigin
      → HarnessExecutionRequest
      → Option String
      → TerminalCertainty
      → Exec HarnessExecutionResult
  failure_result origin request message certainty = do
    transition_to (failure_target origin)
    timing ← build_timing
    let c = classify_failure origin
    pure (
        non_domain_result request c.1 c.0 [] none timing (failure_diagnostic origin message)
          certainty)

  -- The handlers around the artifact writes of both finalizers, which return.
  unfoldable pub artifact_failure :
      HarnessExecutionRequest
      → TerminalCertainty
      → Exn
      → Option (Exec (List ArtifactRef ⊎ HarnessExecutionResult))
  artifact_failure request certainty e =
      if is_exception e.kind
      then some (do
        r ←
            failure_result FailureOrigin.artifact_write_failure request
              (some (text_append "Artifact finalization failed: " e.message)) certainty
        pure (inr r))
      else none

  -- What both finalizers do with the written references.
  unfoldable pub finish_finalizing :
      (List ArtifactRef → TimingMetadata → HarnessExecutionResult)
      → ExecutionStatus
      → List ArtifactRef ⊎ HarnessExecutionResult
      → Exec HarnessExecutionResult
  finish_finalizing build status (inr r) = pure r
  finish_finalizing build status (inl refs) = do
    transition_to (status_target status)
    timing ← build_timing
    pure (build refs timing)

  -- `_finalize_non_terminal_failure`
  unfoldable pub finalize_non_terminal_failure :
      FailureOrigin
      → HarnessExecutionRequest
      → Option String
      → TerminalCertainty
      → Exec HarnessExecutionResult
  finalize_non_terminal_failure origin request message certainty = do
    enter_non_terminal_finalizing
    let c = classify_failure origin
    let diagnosis = failure_diagnostic origin message
    written ←
        try_except
          (do
            refs ← write_non_terminal_artifacts env request c.1 c.0 none diagnosis certainty
            pure (inl refs))
          (artifact_failure request certainty)
    finish_finalizing
        (λ refs timing. non_domain_result request c.1 c.0 refs none timing diagnosis certainty) c.1
        written

  -- `_finalize_non_domain_session_result`
  unfoldable pub finalize_non_domain_session_result :
      HarnessExecutionRequest
      → GuardedSessionResult
      → ExecutionStatus
      → ExecutionResultClass
      → Exec HarnessExecutionResult
  finalize_non_domain_session_result request session_result status result_class = do
    enter_non_terminal_finalizing
    written ←
        try_except
          (do
            refs ←
                write_non_terminal_artifacts env request status result_class (some session_result)
                  session_result.diagnostic TerminalCertainty.not_applicable
            pure (inl refs))
          (artifact_failure request TerminalCertainty.not_applicable)
    finish_finalizing
        (λ refs timing.
          non_domain_result request status result_class (session_result.artifact_refs ++ refs)
            session_result.usage timing session_result.diagnostic TerminalCertainty.not_applicable)
        status written

  -- `_success_result`, as `execute` calls it: with an intent and a session result
  unfoldable pub success_result :
      HarnessExecutionRequest
      → TerminalIntent
      → GuardedSessionResult
      → ExecutionResultClass
      → Exec HarnessExecutionResult
  success_result request intent session_result result_class = do
    timing ← build_timing
    pure (record {
      status = ExecutionStatus.completed;
      result_class = result_class;
      request_id = request.request_id;
      run_id = request.run_id;
      stage = request.stage;
      terminal_intent = some intent;
      artifact_refs = build_success_artifact_refs (is_some session_result.diagnostic);
      compiled_harness = request.compiled_harness;
      usage = some (usage_or_zero session_result.usage);
      timing = timing;
      diagnostic = session_result.diagnostic;
      terminal_certainty = TerminalCertainty.committed;
      selected_output = intent.selected_output;
      selected_output_schema_sha256 = intent.selected_output_schema_sha256;
    })
