-- ===== src/Runtime/Execute.antt =====
-- Steps 16 to 21 of `DefaultHarnessRuntime.execute` in src/millforge/runtime.py, its outer `try`
-- statement, and the whole of it.
pub mod Admission
pub mod Plan
pub mod Session
pub mod Recheck
pub mod Intent
pub mod Commit
pub mod Completion
pub mod Cancelled
pub mod Endings
pub mod Total
pub mod NaiveDeadline
use millforge.Prelude.{Bool, false, not, ◌&&◌, Option, none, some, if◌then◌else◌}
use Prim.Native.String.{◌++◌ as text_append}
use mathlib.Core.Option
use millforge.Runtime.Steps.{
  admit_invocation, admit_plan, between_checkpoints, build_tool_execution_context, call_backend,
  checked, construct_session, load_plan, prepare_run, resolve_token, run_backend, session_handler,
}
use millforge.Runtime.States.{
  ExecutionStatus, ExecutionResultClass, FailureOrigin, RuntimeState, TerminalCertainty,
  is_domain_status, origin_value,
}
use millforge.Runtime.Contracts.{
  CompiledHarnessPlan, Deadline, DiagnosticMetadata, GuardedSessionRequest, GuardedSessionResult,
  HarnessExecutionRequest, HarnessExecutionResult, TerminalIntent, ToolExecutionContext,
}
use millforge.Runtime.Classify.{classify_guarded_session_status, diagnostic_category}
use millforge.Runtime.Effects.{
  Env, Effect, Exec, Exn, ExnKind, ◌>>=◌, ◌>>◌, pure, throw, tick, try_except, from_call,
  is_exception, record_effect, return_from_execute,
}
use millforge.Runtime.Clauses.{
  Clauses, config_clause, mismatch_clauses, checked_clauses, cancelled_clause, deadline_clauses,
  expired_clause, any_clause, load_clauses, session_clauses, load_message, plain_message,
  external_cancellation,
}
use millforge.Runtime.Guard.{
  set_prepared, set_external_cancel, reset_state, deliver, fail, fail_early, guarded,
}
use millforge.Runtime.Machine.{transition_to}
use millforge.Runtime.Preflight.{
  validate_request, verify_plan_identity, verify_plan_hash, check_stage, check_model_profile,
  check_capabilities, join_path, millforge_dir, read_cancelled, read_monotonic, read_utc,
  check_cancelled, check_deadline, checkpoint_invocation, deadline_from_timeout,
  check_input_artifacts, prepare_run_directory,
}
use millforge.Runtime.Artifacts.{write_artifacts}
use millforge.Runtime.Results.{
  finalize_non_terminal_failure, finalize_non_domain_session_result, success_result,
}
use millforge.Runtime.Terminal.{validate_session_result, validate_terminal_intent}

module _ (env : Env) (request : HarnessExecutionRequest) where
  -- The diagnostic of a session with no terminal intent.
  abbrev no_intent_diagnostic : DiagnosticMetadata
  no_intent_diagnostic = record {
    error_code = origin_value FailureOrigin.invalid_terminal;
    category = diagnostic_category FailureOrigin.invalid_terminal;
    message = "Backend session produced no terminal intent";
    retryable = false;
    origin = origin_value FailureOrigin.invalid_terminal;
  }

  unfoldable pub require_intent :
      CompiledHarnessPlan → GuardedSessionResult → Option TerminalIntent → Exec TerminalIntent
  require_intent plan session_result none = return_from_execute (
      finalize_non_domain_session_result env request
        (record session_result { diagnostic = some no_intent_diagnostic }) ExecutionStatus.failed
        ExecutionResultClass.terminal_result_invalid)
  require_intent plan session_result (some intent) = do
    guarded env request (config_clause FailureOrigin.invalid_terminal) plain_message
        (validate_terminal_intent env plan request intent)
    pure intent

  -- Steps 16 and 17: what the session came to.
  unfoldable pub interpret_session :
      CompiledHarnessPlan → GuardedSessionRequest → GuardedSessionResult → Exec TerminalIntent
  interpret_session plan session_request session_result = do
    guarded env request (config_clause FailureOrigin.invalid_terminal) plain_message
        (validate_session_result session_request session_result)
    let c = classify_guarded_session_status session_result.status
    if is_domain_status session_result.status
        then require_intent plan session_result session_result.terminal_intent
        else return_from_execute
            (finalize_non_domain_session_result env request session_result c.1 c.0)

  -- The clauses around `_write_artifacts`.
  unfoldable pub commit_handler : Exn → Option (Exec Unit)
  commit_handler e = elim e.kind [
    | ExnKind.ambiguous_terminal_commit origin ↦
        some (return_from_execute (fail env request origin e.message TerminalCertainty.unknown))
    | ExnKind.operation_cancelled ↦
        some (fail_early env request plain_message e FailureOrigin.already_cancelled)
    | ExnKind.deadline_exceeded ↦
        some (fail_early env request plain_message e FailureOrigin.expired_deadline)
    | ExnKind.asyncio_cancelled ↦ none
    | _ ↦ some (
        fail_early env request (λ x. text_append "Artifact write failed: " x.message) e
          FailureOrigin.artifact_write_failure)
  ]

  -- Steps 18 to 21: the artifacts, and the result.
  unfoldable pub commit_terminal :
      GuardedSessionRequest → GuardedSessionResult → TerminalIntent → Exec HarnessExecutionResult
  commit_terminal session_request session_result intent = do
    let c = classify_guarded_session_status session_result.status
    transition_to RuntimeState.terminal_intent_received
    transition_to RuntimeState.finalizing
    try_except (write_artifacts env request session_result intent c.0 c.1 session_request.deadline)
        commit_handler
    transition_to RuntimeState.completed
    success_result env request intent session_result c.0

  -- The body of the outer `try`.
  unfoldable pub execute_steps : Exec HarnessExecutionResult
  execute_steps = do
    deadline ← admit_invocation env request
    prepare_run env request deadline
    plan ← admit_plan env request deadline
    session_request ← construct_session env request plan deadline
    session_result ← run_backend env request session_request
    intent ← interpret_session plan session_request session_result
    commit_terminal session_request session_result intent

  -- `try: await self._finalize_non_terminal_failure(…) except Exception: pass`
  unfoldable pub finalize_cancelled : Exec Unit
  finalize_cancelled s =
      if s.run_directory_prepared && not s.external_cancel_finalized
      then try_except
          (do
            r ←
                finalize_non_terminal_failure env FailureOrigin.already_cancelled request
                  (some external_cancellation) TerminalCertainty.not_applicable
            pure tt)
          (λ e. if is_exception e.kind then some (pure tt) else none) s
      else pure tt s

  -- The clauses of the outer `try`.
  unfoldable pub outer_handler : Exn → Option (Exec HarnessExecutionResult)
  outer_handler e = elim e.kind [
    | ExnKind.asyncio_cancelled ↦ some (do finalize_cancelled; throw e)
    | _ ↦ none
  ]

  -- `execute`: an early return is its result too.
  unfoldable pub execute : Exec HarnessExecutionResult
  execute = do now ← read_utc env; reset_state now; deliver (try_except execute_steps outer_handler)
