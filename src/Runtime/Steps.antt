-- ===== src/Runtime/Steps.antt =====
-- Steps 1 to 15 of `DefaultHarnessRuntime.execute` in src/millforge/runtime.py. Each `try` statement
-- with its `except` clauses is a `guarded` action, and `returned` is an early
-- `return await fail(…)`.
use millforge.Prelude.{Bool, Option, none, some, ◌⊎◌, inr}
use Prim.Native.String.{◌++◌ as text_append}
use mathlib.Core.Option
use millforge.Runtime.States.{FailureOrigin, RuntimeState, TerminalCertainty}
use millforge.Runtime.Contracts.{
  CompiledHarnessPlan, Deadline, FilePath, GuardedSessionRequest, GuardedSessionResult,
  HarnessExecutionRequest, ToolExecutionContext,
}
use millforge.Runtime.Effects.{
  Env, Effect, Exec, Exn, ExnKind, FsFailure, ◌>>=◌, ◌>>◌, pure, throw, tick, try_except, from_call,
  from_fs, record_effect,
}
use millforge.Runtime.Clauses.{
  Clauses, config_clause, mismatch_clauses, checked_clauses, cancelled_clause, deadline_clauses,
  expired_clause, any_clause, load_clauses, session_clauses, load_message, plain_message,
  external_cancellation,
}
use millforge.Runtime.Guard.{set_prepared, set_external_cancel, fail, fail_early, guarded}
use millforge.Runtime.Machine.{transition_to}
use millforge.Runtime.Preflight.{
  validate_request, verify_plan_identity, verify_plan_hash, check_stage, check_model_profile,
  check_capabilities, join_path, millforge_dir, read_cancelled, read_monotonic, check_cancelled,
  check_deadline, checkpoint_invocation, deadline_from_timeout, check_input_artifacts,
  prepare_run_directory,
}

module _ (env : Env) (request : HarnessExecutionRequest) where
  abbrev pub resolve_token : Option Exn → Exec Unit
  resolve_token none = pure tt
  resolve_token (some e) = throw e

  -- Steps 1 to 5: the request, the cancellation token and the deadline.
  unfoldable pub admit_invocation : Exec Deadline
  admit_invocation = do
    guarded env request (config_clause FailureOrigin.infrastructure_failure) plain_message
        (validate_request request)
    guarded env request (any_clause FailureOrigin.infrastructure_failure)
        (λ e. text_append "Cancellation resolution failed: " e.message)
        (resolve_token (env.resolve_cancellation request.cancellation_id))
    guarded env request cancelled_clause plain_message (check_cancelled env)
    guarded env request deadline_clauses plain_message (do
      deadline ← deadline_from_timeout env request.timeout.timeout_seconds request.timeout.deadline
      check_deadline env deadline
      pure deadline)

  -- `checkpoint; action; checkpoint`
  abbrev pub between_checkpoints : {A : Type 0} → Deadline → Exec A → Exec A
  between_checkpoints deadline action = do
    checkpoint_invocation env deadline
    a ← action
    checkpoint_invocation env deadline
    pure a

  -- Step 6b: the run directory.
  unfoldable pub prepare_run : Deadline → Exec Unit
  prepare_run deadline =
      guarded env request (checked_clauses FailureOrigin.infrastructure_failure) plain_message
        (between_checkpoints deadline (do prepare_run_directory env request; set_prepared))

  -- `self._plan_loader.load`
  unfoldable pub load_plan : Exec CompiledHarnessPlan
  load_plan = do
    n ← tick
    plan ← from_call (env.load request.compiled_harness n)
    record_effect (Effect.loaded_plan plan)
    pure plan

  abbrev pub checked : Deadline → Clauses → Exec Unit → Exec Unit
  checked deadline clauses check =
      guarded env request clauses plain_message (between_checkpoints deadline check)

  -- Steps 7 to 10: the compiled plan, and the checks of the request against it.
  unfoldable pub admit_plan : Deadline → Exec CompiledHarnessPlan
  admit_plan deadline = do
    plan ← guarded env request load_clauses load_message (between_checkpoints deadline load_plan)
    checked deadline (mismatch_clauses FailureOrigin.identity_mismatch)
        (verify_plan_identity plan request)
    checked deadline (mismatch_clauses FailureOrigin.hash_mismatch) (verify_plan_hash plan request)
    checked deadline (checked_clauses FailureOrigin.incompatible_stage) (check_stage plan request)
    checked deadline (checked_clauses FailureOrigin.identity_mismatch)
        (check_model_profile plan request)
    checked deadline (checked_clauses FailureOrigin.missing_capability)
        (check_capabilities plan request)
    checked deadline (checked_clauses FailureOrigin.missing_capability)
        (check_input_artifacts env request)
    transition_to RuntimeState.verified
    pure plan

  -- `self._workspace_root or Path.cwd()`
  abbrev pub workspace_root_or : Option FilePath → FsFailure ⊎ FilePath
  workspace_root_or none = env.cwd
  workspace_root_or (some path) = inr path

  -- `_build_tool_execution_context`
  unfoldable pub build_tool_execution_context :
      CompiledHarnessPlan → Deadline → Bool → Exec ToolExecutionContext
  build_tool_execution_context plan deadline cancellation_requested = do
    workspace_root ← from_fs (workspace_root_or env.workspace_root)
    now ← read_monotonic env
    pure (record {
      request_id = request.request_id;
      run_id = request.run_id;
      stage = request.stage;
      run_directory = request.run_directory;
      grants = request.grants;
      timeout = request.timeout;
      cancellation_id = request.cancellation_id;
      deadline = deadline;
      workspace_root = workspace_root;
      artifact_root = join_path request.run_directory.path millforge_dir;
      compiled_artifact_policy = plan.artifact_policy;
      input_artifacts = request.input_artifacts;
      work_item_id = request.work_item_id;
      cancellation_requested = cancellation_requested;
      current_monotonic = now;
    })

  -- Steps 11 and 12: the guarded session.
  unfoldable pub construct_session : CompiledHarnessPlan → Deadline → Exec GuardedSessionRequest
  construct_session plan deadline = do
    session_request ←
        guarded env request (checked_clauses FailureOrigin.infrastructure_failure) plain_message (do
          checkpoint_invocation env deadline
          n ← tick
          session_deadline ←
              deadline_from_timeout env request.timeout.timeout_seconds request.timeout.deadline
          cancellation_requested ← read_cancelled env
          context ← build_tool_execution_context plan session_deadline cancellation_requested
          checkpoint_invocation env session_deadline
          pure (record {
            session_id = env.uuid4 n;
            execution_request = request;
            deadline = session_deadline;
            tool_execution_context = some context;
          }))
    transition_to RuntimeState.backend_session_constructed
    pure session_request

  -- `self._backend.run_session`
  unfoldable pub call_backend : GuardedSessionRequest → Exec GuardedSessionResult
  call_backend session_request = do
    n ← tick
    record_effect (Effect.ran_session session_request)
    from_call (env.run_session session_request n)

  -- `except asyncio.CancelledError` around the backend session, and its other clauses.
  unfoldable pub session_handler : Exn → Option (Exec GuardedSessionResult)
  session_handler e = elim e.kind [
    | ExnKind.asyncio_cancelled ↦ some (do
      set_external_cancel
      r ←
          fail env request FailureOrigin.already_cancelled external_cancellation
            TerminalCertainty.not_applicable
      throw e)
    | kind ↦ Option.map (fail_early env request plain_message e) (session_clauses kind)
  ]

  -- Steps 13 to 15: the session itself.
  unfoldable pub run_backend : GuardedSessionRequest → Exec GuardedSessionResult
  run_backend session_request = do
    guarded env request expired_clause plain_message (check_deadline env session_request.deadline)
    guarded env request cancelled_clause plain_message (check_cancelled env)
    transition_to RuntimeState.running
    try_except (call_backend session_request) session_handler
