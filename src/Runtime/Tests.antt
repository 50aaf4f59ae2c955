-- ===== src/Runtime/Tests.antt =====
-- Runs of the runtime of src/millforge/runtime.py on a small harness, and the theorems at them.
use millforge.Prelude.{
  str_eq, if◌then◌else◌, ℕ, String, [], ◌∷◌, true, Option, none, some, ◌⊎◌, ◌≡◌, refl, is_blank,
  is_space, str_in, lookup,
}
use millforge.Runtime.Effects.{
  Env, ExnKind, is_exception, is_os_error, fs_exn, ◌>>=◌, pure, throw, raise, raise_if,
  return_from_execute, try_except, from_call, from_fs, tick, record_effect,
}
use millforge.Runtime.Guard.{reset_state, set_prepared, set_external_cancel, deliver, fail, guarded}
use millforge.Runtime.Preflight.{
  validate_request, verify_plan_identity, verify_plan_hash, check_stage, check_model_profile,
  missing_capabilities, check_capabilities, starts_with_parts, is_relative_to, path_in,
  read_cancelled, read_monotonic, read_utc, check_cancelled, check_deadline, checkpoint_invocation,
  check_iso_instant, check_absolute_deadline, deadline_from_timeout, resolve_failure,
  check_readable, check_input_artifact, check_artifacts_from, check_input_artifacts,
  make_millforge_dir, make_run_directory, prepare_failure, prepare_run_directory,
}
use millforge.Runtime.Execute.{
  require_intent, interpret_session, commit_handler, commit_terminal, execute_steps,
  finalize_cancelled, outer_handler, execute,
}
use millforge.Runtime.Steps.{
  admit_invocation, prepare_run, load_plan, admit_plan, build_tool_execution_context,
  construct_session, call_backend, session_handler, run_backend,
}
use millforge.Runtime.Machine.{forward, state_in, transition_to, enter_non_terminal_finalizing}
use millforge.Runtime.Artifacts.{
  post_commit_writes, write_artifact, write_session_records, write_optional_diagnostic,
  write_non_terminal_artifacts, ambiguous_commit, checkpoint_after_terminal_commit,
  write_after_commit, write_artifacts,
}
use millforge.Runtime.ArtifactRefs.{
  artifact_key, standard_filename, build_artifact_ref, success_artifact_ids,
  build_success_artifact_refs, non_terminal_artifact_ids,
}
use millforge.Runtime.Results.{
  failure_target, status_target, failure_diagnostic, get_started_at, build_timing, failure_result,
  artifact_failure, finish_finalizing, finalize_non_terminal_failure,
  finalize_non_domain_session_result, success_result,
}
use millforge.Runtime.Terminal.{
  validate_session_result, requirements_from, requirements_by_terminal_result,
  value_error_as_config, check_no_selected_output, check_terminal_result, admit_selected_output,
  check_admission, check_selected_output, validate_terminal_intent,
}
use millforge.Runtime.Clauses.{
  config_clause, mismatch_clauses, checked_clauses, cancelled_clause, deadline_clauses,
  expired_clause, any_clause, load_clauses, session_clauses,
}
use millforge.Runtime.Classify.{
  failure_matrix, failure_status, session_result_class, session_execution_status, classify_failure,
  classify_guarded_session_status, diagnostic_category, is_retryable,
}
use millforge.Runtime.Sample.{
  deadline, env, env_with, intent, request, request_with_deadline, session, session_result, start,
}
use millforge.Runtime.States.{is_terminal, status_value, session_status_value, origin_value}
use millforge.Runtime.Contracts.{
  stage_eq, selected_output_eq, intent_admitted, check_result_class_invariants,
}
use millforge.Runtime.Logic.{sessions, commits}
use millforge.Runtime.States.{
  ExecutionStatus, ExecutionResultClass, GuardedSessionStatus, RuntimeState,
}
use millforge.Runtime.Contracts.{HarnessExecutionResult}
use millforge.Runtime.Effects.{Outcome, Rt, ok, raised}
use millforge.Runtime.Preflight.Inputs.{InputsConfined, check_input_artifacts-AllConfined}
use millforge.Runtime.Artifacts.{terminal_result_payload}
use millforge.Runtime.ArtifactRefs.{ArtifactId}
use millforge.Runtime.Artifacts.Order.{WrotePrefix, write_artifacts-WrotePrefix}
use millforge.Runtime.Execute.Recheck.{Rechecked, run_backend-Rechecked}
use millforge.Runtime.Execute.NaiveDeadline.{NaiveComparison, execute-NaiveComparison}
use millforge.Runtime.Machine.Legal.{Step, refusal, transition-iff-Step}

-- The status of a result, the state that is left, the sessions and the commits.
abbrev run_summary :
    Outcome HarnessExecutionResult × Rt → Option ExecutionStatus × RuntimeState × ℕ × ℕ
run_summary (ok r, s) = (some r.status, s.state, sessions s.effects, commits s.effects)
run_summary (_, s) = (none, s.state, sessions s.effects, commits s.effects)

completes :
    run_summary (execute env request start)
    ≡ (some ExecutionStatus.completed, RuntimeState.completed, 1, 1)
unfolding is_exception is_os_error fs_exn ◌>>=◌ pure throw raise raise_if return_from_execute
    try_except from_call from_fs tick record_effect reset_state set_prepared set_external_cancel
    deliver fail guarded validate_request verify_plan_identity verify_plan_hash check_stage
    check_model_profile missing_capabilities check_capabilities starts_with_parts is_relative_to
    path_in read_cancelled read_monotonic read_utc check_cancelled check_deadline
    checkpoint_invocation check_iso_instant check_absolute_deadline deadline_from_timeout
    resolve_failure check_readable check_input_artifact check_artifacts_from check_input_artifacts
    make_millforge_dir make_run_directory prepare_failure prepare_run_directory admit_invocation
    prepare_run load_plan admit_plan build_tool_execution_context construct_session call_backend
    session_handler run_backend require_intent interpret_session commit_handler commit_terminal
    execute_steps finalize_cancelled outer_handler execute forward state_in transition_to
    enter_non_terminal_finalizing artifact_key standard_filename build_artifact_ref
    success_artifact_ids build_success_artifact_refs non_terminal_artifact_ids post_commit_writes
    write_artifact write_session_records write_optional_diagnostic write_non_terminal_artifacts
    ambiguous_commit checkpoint_after_terminal_commit write_after_commit write_artifacts
    failure_target status_target failure_diagnostic get_started_at build_timing failure_result
    artifact_failure finish_finalizing finalize_non_terminal_failure
    finalize_non_domain_session_result success_result validate_session_result requirements_from
    requirements_by_terminal_result value_error_as_config check_no_selected_output
    check_terminal_result admit_selected_output check_admission check_selected_output
    validate_terminal_intent config_clause mismatch_clauses checked_clauses cancelled_clause
    deadline_clauses expired_clause any_clause load_clauses session_clauses failure_matrix
    failure_status session_result_class session_execution_status classify_failure
    classify_guarded_session_status diagnostic_category is_retryable is_terminal status_value
    session_status_value origin_value stage_eq selected_output_eq intent_admitted
    check_result_class_invariants sessions commits is_blank is_space str_in lookup
completes = refl

cancelled_at_once :
    run_summary (execute (env_with (λ _. true) GuardedSessionStatus.terminal) request start)
    ≡ (some ExecutionStatus.interrupted, RuntimeState.interrupted, 0, 0)
unfolding is_exception is_os_error fs_exn ◌>>=◌ pure throw raise raise_if return_from_execute
    try_except from_call from_fs tick record_effect reset_state set_prepared set_external_cancel
    deliver fail guarded validate_request verify_plan_identity verify_plan_hash check_stage
    check_model_profile missing_capabilities check_capabilities starts_with_parts is_relative_to
    path_in read_cancelled read_monotonic read_utc check_cancelled check_deadline
    checkpoint_invocation check_iso_instant check_absolute_deadline deadline_from_timeout
    resolve_failure check_readable check_input_artifact check_artifacts_from check_input_artifacts
    make_millforge_dir make_run_directory prepare_failure prepare_run_directory admit_invocation
    prepare_run load_plan admit_plan build_tool_execution_context construct_session call_backend
    session_handler run_backend require_intent interpret_session commit_handler commit_terminal
    execute_steps finalize_cancelled outer_handler execute forward state_in transition_to
    enter_non_terminal_finalizing artifact_key standard_filename build_artifact_ref
    success_artifact_ids build_success_artifact_refs non_terminal_artifact_ids post_commit_writes
    write_artifact write_session_records write_optional_diagnostic write_non_terminal_artifacts
    ambiguous_commit checkpoint_after_terminal_commit write_after_commit write_artifacts
    failure_target status_target failure_diagnostic get_started_at build_timing failure_result
    artifact_failure finish_finalizing finalize_non_terminal_failure
    finalize_non_domain_session_result success_result validate_session_result requirements_from
    requirements_by_terminal_result value_error_as_config check_no_selected_output
    check_terminal_result admit_selected_output check_admission check_selected_output
    validate_terminal_intent config_clause mismatch_clauses checked_clauses cancelled_clause
    deadline_clauses expired_clause any_clause load_clauses session_clauses failure_matrix
    failure_status session_result_class session_execution_status classify_failure
    classify_guarded_session_status diagnostic_category is_retryable is_terminal status_value
    session_status_value origin_value stage_eq selected_output_eq intent_admitted
    check_result_class_invariants sessions commits is_blank is_space str_in lookup
cancelled_at_once = refl

transition-iff-Step_example :
    (Step RuntimeState.received RuntimeState.verified
      × (transition_to RuntimeState.verified start
          ≡ (ok tt, record start { state = RuntimeState.verified })))
    ⊎ ((¬ Step RuntimeState.received RuntimeState.verified)
        × ((text : String) × (transition_to RuntimeState.verified start ≡ refusal text start)))
transition-iff-Step_example = transition-iff-Step RuntimeState.verified start

check_input_artifacts-AllConfined_example : InputsConfined env request
unfolding check_input_artifacts check_artifacts_from check_input_artifact raise_if pure ◌>>=◌
    try_except from_fs str_in is_relative_to starts_with_parts path_in check_readable
check_input_artifacts-AllConfined_example = check_input_artifacts-AllConfined env request start refl

write_artifacts-WrotePrefix_example :
    WrotePrefix
      ((
        ArtifactId.terminal_result,
        terminal_result_payload request intent ExecutionResultClass.domain_terminal,
      )
        ∷ post_commit_writes request
            (session_result GuardedSessionStatus.terminal session)
            ExecutionResultClass.domain_terminal
            ExecutionStatus.completed)
      []
      (write_artifacts env request
        (session_result GuardedSessionStatus.terminal session)
        intent
        ExecutionResultClass.domain_terminal
        ExecutionStatus.completed
        deadline
        start).1.effects
write_artifacts-WrotePrefix_example =
    write_artifacts-WrotePrefix env request (session_result GuardedSessionStatus.terminal session)
      intent ExecutionResultClass.domain_terminal ExecutionStatus.completed deadline start

-- A workspace whose clock stands still.
abbrev still_clock : Env
still_clock = record env { monotonic = λ _. 7 }

execute-NaiveComparison_example :
    NaiveComparison (execute env (request_with_deadline (some "2030-01-01T00:00:00")) start)
unfolding is_blank is_space
execute-NaiveComparison_example =
    execute-NaiveComparison env (request_with_deadline (some "2030-01-01T00:00:00")) start
      "2030-01-01T00:00:00" refl refl refl refl refl refl refl

abbrev constructed : Rt
constructed = record start { state = RuntimeState.backend_session_constructed }

run_backend-Rechecked_example :
    Rechecked env session constructed (run_backend env request session constructed).1
run_backend-Rechecked_example = run_backend-Rechecked env request session constructed refl

-- A clock that reads less than it did when the run began.
abbrev clock_back : Env
clock_back = record env { utc_now = λ _. 3 }

-- The result of a completed run is not built then.
no_result :
    (success_result clock_back request intent
      (session_result GuardedSessionStatus.terminal session)
      ExecutionResultClass.domain_terminal
      (record start { started_at = some 5 })).0
    ≡ raised (record {
      kind = ExnKind.validation_error;
      message = "duration_ms: Input should be greater than or equal to 0";
    })
unfolding success_result build_timing read_utc tick get_started_at raise_if raise pure ◌>>=◌
no_result = refl

-- A workspace in which the metrics cannot be written.
abbrev no_metrics : Env
no_metrics = record env {
  write = λ ref _ _.
      if str_eq ref.artifact_id "metrics"
      then some (record { kind = ExnKind.artifact_write; message = "disk full" })
      else none;
}

-- The result is a failure, although the terminal result was written.
fails_after_commit :
    run_summary (execute no_metrics request start)
    ≡ (some ExecutionStatus.failed, RuntimeState.failed, 1, 1)
unfolding is_exception is_os_error fs_exn ◌>>=◌ pure throw raise raise_if return_from_execute
    try_except from_call from_fs tick record_effect reset_state set_prepared set_external_cancel
    deliver fail guarded validate_request verify_plan_identity verify_plan_hash check_stage
    check_model_profile missing_capabilities check_capabilities starts_with_parts is_relative_to
    path_in read_cancelled read_monotonic read_utc check_cancelled check_deadline
    checkpoint_invocation check_iso_instant check_absolute_deadline deadline_from_timeout
    resolve_failure check_readable check_input_artifact check_artifacts_from check_input_artifacts
    make_millforge_dir make_run_directory prepare_failure prepare_run_directory admit_invocation
    prepare_run load_plan admit_plan build_tool_execution_context construct_session call_backend
    session_handler run_backend require_intent interpret_session commit_handler commit_terminal
    execute_steps finalize_cancelled outer_handler execute forward state_in transition_to
    enter_non_terminal_finalizing artifact_key standard_filename build_artifact_ref
    success_artifact_ids build_success_artifact_refs non_terminal_artifact_ids post_commit_writes
    write_artifact write_session_records write_optional_diagnostic write_non_terminal_artifacts
    ambiguous_commit checkpoint_after_terminal_commit write_after_commit write_artifacts
    failure_target status_target failure_diagnostic get_started_at build_timing failure_result
    artifact_failure finish_finalizing finalize_non_terminal_failure
    finalize_non_domain_session_result success_result validate_session_result requirements_from
    requirements_by_terminal_result value_error_as_config check_no_selected_output
    check_terminal_result admit_selected_output check_admission check_selected_output
    validate_terminal_intent config_clause mismatch_clauses checked_clauses cancelled_clause
    deadline_clauses expired_clause any_clause load_clauses session_clauses failure_matrix
    failure_status session_result_class session_execution_status classify_failure
    classify_guarded_session_status diagnostic_category is_retryable is_terminal status_value
    session_status_value origin_value stage_eq selected_output_eq intent_admitted
    check_result_class_invariants sessions commits is_blank is_space str_in lookup
fails_after_commit = refl
