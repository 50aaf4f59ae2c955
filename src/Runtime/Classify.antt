-- ===== src/Runtime/Classify.antt =====
-- The classification matrices of src/millforge/runtime.py.
use millforge.Prelude.{Bool, true, false}
use millforge.Runtime.States.{
  ExecutionStatus, ExecutionResultClass, GuardedSessionStatus, DiagnosticCategory, FailureOrigin,
}

-- `_FAILURE_MATRIX`
unfoldable pub failure_matrix : FailureOrigin → ExecutionResultClass
failure_matrix FailureOrigin.compiled_harness_invalid =
    ExecutionResultClass.compiled_harness_invalid
failure_matrix FailureOrigin.hash_mismatch = ExecutionResultClass.compiled_harness_invalid
failure_matrix FailureOrigin.identity_mismatch = ExecutionResultClass.compiled_harness_invalid
failure_matrix FailureOrigin.incompatible_stage = ExecutionResultClass.compiled_harness_invalid
failure_matrix FailureOrigin.missing_capability = ExecutionResultClass.binding_rejected
failure_matrix FailureOrigin.already_cancelled = ExecutionResultClass.cancelled
failure_matrix FailureOrigin.expired_deadline = ExecutionResultClass.timed_out
failure_matrix FailureOrigin.backend_failure = ExecutionResultClass.backend_failure
failure_matrix FailureOrigin.model_failure = ExecutionResultClass.model_failure
failure_matrix FailureOrigin.tool_failure = ExecutionResultClass.tool_failure
failure_matrix FailureOrigin.invalid_terminal = ExecutionResultClass.terminal_result_invalid
failure_matrix FailureOrigin.artifact_write_failure =
    ExecutionResultClass.artifact_finalization_failed
failure_matrix FailureOrigin.infrastructure_failure = ExecutionResultClass.internal_failure

-- `_FAILURE_STATUS`
unfoldable pub failure_status : FailureOrigin → ExecutionStatus
failure_status FailureOrigin.already_cancelled = ExecutionStatus.interrupted
failure_status FailureOrigin.expired_deadline = ExecutionStatus.interrupted
failure_status _ = ExecutionStatus.failed

-- `_SESSION_STATUS_MATRIX`, its two columns
unfoldable pub session_result_class : GuardedSessionStatus → ExecutionResultClass
session_result_class GuardedSessionStatus.terminal = ExecutionResultClass.domain_terminal
session_result_class GuardedSessionStatus.rejected = ExecutionResultClass.domain_rejected
session_result_class GuardedSessionStatus.backend_failed = ExecutionResultClass.backend_failure
session_result_class GuardedSessionStatus.model_failed = ExecutionResultClass.model_failure
session_result_class GuardedSessionStatus.tool_failed = ExecutionResultClass.tool_failure
session_result_class GuardedSessionStatus.budget_exhausted = ExecutionResultClass.budget_exhausted
session_result_class GuardedSessionStatus.prerequisite_budget_exhausted =
    ExecutionResultClass.budget_exhausted
session_result_class GuardedSessionStatus.timed_out = ExecutionResultClass.timed_out
session_result_class GuardedSessionStatus.cancelled = ExecutionResultClass.cancelled
session_result_class GuardedSessionStatus.invalid_terminal =
    ExecutionResultClass.terminal_result_invalid

unfoldable pub session_execution_status : GuardedSessionStatus → ExecutionStatus
session_execution_status GuardedSessionStatus.terminal = ExecutionStatus.completed
session_execution_status GuardedSessionStatus.rejected = ExecutionStatus.completed
session_execution_status GuardedSessionStatus.backend_failed = ExecutionStatus.failed
session_execution_status GuardedSessionStatus.model_failed = ExecutionStatus.failed
session_execution_status GuardedSessionStatus.tool_failed = ExecutionStatus.failed
session_execution_status GuardedSessionStatus.budget_exhausted = ExecutionStatus.interrupted
session_execution_status GuardedSessionStatus.prerequisite_budget_exhausted = ExecutionStatus.failed
session_execution_status GuardedSessionStatus.timed_out = ExecutionStatus.interrupted
session_execution_status GuardedSessionStatus.cancelled = ExecutionStatus.interrupted
session_execution_status GuardedSessionStatus.invalid_terminal = ExecutionStatus.failed

unfoldable pub classify_failure : FailureOrigin → ExecutionResultClass × ExecutionStatus
unfolding failure_matrix failure_status
classify_failure origin = (failure_matrix origin, failure_status origin)

unfoldable pub classify_guarded_session_status :
    GuardedSessionStatus → ExecutionResultClass × ExecutionStatus
unfolding session_result_class session_execution_status
classify_guarded_session_status status =
    (session_result_class status, session_execution_status status)

-- `_diagnostic_category`
unfoldable pub diagnostic_category : FailureOrigin → DiagnosticCategory
diagnostic_category FailureOrigin.compiled_harness_invalid = DiagnosticCategory.compiled_harness
diagnostic_category FailureOrigin.hash_mismatch = DiagnosticCategory.compiled_harness
diagnostic_category FailureOrigin.identity_mismatch = DiagnosticCategory.compiled_harness
diagnostic_category FailureOrigin.incompatible_stage = DiagnosticCategory.compiled_harness
diagnostic_category FailureOrigin.missing_capability = DiagnosticCategory.binding
diagnostic_category FailureOrigin.already_cancelled = DiagnosticCategory.cancellation
diagnostic_category FailureOrigin.expired_deadline = DiagnosticCategory.timeout
diagnostic_category FailureOrigin.backend_failure = DiagnosticCategory.backend
diagnostic_category FailureOrigin.model_failure = DiagnosticCategory.model
diagnostic_category FailureOrigin.tool_failure = DiagnosticCategory.tool
diagnostic_category FailureOrigin.invalid_terminal = DiagnosticCategory.internal
diagnostic_category FailureOrigin.artifact_write_failure = DiagnosticCategory.artifact
diagnostic_category FailureOrigin.infrastructure_failure = DiagnosticCategory.internal

-- The origins that `retryable=origin in {…}` names.
unfoldable pub is_retryable : FailureOrigin → Bool
is_retryable FailureOrigin.backend_failure = true
is_retryable FailureOrigin.model_failure = true
is_retryable FailureOrigin.tool_failure = true
is_retryable FailureOrigin.infrastructure_failure = true
is_retryable _ = false
