-- ===== src/Runtime/States.antt =====
-- The closed enumerations of src/millforge/runtime.py and src/millforge/contracts.py, with the
-- tests and the `value` texts that the runtime takes of them.
use millforge.Prelude.{ℕ, String, Bool, true, false, ◌==◌}

-- contracts.py
pub data ExecutionStatus : Type 0 where
  completed failed interrupted : ExecutionStatus

pub data ExecutionResultClass : Type 0 where
  domain_terminal domain_rejected binding_rejected compiled_harness_invalid backend_failure
        model_failure tool_failure budget_exhausted timed_out cancelled terminal_result_invalid
        artifact_finalization_failed internal_failure :
      ExecutionResultClass

pub data TerminalCertainty : Type 0 where
  not_applicable committed unknown : TerminalCertainty

pub data GuardedSessionStatus : Type 0 where
  terminal rejected backend_failed model_failed tool_failed budget_exhausted
        prerequisite_budget_exhausted timed_out cancelled invalid_terminal :
      GuardedSessionStatus

-- The literals of `DiagnosticMetadata.category`.
pub data DiagnosticCategory : Type 0 where
  binding compiled_harness backend model tool budget timeout cancellation artifact internal :
      DiagnosticCategory

-- runtime.py
pub data RuntimeState : Type 0 where
  received verified backend_session_constructed running terminal_intent_received finalizing
        completed failed interrupted :
      RuntimeState

pub data FailureOrigin : Type 0 where
  compiled_harness_invalid hash_mismatch identity_mismatch incompatible_stage missing_capability
        already_cancelled expired_deadline backend_failure model_failure tool_failure
        invalid_terminal artifact_write_failure infrastructure_failure :
      FailureOrigin

-- `RuntimeState._is_terminal`
unfoldable pub is_terminal : RuntimeState → Bool
is_terminal RuntimeState.completed = true
is_terminal RuntimeState.failed = true
is_terminal RuntimeState.interrupted = true
is_terminal _ = false

-- The place of a state in the enumeration, by which two states are compared.
abbrev pub state_index : RuntimeState → ℕ
state_index RuntimeState.received = 0
state_index RuntimeState.verified = 1
state_index RuntimeState.backend_session_constructed = 2
state_index RuntimeState.running = 3
state_index RuntimeState.terminal_intent_received = 4
state_index RuntimeState.finalizing = 5
state_index RuntimeState.completed = 6
state_index RuntimeState.failed = 7
state_index RuntimeState.interrupted = 8

abbrev pub state_eq : RuntimeState → RuntimeState → Bool
state_eq s t = state_index s == state_index t

-- `status == ExecutionStatus.COMPLETED`, and so for the others.
abbrev pub is_completed : ExecutionStatus → Bool
is_completed ExecutionStatus.completed = true
is_completed _ = false

abbrev pub is_interrupted : ExecutionStatus → Bool
is_interrupted ExecutionStatus.interrupted = true
is_interrupted _ = false

abbrev pub is_committed : TerminalCertainty → Bool
is_committed TerminalCertainty.committed = true
is_committed _ = false

-- membership in {DOMAIN_TERMINAL, DOMAIN_REJECTED}
abbrev pub is_domain_class : ExecutionResultClass → Bool
is_domain_class ExecutionResultClass.domain_terminal = true
is_domain_class ExecutionResultClass.domain_rejected = true
is_domain_class _ = false

-- membership in `domain_artifact_statuses`
abbrev pub is_domain_status : GuardedSessionStatus → Bool
is_domain_status GuardedSessionStatus.terminal = true
is_domain_status GuardedSessionStatus.rejected = true
is_domain_status _ = false

-- The `value` of each member.
unfoldable pub status_value : ExecutionStatus → String
status_value ExecutionStatus.completed = "completed"
status_value ExecutionStatus.failed = "failed"
status_value ExecutionStatus.interrupted = "interrupted"

unfoldable pub session_status_value : GuardedSessionStatus → String
session_status_value GuardedSessionStatus.terminal = "terminal"
session_status_value GuardedSessionStatus.rejected = "rejected"
session_status_value GuardedSessionStatus.backend_failed = "backend_failed"
session_status_value GuardedSessionStatus.model_failed = "model_failed"
session_status_value GuardedSessionStatus.tool_failed = "tool_failed"
session_status_value GuardedSessionStatus.budget_exhausted = "budget_exhausted"
session_status_value GuardedSessionStatus.prerequisite_budget_exhausted =
    "prerequisite_budget_exhausted"
session_status_value GuardedSessionStatus.timed_out = "timed_out"
session_status_value GuardedSessionStatus.cancelled = "cancelled"
session_status_value GuardedSessionStatus.invalid_terminal = "invalid_terminal"

unfoldable pub origin_value : FailureOrigin → String
origin_value FailureOrigin.compiled_harness_invalid = "compiled_harness_invalid"
origin_value FailureOrigin.hash_mismatch = "hash_mismatch"
origin_value FailureOrigin.identity_mismatch = "identity_mismatch"
origin_value FailureOrigin.incompatible_stage = "incompatible_stage"
origin_value FailureOrigin.missing_capability = "missing_capability"
origin_value FailureOrigin.already_cancelled = "already_cancelled"
origin_value FailureOrigin.expired_deadline = "expired_deadline"
origin_value FailureOrigin.backend_failure = "backend_failure"
origin_value FailureOrigin.model_failure = "model_failure"
origin_value FailureOrigin.tool_failure = "tool_failure"
origin_value FailureOrigin.invalid_terminal = "invalid_terminal"
origin_value FailureOrigin.artifact_write_failure = "artifact_write_failure"
origin_value FailureOrigin.infrastructure_failure = "infrastructure_failure"
