-- ===== src/Runtime/Results/Agreement.antt =====
-- The state that `_failure_result` of src/millforge/runtime.py leaves, and the status that it returns.
use millforge.Prelude.{ℕ, ◌<◌, some, ◌≡◌}
use millforge.Runtime.States.{ExecutionStatus, FailureOrigin, RuntimeState}
use millforge.Runtime.Contracts.{HarnessExecutionResult}
use millforge.Runtime.Effects.{Env, Exn, ExnKind, Rt}
use millforge.Runtime.Results.{status_target}

-- The state is the one that a finalizer leaves for this status; but where a deadline expired the
-- status is `interrupted` and the state is `failed`.
abbrev pub Agrees : FailureOrigin → HarnessExecutionResult → Rt → Type 0
Agrees FailureOrigin.expired_deadline r s =
    (r.status ≡ ExecutionStatus.interrupted) × (s.state ≡ RuntimeState.failed)
Agrees _ r s = s.state ≡ status_target r.status

-- The exception of a clock that reads less than it did when `execute` began.
abbrev pub WentBack : Env → Rt → Exn → Rt → Type 0
WentBack env start e s =
    (e.kind ≡ ExnKind.validation_error)
    × ((t : ℕ) × (start.started_at ≡ some t) × (env.utc_now start.readings < t))
