-- ===== src/Runtime/Guard.antt =====
-- The closure `fail` of `execute` in src/millforge/runtime.py, the flags that it shares with
-- `execute`, and `try` statements whose clauses return what it gives.
pub mod Endings
use millforge.Prelude.{ℕ, String, true, false, some, if◌then◌else◌}
use mathlib.Core.Option
use millforge.Runtime.States.{FailureOrigin, RuntimeState, TerminalCertainty}
use millforge.Runtime.Contracts.{HarnessExecutionRequest, HarnessExecutionResult}
use millforge.Runtime.Clauses.{Clauses}
use millforge.Runtime.Effects.{
  Env, Exec, Exn, Outcome, ok, returned, raised, try_except, return_from_execute,
}
use millforge.Runtime.Results.{failure_result, finalize_non_terminal_failure}

-- The start of `execute`.
unfoldable pub reset_state : ℕ → Exec Unit
reset_state now s = (
  ok tt,
  record s {
    state = RuntimeState.received;
    started_at = some now;
    run_directory_prepared = false;
    external_cancel_finalized = false;
  },
)

unfoldable pub set_prepared : Exec Unit
set_prepared s = (ok tt, record s { run_directory_prepared = true })

unfoldable pub set_external_cancel : Exec Unit
set_external_cancel s = (ok tt, record s { external_cancel_finalized = true })

abbrev pub delivered : Outcome HarnessExecutionResult → Outcome HarnessExecutionResult
delivered (ok r) = ok r
delivered (returned r) = ok r
delivered (raised e) = raised e

-- What a caller of `execute` gets: an early return is a result too.
unfoldable pub deliver : Exec HarnessExecutionResult → Exec HarnessExecutionResult
deliver m s = let (r, s') = m s in (delivered r, s')

module _ (env : Env) (request : HarnessExecutionRequest) where
  -- The closure `fail`.
  unfoldable pub fail : FailureOrigin → String → TerminalCertainty → Exec HarnessExecutionResult
  fail origin message certainty s =
      if s.run_directory_prepared
      then finalize_non_terminal_failure env origin request (some message) certainty s
      else failure_result env origin request (some message) certainty s

  abbrev pub fail_early : {A : Type 0} → (Exn → String) → Exn → FailureOrigin → Exec A
  fail_early message e origin =
      return_from_execute (fail origin (message e) TerminalCertainty.not_applicable)

  -- `try: action except …: return await fail(origin, message=…)`
  unfoldable pub guarded : {A : Type 0} → Clauses → (Exn → String) → Exec A → Exec A
  guarded clauses message action =
      try_except action (λ e. Option.map (fail_early message e) (clauses e.kind))
