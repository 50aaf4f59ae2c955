-- ===== src/Runtime/Execute/NaiveDeadline.antt =====
-- A deadline text with no time zone, in `execute` of src/millforge/runtime.py.
use millforge.Prelude.{◌+◌, String, false, none, some, is_blank, ◌≡◌, refl}
use millforge.Runtime.States.{RuntimeState}
use millforge.Runtime.Contracts.{HarnessExecutionRequest, HarnessExecutionResult}
use millforge.Runtime.Effects.{
  Env, ExnKind, IsoInstant, Outcome, Rt, raised, ◌>>=◌, pure, raise, raise_if, tick, try_except,
}
use millforge.Runtime.Preflight.{
  check_absolute_deadline, check_cancelled, check_iso_instant, deadline_from_timeout,
  read_cancelled, read_monotonic, read_utc, validate_request,
}
use millforge.Runtime.Clauses.{any_clause, cancelled_clause, config_clause, deadline_clauses}
use millforge.Runtime.Guard.{deliver, guarded, reset_state}
use millforge.Runtime.Execute.{execute, execute_steps, outer_handler}
use millforge.Runtime.Steps.{admit_invocation}

-- The exception of a comparison of an aware instant with a naive one.
abbrev pub NaiveComparison : Outcome HarnessExecutionResult × Rt → Type 0
NaiveComparison (o, s) =
    (o
      ≡ raised (record {
        kind = ExnKind.type_error;
        message = "can't compare offset-naive and offset-aware datetimes";
      }))
    × (s.state ≡ RuntimeState.received)

-- A valid request whose deadline text names no time zone makes `execute` raise a `TypeError`, with
-- the machine left in RECEIVED, where its cancellation resolves and is not set.
pub execute-NaiveComparison :
    (env : Env) (request : HarnessExecutionRequest) (s : Rt) (text : String)
    → is_blank request.request_id ≡ false
    → is_blank request.run_id ≡ false
    → is_blank request.work_item_id ≡ false
    → env.resolve_cancellation request.cancellation_id ≡ none
    → env.is_cancelled (s.readings + 1) ≡ false
    → request.timeout.deadline ≡ some text
    → env.fromisoformat text ≡ IsoInstant.naive
    → NaiveComparison (execute env request s)
unfolding execute execute_steps admit_invocation validate_request guarded try_except raise_if raise
    pure ◌>>=◌ reset_state deliver read_utc tick outer_handler check_cancelled read_cancelled
    deadline_from_timeout check_absolute_deadline check_iso_instant read_monotonic any_clause
    cancelled_clause config_clause deadline_clauses
execute-NaiveComparison env request s text h1 h2 h3 h4 h5 h6 h7 =
    rw (h1, h2, h3, h4, h5, h6, h7) (refl, refl)
