-- ===== src/Runtime/Execute/Recheck.antt =====
-- Step 13 of `execute` in src/millforge/runtime.py: the deadline and the token are read again
-- immediately before the backend is called.
use millforge.Prelude.{
  ℕ, suc, ◌+◌, ◌<◌, String, false, ◌⊎◌, inl, inr, ◌≡◌, refl, leb, Bool-cases, lt_of_not_leb,
}
use millforge.Runtime.States.{FailureOrigin, RuntimeState, TerminalCertainty, is_terminal}
use millforge.Runtime.Contracts.{
  GuardedSessionRequest, GuardedSessionResult, HarnessExecutionRequest, HarnessExecutionResult,
}
use millforge.Runtime.Effects.{
  Env, Exec, Outcome, Rt, ok, returned, raised, return_from_execute, return_result, continue,
  try_except, tick, pure, raise, raise_if, ◌>>=◌,
}
use millforge.Runtime.Logic.{Holds, sessions, commits}
use millforge.Runtime.Quiet.{Never}
use millforge.Runtime.Preflight.{check_cancelled, check_deadline, read_cancelled, read_monotonic}
use millforge.Runtime.Clauses.{cancelled_clause, expired_clause}
use millforge.Runtime.Guard.{fail, guarded}
use millforge.Runtime.Guard.Endings.{fail-Failed, At}
use millforge.Runtime.Results.Endings.{Failed}
use millforge.Runtime.Results.Finalizers.{Escaped}
use millforge.Runtime.Steps.{run_backend}
use millforge.Runtime.Execute.Session.{Answered, EscapedAround, FailedAround, run_backend-At}

-- No session was run, or one was, and the readings before it had allowed it.
abbrev pub Rechecked : Env → GuardedSessionRequest → Rt → Rt → Type 0
Rechecked env session_request s s' =
    (sessions s'.effects ≡ sessions s.effects)
    ⊎ ((sessions s'.effects ≡ suc (sessions s.effects))
        × (env.monotonic s.readings < session_request.deadline.effective_deadline_monotonic)
        × (env.is_cancelled (s.readings + 1) ≡ false))

module _ (env : Env) (request : HarnessExecutionRequest) where
  Failed-sessions :
      {A B : Type 0} (n t : ℕ) (f : A → Exec B) (o : Outcome HarnessExecutionResult) (s : Rt)
      → Holds (Failed request n t) Never (Escaped n t) o s
      → sessions (continue (return_result o) f s).1.effects ≡ n
  Failed-sessions n t f (ok r) s h = h.sessions_made
  Failed-sessions n t f (returned r) s h = absurd h
  Failed-sessions n t f (raised e) s h = h.sessions_made

  -- An early return of what `fail` gives runs no session.
  fail-sessions :
      {A B : Type 0} (f : A → Exec B) (origin : FailureOrigin) (message : String) (s : Rt)
      → is_terminal s.state ≡ false
      → let (o, s') = fail env request origin message TerminalCertainty.not_applicable s in
        sessions (continue (return_result o) f s').1.effects ≡ sessions s.effects
  fail-sessions f origin message s h =
      Failed-sessions (sessions s.effects) (commits s.effects) f _ _ (
        (fail-Failed env request (sessions s.effects) (commits s.effects) origin message
            TerminalCertainty.not_applicable refl).at
          s (record { live = h; sessions_made = refl; commits_made = refl }))

  around_sessions :
      (session_request : GuardedSessionRequest) (n t : ℕ) (o : Outcome GuardedSessionResult)
      (s : Rt)
      → Holds
          (λ result u.
            At RuntimeState.running (suc n) t u × Answered env request n t session_request result)
          (FailedAround env request n t)
          (EscapedAround env request n t)
          o
          s
      → (sessions s.effects ≡ n) ⊎ (sessions s.effects ≡ suc n)
  around_sessions session_request n t (ok r) s h = inr h.0.sessions_made
  around_sessions session_request n t (returned r) s (inl h) = inl h.sessions_made
  around_sessions session_request n t (returned r) s (inr h) = inr h.sessions_made
  around_sessions session_request n t (raised e) s (inl h) = inl h.sessions_made
  around_sessions session_request n t (raised e) s (inr h) = inr h.sessions_made

-- From the state in which the session is constructed, either no session is run, or one is, and
-- immediately before it the clock was read below the deadline of the session and the token was
-- read as not cancelled.
pub run_backend-Rechecked :
    (env : Env) (request : HarnessExecutionRequest) (session_request : GuardedSessionRequest)
    (s : Rt)
    → s.state ≡ RuntimeState.backend_session_constructed
    → Rechecked env session_request s (run_backend env request session_request s).1
unfolding run_backend guarded try_except check_deadline check_cancelled read_monotonic
    read_cancelled tick pure raise_if raise return_from_execute expired_clause cancelled_clause
    ◌>>=◌ is_terminal
run_backend-Rechecked env request session_request s h =
    elim (Bool-cases
      (leb session_request.deadline.effective_deadline_monotonic (env.monotonic s.readings))) [
        | inl expired ↦ inl (
            rw expired (fail-sessions env request _ FailureOrigin.expired_deadline _ _ (rw h refl)))
        | inr live ↦ elim (Bool-cases (env.is_cancelled (s.readings + 1))) [
          | inl cancelled ↦ inl (
              rw (live, cancelled)
                (fail-sessions env request _ FailureOrigin.already_cancelled _ _ (rw h refl)))
          | inr going ↦
              elim (around_sessions env request session_request (sessions s.effects)
                (commits s.effects) _ _
                ((run_backend-At env request (sessions s.effects) (commits s.effects)
                    session_request).at
                  s (record { state = h; sessions_made = refl; commits_made = refl }))) [
                    | inl e ↦ inl e
                    | inr e ↦ inr (e, lt_of_not_leb _ _ live, going)
                  ]
        ]
      ]
