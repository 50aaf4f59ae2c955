-- ===== src/Runtime/Execute/Session.antt =====
-- Steps 13 to 15 of `execute` in src/millforge/runtime.py: the call of the backend, and the clauses
-- around it.
use millforge.Prelude.{ℕ, suc, String, true, false, ◌⊎◌, inl, inr, ◌≡◌, refl, arith}
use millforge.Runtime.States.{FailureOrigin, RuntimeState, TerminalCertainty, is_terminal}
use millforge.Runtime.Contracts.{
  GuardedSessionRequest, GuardedSessionResult, HarnessExecutionRequest,
}
use millforge.Runtime.Effects.{
  Call, Effect, Env, Exec, Exn, ExnKind, Rt, handle, record_effect, throw, tick, ◌>>=◌, ◌>>◌,
}
use millforge.Runtime.Logic.{
  Holds, Returns, Raises, Triple, Triple-bind, Triple-given, Triple-try, Triple-weaken, commits,
  sessions,
}
use millforge.Runtime.Quiet.{Never, Quiet-Triple, Quiet-from_call, Quiet-tick}
use millforge.Runtime.Machine.Legal.{Step}
use millforge.Runtime.Preflight.Checks.{Quiet-check_cancelled, Quiet-check_deadline}
use millforge.Runtime.Clauses.{
  cancelled_clause, expired_clause, external_cancellation, session_clauses,
}
use millforge.Runtime.Guard.{fail, set_external_cancel}
use millforge.Runtime.Guard.Endings.{At, At-stable, Live-At, Triple-return, fail-Failed}
use millforge.Runtime.Results.Endings.{Failed, Live}
use millforge.Runtime.Results.Finalizers.{Escaped, escapes}
use millforge.Runtime.Execute.Admission.{At-transition, Stage-guarded}
use millforge.Runtime.Steps.{call_backend, run_backend, session_handler}

module _ (env : Env) (request : HarnessExecutionRequest) (n t : ℕ) where
  -- The endings of a run around its session: before it, or after it.
  abbrev pub FailedAround : Returns
  FailedAround r s = Failed request n t r s ⊎ Failed request (suc n) t r s

  abbrev pub EscapedAround : Raises
  EscapedAround e s = Escaped n t e s ⊎ Escaped (suc n) t e s

  -- The backend gave this result for the session.
  abbrev pub Answered : GuardedSessionRequest → GuardedSessionResult → Type 0
  Answered session_request result =
      (k : ℕ) × (env.run_session session_request k ≡ Call.gives result)

  Triple-ran :
      (session_request : GuardedSessionRequest)
      → Triple
          (At RuntimeState.running n t)
          (record_effect (Effect.ran_session session_request))
          (λ _ s. At RuntimeState.running (suc n) t s)
          Never
          Never
  unfolding record_effect sessions commits
  Triple-ran session_request = record {
    at = λ s h. record {
      state = h.state;
      sessions_made = (let e = h.sessions_made in omega arith);
      commits_made = (let e = h.commits_made in omega arith);
    };
  }

  call_backend-At :
      (session_request : GuardedSessionRequest)
      → Triple
          (At RuntimeState.running n t)
          (call_backend env request session_request)
          (λ result s. At RuntimeState.running (suc n) t s × Answered session_request result)
          Never
          (λ e s. At RuntimeState.running (suc n) t s)
  unfolding call_backend
  call_backend-At session_request =
      Triple-bind _ _
        (Triple-weaken (λ _ _ k. k.0) (λ _ _ k. k) (λ _ _ k. absurd (cc))
          (Quiet-Triple {K = λ _. false} tick (At-stable RuntimeState.running n t) Quiet-tick))
        λ k.
          Triple-bind _ _
            (Triple-weaken (λ _ _ h. h) (λ _ _ h. absurd h) (λ _ _ h. absurd h)
              (Triple-ran session_request))
            λ _.
              Triple-weaken (λ _ _ h. (h.0, (k, h.1))) (λ _ _ h. h) (λ _ _ h. h.0)
                (Quiet-Triple _ (At-stable RuntimeState.running (suc n) t)
                  (Quiet-from_call (env.run_session session_request k)))

  -- An interruption from outside: the run is finalized, and the exception goes on.
  cancelled_outside :
      (Q : GuardedSessionResult → Rt → Type 0) (e : Exn)
      → escapes e.kind ≡ true
      → Triple
          (At RuntimeState.running n t)
          (do
            set_external_cancel
            r ←
                fail env request FailureOrigin.already_cancelled external_cancellation
                  TerminalCertainty.not_applicable
            throw {A = GuardedSessionResult} e)
          Q
          (Failed request n t)
          (Escaped n t)
  unfolding set_external_cancel throw is_terminal
  cancelled_outside Q e h =
      Triple-bind {Q = λ _ s. Live n t s} _ _
        (record {
          at = λ s k. record {
            live = rw k.state refl;
            sessions_made = k.sessions_made;
            commits_made = k.commits_made;
          };
        })
        λ _.
          Triple-bind _ _
            (Triple-weaken (λ _ _ k. k) (λ _ _ k. absurd k) (λ _ _ k. k)
              (fail-Failed env request n t FailureOrigin.already_cancelled _
                TerminalCertainty.not_applicable refl))
            λ r. record {
              at = λ s k. record {
                escaped = h;
                sessions_made = k.sessions_made;
                commits_made = k.commits_made;
              };
            }

  session_handled :
      (Q : GuardedSessionResult → Rt → Type 0) (kind : ExnKind) (text : String) (s : Rt)
      → At RuntimeState.running n t s
      → Holds Q
          (Failed request n t)
          (Escaped n t)
          (handle
            (session_handler env request (record { kind = kind; message = text }))
            (record { kind = kind; message = text })
            s).0
          (handle
            (session_handler env request (record { kind = kind; message = text }))
            (record { kind = kind; message = text })
            s).1
  unfolding session_handler session_clauses is_terminal
  session_handled Q ExnKind.asyncio_cancelled text s h = (cancelled_outside Q _ refl).at s h
  session_handled Q _ text s h =
      (Triple-return (fail-Failed env request n t _ text TerminalCertainty.not_applicable refl)).at
        s (Live-At RuntimeState.running refl h)

module _ (env : Env) (request : HarnessExecutionRequest) (n t : ℕ) where
  -- The session is run once, after the last two checks.
  pub run_backend-At :
      (session_request : GuardedSessionRequest)
      → Triple
          (At RuntimeState.backend_session_constructed n t)
          (run_backend env request session_request)
          (λ result s.
            At RuntimeState.running (suc n) t s × Answered env request n t session_request result)
          (FailedAround env request n t)
          (EscapedAround env request n t)
  unfolding run_backend expired_clause cancelled_clause is_terminal
  run_backend-At session_request =
      Triple-bind {Q = λ _ s. At RuntimeState.backend_session_constructed n t s × Unit {0}} _ _
        (before (Stage-guarded env request n t _ _ _ _ refl (Quiet-check_deadline env _ refl)))
        λ _.
          Triple-bind {Q = λ _ s. At RuntimeState.backend_session_constructed n t s × Unit {0}} _ _
            (before (
              Triple-given
                (Stage-guarded env request n t _ _ _ _ refl (Quiet-check_cancelled env refl))))
            λ _.
              Triple-bind {Q = λ _ s. At RuntimeState.running n t s} _ _
                (Triple-given (
                  Triple-weaken (λ _ _ k. k) (λ _ _ k. absurd k) (λ _ _ k. absurd k)
                    (At-transition _ RuntimeState.running n t Step.run)))
                λ _.
                  Triple-weaken (λ _ _ k. k) (λ _ _ k. inr k) (λ _ _ k. inr k)
                    (Triple-try _ _ _ _ _ (session_handler env request)
                      (Triple-weaken (λ _ _ k. k) (λ _ _ k. absurd k) (λ _ _ k. k)
                        (call_backend-At env request n t session_request))
                      λ e s h. session_handled env request (suc n) t _ e.kind e.message s h)
    where
      before :
          {A : Type 0} {P : Rt → Type 0} {Q : A → Rt → Type 0} {m : Exec A}
          → Triple P m Q (Failed request n t) (Escaped n t)
          → Triple P m Q (FailedAround env request n t) (EscapedAround env request n t)
      before h = Triple-weaken (λ _ _ k. k) (λ _ _ k. inl k) (λ _ _ k. inl k) h
