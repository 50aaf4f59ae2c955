-- ===== src/Runtime/Execute/Endings.antt =====
-- The endings of `DefaultHarnessRuntime.execute` in src/millforge/runtime.py, put together from those
-- of its steps.
use millforge.Prelude.{ℕ, suc, inl, inr}
use millforge.Runtime.States.{RuntimeState}
use millforge.Runtime.Contracts.{
  CompiledHarnessPlan, Deadline, GuardedSessionRequest, GuardedSessionResult,
  HarnessExecutionRequest, HarnessExecutionResult, TerminalIntent,
}
use millforge.Runtime.Effects.{Env, Exec, Exn, Rt, ◌>>=◌}
use millforge.Runtime.Logic.{Triple, Triple-bind, Triple-given, Triple-weaken}
use millforge.Runtime.Guard.Endings.{At}
use millforge.Runtime.Results.Endings.{Failed}
use millforge.Runtime.Results.Finalizers.{Escaped}
use millforge.Runtime.Execute.Admission.{Stage-admit_invocation}
use millforge.Runtime.Execute.Plan.{
  Authorised, Stage-prepare_run, admit_plan-Authorised, construct_session-At,
}
use millforge.Runtime.Execute.Session.{Answered, EscapedAround, FailedAround, run_backend-At}
use millforge.Runtime.Execute.Intent.{Domain, interpret_session-Domain}
use millforge.Runtime.Execute.Completion.{
  Completed, EscapedCommit, FailedCommit, commit_terminal-Completed,
}
use millforge.Runtime.Execute.{commit_terminal, execute_steps, interpret_session}
use millforge.Runtime.Steps.{construct_session, run_backend}

module _ (env : Env) (request : HarnessExecutionRequest) (n t : ℕ) where
  -- A session, and the intent that it came to under an authorised plan.
  pub record Interpreted (plan : CompiledHarnessPlan) (intent : TerminalIntent) : Type 0 where
    pub session_request : GuardedSessionRequest
    pub session : GuardedSessionResult
    pub answered : Answered env request n t session_request session
    pub domain : Domain plan request session intent

  -- What a result of `execute` may be, in the order of how far the run has come.
  pub data Ending (r : HarnessExecutionResult) (s : Rt) : Type 0 where
    before_session : Failed request n t r s → Ending r s
    after_session :
        (plan : CompiledHarnessPlan)
        → Authorised env request plan
        → Failed request (suc n) t r s
        → Ending r s
    after_commit :
        (plan : CompiledHarnessPlan) (intent : TerminalIntent)
        → Authorised env request plan
        → Interpreted plan intent
        → Failed request (suc n) (suc t) r s
        → Ending r s
    completed :
        (plan : CompiledHarnessPlan) (intent : TerminalIntent)
        → Authorised env request plan
        → Interpreted plan intent
        → Completed request (suc n) (suc t) intent r s
        → Ending r s

  -- And what an exception may be.
  pub data Escape (e : Exn) (s : Rt) : Type 0 where
    before_session : Escaped n t e s → Escape e s
    after_session :
        (plan : CompiledHarnessPlan)
        → Authorised env request plan
        → Escaped (suc n) t e s
        → Escape e s
    after_commit :
        (plan : CompiledHarnessPlan) (intent : TerminalIntent)
        → Authorised env request plan
        → Interpreted plan intent
        → Escaped (suc n) (suc t) e s
        → Escape e s

  early :
      {A : Type 0} {P : Rt → Type 0} {Q : A → Rt → Type 0} {m : Exec A}
      → Triple P m Q (Failed request n t) (Escaped n t)
      → Triple P m Q Ending Escape
  early h = Triple-weaken (λ _ _ k. k) (λ _ _ k. before_session k) (λ _ _ k. before_session k) h

  module _ (plan : CompiledHarnessPlan) (authorised : Authorised env request plan) where
    around_ends :
        (r : HarnessExecutionResult) (s : Rt) → FailedAround env request n t r s → Ending r s
    around_ends r s (inl k) = before_session k
    around_ends r s (inr k) = after_session plan authorised k

    around_escapes : (e : Exn) (s : Rt) → EscapedAround env request n t e s → Escape e s
    around_escapes e s (inl k) = before_session k
    around_escapes e s (inr k) = after_session plan authorised k

    module _ (intent : TerminalIntent) (interpreted : Interpreted plan intent) where
      commit_ends :
          (r : HarnessExecutionResult) (s : Rt)
          → FailedCommit env request (suc n) t r s
          → Ending r s
      commit_ends r s (inl k) = after_session plan authorised k
      commit_ends r s (inr k) = after_commit plan intent authorised interpreted k

      commit_escapes : (e : Exn) (s : Rt) → EscapedCommit env request (suc n) t e s → Escape e s
      commit_escapes e s (inl k) = after_session plan authorised k
      commit_escapes e s (inr k) = after_commit plan intent authorised interpreted k

    Triple-interpreted :
        (session_request : GuardedSessionRequest) (session : GuardedSessionResult)
        → Answered env request n t session_request session
        → Triple
            (At RuntimeState.running (suc n) t)
            (do
              intent ← interpret_session env request plan session_request session
              commit_terminal env request session_request session intent)
            Ending
            Ending
            Escape
    Triple-interpreted session_request session answered =
        Triple-bind _ _
          (Triple-weaken (λ _ _ k. k) (λ _ _ k. after_session plan authorised k)
            (λ _ _ k. after_session plan authorised k)
            (interpret_session-Domain env request (suc n) t plan session_request session))
          λ intent. record {
            at = λ s k.
                let interpreted : Interpreted plan intent = record {
                  session_request = session_request;
                  session = session;
                  answered = answered;
                  domain = k.1;
                } in
                (Triple-weaken (λ _ _ c. completed plan intent authorised interpreted c)
                    (commit_ends intent interpreted) (commit_escapes intent interpreted)
                    (commit_terminal-Completed env request (suc n) t plan session_request session
                      intent k.1)).at
                  s k.0;
          }

    Triple-session :
        (d : Deadline)
        → Triple
            (At RuntimeState.verified n t)
            (do
              session_request ← construct_session env request plan d
              session ← run_backend env request session_request
              intent ← interpret_session env request plan session_request session
              commit_terminal env request session_request session intent)
            Ending
            Ending
            Escape
    Triple-session d =
        Triple-bind _ _ (early (construct_session-At env request n t plan d)) λ session_request.
          Triple-given (
            Triple-bind _ _
              (Triple-weaken (λ _ _ k. k) around_ends around_escapes
                (run_backend-At env request n t session_request))
              λ session. record {
                at = λ s k. (Triple-interpreted session_request session k.1).at s k.0;
              })

  pub execute_steps-Ending :
      Triple (At RuntimeState.received n t) (execute_steps env request) Ending Ending Escape
  unfolding execute_steps
  execute_steps-Ending = Triple-bind _ _ (early (Stage-admit_invocation env request n t)) λ d.
      Triple-given (
        Triple-bind _ _ (early (Stage-prepare_run env request n t d)) λ _. Triple-given (
          Triple-bind _ _ (early (admit_plan-Authorised env request n t d))
            λ plan. record { at = λ s k. (Triple-session plan k.1 d).at s k.0 }))
