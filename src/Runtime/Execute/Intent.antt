-- ===== src/Runtime/Execute/Intent.antt =====
-- Steps 16 and 17 of `execute` in src/millforge/runtime.py: what a session came to.
use millforge.Prelude.{ℕ, Bool, true, false, Option, none, some, ◌≡◌, refl, if◌then◌else◌, arith}
use millforge.Runtime.States.{
  ExecutionStatus, ExecutionResultClass, GuardedSessionStatus, RuntimeState, is_completed,
  is_domain_class, is_domain_status, is_terminal,
}
use millforge.Runtime.Contracts.{
  CompiledHarnessPlan, GuardedSessionRequest, GuardedSessionResult, HarnessExecutionRequest,
  TerminalIntent,
}
use millforge.Runtime.Classify.{classify_guarded_session_status}
use millforge.Runtime.Effects.{Env, pure, return_from_execute}
use millforge.Runtime.Terminal.Admission.{
  AdmittedIntent, Quiet-validate_session_result, Quiet-validate_terminal_intent,
}
use millforge.Runtime.Clauses.{config_clause}
use millforge.Runtime.Guard.Endings.{Live-At, Triple-return}
use millforge.Runtime.Results.{finalize_non_domain_session_result}
use millforge.Runtime.Results.Finalizers.{finalize_session-Failed}
use millforge.Runtime.Execute.Admission.{Stage, Stage-bind, Stage-guarded}
use millforge.Runtime.Execute.{interpret_session, require_intent}

-- A session that ended in a domain result, and its terminal intent.
pub record Domain (plan : CompiledHarnessPlan) (request : HarnessExecutionRequest)
    (session : GuardedSessionResult) (intent : TerminalIntent) : Type 0 where
  pub domain_status : is_domain_status session.status ≡ true
  pub of_session : session.terminal_intent ≡ some intent
  pub admitted : AdmittedIntent plan request intent

-- A session status that is no domain status makes no completion, and no domain result class.
classify_guarded_session_status-fails :
    (status : GuardedSessionStatus)
    → is_domain_status status ≡ false
    → (is_completed (classify_guarded_session_status status).1 ≡ false)
      × (is_domain_class (classify_guarded_session_status status).0 ≡ false)
unfolding classify_guarded_session_status
classify_guarded_session_status-fails status h = ground arith

module _ (env : Env) (request : HarnessExecutionRequest) (n t : ℕ) where
  Triple-finalize :
      {A : Type 0} {Φ : A → Type 0} (session : GuardedSessionResult) (status : ExecutionStatus)
      (c : ExecutionResultClass)
      → is_completed status ≡ false
      → is_domain_class c ≡ false
      → Stage env request n t RuntimeState.running Φ
          (return_from_execute (finalize_non_domain_session_result env request session status c))
  unfolding is_terminal
  Triple-finalize session status c hs hc = Triple-return (record {
    at = λ s h.
        (finalize_session-Failed env request session status c n t hs hc).at s
          (Live-At RuntimeState.running refl h);
  })

  Stage-require_intent :
      (plan : CompiledHarnessPlan) (session : GuardedSessionResult) (found : Option TerminalIntent)
      → is_domain_status session.status ≡ true
      → session.terminal_intent ≡ found
      → Stage env request n t RuntimeState.running
          (Domain plan request session)
          (require_intent env request plan session found)
  unfolding require_intent config_clause is_terminal pure
  Stage-require_intent plan session none d e = Triple-finalize _ _ _ refl refl
  Stage-require_intent plan session (some intent) d e =
      Stage-bind env request n t {st = RuntimeState.running} _ _
        (Stage-guarded env request n t _ _ _ _ refl
          (Quiet-validate_terminal_intent env refl plan request intent))
        λ _ admitted. record {
          at = λ s h. (h, record { domain_status = d; of_session = e; admitted = admitted });
        }

  Stage-interpret_status :
      (plan : CompiledHarnessPlan) (session : GuardedSessionResult) (domain : Bool)
      → is_domain_status session.status ≡ domain
      → Stage env request n t RuntimeState.running (Domain plan request session) (
          if domain
          then require_intent env request plan session session.terminal_intent
          else return_from_execute (
              finalize_non_domain_session_result env request session
                (classify_guarded_session_status session.status).1
                (classify_guarded_session_status session.status).0))
  Stage-interpret_status plan session true d = Stage-require_intent plan session _ d refl
  Stage-interpret_status plan session false d =
      let fails = classify_guarded_session_status-fails session.status d in
      Triple-finalize session _ _ fails.0 fails.1

  -- A session that is interpreted to the end ended in a domain result with an admitted intent.
  pub interpret_session-Domain :
      (plan : CompiledHarnessPlan) (session_request : GuardedSessionRequest)
      (session : GuardedSessionResult)
      → Stage env request n t RuntimeState.running
          (Domain plan request session)
          (interpret_session env request plan session_request session)
  unfolding interpret_session config_clause is_terminal
  interpret_session-Domain plan session_request session =
      Stage-bind env request n t _ _
        (Stage-guarded env request n t _ _ _ _ refl
          (Quiet-validate_session_result refl session_request session))
        λ _ _. Stage-interpret_status plan session _ refl
