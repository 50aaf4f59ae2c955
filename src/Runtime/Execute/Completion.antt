-- ===== src/Runtime/Execute/Completion.antt =====
-- `_success_result` and steps 18 to 21 of `execute` in src/millforge/runtime.py.
use millforge.Prelude.{
  ℕ, suc, String, Bool, true, false, Option, none, some, ◌⊎◌, inl, inr, is_some, ◌≡◌, refl, ◌||◌,
  not, arith,
}
use text.Mathlib.TextPositions.{eq_refl}
use millforge.Runtime.States.{
  ExecutionResultClass, GuardedSessionStatus, RuntimeState, is_committed, is_completed,
  is_domain_class, is_domain_status, is_terminal,
}
use millforge.Runtime.Contracts.{
  CompiledHarnessPlan, GuardedSessionRequest, GuardedSessionResult, HarnessExecutionRequest,
  HarnessExecutionResult, SelectedOutput, TerminalIntent, check_result_class_invariants,
  optional_output_eq, optional_str_eq, selected_output_eq,
}
use millforge.Runtime.Classify.{classify_guarded_session_status}
use millforge.Runtime.Effects.{Env, Exec, Exn, Rt, handle, try_except, pure}
use millforge.Runtime.Logic.{
  Raises, Returns, Triple, Triple-bind, Triple-try, Triple-weaken, commits, sessions,
}
use millforge.Runtime.Quiet.{Never, Quiet-Triple}
use millforge.Runtime.Machine.{transition_to}
use millforge.Runtime.Machine.Legal.{Step}
use millforge.Runtime.Terminal.Admission.{AdmittedIntent}
use millforge.Runtime.Guard.Endings.{At, At-stable}
use millforge.Runtime.Results.{success_result}
use millforge.Runtime.Results.Endings.{Ended, Failed}
use millforge.Runtime.Results.Finalizers.{Escaped, Quiet-build_timing, timing_kind-escapes}
use millforge.Runtime.Execute.Admission.{At-transition}
use millforge.Runtime.Execute.Intent.{Domain}
use millforge.Runtime.Execute.Commit.{AtCommit, commit_handled, write_artifacts-AtCommit}
use millforge.Runtime.Execute.{commit_handler, commit_terminal}

-- A completion with this intent: it was committed, and the machine has completed.
pub record Completed (request : HarnessExecutionRequest) (n t : ℕ) (intent : TerminalIntent)
    (r : HarnessExecutionResult) (s : Rt) : Type 0 where
  pub ended : Ended request r s
  pub is_complete : is_completed r.status ≡ true
  pub committed : is_committed r.terminal_certainty ≡ true
  pub of_intent : r.terminal_intent ≡ some intent
  pub sessions_made : sessions s.effects ≡ n
  pub commits_made : commits s.effects ≡ t

optional_str_eq_refl : (o : Option String) → optional_str_eq o o ≡ true
optional_str_eq_refl none = refl
optional_str_eq_refl (some s) = eq_refl s

optional_output_eq_refl : (o : Option SelectedOutput) → optional_output_eq o o ≡ true
unfolding selected_output_eq
optional_output_eq_refl none = refl
optional_output_eq_refl (some SelectedOutput.absent) = refl
optional_output_eq_refl (some (SelectedOutput.present v)) = eq_refl v

or_not : (b : Bool) → (not b || true) ≡ true
or_not true = refl
or_not false = refl

classify-domain :
    (status : GuardedSessionStatus)
    → is_domain_status status ≡ true
    → is_domain_class (classify_guarded_session_status status).0 ≡ true
unfolding classify_guarded_session_status
classify-domain status h = ground arith

module _ (env : Env) (request : HarnessExecutionRequest) (n t : ℕ) where
  success_result-Completed :
      (plan : CompiledHarnessPlan) (intent : TerminalIntent) (session : GuardedSessionResult)
      (c : ExecutionResultClass)
      → AdmittedIntent plan request intent
      → is_domain_class c ≡ true
      → Triple
          (At RuntimeState.completed n t)
          (success_result env request intent session c)
          (Completed request n t intent)
          Never
          (Escaped n t)
  unfolding success_result pure check_result_class_invariants is_terminal
  success_result-Completed plan intent session c a h =
      Triple-bind _ _
        (Triple-weaken (λ _ _ k. k.0) (λ _ _ k. k)
          (λ e _ k. record {
            escaped = timing_kind-escapes e.kind k.1;
            sessions_made = k.0.sessions_made;
            commits_made = k.0.commits_made;
          })
          (Quiet-Triple _ (At-stable RuntimeState.completed n t) (Quiet-build_timing env)))
        λ timing. record {
          at = λ s k. record {
            ended = record {
              admitted = simp (
                a.paired,
                h,
                a.request_id,
                a.run_id,
                a.stage,
                optional_output_eq_refl intent.selected_output,
                optional_str_eq_refl intent.selected_output_schema_sha256,
                or_not (is_some intent.selected_output),
              );
              terminal = rw k.state refl;
              completed = rw k.state refl;
              request_id = refl;
              run_id = refl;
              stage = refl;
              compiled_harness = refl;
            };
            is_complete = refl;
            committed = refl;
            of_intent = refl;
            sessions_made = k.sessions_made;
            commits_made = k.commits_made;
          };
        }

module _ (env : Env) (request : HarnessExecutionRequest) (n t : ℕ) where
  -- The endings of a run at its commit: before it, or after it.
  abbrev pub FailedCommit : Returns
  FailedCommit r s = Failed request n t r s ⊎ Failed request n (suc t) r s

  abbrev pub EscapedCommit : Raises
  EscapedCommit e s = Escaped n t e s ⊎ Escaped n (suc t) e s

  Triple-commit :
      {P : Rt → Type 0} {m : Exec Unit}
      → Triple P m (λ _ s. At RuntimeState.finalizing n (suc t) s) Never (λ _ s. AtCommit n t s)
      → Triple P
          (try_except m (commit_handler env request))
          (λ _ s. At RuntimeState.finalizing n (suc t) s)
          FailedCommit
          EscapedCommit
  Triple-commit h =
      Triple-try _ _ _ _ _ (commit_handler env request)
        (Triple-weaken (λ _ _ k. k) (λ _ _ k. absurd k) (λ _ _ k. k) h)
        λ e s k. elim k [
          | inl before ↦
              (Triple-weaken (λ _ _ k. k) (λ _ _ k. inl k) (λ _ _ k. inl k) (handled t e)).at s
                before
          | inr after ↦
              (Triple-weaken (λ _ _ k. k) (λ _ _ k. inr k) (λ _ _ k. inr k) (handled (suc t) e)).at
                s after
        ]
    where
      handled :
          (k : ℕ) (e : Exn)
          → Triple
              (At RuntimeState.finalizing n k)
              (handle (commit_handler env request e) e)
              (λ _ s. At RuntimeState.finalizing n (suc t) s)
              (Failed request n k)
              (Escaped n k)
      handled k e = record { at = λ s h. commit_handled env request n k _ e.kind e.message s h }

  moved :
      {st : RuntimeState} (target : RuntimeState) {k : ℕ}
      → Step st target
      → Triple
          (At st n k)
          (transition_to target)
          (λ _ s. At target n k s)
          FailedCommit
          EscapedCommit
  moved target step =
      Triple-weaken (λ _ _ k. k) (λ _ _ k. absurd k) (λ _ _ k. absurd k)
        (At-transition _ target n _ step)

  pub commit_terminal-Completed :
      (plan : CompiledHarnessPlan) (session_request : GuardedSessionRequest)
      (session : GuardedSessionResult) (intent : TerminalIntent)
      → Domain plan request session intent
      → Triple
          (At RuntimeState.running n t)
          (commit_terminal env request session_request session intent)
          (Completed request n (suc t) intent)
          FailedCommit
          EscapedCommit
  unfolding commit_terminal
  commit_terminal-Completed plan session_request session intent domain =
      Triple-bind _ _ (moved RuntimeState.terminal_intent_received Step.receive_intent) λ _.
        Triple-bind _ _ (moved RuntimeState.finalizing Step.finalize) λ _.
          Triple-bind _ _
            (Triple-commit (write_artifacts-AtCommit env n t request session intent _ _ _))
            λ _. Triple-bind _ _ (moved RuntimeState.completed Step.complete) λ _.
              Triple-weaken (λ _ _ k. k) (λ _ _ k. absurd k) (λ _ _ k. inr k)
                (success_result-Completed env request n (suc t) plan intent session _
                  domain.admitted (classify-domain session.status domain.domain_status))
