-- ===== src/Runtime/Execute/Admission.antt =====
-- Stages of `execute` in src/millforge/runtime.py, in which the machine keeps its state, and its steps
-- 1 to 5.
use millforge.Prelude.{ℕ, Bool, true, false, Option, none, some, ◌≡◌, refl, arith}
use millforge.Runtime.States.{FailureOrigin, RuntimeState, is_terminal}
use millforge.Runtime.Contracts.{Deadline, HarnessExecutionRequest}
use millforge.Runtime.Effects.{Env, Exec, Exn, ExnKind, Rt, is_exception, pure, ◌>>=◌, ◌>>◌}
use millforge.Runtime.Logic.{Triple, Triple-bind, Triple-weaken}
use millforge.Runtime.Quiet.{Never, Quiet, Quiet-pure, Quiet-throw, Quiet-bind}
use millforge.Runtime.Machine.{transition_to}
use millforge.Runtime.Machine.Legal.{Step, Step-legal, transition_legal}
use millforge.Runtime.Preflight.Checks.{
  Quiet-check_cancelled, Quiet-check_deadline, Quiet-checkpoint, Quiet-deadline_from_timeout,
  Quiet-validate_request,
}
use millforge.Runtime.Clauses.{
  Clauses, any_clause, cancelled_clause, config_clause, deadline_clauses, load_clauses,
}
use millforge.Runtime.Guard.{guarded, set_prepared}
use millforge.Runtime.Guard.Endings.{At, At-stable, Live-At, Triple-guarded, covers}
use millforge.Runtime.Results.Endings.{Failed}
use millforge.Runtime.Results.Finalizers.{Escaped}
use millforge.Runtime.Steps.{admit_invocation, between_checkpoints, resolve_token}

pub At-transition :
    (st target : RuntimeState) (n t : ℕ)
    → Step st target
    → Triple (At st n t) (transition_to target) (λ _ s. At target n t s) Never Never
At-transition st target n t h = record {
  at = λ s a.
      rw (transition_legal target s (rw a.state (Step-legal h)))
        (record { state = refl; sessions_made = a.sessions_made; commits_made = a.commits_made });
}

any-covers : (origin : FailureOrigin) (k : ExnKind) → covers (any_clause origin) k ≡ true
unfolding any_clause is_exception
any-covers origin k = ground arith

pub load-covers : (k : ExnKind) → covers load_clauses k ≡ true
unfolding load_clauses
load-covers k = ground arith

module _ {K : ExnKind → Bool} where
  pub Quiet-set_prepared : Quiet K (λ _. Unit {0}) set_prepared
  unfolding set_prepared
  Quiet-set_prepared = record {
    at = λ s. (record { state = refl; sessions_kept = refl; commits_kept = refl }, tt);
  }

  -- A check between two checkpoints.
  pub Quiet-between :
      {A : Type 0} {Φ : A → Type 0} (env : Env) (request : HarnessExecutionRequest) (d : Deadline)
      (action : Exec A)
      → K ExnKind.operation_cancelled ≡ true
      → K ExnKind.deadline_exceeded ≡ true
      → Quiet K Φ action
      → Quiet K Φ (between_checkpoints env request d action)
  Quiet-between env request d action c e q = Quiet-bind _ _ (Quiet-checkpoint env d c e) λ _ _.
      Quiet-bind _ _ q λ a φ. Quiet-bind _ _ (Quiet-checkpoint env d c e) λ _ _. Quiet-pure a φ

module _ (env : Env) (request : HarnessExecutionRequest) (n t : ℕ) where
  -- The machine stays in a state that is not terminal, or the run ends.
  abbrev pub Stage : RuntimeState → {A : Type 0} → (A → Type 0) → Exec A → Type 0
  Stage st Φ m = Triple (At st n t) m (λ a s. At st n t s × Φ a) (Failed request n t) (Escaped n t)

  pub Stage-bind :
      {st : RuntimeState} {A B : Type 0} {Φ : A → Type 0} {Q : B → Rt → Type 0} (m : Exec A)
      (f : A → Exec B)
      → Stage st Φ m
      → ((a : A) → Φ a → Triple (At st n t) (f a) Q (Failed request n t) (Escaped n t))
      → Triple (At st n t) (m >>= f) Q (Failed request n t) (Escaped n t)
  Stage-bind m f first next =
      Triple-bind m f first λ a. record { at = λ s h. (next a h.1).at s h.0 }

  pub Stage-then :
      (st : RuntimeState) {A : Type 0} (target : RuntimeState) (a : A) {Φ : A → Type 0}
      → Step st target
      → Φ a
      → Triple
          (At st n t)
          (do transition_to target; pure a)
          (λ a s. At target n t s × Φ a)
          (Failed request n t)
          (Escaped n t)
  unfolding pure
  Stage-then st target a h φ =
      Triple-bind _ _
        (Triple-weaken (λ _ _ k. k) (λ _ _ k. absurd k) (λ _ _ k. absurd k)
          (At-transition st target n t h))
        λ _. record { at = λ s k. (k, φ) }

  pub Stage-guarded :
      (st : RuntimeState) {A : Type 0} {Φ : A → Type 0} (clauses : Clauses) (message : _)
      (action : Exec A)
      → is_terminal st ≡ false
      → Quiet (covers clauses) Φ action
      → Stage st Φ (guarded env request clauses message action)
  Stage-guarded st clauses message action live q =
      Triple-guarded env request n t clauses message action (At-stable st n t)
        (λ s h. Live-At st live h) q

  Quiet-resolve_token :
      (e : Option Exn)
      → Quiet
          (covers (any_clause FailureOrigin.infrastructure_failure))
          (λ _. Unit {0})
          (resolve_token env request e)
  Quiet-resolve_token none = Quiet-pure _ tt
  Quiet-resolve_token (some e) = Quiet-throw e (any-covers _ e.kind)

  pub Stage-admit_invocation :
      Stage RuntimeState.received (λ _. Unit {0}) (admit_invocation env request)
  unfolding admit_invocation config_clause cancelled_clause deadline_clauses is_terminal
  Stage-admit_invocation =
      Stage-bind _ _ (Stage-guarded _ _ _ _ refl (Quiet-validate_request request refl)) λ _ _.
        Stage-bind _ _ (Stage-guarded _ _ _ _ refl (Quiet-resolve_token _)) λ _ _.
          Stage-bind _ _ (Stage-guarded _ _ _ _ refl (Quiet-check_cancelled env refl)) λ _ _.
            Stage-guarded _ _ _ _ refl (
              Quiet-bind _ _ (Quiet-deadline_from_timeout env _ _ refl refl refl)
                λ d _. Quiet-bind _ _ (Quiet-check_deadline env d refl) λ _ _. Quiet-pure d tt)
