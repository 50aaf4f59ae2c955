-- ===== src/Runtime/Guard/Endings.antt =====
-- How `fail` and the `try` statements of `execute` in src/millforge/runtime.py end.
use millforge.Prelude.{
  ℕ, String, Bool, true, false, Option, none, some, is_some, ◌||◌, ◌≡◌, refl, ◌∙◌,
}
use mathlib.Core.Option
use millforge.Runtime.States.{
  FailureOrigin, RuntimeState, TerminalCertainty, is_committed, is_terminal,
}
use millforge.Runtime.Contracts.{HarnessExecutionRequest, HarnessExecutionResult}
use millforge.Runtime.Effects.{
  Env, Exec, Exn, ExnKind, Outcome, Rt, ok, returned, raised, handle, return_from_execute,
  return_result,
}
use millforge.Runtime.Logic.{
  Returns, Raises, sessions, commits, Holds, Triple, Triple-try, Triple-weaken, Holds-either,
}
use millforge.Runtime.Quiet.{Never, Quiet, Quiet-Triple, Stable}
use millforge.Runtime.Clauses.{Clauses}
use millforge.Runtime.Results.Endings.{Failed, Live}
use millforge.Runtime.Results.Finalizers.{Escaped, escapes, failure_result-Failed, finalize-Failed}
use millforge.Runtime.Guard.{fail, fail_early, guarded}

-- The machine is in this state, and so many sessions and commits were made.
pub record At (st : RuntimeState) (n t : ℕ) (s : Rt) : Type 0 where
  pub state : s.state ≡ st
  pub sessions_made : sessions s.effects ≡ n
  pub commits_made : commits s.effects ≡ t

pub At-stable : (st : RuntimeState) (n t : ℕ) → Stable (At st n t)
At-stable st n t s s' k h = record {
  state = k.state ∙ h.state;
  sessions_made = k.sessions_kept ∙ h.sessions_made;
  commits_made = k.commits_kept ∙ h.commits_made;
}

pub Live-At :
    (st : RuntimeState) {n t : ℕ} {s : Rt} → is_terminal st ≡ false → At st n t s → Live n t s
Live-At st h a = record {
  live = rw a.state h;
  sessions_made = a.sessions_made;
  commits_made = a.commits_made;
}

-- Every kind is caught, or one of those that may leave `execute`.
abbrev pub covers : Clauses → ExnKind → Bool
covers clauses kind = is_some (clauses kind) || escapes kind

module _ {A : Type 0} (Q : A → Rt → Type 0) (R : Returns) (E : Raises) where
  returned_early :
      (o : Outcome HarnessExecutionResult) (s : Rt)
      → Holds R Never E o s
      → Holds Q R E (return_result o) s
  returned_early (ok r) s h = h
  returned_early (returned r) s h = absurd h
  returned_early (raised e) s h = h

module _ {A : Type 0} {Q : A → Rt → Type 0} {R : Returns} {E : Raises} {P : Rt → Type 0} where
  pub Triple-return :
      {m : Exec HarnessExecutionResult}
      → Triple P m R Never E
      → Triple P (return_from_execute m) Q R E
  unfolding return_from_execute
  Triple-return {m = m} h = record { at = λ s p. returned_early Q R E (m s).0 (m s).1 (h.at s p) }

module _ (env : Env) (request : HarnessExecutionRequest) (n t : ℕ) where
  pub fail-Failed :
      (origin : FailureOrigin) (message : String) (certainty : TerminalCertainty)
      → is_committed certainty ≡ false
      → Triple
          (Live n t)
          (fail env request origin message certainty)
          (Failed request n t)
          Never
          (Escaped n t)
  unfolding fail
  fail-Failed origin message certainty h = record {
    at = λ s live.
        Holds-either (Failed request n t) Never (Escaped n t) s.run_directory_prepared _ _
          ((finalize-Failed env request origin (some message) certainty n t h).at s live)
          ((failure_result-Failed env request origin (some message) certainty n t h).at s live);
  }

  -- What the clauses do with an exception of a kind that they cover.
  covered :
      {A : Type 0} (Q : A → Rt → Type 0) (message : Exn → String) (e : Exn) (s : Rt)
      (origin : Option FailureOrigin)
      → Live n t s
      → (is_some origin || escapes e.kind) ≡ true
      → Holds Q
          (Failed request n t)
          (Escaped n t)
          (handle {A = A} (Option.map (fail_early env request message e) origin) e s).0
          (handle {A = A} (Option.map (fail_early env request message e) origin) e s).1
  covered Q message e s none live h = record {
    escaped = h;
    sessions_made = live.sessions_made;
    commits_made = live.commits_made;
  }
  covered Q message e s (some origin) live h =
      (Triple-return (fail-Failed origin (message e) TerminalCertainty.not_applicable refl)).at s
        live

  pub Triple-guarded :
      {A : Type 0} {Φ : A → Type 0} {P : Rt → Type 0} (clauses : Clauses) (message : Exn → String)
      (action : Exec A)
      → Stable P
      → ((s : Rt) → P s → Live n t s)
      → Quiet (covers clauses) Φ action
      → Triple P
          (guarded env request clauses message action)
          (λ a s. P s × Φ a)
          (Failed request n t)
          (Escaped n t)
  unfolding guarded
  Triple-guarded clauses message action stable live quiet =
      Triple-try _ _ _ _ action _
        (Triple-weaken (λ _ _ k. k) (λ _ _ k. absurd k) (λ _ _ k. k)
          (Quiet-Triple action stable quiet))
        λ e s k. covered _ message e s (clauses e.kind) (live s k.0) k.1
