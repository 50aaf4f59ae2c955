-- ===== src/Runtime/Execute/Cancelled.antt =====
-- The outer clauses of `execute` in src/millforge/runtime.py, and the finalizer that they call, from a
-- state of which only the counts are known.
use millforge.Prelude.{ℕ, String, List, Bool, not, Option, none, ◌&&◌, ◌⊎◌, inl, inr, ◌≡◌, ◌∙◌}
use millforge.Runtime.States.{
  ExecutionStatus, FailureOrigin, RuntimeState, TerminalCertainty, is_terminal, state_eq,
}
use millforge.Runtime.Contracts.{
  ArtifactRef, HarnessExecutionRequest, HarnessExecutionResult, TimingMetadata,
}
use millforge.Runtime.Effects.{Env, Exec, Exn, ExnKind, Rt, handle, is_exception, pure, raise}
use millforge.Runtime.Logic.{
  Holds, Triple, Triple-bind, Triple-try, Triple-weaken, commits, handled_if, Holds-either,
  sessions,
}
use millforge.Runtime.Quiet.{Never, Quiet, Quiet-Triple, Stable}
use millforge.Runtime.Machine.{
  enter_non_terminal_finalizing, forward, is_failure_target, state_in, transition_to,
}
use millforge.Runtime.Artifacts.Writes.{Quiet-write_non_terminal_artifacts}
use millforge.Runtime.Results.{
  artifact_failure, failure_result, finalize_non_terminal_failure, finish_finalizing,
}
use millforge.Runtime.Results.Finalizers.{Escaped, Quiet-build_timing, escapes_of_not_exception}
use millforge.Runtime.Execute.{finalize_cancelled}

-- So many sessions and commits were made.
pub record Counts (n t : ℕ) (s : Rt) : Type 0 where
  pub sessions_made : sessions s.effects ≡ n
  pub commits_made : commits s.effects ≡ t

pub Counts-stable : (n t : ℕ) → Stable (Counts n t)
Counts-stable n t s s' k h = record {
  sessions_made = k.sessions_kept ∙ h.sessions_made;
  commits_made = k.commits_kept ∙ h.commits_made;
}

-- An action that keeps both counts.
abbrev Keeps : ℕ → ℕ → {A : Type 0} → Exec A → Type 0
Keeps n t m = Triple (Counts n t) m (λ _ s. Counts n t s) Never (λ _ s. Counts n t s)

module _ (n t : ℕ) where
  Keeps-transition : (target : RuntimeState) → Keeps n t (transition_to target)
  unfolding transition_to raise
  Keeps-transition target = record {
    at = λ s h.
        Holds-either _ Never (λ _ s. Counts n t s) (is_terminal s.state) _ _ h
          (Holds-either _ Never (λ _ s. Counts n t s) (is_failure_target target) _ _ (moved s h)
            (Holds-either _ Never (λ _ s. Counts n t s) (state_in target (forward s.state)) _ _
              (moved s h) h));
  }
    where
      moved : (s : Rt) → Counts n t s → Counts n t (record s { state = target })
      moved s h = record { sessions_made = h.sessions_made; commits_made = h.commits_made }

  Keeps-pure : {A : Type 0} (a : A) → Keeps n t (pure a)
  unfolding pure
  Keeps-pure a = record { at = λ s h. h }

  Keeps-Quiet :
      {A : Type 0} {K : ExnKind → Bool} {Φ : A → Type 0} (m : Exec A) → Quiet K Φ m → Keeps n t m
  Keeps-Quiet m q =
      Triple-weaken (λ _ _ k. k.0) (λ _ _ k. k) (λ _ _ k. k.0)
        (Quiet-Triple m (Counts-stable n t) q)

  Keeps-enter : Keeps n t enter_non_terminal_finalizing
  unfolding enter_non_terminal_finalizing
  Keeps-enter = record {
    at = λ s h.
        Holds-either _ Never (λ _ s. Counts n t s) (state_eq s.state RuntimeState.running) _ _
          ((Keeps-transition RuntimeState.finalizing).at s h) ((Keeps-pure tt).at s h);
  }

  module _ (env : Env) (request : HarnessExecutionRequest) where
    Keeps-failure_result :
        (origin : FailureOrigin) (message : Option String) (certainty : TerminalCertainty)
        → Keeps n t (failure_result env origin request message certainty)
    unfolding failure_result
    Keeps-failure_result origin message certainty =
        Triple-bind _ _ (Keeps-transition _)
          λ _. Triple-bind _ _ (Keeps-Quiet _ (Quiet-build_timing env)) λ _. Keeps-pure _

    Keeps-finish :
        (build : List ArtifactRef → TimingMetadata → HarnessExecutionResult)
        (status : ExecutionStatus) (w : List ArtifactRef ⊎ HarnessExecutionResult)
        → Keeps n t (finish_finalizing env build status w)
    unfolding finish_finalizing
    Keeps-finish build status (inr r) = Keeps-pure r
    Keeps-finish build status (inl refs) =
        Triple-bind _ _ (Keeps-transition _)
          λ _. Triple-bind _ _ (Keeps-Quiet _ (Quiet-build_timing env)) λ _. Keeps-pure _

    Keeps-handled :
        (certainty : TerminalCertainty) (e : Exn) (s : Rt)
        → Counts n t s
        → Holds
            (λ _ s. Counts n t s)
            Never
            (λ _ s. Counts n t s)
            (handle (artifact_failure env request certainty e) e s).0
            (handle (artifact_failure env request certainty e) e s).1
    unfolding artifact_failure
    Keeps-handled certainty e s h =
        handled_if _ Never (λ _ s. Counts n t s) (is_exception e.kind) _ e s
          (λ _.
            (Triple-bind _ _ (Keeps-failure_result _ _ certainty) λ r. Keeps-pure (inr r)).at s h)
          λ _. h

    Keeps-finalize :
        (origin : FailureOrigin) (message : Option String) (certainty : TerminalCertainty)
        → Keeps n t (finalize_non_terminal_failure env origin request message certainty)
    unfolding finalize_non_terminal_failure
    Keeps-finalize origin message certainty = Triple-bind _ _ Keeps-enter λ _.
        Triple-bind _ _
          (Triple-try _ _ _ _ _ (artifact_failure env request certainty)
            (Triple-bind _ _
              (Keeps-Quiet _ (Quiet-write_non_terminal_artifacts env request _ _ none _ certainty))
              λ refs. Keeps-pure (inl refs))
            (λ e s h. Keeps-handled certainty e s h))
          λ w. Keeps-finish _ _ w

    -- What is raised is no `Exception`.
    pub finalize_cancelled-Counts :
        Triple
          (Counts n t)
          (finalize_cancelled env request)
          (λ _ s. Counts n t s)
          Never
          (Escaped n t)
    unfolding finalize_cancelled pure
    finalize_cancelled-Counts = record {
      at = λ s h.
          Holds-either _ Never (Escaped n t)
            (s.run_directory_prepared && not s.external_cancel_finalized) _ _
            ((Triple-try _ _ _ _ _ _ (Triple-bind _ _ (Keeps-finalize _ _ _) λ _. Keeps-pure tt)
                λ e s h.
                  handled_if (λ _ s. Counts n t s) Never (Escaped n t) (is_exception e.kind)
                    (pure tt) e s (λ _. h)
                    λ escaping. record {
                      escaped = escapes_of_not_exception e.kind escaping;
                      sessions_made = h.sessions_made;
                      commits_made = h.commits_made;
                    }).at
              s h)
            h;
    }
