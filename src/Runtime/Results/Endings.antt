-- ===== src/Runtime/Results/Endings.antt =====
-- How the failure factories and the finalizers of src/millforge/runtime.py end, from every state in
-- which `execute` calls them.
use millforge.Prelude.{ℕ, List, true, false, Option, none, ◌≡◌, refl, ◌∙◌, arith}
use millforge.Runtime.States.{
  ExecutionStatus, ExecutionResultClass, RuntimeState, TerminalCertainty, is_terminal, is_completed,
  is_committed, is_domain_class, state_eq,
}
use millforge.Runtime.Contracts.{
  ArtifactRef, DiagnosticMetadata, HarnessExecutionRequest, HarnessExecutionResult, TimingMetadata,
  UsageMetadata, check_result_class_invariants,
}
use millforge.Runtime.Effects.{Rt}
use millforge.Runtime.Logic.{sessions, commits, Triple}
use millforge.Runtime.Quiet.{Never, Stable}
use millforge.Runtime.Machine.{is_failure_target, transition_to}
use millforge.Runtime.Results.{non_domain_result}

-- What every result of `execute` satisfies, in the state that it leaves.
pub record Ended (request : HarnessExecutionRequest) (r : HarnessExecutionResult) (s : Rt)
    : Type 0 where
  -- the validator of `HarnessExecutionResult` passes
  pub admitted : check_result_class_invariants r ≡ true
  pub terminal : is_terminal s.state ≡ true
  pub completed : state_eq s.state RuntimeState.completed ≡ is_completed r.status
  pub request_id : r.request_id ≡ request.request_id
  pub run_id : r.run_id ≡ request.run_id
  pub stage : r.stage ≡ request.stage
  pub compiled_harness : r.compiled_harness ≡ request.compiled_harness

-- A result that is no completion, with so many sessions and commits made.
pub record Failed (request : HarnessExecutionRequest) (n t : ℕ) (r : HarnessExecutionResult)
    (s : Rt) : Type 0 where
  pub ended : Ended request r s
  pub not_completed : is_completed r.status ≡ false
  pub no_intent : r.terminal_intent ≡ none
  pub not_committed : is_committed r.terminal_certainty ≡ false
  pub sessions_made : sessions s.effects ≡ n
  pub commits_made : commits s.effects ≡ t

-- The machine runs on, and so many sessions and commits were made.
pub record Live (n t : ℕ) (s : Rt) : Type 0 where
  pub live : is_terminal s.state ≡ false
  pub sessions_made : sessions s.effects ≡ n
  pub commits_made : commits s.effects ≡ t

pub Live-stable : (n t : ℕ) → Stable (Live n t)
Live-stable n t s s' k h = record {
  live = rw k.state h.live;
  sessions_made = k.sessions_kept ∙ h.sessions_made;
  commits_made = k.commits_kept ∙ h.commits_made;
}

-- The machine has stopped in a state of failure.
pub record Stopped (n t : ℕ) (s : Rt) : Type 0 where
  pub stopped : is_failure_target s.state ≡ true
  pub sessions_made : sessions s.effects ≡ n
  pub commits_made : commits s.effects ≡ t

pub Stopped-stable : (n t : ℕ) → Stable (Stopped n t)
Stopped-stable n t s s' k h = record {
  stopped = rw k.state h.stopped;
  sessions_made = k.sessions_kept ∙ h.sessions_made;
  commits_made = k.commits_kept ∙ h.commits_made;
}

pub Stopped-transition :
    (n t : ℕ) (target : RuntimeState)
    → is_failure_target target ≡ true
    → Triple (Live n t) (transition_to target) (λ _ s. Stopped n t s) Never Never
unfolding transition_to
Stopped-transition n t target h = record {
  at = λ s live.
      rw (live.live, h)
        (record {
          stopped = h;
          sessions_made = live.sessions_made;
          commits_made = live.commits_made;
        });
}

pub Failed-non_domain :
    (request : HarnessExecutionRequest) (status : ExecutionStatus) (c : ExecutionResultClass)
    (refs : List ArtifactRef) (usage : Option UsageMetadata) (timing : TimingMetadata)
    (d : Option DiagnosticMetadata) (certainty : TerminalCertainty) {n t : ℕ} (s : Rt)
    → is_completed status ≡ false
    → is_domain_class c ≡ false
    → is_committed certainty ≡ false
    → Stopped n t s
    → Failed request n t (non_domain_result request status c refs usage timing d certainty) s
unfolding check_result_class_invariants is_terminal
Failed-non_domain request status c refs usage timing d certainty s hs hc hk stop = record {
  ended = record {
    admitted = simp (hs, hc, hk);
    terminal = ground (arith, stop.stopped);
    completed = ground (arith, stop.stopped);
    request_id = refl;
    run_id = refl;
    stage = refl;
    compiled_harness = refl;
  };
  not_completed = hs;
  no_intent = refl;
  not_committed = hk;
  sessions_made = stop.sessions_made;
  commits_made = stop.commits_made;
}
