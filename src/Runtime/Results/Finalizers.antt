-- ===== src/Runtime/Results/Finalizers.antt =====
-- The failure factory and the finalizers of src/millforge/runtime.py, from the states in which the
-- machine runs on.
use millforge.Prelude.{
  ℕ, String, List, Bool, true, false, Option, none, some, ◌⊎◌, inl, inr, ◌≡◌, refl, arith,
}
use millforge.Runtime.States.{
  ExecutionStatus, ExecutionResultClass, FailureOrigin, RuntimeState, TerminalCertainty,
  is_completed, is_committed, is_domain_class,
}
use millforge.Runtime.Contracts.{
  ArtifactRef, GuardedSessionResult, HarnessExecutionRequest, HarnessExecutionResult,
  TimingMetadata,
}
use millforge.Runtime.Classify.{classify_failure}
use millforge.Runtime.Effects.{
  Env, Exec, Exn, ExnKind, Rt, handle, is_exception, try_except, ◌>>=◌, ◌>>◌, pure,
}
use millforge.Runtime.Logic.{
  sessions, commits, Holds, Triple, Triple-bind, Triple-try, Triple-weaken, handled_if,
}
use millforge.Runtime.Quiet.{
  Never, Quiet, Quiet-bind, Quiet-pure, Quiet-raise_if, Quiet-Triple, any_kind,
}
use millforge.Runtime.Machine.{enter_non_terminal_finalizing, is_failure_target, transition_to}
use millforge.Runtime.Preflight.Checks.{Quiet-read_utc}
use millforge.Runtime.Artifacts.Writes.{Quiet-write_non_terminal_artifacts}
use millforge.Runtime.Results.{
  artifact_failure, build_timing, failure_result, failure_target,
  finalize_non_domain_session_result, finalize_non_terminal_failure, finish_finalizing,
  get_started_at, status_target,
}
use millforge.Runtime.Results.Endings.{
  Failed, Failed-non_domain, Live, Live-stable, Stopped, Stopped-stable, Stopped-transition,
}

-- The kinds of exception that may leave `execute`.
abbrev pub escapes : ExnKind → Bool
escapes ExnKind.asyncio_cancelled = true
escapes ExnKind.type_error = true
escapes ExnKind.file_not_found = true
escapes ExnKind.os_error = true
escapes ExnKind.validation_error = true
escapes ExnKind.other_exception = true
escapes _ = false

pub record Escaped (n t : ℕ) (e : Exn) (s : Rt) : Type 0 where
  pub escaped : escapes e.kind ≡ true
  pub sessions_made : sessions s.effects ≡ n
  pub commits_made : commits s.effects ≡ t

-- What `_timing` raises.
abbrev pub timing_kind : ExnKind → Bool
timing_kind ExnKind.validation_error = true
timing_kind _ = false

pub timing_kind-escapes : (k : ExnKind) → timing_kind k ≡ true → escapes k ≡ true
timing_kind-escapes ExnKind.validation_error h = refl
timing_kind-escapes _ h = cc

Quiet-get_started_at : Quiet timing_kind (λ _. Unit {0}) get_started_at
unfolding get_started_at
Quiet-get_started_at = record {
  at = λ s. (record { state = refl; sessions_kept = refl; commits_kept = refl }, tt);
}

pub Quiet-build_timing : (env : Env) → Quiet timing_kind (λ _. Unit {0}) (build_timing env)
unfolding build_timing
Quiet-build_timing env = Quiet-bind _ _ (Quiet-read_utc env) λ _ _.
    Quiet-bind _ _ Quiet-get_started_at
      λ _ _. Quiet-bind _ _ (Quiet-raise_if _ _ _ refl) λ _ _. Quiet-pure _ tt

-- A result that is built after the machine has stopped.
Triple-timing :
    (env : Env) (n t : ℕ)
    → Triple (Stopped n t) (build_timing env) (λ _ s. Stopped n t s) Never (Escaped n t)
Triple-timing env n t =
    Triple-weaken (λ _ _ h. h.0) (λ _ _ h. h)
      (λ e _ h. record {
        escaped = timing_kind-escapes e.kind h.1;
        sessions_made = h.0.sessions_made;
        commits_made = h.0.commits_made;
      })
      (Quiet-Triple (build_timing env) (Stopped-stable n t) (Quiet-build_timing env))

Failed-timed :
    (env : Env) (request : HarnessExecutionRequest) (n t : ℕ) (target : RuntimeState)
    (build : TimingMetadata → HarnessExecutionResult)
    → is_failure_target target ≡ true
    → ((timing : TimingMetadata) (s : Rt) → Stopped n t s → Failed request n t (build timing) s)
    → Triple
        (Live n t)
        (do transition_to target; timing ← build_timing env; pure (build timing))
        (Failed request n t)
        Never
        (Escaped n t)
unfolding pure
Failed-timed env request n t target build h made =
    Triple-bind _ _
      (Triple-weaken (λ _ _ k. k) (λ _ _ k. k) (λ _ _ k. absurd k)
        (Stopped-transition n t target h))
      λ _.
        Triple-bind _ _ (Triple-timing env n t)
          λ timing. record { at = λ s stop. made timing s stop }

failure_target-fails : (origin : FailureOrigin) → is_failure_target (failure_target origin) ≡ true
unfolding failure_target
failure_target-fails FailureOrigin.already_cancelled = refl
failure_target-fails _ = refl

classify_failure-fails :
    (origin : FailureOrigin)
    → (is_completed (classify_failure origin).1 ≡ false)
      × (is_domain_class (classify_failure origin).0 ≡ false)
unfolding classify_failure
classify_failure-fails origin = ground arith

pub failure_result-Failed :
    (env : Env) (request : HarnessExecutionRequest) (origin : FailureOrigin)
    (message : Option String) (certainty : TerminalCertainty) (n t : ℕ)
    → is_committed certainty ≡ false
    → Triple
        (Live n t)
        (failure_result env origin request message certainty)
        (Failed request n t)
        Never
        (Escaped n t)
unfolding failure_result
failure_result-Failed env request origin message certainty n t h =
    Failed-timed env request n t (failure_target origin) _ (failure_target-fails origin)
      λ timing s stop.
        Failed-non_domain request _ _ _ _ timing _ certainty s (classify_failure-fails origin).0
          (classify_failure-fails origin).1 h stop

-- The states that a finalizer is in after its writes: it goes on, or it has a result.
abbrev Written :
    HarnessExecutionRequest → ℕ → ℕ → List ArtifactRef ⊎ HarnessExecutionResult → Rt → Type 0
Written request n t (inl refs) s = Live n t s
Written request n t (inr r) s = Failed request n t r s

Live-enter :
    (n t : ℕ) → Triple (Live n t) enter_non_terminal_finalizing (λ _ s. Live n t s) Never Never
unfolding enter_non_terminal_finalizing
Live-enter n t = record { at = λ s h. ground arith }

reported :
    {request : HarnessExecutionRequest} {n t : ℕ} {m : Exec HarnessExecutionResult}
    → Triple (Live n t) m (Failed request n t) Never (Escaped n t)
    → Triple (Live n t) (do r ← m; pure (inr r)) (Written request n t) Never (Escaped n t)
unfolding pure
reported {m = m} h = Triple-bind m _ h λ r. record { at = λ _ k. k }

pub escapes_of_not_exception : (k : ExnKind) → is_exception k ≡ false → escapes k ≡ true
unfolding is_exception
escapes_of_not_exception ExnKind.asyncio_cancelled h = refl
escapes_of_not_exception _ h = cc

handled-artifact_failure :
    (env : Env) (request : HarnessExecutionRequest) (certainty : TerminalCertainty) (n t : ℕ)
    → is_committed certainty ≡ false
    → (e : Exn) (s : Rt) → Live n t s × (any_kind e.kind ≡ true)
    → Holds
        (Written request n t)
        Never
        (Escaped n t)
        (handle (artifact_failure env request certainty e) e s).0
        (handle (artifact_failure env request certainty e) e s).1
unfolding artifact_failure pure is_exception
handled-artifact_failure env request certainty n t h e s (live, _) =
    handled_if (Written request n t) Never (Escaped n t) (is_exception e.kind) _ e s
      (λ _.
        (reported (
            failure_result-Failed env request FailureOrigin.artifact_write_failure _ certainty n t
              h)).at
          s live)
      λ escaping. record {
        escaped = escapes_of_not_exception e.kind escaping;
        sessions_made = live.sessions_made;
        commits_made = live.commits_made;
      }

Written-Written :
    (env : Env) (request : HarnessExecutionRequest) (certainty : TerminalCertainty) (n t : ℕ)
    (write : Exec (List ArtifactRef))
    → is_committed certainty ≡ false
    → Quiet any_kind (λ _. Unit {0}) write
    → Triple
        (Live n t)
        (try_except (do refs ← write; pure (inl refs)) (artifact_failure env request certainty))
        (Written request n t)
        Never
        (Escaped n t)
unfolding pure
Written-Written env request certainty n t write h q =
    Triple-try _ _ _ _ _ (artifact_failure env request certainty)
      (Triple-bind _ _ (Quiet-Triple write (Live-stable n t) q) λ refs. record { at = λ s k. k.0 })
      (handled-artifact_failure env request certainty n t h)

status_target-fails : (status : ExecutionStatus) → is_failure_target (status_target status) ≡ true
unfolding status_target
status_target-fails ExecutionStatus.interrupted = refl
status_target-fails _ = refl

Failed-finish :
    (env : Env) (request : HarnessExecutionRequest) (n t : ℕ) (status : ExecutionStatus)
    (build : List ArtifactRef → TimingMetadata → HarnessExecutionResult)
    → ((refs : List ArtifactRef) (timing : TimingMetadata) (s : Rt)
        → Stopped n t s
        → Failed request n t (build refs timing) s)
    → (w : List ArtifactRef ⊎ HarnessExecutionResult)
    → Triple
        (Written request n t w)
        (finish_finalizing env build status w)
        (Failed request n t)
        Never
        (Escaped n t)
unfolding finish_finalizing pure
Failed-finish env request n t status build made (inr r) = record { at = λ s h. h }
Failed-finish env request n t status build made (inl refs) =
    Failed-timed env request n t (status_target status) (build refs) (status_target-fails status)
      (made refs)

pub finalize-Failed :
    (env : Env) (request : HarnessExecutionRequest) (origin : FailureOrigin)
    (message : Option String) (certainty : TerminalCertainty) (n t : ℕ)
    → is_committed certainty ≡ false
    → Triple
        (Live n t)
        (finalize_non_terminal_failure env origin request message certainty)
        (Failed request n t)
        Never
        (Escaped n t)
unfolding finalize_non_terminal_failure
finalize-Failed env request origin message certainty n t h =
    Triple-bind _ _ (Triple-weaken (λ _ _ k. k) (λ _ _ k. k) (λ _ _ k. absurd k) (Live-enter n t))
      λ _.
        Triple-bind _ _
          (Written-Written env request certainty n t _ h
            (Quiet-write_non_terminal_artifacts env request _ _ none _ certainty))
          (Failed-finish env request n t _ _ λ refs timing s stop.
            Failed-non_domain request _ _ refs _ timing _ certainty s
              (classify_failure-fails origin).0 (classify_failure-fails origin).1 h stop)

pub finalize_session-Failed :
    (env : Env) (request : HarnessExecutionRequest) (session : GuardedSessionResult)
    (status : ExecutionStatus) (c : ExecutionResultClass) (n t : ℕ)
    → is_completed status ≡ false
    → is_domain_class c ≡ false
    → Triple
        (Live n t)
        (finalize_non_domain_session_result env request session status c)
        (Failed request n t)
        Never
        (Escaped n t)
unfolding finalize_non_domain_session_result
finalize_session-Failed env request session status c n t hs hc =
    Triple-bind _ _ (Triple-weaken (λ _ _ k. k) (λ _ _ k. k) (λ _ _ k. absurd k) (Live-enter n t))
      λ _.
        Triple-bind _ _
          (Written-Written env request TerminalCertainty.not_applicable n t _ refl
            (Quiet-write_non_terminal_artifacts env request status c (some session) _ _))
          (Failed-finish env request n t status _ λ refs timing s stop.
            Failed-non_domain request status c _ _ timing _ _ s hs hc refl stop)
