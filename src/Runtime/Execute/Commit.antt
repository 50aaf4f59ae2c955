-- ===== src/Runtime/Execute/Commit.antt =====
-- Steps 19 and 20 of `execute` in src/millforge/runtime.py: the writes, and the clauses around them.
use millforge.Prelude.{
  ℕ, suc, String, List, [], ◌∷◌, ◌++◌, Bool, true, false, Option, none, some, ◌⊎◌, inl, inr, ◌≡◌,
  refl, if◌then◌else◌, arith,
}
use millforge.Runtime.States.{
  ExecutionStatus, ExecutionResultClass, RuntimeState, TerminalCertainty, is_terminal,
}
use millforge.Runtime.Contracts.{
  ArtifactRef, Deadline, DiagnosticMetadata, GuardedSessionResult, HarnessExecutionRequest,
  TerminalIntent,
}
use millforge.Runtime.Payloads.{Payload}
use millforge.Runtime.Effects.{Env, Exec, Exn, ExnKind, Rt, handle, record_effect, throw, tick}
use millforge.Runtime.Logic.{
  Holds, Triple, Triple-bind, Triple-try, Triple-weaken, commits, is_terminal_result, sessions,
}
use millforge.Runtime.Quiet.{
  Never, Quiet, Quiet-Triple, Quiet-bind, Quiet-pure, Quiet-throw, Quiet-tick, Quiet-try, any_kind,
}
use millforge.Runtime.Preflight.Checks.{Quiet-checkpoint}
use millforge.Runtime.Artifacts.{
  ambiguous_commit, checkpoint_after_terminal_commit, diagnostic_write, finish_write,
  post_commit_writes, stop_finalizing, write_after_commit, write_artifact, write_artifacts,
}
use millforge.Runtime.ArtifactRefs.{ArtifactId}
use millforge.Runtime.Artifacts.Writes.{Quiet-write_artifact}
use millforge.Runtime.Guard.Endings.{At, At-stable, Live-At, Triple-return, fail-Failed}
use millforge.Runtime.Results.Endings.{Failed}
use millforge.Runtime.Results.Finalizers.{Escaped}
use millforge.Runtime.Execute.{commit_handler}

-- A write that is no terminal result, in the list of the writes after the commit.
data Ordinary : List (ArtifactId × Payload) → Type 0 where
  none_left : Ordinary []
  another :
      {i : ArtifactId} {payload : Payload} {rest : List (ArtifactId × Payload)}
      → is_terminal_result payload ≡ false
      → Ordinary rest
      → Ordinary ((i, payload) ∷ rest)

Quiet-if :
    {A : Type 0} {K : ExnKind → Bool} {Φ : A → Type 0} {m k : Exec A} (b : Bool)
    → Quiet K Φ m
    → Quiet K Φ k
    → Quiet K Φ (if b then m else k)
Quiet-if true h l = h
Quiet-if false h l = l

module _ (env : Env) (d : Deadline) where
  Quiet-checkpoint_after : Quiet any_kind (λ _. Unit {0}) (checkpoint_after_terminal_commit env d)
  unfolding checkpoint_after_terminal_commit throw
  Quiet-checkpoint_after =
      Quiet-try {K = any_kind} _ _
        (Quiet-bind _ _ (Quiet-checkpoint env d refl refl) λ _ _. Quiet-pure true tt)
        λ e _. stopped e.kind e.message
    where
      stopped :
          (kind : ExnKind) (text : String)
          → Quiet any_kind
              (λ _. Unit {0})
              (handle
                (stop_finalizing env (record { kind = kind; message = text }))
                (record { kind = kind; message = text }))
      stopped ExnKind.operation_cancelled text = Quiet-pure false tt
      stopped ExnKind.deadline_exceeded text = Quiet-pure false tt
      stopped _ text = Quiet-throw _ refl

  Quiet-write_after_commit :
      (writes : List (ArtifactId × Payload))
      → Ordinary writes
      → Quiet any_kind (λ _. Unit {0}) (write_after_commit env d writes)
  unfolding write_after_commit
  Quiet-write_after_commit [] h = Quiet-pure tt tt
  Quiet-write_after_commit ((i, payload) ∷ rest) (another h more) =
      Quiet-bind _ _ Quiet-checkpoint_after λ go_on _.
        Quiet-if go_on
          (Quiet-bind _ _ (Quiet-write_artifact env i payload h)
            λ _ _. Quiet-write_after_commit rest more)
          (Quiet-pure tt tt)

post_commit_writes-Ordinary :
    (request : HarnessExecutionRequest) (session : GuardedSessionResult) (c : ExecutionResultClass)
    (status : ExecutionStatus)
    → Ordinary (post_commit_writes request session c status)
unfolding post_commit_writes
post_commit_writes-Ordinary request session c status =
    another refl
      (another refl (another refl (another refl (with_diagnostic session.diagnostic _ _))))
  where
    with_diagnostic :
        (o : Option DiagnosticMetadata) (i : ArtifactId) (p : _)
        → Ordinary (diagnostic_write o ++ (i, Payload.artifact_manifest p) ∷ [])
    with_diagnostic none i p = another refl none_left
    with_diagnostic (some d) i p = another refl (another refl none_left)

-- The machine is finalizing, and the terminal result is written or not.
abbrev pub AtCommit : ℕ → ℕ → Rt → Type 0
AtCommit n t s = At RuntimeState.finalizing n t s ⊎ At RuntimeState.finalizing n (suc t) s

module _ (env : Env) (n t : ℕ) where
  Triple-wrote :
      (ref : ArtifactRef) (payload : Payload) (o : Option Exn)
      → is_terminal_result payload ≡ true
      → Triple
          (At RuntimeState.finalizing n t)
          (finish_write env ref payload o)
          (λ _ s. At RuntimeState.finalizing n (suc t) s)
          Never
          (λ _ s. At RuntimeState.finalizing n t s)
  unfolding record_effect throw sessions commits
  Triple-wrote ref payload (some e) h = record { at = λ s k. k }
  Triple-wrote ref (Payload.terminal_result p) none h = record {
    at = λ s k. record {
      state = k.state;
      sessions_made = (let e = k.sessions_made in omega arith);
      commits_made = (let e = k.commits_made in omega arith);
    };
  }
  Triple-wrote ref _ none h = absurd (ground arith)

  Triple-write_terminal :
      (payload : Payload)
      → is_terminal_result payload ≡ true
      → Triple
          (At RuntimeState.finalizing n t)
          (write_artifact env ArtifactId.terminal_result payload)
          (λ _ s. At RuntimeState.finalizing n (suc t) s)
          Never
          (λ _ s. At RuntimeState.finalizing n t s)
  unfolding write_artifact
  Triple-write_terminal payload h =
      Triple-bind _ _
        (Triple-weaken (λ _ _ k. k.0) (λ _ _ k. k) (λ _ _ k. absurd (cc))
          (Quiet-Triple {K = λ _. false} tick (At-stable RuntimeState.finalizing n t) Quiet-tick))
        λ _. Triple-wrote _ payload _ h

  ambiguous_handled :
      (kind : ExnKind) (text : String) (s : Rt)
      → At RuntimeState.finalizing n t s
      → Holds
          (λ _ s. At RuntimeState.finalizing n (suc t) s)
          Never
          (λ _ s. At RuntimeState.finalizing n t s)
          (handle
            (ambiguous_commit env (record { kind = kind; message = text }))
            (record { kind = kind; message = text })
            s).0
          (handle
            (ambiguous_commit env (record { kind = kind; message = text }))
            (record { kind = kind; message = text })
            s).1
  unfolding ambiguous_commit throw
  ambiguous_handled ExnKind.operation_cancelled text s h = h
  ambiguous_handled ExnKind.deadline_exceeded text s h = h
  ambiguous_handled _ text s h = h

  -- The terminal result is written unless the method raises, which it also does after it.
  pub write_artifacts-AtCommit :
      (request : HarnessExecutionRequest) (session : GuardedSessionResult) (intent : TerminalIntent)
      (c : ExecutionResultClass) (status : ExecutionStatus) (d : Deadline)
      → Triple
          (At RuntimeState.finalizing n t)
          (write_artifacts env request session intent c status d)
          (λ _ s. At RuntimeState.finalizing n (suc t) s)
          Never
          (λ _ s. AtCommit n t s)
  unfolding write_artifacts
  write_artifacts-AtCommit request session intent c status d =
      Triple-bind _ _
        (Triple-weaken (λ _ _ k. k.0) (λ _ _ k. k) (λ _ _ k. inl k.0)
          (Quiet-Triple _ (At-stable RuntimeState.finalizing n t)
            (Quiet-checkpoint {K = any_kind} env d refl refl)))
        λ _.
          Triple-bind _ _
            (Triple-weaken (λ _ _ k. k) (λ _ _ k. k) (λ _ _ k. inl k)
              (Triple-try _ _ _ _ _ (ambiguous_commit env) (Triple-write_terminal _ refl)
                λ e s h. ambiguous_handled e.kind e.message s h))
            λ _.
              Triple-weaken (λ _ _ k. k.0) (λ _ _ k. k) (λ _ _ k. inr k.0)
                (Quiet-Triple _ (At-stable RuntimeState.finalizing n (suc t)) (
                  Quiet-write_after_commit env d _
                    (post_commit_writes-Ordinary request session c status)))

module _ (env : Env) (request : HarnessExecutionRequest) (n t : ℕ) where
  pub commit_handled :
      (Q : Unit → Rt → Type 0) (kind : ExnKind) (text : String) (s : Rt)
      → At RuntimeState.finalizing n t s
      → Holds Q
          (Failed request n t)
          (Escaped n t)
          (handle
            (commit_handler env request (record { kind = kind; message = text }))
            (record { kind = kind; message = text })
            s).0
          (handle
            (commit_handler env request (record { kind = kind; message = text }))
            (record { kind = kind; message = text })
            s).1
  unfolding commit_handler is_terminal
  commit_handled Q ExnKind.asyncio_cancelled text s h = record {
    escaped = refl;
    sessions_made = h.sessions_made;
    commits_made = h.commits_made;
  }
  commit_handled Q (ExnKind.ambiguous_terminal_commit origin) text s h =
      (Triple-return (fail-Failed env request n t origin text TerminalCertainty.unknown refl)).at s
        (Live-At RuntimeState.finalizing refl h)
  commit_handled Q _ text s h =
      (Triple-return (fail-Failed env request n t _ _ TerminalCertainty.not_applicable refl)).at s
        (Live-At RuntimeState.finalizing refl h)
