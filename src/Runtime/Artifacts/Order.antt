-- ===== src/Runtime/Artifacts/Order.antt =====
-- The order of the writes of `_write_artifacts` in src/millforge/runtime.py.
use millforge.Prelude.{
  ◌+◌, String, List, [], ◌∷◌, ◌++◌, Bool, true, false, Option, none, some, ◌≡◌, refl, ap, ◌∙◌,
  if◌then◌else◌,
}
use millforge.Runtime.States.{ExecutionStatus, ExecutionResultClass}
use millforge.Runtime.Contracts.{
  Deadline, GuardedSessionResult, HarnessExecutionRequest, TerminalIntent,
}
use millforge.Runtime.Payloads.{Payload}
use millforge.Runtime.Effects.{
  Effect, Env, Exec, Exn, ExnKind, Outcome, Rt, ok, returned, raised, continue, catch, handle, pure,
  raise, raise_if, record_effect, throw, tick, try_except, ◌>>=◌,
}
use millforge.Runtime.Preflight.{
  check_cancelled, check_deadline, checkpoint_invocation, read_cancelled, read_monotonic,
}
use millforge.Runtime.Artifacts.{
  ambiguous_commit, checkpoint_after_terminal_commit, finish_write, post_commit_writes,
  stop_finalizing, terminal_result_payload, write_after_commit, write_artifact, write_artifacts,
}
use millforge.Runtime.ArtifactRefs.{ArtifactId, build_artifact_ref}

abbrev Write : Type 0
Write = ArtifactId × Payload

-- The effects, newest first, where these writes were made in this order.
unfoldable pub after_writes : List Write → List Effect → List Effect
after_writes [] effects = effects
after_writes ((i, payload) ∷ rest) effects =
    after_writes rest (Effect.wrote (build_artifact_ref i) payload ∷ effects)

-- Some first part of the writes was made, in their order, and nothing else was done.
abbrev pub WrotePrefix : List Write → List Effect → List Effect → Type 0
WrotePrefix writes before after =
    (done : List Write) × (rest : List Write) × (done ++ rest ≡ writes)
    × (after ≡ after_writes done before)

abbrev effects_after : {A : Type 0} → Exec A → Rt → List Effect
effects_after m s = (m s).1.effects

-- An action that does nothing to the world.
abbrev Still : {A : Type 0} → Exec A → Type 0
Still m = (s : Rt) → effects_after m s ≡ s.effects

Still-continue :
    {A B : Type 0} (f : A → Exec B) (before : List Effect)
    → ((a : A) → Still (f a))
    → (o : Outcome A) (s : Rt) → s.effects ≡ before
    → (continue o f s).1.effects ≡ before
Still-continue f before next (ok a) s h = next a s ∙ h
Still-continue f before next (returned r) s h = h
Still-continue f before next (raised e) s h = h

Still-bind :
    {A B : Type 0} (m : Exec A) (f : A → Exec B)
    → Still m
    → ((a : A) → Still (f a))
    → Still (m >>= f)
unfolding ◌>>=◌
Still-bind m f first next s = Still-continue f s.effects next (m s).0 (m s).1 (first s)

Still-raise_if : (b : Bool) (kind : ExnKind) (text : String) → Still (raise_if b kind text)
unfolding raise_if raise pure
Still-raise_if true kind text s = refl
Still-raise_if false kind text s = refl

module _ (env : Env) (d : Deadline) where
  Still-checkpoint : Still (checkpoint_invocation env d)
  unfolding checkpoint_invocation check_cancelled check_deadline read_cancelled read_monotonic tick
      pure
  Still-checkpoint =
      Still-bind _ _
        (Still-bind _ _ (Still-bind tick _ (λ s. refl) λ n s. refl) λ b. Still-raise_if b _ _)
        λ _. Still-bind _ _ (Still-bind tick _ (λ s. refl) λ n s. refl) λ now. Still-raise_if _ _ _

  stopped :
      (kind : ExnKind) (text : String)
      → Still (
          handle
            (stop_finalizing env (record { kind = kind; message = text }))
            (record { kind = kind; message = text }))
  unfolding pure
  stopped ExnKind.operation_cancelled text s = refl
  stopped ExnKind.deadline_exceeded text s = refl
  stopped _ text s = refl

  Still-caught :
      (o : Outcome Bool) (s : Rt) → (catch o (stop_finalizing env) s).1.effects ≡ s.effects
  Still-caught (ok b) s = refl
  Still-caught (returned r) s = refl
  Still-caught (raised e) s = stopped e.kind e.message s

  Still-checkpoint_after : Still (checkpoint_after_terminal_commit env d)
  unfolding checkpoint_after_terminal_commit try_except pure
  Still-checkpoint_after s =
      Still-caught _ _ ∙ Still-bind (checkpoint_invocation env d) _ Still-checkpoint (λ _ s. refl) s

-- An action that makes a first part of the writes.
abbrev Writes : List Write → {A : Type 0} → Exec A → Type 0
Writes writes m = (s : Rt) → WrotePrefix writes s.effects (effects_after m s)

no_write : {writes : List Write} {A : Type 0} (m : Exec A) → Still m → Writes writes m
unfolding after_writes
no_write {writes} m still s = ([], writes, refl, still s)

after-Still :
    {writes : List Write} {A B : Type 0} (m : Exec A) (f : A → Exec B)
    → Still m
    → ((a : A) → Writes writes (f a))
    → Writes writes (m >>= f)
unfolding ◌>>=◌ after_writes
after-Still {writes} m f still next s = go (m s).0 (m s).1 (still s)
  where
    go :
        (o : Outcome _) (u : Rt)
        → u.effects ≡ s.effects
        → WrotePrefix writes s.effects (continue o f u).1.effects
    go (ok a) u h =
        let (done, rest, e, k) = next a u in (done, rest, e, k ∙ ap (after_writes done) h)
    go (returned r) u h = ([], writes, refl, h)
    go (raised e) u h = ([], writes, refl, h)

module _ (env : Env) where
  finish_then :
      {B : Type 0} (i : ArtifactId) (payload : Payload) (rest : List Write) (f : Unit → Exec B)
      → Writes rest (f tt)
      → (o : Option Exn)
      → Writes ((i, payload) ∷ rest) (finish_write env (build_artifact_ref i) payload o >>= f)
  unfolding record_effect throw ◌>>=◌ after_writes
  finish_then i payload rest f next none s =
      let (done, more, e, k) = next (record s { effects = _ ∷ s.effects }) in
      ((i, payload) ∷ done, more, ap (λ ws. (i, payload) ∷ ws) e, k)
  finish_then i payload rest f next (some x) s = ([], (i, payload) ∷ rest, refl, refl)

  -- A write, and what follows it.
  wrote_then :
      {B : Type 0} (i : ArtifactId) (payload : Payload) (rest : List Write) (f : Unit → Exec B)
      → Writes rest (f tt)
      → Writes ((i, payload) ∷ rest) (write_artifact env i payload >>= f)
  unfolding write_artifact tick ◌>>=◌
  wrote_then i payload rest f next s =
      finish_then i payload rest f next (env.write (build_artifact_ref i) payload s.readings)
        (record s { readings = s.readings + 1 })

  Writes-if :
      {writes : List Write} {A : Type 0} (b : Bool) (m k : Exec A)
      → Writes writes m
      → Writes writes k
      → Writes writes (if b then m else k)
  Writes-if true m k h l = h
  Writes-if false m k h l = l

  Writes-write_after_commit :
      (d : Deadline) (writes : List Write) → Writes writes (write_after_commit env d writes)
  unfolding write_after_commit pure
  Writes-write_after_commit d [] = no_write (pure tt) λ s. refl
  Writes-write_after_commit d ((i, payload) ∷ rest) =
      after-Still _ _ (Still-checkpoint_after env d) λ go_on.
        Writes-if go_on _ (pure tt) (wrote_then i payload rest _ (Writes-write_after_commit d rest))
          (no_write (pure tt) λ s. refl)

  commit_failed :
      {B : Type 0} (writes : List Write) (f : Unit → Exec B) (kind : ExnKind) (text : String)
      → Writes writes (
          handle
            (ambiguous_commit env (record { kind = kind; message = text }))
            (record { kind = kind; message = text })
          >>= f)
  unfolding ambiguous_commit throw ◌>>=◌ after_writes
  commit_failed writes f ExnKind.operation_cancelled text s = ([], writes, refl, refl)
  commit_failed writes f ExnKind.deadline_exceeded text s = ([], writes, refl, refl)
  commit_failed writes f _ text s = ([], writes, refl, refl)

  -- How the write of the terminal result ends: it is written, or an exception goes on.
  commit_then :
      {B : Type 0} (i : ArtifactId) (payload : Payload) (rest : List Write) (f : Unit → Exec B)
      → Writes rest (f tt)
      → (o : Option Exn)
      → Writes ((i, payload) ∷ rest) (
          try_except (finish_write env (build_artifact_ref i) payload o) (ambiguous_commit env)
          >>= f)
  unfolding try_except record_effect throw ◌>>=◌ after_writes
  commit_then i payload rest f next none s =
      let (done, more, e, k) = next (record s { effects = _ ∷ s.effects }) in
      ((i, payload) ∷ done, more, ap (λ ws. (i, payload) ∷ ws) e, k)
  commit_then i payload rest f next (some x) s =
      commit_failed ((i, payload) ∷ rest) f x.kind x.message s

  committed_then :
      {B : Type 0} (i : ArtifactId) (payload : Payload) (rest : List Write) (f : Unit → Exec B)
      → Writes rest (f tt)
      → Writes
          ((i, payload) ∷ rest)
          (try_except (write_artifact env i payload) (ambiguous_commit env) >>= f)
  unfolding write_artifact tick try_except ◌>>=◌
  committed_then i payload rest f next s =
      commit_then i payload rest f next (env.write (build_artifact_ref i) payload s.readings)
        (record s { readings = s.readings + 1 })

-- However `_write_artifacts` ends, what it has written is a first part of one fixed list, in order
-- and with no gap: the terminal result, then the artifacts of steps 17 to 20. It does nothing else
-- to the world.
pub write_artifacts-WrotePrefix :
    (env : Env) (request : HarnessExecutionRequest) (session : GuardedSessionResult)
    (intent : TerminalIntent) (c : ExecutionResultClass) (status : ExecutionStatus) (d : Deadline)
    (s : Rt)
    → WrotePrefix
        ((ArtifactId.terminal_result, terminal_result_payload request intent c)
          ∷ post_commit_writes request session c status)
        s.effects
        (write_artifacts env request session intent c status d s).1.effects
unfolding write_artifacts
write_artifacts-WrotePrefix env request session intent c status d =
    after-Still _ _ (Still-checkpoint env d)
      λ _. committed_then env _ _ _ _ (Writes-write_after_commit env d _)
