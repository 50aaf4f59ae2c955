-- ===== src/Runtime/Quiet.antt =====
-- Actions of src/millforge/runtime.py that leave the state of the machine alone, run no session and
-- write no terminal result: what their values satisfy, and which exceptions they raise.
use millforge.Prelude.{[], ◌∷◌, Bool, true, false, Option, ◌⊎◌, inl, inr, ◌≡◌, refl, ◌∙◌, arith}
use millforge.Runtime.Effects.{
  Call, Effect, Exec, Exn, ExnKind, FsFailure, Outcome, Rt, ok, returned, raised, ◌>>=◌, continue,
  pure, raise, raise_if, throw, tick, record_effect, try_except, catch, handle, from_call, from_fs,
  fs_exn,
}
use millforge.Runtime.Logic.{sessions, commits, Holds, Triple}

pub record Same (s s' : Rt) : Type 0 where
  pub state : s'.state ≡ s.state
  pub sessions_kept : sessions s'.effects ≡ sessions s.effects
  pub commits_kept : commits s'.effects ≡ commits s.effects

pub Same-refl : (s : Rt) → Same s s
Same-refl s = record { state = refl; sessions_kept = refl; commits_kept = refl }

pub Same-trans : {s t u : Rt} → Same s t → Same t u → Same s u
Same-trans h k = record {
  state = k.state ∙ h.state;
  sessions_kept = k.sessions_kept ∙ h.sessions_kept;
  commits_kept = k.commits_kept ∙ h.commits_kept;
}

-- `K` says which kinds of exception may be raised.
abbrev pub QuietEnd : {A : Type 0} → (ExnKind → Bool) → (A → Type 0) → Rt → Outcome A → Rt → Type 0
QuietEnd K Φ s (ok a) s' = Same s s' × Φ a
QuietEnd K Φ s (returned r) s' = ⊥
QuietEnd K Φ s (raised e) s' = Same s s' × (K e.kind ≡ true)

pub record Quiet {A : Type 0} (K : ExnKind → Bool) (Φ : A → Type 0) (m : Exec A) : Type 0 where
  pub at : (s : Rt) → QuietEnd K Φ s (m s).0 (m s).1

module _ {A : Type 0} (K : ExnKind → Bool) where
  end-weaken :
      (Φ Ψ : A → Type 0) (s : Rt) (o : Outcome A) (s' : Rt)
      → ((a : A) → Φ a → Ψ a)
      → QuietEnd K Φ s o s'
      → QuietEnd K Ψ s o s'
  end-weaken Φ Ψ s (ok a) s' f h = (h.0, f a h.1)
  end-weaken Φ Ψ s (returned r) s' f h = h
  end-weaken Φ Ψ s (raised e) s' f h = h

module _ {A : Type 0} {K : ExnKind → Bool} where
  pub Quiet-pure : {Φ : A → Type 0} (a : A) → Φ a → Quiet K Φ (pure a)
  unfolding pure
  Quiet-pure a h = record { at = λ s. (Same-refl s, h) }

  pub Quiet-raise :
      {Φ : A → Type 0} (kind : ExnKind) (text : _) → K kind ≡ true → Quiet K Φ (raise kind text)
  unfolding raise
  Quiet-raise kind text h = record { at = λ s. (Same-refl s, h) }

  pub Quiet-throw : {Φ : A → Type 0} (e : Exn) → K e.kind ≡ true → Quiet K Φ (throw e)
  unfolding throw
  Quiet-throw e h = record { at = λ s. (Same-refl s, h) }

  pub Quiet-weaken :
      {Φ Ψ : A → Type 0} (m : Exec A) → ((a : A) → Φ a → Ψ a) → Quiet K Φ m → Quiet K Ψ m
  Quiet-weaken m f q = record { at = λ s. end-weaken K _ _ s (m s).0 (m s).1 f (q.at s) }

module _ {K : ExnKind → Bool} where
  pub Quiet-raise_if :
      (test : Bool) (kind : ExnKind) (text : _)
      → K kind ≡ true
      → Quiet K (λ _. test ≡ false) (raise_if test kind text)
  unfolding raise_if
  Quiet-raise_if true kind text h = Quiet-raise kind text h
  Quiet-raise_if false kind text h = Quiet-pure tt refl

  pub Quiet-tick : Quiet K (λ _. Unit {0}) tick
  unfolding tick
  Quiet-tick = record {
    at = λ s. (record { state = refl; sessions_kept = refl; commits_kept = refl }, tt);
  }

module _ {A B : Type 0} {K : ExnKind → Bool} {Φ : A → Type 0} {Ψ : B → Type 0} where
  end-continue :
      (f : A → Exec B) (s : Rt)
      → ((a : A) → Φ a → Quiet K Ψ (f a))
      → (o : Outcome A) (s' : Rt) → QuietEnd K Φ s o s'
      → QuietEnd K Ψ s (continue o f s').0 (continue o f s').1
  end-continue f s next (ok a) s' h = go (f a s').0 (f a s').1 ((next a h.1).at s')
    where
      go : (o : Outcome B) (s'' : Rt) → QuietEnd K Ψ s' o s'' → QuietEnd K Ψ s o s''
      go (ok b) s'' k = (Same-trans h.0 k.0, k.1)
      go (returned r) s'' k = k
      go (raised e) s'' k = (Same-trans h.0 k.0, k.1)
  end-continue f s next (returned r) s' h = h
  end-continue f s next (raised e) s' h = h

  pub Quiet-bind :
      (m : Exec A) (f : A → Exec B)
      → Quiet K Φ m
      → ((a : A) → Φ a → Quiet K Ψ (f a))
      → Quiet K Ψ (m >>= f)
  unfolding ◌>>=◌
  Quiet-bind m f first next = record {
    at = λ s. end-continue f s next (m s).0 (m s).1 (first.at s);
  }

-- Calls of the collaborators and of the file system.
abbrev pub any_kind : ExnKind → Bool
any_kind _ = true

pub Quiet-from_call :
    {A : Type 0} (c : Call A) → Quiet any_kind (λ a. c ≡ Call.gives a) (from_call c)
unfolding from_call
Quiet-from_call (Call.gives a) = record { at = λ s. (Same-refl s, refl) }
Quiet-from_call (Call.throws e) = record { at = λ s. (Same-refl s, refl) }

module _ {A : Type 0} {K : ExnKind → Bool} where
  pub Quiet-read_fs :
      K ExnKind.file_not_found ≡ true
      → K ExnKind.os_error ≡ true
      → K ExnKind.other_exception ≡ true
      → (r : FsFailure ⊎ A) → Quiet K (λ a. r ≡ inr a) (from_fs r)
  unfolding from_fs fs_exn
  Quiet-read_fs f o x (inr a) = record { at = λ s. (Same-refl s, refl) }
  Quiet-read_fs f o x (inl (FsFailure.not_found m)) = record { at = λ s. (Same-refl s, f) }
  Quiet-read_fs f o x (inl (FsFailure.os_failure m)) = record { at = λ s. (Same-refl s, o) }
  Quiet-read_fs f o x (inl (FsFailure.other_failure m)) = record { at = λ s. (Same-refl s, x) }

-- An effect that is neither a session nor a terminal result.
pub Quiet-record_effect :
    {K : ExnKind → Bool} (e : Effect)
    → sessions (e ∷ []) ≡ 0
    → commits (e ∷ []) ≡ 0
    → Quiet K (λ _. Unit {0}) (record_effect e)
unfolding record_effect sessions commits
Quiet-record_effect e h k = record {
  at = λ s. (record { state = refl; sessions_kept = omega arith; commits_kept = omega arith }, tt);
}

-- A handler that turns what is raised into another quiet ending.
module _ {A : Type 0} (K L : ExnKind → Bool) (Φ : A → Type 0) where
  end-catch :
      (handlers : Exn → Option (Exec A)) (s : Rt)
      → ((e : Exn) → K e.kind ≡ true → Quiet L Φ (handle (handlers e) e))
      → (o : Outcome A) (s' : Rt) → QuietEnd K Φ s o s'
      → QuietEnd L Φ s (catch o handlers s').0 (catch o handlers s').1
  end-catch handlers s each (ok a) s' h = h
  end-catch handlers s each (returned r) s' h = h
  end-catch handlers s each (raised e) s' h =
      go (handle (handlers e) e s').0 (handle (handlers e) e s').1 ((each e h.1).at s')
    where
      go : (o : Outcome A) (s'' : Rt) → QuietEnd L Φ s' o s'' → QuietEnd L Φ s o s''
      go (ok b) s'' k = (Same-trans h.0 k.0, k.1)
      go (returned r) s'' k = k
      go (raised e) s'' k = (Same-trans h.0 k.0, k.1)

module _ {A : Type 0} {K L : ExnKind → Bool} {Φ : A → Type 0} where
  pub Quiet-try :
      (m : Exec A) (handlers : Exn → Option (Exec A))
      → Quiet K Φ m
      → ((e : Exn) → K e.kind ≡ true → Quiet L Φ (handle (handlers e) e))
      → Quiet L Φ (try_except m handlers)
  unfolding try_except
  Quiet-try m handlers first each = record {
    at = λ s. end-catch K L _ handlers s each (m s).0 (m s).1 (first.at s);
  }

-- A quiet action keeps whatever speaks of no more than the state of the machine and the counts.
abbrev pub Stable : (Rt → Type 0) → Type 0
Stable P = (s s' : Rt) → Same s s' → P s → P s'

abbrev pub Never : {A : Type 0} → A → Rt → Type 0
Never _ _ = ⊥

module _ {A : Type 0} (P : Rt → Type 0) (K : ExnKind → Bool) (Φ : A → Type 0) where
  quiet_end :
      (stable : Stable P) (s : Rt) (o : Outcome A) (s' : Rt)
      → P s
      → QuietEnd K Φ s o s'
      → Holds (λ a u. P u × Φ a) Never (λ e u. P u × (K e.kind ≡ true)) o s'
  quiet_end stable s (ok a) s' p h = (stable s s' h.0 p, h.1)
  quiet_end stable s (returned r) s' p h = h
  quiet_end stable s (raised e) s' p h = (stable s s' h.0 p, h.1)

module _ {A : Type 0} {P : Rt → Type 0} {K : ExnKind → Bool} {Φ : A → Type 0} where
  pub Quiet-Triple :
      (m : Exec A)
      → Stable P
      → Quiet K Φ m
      → Triple P m (λ a u. P u × Φ a) Never (λ e u. P u × (K e.kind ≡ true))
  Quiet-Triple m stable q = record {
    at = λ s p. quiet_end P K Φ stable s (m s).0 (m s).1 p (q.at s);
  }

-- What is known of the world where a quiet action goes on.
module _ {A : Type 0} (K : ExnKind → Bool) (Φ : Type 0) where
  ok_end : (s : Rt) (a : A) (o : Outcome A) (s' : Rt) → QuietEnd K (λ _. Φ) s o s' → o ≡ ok a → Φ
  ok_end s a (ok b) s' h e = h.1
  ok_end s a (returned r) s' h e = absurd h
  ok_end s a (raised x) s' h e = absurd (cc)

module _ {A : Type 0} {K : ExnKind → Bool} {Φ : Type 0} {m : Exec A} where
  pub Quiet-ok : {a : A} → Quiet K (λ _. Φ) m → (s : Rt) → (m s).0 ≡ ok a → Φ
  Quiet-ok {a = a} q s h = ok_end K Φ s a (m s).0 (m s).1 (q.at s) h
