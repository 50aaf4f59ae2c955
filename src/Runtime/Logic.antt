-- ===== src/Runtime/Logic.antt =====
-- Postconditions of the actions in which the runtime, src/millforge/runtime.py, is modelled, and
-- the rules for the ways to build an action.
use millforge.Prelude.{
  ℕ, ◌+◌, List, [], ◌∷◌, Bool, true, false, Option, none, some, ◌≡◌, refl, if◌then◌else◌,
}
use millforge.Runtime.Contracts.{HarnessExecutionResult}
use millforge.Runtime.Payloads.{Payload}
use millforge.Runtime.Effects.{
  Effect, Exec, Exn, Outcome, Rt, ok, returned, raised, ◌>>=◌, continue, try_except, catch, handle,
}

abbrev pub Returns : Type 1
Returns = HarnessExecutionResult → Rt → Type 0

abbrev pub Raises : Type 1
Raises = Exn → Rt → Type 0

-- The postcondition of an ending.
abbrev pub Holds : {A : Type 0} → (A → Rt → Type 0) → Returns → Raises → Outcome A → Rt → Type 0
Holds Q R E (ok a) s = Q a s
Holds Q R E (returned r) s = R r s
Holds Q R E (raised e) s = E e s

-- From a state with `P` the action ends with `Q`, returns with `R`, or raises with `E`.
pub record Triple {A : Type 0} (P : Rt → Type 0) (m : Exec A) (Q : A → Rt → Type 0) (R : Returns)
    (E : Raises) : Type 0 where
  pub at : (s : Rt) → P s → Holds Q R E (m s).0 (m s).1

module _ {A B : Type 0} {Q : A → Rt → Type 0} {S : B → Rt → Type 0} {R : Returns} {E : Raises} where
  Triple-continue :
      (f : A → Exec B)
      → ((a : A) → Triple (Q a) (f a) S R E)
      → (o : Outcome A) (s : Rt) → Holds Q R E o s
      → Holds S R E (continue o f s).0 (continue o f s).1
  Triple-continue f next (ok a) s h = (next a).at s h
  Triple-continue f next (returned r) s h = h
  Triple-continue f next (raised e) s h = h

  pub Triple-bind :
      {P : Rt → Type 0} (m : Exec A) (f : A → Exec B)
      → Triple P m Q R E
      → ((a : A) → Triple (Q a) (f a) S R E)
      → Triple P (m >>= f) S R E
  unfolding ◌>>=◌
  Triple-bind m f first next = record {
    at = λ s h. Triple-continue f next (m s).0 (m s).1 (first.at s h);
  }

module _ {A : Type 0} (Q S : A → Rt → Type 0) (R T : Returns) (E F : Raises) where
  Holds-weaken :
      ((a : A) (s : Rt) → Q a s → S a s)
      → ((r : HarnessExecutionResult) (s : Rt) → R r s → T r s)
      → ((e : Exn) (s : Rt) → E e s → F e s)
      → (o : Outcome A) (s : Rt) → Holds Q R E o s
      → Holds S T F o s
  Holds-weaken q r e (ok a) s h = q a s h
  Holds-weaken q r e (returned x) s h = r x s h
  Holds-weaken q r e (raised x) s h = e x s h

module _ {A : Type 0} {Q S : A → Rt → Type 0} {R T : Returns} {E F : Raises} {P : Rt → Type 0} where
  pub Triple-weaken :
      {m : Exec A}
      → ((a : A) (s : Rt) → Q a s → S a s)
      → ((r : HarnessExecutionResult) (s : Rt) → R r s → T r s)
      → ((e : Exn) (s : Rt) → E e s → F e s)
      → Triple P m Q R E
      → Triple P m S T F
  Triple-weaken {m = m} q r e h = record {
    at = λ s p. Holds-weaken Q S R T E F q r e (m s).0 (m s).1 (h.at s p);
  }

-- A precondition may have more to it.
module _ {A : Type 0} {Q : A → Rt → Type 0} {R : Returns} {E : Raises} {P Φ : Rt → Type 0} where
  pub Triple-given : {m : Exec A} → Triple P m Q R E → Triple (λ s. P s × Φ s) m Q R E
  Triple-given h = record { at = λ s k. h.at s k.0 }

-- What the raises of an action meet, its handlers turn into the rest.
module _ {A : Type 0} (Q : A → Rt → Type 0) (R : Returns) (E F : Raises) where
  Triple-catch :
      (handlers : Exn → Option (Exec A))
      → ((e : Exn) (s : Rt)
          → E e s
          → Holds Q R F (handle (handlers e) e s).0 (handle (handlers e) e s).1)
      → (o : Outcome A) (s : Rt) → Holds Q R E o s
      → Holds Q R F (catch o handlers s).0 (catch o handlers s).1
  Triple-catch handlers each (ok a) s h = h
  Triple-catch handlers each (returned r) s h = h
  Triple-catch handlers each (raised e) s h = each e s h

  pub Triple-try :
      {P : Rt → Type 0} (m : Exec A) (handlers : Exn → Option (Exec A))
      → Triple P m Q R E
      → ((e : Exn) (s : Rt)
          → E e s
          → Holds Q R F (handle (handlers e) e s).0 (handle (handlers e) e s).1)
      → Triple P (try_except m handlers) Q R F
  unfolding try_except
  Triple-try m handlers first each = record {
    at = λ s h. Triple-catch handlers each (m s).0 (m s).1 (first.at s h);
  }

module _ {A : Type 0} (Q : A → Rt → Type 0) (R : Returns) (F : Raises) where
  -- A handler that catches what passes a test.
  pub handled_if :
      (test : Bool) (m : Exec A) (e : Exn) (s : Rt)
      → (test ≡ true → Holds Q R F (m s).0 (m s).1)
      → (test ≡ false → F e s)
      → Holds Q R F
          (handle (if test then some m else none) e s).0
          (handle (if test then some m else none) e s).1
  handled_if true m e s yes' no' = yes' refl
  handled_if false m e s yes' no' = no' refl

  pub Holds-either :
      (test : Bool) (m k : Outcome A × Rt)
      → Holds Q R F m.0 m.1
      → Holds Q R F k.0 k.1
      → Holds Q R F (if test then m else k).0 (if test then m else k).1
  Holds-either true m k h l = h
  Holds-either false m k h l = l

-- How many sessions were run, and how many terminal results were written.
abbrev session_of : Effect → ℕ
session_of (Effect.ran_session r) = 1
session_of _ = 0

abbrev pub is_terminal_result : Payload → Bool
is_terminal_result (Payload.terminal_result p) = true
is_terminal_result _ = false

abbrev commit_of : Effect → ℕ
commit_of (Effect.wrote ref payload) = if is_terminal_result payload then 1 else 0
commit_of _ = 0

unfoldable pub sessions : List Effect → ℕ
sessions [] = 0
sessions (e ∷ es) = session_of e + sessions es

unfoldable pub commits : List Effect → ℕ
commits [] = 0
commits (e ∷ es) = commit_of e + commits es
