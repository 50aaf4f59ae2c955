-- ===== src/Runtime/Machine/Legal.antt =====
-- The transitions in the documentation of `RuntimeState`, src/millforge/runtime.py, as a relation, and
-- `_transition_to`.
use mathlib.Core.Bool.{false≢true}
use millforge.Prelude.{
  String, sym, ◌∙◌, Bool, true, false, not, ◌&&◌, ◌||◌, ◌≡◌, refl, ◌⊎◌, inl, inr, Bool-cases,
  if◌then◌else◌, arith,
}
use millforge.Runtime.States.{RuntimeState, is_terminal}
use millforge.Runtime.States.RuntimeState.{
  received, verified, backend_session_constructed, running, terminal_intent_received, finalizing,
  completed, failed, interrupted,
}
use millforge.Runtime.Effects.{ExnKind, Outcome, Rt, ok, raised}
use millforge.Runtime.Machine.{forward, state_in, is_failure_target, transition_to}

-- The transitions in the documentation of `RuntimeState`.
pub data Step : RuntimeState → RuntimeState → Type 0 where
  verify : Step received verified
  construct : Step verified backend_session_constructed
  run : Step backend_session_constructed running
  receive_intent : Step running terminal_intent_received
  finalize_early : Step running finalizing
  finalize : Step terminal_intent_received finalizing
  complete : Step finalizing completed
  fail : {s : RuntimeState} → is_terminal s ≡ false → Step s failed
  interrupt : {s : RuntimeState} → is_terminal s ≡ false → Step s interrupted

abbrev legal : RuntimeState → RuntimeState → Bool
legal s target = not (is_terminal s) && (is_failure_target target || state_in target (forward s))

pick :
    {A : Type 0} (a b c : Bool) (x y z : A)
    → (not a && (b || c)) ≡ true
    → (if a then x else if b then y else if c then y else z) ≡ y
pick true b c x y z h = cc
pick false true c x y z h = refl
pick false false true x y z h = refl
pick false false false x y z h = cc

pub transition_legal :
    (target : RuntimeState) (s : Rt)
    → legal s.state target ≡ true
    → transition_to target s ≡ (ok tt, record s { state = target })
unfolding transition_to
transition_legal target s h =
    pick (is_terminal s.state) (is_failure_target target) (state_in target (forward s.state)) _ _ _
      h

-- `legal` is the documented relation.
legal-Step : (s t : RuntimeState) → legal s t ≡ true → Step s t
unfolding is_terminal forward state_in
legal-Step received verified h = verify
legal-Step verified backend_session_constructed h = construct
legal-Step backend_session_constructed running h = run
legal-Step running terminal_intent_received h = receive_intent
legal-Step running finalizing h = finalize_early
legal-Step terminal_intent_received finalizing h = finalize
legal-Step finalizing completed h = complete
legal-Step s failed h = fail (ground arith)
legal-Step s interrupted h = interrupt (ground arith)
legal-Step _ _ h = cc

pub Step-legal : {s t : RuntimeState} → Step s t → legal s t ≡ true
unfolding is_terminal forward state_in
Step-legal verify = refl
Step-legal construct = refl
Step-legal run = refl
Step-legal receive_intent = refl
Step-legal finalize_early = refl
Step-legal finalize = refl
Step-legal complete = refl
Step-legal (fail h) = rw h
Step-legal (interrupt h) = rw h

-- The exception with this text, and nothing changed.
abbrev pub refusal : String → Rt → Outcome Unit × Rt
refusal text s = (raised (record { kind = ExnKind.config_error; message = text }), s)

lose :
    (a b c : Bool) (e f : String) (y : Outcome Unit × Rt) (s : Rt)
    → (not a && (b || c)) ≡ false
    → (text : String) × ((if a then refusal e s else if b then y else if c then y else refusal f s)
        ≡ refusal text s)
lose true b c e f y s h = (e, refl)
lose false true c e f y s h = cc
lose false false true e f y s h = cc
lose false false false e f y s h = (f, refl)

refused :
    (target : RuntimeState) (s : Rt)
    → legal s.state target ≡ false
    → (text : String) × (transition_to target s ≡ refusal text s)
unfolding transition_to
refused target s h =
    lose (is_terminal s.state) (is_failure_target target) (state_in target (forward s.state)) _ _ _
      s h

-- A transition is made exactly where the documentation of `RuntimeState` has it: the machine is
-- then in the target state, with nothing else changed. Any other raises a `MillforgeConfigError`,
-- and changes nothing.
pub transition-iff-Step :
    (target : RuntimeState) (s : Rt)
    → (Step s.state target × (transition_to target s ≡ (ok tt, record s { state = target })))
      ⊎ ((¬ Step s.state target) × ((text : String) × (transition_to target s ≡ refusal text s)))
transition-iff-Step target s = elim (Bool-cases (legal s.state target)) [
  | inl h ↦ inl (legal-Step s.state target h, transition_legal target s h)
  | inr h ↦ inr (
      let (text, e) = refused target s h in
      (λ step. false≢true (sym h ∙ Step-legal step), (text, e)))
]
