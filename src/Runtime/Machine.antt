-- ===== src/Runtime/Machine.antt =====
-- The state machine of src/millforge/runtime.py: `_transition_to` and
-- `_enter_non_terminal_finalizing`.
pub mod Legal
use millforge.Prelude.{List, [], ◌∷◌, Bool, true, false, ◌||◌, if◌then◌else◌}
use millforge.Runtime.States.{RuntimeState, is_terminal, state_eq}
use millforge.Runtime.Effects.{ExnKind, Exec, ok, raise, pure}
use millforge.Runtime.States.RuntimeState.{
  received, verified, backend_session_constructed, running, terminal_intent_received, finalizing,
  completed, failed, interrupted,
}

-- The table `forward`.
unfoldable pub forward : RuntimeState → List RuntimeState
forward received = verified ∷ []
forward verified = backend_session_constructed ∷ []
forward backend_session_constructed = running ∷ []
forward running = terminal_intent_received ∷ finalizing ∷ []
forward terminal_intent_received = finalizing ∷ []
forward finalizing = completed ∷ []
forward _ = []

unfoldable pub state_in : RuntimeState → List RuntimeState → Bool
state_in s [] = false
state_in s (t ∷ ts) = state_eq s t || state_in s ts

-- `target in (FAILED, INTERRUPTED)`
abbrev pub is_failure_target : RuntimeState → Bool
is_failure_target failed = true
is_failure_target interrupted = true
is_failure_target _ = false

abbrev set_state : RuntimeState → Exec Unit
set_state target s = (ok tt, record s { state = target })

unfoldable pub transition_to : RuntimeState → Exec Unit
unfolding is_terminal forward state_in raise
transition_to target s =
    if is_terminal s.state
    then raise ExnKind.config_error
        "Illegal transition from terminal state {current.value} → {target.value}" s
    else if is_failure_target target
    then set_state target s
    else if state_in target (forward s.state)
    then set_state target s
    else raise ExnKind.config_error "Illegal state transition: {current.value} → {target.value}" s

unfoldable pub enter_non_terminal_finalizing : Exec Unit
unfolding transition_to pure
enter_non_terminal_finalizing s =
    if state_eq s.state running then transition_to finalizing s else pure tt s
