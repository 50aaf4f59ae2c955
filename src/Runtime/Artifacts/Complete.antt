-- ===== src/Runtime/Artifacts/Complete.antt =====
-- `_write_artifacts` of src/millforge/runtime.py where nothing interrupts it.
use millforge.Prelude.{ℕ, ◌<◌, ◌+◌, List, false, none, ◌≡◌}
use millforge.Runtime.Contracts.{ArtifactRef, Deadline}
use millforge.Runtime.Payloads.{Payload}
use millforge.Runtime.Effects.{Env, Outcome, Rt, ok}
use millforge.Runtime.Artifacts.Order.{after_writes}
use millforge.Runtime.ArtifactRefs.{ArtifactId}

-- The token is not cancelled, the clock is below the deadline, and each write succeeds.
pub record Undisturbed (env : Env) (d : Deadline) : Type 0 where
  pub not_cancelled : (n : ℕ) → env.is_cancelled n ≡ false
  pub in_time : (n : ℕ) → env.monotonic n < d.effective_deadline_monotonic
  pub written : (ref : ArtifactRef) (payload : Payload) (n : ℕ) → env.write ref payload n ≡ none

-- An action ends normally, and has made these writes, in this order, and nothing else.
abbrev pub WroteAll : List (ArtifactId × Payload) → Rt → Outcome Unit × Rt → Type 0
WroteAll writes s (o, u) = (o ≡ ok tt) × (u.effects ≡ after_writes writes s.effects)

module _ (env : Env) (d : Deadline) (h : Undisturbed env d) where
  abbrev read_twice : Rt → Rt
  read_twice s = record s { readings = s.readings + 1 + 1 }
