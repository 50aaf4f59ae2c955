-- ===== src/Runtime/Preflight/Checks.antt =====
-- What the checks of src/millforge/runtime.py establish where they pass, and what they raise.
use millforge.Prelude.{
  not-false, String, List, [], ◌∷◌, Bool, true, false, not, Option, none, some, ◌≡◌, refl, str_eq,
  str_in, ◌==◌,
}
use millforge.Runtime.Contracts.{
  CompiledHarnessPlan, Deadline, HarnessExecutionRequest, Plane, plane_index,
}
use millforge.Runtime.Effects.{Env, ExnKind, IsoInstant}
use millforge.Runtime.Quiet.{
  Quiet, Quiet-pure, Quiet-raise, Quiet-weaken, Quiet-raise_if, Quiet-tick, Quiet-bind,
}
use millforge.Runtime.Preflight.{
  validate_request, verify_plan_identity, verify_plan_hash, check_stage, check_model_profile,
  check_capabilities, missing_capabilities, is_nil, read_cancelled, read_monotonic, read_utc,
  check_cancelled, check_deadline, checkpoint_invocation, check_iso_instant,
  check_absolute_deadline, deadline_from_timeout,
}

-- What the compiled plan has in common with the request.
pub record Admits (plan : CompiledHarnessPlan) (request : HarnessExecutionRequest) : Type 0 where
  pub harness_id : str_eq plan.harness_id request.compiled_harness.harness_id ≡ true
  pub harness_version : (plan.harness_version == request.compiled_harness.harness_version) ≡ true
  pub digest : str_eq plan.compiled_sha256 request.compiled_harness.digest ≡ true
  pub plane : request.stage.plane ≡ Plane.execution
  pub stage_kind : str_in request.stage.stage_kind_id plan.stage_kind_ids ≡ true
  pub model_profile : str_eq request.model_profile plan.model_profile ≡ true
  pub capabilities : missing_capabilities request.grants plan.required_capabilities ≡ []

nil_of_is_nil : (xs : List String) → not (is_nil xs) ≡ false → xs ≡ []
nil_of_is_nil [] h = refl
nil_of_is_nil (x ∷ xs) h = cc

execution_of_index :
    (p : Plane) → not (plane_index p == plane_index Plane.execution) ≡ false → p ≡ Plane.execution
execution_of_index Plane.execution h = refl
execution_of_index Plane.planning h = cc
execution_of_index Plane.learning h = cc

module _ {K : ExnKind → Bool} (request : HarnessExecutionRequest) where
  pub Quiet-validate_request :
      K ExnKind.config_error ≡ true → Quiet K (λ _. Unit {0}) (validate_request request)
  unfolding validate_request
  Quiet-validate_request c = Quiet-bind _ _ (Quiet-raise_if _ _ _ c) λ _ _.
      Quiet-bind _ _ (Quiet-raise_if _ _ _ c)
        λ _ _. Quiet-weaken _ (λ _ _. tt) (Quiet-raise_if _ _ _ c)

module _ {K : ExnKind → Bool} (plan : CompiledHarnessPlan) (request : HarnessExecutionRequest) where
  pub Quiet-verify_plan_identity :
      K ExnKind.harness_mismatch ≡ true
      → Quiet K
          (λ _.
            (str_eq plan.harness_id request.compiled_harness.harness_id ≡ true)
            × ((plan.harness_version == request.compiled_harness.harness_version) ≡ true))
          (verify_plan_identity plan request)
  unfolding verify_plan_identity
  Quiet-verify_plan_identity c = Quiet-bind _ _ (Quiet-raise_if _ _ _ c) λ _ id.
      Quiet-weaken _ (λ _ version. (not-false _ id, not-false _ version)) (Quiet-raise_if _ _ _ c)

  pub Quiet-verify_plan_hash :
      K ExnKind.harness_mismatch ≡ true
      → Quiet K
          (λ _. str_eq plan.compiled_sha256 request.compiled_harness.digest ≡ true)
          (verify_plan_hash plan request)
  unfolding verify_plan_hash
  Quiet-verify_plan_hash c = Quiet-weaken _ (λ _ h. not-false _ h) (Quiet-raise_if _ _ _ c)

  pub Quiet-check_stage :
      K ExnKind.config_error ≡ true
      → Quiet K
          (λ _.
            (request.stage.plane ≡ Plane.execution)
            × (str_in request.stage.stage_kind_id plan.stage_kind_ids ≡ true))
          (check_stage plan request)
  unfolding check_stage
  Quiet-check_stage c = Quiet-bind _ _ (Quiet-raise_if _ _ _ c) λ _ plane.
      Quiet-weaken _ (λ _ kind. (execution_of_index _ plane, not-false _ kind))
        (Quiet-raise_if _ _ _ c)

  pub Quiet-check_model_profile :
      K ExnKind.config_error ≡ true
      → Quiet K
          (λ _. str_eq request.model_profile plan.model_profile ≡ true)
          (check_model_profile plan request)
  unfolding check_model_profile
  Quiet-check_model_profile c = Quiet-weaken _ (λ _ h. not-false _ h) (Quiet-raise_if _ _ _ c)

  pub Quiet-check_capabilities :
      K ExnKind.config_error ≡ true
      → Quiet K
          (λ _. missing_capabilities request.grants plan.required_capabilities ≡ [])
          (check_capabilities plan request)
  unfolding check_capabilities
  Quiet-check_capabilities c = Quiet-weaken _ (λ _ h. nil_of_is_nil _ h) (Quiet-raise_if _ _ _ c)

module _ {K : ExnKind → Bool} (env : Env) where
  pub Quiet-read_cancelled : Quiet K (λ _. Unit {0}) (read_cancelled env)
  unfolding read_cancelled
  Quiet-read_cancelled = Quiet-bind _ _ Quiet-tick λ _ _. Quiet-pure _ tt

  pub Quiet-read_monotonic : Quiet K (λ _. Unit {0}) (read_monotonic env)
  unfolding read_monotonic
  Quiet-read_monotonic = Quiet-bind _ _ Quiet-tick λ _ _. Quiet-pure _ tt

  pub Quiet-read_utc : Quiet K (λ _. Unit {0}) (read_utc env)
  unfolding read_utc
  Quiet-read_utc = Quiet-bind _ _ Quiet-tick λ _ _. Quiet-pure _ tt

  pub Quiet-check_cancelled :
      K ExnKind.operation_cancelled ≡ true → Quiet K (λ _. Unit {0}) (check_cancelled env)
  unfolding check_cancelled
  Quiet-check_cancelled c =
      Quiet-bind _ _ Quiet-read_cancelled λ _ _. Quiet-weaken _ (λ _ _. tt) (Quiet-raise_if _ _ _ c)

  pub Quiet-check_deadline :
      (d : Deadline)
      → K ExnKind.deadline_exceeded ≡ true
      → Quiet K (λ _. Unit {0}) (check_deadline env d)
  unfolding check_deadline
  Quiet-check_deadline d c =
      Quiet-bind _ _ Quiet-read_monotonic λ _ _. Quiet-weaken _ (λ _ _. tt) (Quiet-raise_if _ _ _ c)

  pub Quiet-checkpoint :
      (d : Deadline)
      → K ExnKind.operation_cancelled ≡ true
      → K ExnKind.deadline_exceeded ≡ true
      → Quiet K (λ _. Unit {0}) (checkpoint_invocation env d)
  unfolding checkpoint_invocation
  Quiet-checkpoint d c e = Quiet-bind _ _ (Quiet-check_cancelled c) λ _ _. Quiet-check_deadline d e

  Quiet-check_iso :
      (i : IsoInstant)
      → K ExnKind.config_error ≡ true
      → K ExnKind.type_error ≡ true
      → K ExnKind.deadline_exceeded ≡ true
      → Quiet K (λ _. Unit {0}) (check_iso_instant env i)
  unfolding check_iso_instant
  Quiet-check_iso IsoInstant.invalid c t d = Quiet-raise _ _ c
  Quiet-check_iso IsoInstant.naive c t d = Quiet-bind _ _ Quiet-read_utc λ _ _. Quiet-raise _ _ t
  Quiet-check_iso (IsoInstant.aware n) c t d =
      Quiet-bind _ _ Quiet-read_utc λ _ _. Quiet-weaken _ (λ _ _. tt) (Quiet-raise_if _ _ _ d)

  Quiet-check_absolute :
      (text : Option String)
      → K ExnKind.config_error ≡ true
      → K ExnKind.type_error ≡ true
      → K ExnKind.deadline_exceeded ≡ true
      → Quiet K (λ _. Unit {0}) (check_absolute_deadline env text)
  unfolding check_absolute_deadline
  Quiet-check_absolute none c t d = Quiet-pure _ tt
  Quiet-check_absolute (some text) c t d = Quiet-check_iso (env.fromisoformat text) c t d

  pub Quiet-deadline_from_timeout :
      (seconds : _) (text : Option String)
      → K ExnKind.config_error ≡ true
      → K ExnKind.type_error ≡ true
      → K ExnKind.deadline_exceeded ≡ true
      → Quiet K (λ _. Unit {0}) (deadline_from_timeout env seconds text)
  unfolding deadline_from_timeout
  Quiet-deadline_from_timeout seconds text c t d =
      Quiet-bind _ _ Quiet-read_monotonic
        λ _ _. Quiet-bind _ _ (Quiet-check_absolute text c t d) λ _ _. Quiet-pure _ tt
