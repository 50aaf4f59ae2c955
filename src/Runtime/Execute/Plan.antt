-- ===== src/Runtime/Execute/Plan.antt =====
-- Steps 6 to 12 of `execute` in src/millforge/runtime.py: the run directory, the compiled plan and the
-- session request.
use millforge.Prelude.{ℕ, Bool, true, ◌≡◌, refl}
use millforge.Runtime.States.{RuntimeState, is_terminal}
use millforge.Runtime.Contracts.{CompiledHarnessPlan, Deadline, HarnessExecutionRequest}
use millforge.Runtime.Effects.{Call, Env, Exec, ExnKind, Rt, from_call, ◌>>=◌}
use millforge.Runtime.Logic.{Triple, sessions, commits}
use millforge.Runtime.Quiet.{
  Quiet, Quiet-pure, Quiet-bind, Quiet-tick, Quiet-read_fs, Quiet-record_effect, Same-refl,
}
use millforge.Runtime.Preflight.Checks.{
  Admits, Quiet-check_capabilities, Quiet-check_model_profile, Quiet-check_stage, Quiet-checkpoint,
  Quiet-deadline_from_timeout, Quiet-read_cancelled, Quiet-read_monotonic, Quiet-verify_plan_hash,
  Quiet-verify_plan_identity,
}
use millforge.Runtime.Preflight.Inputs.{Quiet-check_input_artifacts, Quiet-prepare_run_directory}
use millforge.Runtime.Clauses.{Clauses, checked_clauses, load_clauses, mismatch_clauses}
use millforge.Runtime.Machine.Legal.{Step}
use millforge.Runtime.Guard.{guarded}
use millforge.Runtime.Guard.Endings.{At, covers}
use millforge.Runtime.Results.Endings.{Failed}
use millforge.Runtime.Results.Finalizers.{Escaped}
use millforge.Runtime.Execute.Admission.{
  Quiet-between, Quiet-set_prepared, Stage, Stage-bind, Stage-guarded, Stage-then, load-covers,
}
use millforge.Runtime.Steps.{
  admit_plan, between_checkpoints, build_tool_execution_context, construct_session, load_plan,
  prepare_run,
}

-- The plan loader gave this plan for the harness of the request, and the checks have admitted it.
pub record Authorised (env : Env) (request : HarnessExecutionRequest) (plan : CompiledHarnessPlan)
    : Type 0 where
  pub loaded : (k : ℕ) × (env.load request.compiled_harness k ≡ Call.gives plan)
  pub admitted : Admits plan request

abbrev Loaded : Env → HarnessExecutionRequest → CompiledHarnessPlan → Type 0
Loaded env request plan = (k : ℕ) × (env.load request.compiled_harness k ≡ Call.gives plan)

module _ (env : Env) (request : HarnessExecutionRequest) where
  Quiet-Loaded :
      (k : ℕ) (c : Call CompiledHarnessPlan)
      → env.load request.compiled_harness k ≡ c
      → Quiet (covers load_clauses) (Loaded env request) (from_call c)
  unfolding from_call
  Quiet-Loaded k (Call.gives plan) h = record { at = λ s. (Same-refl s, (k, h)) }
  Quiet-Loaded k (Call.throws e) h = record { at = λ s. (Same-refl s, load-covers e.kind) }

  Quiet-load_plan : Quiet (covers load_clauses) (Loaded env request) (load_plan env request)
  unfolding load_plan sessions commits
  Quiet-load_plan = Quiet-bind _ _ Quiet-tick λ k _.
      Quiet-bind _ _ (Quiet-Loaded k _ refl)
        λ plan h. Quiet-bind _ _ (Quiet-record_effect _ refl refl) λ _ _. Quiet-pure plan h

module _ (env : Env) (request : HarnessExecutionRequest) (n t : ℕ) where
  pub Stage-prepare_run :
      (d : Deadline)
      → Stage env request n t RuntimeState.received (λ _. Unit {0}) (prepare_run env request d)
  unfolding prepare_run checked_clauses is_terminal
  Stage-prepare_run d = Stage-guarded env request n t _ _ _ _ refl (
      Quiet-between env request d _ refl refl (
        Quiet-bind _ _ (Quiet-prepare_run_directory env refl refl refl refl request)
          λ _ _. Quiet-set_prepared))

  -- A check between two checkpoints, and what follows where it passes.
  after :
      {A B : Type 0} {Φ : A → Type 0} {Q : B → Rt → Type 0} (clauses : Clauses) (message : _)
      (d : Deadline) {check : Exec A} {f : A → Exec B}
      → covers clauses ExnKind.operation_cancelled ≡ true
      → covers clauses ExnKind.deadline_exceeded ≡ true
      → Quiet (covers clauses) Φ check
      → ((a : A)
          → Φ a
          → Triple (At RuntimeState.received n t) (f a) Q (Failed request n t) (Escaped n t))
      → Triple
          (At RuntimeState.received n t)
          (guarded env request clauses message (between_checkpoints env request d check) >>= f)
          Q
          (Failed request n t)
          (Escaped n t)
  unfolding is_terminal
  after clauses message d c e q next =
      Stage-bind env request n t _ _
        (Stage-guarded env request n t _ clauses message _ refl
          (Quiet-between env request d _ c e q))
        next

  -- The plan is admitted, and the machine has verified it.
  pub admit_plan-Authorised :
      (d : Deadline)
      → Triple
          (At RuntimeState.received n t)
          (admit_plan env request d)
          (λ plan s. At RuntimeState.verified n t s × Authorised env request plan)
          (Failed request n t)
          (Escaped n t)
  unfolding admit_plan mismatch_clauses checked_clauses load_clauses is_terminal
  admit_plan-Authorised d = after _ _ d refl refl (Quiet-load_plan env request) λ plan loaded.
      after _ _ d refl refl (Quiet-verify_plan_identity plan request refl) λ _ identity.
        after _ _ d refl refl (Quiet-verify_plan_hash plan request refl) λ _ digest.
          after _ _ d refl refl (Quiet-check_stage plan request refl) λ _ stage.
            after _ _ d refl refl (Quiet-check_model_profile plan request refl) λ _ profile.
              after _ _ d refl refl (Quiet-check_capabilities plan request refl) λ _ capabilities.
                after _ _ d refl refl (Quiet-check_input_artifacts env refl refl refl refl request)
                  λ _ _.
                    Stage-then env request n t _ RuntimeState.verified plan Step.verify (record {
                      loaded = loaded;
                      admitted = record {
                        harness_id = identity.0;
                        harness_version = identity.1;
                        digest = digest;
                        plane = stage.0;
                        stage_kind = stage.1;
                        model_profile = profile;
                        capabilities = capabilities;
                      };
                    })

  Quiet-context :
      {K : ExnKind → Bool} (plan : CompiledHarnessPlan) (d : Deadline)
      (cancellation_requested : Bool)
      → K ExnKind.file_not_found ≡ true
      → K ExnKind.os_error ≡ true
      → K ExnKind.other_exception ≡ true
      → Quiet K
          (λ _. Unit {0})
          (build_tool_execution_context env request plan d cancellation_requested)
  unfolding build_tool_execution_context
  Quiet-context plan d cancellation_requested f o x =
      Quiet-bind _ _ (Quiet-read_fs f o x _)
        λ _ _. Quiet-bind _ _ (Quiet-read_monotonic env) λ _ _. Quiet-pure _ tt

  pub construct_session-At :
      (plan : CompiledHarnessPlan) (d : Deadline)
      → Triple
          (At RuntimeState.verified n t)
          (construct_session env request plan d)
          (λ _ s. At RuntimeState.backend_session_constructed n t s × Unit {0})
          (Failed request n t)
          (Escaped n t)
  unfolding construct_session checked_clauses is_terminal
  construct_session-At plan d =
      Stage-bind env request n t {Φ = λ _. Unit {0}} _ _
        (Stage-guarded env request n t _ _ _ _ refl (
          Quiet-bind _ _ (Quiet-checkpoint env d refl refl) λ _ _. Quiet-bind _ _ Quiet-tick λ _ _.
            Quiet-bind _ _ (Quiet-deadline_from_timeout env _ _ refl refl refl) λ d' _.
              Quiet-bind _ _ (Quiet-read_cancelled env) λ _ _.
                Quiet-bind _ _ (Quiet-context plan d' _ refl refl refl)
                  λ _ _. Quiet-bind _ _ (Quiet-checkpoint env d' refl refl) λ _ _. Quiet-pure _ tt))
        λ session_request _.
          Stage-then env request n t _ RuntimeState.backend_session_constructed session_request
            Step.construct tt
