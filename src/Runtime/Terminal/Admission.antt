-- ===== src/Runtime/Terminal/Admission.antt =====
-- What `_validate_terminal_intent` of src/millforge/runtime.py establishes where it passes, and
-- what it raises.
use millforge.Prelude.{
  not-false, String, List, [], ◌∷◌, Bool, true, false, Option, none, some, is_some, ◌≡◌, refl,
  str_eq, lookup, arith,
}
use millforge.Runtime.Contracts.{
  CompiledHarnessPlan, GuardedSessionRequest, GuardedSessionResult, HarnessExecutionRequest,
  SelectedOutput, SelectedOutputRequirement, TerminalIntent, TerminalSelectedOutputRequirement,
  bool_eq, stage_eq,
}
use millforge.Runtime.Effects.{Env, Exn, ExnKind, handle}
use millforge.Runtime.Quiet.{
  Quiet, Quiet-pure, Quiet-raise, Quiet-weaken, Quiet-raise_if, Quiet-bind, Quiet-try,
}
use millforge.Runtime.Terminal.{
  validate_session_result, requirements_from, requirements_by_terminal_result,
  value_error_as_config, check_no_selected_output, admitted_value, admit_selected_output,
  check_admission, check_selected_output, check_terminal_result, validate_terminal_intent,
}

-- What an accepted intent has in common with the request and the plan.
pub record AdmittedIntent (plan : CompiledHarnessPlan) (request : HarnessExecutionRequest)
    (intent : TerminalIntent) : Type 0 where
  pub request_id : str_eq intent.request_id request.request_id ≡ true
  pub run_id : str_eq intent.run_id request.run_id ≡ true
  pub stage : stage_eq intent.stage request.stage ≡ true
  pub declared :
      (r : String) × (lookup intent.terminal_node_id plan.terminal_result_map ≡ some r)
      × (str_eq intent.terminal_result r ≡ true)
  pub paired :
      bool_eq (is_some intent.selected_output) (is_some intent.selected_output_schema_sha256) ≡ true

abbrev value_only : ExnKind → Bool
value_only ExnKind.value_error = true
value_only ExnKind.validation_error = true
value_only _ = false

module _ {K : ExnKind → Bool} (c : K ExnKind.config_error ≡ true) where
  pub Quiet-validate_session_result :
      (a : GuardedSessionRequest) (b : GuardedSessionResult)
      → Quiet K (λ _. str_eq b.session_id a.session_id ≡ true) (validate_session_result a b)
  unfolding validate_session_result
  Quiet-validate_session_result a b = Quiet-weaken _ (λ _ h. not-false _ h) (Quiet-raise_if _ _ _ c)

  value_handled :
      {A : Type 0} {Φ : A → Type 0} (e : Exn)
      → value_only e.kind ≡ true
      → Quiet K Φ (handle (value_error_as_config e) e)
  unfolding value_error_as_config
  value_handled {A} {Φ} e h = go e.kind h
    where
      go :
          (k : ExnKind)
          → value_only k ≡ true
          → Quiet K Φ (
              handle {A = A}
                (value_error_as_config (record { kind = k; message = e.message }))
                (record { kind = k; message = e.message }))
      go ExnKind.value_error h = Quiet-raise _ _ c
      go ExnKind.validation_error h = Quiet-raise _ _ c
      go ExnKind.config_error h = cc
      go _ h = absurd (ground arith)

  Quiet-check_terminal_result :
      (intent : TerminalIntent) (found : Option String)
      → Quiet K
          (λ _. (r : String) × (found ≡ some r) × (str_eq intent.terminal_result r ≡ true))
          (check_terminal_result intent found)
  unfolding check_terminal_result
  Quiet-check_terminal_result intent none = Quiet-raise _ _ c
  Quiet-check_terminal_result intent (some r) =
      Quiet-weaken _ (λ _ h. (r, refl, not-false _ h)) (Quiet-raise_if _ _ _ c)

Quiet-requirements_from :
    (found : _) (rest : List TerminalSelectedOutputRequirement)
    → Quiet value_only (λ _. Unit {0}) (requirements_from found rest)
unfolding requirements_from
Quiet-requirements_from found [] = Quiet-pure _ tt
Quiet-requirements_from found (item ∷ rest) =
    Quiet-bind _ _ (Quiet-raise_if _ _ _ refl)
      λ _ _. Quiet-bind _ _ (Quiet-raise_if _ _ _ refl) λ _ _. Quiet-requirements_from _ rest

Quiet-requirements :
    (requirements : List TerminalSelectedOutputRequirement)
    → Quiet value_only (λ _. Unit {0}) (requirements_by_terminal_result requirements)
unfolding requirements_by_terminal_result
Quiet-requirements requirements =
    Quiet-bind _ _ (Quiet-raise_if _ _ _ refl) λ _ _. Quiet-requirements_from [] requirements

module _ (env : Env) where
  Quiet-admitted_value :
      (v : Option String) → Quiet value_only (λ _. Unit {0}) (admitted_value env v)
  Quiet-admitted_value none = Quiet-raise _ _ refl
  Quiet-admitted_value (some v) = Quiet-pure _ tt

  Quiet-admit_selected_output :
      (requirement : SelectedOutputRequirement) (output : SelectedOutput)
      → Quiet value_only (λ _. Unit {0}) (admit_selected_output env requirement output)
  unfolding admit_selected_output
  Quiet-admit_selected_output requirement SelectedOutput.absent =
      Quiet-bind _ _ (Quiet-raise_if _ _ _ refl) λ _ _. Quiet-pure _ tt
  Quiet-admit_selected_output requirement (SelectedOutput.present value) =
      Quiet-admitted_value (env.admit_value requirement value)

module _ {K : ExnKind → Bool} (env : Env) (c : K ExnKind.config_error ≡ true) where
  Quiet-check_admission :
      (requirement : SelectedOutputRequirement) (output : Option SelectedOutput)
      → Quiet K (λ _. is_some output ≡ true) (check_admission env requirement output)
  unfolding check_admission
  Quiet-check_admission requirement none = Quiet-raise _ _ c
  Quiet-check_admission requirement (some output) =
      Quiet-bind _ _
        (Quiet-try _ _ (Quiet-admit_selected_output env requirement output) (value_handled c))
        λ _ _. Quiet-weaken _ (λ _ _. refl) (Quiet-raise_if _ _ _ c)

  Quiet-check_selected_output :
      (intent : TerminalIntent) (requirement : Option SelectedOutputRequirement)
      → Quiet K
          (λ _.
            bool_eq (is_some intent.selected_output) (is_some intent.selected_output_schema_sha256)
            ≡ true)
          (check_selected_output env intent requirement)
  unfolding check_selected_output check_no_selected_output
  Quiet-check_selected_output intent none =
      Quiet-weaken _ (λ _ h. ground arith) (Quiet-raise_if _ _ _ c)
  Quiet-check_selected_output intent (some requirement) =
      Quiet-bind _ _ (Quiet-raise_if _ _ _ c) λ _ digest.
        Quiet-weaken _ (λ _ h. ground arith)
          (Quiet-check_admission requirement intent.selected_output)

  pub Quiet-validate_terminal_intent :
      (plan : CompiledHarnessPlan) (request : HarnessExecutionRequest) (intent : TerminalIntent)
      → Quiet K
          (λ _. AdmittedIntent plan request intent)
          (validate_terminal_intent env plan request intent)
  unfolding validate_terminal_intent
  Quiet-validate_terminal_intent plan request intent =
      Quiet-bind _ _ (Quiet-raise_if _ _ _ c) λ _ request_id.
        Quiet-bind _ _ (Quiet-raise_if _ _ _ c) λ _ run_id.
          Quiet-bind _ _ (Quiet-raise_if _ _ _ c) λ _ stage.
            Quiet-bind _ _ (Quiet-check_terminal_result c intent _) λ _ declared.
              Quiet-bind _ _ (Quiet-try _ _ (Quiet-requirements _) (value_handled c)) λ _ _.
                Quiet-weaken _
                  (λ _ paired. record {
                    request_id = not-false _ request_id;
                    run_id = not-false _ run_id;
                    stage = not-false _ stage;
                    declared = declared;
                    paired = paired;
                  })
                  (Quiet-check_selected_output intent _)
