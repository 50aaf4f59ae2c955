-- ===== src/Runtime/Terminal.antt =====
-- `_validate_session_result` and `_validate_terminal_intent` of src/millforge/runtime.py, with
-- `_selected_output_requirements_by_terminal_result` and `admit_selected_output` of
-- src/millforge/contracts.py.
pub mod Admission
use millforge.Prelude.{
  String, List, [], ◌∷◌, ◌++◌, not, ◌||◌, Option, none, some, is_some, ltb, length, str_eq,
  is_blank, lookup,
}
use millforge.Runtime.Contracts.{
  CompiledHarnessPlan, GuardedSessionRequest, GuardedSessionResult, HarnessExecutionRequest,
  SelectedOutput, SelectedOutputRequirement, TerminalIntent, TerminalSelectedOutputRequirement,
  optional_str_eq, selected_output_eq, stage_eq,
}
use millforge.Runtime.Effects.{
  Env, Exec, Exn, ExnKind, ◌>>=◌, ◌>>◌, pure, raise, raise_if, try_except,
}

-- `_validate_session_result`
unfoldable pub validate_session_result : GuardedSessionRequest → GuardedSessionResult → Exec Unit
validate_session_result session_request session_result =
    raise_if (not (str_eq session_result.session_id session_request.session_id))
      ExnKind.config_error
      "Backend returned mismatched session_id: {session_result.session_id!r} != {session_request.session_id!r}"

abbrev Requirements : Type 0
Requirements = List (String × SelectedOutputRequirement)

-- The loop over the requirements; the dictionary so far, and then the rest.
unfoldable pub requirements_from :
    Requirements → List TerminalSelectedOutputRequirement → Exec Requirements
requirements_from found [] = pure found
requirements_from found (item ∷ rest) = do
  raise_if (is_blank item.terminal_result) ExnKind.value_error
      "terminal_result must be a non-empty string"
  raise_if (is_some (lookup item.terminal_result found)) ExnKind.value_error
      "selected output terminal_result values must be unique"
  requirements_from (found ++ (item.terminal_result, item.selected_output) ∷ []) rest

-- `_selected_output_requirements_by_terminal_result`; the order of the dictionary, which is sorted
-- at the end, is of no account to the caller here, who only looks a key up
unfoldable pub requirements_by_terminal_result :
    List TerminalSelectedOutputRequirement → Exec Requirements
requirements_by_terminal_result requirements = do
  raise_if (ltb 64 (length requirements)) ExnKind.value_error
      "selected output requirements exceed the 64-record ceiling"
  requirements_from [] requirements

-- `except ValueError as exc: raise MillforgeConfigError(str(exc))`
unfoldable pub value_error_as_config : {A : Type 0} → Exn → Option (Exec A)
value_error_as_config e = elim e.kind [
  | ExnKind.value_error ↦ some (raise ExnKind.config_error e.message)
  | ExnKind.validation_error ↦ some (raise ExnKind.config_error e.message)
  | _ ↦ none
]

-- No selected output where the request gives no authority for one.
unfoldable pub check_no_selected_output : TerminalIntent → Exec Unit
check_no_selected_output intent =
    raise_if (is_some intent.selected_output || is_some intent.selected_output_schema_sha256)
      ExnKind.config_error "terminal_intent selected output exceeds request authority"

-- The terminal result that the compiled plan declares for the node.
unfoldable pub check_terminal_result : TerminalIntent → Option String → Exec Unit
check_terminal_result intent none =
    raise ExnKind.config_error "terminal_intent.terminal_node_id is not declared by compiled plan"
check_terminal_result intent (some expected) =
    raise_if (not (str_eq intent.terminal_result expected)) ExnKind.config_error
      "terminal_intent.terminal_result does not match compiled plan"

module _ (env : Env) where
  abbrev pub admitted_value : Option String → Exec SelectedOutput
  admitted_value none =
      raise ExnKind.value_error "selected output candidate failed schema validation: {error}"
  admitted_value (some value) = pure (SelectedOutput.present value)

  -- `admit_selected_output`, at what `present` and `value` are in the two calls
  unfoldable pub admit_selected_output :
      SelectedOutputRequirement → SelectedOutput → Exec SelectedOutput
  admit_selected_output requirement SelectedOutput.absent = do
    raise_if requirement.required ExnKind.value_error
        "required selected output candidate is missing"
    pure SelectedOutput.absent
  admit_selected_output requirement (SelectedOutput.present value) =
      admitted_value (env.admit_value requirement value)

  unfoldable pub check_admission : SelectedOutputRequirement → Option SelectedOutput → Exec Unit
  check_admission requirement none =
      raise ExnKind.config_error "terminal_intent is missing selected output admission state"
  check_admission requirement (some selected_output) = do
    admitted ← try_except (admit_selected_output requirement selected_output) value_error_as_config
    raise_if (not (selected_output_eq admitted selected_output)) ExnKind.config_error
        "terminal_intent selected output is not canonically admitted"

  unfoldable pub check_selected_output :
      TerminalIntent → Option SelectedOutputRequirement → Exec Unit
  check_selected_output intent none = check_no_selected_output intent
  check_selected_output intent (some requirement) = do
    raise_if
        (not
          (optional_str_eq intent.selected_output_schema_sha256 (some requirement.schema_sha256)))
        ExnKind.config_error "terminal_intent selected schema digest must match request"
    check_admission requirement intent.selected_output

  -- `_validate_terminal_intent`
  unfoldable pub validate_terminal_intent :
      CompiledHarnessPlan → HarnessExecutionRequest → TerminalIntent → Exec Unit
  validate_terminal_intent plan request intent = do
    raise_if (not (str_eq intent.request_id request.request_id)) ExnKind.config_error
        "terminal_intent.request_id must match request"
    raise_if (not (str_eq intent.run_id request.run_id)) ExnKind.config_error
        "terminal_intent.run_id must match request"
    raise_if (not (stage_eq intent.stage request.stage)) ExnKind.config_error
        "terminal_intent.stage must match request"
    check_terminal_result intent (lookup intent.terminal_node_id plan.terminal_result_map)
    requirements ←
        try_except (requirements_by_terminal_result request.selected_output_requirements)
          value_error_as_config
    check_selected_output intent (lookup intent.terminal_result requirements)
