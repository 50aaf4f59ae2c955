-- ===== src/Runtime/Preflight.antt =====
-- The checks of src/millforge/runtime.py that `execute` makes before it runs a session. A message
-- with interpolated values is kept as its template.
pub mod Checks
pub mod Inputs
use millforge.Prelude.{
  ℕ, String, List, [], ◌∷◌, ◌++◌, ◌+◌, Bool, true, false, not, ◌&&◌, ◌||◌, Option, none, some, ◌==◌,
  leb, str_eq, str_in, is_blank, if◌then◌else◌,
}
use millforge.Runtime.Contracts.{
  ArtifactRef, CompiledHarnessPlan, Deadline, FilePath, HarnessExecutionRequest, Plane, plane_index,
}
use millforge.Runtime.Effects.{
  Env, Exec, ExnKind, FsFailure, IsoInstant, Effect, Exn, ◌>>=◌, ◌>>◌, pure, throw, raise, raise_if,
  tick, try_except, from_fs, fs_exn, is_os_error, record_effect,
}

-- `_validate_request`
unfoldable pub validate_request : HarnessExecutionRequest → Exec Unit
validate_request request = do
  raise_if (is_blank request.request_id) ExnKind.config_error "request_id must be non-empty"
  raise_if (is_blank request.run_id) ExnKind.config_error "run_id must be non-empty"
  raise_if (is_blank request.work_item_id) ExnKind.config_error "work_item_id must be non-empty"

-- `_verify_plan_identity`
unfoldable pub verify_plan_identity : CompiledHarnessPlan → HarnessExecutionRequest → Exec Unit
verify_plan_identity plan request = do
  let ref = request.compiled_harness
  raise_if (not (str_eq plan.harness_id ref.harness_id)) ExnKind.harness_mismatch
      "Harness ID mismatch: plan={plan.harness_id!r} ref={ref.identity.harness_id!r}"
  raise_if (not (plan.harness_version == ref.harness_version)) ExnKind.harness_mismatch
      "Harness version mismatch: plan={plan.harness_version!r} ref={ref.identity.harness_version!r}"

-- `_verify_plan_hash`
unfoldable pub verify_plan_hash : CompiledHarnessPlan → HarnessExecutionRequest → Exec Unit
verify_plan_hash plan request =
    raise_if (not (str_eq plan.compiled_sha256 request.compiled_harness.digest))
      ExnKind.harness_mismatch
      "Compiled SHA-256 mismatch: plan={plan.compiled_sha256!r} expected={ref.expected_hash.digest!r}"

-- `_check_stage`
unfoldable pub check_stage : CompiledHarnessPlan → HarnessExecutionRequest → Exec Unit
check_stage plan request = do
  raise_if (not (plane_index request.stage.plane == plane_index Plane.execution))
      ExnKind.config_error
      "Incompatible stage plane: expected 'execution', got {request.stage.plane!r}"
  raise_if (not (str_in request.stage.stage_kind_id plan.stage_kind_ids)) ExnKind.config_error
      "Incompatible stage kind: {request.stage.stage_kind_id!r} not in compiled plan"

-- `_check_model_profile`
unfoldable pub check_model_profile : CompiledHarnessPlan → HarnessExecutionRequest → Exec Unit
check_model_profile plan request =
    raise_if (not (str_eq request.model_profile plan.model_profile)) ExnKind.config_error
      "Model profile mismatch: plan={plan.model_profile.profile_id!r} request={request.model_profile.profile_id!r}"

-- The required capabilities that are not granted.
unfoldable pub missing_capabilities : List String → List String → List String
missing_capabilities granted [] = []
missing_capabilities granted (capability ∷ rest) =
    let missing = missing_capabilities granted rest in
    if str_in capability granted then missing else capability ∷ missing

abbrev pub is_nil {ℓ} : {A : Type ℓ} → List A → Bool
is_nil [] = true
is_nil (x ∷ xs) = false

-- `_check_capabilities`
unfoldable pub check_capabilities : CompiledHarnessPlan → HarnessExecutionRequest → Exec Unit
check_capabilities plan request =
    raise_if (not (is_nil (missing_capabilities request.grants plan.required_capabilities)))
      ExnKind.config_error "Missing capability grants: {', '.join(missing)}"

-- `a / b` on paths
abbrev pub join_path : FilePath → FilePath → FilePath
join_path a b = if b.absolute then b else record a { parts = a.parts ++ b.parts }

abbrev pub millforge_dir : FilePath
millforge_dir = record { absolute = false; parts = "millforge" ∷ [] }

unfoldable pub starts_with_parts : List String → List String → Bool
starts_with_parts base [] = is_nil base
starts_with_parts [] (p ∷ ps) = true
starts_with_parts (b ∷ bs) (p ∷ ps) = str_eq b p && starts_with_parts bs ps

abbrev pub same_kind : Bool → Bool → Bool
same_kind true b = b
same_kind false b = not b

-- no `ValueError` from `candidate.relative_to(base)`
unfoldable pub is_relative_to : FilePath → FilePath → Bool
unfolding starts_with_parts
is_relative_to candidate base =
    same_kind candidate.absolute base.absolute && starts_with_parts base.parts candidate.parts

unfoldable pub path_in : FilePath → List FilePath → Bool
unfolding is_relative_to
path_in p [] = false
path_in p (q ∷ qs) = is_relative_to p q && is_relative_to q p || path_in p qs

module _ (env : Env) where
  -- `token.is_cancelled()`
  unfoldable pub read_cancelled : Exec Bool
  read_cancelled = do n ← tick; pure (env.is_cancelled n)

  -- `self._clock.monotonic()`
  unfoldable pub read_monotonic : Exec ℕ
  read_monotonic = do n ← tick; pure (env.monotonic n)

  -- `self._clock.utc_now()`
  unfoldable pub read_utc : Exec ℕ
  read_utc = do n ← tick; pure (env.utc_now n)

  -- `_check_cancelled`
  unfoldable pub check_cancelled : Exec Unit
  check_cancelled = do
    cancelled ← read_cancelled
    raise_if cancelled ExnKind.operation_cancelled "Request was cancelled before execution"

  -- `_check_deadline`
  unfoldable pub check_deadline : Deadline → Exec Unit
  check_deadline deadline = do
    now ← read_monotonic
    raise_if (leb deadline.effective_deadline_monotonic now) ExnKind.deadline_exceeded
        "Effective monotonic deadline has expired"

  -- `_checkpoint_invocation`
  unfoldable pub checkpoint_invocation : Deadline → Exec Unit
  checkpoint_invocation deadline = do check_cancelled; check_deadline deadline

  -- The comparison of the clock, which is aware, with a parsed deadline: Python raises a
  -- `TypeError` where one of two instants has no time zone.
  unfoldable pub check_iso_instant : IsoInstant → Exec Unit
  check_iso_instant IsoInstant.invalid =
      raise ExnKind.config_error "Invalid deadline format: {absolute_deadline!r}"
  check_iso_instant IsoInstant.naive = do
    now ← read_utc
    raise ExnKind.type_error "can't compare offset-naive and offset-aware datetimes"
  check_iso_instant (IsoInstant.aware instant) = do
    now ← read_utc
    raise_if (leb instant now) ExnKind.deadline_exceeded "Deadline {absolute_deadline} has expired"

  unfoldable pub check_absolute_deadline : Option String → Exec Unit
  check_absolute_deadline none = pure tt
  check_absolute_deadline (some text) = check_iso_instant (env.fromisoformat text)

  -- `_deadline_from_timeout`; the replacement of "Z" in the text is part of `fromisoformat` here
  unfoldable pub deadline_from_timeout : ℕ → Option String → Exec Deadline
  deadline_from_timeout timeout_seconds absolute_deadline = do
    started ← read_monotonic
    check_absolute_deadline absolute_deadline
    pure (record {
      started_monotonic = started;
      outer_deadline_monotonic = started + timeout_seconds;
      effective_deadline_monotonic = started + timeout_seconds;
    })

  -- The `except` clauses around `resolve(strict=True)`.
  unfoldable pub resolve_failure : ExnKind → Option (Exec FilePath)
  resolve_failure ExnKind.file_not_found = some (
      raise ExnKind.config_error "Input artifact {artifact.artifact_id!r} is missing: {ref_path!r}")
  resolve_failure ExnKind.os_error = some (
      raise ExnKind.config_error
        "Input artifact {artifact.artifact_id!r} cannot be resolved: {ref_path!r}: {e}")
  resolve_failure _ = none

  abbrev pub read_result : Option FsFailure → Exec Unit
  read_result none = pure tt
  read_result (some f) =
      if is_os_error (fs_exn f).kind
      then raise ExnKind.config_error
          "Input artifact {artifact.artifact_id!r} is not readable: {ref_path!r}: {e}"
      else throw (fs_exn f)

  -- `candidate.open("rb")`, and a read of one byte
  unfoldable pub check_readable : FilePath → Exec Unit
  check_readable candidate = read_result (env.read_first_byte candidate)

  -- One round of the loop of `_check_input_artifacts`: the paths resolved so far, and then this one.
  unfoldable pub check_input_artifact :
      FilePath → FilePath → List FilePath → ArtifactRef → Exec (List FilePath)
  check_input_artifact run_path base resolved artifact = do
    raise_if artifact.path.absolute ExnKind.config_error
        "Input artifact {artifact.artifact_id!r} uses an absolute path: {ref_path!r}"
    raise_if (str_in ".." artifact.path.parts) ExnKind.config_error
        "Input artifact {artifact.artifact_id!r} contains parent traversal: {ref_path!r}"
    candidate ←
        try_except (from_fs (env.resolve_strict (join_path run_path artifact.path)))
          (λ e. resolve_failure e.kind)
    raise_if (not (is_relative_to candidate base)) ExnKind.config_error
        "Input artifact {artifact.artifact_id!r} resolves outside millforge/: {ref_path!r}"
    raise_if (path_in candidate resolved) ExnKind.config_error
        "Input artifact path is reused by multiple admitted artifacts: {ref_path!r}"
    is_file ← from_fs (env.is_file candidate)
    raise_if (not is_file) ExnKind.config_error
        "Input artifact {artifact.artifact_id!r} is not a file: {ref_path!r}"
    check_readable candidate
    pure (candidate ∷ resolved)

  unfoldable pub check_artifacts_from :
      FilePath → FilePath → List FilePath → List ArtifactRef → Exec Unit
  check_artifacts_from run_path base resolved [] = pure tt
  check_artifacts_from run_path base resolved (artifact ∷ rest) = do
    resolved' ← check_input_artifact run_path base resolved artifact
    check_artifacts_from run_path base resolved' rest

  -- `_check_input_artifacts`
  unfoldable pub check_input_artifacts : HarnessExecutionRequest → Exec Unit
  check_input_artifacts request = do
    let run_path = request.run_directory.path
    base ← from_fs (env.resolve (join_path run_path millforge_dir))
    check_artifacts_from run_path base [] request.input_artifacts

  abbrev pub mkdir_result : FilePath → Option FsFailure → Exec Unit
  mkdir_result path none = record_effect (Effect.prepared_directory path)
  mkdir_result path (some f) = throw (fs_exn f)

  -- `(run_path / "millforge").mkdir(parents=True, exist_ok=True)`
  unfoldable pub make_millforge_dir : FilePath → Exec Unit
  make_millforge_dir run_path =
      let path = join_path run_path millforge_dir in mkdir_result path (env.mkdir path)

  -- `run_path.is_dir()`, which is called where the path exists only
  abbrev pub is_dir_if : FilePath → Bool → Exec Bool
  is_dir_if run_path true = from_fs (env.is_dir run_path)
  is_dir_if run_path false = pure true

  -- The body of the `try` statement of `_prepare_run_directory`, and its clauses.
  unfoldable pub make_run_directory : FilePath → Exec Unit
  make_run_directory run_path = do
    exists ← from_fs (env.exists run_path)
    is_dir ← is_dir_if run_path exists
    raise_if (not is_dir) ExnKind.config_error "Run directory path is not a directory: {run_path!r}"
    make_millforge_dir run_path

  unfoldable pub prepare_failure : ExnKind → Option (Exec Unit)
  prepare_failure kind =
      if is_os_error kind
      then some (raise ExnKind.config_error "Run directory preparation failed: {run_path!r}: {e}")
      else none

  -- `_prepare_run_directory`
  unfoldable pub prepare_run_directory : HarnessExecutionRequest → Exec Unit
  prepare_run_directory request = do
    raise_if (not (str_eq request.run_directory.run_id request.run_id)) ExnKind.config_error
        "Run directory run_id must match execution request run_id"
    try_except (make_run_directory request.run_directory.path) (λ e. prepare_failure e.kind)
