-- ===== src/Runtime/Preflight/Inputs.antt =====
-- `_check_input_artifacts` and `_prepare_run_directory` of src/millforge/runtime.py: what they raise.
use millforge.Prelude.{
  not-false, ◌∙◌, List, [], ◌∷◌, Bool, true, false, Option, none, some, ◌⊎◌, inl, inr, ◌≡◌, refl,
  str_in, arith,
}
use mathlib.Core.Path.{ap, subst}
use millforge.Runtime.Contracts.{ArtifactRef, FilePath, HarnessExecutionRequest}
use millforge.Runtime.Effects.{
  Env, ExnKind, Rt, ok, FsFailure, fs_exn, from_fs, handle, is_os_error, raise, try_except,
}
use millforge.Runtime.Quiet.{
  Quiet, Quiet-ok, Same-refl, any_kind, Quiet-pure, Quiet-raise, Quiet-throw, Quiet-weaken,
  Quiet-raise_if, Quiet-bind, Quiet-record_effect, Quiet-read_fs, Quiet-try,
}
use millforge.Runtime.Logic.{sessions, commits}
use millforge.Runtime.Preflight.{
  read_result, mkdir_result, resolve_failure, check_readable, check_input_artifact,
  check_artifacts_from, check_input_artifacts, make_millforge_dir, make_run_directory,
  prepare_failure, is_dir_if, prepare_run_directory, join_path, millforge_dir, is_relative_to,
  path_in,
}

-- One input artifact that is a file of the run's own directory, and no earlier one.
pub record Confined (env : Env) (run_path base : FilePath) (earlier : List FilePath)
    (artifact : ArtifactRef) (candidate : FilePath) : Type 0 where
  pub relative : artifact.path.absolute ≡ false
  pub no_parent : str_in ".." artifact.path.parts ≡ false
  pub found : env.resolve_strict (join_path run_path artifact.path) ≡ inr candidate
  pub inside : is_relative_to candidate base ≡ true
  pub fresh : path_in candidate earlier ≡ false
  pub file : env.is_file candidate ≡ inr true

-- All the artifacts of a list are, each against those before it.
pub data AllConfined (env : Env) (run_path base : FilePath)
    : List FilePath → List ArtifactRef → Type 0 where
  no_more : {earlier : List FilePath} → AllConfined env run_path base earlier []
  one_more :
      {earlier : List FilePath} {artifact : ArtifactRef} {rest : List ArtifactRef}
      (candidate : FilePath)
      → Confined env run_path base earlier artifact candidate
      → AllConfined env run_path base (candidate ∷ earlier) rest
      → AllConfined env run_path base earlier (artifact ∷ rest)

-- The artifacts are confined to the resolved `millforge` directory of the run.
abbrev pub InputsConfined : Env → HarnessExecutionRequest → Type 0
InputsConfined env request =
    (base : FilePath) × (env.resolve (join_path request.run_directory.path millforge_dir)
      ≡ inr base)
    × AllConfined env request.run_directory.path base [] request.input_artifacts

-- What the body of the `try` statement of `_prepare_run_directory` raises.
abbrev prepare_kind : ExnKind → Bool
prepare_kind ExnKind.config_error = true
prepare_kind ExnKind.file_not_found = true
prepare_kind ExnKind.os_error = true
prepare_kind ExnKind.other_exception = true
prepare_kind _ = false

module _ (env : Env) where
  Quiet-mkdir_result :
      (path : FilePath) (r : Option FsFailure)
      → Quiet prepare_kind (λ _. Unit {0}) (mkdir_result env path r)
  unfolding fs_exn sessions commits
  Quiet-mkdir_result path none = Quiet-record_effect _ refl refl
  Quiet-mkdir_result path (some (FsFailure.not_found m)) = Quiet-throw _ refl
  Quiet-mkdir_result path (some (FsFailure.os_failure m)) = Quiet-throw _ refl
  Quiet-mkdir_result path (some (FsFailure.other_failure m)) = Quiet-throw _ refl

  Quiet-is_dir_if :
      (run_path : FilePath) (exists : Bool)
      → Quiet prepare_kind (λ _. Unit {0}) (is_dir_if env run_path exists)
  Quiet-is_dir_if run_path true = Quiet-weaken _ (λ _ _. tt) (Quiet-read_fs refl refl refl _)
  Quiet-is_dir_if run_path false = Quiet-pure _ tt

  Quiet-make_run_directory :
      (run_path : FilePath) → Quiet prepare_kind (λ _. Unit {0}) (make_run_directory env run_path)
  unfolding make_run_directory make_millforge_dir
  Quiet-make_run_directory run_path =
      Quiet-bind _ _ (Quiet-read_fs refl refl refl (env.exists run_path)) λ exists _.
        Quiet-bind _ _ (Quiet-is_dir_if run_path exists) λ _ _.
          Quiet-bind _ _ (Quiet-raise_if _ _ _ refl)
            λ _ _. Quiet-mkdir_result _ (env.mkdir (join_path run_path millforge_dir))

module _ {K : ExnKind → Bool} (env : Env) (c : K ExnKind.config_error ≡ true)
    (f : K ExnKind.file_not_found ≡ true) (o : K ExnKind.os_error ≡ true)
    (x : K ExnKind.other_exception ≡ true) where
  Quiet-resolve :
      (r : FsFailure ⊎ FilePath)
      → Quiet K (λ path. r ≡ inr path) (try_except (from_fs r) (λ e. resolve_failure env e.kind))
  unfolding try_except from_fs fs_exn resolve_failure raise
  Quiet-resolve (inr path) = record { at = λ s. (Same-refl s, refl) }
  Quiet-resolve (inl (FsFailure.not_found m)) = record { at = λ s. (Same-refl s, c) }
  Quiet-resolve (inl (FsFailure.os_failure m)) = record { at = λ s. (Same-refl s, c) }
  Quiet-resolve (inl (FsFailure.other_failure m)) = record { at = λ s. (Same-refl s, x) }

  Quiet-read_result : (r : Option FsFailure) → Quiet K (λ _. Unit {0}) (read_result env r)
  unfolding fs_exn is_os_error
  Quiet-read_result none = Quiet-pure _ tt
  Quiet-read_result (some (FsFailure.not_found m)) = Quiet-raise _ _ c
  Quiet-read_result (some (FsFailure.os_failure m)) = Quiet-raise _ _ c
  Quiet-read_result (some (FsFailure.other_failure m)) = Quiet-throw _ x

  Quiet-check_readable : (path : FilePath) → Quiet K (λ _. Unit {0}) (check_readable env path)
  unfolding check_readable
  Quiet-check_readable path = Quiet-read_result (env.read_first_byte path)

  Quiet-check_input_artifact :
      (run_path base : FilePath) (resolved : List FilePath) (artifact : ArtifactRef)
      → Quiet K
          (λ resolved'.
            (candidate : FilePath) × (resolved' ≡ candidate ∷ resolved)
            × Confined env run_path base resolved artifact candidate)
          (check_input_artifact env run_path base resolved artifact)
  unfolding check_input_artifact
  Quiet-check_input_artifact run_path base resolved artifact =
      Quiet-bind _ _ (Quiet-raise_if _ _ _ c) λ _ relative.
        Quiet-bind _ _ (Quiet-raise_if _ _ _ c) λ _ no_parent.
          Quiet-bind _ _ (Quiet-resolve _) λ candidate found.
            Quiet-bind _ _ (Quiet-raise_if _ _ _ c) λ _ inside.
              Quiet-bind _ _ (Quiet-raise_if _ _ _ c) λ _ fresh.
                Quiet-bind _ _ (Quiet-read_fs f o x (env.is_file candidate)) λ _ file.
                  Quiet-bind _ _ (Quiet-raise_if _ _ _ c) λ _ is_file.
                    Quiet-bind _ _ (Quiet-check_readable candidate) λ _ _. Quiet-pure _ (
                      candidate,
                      refl,
                      record {
                        relative = relative;
                        no_parent = no_parent;
                        found = found;
                        inside = not-false _ inside;
                        fresh = fresh;
                        file = file ∙ ap inr (not-false _ is_file);
                      },
                    )

  Quiet-check_artifacts_from :
      (run_path base : FilePath) (resolved : List FilePath) (artifacts : List ArtifactRef)
      → Quiet K
          (λ _. AllConfined env run_path base resolved artifacts)
          (check_artifacts_from env run_path base resolved artifacts)
  unfolding check_artifacts_from
  Quiet-check_artifacts_from run_path base resolved [] = Quiet-pure _ AllConfined.no_more
  Quiet-check_artifacts_from run_path base resolved (artifact ∷ rest) =
      Quiet-bind _ _ (Quiet-check_input_artifact run_path base resolved artifact) λ resolved' h.
        let (candidate, e, confined) = h in
        Quiet-weaken _
          (λ _ more.
            AllConfined.one_more candidate confined
              (subst (λ ps. AllConfined env run_path base ps rest) e more))
          (Quiet-check_artifacts_from run_path base resolved' rest)

  pub Quiet-check_input_artifacts :
      (request : HarnessExecutionRequest)
      → Quiet K (λ _. InputsConfined env request) (check_input_artifacts env request)
  unfolding check_input_artifacts
  Quiet-check_input_artifacts request =
      Quiet-bind _ _ (Quiet-read_fs f o x (env.resolve _)) λ base found.
        Quiet-weaken _ (λ _ h. (base, found, h))
          (Quiet-check_artifacts_from _ base [] request.input_artifacts)

  prepare_handled :
      (kind : ExnKind) (text : _)
      → prepare_kind kind ≡ true
      → Quiet K
          (λ _. Unit {0})
          (handle (prepare_failure env kind) (record { kind = kind; message = text }))
  unfolding prepare_failure is_os_error
  prepare_handled ExnKind.config_error text h = record { at = λ s. (Same-refl s, c) }
  prepare_handled ExnKind.file_not_found text h = Quiet-raise _ _ c
  prepare_handled ExnKind.os_error text h = Quiet-raise _ _ c
  prepare_handled ExnKind.other_exception text h = record { at = λ s. (Same-refl s, x) }
  prepare_handled _ text h = absurd (ground arith)

  pub Quiet-prepare_run_directory :
      (request : HarnessExecutionRequest)
      → Quiet K (λ _. Unit {0}) (prepare_run_directory env request)
  unfolding prepare_run_directory
  Quiet-prepare_run_directory request = Quiet-bind _ _ (Quiet-raise_if _ _ _ c) λ _ _.
      Quiet-try _ _ (Quiet-make_run_directory env request.run_directory.path)
        λ e h. prepare_handled e.kind e.message h

-- Where the check of the input artifacts goes on, each of them has a relative path with no `..`,
-- which resolves to a file below the resolved `millforge` directory of the run, and no two of them
-- resolve to one file.
pub check_input_artifacts-AllConfined :
    (env : Env) (request : HarnessExecutionRequest) (s : Rt)
    → (check_input_artifacts env request s).0 ≡ ok tt
    → InputsConfined env request
check_input_artifacts-AllConfined env request s h =
    Quiet-ok (Quiet-check_input_artifacts {K = any_kind} env refl refl refl refl request) s h
