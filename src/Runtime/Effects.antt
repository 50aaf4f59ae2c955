-- ===== src/Runtime/Effects.antt =====
-- What the runtime of src/millforge/runtime.py runs on: Python exceptions as values, the
-- collaborators that its constructor and the operating system supply, its own mutable state, and
-- the monad in which its methods are written.
use millforge.Prelude.{
  ◌⊎◌, inl, inr, ℕ, String, List, ◌∷◌, Bool, true, false, Option, none, some, ◌+◌, if◌then◌else◌,
}
use millforge.Runtime.States.{RuntimeState, FailureOrigin}
use millforge.Runtime.Contracts.{
  ArtifactRef, CompiledHarnessPlan, CompiledHarnessRef, FilePath, GuardedSessionRequest,
  GuardedSessionResult, HarnessExecutionResult, SelectedOutputRequirement,
}
use millforge.Runtime.Payloads.{Payload}

-- The exception classes that some handler of the runtime tells apart (exceptions.py and Python's),
-- with pydantic's `ValidationError`, a subclass of `ValueError`.
pub data ExnKind : Type 0 where
  config_error harness_mismatch backend_translation model_transport tool_invoke deadline_exceeded
        operation_cancelled artifact_write millforge_other value_error validation_error type_error
        file_not_found os_error other_exception asyncio_cancelled :
      ExnKind
  ambiguous_terminal_commit : FailureOrigin → ExnKind

-- `message` is what `str(e)` returns.
pub record Exn : Type 0 where
  pub kind : ExnKind
  pub message : String

-- `isinstance(e, Exception)`: `asyncio.CancelledError` is a `BaseException` only.
unfoldable pub is_exception : ExnKind → Bool
is_exception ExnKind.asyncio_cancelled = false
is_exception _ = true

-- `isinstance(e, OSError)`
unfoldable pub is_os_error : ExnKind → Bool
is_os_error ExnKind.os_error = true
is_os_error ExnKind.file_not_found = true
is_os_error _ = false

-- The exceptions of the file system calls: `FileNotFoundError`, the other `OSError`s, and the rest.
pub data FsFailure : Type 0 where
  not_found os_failure other_failure : String → FsFailure

unfoldable pub fs_exn : FsFailure → Exn
fs_exn (FsFailure.not_found m) = record { kind = ExnKind.file_not_found; message = m }
fs_exn (FsFailure.os_failure m) = record { kind = ExnKind.os_error; message = m }
fs_exn (FsFailure.other_failure m) = record { kind = ExnKind.other_exception; message = m }

-- A call of a collaborator returns a value or raises.
pub data Call (A : Type 0) : Type 0 where
  gives : A → Call A
  throws : Exn → Call A

-- What `datetime.fromisoformat` makes of a deadline text: an aware instant, an instant with no
-- time zone, or a `ValueError`.
pub data IsoInstant : Type 0 where
  aware : ℕ → IsoInstant
  naive : IsoInstant
  invalid : IsoInstant

-- The collaborators. Each reading of a clock or of the cancellation token, and each call that is
-- awaited, is numbered: what it answers may depend on when it is made. A reading does not raise.
pub record Env : Type 0 where
  pub utc_now : ℕ → ℕ
  pub monotonic : ℕ → ℕ
  pub is_cancelled : ℕ → Bool
  pub resolve_cancellation : String → Option Exn
  pub fromisoformat : String → IsoInstant
  pub load : CompiledHarnessRef → ℕ → Call CompiledHarnessPlan
  pub run_session : GuardedSessionRequest → ℕ → Call GuardedSessionResult
  pub write : ArtifactRef → Payload → ℕ → Option Exn
  pub uuid4 : ℕ → String
  -- the workspace root that the constructor was given, and the file system
  pub workspace_root : Option FilePath
  pub cwd : FsFailure ⊎ FilePath
  pub exists : FilePath → FsFailure ⊎ Bool
  pub is_dir : FilePath → FsFailure ⊎ Bool
  pub is_file : FilePath → FsFailure ⊎ Bool
  pub mkdir : FilePath → Option FsFailure
  pub resolve : FilePath → FsFailure ⊎ FilePath
  pub resolve_strict : FilePath → FsFailure ⊎ FilePath
  pub read_first_byte : FilePath → Option FsFailure
  -- contracts.py: `SelectedOutputPresent` and the check against the schema, on canonical texts;
  -- `none` is a `ValueError`
  pub admit_value : SelectedOutputRequirement → String → Option String

-- What the runtime has done to the world.
pub data Effect : Type 0 where
  prepared_directory : FilePath → Effect
  loaded_plan : CompiledHarnessPlan → Effect
  ran_session : GuardedSessionRequest → Effect
  wrote : ArtifactRef → Payload → Effect

-- `self`, the two flags that `execute` shares with its closures, the number of readings and calls
-- made so far, and the effects, newest first.
pub record Rt : Type 0 where
  pub state : RuntimeState
  pub started_at : Option ℕ
  pub run_directory_prepared : Bool
  pub external_cancel_finalized : Bool
  pub readings : ℕ
  pub effects : List Effect

-- A statement of a method goes on, returns from `execute`, or raises.
pub data Outcome (A : Type 0) : Type 0 where
  ok : A → Outcome A
  returned : HarnessExecutionResult → Outcome A
  raised : Exn → Outcome A

abbrev pub Exec : Type 0 → Type 0
Exec A = Rt → Outcome A × Rt

abbrev pub continue : {A B : Type 0} → Outcome A → (A → Exec B) → Exec B
continue (ok a) f s = f a s
continue (returned r) f s = (returned r, s)
continue (raised e) f s = (raised e, s)

infixl 5 ◌>>=◌ ◌>>◌
unfoldable pub ◌>>=◌ : {A B : Type 0} → Exec A → (A → Exec B) → Exec B
◌>>=◌ m f s = let (r, s') = m s in continue r f s'

abbrev pub ◌>>◌ : {B : Type 0} → Exec Unit → Exec B → Exec B
m >> k = m >>= λ _. k

unfoldable pub pure : {A : Type 0} → A → Exec A
pure a s = (ok a, s)

unfoldable pub throw : {A : Type 0} → Exn → Exec A
throw e s = (raised e, s)

-- `raise kind(message)`
unfoldable pub raise : {A : Type 0} → ExnKind → String → Exec A
raise kind message s = (raised (record { kind = kind; message = message }), s)

-- `if test: raise kind(message)`
unfoldable pub raise_if : Bool → ExnKind → String → Exec Unit
unfolding raise pure
raise_if test kind message = if test then raise kind message else pure tt

-- `return await action` in `execute`
abbrev pub return_result : {A : Type 0} → Outcome HarnessExecutionResult → Outcome A
return_result (ok r) = returned r
return_result (returned r) = returned r
return_result (raised e) = raised e

unfoldable pub return_from_execute : {A : Type 0} → Exec HarnessExecutionResult → Exec A
return_from_execute m s = let (r, s') = m s in (return_result r, s')

abbrev pub handle : {A : Type 0} → Option (Exec A) → Exn → Exec A
handle none e s = (raised e, s)
handle (some handler) e s = handler s

abbrev pub catch : {A : Type 0} → Outcome A → (Exn → Option (Exec A)) → Exec A
catch (ok a) handlers s = (ok a, s)
catch (returned r) handlers s = (returned r, s)
catch (raised e) handlers s = handle (handlers e) e s

-- `try: action except …`: `none` is an exception that no clause catches.
unfoldable pub try_except : {A : Type 0} → Exec A → (Exn → Option (Exec A)) → Exec A
try_except m handlers s = let (r, s') = m s in catch r handlers s'

unfoldable pub from_call : {A : Type 0} → Call A → Exec A
from_call (Call.gives a) s = (ok a, s)
from_call (Call.throws e) s = (raised e, s)

unfoldable pub from_fs : {A : Type 0} → FsFailure ⊎ A → Exec A
from_fs (inl f) s = (raised (fs_exn f), s)
from_fs (inr a) s = (ok a, s)

-- The number of the reading or call that is made.
unfoldable pub tick : Exec ℕ
tick s = (ok s.readings, record s { readings = s.readings + 1 })

unfoldable pub record_effect : Effect → Exec Unit
record_effect e s = (ok tt, record s { effects = e ∷ s.effects })
