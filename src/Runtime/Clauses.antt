-- ===== src/Runtime/Clauses.antt =====
-- The `except` clauses of `execute` in src/millforge/runtime.py, one function for each shape of
-- `try` statement: the failure origin that they give to an exception, if one of them catches it.
use millforge.Prelude.{String, Option, none, some, if◌then◌else◌}
use Prim.Native.String.{◌++◌ as text_append}
use millforge.Runtime.States.{FailureOrigin}
use millforge.Runtime.Effects.{Exn, ExnKind, is_exception}

-- Which origin, if any, the clauses of a `try` statement give an exception.
abbrev pub Clauses : Type 0
Clauses = ExnKind → Option FailureOrigin

-- `except MillforgeConfigError`
unfoldable pub config_clause : FailureOrigin → Clauses
config_clause origin ExnKind.config_error = some origin
config_clause origin _ = none

-- `except HarnessMismatchError`, and the two clauses for a checkpoint
unfoldable pub mismatch_clauses : FailureOrigin → Clauses
mismatch_clauses origin ExnKind.harness_mismatch = some origin
mismatch_clauses origin ExnKind.operation_cancelled = some FailureOrigin.already_cancelled
mismatch_clauses origin ExnKind.deadline_exceeded = some FailureOrigin.expired_deadline
mismatch_clauses origin _ = none

-- `except MillforgeConfigError`, and the two clauses for a checkpoint
unfoldable pub checked_clauses : FailureOrigin → Clauses
checked_clauses origin ExnKind.config_error = some origin
checked_clauses origin ExnKind.operation_cancelled = some FailureOrigin.already_cancelled
checked_clauses origin ExnKind.deadline_exceeded = some FailureOrigin.expired_deadline
checked_clauses origin _ = none

unfoldable pub cancelled_clause : Clauses
cancelled_clause ExnKind.operation_cancelled = some FailureOrigin.already_cancelled
cancelled_clause _ = none

-- `except DeadlineExceededError`, `except MillforgeConfigError`
unfoldable pub deadline_clauses : Clauses
deadline_clauses ExnKind.deadline_exceeded = some FailureOrigin.expired_deadline
deadline_clauses ExnKind.config_error = some FailureOrigin.infrastructure_failure
deadline_clauses _ = none

unfoldable pub expired_clause : Clauses
expired_clause ExnKind.deadline_exceeded = some FailureOrigin.expired_deadline
expired_clause _ = none

-- `except Exception`
unfoldable pub any_clause : FailureOrigin → Clauses
unfolding is_exception
any_clause origin kind = if is_exception kind then some origin else none

-- The clauses of the plan load: a missing file is `FileNotFoundError`, and of the rest every
-- `Exception` is one of the infrastructure.
unfoldable pub load_clauses : Clauses
load_clauses ExnKind.operation_cancelled = some FailureOrigin.already_cancelled
load_clauses ExnKind.deadline_exceeded = some FailureOrigin.expired_deadline
load_clauses ExnKind.file_not_found = some FailureOrigin.compiled_harness_invalid
load_clauses ExnKind.value_error = some FailureOrigin.compiled_harness_invalid
load_clauses ExnKind.validation_error = some FailureOrigin.compiled_harness_invalid
load_clauses ExnKind.type_error = some FailureOrigin.compiled_harness_invalid
load_clauses ExnKind.asyncio_cancelled = none
load_clauses _ = some FailureOrigin.infrastructure_failure

-- The clauses of the backend session, but for `asyncio.CancelledError`.
unfoldable pub session_clauses : Clauses
session_clauses ExnKind.operation_cancelled = some FailureOrigin.already_cancelled
session_clauses ExnKind.deadline_exceeded = some FailureOrigin.expired_deadline
session_clauses ExnKind.backend_translation = some FailureOrigin.backend_failure
session_clauses ExnKind.model_transport = some FailureOrigin.model_failure
session_clauses ExnKind.tool_invoke = some FailureOrigin.tool_failure
session_clauses ExnKind.artifact_write = some FailureOrigin.artifact_write_failure
session_clauses ExnKind.config_error = some FailureOrigin.backend_failure
session_clauses ExnKind.harness_mismatch = some FailureOrigin.backend_failure
session_clauses ExnKind.millforge_other = some FailureOrigin.backend_failure
session_clauses ExnKind.asyncio_cancelled = none
session_clauses _ = some FailureOrigin.infrastructure_failure

-- The prefix of the message in the clauses of the plan load.
abbrev pub load_message : Exn → String
load_message e = elim e.kind [
  | ExnKind.operation_cancelled ↦ e.message
  | ExnKind.deadline_exceeded ↦ e.message
  | _ ↦ text_append "Plan load failed: " e.message
]

abbrev pub plain_message : Exn → String
plain_message e = e.message

abbrev pub external_cancellation : String
external_cancellation = "External asyncio cancellation interrupted execution"
