-- ===== src/Compiler/Diagnostics.antt =====
-- Diagnostics of the compiler, src/millforge/compiler/diagnostics.py: their construction, which may
-- raise, and their order.
pub mod Registry
pub mod Outcomes
pub mod Bound
use Prim.Native.Char.{code}
use Prim.Native.Nat.{compare, Ordering}
use Prim.Native.String.{len, compare as compare_text}
use millforge.Prelude.{
  ℕ, zero, suc, ◌==◌, String, str_eq, is_blank, List, [], ◌∷◌, map, any, length, Bool, true, false,
  ◌&&◌, ◌||◌, not, Option, none, some, ltb, leb, if◌then◌else◌, lookup,
}
use millforge.Compiler.Collections.{sorted, texts_leb}
use millforge.Compiler.Diagnostics.Registry.{
  CompilerPhase, DiagnosticSeverity, request, internal, Registered, phase_index, severity_index,
  diagnostic_registry,
}

pub data Fallible (A : Type 0) : Type 0 where
  ok : A → Fallible A
  -- pydantic's ValidationError, or another ValueError
  value_error : Fallible A
  -- A KeyError, or a walk out of fuel.
  stuck : Fallible A

infixl 5 ◌>>=◌
abbrev pub ◌>>=◌ : {A B : Type 0} → Fallible A → (A → Fallible B) → Fallible B
ok a >>= f = f a
value_error >>= f = value_error
stuck >>= f = stuck

-- `[f(x) for x in xs]`
unfoldable pub each : {A B : Type 0} → (A → Fallible B) → List A → Fallible (List B)
each f [] = ok []
each f (x ∷ xs) = do y ← f x; ys ← each f xs; ok (y ∷ ys)

-- The answer of a walk, where `none` is a KeyError or no fuel left.
abbrev pub or_stuck : {A : Type 0} → Option A → Fallible A
or_stuck none = stuck
or_stuck (some a) = ok a

-- One entry, where a test holds.
abbrev pub when : {A : Type 0} → Bool → Fallible A → Fallible (List A)
when true m = do a ← m; ok (a ∷ [])
when false m = ok []

pub record SourceLocation : Type 0 where
  pub line : ℕ
  pub column : ℕ
  pub end_line : Option ℕ
  pub end_column : Option ℕ

pub record SourceReference : Type 0 where
  pub logical_path : String
  pub field_path : String
  pub location : Option SourceLocation

pub record DiagnosticField : Type 0 where
  pub key : String
  pub value : String

pub record CompilerDiagnostic : Type 0 where
  pub code : String
  pub severity : DiagnosticSeverity
  pub phase : CompilerPhase
  pub message : String
  pub source_reference : Option SourceReference
  pub harness_id : Option String
  pub node_id : Option String
  pub related_ids : List String
  pub suggested_fix : Option String
  pub fields : List DiagnosticField

abbrev pub DiagnosticList : Type 0
DiagnosticList = Fallible (List CompilerDiagnostic)

abbrev pub max_diagnostic_message_utf8 : ℕ
max_diagnostic_message_utf8 = 1024

abbrev pub max_related_ids : ℕ
max_related_ids = 16

-- What the regular expressions of `redact_diagnostic_text`, and of the validator of a field's value,
-- make of a text. Neither raises.
pub record Redaction : Type 0 where
  pub message : String → String
  pub field_value : String → String → String

abbrev pub is_lower : ℕ → Bool
is_lower c = leb b'a' c && leb c b'z'

-- `[a-z0-9_]*`
unfoldable pub is_node_id_rest : String → Bool
is_node_id_rest String.[] = true
is_node_id_rest (String.◌∷◌ c s) =
    (is_lower (code c) || leb b'0' (code c) && leb (code c) b'9' || code c == b'_')
    && is_node_id_rest s

-- `validate_node_id`: whether the id is admitted. In `[a-z0-9_]` characters are bytes.
unfoldable pub is_node_id : String → Bool
unfolding is_node_id_rest
is_node_id String.[] = false
is_node_id (String.◌∷◌ c s) = is_lower (code c) && is_node_id_rest s && leb (len s) 63

abbrev pub node_id_admitted : Option String → Bool
node_id_admitted none = true
node_id_admitted (some id) = is_node_id id

abbrev pub registry_matches : CompilerPhase → DiagnosticSeverity → Option Registered → Bool
registry_matches phase severity none = false
registry_matches phase severity (some r) =
    phase_index phase == phase_index r.phase && severity_index severity == severity_index r.severity

-- The validators of a diagnostic of no harness, with no source and no suggested fix.
unfoldable pub is_admitted : Redaction → CompilerDiagnostic → Bool
unfolding is_blank is_node_id diagnostic_registry lookup
is_admitted redaction d =
    not (is_blank d.message)
    && leb (len (redaction.message d.message)) max_diagnostic_message_utf8
    && node_id_admitted d.node_id
    && leb (length d.related_ids) max_related_ids
    && not (any is_blank d.related_ids)
    && registry_matches d.phase d.severity (lookup d.code diagnostic_registry)

-- `CompilerDiagnostic(…)`
unfoldable pub compiler_diagnostic : Redaction → CompilerDiagnostic → Fallible CompilerDiagnostic
compiler_diagnostic redaction d =
    if is_admitted redaction d
    then ok (record d { message = redaction.message d.message })
    else value_error

-- `diagnostic_sort_key`, the numbers and the texts of the tuple
abbrev pub code_order : String → List (String × ℕ) → ℕ → ℕ
code_order code order default = elim (lookup code order) [ none ↦ default | some n ↦ n ]

abbrev pub request_diagnostic_order : List (String × ℕ)
request_diagnostic_order =
    ("MF-S018", 0)
    ∷ ("MF-S001", 1)
    ∷ ("MF-S002", 2)
    ∷ ("MF-S016", 3)
    ∷ ("MF-S017", 4)
    ∷ ("MF-S013", 5)
    ∷ ("MF-S014", 6)
    ∷ ("MF-S015", 7)
    ∷ []

abbrev pub internal_diagnostic_order : List (String × ℕ)
internal_diagnostic_order = ("MF-I001", 0) ∷ ("MF-D001", 1) ∷ []

unfoldable pub phase_code_order : CompilerPhase → String → ℕ
unfolding lookup
phase_code_order request code = code_order code request_diagnostic_order 8
phase_code_order internal code = code_order code internal_diagnostic_order 2
phase_code_order phase code = 0

abbrev pub location_line : Option SourceReference → ℕ
location_line none = 0
location_line (some r) = elim r.location [ none ↦ 0 | some l ↦ l.line ]

abbrev pub location_column : Option SourceReference → ℕ
location_column none = 0
location_column (some r) = elim r.location [ none ↦ 0 | some l ↦ l.column ]

abbrev pub field_path_or_empty : Option SourceReference → String
field_path_or_empty none = ""
field_path_or_empty (some r) = r.field_path

abbrev pub or_empty : Option String → String
or_empty none = ""
or_empty (some s) = s

unfoldable pub sort_numbers : CompilerDiagnostic → List ℕ
unfolding phase_index phase_code_order
sort_numbers d =
    phase_index d.phase
    ∷ phase_code_order d.phase d.code
    ∷ location_line d.source_reference
    ∷ location_column d.source_reference
    ∷ []

unfoldable pub sort_texts : CompilerDiagnostic → List String
sort_texts d = field_path_or_empty d.source_reference ∷ d.code ∷ or_empty d.node_id ∷ d.message ∷ []

unfoldable pub numbers_leb : List ℕ → List ℕ → Bool → Bool
numbers_leb (x ∷ xs) (y ∷ ys) last =
    let rest = numbers_leb xs ys last in
    elim (compare x y) [ Ordering.lt ↦ true | Ordering.eq ↦ rest | Ordering.gt ↦ false ]
numbers_leb xs ys last = last

unfoldable pub diagnostic_leb : CompilerDiagnostic → CompilerDiagnostic → Bool
unfolding numbers_leb texts_leb sort_numbers sort_texts
diagnostic_leb d e =
    numbers_leb (sort_numbers d) (sort_numbers e) (texts_leb (sort_texts d) (sort_texts e))

unfoldable pub sort_diagnostics : List CompilerDiagnostic → List CompilerDiagnostic
unfolding diagnostic_leb sorted
sort_diagnostics = sorted diagnostic_leb
