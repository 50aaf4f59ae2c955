-- ===== src/PiCompat/Truncation.antt =====
-- The truncation of text, src/millforge/tools/pi_compat/truncation.py.
pub mod Head
pub mod Total
pub mod Line
pub mod Sanitize
pub mod Tail
use millforge.Prelude.{
  ℕ, ◌+◌, List, [], ◌∷◌, ◌++◌, map, any, length, Bool, true, false, ◌&&◌, Option, none, some, ltb,
  leb, ◌==◌, if◌then◌else◌,
}

abbrev pub Text : Type 0
Text = List ℕ

pub data TruncatedBy : Type 0 where
  lines bytes : TruncatedBy

pub record TruncationResult : Type 0 where
  pub content : Text
  pub truncated : Bool
  pub truncated_by : Option TruncatedBy
  pub total_lines : ℕ
  pub total_bytes : ℕ
  pub output_lines : ℕ
  pub output_bytes : ℕ
  pub last_line_partial : Bool
  pub first_line_exceeds_limit : Bool
  pub max_lines : ℕ
  pub max_bytes : ℕ

-- The number of bytes of a character in UTF-8.
unfoldable pub character_bytes : ℕ → ℕ
character_bytes c =
    if ltb c 0x80 then 1 else if ltb c 0x800 then 2 else if ltb c 0x10000 then 3 else 4

-- `_utf8_bytes` of a text that can be encoded: each text that is measured is sanitized, or made of
-- lines of a sanitized text, and so has no surrogate.
unfoldable pub utf8_bytes : Text → ℕ
utf8_bytes [] = 0
utf8_bytes (c ∷ text) = character_bytes c + utf8_bytes text

unfoldable pub is_surrogate : ℕ → Bool
is_surrogate c = leb 0xD800 c && leb c 0xDFFF

unfoldable pub sanitize_character : ℕ → ℕ
sanitize_character c = if is_surrogate c then 0xFFFD else c

-- `sanitize_text`
unfoldable pub sanitize_text : Text → Text
sanitize_text text = if any is_surrogate text then map sanitize_character text else text

abbrev pub newline : ℕ
newline = 10

-- `lines[0] = c + lines[0]`, to build the lines from the last character on
abbrev pub put_first : ℕ → List Text → List Text
put_first c [] = (c ∷ []) ∷ []
put_first c (line ∷ rest) = (c ∷ line) ∷ rest

-- `content.split("\n")`
unfoldable pub split_newlines : Text → List Text
split_newlines [] = [] ∷ []
split_newlines (c ∷ text) =
    let rest = split_newlines text in if c == newline then [] ∷ rest else put_first c rest

-- `content.endswith("\n")`
unfoldable pub ends_with_newline : Text → Bool
ends_with_newline [] = false
ends_with_newline (c ∷ []) = c == newline
ends_with_newline (c ∷ d ∷ text) = ends_with_newline (d ∷ text)

-- `lines.pop()`
unfoldable pub pop {ℓ} : {A : Type ℓ} → List A → List A
pop [] = []
pop (x ∷ []) = []
pop (x ∷ y ∷ xs) = x ∷ pop (y ∷ xs)

-- `_split_lines_for_counting`
unfoldable pub split_lines_for_counting : Text → List Text
split_lines_for_counting [] = []
split_lines_for_counting (c ∷ text) =
    let lines = split_newlines (c ∷ text) in
    if ends_with_newline (c ∷ text) then pop lines else lines

-- `"\n".join(lines)`
unfoldable pub join_lines : List Text → Text
join_lines [] = []
join_lines (line ∷ []) = line
join_lines (line ∷ next ∷ rest) = line ++ newline ∷ join_lines (next ∷ rest)

-- `_unchanged_result`
unfoldable pub unchanged_result : Text → ℕ → ℕ → ℕ → ℕ → TruncationResult
unchanged_result content total_lines total_bytes max_lines max_bytes = record {
  content = content;
  truncated = false;
  truncated_by = none;
  total_lines = total_lines;
  total_bytes = total_bytes;
  output_lines = total_lines;
  output_bytes = total_bytes;
  last_line_partial = false;
  first_line_exceeds_limit = false;
  max_lines = max_lines;
  max_bytes = max_bytes;
}

-- The result of `truncate_head` where the first line is too long.
unfoldable pub overlong_result : ℕ → ℕ → ℕ → ℕ → TruncationResult
overlong_result total_lines total_bytes max_lines max_bytes = record {
  content = [];
  truncated = true;
  truncated_by = some TruncatedBy.bytes;
  total_lines = total_lines;
  total_bytes = total_bytes;
  output_lines = 0;
  output_bytes = 0;
  last_line_partial = false;
  first_line_exceeds_limit = true;
  max_lines = max_lines;
  max_bytes = max_bytes;
}

-- What the loop of `truncate_head` has kept.
pub record Kept : Type 0 where
  pub output_lines : List Text
  pub output_bytes : ℕ
  pub truncated_by : TruncatedBy

-- The loop of `truncate_head`, from this index on.
unfoldable pub keep_head : ℕ → ℕ → ℕ → List Text → ℕ → List Text → Kept
keep_head max_lines max_bytes index output_lines output_bytes [] = record {
  output_lines = output_lines;
  output_bytes = output_bytes;
  truncated_by = TruncatedBy.lines;
}
keep_head max_lines max_bytes index output_lines output_bytes (line ∷ rest) =
    let line_bytes = utf8_bytes line + (if ltb 0 index then 1 else 0) in
    let kept =
      keep_head max_lines max_bytes (index + 1) (output_lines ++ line ∷ [])
        (output_bytes + line_bytes) rest in
    if leb max_lines index
    then record {
      output_lines = output_lines;
      output_bytes = output_bytes;
      truncated_by = TruncatedBy.lines;
    }
    else if ltb max_bytes (output_bytes + line_bytes)
    then record {
      output_lines = output_lines;
      output_bytes = output_bytes;
      truncated_by = TruncatedBy.bytes;
    }
    else kept

-- The result of `truncate_head` and the test after its loop.
unfoldable pub head_result : Kept → ℕ → ℕ → ℕ → ℕ → TruncationResult
head_result kept total_lines total_bytes max_lines max_bytes = record {
  content = join_lines kept.output_lines;
  truncated = true;
  truncated_by = some (
      if leb max_lines (length kept.output_lines) && leb kept.output_bytes max_bytes
      then TruncatedBy.lines
      else kept.truncated_by);
  total_lines = total_lines;
  total_bytes = total_bytes;
  output_lines = length kept.output_lines;
  output_bytes = utf8_bytes (join_lines kept.output_lines);
  last_line_partial = false;
  first_line_exceeds_limit = false;
  max_lines = max_lines;
  max_bytes = max_bytes;
}

-- `truncate_head` from the test of `lines[0]` on; `none` is the `IndexError` of no lines.
unfoldable pub truncate_lines : List Text → ℕ → ℕ → ℕ → ℕ → Option TruncationResult
truncate_lines [] total_lines total_bytes max_lines max_bytes = none
truncate_lines (first ∷ rest) total_lines total_bytes max_lines max_bytes = some (
    if ltb max_bytes (utf8_bytes first)
    then overlong_result total_lines total_bytes max_lines max_bytes
    else head_result (keep_head max_lines max_bytes 0 [] 0 (first ∷ rest)) total_lines total_bytes
        max_lines max_bytes)

-- `truncate_head`
unfoldable pub truncate_head : Text → ℕ → ℕ → Option TruncationResult
truncate_head content max_lines max_bytes =
    let text = sanitize_text content in
    let total_bytes = utf8_bytes text in
    let lines = split_lines_for_counting text in
    let total_lines = length lines in
    if leb total_lines max_lines && leb total_bytes max_bytes
    then some (unchanged_result text total_lines total_bytes max_lines max_bytes)
    else truncate_lines lines total_lines total_bytes max_lines max_bytes

-- The number of UTF-16 code units of a character.
unfoldable pub character_units : ℕ → ℕ
character_units c = if ltb 0xFFFF c then 2 else 1

-- `_utf16_code_unit_length`
unfoldable pub utf16_code_unit_length : Text → ℕ
utf16_code_unit_length [] = 0
utf16_code_unit_length (c ∷ text) = character_units c + utf16_code_unit_length text

-- The loop of `_take_utf16_code_units`, with the units taken so far.
unfoldable pub take_units_from : ℕ → ℕ → Text → Text
take_units_from maximum units [] = []
take_units_from maximum units (c ∷ text) =
    let rest = take_units_from maximum (units + character_units c) text in
    if ltb maximum (units + character_units c) then [] else c ∷ rest

-- `_take_utf16_code_units`
unfoldable pub take_utf16_code_units : Text → ℕ → Text
take_utf16_code_units text maximum = take_units_from maximum 0 text

-- The code points of "... [truncated]".
abbrev pub truncated_suffix : Text
truncated_suffix =
    46 ∷ 46 ∷ 46 ∷ 32 ∷ 91 ∷ 116 ∷ 114 ∷ 117 ∷ 110 ∷ 99 ∷ 97 ∷ 116 ∷ 101 ∷ 100 ∷ 93 ∷ []

-- `truncate_line`
unfoldable pub truncate_line : Text → ℕ → Text × Bool
truncate_line line max_characters =
    let text = sanitize_text line in
    if leb (utf16_code_unit_length text) max_characters
    then (text, false)
    else (take_utf16_code_units text max_characters ++ truncated_suffix, true)
