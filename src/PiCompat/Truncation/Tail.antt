-- ===== src/PiCompat/Truncation/Tail.antt =====
-- `truncate_tail` of src/millforge/tools/pi_compat/truncation.py, with `_truncate_from_end` on the
-- bytes of a line.
pub mod Bytes
pub mod Clean
pub mod Cut
pub mod Boundary
pub mod Lines
pub mod Every
use millforge.Prelude.{
  drop, ℕ, zero, suc, ◌+◌, ◌-◌, List, [], ◌∷◌, ◌++◌, length, Bool, true, false, ◌&&◌, Option, none,
  some, ltb, leb, ◌==◌, if◌then◌else◌,
}
use mathlib.Core.Option
use Prim.Native.Nat.{◌/◌, ◌%◌, ◌*◌}
use millforge.PiCompat.Truncation.{
  Text, TruncatedBy, TruncationResult, is_surrogate, join_lines, sanitize_text,
  split_lines_for_counting, unchanged_result, utf8_bytes,
}

-- A byte that goes on with a character: `byte & 0xC0 == 0x80`.
unfoldable pub is_continuation : ℕ → Bool
is_continuation byte = leb 0x80 byte && ltb byte 0xC0

-- The bytes of one character.
unfoldable pub encode_character : ℕ → List ℕ
encode_character c =
    if ltb c 0x80
    then c ∷ []
    else if ltb c 0x800
    then (0xC0 + c / 0x40) ∷ (0x80 + c % 0x40) ∷ []
    else if ltb c 0x10000
    then (0xE0 + c / 0x1000) ∷ (0x80 + c / 0x40 % 0x40) ∷ (0x80 + c % 0x40) ∷ []
    else (0xF0 + c / 0x40000)
      ∷ (0x80 + c / 0x1000 % 0x40)
      ∷ (0x80 + c / 0x40 % 0x40)
      ∷ (0x80 + c % 0x40)
      ∷ []

-- `text.encode("utf-8")`; `none` is the `UnicodeEncodeError` of a surrogate.
unfoldable pub encode : Text → Option (List ℕ)
encode [] = some []
encode (c ∷ text) =
    if is_surrogate c
    then none
    else Option.map (λ encoded. encode_character c ++ encoded) (encode text)

abbrev pub put : ℕ → Option Text → Option Text
put c found = Option.map (λ text. c ∷ text) found

-- `data.decode("utf-8")`, with the bits of a character read so far and the number of its bytes that
-- are to come; `none` is a `UnicodeDecodeError`. Bytes that the encoder never makes, as in an
-- overlong form, are not told apart.
unfoldable pub decode_from : ℕ → ℕ → List ℕ → Option Text
unfolding is_continuation
decode_from bits zero [] = some []
decode_from bits (suc pending) [] = none
decode_from bits zero (byte ∷ encoded) =
    if ltb byte 0x80
    then put byte (decode_from 0 0 encoded)
    else if ltb byte 0xC0
    then none
    else if ltb byte 0xE0
    then decode_from (byte - 0xC0) 1 encoded
    else if ltb byte 0xF0
    then decode_from (byte - 0xE0) 2 encoded
    else decode_from (byte - 0xF0) 3 encoded
decode_from bits (suc zero) (byte ∷ encoded) =
    let more = bits * 0x40 + (byte - 0x80) in
    if is_continuation byte then put more (decode_from 0 0 encoded) else none
decode_from bits (suc (suc pending)) (byte ∷ encoded) =
    let more = bits * 0x40 + (byte - 0x80) in
    if is_continuation byte then decode_from more (suc pending) encoded else none

unfoldable pub decode : List ℕ → Option Text
decode encoded = decode_from 0 0 encoded

-- The loop of `_truncate_from_end`, on the bytes from `start` on.
unfoldable pub drop_continuations : List ℕ → List ℕ
drop_continuations [] = []
drop_continuations (byte ∷ encoded) =
    if is_continuation byte then drop_continuations encoded else byte ∷ encoded

-- `_truncate_from_end` after the encoder
unfoldable pub keep_bytes : Text → ℕ → List ℕ → Option Text
keep_bytes text max_bytes encoded =
    if leb (length encoded) max_bytes
    then some text
    else decode (drop_continuations (drop (length encoded - max_bytes) encoded))

abbrev pub keep_encoded : Text → ℕ → Option (List ℕ) → Option Text
keep_encoded text max_bytes none = none
keep_encoded text max_bytes (some encoded) = keep_bytes text max_bytes encoded

-- `_truncate_from_end`; `none` is an error of the encoder, or of the decoder.
unfoldable pub truncate_from_end : Text → ℕ → Option Text
truncate_from_end text max_bytes = keep_encoded text max_bytes (encode text)

-- The elements of a list before another, in the other order.
unfoldable pub rev_append {ℓ} : {A : Type ℓ} → List A → List A → List A
rev_append [] ys = ys
rev_append (x ∷ xs) ys = rev_append xs (x ∷ ys)

-- What the loop of `truncate_tail` has kept.
pub record KeptTail : Type 0 where
  pub output_lines : List Text
  pub output_bytes : ℕ
  pub truncated_by : TruncatedBy
  pub last_line_partial : Bool

-- The end of the loop at a line that exceeds the limit of bytes.
unfoldable pub overflow_tail : ℕ → List Text → ℕ → Text → Option KeptTail
overflow_tail max_bytes [] output_bytes line =
    Option.map
      (λ text. record {
        output_lines = text ∷ [];
        output_bytes = output_bytes;
        truncated_by = TruncatedBy.bytes;
        last_line_partial = true;
      })
      (truncate_from_end line max_bytes)
overflow_tail max_bytes (kept ∷ later) output_bytes line = some (record {
  output_lines = kept ∷ later;
  output_bytes = output_bytes;
  truncated_by = TruncatedBy.bytes;
  last_line_partial = false;
})

unfoldable pub stopped_tail : List Text → ℕ → KeptTail
stopped_tail output_lines output_bytes = record {
  output_lines = output_lines;
  output_bytes = output_bytes;
  truncated_by = TruncatedBy.lines;
  last_line_partial = false;
}

-- The loop of `truncate_tail`, over the lines from the last one on.
unfoldable pub keep_tail : ℕ → ℕ → List Text → ℕ → List Text → Option KeptTail
unfolding stopped_tail
keep_tail max_lines max_bytes output_lines output_bytes [] =
    some (stopped_tail output_lines output_bytes)
keep_tail max_lines max_bytes output_lines output_bytes (line ∷ rest) =
    let line_bytes = utf8_bytes line + (if ltb 0 (length output_lines) then 1 else 0) in
    let kept =
      keep_tail max_lines max_bytes (line ∷ output_lines) (output_bytes + line_bytes) rest in
    if leb max_lines (length output_lines)
    then some (stopped_tail output_lines output_bytes)
    else if ltb max_bytes (output_bytes + line_bytes)
    then overflow_tail max_bytes output_lines output_bytes line
    else kept

-- The result of `truncate_tail` and the test after its loop.
unfoldable pub tail_result : ℕ → ℕ → ℕ → ℕ → KeptTail → TruncationResult
tail_result total_lines total_bytes max_lines max_bytes kept = record {
  content = join_lines kept.output_lines;
  truncated = true;
  truncated_by = some (
      if leb max_lines (length kept.output_lines) && leb kept.output_bytes max_bytes
      then TruncatedBy.lines
      else kept.truncated_by);
  total_lines = total_lines;
  total_bytes = total_bytes;
  output_lines = length kept.output_lines;
  output_bytes = utf8_bytes (join_lines kept.output_lines);
  last_line_partial = kept.last_line_partial;
  first_line_exceeds_limit = false;
  max_lines = max_lines;
  max_bytes = max_bytes;
}

-- `truncate_tail`; `none` is an error of the encoder, or of the decoder.
unfoldable pub truncate_tail : Text → ℕ → ℕ → Option TruncationResult
truncate_tail content max_lines max_bytes =
    let text = sanitize_text content in
    let total_bytes = utf8_bytes text in
    let lines = split_lines_for_counting text in
    let total_lines = length lines in
    if leb total_lines max_lines && leb total_bytes max_bytes
    then some (unchanged_result text total_lines total_bytes max_lines max_bytes)
    else Option.map (tail_result total_lines total_bytes max_lines max_bytes)
        (keep_tail max_lines max_bytes [] 0 (rev_append lines []))
