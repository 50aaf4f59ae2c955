-- ===== src/PiCompat/Tests.antt =====
-- Runs of the text tools of src/millforge/tools/pi_compat, and the theorems at them.
use millforge.Prelude.{
  List, arith, arith, inr, ◌≤◌, ◌<◌, [], ◌∷◌, ◌++◌, any, true, false, Option, none, some, ◌⊎◌, ◌≡◌,
  refl,
}
use millforge.PiCompat.LineEndings.{
  strip_bom, LineEnding, detect_line_ending, normalize_to_lf, restore_line_endings, find_crlf,
  find_lf, replace_cr, replace_crlf,
}
use millforge.PiCompat.LineEndings.RoundTrip.{
  Crlf, Normalized, is_cr, normalize_to_lf-Normalized, restore_line_endings-normalize_to_lf,
}
use millforge.PiCompat.Replacements.{MatchedEdit, apply_matches, find_overlap, replace_match}
use millforge.PiCompat.Replacements.Splice.{Within, apply_matches-spliced, splice}
use millforge.PiCompat.Truncation.{
  Text, TruncatedBy, TruncationResult, character_bytes, ends_with_newline, head_result,
  is_surrogate, join_lines, keep_head, overlong_result, pop, sanitize_character, sanitize_text,
  split_lines_for_counting, split_newlines, truncate_head, truncate_line, truncate_lines,
  truncated_suffix, unchanged_result, utf16_code_unit_length, utf8_bytes, character_units,
  take_units_from, take_utf16_code_units,
}
use millforge.PiCompat.Truncation.Total.{Truncation, truncate_head-Truncation}
use millforge.PiCompat.Truncation.Tail.{
  decode, decode_from, drop_continuations, encode, encode_character, is_continuation, keep_bytes,
  keep_tail, overflow_tail, rev_append, stopped_tail, tail_result, truncate_from_end, truncate_tail,
}
use millforge.PiCompat.Truncation.Tail.Boundary.{FromEnd, truncate_from_end-FromEnd}
use millforge.PiCompat.Truncation.Tail.Every.{TailTruncation, truncate_tail-TailTruncation}
use millforge.PiCompat.Truncation.Line.{Taken, truncate_line-Taken}
use millforge.PiCompat.Truncation.Sanitize.{Replaced, sanitize_text-Replaced}

-- "ab", "c" and "de", each with a newline
abbrev three_lines : Text
three_lines = 97 ∷ 98 ∷ 10 ∷ 99 ∷ 10 ∷ 100 ∷ 101 ∷ 10 ∷ []

abbrev content_of : Option TruncationResult → Option (Text × Option TruncatedBy)
content_of none = none
content_of (some r) = some (r.content, r.truncated_by)

two_fit :
    content_of (truncate_head three_lines 2 50)
    ≡ some (97 ∷ 98 ∷ 10 ∷ 99 ∷ [], some TruncatedBy.lines)
unfolding truncate_head sanitize_text is_surrogate sanitize_character utf8_bytes character_bytes
    split_lines_for_counting split_newlines ends_with_newline pop truncate_lines overlong_result
    head_result keep_head join_lines unchanged_result
two_fit = refl

one_fits : content_of (truncate_head three_lines 9 3) ≡ some (97 ∷ 98 ∷ [], some TruncatedBy.bytes)
unfolding truncate_head sanitize_text is_surrogate sanitize_character utf8_bytes character_bytes
    split_lines_for_counting split_newlines ends_with_newline pop truncate_lines overlong_result
    head_result keep_head join_lines unchanged_result
one_fits = refl

-- A character outside of the basic plane is not cut in two.
not_cut : truncate_line (97 ∷ 0x1F600 ∷ 98 ∷ []) 2 ≡ (97 ∷ truncated_suffix, true)
unfolding truncate_line sanitize_text is_surrogate sanitize_character utf16_code_unit_length
    character_units take_utf16_code_units take_units_from
not_cut = refl

truncate_head-Truncation_example :
    (r : TruncationResult) × (truncate_head three_lines 2 50 ≡ some r)
    × Truncation
        (sanitize_text three_lines)
        (split_lines_for_counting (sanitize_text three_lines))
        2
        50
        r
truncate_head-Truncation_example = truncate_head-Truncation three_lines 2 50

abbrev face : Text
face = 97 ∷ 0x1F600 ∷ 0xD800 ∷ []

truncate_line-Taken_example :
    ((truncate_line face 2 ≡ (sanitize_text face, false))
      × (utf16_code_unit_length (sanitize_text face) ≤ 2))
    ⊎ ((2 < utf16_code_unit_length (sanitize_text face))
        × ((taken : Text) × (truncate_line face 2 ≡ (taken ++ truncated_suffix, true))
            × Taken 2 0 (sanitize_text face) taken))
truncate_line-Taken_example = truncate_line-Taken face 2

sanitize_text-Replaced_example :
    (any is_surrogate (sanitize_text face) ≡ false) × Replaced face (sanitize_text face)
sanitize_text-Replaced_example = sanitize_text-Replaced face

-- Of "aé😀" the last five bytes hold the last character only.
face_kept : truncate_from_end (97 ∷ 0xE9 ∷ 0x1F600 ∷ []) 5 ≡ some (0x1F600 ∷ [])
unfolding truncate_from_end keep_bytes is_surrogate encode encode_character drop_continuations
    is_continuation decode decode_from
face_kept = refl

tail_fits :
    content_of (truncate_tail three_lines 2 50)
    ≡ some (99 ∷ 10 ∷ 100 ∷ 101 ∷ [], some TruncatedBy.lines)
unfolding truncate_tail sanitize_text is_surrogate sanitize_character utf8_bytes character_bytes
    split_lines_for_counting split_newlines ends_with_newline pop keep_tail overflow_tail
    stopped_tail tail_result rev_append join_lines unchanged_result
tail_fits = refl

-- "aé😀"
abbrev accented : Text
accented = 97 ∷ 0xE9 ∷ 0x1F600 ∷ []

-- A surrogate cannot be encoded.
face_refused : truncate_from_end face 5 ≡ none
unfolding truncate_from_end encode is_surrogate
face_refused = refl

truncate_from_end-FromEnd_example :
    ((any is_surrogate accented ≡ true) × (truncate_from_end accented 5 ≡ none))
    ⊎ ((any is_surrogate accented ≡ false)
        × ((kept : Text) × (truncate_from_end accented 5 ≡ some kept) × FromEnd accented 5 kept))
truncate_from_end-FromEnd_example = truncate_from_end-FromEnd accented 5

truncate_tail-TailTruncation_example :
    (r : TruncationResult) × (truncate_tail three_lines 1 1 ≡ some r)
    × TailTruncation
        (sanitize_text three_lines)
        (split_lines_for_counting (sanitize_text three_lines))
        1
        1
        r
truncate_tail-TailTruncation_example = truncate_tail-TailTruncation three_lines 1 1

-- "a" and "b", each with a pair of CR and LF
abbrev two_pairs : Text
two_pairs = 97 ∷ 13 ∷ 10 ∷ 98 ∷ 13 ∷ 10 ∷ []

detected : detect_line_ending two_pairs ≡ LineEnding.crlf
unfolding detect_line_ending find_crlf find_lf
detected = refl

normalized_pairs : normalize_to_lf two_pairs ≡ 97 ∷ 10 ∷ 98 ∷ 10 ∷ []
unfolding normalize_to_lf replace_crlf replace_cr
normalized_pairs = refl

marked : strip_bom (0xFEFF ∷ two_pairs) ≡ (0xFEFF ∷ [], two_pairs)
unfolding strip_bom
marked = refl

restore_line_endings-normalize_to_lf_example :
    restore_line_endings (normalize_to_lf two_pairs) (detect_line_ending two_pairs) ≡ two_pairs
restore_line_endings-normalize_to_lf_example =
    restore_line_endings-normalize_to_lf two_pairs
      (inr (Crlf.character refl refl (Crlf.break (Crlf.character refl refl (Crlf.break Crlf.nil)))))

normalize_to_lf-Normalized_example :
    Normalized two_pairs (normalize_to_lf two_pairs)
    × (any is_cr (normalize_to_lf two_pairs) ≡ false)
    × (normalize_to_lf (normalize_to_lf two_pairs) ≡ normalize_to_lf two_pairs)
normalize_to_lf-Normalized_example = normalize_to_lf-Normalized two_pairs

-- In "abcde": "b" becomes "xyz", and "de" is removed.
abbrev letters : Text
letters = 97 ∷ 98 ∷ 99 ∷ 100 ∷ 101 ∷ []

abbrev two_edits : List MatchedEdit
two_edits =
    record { edit_index = 1; match_index = 1; match_length = 1; new_text = 120 ∷ 121 ∷ 122 ∷ [] }
    ∷ record { edit_index = 0; match_index = 3; match_length = 2; new_text = [] }
    ∷ []

edited : apply_matches letters two_edits ≡ 97 ∷ 120 ∷ 121 ∷ 122 ∷ 99 ∷ []
unfolding apply_matches replace_match
edited = refl

apply_matches-spliced_example : apply_matches letters two_edits ≡ splice 0 letters two_edits
unfolding find_overlap
apply_matches-spliced_example =
    apply_matches-spliced letters two_edits refl
      (Within.cons (omega arith) (Within.cons (omega arith) Within.nil))
