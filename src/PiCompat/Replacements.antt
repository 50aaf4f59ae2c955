-- ===== src/PiCompat/Replacements.antt =====
-- The matched edits of `apply_edits_to_normalized_content` in
-- src/millforge/tools/pi_compat/editing.py: the check that none overlap, and the replacements.
pub mod Splice
use millforge.Prelude.{
  ℕ, ◌+◌, List, [], ◌∷◌, ◌++◌, Option, none, some, take, drop, ltb, if◌then◌else◌,
}
use millforge.PiCompat.Truncation.{Text}

-- `_MatchedEdit`
pub record MatchedEdit : Type 0 where
  pub edit_index : ℕ
  pub match_index : ℕ
  pub match_length : ℕ
  pub new_text : Text

abbrev pub match_end : MatchedEdit → ℕ
match_end e = e.match_index + e.match_length

-- The first two neighbours that overlap, for the message of the error: the loop over
-- `zip(matched_edits, matched_edits[1:])`.
unfoldable pub find_overlap : List MatchedEdit → Option (ℕ × ℕ)
find_overlap [] = none
find_overlap (previous ∷ []) = none
find_overlap (previous ∷ current ∷ rest) =
    if ltb current.match_index (match_end previous)
    then some (previous.edit_index, current.edit_index)
    else find_overlap (current ∷ rest)

-- One replacement.
unfoldable pub replace_match : Text → MatchedEdit → Text
replace_match content e = take e.match_index content ++ e.new_text ++ drop (match_end e) content

-- The loop over `reversed(matched_edits)`.
unfoldable pub apply_matches : Text → List MatchedEdit → Text
apply_matches content [] = content
apply_matches content (e ∷ rest) = replace_match (apply_matches content rest) e
