-- ===== src/PiCompat/Replacements/Splice.antt =====
-- The replacements of src/millforge/tools/pi_compat/editing.py, one after the other, and all of them
-- at once.
use millforge.Prelude.{
  ℕ, ◌-◌, ◌≤◌, List, [], ◌∷◌, ◌++◌, length, Bool, true, false, Option, none, some, take, drop,
  take-drop, drop-take_append, take-take_append, drop-drop, take-take, if◌then◌else◌, le_of_not_ltb,
  ◌≡◌, refl, sym, ap, ◌∙◌, arith,
}
use mathlib.Core.List.{append_assoc}
use millforge.PiCompat.Truncation.{Text}
use millforge.PiCompat.Replacements.{
  MatchedEdit, apply_matches, find_overlap, match_end, replace_match,
}

-- All the edits in one pass: the text from a position on, with each match replaced.
unfoldable pub splice : ℕ → Text → List MatchedEdit → Text
splice position rest [] = rest
splice position rest (e ∷ edits) =
    take (e.match_index - position) rest
    ++ (e.new_text ++ splice (match_end e) (drop (match_end e - position) rest) edits)

-- Every match ends within the text.
pub data Within (content : Text) : List MatchedEdit → Type 0 where
  nil : Within content []
  cons :
      {e : MatchedEdit} {edits : List MatchedEdit}
      → match_end e ≤ length content
      → Within content edits
      → Within content (e ∷ edits)

-- Each match begins no earlier than the one before it ends.
data Spaced : ℕ → List MatchedEdit → Type 0 where
  nil : {position : ℕ} → Spaced position []
  cons :
      {position : ℕ} {e : MatchedEdit} {edits : List MatchedEdit}
      → position ≤ e.match_index
      → Spaced (match_end e) edits
      → Spaced position (e ∷ edits)

no_result :
    {A : Type 0} (b : Bool) (x : A) (o : Option A)
    → (if b then some x else o) ≡ none
    → (b ≡ false) × (o ≡ none)
no_result true x o h = absurd (cc)
no_result false x o h = (refl, h)

no_overlap-Spaced :
    (position : ℕ) (e : MatchedEdit) (edits : List MatchedEdit)
    → position ≤ e.match_index
    → find_overlap (e ∷ edits) ≡ none
    → Spaced position (e ∷ edits)
unfolding find_overlap
no_overlap-Spaced position e [] l h = Spaced.cons l Spaced.nil
no_overlap-Spaced position e (next ∷ edits) l h =
    let (apart, rest) = no_result _ _ _ h in
    Spaced.cons l (no_overlap-Spaced (match_end e) next edits (le_of_not_ltb _ _ apart) rest)

-- One more replacement in front of those that are made.
replaced :
    (content later : Text) (position : ℕ) (e : MatchedEdit)
    → position ≤ e.match_index
    → match_end e ≤ length content
    → replace_match (take (match_end e) content ++ later) e
      ≡ take position content
        ++ (take (e.match_index - position) (drop position content) ++ (e.new_text ++ later))
unfolding replace_match
replaced content later position e l h =
    ap (λ t. t ++ e.new_text ++ drop (match_end e) (take (match_end e) content ++ later))
      (take-take_append e.match_index (match_end e) content later (omega arith) h)
    ∙ ap (λ t. take e.match_index content ++ e.new_text ++ t)
        (drop-take_append (match_end e) content later h)
    ∙ append_assoc (take e.match_index content) e.new_text later
    ∙ ap (λ t. t ++ (e.new_text ++ later)) (sym (take-take position e.match_index content l))
    ∙ append_assoc (take position content) (take (e.match_index - position) (drop position content))
        (e.new_text ++ later)

apply_matches-splice :
    (content : Text) (position : ℕ) (edits : List MatchedEdit)
    → Spaced position edits
    → Within content edits
    → apply_matches content edits
      ≡ take position content ++ splice position (drop position content) edits
unfolding apply_matches splice
apply_matches-splice content position [] spaced within = sym (take-drop position content)
apply_matches-splice content position (e ∷ edits) (Spaced.cons l spaced) (Within.cons h within) =
    ap (λ t. replace_match t e) (apply_matches-splice content (match_end e) edits spaced within)
    ∙ replaced content (splice (match_end e) (drop (match_end e) content) edits) position e l h
    ∙ ap
        (λ t.
          take position content
          ++ (take (e.match_index - position) (drop position content)
              ++ (e.new_text ++ splice (match_end e) t edits)))
        (sym (drop-drop position (match_end e) content (omega arith)))

-- Where the overlap check passes and every match ends within the text, the replacements, made one
-- after the other from the last, give the text in which all matches are replaced in one pass.
pub apply_matches-spliced :
    (content : Text) (edits : List MatchedEdit)
    → find_overlap edits ≡ none
    → Within content edits
    → apply_matches content edits ≡ splice 0 content edits
unfolding apply_matches splice
apply_matches-spliced content [] h within = refl
apply_matches-spliced content (e ∷ edits) h within =
    apply_matches-splice content 0 (e ∷ edits) (no_overlap-Spaced 0 e edits (omega arith) h) within
