-- ===== src/PiCompat/Truncation/Tail/Clean.antt =====
-- The lines of a text with no surrogate, `_split_lines_for_counting` of
-- src/millforge/tools/pi_compat/truncation.py.
use millforge.Prelude.{
  ℕ, List, [], ◌∷◌, any, false, ◌==◌, ◌≡◌, refl, Bool-cases, or_false, inl, inr,
}
use millforge.PiCompat.Truncation.{
  Text, ends_with_newline, is_surrogate, newline, pop, put_first, split_lines_for_counting,
  split_newlines,
}
use millforge.PiCompat.Truncation.Tail.{rev_append}

abbrev pub IsClean : Text → Type 0
IsClean text = any is_surrogate text ≡ false

abbrev pub AllClean : List Text → Type 0
AllClean lines = any (any is_surrogate) lines ≡ false

put_first-AllClean :
    (c : ℕ) (lines : List Text)
    → is_surrogate c ≡ false
    → AllClean lines
    → AllClean (put_first c lines)
put_first-AllClean c [] h k = rw h refl
put_first-AllClean c (line ∷ rest) h k = rw h k

split_newlines-AllClean : (text : Text) → IsClean text → AllClean (split_newlines text)
unfolding split_newlines
split_newlines-AllClean [] h = refl
split_newlines-AllClean (c ∷ text) h =
    let (first, rest) = or_false _ _ h in
    let lines = split_newlines-AllClean text rest in
    elim (Bool-cases (c == newline)) [
      | inl k ↦ rw k lines
      | inr k ↦ rw k (put_first-AllClean c (split_newlines text) first lines)
    ]

pop-AllClean : (lines : List Text) → AllClean lines → AllClean (pop lines)
unfolding pop
pop-AllClean [] h = h
pop-AllClean (line ∷ []) h = refl
pop-AllClean (line ∷ next ∷ lines) h =
    let (first, rest) = or_false (any is_surrogate line) _ h in
    rw (first, pop-AllClean (next ∷ lines) rest) refl

pub split_lines_for_counting-AllClean :
    (text : Text) → IsClean text → AllClean (split_lines_for_counting text)
unfolding split_lines_for_counting
split_lines_for_counting-AllClean [] h = refl
split_lines_for_counting-AllClean (c ∷ text) h =
    let lines = split_newlines-AllClean (c ∷ text) h in
    elim (Bool-cases (ends_with_newline (c ∷ text))) [
      | inl k ↦ rw k (pop-AllClean (split_newlines (c ∷ text)) lines)
      | inr k ↦ rw k lines
    ]

pub rev_append-AllClean :
    (xs ys : List Text) → AllClean xs → AllClean ys → AllClean (rev_append xs ys)
unfolding rev_append
rev_append-AllClean [] ys h k = k
rev_append-AllClean (x ∷ xs) ys h k =
    let (first, rest) = or_false (any is_surrogate x) _ h in
    rev_append-AllClean xs (x ∷ ys) rest (rw (first, k) refl)
