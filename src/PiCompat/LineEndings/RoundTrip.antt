-- ===== src/PiCompat/LineEndings/RoundTrip.antt =====
-- What `execute_edit` of src/millforge/tools/pi_compat/editing.py does to the line endings that it has
-- not edited.
use millforge.Prelude.{
  ℕ, suc, [], ◌∷◌, any, map, Bool, true, false, none, some, ltb, ◌==◌, ◌≡◌, refl, ap, ◌∙◌, ◌⊎◌, inl,
  inr, Bool-cases, or_false, arith,
}
use mathlib.Core.Option
use millforge.PiCompat.Truncation.{Text}
use millforge.PiCompat.LineEndings.{
  detect_line_ending, find_crlf, find_lf, normalize_to_lf, replace_cr, replace_crlf, replace_lf,
  restore_line_endings,
}

abbrev pub is_cr : ℕ → Bool
is_cr c = c == 13

-- A text in which CR and LF stand in pairs only.
pub data Crlf : Text → Type 0 where
  nil : Crlf []
  break : {text : Text} → Crlf text → Crlf (13 ∷ 10 ∷ text)
  character :
      {c : ℕ} {text : Text} → (c == 13) ≡ false → (c == 10) ≡ false → Crlf text → Crlf (c ∷ text)

find_crlf-other :
    (c : ℕ) (text : Text)
    → (c == 13) ≡ false
    → find_crlf (c ∷ text) ≡ Option.map suc (find_crlf text)
unfolding find_crlf
find_crlf-other c [] h = refl
find_crlf-other c (d ∷ text) h = rw h refl

replace_crlf-other :
    (c : ℕ) (text : Text) → (c == 13) ≡ false → replace_crlf (c ∷ text) ≡ c ∷ replace_crlf text
unfolding replace_crlf
replace_crlf-other c [] h = refl
replace_crlf-other c (d ∷ text) h = rw h refl

-- Where a text of pairs has one, both places are found.
abbrev Found : Text → Type 0
Found text = (i : ℕ) × (find_crlf text ≡ some i) × (find_lf text ≡ some (suc i))

no_cr_or_Found : {text : Text} → Crlf text → (any is_cr text ≡ false) ⊎ Found text
unfolding find_crlf find_lf
no_cr_or_Found Crlf.nil = inl refl
no_cr_or_Found (Crlf.break more) = inr (0, refl, refl)
no_cr_or_Found (Crlf.character {c} {text} h k more) = elim (no_cr_or_Found more) [
  | inl e ↦ inl (rw (h, e) refl)
  | inr (i, e, f) ↦ inr (suc i, find_crlf-other c text h ∙ ap (Option.map suc) e, rw (k, f) refl)
]

replace_lf-normalize_to_lf : {text : Text} → Crlf text → replace_lf (normalize_to_lf text) ≡ text
unfolding normalize_to_lf replace_cr replace_crlf replace_lf
replace_lf-normalize_to_lf Crlf.nil = refl
replace_lf-normalize_to_lf (Crlf.break {text} more) =
    ap (λ t. 13 ∷ 10 ∷ t) (replace_lf-normalize_to_lf more)
replace_lf-normalize_to_lf (Crlf.character {c} {text} h k more) =
    rw (replace_crlf-other c text h, h, k) (ap (λ t. c ∷ t) (replace_lf-normalize_to_lf more))

before_next : (i : ℕ) → ltb i (suc i) ≡ true
before_next i = ground arith

-- A text with no CR has no pair, and is normalized already.
find_crlf-none : (text : Text) → any is_cr text ≡ false → find_crlf text ≡ none
unfolding find_crlf
find_crlf-none [] h = refl
find_crlf-none (c ∷ text) h =
    let (first, rest) = or_false _ _ h in
    find_crlf-other c text first ∙ ap (Option.map suc) (find_crlf-none text rest)

normalize_to_lf-none : (text : Text) → any is_cr text ≡ false → normalize_to_lf text ≡ text
unfolding normalize_to_lf replace_cr replace_crlf
normalize_to_lf-none [] h = refl
normalize_to_lf-none (c ∷ text) h =
    let (first, rest) = or_false _ _ h in
    rw (replace_crlf-other c text first, first) (ap (λ t. c ∷ t) (normalize_to_lf-none text rest))

restored_without_cr :
    (text : Text)
    → any is_cr text ≡ false
    → restore_line_endings (normalize_to_lf text) (detect_line_ending text) ≡ text
unfolding restore_line_endings detect_line_ending
restored_without_cr text h = rw (find_crlf-none text h) (normalize_to_lf-none text h)

-- A text with no CR, or with CR and LF in pairs only, comes back as it was when it is normalized
-- to LF and the line ending detected in it is restored.
pub restore_line_endings-normalize_to_lf :
    (text : Text)
    → (any is_cr text ≡ false) ⊎ Crlf text
    → restore_line_endings (normalize_to_lf text) (detect_line_ending text) ≡ text
unfolding restore_line_endings detect_line_ending
restore_line_endings-normalize_to_lf text (inl h) = restored_without_cr text h
restore_line_endings-normalize_to_lf text (inr pairs) = elim (no_cr_or_Found pairs) [
  | inl h ↦ restored_without_cr text h
  | inr (i, e, f) ↦ rw (e, f, before_next i) (replace_lf-normalize_to_lf pairs)
]

normalized : (text : Text) → any is_cr (map replace_cr text) ≡ false
unfolding replace_cr
normalized [] = refl
normalized (c ∷ text) = elim (Bool-cases (c == 13)) [
  | inl h ↦ rw h (normalized text)
  | inr h ↦ rw (h, h) (normalized text)
]

abbrev pub is_lf : ℕ → Bool
is_lf c = c == 10

abbrev begins_with_lf : Text → Bool
begins_with_lf [] = false
begins_with_lf (c ∷ text) = is_lf c

-- A text and the one with LF for each pair of CR and LF, and for each other CR.
pub data Normalized : Text → Text → Type 0 where
  nil : Normalized [] []
  pair :
      {c d : ℕ} {text text' : Text}
      → is_cr c ≡ true
      → is_lf d ≡ true
      → Normalized text text'
      → Normalized (c ∷ d ∷ text) (10 ∷ text')
  lone :
      {c : ℕ} {text text' : Text}
      → is_cr c ≡ true
      → begins_with_lf text ≡ false
      → Normalized text text'
      → Normalized (c ∷ text) (10 ∷ text')
  other :
      {c : ℕ} {text text' : Text}
      → is_cr c ≡ false
      → Normalized text text'
      → Normalized (c ∷ text) (c ∷ text')

replaced-Normalized : (text : Text) → Normalized text (map replace_cr (replace_crlf text))
unfolding replace_cr replace_crlf
replaced-Normalized [] = Normalized.nil
replaced-Normalized (c ∷ []) = elim (Bool-cases (c == 13)) [
  | inl h ↦ rw h (Normalized.lone h refl Normalized.nil)
  | inr h ↦ rw h (Normalized.other h Normalized.nil)
]
replaced-Normalized (c ∷ d ∷ text) =
    let rest = replaced-Normalized (d ∷ text) in
    let after = replaced-Normalized text in
    elim (Bool-cases (c == 13)) [
      | inl h ↦ elim (Bool-cases (d == 10)) [
        | inl k ↦ rw (h, k) (Normalized.pair h k after)
        | inr k ↦ rw (h, k, h) (Normalized.lone h k rest)
      ]
      | inr h ↦ rw (h, h) (Normalized.other h rest)
    ]

-- A text that is normalized to LF is the text with one LF for each pair of CR and LF and for each
-- other CR, and with nothing else changed. It has no CR, and is not changed when it is normalized
-- again.
pub normalize_to_lf-Normalized :
    (text : Text)
    → Normalized text (normalize_to_lf text)
      × (any is_cr (normalize_to_lf text) ≡ false)
      × (normalize_to_lf (normalize_to_lf text) ≡ normalize_to_lf text)
unfolding normalize_to_lf
normalize_to_lf-Normalized text = (
  replaced-Normalized text,
  normalized (replace_crlf text),
  normalize_to_lf-none _ (normalized (replace_crlf text)),
)
