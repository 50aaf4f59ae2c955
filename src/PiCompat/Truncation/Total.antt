-- ===== src/PiCompat/Truncation/Total.antt =====
-- `truncate_head` of src/millforge/tools/pi_compat/truncation.py as a whole.
use millforge.Prelude.{
  le_of_leb, lt_of_not_leb, lt_of_ltb, ℕ, ◌+◌, ◌≤◌, ◌<◌, List, [], ◌∷◌, length, Bool, true, false,
  ◌&&◌, some, ltb, leb, ◌==◌, ◌≡◌, refl, ◌⊎◌, inl, inr, Bool-cases, arith,
}
use millforge.PiCompat.Truncation.{
  Text, TruncationResult, ends_with_newline, head_result, join_lines, newline, overlong_result, pop,
  put_first, sanitize_text, split_lines_for_counting, split_newlines, truncate_head, truncate_lines,
  unchanged_result, utf8_bytes,
}
use millforge.PiCompat.Truncation.Head.{Cut, Full, keep_head-Cut}

-- The text, or some first lines of it, with what was counted.
pub data Shape (text : Text) (lines : List Text) (max_lines max_bytes : ℕ) (r : TruncationResult)
    : Type 0 where
  whole :
      r.truncated ≡ false
      → r.content ≡ text
      → r.output_lines ≡ length lines
      → r.output_lines ≤ max_lines
      → utf8_bytes r.content ≤ max_bytes
      → Shape text lines max_lines max_bytes r
  cut :
      (kept : List Text)
      → r.truncated ≡ true
      → (max_lines < length lines) ⊎ (max_bytes < utf8_bytes text)
      → r.content ≡ join_lines kept
      → r.output_lines ≡ length kept
      → Cut max_lines max_bytes lines kept
      → Shape text lines max_lines max_bytes r

pub record Truncation (text : Text) (lines : List Text) (max_lines max_bytes : ℕ)
    (r : TruncationResult) : Type 0 where
  pub shape : Shape text lines max_lines max_bytes r
  pub output_bytes : r.output_bytes ≡ utf8_bytes r.content
  pub total_lines : r.total_lines ≡ length lines
  pub total_bytes : r.total_bytes ≡ utf8_bytes text

put_first-length : (c : ℕ) (lines : List Text) → length lines ≤ length (put_first c lines)
put_first-length c [] = omega arith
put_first-length c (line ∷ rest) = omega arith

-- Every text has a line, and one that ends with a newline has two.
split_newlines-length : (text : Text) → 1 ≤ length (split_newlines text)
unfolding split_newlines
split_newlines-length [] = omega arith
split_newlines-length (c ∷ text) = elim (Bool-cases (c == newline)) [
  | inl h ↦ rw h (omega (arith, split_newlines-length text))
  | inr h ↦
      rw h (omega (arith, split_newlines-length text, put_first-length c (split_newlines text)))
]

split_newlines-ended :
    (text : Text) → ends_with_newline text ≡ true → 2 ≤ length (split_newlines text)
unfolding split_newlines ends_with_newline
split_newlines-ended [] h = absurd (cc)
split_newlines-ended (c ∷ []) h = rw h (omega arith)
split_newlines-ended (c ∷ d ∷ text) h = elim (Bool-cases (c == newline)) [
  | inl e ↦ rw e (omega (arith, split_newlines-ended (d ∷ text) h))
  | inr e ↦ rw e (
      omega
        (arith, split_newlines-ended (d ∷ text) h, put_first-length c (split_newlines (d ∷ text))))
]

length-pop : {A : Type 0} (xs : List A) → length xs ≤ length (pop xs) + 1
unfolding pop
length-pop [] = omega arith
length-pop (x ∷ []) = omega arith
length-pop (x ∷ y ∷ xs) = omega (arith, length-pop (y ∷ xs))

counted_length : (c : ℕ) (text : Text) → 1 ≤ length (split_lines_for_counting (c ∷ text))
unfolding split_lines_for_counting
counted_length c text = elim (Bool-cases (ends_with_newline (c ∷ text))) [
  | inl h ↦
      rw h
        (omega (arith, split_newlines-ended (c ∷ text) h, length-pop (split_newlines (c ∷ text))))
  | inr h ↦ rw h (split_newlines-length (c ∷ text))
]

-- Where a limit is exceeded there is a line.
some_line :
    (text : Text) (max_lines max_bytes : ℕ)
    → (max_lines < length (split_lines_for_counting text)) ⊎ (max_bytes < utf8_bytes text)
    → 1 ≤ length (split_lines_for_counting text)
unfolding split_lines_for_counting utf8_bytes
some_line [] max_lines max_bytes (inl h) = omega arith
some_line [] max_lines max_bytes (inr h) = omega arith
some_line (c ∷ text) max_lines max_bytes h = counted_length c text

module _ (text : Text) (max_lines max_bytes : ℕ) where
  lines_cut :
      (lines : List Text)
      → 1 ≤ length lines
      → (max_lines < length lines) ⊎ (max_bytes < utf8_bytes text)
      → (r : TruncationResult) × (truncate_lines lines
            (length lines)
            (utf8_bytes text)
            max_lines
            max_bytes
          ≡ some r)
        × Truncation text lines max_lines max_bytes r
  unfolding truncate_lines overlong_result head_result join_lines utf8_bytes
  lines_cut [] h exceeds = absurd (omega arith)
  lines_cut (first ∷ rest) h exceeds = elim (Bool-cases (ltb max_bytes (utf8_bytes first))) [
    | inl long ↦ (
      _,
      refl,
      rw long (record {
        shape = Shape.cut [] refl exceeds refl refl (record {
          rest = first ∷ rest;
          split = refl;
          lines_fit = omega arith;
          bytes_fit = omega arith;
          full = Full.no_more_bytes (lt_of_ltb _ _ long);
        });
        output_bytes = refl;
        total_lines = refl;
        total_bytes = refl;
      }),
    )
    | inr short ↦
        let cut =
          keep_head-Cut max_lines max_bytes 0 [] 0 (first ∷ rest) refl refl (omega arith)
            (omega arith) in
        (
          _,
          refl,
          rw short (record {
            shape = Shape.cut _ refl exceeds refl refl cut;
            output_bytes = refl;
            total_lines = refl;
            total_bytes = refl;
          }),
        )
  ]

abbrev pub within : ℕ → ℕ → ℕ → ℕ → Bool
within a m b n = leb a m && leb b n

pub within_limits :
    (a m b n : ℕ)
    → ((within a m b n ≡ true) × (a ≤ m) × (b ≤ n))
      ⊎ ((within a m b n ≡ false) × ((m < a) ⊎ (n < b)))
within_limits a m b n = elim (Bool-cases (leb a m)) [
  | inr h ↦ inr (rw h refl, inl (lt_of_not_leb _ _ h))
  | inl h ↦ elim (Bool-cases (leb b n)) [
    | inl k ↦ inl (rw (h, k) refl, le_of_leb _ _ h, le_of_leb _ _ k)
    | inr k ↦ inr (rw (h, k) refl, inr (lt_of_not_leb _ _ k))
  ]
]

-- `truncate_head` gives a result for every text and every limits, and never runs out of lines. It
-- is the sanitized text, not truncated, where that fits both limits. Else it is the first lines of
-- the text, joined: they fit both limits, and either no line is left, or the limit of lines is
-- reached, or the next line would exceed the limit of bytes. Its counts are those of the content
-- and of the text.
pub truncate_head-Truncation :
    (content : Text) (max_lines max_bytes : ℕ)
    → let text = sanitize_text content in
      let lines = split_lines_for_counting text in
      (r : TruncationResult) × (truncate_head content max_lines max_bytes ≡ some r)
      × Truncation text lines max_lines max_bytes r
unfolding truncate_head unchanged_result
truncate_head-Truncation content max_lines max_bytes =
    let text = sanitize_text content in
    let lines = split_lines_for_counting text in
    elim (within_limits (length lines) max_lines (utf8_bytes text) max_bytes) [
      | inl (h, few, small) ↦ (
        unchanged_result text (length lines) (utf8_bytes text) max_lines max_bytes,
        rw h refl,
        record {
          shape = Shape.whole refl refl refl few small;
          output_bytes = refl;
          total_lines = refl;
          total_bytes = refl;
        },
      )
      | inr (h, exceeds) ↦ rw h (
          lines_cut text max_lines max_bytes lines (some_line text max_lines max_bytes exceeds)
            exceeds)
    ]
