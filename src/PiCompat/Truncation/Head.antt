-- ===== src/PiCompat/Truncation/Head.antt =====
-- The loop of `truncate_head` in src/millforge/tools/pi_compat/truncation.py, and the number of bytes
-- of joined lines.
use millforge.Prelude.{
  le_of_leb, lt_of_not_leb, lt_of_ltb, le_of_not_ltb, ℕ, suc, ◌+◌, ◌≤◌, ◌<◌, List, [], ◌∷◌, ◌++◌,
  length, length-append, Bool, true, false, ltb, leb, if◌then◌else◌, ◌≡◌, refl, ap, arith,
}
use mathlib.Core.Path.{subst}
use mathlib.Core.List.{append_assoc}
use millforge.PiCompat.Truncation.{
  Kept, Text, character_bytes, join_lines, keep_head, newline, utf8_bytes,
}

utf8_bytes-append : (a b : Text) → utf8_bytes (a ++ b) ≡ utf8_bytes a + utf8_bytes b
unfolding utf8_bytes
utf8_bytes-append [] b = omega arith
utf8_bytes-append (c ∷ a) b = omega (arith, utf8_bytes-append a b)

abbrev pub separator : ℕ → ℕ
separator index = if ltb 0 index then 1 else 0

pub separator-suc : (n : ℕ) → separator (suc n) ≡ 1
separator-suc n = ground arith

pub two_lines : (a b : Text) → utf8_bytes (a ++ newline ∷ b) ≡ utf8_bytes a + (utf8_bytes b + 1)
unfolding utf8_bytes character_bytes
two_lines a b = omega (arith, utf8_bytes-append a (newline ∷ b))

-- A line at the end of others costs its bytes, and a separator if there are others.
join_lines-snoc :
    (lines : List Text) (line : Text)
    → utf8_bytes (join_lines (lines ++ line ∷ []))
      ≡ utf8_bytes (join_lines lines) + (utf8_bytes line + separator (length lines))
unfolding join_lines utf8_bytes character_bytes
join_lines-snoc [] line = omega arith
join_lines-snoc (a ∷ []) line = two_lines a line
join_lines-snoc (a ∷ b ∷ rest) line = omega (
  arith,
  two_lines a (join_lines (b ∷ (rest ++ line ∷ []))),
  two_lines a (join_lines (b ∷ rest)),
  join_lines-snoc (b ∷ rest) line,
  separator-suc (length rest),
  separator-suc (suc (length rest)),
)

-- The lines kept, and those left.
pub data Full (max_lines max_bytes : ℕ) (kept : List Text) : List Text → Type 0 where
  nothing_left : Full max_lines max_bytes kept []
  no_more_lines : {rest : List Text} → length kept ≡ max_lines → Full max_lines max_bytes kept rest
  no_more_bytes :
      {next : Text} {rest : List Text}
      → max_bytes < utf8_bytes (join_lines (kept ++ next ∷ []))
      → Full max_lines max_bytes kept (next ∷ rest)

-- The kept lines are the first of all, fit both limits, and no more of them would.
pub record Cut (max_lines max_bytes : ℕ) (all kept : List Text) : Type 0 where
  pub rest : List Text
  pub split : kept ++ rest ≡ all
  pub lines_fit : length kept ≤ max_lines
  pub bytes_fit : utf8_bytes (join_lines kept) ≤ max_bytes
  pub full : Full max_lines max_bytes kept rest

choose :
    {A : Type 0} (P : A → Type 0) (a b : Bool) (x y z : A)
    → (a ≡ true → P x)
    → (b ≡ true → P y)
    → (a ≡ false → b ≡ false → P z)
    → P (if a then x else if b then y else z)
choose P true b x y z f g h = f refl
choose P false true x y z f g h = g refl
choose P false false x y z f g h = h refl refl

module _ (max_lines max_bytes : ℕ) where
  pub keep_head-Cut :
      (index : ℕ) (kept : List Text) (bytes : ℕ) (lines : List Text)
      → index ≡ length kept
      → bytes ≡ utf8_bytes (join_lines kept)
      → index ≤ max_lines
      → bytes ≤ max_bytes
      → Cut max_lines max_bytes
          (kept ++ lines)
          (keep_head max_lines max_bytes index kept bytes lines).output_lines
  unfolding keep_head
  keep_head-Cut index kept bytes [] hi hb li lb = record {
    rest = [];
    split = refl;
    lines_fit = omega arith;
    bytes_fit = omega arith;
    full = Full.nothing_left;
  }
  keep_head-Cut index kept bytes (line ∷ rest) hi hb li lb =
      choose (λ (k : Kept). Cut max_lines max_bytes (kept ++ line ∷ rest) k.output_lines)
        (leb max_lines index) (ltb max_bytes (bytes + (utf8_bytes line + separator index))) _ _ _
        (λ h. stopped (Full.no_more_lines (let k = le_of_leb _ _ h in omega arith)))
        (λ h. stopped (
          Full.no_more_bytes
            (let k = lt_of_ltb _ _ h in omega (arith, join_lines-snoc kept line, ap separator hi))))
        λ h l.
          let below = lt_of_not_leb _ _ h in
          let fits = le_of_not_ltb _ _ l in
          subst
            (λ all.
              Cut max_lines max_bytes all
                (keep_head max_lines max_bytes (index + 1) (kept ++ line ∷ [])
                  (bytes + (utf8_bytes line + separator index)) rest).output_lines)
            (append_assoc kept (line ∷ []) rest)
            (keep_head-Cut (index + 1) (kept ++ line ∷ []) _ rest
              (omega (arith, length-append kept (line ∷ [])))
              (omega (arith, join_lines-snoc kept line, ap separator hi)) (omega arith) fits)
    where
      stopped :
          Full max_lines max_bytes kept (line ∷ rest)
          → Cut max_lines max_bytes (kept ++ line ∷ rest) kept
      stopped full = record {
        rest = line ∷ rest;
        split = refl;
        lines_fit = omega arith;
        bytes_fit = omega arith;
        full = full;
      }
