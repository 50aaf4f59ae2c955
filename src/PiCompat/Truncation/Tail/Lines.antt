-- ===== src/PiCompat/Truncation/Tail/Lines.antt =====
-- The loop of `truncate_tail` in src/millforge/tools/pi_compat/truncation.py.
use millforge.Prelude.{
  ℕ, ◌+◌, ◌≤◌, ◌<◌, List, [], ◌∷◌, ◌++◌, length, Bool, true, false, Option, some, ltb, leb,
  if◌then◌else◌, ◌≡◌, refl, ap, ◌∙◌, ◌⊎◌, inl, inr, arith, lt_of_ltb, le_of_leb, lt_of_not_leb,
  le_of_not_ltb, or_false,
}
use mathlib.Core.Option
use millforge.PiCompat.Truncation.{Text, join_lines, utf8_bytes}
use millforge.PiCompat.Truncation.Head.{separator, separator-suc, two_lines}
use millforge.PiCompat.Truncation.Tail.{
  KeptTail, keep_tail, overflow_tail, rev_append, stopped_tail,
}
use millforge.PiCompat.Truncation.Tail.Clean.{AllClean, IsClean}
use millforge.PiCompat.Truncation.Tail.Boundary.{FromEnd, clean-FromEnd}

rev_append_twice :
    {A : Type 0} (xs ys zs : List A) → rev_append (rev_append xs ys) zs ≡ rev_append ys (xs ++ zs)
unfolding rev_append
rev_append_twice [] ys zs = refl
rev_append_twice (x ∷ xs) ys zs = rev_append_twice xs (x ∷ ys) zs

append_nil : {A : Type 0} (xs : List A) → xs ++ [] ≡ xs
append_nil [] = refl
append_nil (x ∷ xs) = ap (λ l. x ∷ l) (append_nil xs)

pub rev_append_back : {A : Type 0} (xs : List A) → rev_append (rev_append xs []) [] ≡ xs
unfolding rev_append
rev_append_back xs = rev_append_twice xs [] [] ∙ append_nil xs

-- A line before others costs its bytes, and a separator if there are others.
join_lines-cons :
    (line : Text) (lines : List Text)
    → utf8_bytes (join_lines (line ∷ lines))
      ≡ utf8_bytes (join_lines lines) + (utf8_bytes line + separator (length lines))
unfolding join_lines utf8_bytes
join_lines-cons line [] = omega arith
join_lines-cons line (next ∷ rest) =
    omega (arith, two_lines line (join_lines (next ∷ rest)), separator-suc (length rest))

-- The lines kept from the end, and those dropped, from the last of these on.
pub record LastLines (max_lines max_bytes : ℕ) (all kept : List Text) : Type 0 where
  pub dropped : List Text
  pub split : rev_append dropped kept ≡ all
  pub lines_fit : length kept ≤ max_lines
  pub bytes_fit : utf8_bytes (join_lines kept) ≤ max_bytes
  pub full :
      (dropped ≡ [])
      ⊎ ((length kept ≡ max_lines)
          ⊎ ((next : Text) × (more : List Text) × (dropped ≡ next ∷ more)
              × (max_bytes < utf8_bytes (join_lines (next ∷ kept)))))

-- What is kept: last lines, or the end of the last line, where that exceeds the limit of bytes.
pub data TailKept (max_lines max_bytes : ℕ) (all : List Text) (k : KeptTail) : Type 0 where
  lines :
      k.last_line_partial ≡ false
      → LastLines max_lines max_bytes all k.output_lines
      → TailKept max_lines max_bytes all k
  partial :
      (before : List Text) (last text : Text)
      → k.last_line_partial ≡ true
      → 1 ≤ max_lines
      → rev_append before (last ∷ []) ≡ all
      → max_bytes < utf8_bytes last
      → k.output_lines ≡ text ∷ []
      → FromEnd last max_bytes text
      → TailKept max_lines max_bytes all k

choose :
    {A : Type 0} (P : A → Type 0) (a b : Bool) (x y z : A)
    → (a ≡ true → P x)
    → (a ≡ false → b ≡ true → P y)
    → (a ≡ false → b ≡ false → P z)
    → P (if a then x else if b then y else z)
choose P true b x y z f g h = f refl
choose P false true x y z f g h = g refl refl
choose P false false x y z f g h = h refl refl

module _ (max_lines max_bytes : ℕ) where
  abbrev Gives : List Text → Option KeptTail → Type 0
  Gives all o = (k : KeptTail) × (o ≡ some k) × TailKept max_lines max_bytes all k

  overflow_tail-Gives :
      (kept : List Text) (bytes : ℕ) (line : Text) (rest : List Text)
      → bytes ≡ utf8_bytes (join_lines kept)
      → length kept < max_lines
      → bytes ≤ max_bytes
      → max_bytes < bytes + (utf8_bytes line + separator (length kept))
      → IsClean line
      → Gives (rev_append (line ∷ rest) kept) (overflow_tail max_bytes kept bytes line)
  unfolding overflow_tail rev_append join_lines utf8_bytes
  overflow_tail-Gives [] bytes line rest hb l lb over clean =
      let (text, e, from_end) = clean-FromEnd line max_bytes clean in
      (
        _,
        ap (Option.map _) e,
        TailKept.partial rest line text refl (omega arith) refl (omega arith) refl from_end,
      )
  overflow_tail-Gives (next ∷ later) bytes line rest hb l lb over clean = (
    _,
    refl,
    TailKept.lines refl (record {
      dropped = line ∷ rest;
      split = refl;
      lines_fit = omega arith;
      bytes_fit = omega arith;
      full = inr (inr (line, rest, refl, omega (arith, join_lines-cons line (next ∷ later))));
    }),
  )

  pub keep_tail-Gives :
      (kept : List Text) (bytes : ℕ) (rest : List Text)
      → bytes ≡ utf8_bytes (join_lines kept)
      → length kept ≤ max_lines
      → bytes ≤ max_bytes
      → AllClean rest
      → Gives (rev_append rest kept) (keep_tail max_lines max_bytes kept bytes rest)
  unfolding keep_tail stopped_tail rev_append
  keep_tail-Gives kept bytes [] hb l lb clean = (
    _,
    refl,
    TailKept.lines refl (record {
      dropped = [];
      split = refl;
      lines_fit = omega arith;
      bytes_fit = omega arith;
      full = inl refl;
    }),
  )
  keep_tail-Gives kept bytes (line ∷ rest) hb l lb clean =
      let (first, later) = or_false _ _ clean in
      choose (λ o. Gives (rev_append (line ∷ rest) kept) o) (leb max_lines (length kept))
        (ltb max_bytes (bytes + (utf8_bytes line + separator (length kept)))) _ _ _
        (λ h. (
          _,
          refl,
          TailKept.lines refl (record {
            dropped = line ∷ rest;
            split = refl;
            lines_fit = omega arith;
            bytes_fit = omega arith;
            full = inr (inl (let k = le_of_leb _ _ h in omega arith));
          }),
        ))
        (λ h o.
          overflow_tail-Gives kept bytes line rest hb (lt_of_not_leb _ _ h) lb (lt_of_ltb _ _ o)
            first)
        λ h o.
          let below = lt_of_not_leb _ _ h in
          keep_tail-Gives (line ∷ kept) _ rest (omega (arith, join_lines-cons line kept))
            (omega arith) (le_of_not_ltb _ _ o) later
