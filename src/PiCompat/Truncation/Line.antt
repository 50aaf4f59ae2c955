-- ===== src/PiCompat/Truncation/Line.antt =====
-- `truncate_line` of src/millforge/tools/pi_compat/truncation.py.
use millforge.Prelude.{
  ℕ, ◌+◌, ◌≤◌, ◌<◌, [], ◌∷◌, ◌++◌, true, false, ltb, leb, le_of_leb, lt_of_not_leb, lt_of_ltb,
  le_of_not_ltb, ◌≡◌, refl, ap, ◌⊎◌, inl, inr, Bool-cases, arith,
}
use millforge.PiCompat.Truncation.{
  Text, character_units, sanitize_text, take_units_from, take_utf16_code_units, truncate_line,
  truncated_suffix, utf16_code_unit_length,
}

-- The first characters of a text, as many as the units allow.
pub record Taken (maximum units : ℕ) (text taken : Text) : Type 0 where
  pub rest : Text
  pub split : taken ++ rest ≡ text
  pub fits : units + utf16_code_unit_length taken ≤ maximum
  pub full :
      (rest ≡ [])
      ⊎ ((next : ℕ) × (more : Text) × (rest ≡ next ∷ more)
          × (maximum < units + utf16_code_unit_length taken + character_units next))

take_units_from-Taken :
    (maximum units : ℕ) (text : Text)
    → units ≤ maximum
    → Taken maximum units text (take_units_from maximum units text)
unfolding take_units_from utf16_code_unit_length
take_units_from-Taken maximum units [] h = record {
  rest = [];
  split = refl;
  fits = omega arith;
  full = inl refl;
}
take_units_from-Taken maximum units (c ∷ text) h =
    elim (Bool-cases (ltb maximum (units + character_units c))) [
      | inl over ↦ rw over (record {
        rest = c ∷ text;
        split = refl;
        fits = omega arith;
        full = inr (c, text, refl, (let k = lt_of_ltb _ _ over in omega arith));
      })
      | inr under ↦ rw under (
          let more =
            take_units_from-Taken maximum (units + character_units c) text
              (le_of_not_ltb _ _ under) in
          longer more)
    ]
  where
    longer :
        {taken : Text}
        → Taken maximum (units + character_units c) text taken
        → Taken maximum units (c ∷ text) (c ∷ taken)
    longer more = record {
      rest = more.rest;
      split = ap (λ t. c ∷ t) more.split;
      fits = (let k = more.fits in omega arith);
      full = elim more.full [
        | inl e ↦ inl e
        | inr (next, later, e, k) ↦ inr (next, later, e, omega arith)
      ];
    }

-- A line that fits the limit of UTF-16 code units is returned whole, after it is sanitized. Of a
-- longer one as many first characters are kept as fit the limit, none of them cut in two, and the
-- suffix is put after them.
pub truncate_line-Taken :
    (line : Text) (max_characters : ℕ)
    → let text = sanitize_text line in
      ((truncate_line line max_characters ≡ (text, false))
        × (utf16_code_unit_length text ≤ max_characters))
      ⊎ ((max_characters < utf16_code_unit_length text)
          × ((taken : Text) × (truncate_line line max_characters
                ≡ (taken ++ truncated_suffix, true))
              × Taken max_characters 0 text taken))
unfolding truncate_line take_utf16_code_units
truncate_line-Taken line max_characters =
    let text = sanitize_text line in
    elim (Bool-cases (leb (utf16_code_unit_length text) max_characters)) [
      | inl h ↦ inl (rw h refl, le_of_leb _ _ h)
      | inr h ↦ inr (
        lt_of_not_leb _ _ h,
        (
          take_units_from max_characters 0 text,
          rw h refl,
          take_units_from-Taken max_characters 0 text (omega arith),
        ),
      )
    ]
