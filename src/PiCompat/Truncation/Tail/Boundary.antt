-- ===== src/PiCompat/Truncation/Tail/Boundary.antt =====
-- `_truncate_from_end` of src/millforge/tools/pi_compat/truncation.py.
use millforge.Prelude.{
  ℕ, ◌+◌, ◌-◌, ◌≤◌, ◌<◌, [], ◌∷◌, ◌++◌, length, any, true, false, none, some, leb, ◌≡◌, refl, sym,
  ap, ◌∙◌, ◌⊎◌, Bool-cases, inl, inr, arith, le_of_leb, lt_of_not_leb,
}
use millforge.PiCompat.Truncation.{Text, character_bytes, is_surrogate, utf8_bytes}
use millforge.PiCompat.Truncation.Tail.{decode, keep_bytes, truncate_from_end}
use millforge.PiCompat.Truncation.Tail.Cut.{Cut, Cut-at}
use millforge.PiCompat.Truncation.Tail.Bytes.{
  decode-encoding, encode-none, encode-some, encoding, encoding-length,
}

-- The characters that are kept from the end of a text.
pub record FromEnd (text : Text) (max_bytes : ℕ) (kept : Text) : Type 0 where
  pub dropped : Text
  pub split : dropped ++ kept ≡ text
  pub fits : utf8_bytes kept ≤ max_bytes
  pub full :
      (dropped ≡ [])
      ⊎ ((before : Text) × (c : ℕ) × (dropped ≡ before ++ c ∷ [])
          × (max_bytes < character_bytes c + utf8_bytes kept))

utf8_bytes-append : (a b : Text) → utf8_bytes (a ++ b) ≡ utf8_bytes a + utf8_bytes b
unfolding utf8_bytes
utf8_bytes-append [] b = omega arith
utf8_bytes-append (c ∷ a) b = omega (arith, utf8_bytes-append a b)

FromEnd-Cut :
    (text : Text) (max_bytes start : ℕ)
    → start + max_bytes ≡ utf8_bytes text
    → (cut : Cut text start (encoding text)) → FromEnd text max_bytes cut.kept
unfolding utf8_bytes
FromEnd-Cut text max_bytes start e cut =
    let total = sym (utf8_bytes-append cut.dropped cut.kept) ∙ ap utf8_bytes cut.split in
    let enough = cut.enough in
    record {
      dropped = cut.dropped;
      split = cut.split;
      fits = omega arith;
      full = elim cut.needed [
        | inl h ↦ inl h
        | inr (before, c, h, k) ↦
            inr (before, c, h, omega (arith, utf8_bytes-append before (c ∷ []), ap utf8_bytes h))
      ];
    }

keep_bytes-FromEnd :
    (text : Text) (max_bytes : ℕ)
    → (kept : Text) × (keep_bytes text max_bytes (encoding text) ≡ some kept)
      × FromEnd text max_bytes kept
unfolding keep_bytes
keep_bytes-FromEnd text max_bytes = elim (Bool-cases (leb (length (encoding text)) max_bytes)) [
  | inl h ↦ (
    text,
    rw h refl,
    record {
      dropped = [];
      split = refl;
      fits = (let k = le_of_leb _ _ h in omega (arith, encoding-length text));
      full = inl refl;
    },
  )
  | inr h ↦
      let over = lt_of_not_leb _ _ h in
      let cut =
        Cut-at text (length (encoding text) - max_bytes) (omega (arith, encoding-length text)) in
      (
        cut.kept,
        rw h (ap decode cut.rest ∙ decode-encoding cut.kept),
        FromEnd-Cut text max_bytes _ (omega (arith, encoding-length text)) cut,
      )
]

-- The end of a text with no surrogate is decoded without an error.
pub clean-FromEnd :
    (text : Text) (max_bytes : ℕ)
    → any is_surrogate text ≡ false
    → (kept : Text) × (truncate_from_end text max_bytes ≡ some kept) × FromEnd text max_bytes kept
unfolding truncate_from_end
clean-FromEnd text max_bytes clean = rw (encode-some text clean) (keep_bytes-FromEnd text max_bytes)

-- `_truncate_from_end` raises for a text with a surrogate, which cannot be encoded. Of every other
-- text it decodes what it has cut without an error, and keeps the last characters, whole, that fit
-- the limit of bytes, and as many of them as fit.
pub truncate_from_end-FromEnd :
    (text : Text) (max_bytes : ℕ)
    → ((any is_surrogate text ≡ true) × (truncate_from_end text max_bytes ≡ none))
      ⊎ ((any is_surrogate text ≡ false)
          × ((kept : Text) × (truncate_from_end text max_bytes ≡ some kept)
              × FromEnd text max_bytes kept))
unfolding truncate_from_end
truncate_from_end-FromEnd text max_bytes = elim (Bool-cases (any is_surrogate text)) [
  | inl h ↦ inl (h, rw (encode-none text h) refl)
  | inr h ↦ inr (h, clean-FromEnd text max_bytes h)
]
