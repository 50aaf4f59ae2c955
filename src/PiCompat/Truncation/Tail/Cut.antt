-- ===== src/PiCompat/Truncation/Tail/Cut.antt =====
-- Cuts in the bytes of a text, at a byte that may lie inside of a character, for `_truncate_from_end`
-- of src/millforge/tools/pi_compat/truncation.py.
use millforge.Prelude.{
  drop, ℕ, zero, suc, ◌+◌, ◌≤◌, ◌<◌, List, [], ◌∷◌, ◌++◌, length, true, false, ltb, ◌≡◌, refl, ap,
  ◌∙◌, ◌⊎◌, inl, inr, arith,
}
use Prim.Native.Nat.{◌/◌}
use millforge.PiCompat.Truncation.{Text, character_bytes, utf8_bytes}
use millforge.PiCompat.Truncation.Tail.{drop_continuations, is_continuation}
use millforge.PiCompat.Truncation.Tail.Bytes.{
  Encoded, continues, encoding, encode_character-Encoded, encode_character-length,
}

-- The characters dropped by a cut at a byte, the last of them being the one that is cut.
pub record Cut (text : Text) (start : ℕ) (bytes : List ℕ) : Type 0 where
  pub dropped : Text
  pub kept : Text
  pub split : dropped ++ kept ≡ text
  pub rest : drop_continuations (drop start bytes) ≡ encoding kept
  pub enough : start ≤ utf8_bytes dropped
  pub needed :
      (dropped ≡ [])
      ⊎ ((before : Text) × (c : ℕ) × (dropped ≡ before ++ c ∷ []) × (utf8_bytes before < start))

lead_two : (c : ℕ) → is_continuation (0xC0 + c / 0x40) ≡ false
unfolding is_continuation
lead_two c = ground arith

lead_three : (c : ℕ) → is_continuation (0xE0 + c / 0x1000) ≡ false
unfolding is_continuation
lead_three c = ground arith

lead_four : (c : ℕ) → is_continuation (0xF0 + c / 0x40000) ≡ false
unfolding is_continuation
lead_four c = ground arith

lead_one : (c : ℕ) → ltb c 0x80 ≡ true → is_continuation c ≡ false
unfolding is_continuation
lead_one c h = ground arith

-- A character does not begin with a continuation.
stays :
    {c : ℕ} {bytes : List ℕ} (rest : List ℕ)
    → Encoded c bytes
    → drop_continuations (bytes ++ rest) ≡ bytes ++ rest
unfolding drop_continuations
stays {c} rest (Encoded.one h) = rw (lead_one c h) refl
stays {c} rest (Encoded.two h) = rw (lead_two c) refl
stays {c} rest (Encoded.three h) = rw (lead_three c) refl
stays {c} rest Encoded.four = rw (lead_four c) refl

stays-encoding : (text : Text) → drop_continuations (encoding text) ≡ encoding text
unfolding encoding drop_continuations
stays-encoding [] = refl
stays-encoding (c ∷ text) = stays (encoding text) (encode_character-Encoded c)

-- A cut at the start of a text, in its first character, or after it.
at_start : (text : Text) → Cut text 0 (encoding text)
unfolding utf8_bytes
at_start text = record {
  dropped = [];
  kept = text;
  split = refl;
  rest = stays-encoding text;
  enough = omega arith;
  needed = inl refl;
}

module _ (c : ℕ) (text : Text) where
  in_first :
      (start : ℕ) (bytes : List ℕ)
      → drop_continuations (drop (suc start) bytes) ≡ encoding text
      → suc start ≤ character_bytes c
      → Cut (c ∷ text) (suc start) bytes
  unfolding utf8_bytes
  in_first start bytes h l = record {
    dropped = c ∷ [];
    kept = text;
    split = refl;
    rest = h;
    enough = omega arith;
    needed = inr ([], c, refl, omega arith);
  }

  after_first :
      (start later : ℕ) (bytes : List ℕ)
      → start ≡ character_bytes c + later
      → 1 ≤ character_bytes c
      → drop start bytes ≡ drop later (encoding text)
      → Cut text later (encoding text)
      → Cut (c ∷ text) start bytes
  unfolding utf8_bytes
  after_first start later bytes e l h cut = record {
    dropped = c ∷ cut.dropped;
    kept = cut.kept;
    split = ap (λ t. c ∷ t) cut.split;
    rest = ap drop_continuations h ∙ cut.rest;
    enough = (let k = cut.enough in omega arith);
    needed = inr (elim cut.needed [
      | inl none_dropped ↦ ([], c, ap (λ t. c ∷ t) none_dropped, omega arith)
      | inr (before, d, split, k) ↦ (c ∷ before, d, ap (λ t. c ∷ t) split, omega arith)
    ]);
  }

  -- A cut after at least one byte of a text.
  Cut-first :
      {bytes : List ℕ} (start : ℕ)
      → Encoded c bytes
      → length bytes ≡ character_bytes c
      → suc start ≤ character_bytes c + utf8_bytes text
      → ((later : ℕ) → later ≤ utf8_bytes text → Cut text later (encoding text))
      → Cut (c ∷ text) (suc start) (bytes ++ encoding text)
  unfolding drop_continuations
  Cut-first start (Encoded.one h) e l after =
      after_first (suc start) start _ (omega arith) (omega arith) refl (after start (omega arith))
  Cut-first zero (Encoded.two h) e l after =
      in_first 0 _ (rw (continues c) (stays-encoding text)) (omega arith)
  Cut-first (suc start) (Encoded.two h) e l after =
      after_first (suc (suc start)) start _ (omega arith) (omega arith) refl
        (after start (omega arith))
  Cut-first zero (Encoded.three h) e l after =
      in_first 0 _ (rw (continues c, continues (c / 0x40)) (stays-encoding text)) (omega arith)
  Cut-first (suc zero) (Encoded.three h) e l after =
      in_first 1 _ (rw (continues c) (stays-encoding text)) (omega arith)
  Cut-first (suc (suc start)) (Encoded.three h) e l after =
      after_first (suc (suc (suc start))) start _ (omega arith) (omega arith) refl
        (after start (omega arith))
  Cut-first zero Encoded.four e l after =
      in_first 0 _
        (rw (continues c, continues (c / 0x40), continues (c / 0x1000)) (stays-encoding text))
        (omega arith)
  Cut-first (suc zero) Encoded.four e l after =
      in_first 1 _ (rw (continues c, continues (c / 0x40)) (stays-encoding text)) (omega arith)
  Cut-first (suc (suc zero)) Encoded.four e l after =
      in_first 2 _ (rw (continues c) (stays-encoding text)) (omega arith)
  Cut-first (suc (suc (suc start))) Encoded.four e l after =
      after_first (suc (suc (suc (suc start)))) start _ (omega arith) (omega arith) refl
        (after start (omega arith))

pub Cut-at : (text : Text) (start : ℕ) → start ≤ utf8_bytes text → Cut text start (encoding text)
unfolding encoding utf8_bytes
Cut-at text zero l = at_start text
Cut-at [] (suc start) l = absurd (omega arith)
Cut-at (c ∷ text) (suc start) l =
    Cut-first c text start (encode_character-Encoded c) (encode_character-length c) l (Cut-at text)
