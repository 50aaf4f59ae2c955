-- ===== src/PiCompat/Truncation/Sanitize.antt =====
-- `sanitize_text` of src/millforge/tools/pi_compat/truncation.py.
use millforge.Prelude.{
  ℕ, [], ◌∷◌, map, any, true, false, leb, ◌&&◌, ◌≡◌, refl, Bool-cases, or_false, inl, inr,
}
use millforge.PiCompat.Truncation.{Text, is_surrogate, sanitize_character, sanitize_text}

sanitize_character_clean : (c : ℕ) → is_surrogate (sanitize_character c) ≡ false
unfolding is_surrogate sanitize_character
sanitize_character_clean c = elim (Bool-cases (leb 0xD800 c && leb c 0xDFFF)) [
  | inl h ↦ rw h refl
  | inr h ↦ rw h h
]

any-map-sanitize_character : (text : Text) → any is_surrogate (map sanitize_character text) ≡ false
any-map-sanitize_character [] = refl
any-map-sanitize_character (c ∷ text) =
    rw (sanitize_character_clean c, any-map-sanitize_character text) refl

-- One character of a text and of its sanitized text.
pub data Replaced : Text → Text → Type 0 where
  nil : Replaced [] []
  kept :
      {c : ℕ} {text text' : Text}
      → is_surrogate c ≡ false
      → Replaced text text'
      → Replaced (c ∷ text) (c ∷ text')
  replaced :
      {c : ℕ} {text text' : Text}
      → is_surrogate c ≡ true
      → Replaced text text'
      → Replaced (c ∷ text) (0xFFFD ∷ text')

map-Replaced : (text : Text) → Replaced text (map sanitize_character text)
unfolding sanitize_character
map-Replaced [] = Replaced.nil
map-Replaced (c ∷ text) = elim (Bool-cases (is_surrogate c)) [
  | inl h ↦ rw h (Replaced.replaced h (map-Replaced text))
  | inr h ↦ rw h (Replaced.kept h (map-Replaced text))
]

clean-Replaced : (text : Text) → any is_surrogate text ≡ false → Replaced text text
clean-Replaced [] h = Replaced.nil
clean-Replaced (c ∷ text) h =
    let (first, rest) = or_false _ _ h in Replaced.kept first (clean-Replaced text rest)

-- A sanitized text has no surrogate, and is the text with U+FFFD in place of each surrogate and of
-- nothing else.
pub sanitize_text-Replaced :
    (text : Text)
    → (any is_surrogate (sanitize_text text) ≡ false) × Replaced text (sanitize_text text)
unfolding sanitize_text
sanitize_text-Replaced text = elim (Bool-cases (any is_surrogate text)) [
  | inl h ↦ rw h (any-map-sanitize_character text, map-Replaced text)
  | inr h ↦ rw h (h, clean-Replaced text h)
]
