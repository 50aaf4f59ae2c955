-- ===== src/PiCompat/Truncation/Tail/Bytes.antt =====
-- UTF-8 as src/millforge/tools/pi_compat/truncation.py uses it: the forms of a character, and the
-- decoder on them.
use millforge.Prelude.{
  ℕ, ◌+◌, ◌-◌, ◌≤◌, List, [], ◌∷◌, ◌++◌, length, length-append, any, true, false, none, some, ltb,
  ◌≡◌, refl, ap, ◌∙◌, Bool-cases, or_false, inl, inr, arith,
}
use Prim.Native.Nat.{◌/◌, ◌%◌, ◌*◌}
use millforge.PiCompat.Truncation.{Text, character_bytes, is_surrogate, utf8_bytes}
use millforge.PiCompat.Truncation.Tail.{
  decode, decode_from, encode, encode_character, is_continuation, put,
}

two_bytes : (c : ℕ) → (0xC0 + c / 0x40 - 0xC0) * 0x40 + (0x80 + c % 0x40 - 0x80) ≡ c
two_bytes c = omega arith

three_bytes :
    (c : ℕ)
    → ((0xE0 + c / 0x1000 - 0xE0) * 0x40 + (0x80 + c / 0x40 % 0x40 - 0x80)) * 0x40
        + (0x80 + c % 0x40 - 0x80)
      ≡ c
three_bytes c = omega arith

four_bytes :
    (c : ℕ)
    → (((0xF0 + c / 0x40000 - 0xF0) * 0x40 + (0x80 + c / 0x1000 % 0x40 - 0x80)) * 0x40
            + (0x80 + c / 0x40 % 0x40 - 0x80))
          * 0x40
        + (0x80 + c % 0x40 - 0x80)
      ≡ c
four_bytes c = omega arith

-- A number at or above a bound is not below it.
not_below : (a k b : ℕ) → b ≤ a → ltb (a + k) b ≡ false
not_below a k b h = ground arith

pub continues : (c : ℕ) → is_continuation (0x80 + c % 0x40) ≡ true
unfolding is_continuation
continues c = ground arith

lead_two : (c : ℕ) → ltb c 0x800 ≡ true → ltb (0xC0 + c / 0x40) 0xE0 ≡ true
lead_two c h = ground arith

lead_three : (c : ℕ) → ltb c 0x10000 ≡ true → ltb (0xE0 + c / 0x1000) 0xF0 ≡ true
lead_three c h = ground arith

decoded_nothing : decode [] ≡ some []
unfolding decode decode_from
decoded_nothing = refl

-- The four forms of a character.
pub data Encoded (c : ℕ) : List ℕ → Type 0 where
  one : ltb c 0x80 ≡ true → Encoded c (c ∷ [])
  two : ltb c 0x800 ≡ true → Encoded c ((0xC0 + c / 0x40) ∷ (0x80 + c % 0x40) ∷ [])
  three :
      ltb c 0x10000 ≡ true
      → Encoded c ((0xE0 + c / 0x1000) ∷ (0x80 + c / 0x40 % 0x40) ∷ (0x80 + c % 0x40) ∷ [])
  four : Encoded c (
      (0xF0 + c / 0x40000)
      ∷ (0x80 + c / 0x1000 % 0x40)
      ∷ (0x80 + c / 0x40 % 0x40)
      ∷ (0x80 + c % 0x40)
      ∷ [])

pub encode_character-Encoded : (c : ℕ) → Encoded c (encode_character c)
unfolding encode_character
encode_character-Encoded c = elim (Bool-cases (ltb c 0x80)) [
  | inl h ↦ rw h (Encoded.one h)
  | inr h ↦ elim (Bool-cases (ltb c 0x800)) [
    | inl k ↦ rw (h, k) (Encoded.two k)
    | inr k ↦ elim (Bool-cases (ltb c 0x10000)) [
      | inl l ↦ rw (h, k, l) (Encoded.three l)
      | inr l ↦ rw (h, k, l) Encoded.four
    ]
  ]
]

pub encode_character-length : (c : ℕ) → length (encode_character c) ≡ character_bytes c
unfolding encode_character character_bytes
encode_character-length c = ground arith

-- The bytes of a text, one character after another, surrogates included.
unfoldable pub encoding : Text → List ℕ
encoding [] = []
encoding (c ∷ text) = encode_character c ++ encoding text

-- The encoder gives these bytes, or an error where there is a surrogate.
pub encode-some : (text : Text) → any is_surrogate text ≡ false → encode text ≡ some (encoding text)
unfolding encode encoding
encode-some [] h = refl
encode-some (c ∷ text) h =
    let (first, rest) = or_false (is_surrogate c) _ h in rw (first, encode-some text rest) refl

pub encode-none : (text : Text) → any is_surrogate text ≡ true → encode text ≡ none
unfolding encode
encode-none [] h = absurd (cc)
encode-none (c ∷ text) h = elim (Bool-cases (is_surrogate c)) [
  | inl k ↦ rw k refl
  | inr k ↦ rw (k, encode-none text (ground (arith, h, k))) refl
]

pub encoding-length : (text : Text) → length (encoding text) ≡ utf8_bytes text
unfolding encoding utf8_bytes
encoding-length [] = refl
encoding-length (c ∷ text) = omega (
  arith,
  length-append (encode_character c) (encoding text),
  encode_character-length c,
  encoding-length text,
)

-- A character is read back.
decode_character :
    {c : ℕ} {bytes : List ℕ} (rest : List ℕ)
    → Encoded c bytes
    → decode (bytes ++ rest) ≡ put c (decode rest)
unfolding decode decode_from
decode_character rest (one h) = rw h refl
decode_character {c} rest (two h) =
    rw
      (
        not_below 0xC0 (c / 0x40) 0x80 (omega arith),
        not_below 0xC0 (c / 0x40) 0xC0 (omega arith),
        lead_two c h,
        continues c,
        two_bytes c,
      )
      refl
decode_character {c} rest (three h) =
    rw
      (
        not_below 0xE0 (c / 0x1000) 0x80 (omega arith),
        not_below 0xE0 (c / 0x1000) 0xC0 (omega arith),
        not_below 0xE0 (c / 0x1000) 0xE0 (omega arith),
        lead_three c h,
        continues c,
        continues (c / 0x40),
        three_bytes c,
      )
      refl
decode_character {c} rest four =
    rw
      (
        not_below 0xF0 (c / 0x40000) 0x80 (omega arith),
        not_below 0xF0 (c / 0x40000) 0xC0 (omega arith),
        not_below 0xF0 (c / 0x40000) 0xE0 (omega arith),
        not_below 0xF0 (c / 0x40000) 0xF0 (omega arith),
        continues c,
        continues (c / 0x40),
        continues (c / 0x1000),
        four_bytes c,
      )
      refl

-- What the encoder makes is read back.
pub decode-encoding : (text : Text) → decode (encoding text) ≡ some text
unfolding encoding
decode-encoding [] = decoded_nothing
decode-encoding (c ∷ text) =
    decode_character (encoding text) (encode_character-Encoded c)
    ∙ ap (put c) (decode-encoding text)
