-- ===== src/Prelude/Lists.antt =====
-- Lists measured and cut by native numbers, under the library's names.
use Prim.Native.Nat.{ℕ, zero, suc, ◌+◌, ◌-◌, ◌≤◌}
use mathlib.Core.Bool.{Bool, true, false, ◌&&◌, ◌||◌}
use mathlib.Core.List.{List, [], ◌∷◌, ◌++◌}
use mathlib.Core.Path.{◌≡◌, refl, ap, ◌∙◌}
use native.Mathlib.Omega.{arith}

less_one : (p n : ℕ) → suc p - suc n ≡ p - n
less_one p n = omega arith

module _ {ℓ} {A : Type ℓ} where
  abbrev pub length : List A → ℕ
  length [] = 0
  length (x ∷ xs) = suc (length xs)

  pub length-append : (xs ys : List A) → length (xs ++ ys) ≡ length xs + length ys
  length-append [] ys = omega arith
  length-append (x ∷ xs) ys = omega (arith, length-append xs ys)

  abbrev pub any : (A → Bool) → List A → Bool
  any p [] = false
  any p (x ∷ xs) = p x || any p xs

  abbrev pub all : (A → Bool) → List A → Bool
  all p [] = true
  all p (x ∷ xs) = p x && all p xs

  -- `xs[:n]`
  abbrev pub take : ℕ → List A → List A
  take zero xs = []
  take (suc n) [] = []
  take (suc n) (x ∷ xs) = x ∷ take n xs

  -- `xs[n:]`
  abbrev pub drop : ℕ → List A → List A
  drop zero xs = xs
  drop (suc n) [] = []
  drop (suc n) (x ∷ xs) = drop n xs

  pub take-drop : (n : ℕ) (xs : List A) → take n xs ++ drop n xs ≡ xs
  take-drop zero xs = refl
  take-drop (suc n) [] = refl
  take-drop (suc n) (x ∷ xs) = ap (λ l. x ∷ l) (take-drop n xs)

  -- What stands at the end of a first part, and in front of it.
  pub drop-take_append : (n : ℕ) (xs ys : List A) → n ≤ length xs → drop n (take n xs ++ ys) ≡ ys
  drop-take_append zero xs ys h = refl
  drop-take_append (suc n) [] ys h = absurd (omega arith)
  drop-take_append (suc n) (x ∷ xs) ys h = drop-take_append n xs ys (omega arith)

  pub take-take_append :
      (k n : ℕ) (xs ys : List A) → k ≤ n → n ≤ length xs → take k (take n xs ++ ys) ≡ take k xs
  take-take_append zero n xs ys l h = refl
  take-take_append (suc k) zero xs ys l h = absurd (omega arith)
  take-take_append (suc k) (suc n) [] ys l h = absurd (omega arith)
  take-take_append (suc k) (suc n) (x ∷ xs) ys l h =
      ap (λ l. x ∷ l) (take-take_append k n xs ys (omega arith) (omega arith))

  -- A part in two steps.
  pub drop-drop : (n p : ℕ) (xs : List A) → n ≤ p → drop (p - n) (drop n xs) ≡ drop p xs
  drop-drop zero p xs h = ap (λ k. drop k xs) (omega arith)
  drop-drop (suc n) zero xs h = absurd (omega arith)
  drop-drop (suc n) (suc p) [] h = nothing_to_drop (suc p - suc n)
    where
      nothing_to_drop : (k : ℕ) → drop k [] ≡ []
      nothing_to_drop zero = refl
      nothing_to_drop (suc k) = refl
  drop-drop (suc n) (suc p) (x ∷ xs) h =
      ap (λ k. drop k (drop n xs)) (less_one p n) ∙ drop-drop n p xs (omega arith)

  pub take-take :
      (n p : ℕ) (xs : List A) → n ≤ p → take n xs ++ take (p - n) (drop n xs) ≡ take p xs
  take-take zero p xs h = ap (λ k. take k xs) (omega arith)
  take-take (suc n) zero xs h = absurd (omega arith)
  take-take (suc n) (suc p) [] h = nothing_to_take (suc p - suc n)
    where
      nothing_to_take : (k : ℕ) → take k [] ≡ []
      nothing_to_take zero = refl
      nothing_to_take (suc k) = refl
  take-take (suc n) (suc p) (x ∷ xs) h =
      ap (λ l. x ∷ l)
        (ap (λ k. take n xs ++ take k (drop n xs)) (less_one p n) ∙ take-take n p xs (omega arith))
