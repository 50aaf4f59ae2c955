-- ===== src/Compiler/Collections/Laws.antt =====
-- Laws of the sets, the dictionaries and `sorted` of src/millforge/compiler/graph.py.
use mathlib.Core.List.{reverse, reverse-append}
use text.Mathlib.TextEquality.{eq_iff}
use millforge.Prelude.{
  String, str_eq, List, [], ◌∷◌, ◌++◌, Bool, true, false, ◌&&◌, ◌||◌, not, Option, none, some,
  is_some, ◌≡◌, ◌≢◌, refl, ap, ◌∙◌, inl, inr, ◌⊎◌, if◌then◌else◌, lookup, arith, Bool-cases, length,
  length-append, ◌+◌,
}
use millforge.Compiler.Collections.{
  Eq, member, add, set_of, difference, insert_sorted, sorted, insert, get_or, or_else, ◌>>=◌,
}

pub or_swap : (a b c : Bool) → (a || (b || c)) ≡ (b || (a || c))
or_swap true true c = refl
or_swap true false c = refl
or_swap false b c = refl

module _ {A : Type 0} ⦃e : Eq A⦄ where
  pub member-append : (x : A) (xs ys : List A) → member x (xs ++ ys) ≡ (member x xs || member x ys)
  member-append x [] ys = refl
  member-append x (y ∷ xs) ys = ground (arith, member-append x xs ys)

  pub member-insert_sorted :
      (leb : A → A → Bool) (x y : A) (ys : List A)
      → member x (insert_sorted leb y ys) ≡ (e.beq x y || member x ys)
  unfolding insert_sorted
  member-insert_sorted leb x y [] = refl
  member-insert_sorted leb x y (z ∷ ys) = elim (Bool-cases (leb y z)) [
    | inl h ↦ rw h refl
    | inr h ↦
        rw (h, member-insert_sorted leb x y ys) (or_swap (e.beq x z) (e.beq x y) (member x ys))
  ]

  pub member-sorted :
      (leb : A → A → Bool) (x : A) (xs : List A) → member x (sorted leb xs) ≡ member x xs
  unfolding sorted
  member-sorted leb x [] = refl
  member-sorted leb x (y ∷ xs) =
      member-insert_sorted leb x y (sorted leb xs)
      ∙ ap (λ b. e.beq x y || b) (member-sorted leb x xs)

  pub member-add : (x y : A) (s : List A) → member x (add y s) ≡ (e.beq x y || member x s)
  unfolding add
  member-add x y s = elim (Bool-cases (member y s)) [
    | inl h ↦ rw h (elim (Bool-cases (e.beq x y)) [
      | inl same ↦ rw (same, e.beq_sound x y same) h
      | inr other ↦ rw other refl
    ])
    | inr h ↦ rw h refl
  ]

  pub member-set_of : (x : A) (xs : List A) → member x (set_of xs) ≡ member x xs
  unfolding set_of
  member-set_of x [] = refl
  member-set_of x (y ∷ xs) =
      member-add x y (set_of xs) ∙ ap (λ b. e.beq x y || b) (member-set_of x xs)

  pub member-difference :
      (x : A) (s t : List A) → member x (difference s t) ≡ (member x s && not (member x t))
  unfolding difference
  member-difference x [] t = refl
  member-difference x (y ∷ s) t = elim (Bool-cases (e.beq x y)) [
    | inl same ↦ elim (Bool-cases (member y t)) [
      | inl h ↦ rw (h, member-difference x s t, e.beq_sound x y same, h, e.beq_refl y) ground arith
      | inr h ↦ rw (h, member-difference x s t, e.beq_sound x y same, h, e.beq_refl y) refl
    ]
    | inr other ↦ elim (Bool-cases (member y t)) [
      | inl h ↦ rw (h, other) (member-difference x s t)
      | inr h ↦ rw (h, other) (member-difference x s t)
    ]
  ]

  pub member-reverse : (x : A) (xs : List A) → member x (reverse xs) ≡ member x xs
  member-reverse x [] = refl
  member-reverse x (y ∷ xs) =
      rw (reverse-append (y ∷ []) xs, member-append x (reverse xs) (y ∷ []), member-reverse x xs)
        (ground arith)

  -- A member of a difference, with both sides.
  pub member_cases : (x : A) (s : List A) → (member x s ≡ true) ⊎ (member x s ≡ false)
  member_cases x s = Bool-cases (member x s)

module _ {A : Type 0} where
  insert_sorted-ne-nil : (leb : A → A → Bool) (x : A) (ys : List A) → insert_sorted leb x ys ≢ []
  unfolding insert_sorted
  insert_sorted-ne-nil leb x [] = λ h. cc
  insert_sorted-ne-nil leb x (y ∷ ys) = elim (Bool-cases (leb x y)) [
    | inl b ↦ rw b (λ h. cc)
    | inr b ↦ rw b (λ h. cc)
  ]

  pub sorted-eq-nil : (leb : A → A → Bool) (xs : List A) → sorted leb xs ≡ [] → xs ≡ []
  unfolding sorted
  sorted-eq-nil leb [] h = refl
  sorted-eq-nil leb (x ∷ xs) h = absurd (insert_sorted-ne-nil leb x (sorted leb xs) h)

  length-insert_sorted :
      (leb : A → A → Bool) (x : A) (ys : List A) → length (insert_sorted leb x ys) ≡ length ys + 1
  unfolding insert_sorted
  length-insert_sorted leb x [] = omega arith
  length-insert_sorted leb x (y ∷ ys) = ground (arith, length-insert_sorted leb x ys)

  pub length-sorted : (leb : A → A → Bool) (xs : List A) → length (sorted leb xs) ≡ length xs
  unfolding sorted
  length-sorted leb [] = refl
  length-sorted leb (x ∷ xs) =
      omega (arith, length-insert_sorted leb x (sorted leb xs), length-sorted leb xs)

  pub length-reverse : (xs : List A) → length (reverse xs) ≡ length xs
  length-reverse [] = refl
  length-reverse (x ∷ xs) =
      rw (reverse-append (x ∷ []) xs)
        (omega (arith, length-append (reverse xs) (x ∷ []), length-reverse xs))

module _ {V : Type 0} where
  pub lookup-insert :
      (j k : String) (v : V) (d : List (String × V))
      → lookup j (insert k v d) ≡ (if str_eq k j then some v else lookup j d)
  unfolding lookup insert
  lookup-insert j k v [] = refl
  lookup-insert j k v ((i, w) ∷ d) =
      let rest = lookup-insert j k v d in ground (arith, eq_iff i j, eq_iff i k, eq_iff k j)

  pub get_or-some :
      (k : String) (d : List (String × V)) (v w : V) → lookup k d ≡ some w → get_or k d v ≡ w
  get_or-some k d v w e = ap (λ o. or_else o v) e

  -- Whether a key is present.
  pub has-insert :
      (j k : String) (v : V) (d : List (String × V))
      → is_some (lookup j (insert k v d)) ≡ (str_eq k j || is_some (lookup j d))
  has-insert j k v d =
      rw (lookup-insert j k v d)
        (elim (Bool-cases (str_eq k j)) [ inl h ↦ rw h refl | inr h ↦ rw h refl ])

  -- No key comes twice.
  abbrev pub HasUniqueKeys : List (String × V) → Type 0
  HasUniqueKeys [] = Unit
  HasUniqueKeys ((k, v) ∷ d) = (lookup k d ≡ none) × HasUniqueKeys d

  pub insert-HasUniqueKeys :
      (k : String) (v : V) (d : List (String × V)) → HasUniqueKeys d → HasUniqueKeys (insert k v d)
  unfolding insert lookup
  insert-HasUniqueKeys k v [] h = (refl, tt)
  insert-HasUniqueKeys k v ((j, w) ∷ d) (fresh, h) = elim (Bool-cases (str_eq j k)) [
    | inl same ↦ rw same (fresh, h)
    | inr other ↦ rw other (
      (lookup-insert j k v d ∙ ground (arith, eq_iff k j, eq_iff j k)),
      insert-HasUniqueKeys k v d h,
    )
  ]

pub Option-cases : {A : Type 0} (o : Option A) → (o ≡ none) ⊎ ((a : A) × (o ≡ some a))
Option-cases none = inl refl
Option-cases (some a) = inr (a, refl)

pub >>=_assoc :
    {A B C : Type 0} (f : A → Option B) (g : B → Option C) (h : A → Option C)
    → ((a : A) → h a ≡ (f a >>= g))
    → (o : Option A) → (o >>= h) ≡ ((o >>= f) >>= g)
>>=_assoc f g h e none = refl
>>=_assoc f g h e (some a) = e a
