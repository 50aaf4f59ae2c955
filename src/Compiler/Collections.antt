-- ===== src/Compiler/Collections.antt =====
-- Python's sets, dictionaries and `sorted`, as src/millforge/compiler/graph.py uses them.
pub mod Laws
use Prim.Native.Nat.{Ordering}
use Prim.Native.String.{compare}
use text.Mathlib.TextEquality.{eq_iff}
use millforge.Prelude.{
  ℕ, String, str_eq, List, [], ◌∷◌, ◌++◌, Bool, true, false, ◌&&◌, ◌||◌, Option, none, some, ◌≡◌,
  refl, if◌then◌else◌, lookup, arith,
}

pub record Eq (A : Type 0) : Type 0 where
  pub beq : A → A → Bool
  pub beq_sound : (a b : A) → beq a b ≡ true → a ≡ b
  pub beq_refl : (a : A) → beq a a ≡ true

instance abbrev pub string_eq : Eq String
string_eq = record {
  beq = str_eq;
  beq_sound = λ a b. (eq_iff a b).0;
  beq_refl = λ a. (eq_iff a a).1 refl;
}

abbrev pub pair_beq : String × String → String × String → Bool
pair_beq (a, b) (c, d) = str_eq a c && str_eq b d

pub pair_beq_sound : (p q : String × String) → pair_beq p q ≡ true → p ≡ q
pair_beq_sound (a, b) (c, d) h = ground (arith, eq_iff a c, eq_iff b d)

pub pair_beq_refl : (p : String × String) → pair_beq p p ≡ true
pair_beq_refl (a, b) = ground (arith, eq_iff a a, eq_iff b b)

instance abbrev pub pair_eq : Eq (String × String)
pair_eq = record { beq = pair_beq; beq_sound = pair_beq_sound; beq_refl = pair_beq_refl }

-- Sets: lists whose order means nothing.
module _ {A : Type 0} ⦃e : Eq A⦄ where
  -- `x in s`
  abbrev pub member : A → List A → Bool
  member x [] = false
  member x (y ∷ ys) = e.beq x y || member x ys

  -- `s.add(x)`
  unfoldable pub add : A → List A → List A
  add x s = if member x s then s else x ∷ s

  -- `set(xs)`
  unfoldable pub set_of : List A → List A
  unfolding add
  set_of [] = []
  set_of (x ∷ xs) = add x (set_of xs)

  -- `s - t`
  unfoldable pub difference : List A → List A → List A
  difference [] t = []
  difference (x ∷ s) t = if member x t then difference s t else x ∷ difference s t

-- `sorted(xs, key=…)`, which is stable: `leb` compares the keys.
module _ {A : Type 0} (leb : A → A → Bool) where
  unfoldable pub insert_sorted : A → List A → List A
  insert_sorted x [] = x ∷ []
  insert_sorted x (y ∷ ys) = if leb x y then x ∷ y ∷ ys else y ∷ insert_sorted x ys

  unfoldable pub sorted : List A → List A
  unfolding insert_sorted
  sorted [] = []
  sorted (x ∷ xs) = insert_sorted x (sorted xs)

-- `<=` on texts, by code points, on pairs of texts, and on tuples of texts.
abbrev pub text_leb : String → String → Bool
text_leb s t = elim (compare s t) [ Ordering.gt ↦ false | _ ↦ true ]

abbrev pub pair_leb : String × String → String × String → Bool
pair_leb (a, b) (c, d) = elim (compare a c) [
  | Ordering.lt ↦ true
  | Ordering.eq ↦ text_leb b d
  | Ordering.gt ↦ false
]

unfoldable pub texts_leb : List String → List String → Bool
texts_leb [] ys = true
texts_leb (x ∷ xs) [] = false
texts_leb (x ∷ xs) (y ∷ ys) =
    let rest = texts_leb xs ys in
    elim (compare x y) [ Ordering.lt ↦ true | Ordering.eq ↦ rest | Ordering.gt ↦ false ]

module _ {V : Type 0} where
  -- `d[k] = v`
  unfoldable pub insert : String → V → List (String × V) → List (String × V)
  insert k v [] = (k, v) ∷ []
  insert k v ((j, w) ∷ d) = if str_eq j k then (j, v) ∷ d else (j, w) ∷ insert k v d

  -- `d.setdefault(k, v)`, the dictionary after it
  unfoldable pub set_default : String → V → List (String × V) → List (String × V)
  unfolding insert
  set_default k v d = elim (lookup k d) [ none ↦ insert k v d | some w ↦ d ]

  -- `list(d)`
  unfoldable pub keys : List (String × V) → List String
  keys [] = []
  keys ((k, v) ∷ d) = k ∷ keys d

  abbrev pub or_else : Option V → V → V
  or_else none v = v
  or_else (some w) v = w

  -- `d.get(k, default)`
  abbrev pub get_or : String → List (String × V) → V → V
  get_or k d v = or_else (lookup k d) v

-- What may raise a KeyError, or use up its fuel: `none` then.
infixl 5 ◌>>=◌
abbrev pub ◌>>=◌ : {A B : Type 0} → Option A → (A → Option B) → Option B
none >>= f = none
some a >>= f = f a
