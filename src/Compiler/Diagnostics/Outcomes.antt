-- ===== src/Compiler/Diagnostics/Outcomes.antt =====
-- Laws of the fallible steps in which the validation of src/millforge/compiler/graph.py is modelled,
-- and of the order of diagnostics of src/millforge/compiler/diagnostics.py.
use millforge.Prelude.{
  List, [], ◌∷◌, ◌++◌, Bool, true, false, ◌≡◌, refl, ◌⊎◌, inl, inr, Option, none, some,
}
use millforge.Compiler.Collections.Laws.{sorted-eq-nil}
use millforge.Compiler.Diagnostics.{
  Fallible, ok, value_error, stuck, ◌>>=◌, each, when, or_stuck, CompilerDiagnostic, diagnostic_leb,
  sort_diagnostics,
}

-- A step that ends: it goes on or raises.
abbrev pub Ends : {C : Type 0} → Fallible C → Type 0
Ends {C} m = (m ≡ value_error) ⊎ ((c : C) × (m ≡ ok c))

module _ {A B : Type 0} where
  -- What a chain that goes on went through.
  pub >>=-elim :
      {C : Type 0} (m : Fallible A) (f : A → Fallible B) {b : B}
      → (m >>= f) ≡ ok b
      → ((a : A) → m ≡ ok a → f a ≡ ok b → C)
      → C
  >>=-elim (ok a) f went k = k a refl went
  >>=-elim value_error f went k = absurd cc
  >>=-elim stuck f went k = absurd cc

module _ {A B : Type 0} where
  pub each-eq-nil : (f : A → Fallible B) (xs : List A) → each f xs ≡ ok [] → xs ≡ []
  unfolding each
  each-eq-nil f [] h = refl
  each-eq-nil f (x ∷ xs) h = >>=-elim (f x) _ h (λ y e k. none_left y (each f xs) k)
    where
      none_left : (y : B) (m : Fallible (List B)) → (m >>= λ ys. ok (y ∷ ys)) ≡ ok [] → x ∷ xs ≡ []
      none_left y (ok ys) k = cc
      none_left y value_error k = cc
      none_left y stuck k = cc

  pub Ends->>= :
      (m : Fallible A) (f : A → Fallible B)
      → Ends m
      → ((a : A) → m ≡ ok a → Ends (f a))
      → Ends (m >>= f)
  Ends->>= m f e k = elim e [ inl raised ↦ inl (rw raised refl) | inr (a, is) ↦ rw is (k a is) ]

  pub Ends-each : (f : A → Fallible B) → ((a : A) → Ends (f a)) → (xs : List A) → Ends (each f xs)
  unfolding each
  Ends-each f k [] = inr ([], refl)
  Ends-each f k (x ∷ xs) = elim (k x) [
    | inl raised ↦ inl (rw (each, raised, ◌>>=◌) refl)
    | inr (y, is) ↦ elim (Ends-each f k xs) [
      | inl raised ↦ inl (rw (each, is, ◌>>=◌, raised) refl)
      | inr (ys, are) ↦ inr (y ∷ ys, rw (each, is, ◌>>=◌, are) refl)
    ]
  ]

pub when-eq-nil : {A : Type 0} (b : Bool) (m : Fallible A) → when b m ≡ ok [] → b ≡ false
when-eq-nil false m h = refl
when-eq-nil true (ok a) h = cc
when-eq-nil true value_error h = cc
when-eq-nil true stuck h = cc

pub or_stuck-eq-ok : {A : Type 0} (o : Option A) (a : A) → or_stuck o ≡ ok a → o ≡ some a
or_stuck-eq-ok none a h = cc
or_stuck-eq-ok (some b) a h = cc

pub append-eq-nil : {A : Type 0} (xs ys : List A) → xs ++ ys ≡ [] → (xs ≡ []) × (ys ≡ [])
append-eq-nil [] ys h = (refl, h)
append-eq-nil (x ∷ xs) ys h = cc

pub sort_diagnostics-eq-nil : (ds : List CompilerDiagnostic) → sort_diagnostics ds ≡ [] → ds ≡ []
unfolding sort_diagnostics
sort_diagnostics-eq-nil ds h = sorted-eq-nil diagnostic_leb ds h
