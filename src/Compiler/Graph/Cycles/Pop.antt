-- ===== src/Compiler/Graph/Cycles/Pop.antt =====
-- How `_cycle_components` of src/millforge/compiler/graph.py pops a component from its stack.
use mathlib.Core.List.{Memᴰ, append_assoc}
use mathlib.Core.List.Memᴰ
use mathlib.Core.Path.{subst}
use text.Mathlib.TextEquality.{eq_iff}
use millforge.Prelude.{
  ℕ, ◌<◌, String, str_eq, List, [], ◌∷◌, ◌++◌, length, true, false, ◌&&◌, not, some, ◌≡◌, ◌≢◌, refl,
  sym, ◌∙◌, ◌⊎◌, inl, inr, ltb, arith, Bool-cases,
}
use millforge.Compiler.Collections.{member, sorted, text_leb, string_eq}
use millforge.Compiler.Collections.Laws.{member-append, member-sorted}
use millforge.Compiler.Graph.Cycles.{without, pop_component, record_component}
use millforge.Compiler.Graph.Cycles.Invariant.{IsOrdered, Together, Other}

member-without :
    (x z : String) (xs : List String) → member x (without z xs) ≡ (not (str_eq x z) && member x xs)
unfolding without
member-without x z [] = ground arith
member-without x z (y ∷ xs) =
    ground (arith, member-without x z xs, eq_iff z y, eq_iff x y, eq_iff x z)

-- The set of the stack without its top.
member-without_top :
    (n : String → ℕ) (z : String) (stack on_stack : List String)
    → ((x : String) → member x on_stack ≡ member x (z ∷ stack))
    → IsOrdered n (z ∷ stack)
    → (x : String) → member x (without z on_stack) ≡ member x stack
member-without_top n z stack on_stack same o x = elim (Bool-cases (str_eq x z)) [
  | inl is ↦
      let x_is : x ≡ z = (eq_iff x z).0 is in
      elim (Bool-cases (member x stack)) [
        | inl m ↦
            let less = o.0 x m in
            let less' : n z < n z = subst (λ w. n w < n z) x_is less in absurd (omega arith)
        | inr m ↦ ground (arith, member-without x z on_stack)
      ]
  | inr other ↦ ground (arith, member-without x z on_stack, same x)
]

pub record Pops (v : String) (extra rest on_stack component : List String) : Type 0 where
  pub left : List String
  pub pops :
      pop_component v (extra ++ v ∷ rest) on_stack component
      ≡ some (record { stack = rest; on_stack = left; component = component ++ (extra ++ v ∷ []) })
  pub same : (x : String) → member x left ≡ member x rest

pub pop_component-Pops :
    (n : String → ℕ) (v : String) (extra rest on_stack component : List String)
    → ((x : String) → member x on_stack ≡ member x (extra ++ v ∷ rest))
    → IsOrdered n (extra ++ v ∷ rest)
    → Pops v extra rest on_stack component
unfolding pop_component
pop_component-Pops n v [] rest on_stack component same o =
    let is_on : member v on_stack ≡ true = ground (arith, same v, eq_iff v v) in
    let is_v : str_eq v v ≡ true = (eq_iff v v).1 refl in
    record {
      left = without v on_stack;
      pops = rw (is_on, is_v) refl;
      same = member-without_top n v rest on_stack same o;
    }
pop_component-Pops n v (z ∷ extra) rest on_stack component same o =
    let is_on : member z on_stack ≡ true = ground (arith, same z, eq_iff z z) in
    let before = o.0 v (ground (arith, member-append v extra (v ∷ rest), eq_iff v v)) in
    let is_other : str_eq z v ≡ false = elim (Bool-cases (str_eq z v)) [
      | inl is ↦
          let z_is : z ≡ v = (eq_iff z v).0 is in
          let less : n v < n v = subst (λ w. n v < n w) z_is before in absurd (omega arith)
      | inr h ↦ h
    ] in
    let p =
      pop_component-Pops n v extra rest (without z on_stack) (component ++ (z ∷ []))
        (member-without_top n z (extra ++ v ∷ rest) on_stack same o) o.1 in
    record {
      left = p.left;
      pops =
          rw (is_on, is_other) (rw (append_assoc component (z ∷ []) (extra ++ v ∷ [])) at p.pops);
      same = p.same;
    }

length_pos : (y : String) (ys : List String) → member y ys ≡ true → 0 < length ys
length_pos y [] m = cc
length_pos y (z ∷ ys) m = omega arith

two_members :
    (c : List String) (x y : String) → member x c ≡ true → member y c ≡ true → x ≢ y → 1 < length c
two_members [] x y mx my ne = cc
two_members (z ∷ c) x y mx my ne = elim (Bool-cases (str_eq x z)) [
  | inl x_is ↦ elim (Bool-cases (str_eq y z)) [
    | inl y_is ↦ absurd (ne ((eq_iff x z).0 x_is ∙ sym ((eq_iff y z).0 y_is)))
    | inr other ↦ let more = length_pos y c (ground arith) in omega arith
  ]
  | inr other ↦ let more = length_pos x c (ground arith) in omega arith
]

-- In a component of at least two nodes, each has another.
pub component-Other :
    (n : String → ℕ) (extra rest : List String) (v x : String)
    → IsOrdered n (extra ++ v ∷ rest)
    → 1 < length (extra ++ v ∷ [])
    → member x (extra ++ v ∷ []) ≡ true
    → Other (extra ++ v ∷ []) x
component-Other n [] rest v x o two m = absurd (omega arith)
component-Other n (z ∷ extra) rest v x o two m = elim (Bool-cases (str_eq x v)) [
  | inl is ↦ record {
    node = z;
    is_in = ground (arith, eq_iff z z);
    differs = λ same.
        let before = o.0 v (ground (arith, member-append v extra (v ∷ rest), eq_iff v v)) in
        let z_is : z ≡ v = sym same ∙ (eq_iff x v).0 is in
        let less : n v < n v = subst (λ w. n v < n w) z_is before in omega arith;
  }
  | inr other ↦ record {
    node = v;
    is_in = ground (arith, member-append v extra (v ∷ []), eq_iff v v);
    differs = λ same. ground (arith, eq_iff x v);
  }
]

module _ (component : List String) (components : List (List String)) where
  pub record_component_old :
      (c : List String) → Memᴰ c components → Memᴰ c (record_component component components)
  record_component_old c m = elim (Bool-cases (ltb 1 (length component))) [
    | inl h ↦ rw h (Memᴰ.append_left (sorted text_leb component ∷ []) m)
    | inr h ↦ rw h m
  ]

  pub record_component_cases :
      (c : List String)
      → Memᴰ c (record_component component components)
      → Memᴰ c components ⊎ (c ≡ sorted text_leb component) × (1 < length component)
  record_component_cases c m = elim (Bool-cases (ltb 1 (length component))) [
    | inl h ↦
        let m' : Memᴰ c (components ++ sorted text_leb component ∷ []) = rw h at m in
        elim (Memᴰ.append_cases components m') [
          | inl old ↦ inl old
          | inr new ↦ inr (Memᴰ.eq_of_singleton new, ground arith)
        ]
    | inr h ↦ inl (rw h at m)
  ]

  pub record_component-Together :
      (x y : String)
      → member x component ≡ true
      → member y component ≡ true
      → x ≢ y
      → Together (record_component component components) x y
  record_component-Together x y mx my ne =
      let two = two_members component x y mx my ne in
      let long : ltb 1 (length component) ≡ true = ground arith in
      record {
        component = sorted text_leb component;
        found = rw long (Memᴰ.append_right components (Memᴰ.head refl));
        has_first = member-sorted text_leb x component ∙ mx;
        has_second = member-sorted text_leb y component ∙ my;
      }
