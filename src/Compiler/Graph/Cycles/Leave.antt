-- ===== src/Compiler/Graph/Cycles/Leave.antt =====
-- The end of `visit` in `_cycle_components` of src/millforge/compiler/graph.py: a node that reaches no
-- lower node closes its component.
use mathlib.Core.Path.{subst}
use text.Mathlib.TextEquality.{eq_iff}
use millforge.Compiler.Graph.{Adjacency}
use millforge.Prelude.{
  ℕ, ◌≤◌, ◌<◌, String, str_eq, List, ◌∷◌, ◌++◌, Bool, true, false, ◌||◌, some, ◌≡◌, sym, ap, ◌∙◌,
  ◌⊎◌, inl, inr, lookup, arith, Bool-cases,
}
use millforge.Compiler.Collections.{member, string_eq}
use millforge.Compiler.Collections.Laws.{member-append}
use millforge.Compiler.Graph.Walks.{Edge, Reaches, here, step}
use millforge.Compiler.Graph.Cycles.{Tarjan}
use millforge.Compiler.Graph.Cycles.Invariant.{
  visited, num, IsOrdered, IsOrdered-below, IsOrdered-above, Inv,
}

-- Where the low link of `v` comes from: the number of a node on the stack that `v` reaches.
pub record Target (adjacency : Adjacency) (v : String) (s : Tarjan) (stack : List String) (low : ℕ)
    : Type 0 where
  pub node : String
  pub is_on : member node stack ≡ true
  pub numbered : num s node ≡ low
  pub reached : Reaches adjacency v node

-- What `visit` has done to the state when its loop over the dependents is over.
pub record Leaving (adjacency : Adjacency) (v : String) (gray rest extra : List String) (low : ℕ)
    (s : Tarjan) : Type 0 where
  pub inv : Inv adjacency (v ∷ gray) s
  pub stacked : s.stack ≡ extra ++ v ∷ rest
  pub gray_below : (g : String) → member g gray ≡ true → member g rest ≡ true
  pub low_is : lookup v s.lowlinks ≡ some low
  pub seen : visited s v ≡ true
  pub target : Target adjacency v s s.stack low
  pub at_most : low ≤ num s v
  pub bounds :
      (x y : String)
      → member x extra ≡ true
      → member y rest ≡ true
      → Edge adjacency x y
      → low ≤ num s y
  pub handled : (y : String) → Edge adjacency v y → visited s y ≡ true
  pub handled_low : (y : String) → Edge adjacency v y → member y rest ≡ true → low ≤ num s y

-- What is left when `visit` returns.
pub record Left (adjacency : Adjacency) (v : String) (gray rest extra : List String) (low : ℕ)
    (s t : Tarjan) : Type 0 where
  pub inv : Inv adjacency gray t
  pub kept : List String
  pub stacked : t.stack ≡ kept ++ rest
  pub inner : (x : String) → member x kept ≡ true → (member x extra || str_eq x v) ≡ true
  pub same_indices : t.indices ≡ s.indices
  pub same_lowlinks : t.lowlinks ≡ s.lowlinks
  pub same_index : t.index ≡ s.index
  pub target : (low ≡ num s v) ⊎ Target adjacency v s rest low
  pub bounds :
      (x y : String)
      → member x kept ≡ true
      → member y rest ≡ true
      → Edge adjacency x y
      → low ≤ num s y

module _ (adjacency : Adjacency) (v : String) (gray rest extra : List String) (low : ℕ) (s : Tarjan)
    (w : Leaving adjacency v gray rest extra low s) where
  pub ordered : IsOrdered (num s) (extra ++ v ∷ rest)
  ordered = subst (IsOrdered (num s)) w.stacked w.inv.order

  pub below : (y : String) → member y rest ≡ true → num s y < num s v
  below y m = IsOrdered-below (num s) extra rest v y ordered m

  above : (x : String) → member x extra ≡ true → num s v < num s x
  above x m = IsOrdered-above (num s) extra rest v x ordered m

  pub on : (x : String) → member x s.stack ≡ (member x extra || (str_eq x v || member x rest))
  on x = ap (member x) w.stacked ∙ member-append x extra (v ∷ rest)

  -- The component that `v` closes.
  abbrev pub inside : String → Bool
  inside x = member x extra || str_eq x v

  inside-rest : (x : String) → inside x ≡ true → member x rest ≡ false
  inside-rest x m = elim (Bool-cases (member x rest)) [
    | inl r ↦
        let lower = below x r in
        elim (Bool-cases (str_eq x v)) [
          | inl is ↦
              let less : num s v < num s v =
                subst (λ z. num s z < num s v) ((eq_iff x v).0 is) lower in
              absurd (omega arith)
          | inr other ↦ let higher = above x (ground arith) in absurd (omega arith)
        ]
    | inr h ↦ h
  ]

  pub at_least : (x : String) → inside x ≡ true → num s v ≤ num s x
  at_least x m = elim (Bool-cases (str_eq x v)) [
    | inl is ↦ subst (λ z. num s v ≤ num s z) (sym ((eq_iff x v).0 is)) (omega arith)
    | inr other ↦ let higher = above x (ground arith) in omega arith
  ]

  pub on_inside : (x : String) → inside x ≡ true → member x s.stack ≡ true
  on_inside x m = ground (arith, on x)

  -- The nodes of the component are black, but for `v`.
  pub out-Edge :
      (x y : String)
      → visited s x ≡ true
      → member x gray ≡ false
      → Edge adjacency x y
      → visited s y ≡ true
  out-Edge x y seen black e = elim (Bool-cases (str_eq x v)) [
    | inl is ↦ w.handled y (subst (λ z. Edge adjacency z y) ((eq_iff x v).0 is) e)
    | inr other ↦ w.inv.edges x y seen (ground arith) e
  ]

  -- With `low` the number of `v`, no edge leads from the component to the rest of the stack.
  module _ (closes : low ≡ num s v) where
    no-Edge : (x y : String) → inside x ≡ true → Edge adjacency x y → member y rest ≡ false
    no-Edge x y m e = elim (Bool-cases (member y rest)) [
      | inl r ↦
          let lower = below y r in
          elim (Bool-cases (str_eq x v)) [
            | inl is ↦
                let b = w.handled_low y (subst (λ z. Edge adjacency z y) ((eq_iff x v).0 is) e) r in
                absurd (omega arith)
            | inr other ↦ let b = w.bounds x y (ground arith) r e in absurd (omega arith)
          ]
      | inr h ↦ h
    ]

    pub closed :
        (x y : String)
        → visited s x ≡ true
        → member x rest ≡ false
        → Edge adjacency x y
        → member y rest ≡ false
    closed x y seen off e = elim (Bool-cases (inside x)) [
      | inl m ↦ no-Edge x y m e
      | inr outside ↦ ground (arith, w.inv.done x y seen (ground (arith, on x)) e, on y)
    ]

    black_of : (x : String) → member x rest ≡ false → member x gray ≡ false
    black_of x off = elim (Bool-cases (member x gray)) [
      | inl g ↦ let r = w.gray_below x g in ground arith
      | inr b ↦ b
    ]

    pub stays :
        {x y : String}
        → visited s x ≡ true
        → member x rest ≡ false
        → Reaches adjacency x y
        → (visited s y ≡ true) × (member y rest ≡ false)
    stays seen off here = (seen, off)
    stays seen off (step {v = m} {w = z} r e) =
        let (seen', off') = stays seen off r in
        (out-Edge m z seen' (black_of m off') e, closed m z seen' off' e)

    pub from_v : (x : String) → inside x ≡ true → Reaches adjacency v x
    from_v x m = w.inv.up v x (ground (arith, eq_iff v v)) (on_inside x m) (at_least x m)

    pub to_v : (x : String) → inside x ≡ true → Reaches adjacency x v
    to_v x m =
        let d = w.inv.down x (on_inside x m) in
        let r = d.reached in
        let g = d.is_gray in
        let there = stays (w.inv.seen x (on_inside x m)) (inside-rest x m) r in
        let g_is : str_eq d.node v ≡ true = elim (Bool-cases (str_eq d.node v)) [
          | inl is ↦ is
          | inr other ↦
              let low_gray = w.gray_below d.node (ground arith) in let off = there.1 in ground arith
        ] in
        subst (Reaches adjacency x) ((eq_iff d.node v).0 g_is) r
