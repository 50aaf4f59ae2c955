-- ===== src/Compiler/Graph/Cycles/Visit.antt =====
-- What `visit` in `_cycle_components` of src/millforge/compiler/graph.py does, and what its loop over
-- the dependents has done so far.
use text.Mathlib.TextEquality.{eq_iff}
use millforge.Compiler.Graph.{Adjacency}
use millforge.Prelude.{
  ℕ, suc, ◌+◌, ◌≤◌, String, str_eq, List, [], ◌∷◌, ◌++◌, true, false, Option, some, ◌≡◌, ◌⊎◌, inl,
  inr, if◌then◌else◌, lookup, arith, Bool-cases,
}
use millforge.Compiler.Collections.{member, string_eq}
use millforge.Compiler.Graph.Walks.{Edge, Reaches}
use millforge.Compiler.Graph.Cycles.{Tarjan}
use millforge.Compiler.Graph.Cycles.Invariant.{visited, num, Inv}
use millforge.Compiler.Graph.Cycles.Leave.{Target}

-- The nodes of a list that are not visited.
abbrev pub unvisited : Tarjan → List String → ℕ
unvisited s [] = 0
unvisited s (x ∷ xs) = (if visited s x then 0 else 1) + unvisited s xs

-- Later states have visited more.
pub unvisited-le :
    (s t : Tarjan) (xs : List String)
    → ((x : String) → visited s x ≡ true → visited t x ≡ true)
    → unvisited t xs ≤ unvisited s xs
unvisited-le s t [] h = omega arith
unvisited-le s t (x ∷ xs) h = ground (arith, h x, unvisited-le s t xs h)

pub unvisited-lt :
    (s t : Tarjan) (v : String) (xs : List String)
    → ((x : String) → visited s x ≡ true → visited t x ≡ true)
    → member v xs ≡ true
    → visited s v ≡ false
    → visited t v ≡ true
    → suc (unvisited t xs) ≤ unvisited s xs
unvisited-lt s t v [] h m new old = cc
unvisited-lt s t v (x ∷ xs) h m new old = elim (Bool-cases (str_eq v x)) [
  | inl is ↦
      let v_is : v ≡ x = (eq_iff v x).0 is in
      let new' : visited s x ≡ false = rw v_is at new in
      let old' : visited t x ≡ true = rw v_is at old in ground (arith, unvisited-le s t xs h)
  | inr other ↦ ground (arith, h x, unvisited-lt s t v xs h (ground arith) new old)
]

module _ (adjacency : Adjacency) where
  -- Before `visit` is called.
  pub record Ready (v : String) (gray : List String) (s : Tarjan) : Type 0 where
    pub inv : Inv adjacency gray s
    pub new : visited s v ≡ false
    pub callers : (g : String) → member g gray ≡ true → Reaches adjacency g v

  -- After it has returned.
  pub record Finished (v : String) (gray : List String) (s t : Tarjan) : Type 0 where
    pub inv : Inv adjacency gray t
    pub extra : List String
    pub stacked : t.stack ≡ extra ++ s.stack
    pub kept_seen : (x : String) → visited s x ≡ true → visited t x ≡ true
    pub kept_num : (x : String) → visited s x ≡ true → num t x ≡ num s x
    pub kept_low : (x : String) → visited s x ≡ true → lookup x t.lowlinks ≡ lookup x s.lowlinks
    pub seen : visited t v ≡ true
    pub low : ℕ
    pub low_is : lookup v t.lowlinks ≡ some low
    pub target : (s.index ≤ low) ⊎ Target adjacency v t s.stack low
    pub bounds :
        (x y : String)
        → member x extra ≡ true
        → member y s.stack ≡ true
        → Edge adjacency x y
        → low ≤ num t y

  -- The loop over the dependents of `v`, begun in `start`, has `pending` left.
  pub record Working (v : String) (gray pending : List String) (start s : Tarjan) : Type 0 where
    pub inv : Inv adjacency (v ∷ gray) s
    pub extra : List String
    pub stacked : s.stack ≡ extra ++ v ∷ start.stack
    pub kept_seen : (x : String) → visited start x ≡ true → visited s x ≡ true
    pub kept_num : (x : String) → visited start x ≡ true → num s x ≡ num start x
    pub kept_low :
        (x : String) → visited start x ≡ true → lookup x s.lowlinks ≡ lookup x start.lowlinks
    pub seen : visited s v ≡ true
    pub index : start.index ≤ num s v
    pub low : ℕ
    pub low_is : lookup v s.lowlinks ≡ some low
    pub target : Target adjacency v s s.stack low
    pub at_most : low ≤ num s v
    pub bounds :
        (x y : String)
        → member x extra ≡ true
        → member y start.stack ≡ true
        → Edge adjacency x y
        → low ≤ num s y
    pub dependents : (y : String) → member y pending ≡ true → Edge adjacency v y
    pub handled : (y : String) → Edge adjacency v y → member y pending ≡ false → visited s y ≡ true
    pub handled_low :
        (y : String)
        → Edge adjacency v y
        → member y pending ≡ false
        → member y start.stack ≡ true
        → low ≤ num s y

  -- What the recursive call does, with enough fuel for the nodes that are left.
  abbrev pub Visits : List String → ℕ → (String → Tarjan → Option Tarjan) → Type 0
  Visits all fuel go =
      (v : String) (gray : List String) (s : Tarjan)
      → Ready v gray s
      → member v all ≡ true
      → unvisited s all ≤ fuel
      → (t : Tarjan) × (go v s ≡ some t) × Finished v gray s t
