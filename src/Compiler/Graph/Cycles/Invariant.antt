-- ===== src/Compiler/Graph/Cycles/Invariant.antt =====
-- The invariant of the walk for cycles in src/millforge/compiler/graph.py. `gray` are the nodes whose
-- `visit` has not returned.
use mathlib.Core.List.{Memᴰ}
use text.Mathlib.TextEquality.{eq_iff}
use millforge.Compiler.Graph.{Adjacency}
use millforge.Prelude.{
  ℕ, ◌≤◌, ◌<◌, String, str_eq, List, [], ◌∷◌, ◌++◌, Bool, true, false, is_some, ◌≡◌, ◌≢◌, inl, inr,
  lookup, arith, Bool-cases,
}
use millforge.Compiler.Collections.{member, or_else, string_eq}
use millforge.Compiler.Collections.Laws.{member-append}
use millforge.Compiler.Graph.Walks.{Edge, Reaches, here, step}
use millforge.Compiler.Graph.Cycles.{Tarjan}

abbrev pub visited : Tarjan → String → Bool
visited s x = is_some (lookup x s.indices)

abbrev pub num : Tarjan → String → ℕ
num s x = or_else (lookup x s.indices) 0

-- Higher in the stack is later.
abbrev pub IsOrdered : (String → ℕ) → List String → Type 0
IsOrdered n [] = Unit
IsOrdered n (x ∷ xs) = ((y : String) → member y xs ≡ true → n y < n x) × IsOrdered n xs

pub IsOrdered-same :
    (n m : String → ℕ) (xs : List String)
    → ((x : String) → member x xs ≡ true → m x ≡ n x)
    → IsOrdered n xs
    → IsOrdered m xs
IsOrdered-same n m [] e o = tt
IsOrdered-same n m (x ∷ xs) e o = (
  λ y h.
      let a = e y (ground arith) in
      let b = e x (ground (arith, eq_iff x x)) in let c = o.0 y h in omega arith,
  IsOrdered-same n m xs (λ y h. e y (ground arith)) o.1,
)

pub IsOrdered-below :
    (n : String → ℕ) (extra rest : List String) (v y : String)
    → IsOrdered n (extra ++ v ∷ rest)
    → member y rest ≡ true
    → n y < n v
IsOrdered-below n [] rest v y o h = o.0 y h
IsOrdered-below n (x ∷ extra) rest v y o h = IsOrdered-below n extra rest v y o.1 h

pub IsOrdered-above :
    (n : String → ℕ) (extra rest : List String) (v x : String)
    → IsOrdered n (extra ++ v ∷ rest)
    → member x extra ≡ true
    → n v < n x
IsOrdered-above n [] rest v x o h = cc
IsOrdered-above n (z ∷ extra) rest v x o h = elim (Bool-cases (str_eq x z)) [
  | inl same ↦
      let x_is : x ≡ z = (eq_iff x z).0 same in
      rw x_is (o.0 v (ground (arith, member-append v extra (v ∷ rest), eq_iff v v)))
  | inr other ↦ IsOrdered-above n extra rest v x o.1 (ground arith)
]

pub IsOrdered-tail :
    (n : String → ℕ) (extra rest : List String) (v : String)
    → IsOrdered n (extra ++ v ∷ rest)
    → IsOrdered n rest
IsOrdered-tail n [] rest v o = o.1
IsOrdered-tail n (x ∷ extra) rest v o = IsOrdered-tail n extra rest v o.1

-- Some component has both nodes.
pub record Together (components : List (List String)) (x y : String) : Type 0 where
  pub component : List String
  pub found : Memᴰ component components
  pub has_first : member x component ≡ true
  pub has_second : member y component ≡ true

-- The component has another node.
pub record Other (component : List String) (x : String) : Type 0 where
  pub node : String
  pub is_in : member node component ≡ true
  pub differs : x ≢ node

module _ (adjacency : Adjacency) where
  pub record Down (gray : List String) (s : Tarjan) (x : String) : Type 0 where
    pub node : String
    pub is_gray : member node gray ≡ true
    pub below : num s node ≤ num s x
    pub reached : Reaches adjacency x node

  pub record Inv (gray : List String) (s : Tarjan) : Type 0 where
    pub on_stack : (x : String) → member x s.on_stack ≡ member x s.stack
    pub seen : (x : String) → member x s.stack ≡ true → visited s x ≡ true
    pub bound : (x : String) → visited s x ≡ true → num s x < s.index
    pub order : IsOrdered (num s) s.stack
    pub gray_on : (x : String) → member x gray ≡ true → member x s.stack ≡ true
    pub edges :
        (x y : String)
        → visited s x ≡ true
        → member x gray ≡ false
        → Edge adjacency x y
        → visited s y ≡ true
    pub done :
        (x y : String)
        → visited s x ≡ true
        → member x s.stack ≡ false
        → Edge adjacency x y
        → member y s.stack ≡ false
    pub up :
        (g x : String)
        → member g gray ≡ true
        → member x s.stack ≡ true
        → num s g ≤ num s x
        → Reaches adjacency g x
    pub down : (x : String) → member x s.stack ≡ true → Down gray s x
    pub sound :
        (c : List String) (x y : String)
        → Memᴰ c s.components
        → member x c ≡ true
        → member y c ≡ true
        → Reaches adjacency x y
    pub wide : (c : List String) (x : String) → Memᴰ c s.components → member x c ≡ true → Other c x
    pub complete :
        (x y : String)
        → visited s x ≡ true
        → member x s.stack ≡ false
        → Reaches adjacency x y
        → Reaches adjacency y x
        → x ≢ y
        → Together s.components x y

  -- The invariant does not speak of the low links.
  pub Inv-lowlinks :
      (gray : List String) (s : Tarjan) (l : List (String × ℕ))
      → Inv gray s
      → Inv gray (record s { lowlinks = l })
  Inv-lowlinks gray s l i = record {
    on_stack = i.on_stack;
    seen = i.seen;
    bound = i.bound;
    order = i.order;
    gray_on = i.gray_on;
    edges = i.edges;
    done = i.done;
    up = i.up;
    down = λ x m.
        let d = i.down x m in
        record { node = d.node; is_gray = d.is_gray; below = d.below; reached = d.reached };
    sound = i.sound;
    wide = i.wide;
    complete = i.complete;
  }

  -- A node that has left the stack reaches only such nodes.
  pub Reaches-done :
      (gray : List String) (s : Tarjan)
      → Inv gray s
      → {x y : String} → visited s x ≡ true
      → member x s.stack ≡ false
      → Reaches adjacency x y
      → (visited s y ≡ true) × (member y s.stack ≡ false)
  Reaches-done gray s i v m here = (v, m)
  Reaches-done gray s i {x} v m (step {v = w} r e) =
      let (v', m') = Reaches-done gray s i v m r in
      let black : member w gray ≡ false = elim (Bool-cases (member w gray)) [
        | inl g ↦ let on = i.gray_on w g in cc
        | inr b ↦ b
      ] in
      (i.edges w _ v' black e, i.done w _ v' m' e)
