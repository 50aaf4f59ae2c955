-- ===== src/Compiler/Graph/Cycles.antt =====
-- Prerequisite cycles, src/millforge/compiler/graph.py: Tarjan's strongly connected components. The
-- recursion of `visit` takes fuel; `none` is a KeyError, an IndexError, or no fuel left.
pub mod Invariant
pub mod Enter
pub mod Pop
pub mod Leave
pub mod Close
pub mod Visit
pub mod Rounds
pub mod Total
pub mod Named
pub mod Roots
pub mod Correct
use millforge.Compiler.Graph.{Adjacency}
use millforge.Prelude.{
  ℕ, zero, suc, ◌+◌, ◌==◌, String, str_eq, List, [], ◌∷◌, ◌++◌, length, Bool, true, false, Option,
  none, some, ltb, leb, if◌then◌else◌, lookup,
}
use millforge.Compiler.Collections.{
  member, add, sorted, text_leb, texts_leb, insert, keys, get_or, string_eq, ◌>>=◌,
}

-- The variables that `visit` shares; the stack has its top in front.
pub record Tarjan : Type 0 where
  pub index : ℕ
  pub stack : List String
  pub indices : List (String × ℕ)
  pub lowlinks : List (String × ℕ)
  pub on_stack : List String
  pub components : List (List String)

abbrev pub min : ℕ → ℕ → ℕ
min a b = if ltb b a then b else a

-- `s.remove(x)`
unfoldable pub without : String → List String → List String
without x [] = []
without x (y ∷ ys) = if str_eq x y then without x ys else y ∷ without x ys

abbrev pub remove : String → List String → Option (List String)
remove x s = if member x s then some (without x s) else none

-- The first lines of `visit`.
unfoldable pub enter : String → Tarjan → Tarjan
unfolding insert add
enter id s = record {
  index = s.index + 1;
  stack = id ∷ s.stack;
  indices = insert id s.index s.indices;
  lowlinks = insert id s.index s.lowlinks;
  on_stack = add id s.on_stack;
  components = s.components;
}

-- `lowlinks[id] = min(lowlinks[id], value)`
unfoldable pub lower : String → ℕ → Tarjan → Option Tarjan
unfolding lookup insert
lower id value s = do
  low ← lookup id s.lowlinks
  some (record s { lowlinks = insert id (min low value) s.lowlinks })

-- One round of the loop over the dependents; `visit` is the recursive call.
unfoldable pub visit_dependent :
    (String → Tarjan → Option Tarjan) → String → String → Tarjan → Option Tarjan
unfolding lookup lower
visit_dependent visit id dependent s = elim (lookup dependent s.indices) [
  | none ↦ do s' ← visit dependent s; low ← lookup dependent s'.lowlinks; lower id low s'
  | some i ↦ elim (member dependent s.on_stack) [ true ↦ lower id i s | false ↦ some s ]
]

unfoldable pub visit_dependents :
    (String → Tarjan → Option Tarjan) → String → List String → Tarjan → Option Tarjan
unfolding visit_dependent
visit_dependents visit id [] s = some s
visit_dependents visit id (d ∷ ds) s = do
  s' ← visit_dependent visit id d s
  visit_dependents visit id ds s'

pub record Popped : Type 0 where
  pub stack : List String
  pub on_stack : List String
  pub component : List String

-- `while True: member = stack.pop() …`
unfoldable pub pop_component : String → List String → List String → List String → Option Popped
unfolding without
pop_component id [] on_stack component = none
pop_component id (x ∷ stack) on_stack component = do
  on_stack' ← remove x on_stack
  elim (str_eq x id) [
    | true ↦
        some (record { stack = stack; on_stack = on_stack'; component = component ++ (x ∷ []) })
    | false ↦ pop_component id stack on_stack' (component ++ (x ∷ []))
  ]

abbrev pub record_component : List String → List (List String) → List (List String)
record_component component components =
    if ltb 1 (length component) then components ++ (sorted text_leb component ∷ []) else components

-- The lines of `visit` after its loop.
unfoldable pub leave : String → Tarjan → Option Tarjan
unfolding lookup pop_component sorted
leave id s = do
  low ← lookup id s.lowlinks
  i ← lookup id s.indices
  elim (low == i) [
    | false ↦ some s
    | true ↦ do
      p ← pop_component id s.stack s.on_stack []
      some (record s {
        stack = p.stack;
        on_stack = p.on_stack;
        components = record_component p.component s.components;
      })
  ]

unfoldable pub empty_state : Tarjan
empty_state = record {
  index = 0;
  stack = [];
  indices = [];
  lowlinks = [];
  on_stack = [];
  components = [];
}

-- The nodes that the adjacency names.
unfoldable pub all_nodes : Adjacency → List String
all_nodes [] = []
all_nodes ((k, vs) ∷ d) = k ∷ vs ++ all_nodes d

module _ (adjacency : Adjacency) where
  unfoldable pub visit : ℕ → String → Tarjan → Option Tarjan
  unfolding lookup visit_dependents enter leave
  visit zero id s = none
  visit (suc fuel) id s = do
    s' ← visit_dependents (visit fuel) id (get_or id adjacency []) (enter id s)
    leave id s'

  unfoldable pub visit_roots : ℕ → List String → Tarjan → Option Tarjan
  unfolding visit lookup
  visit_roots fuel [] s = some s
  visit_roots fuel (id ∷ ids) s = elim (lookup id s.indices) [
    | some i ↦ visit_roots fuel ids s
    | none ↦ do s' ← visit fuel id s; visit_roots fuel ids s'
  ]

  unfoldable pub cycle_components : Option (List (List String))
  unfolding visit_roots empty_state all_nodes keys sorted texts_leb
  cycle_components = do
    s ←
        visit_roots (suc (length (all_nodes adjacency))) (sorted text_leb (keys adjacency))
          empty_state
    some (sorted texts_leb s.components)

-- `_cycle_nodes`
unfoldable pub cycle_nodes : List (List String) → List String
cycle_nodes [] = []
cycle_nodes (component ∷ components) = component ++ cycle_nodes components
