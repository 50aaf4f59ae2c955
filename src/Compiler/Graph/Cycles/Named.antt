-- ===== src/Compiler/Graph/Cycles/Named.antt =====
-- The nodes and the components that a walk for cycles names, src/millforge/compiler/graph.py.
use mathlib.Core.List.{Memᴰ}
use mathlib.Core.List.Memᴰ
use text.Mathlib.TextEquality.{eq_iff}
use millforge.Compiler.Graph.{Adjacency}
use millforge.Prelude.{
  ◌≤◌, String, str_eq, List, [], ◌∷◌, length, Bool, true, ◌≡◌, refl, ◌↔◌, ◌⊎◌, inl, inr, lookup,
  arith, Bool-cases,
}
use millforge.Compiler.Collections.{member, keys, insert_sorted, sorted, string_eq}
use millforge.Compiler.Collections.Laws.{member-append}
use millforge.Compiler.Graph.Walks.{Edge, Reaches, here, step}
use millforge.Compiler.Graph.Cycles.{Tarjan, all_nodes, cycle_nodes}
use millforge.Compiler.Graph.Cycles.Visit.{unvisited}

module _ {A : Type 0} (leb : A → A → Bool) where
  pub Memᴰ-insert_sorted :
      (a x : A) (xs : List A) → Memᴰ a (insert_sorted leb x xs) ↔ ((a ≡ x) ⊎ Memᴰ a xs)
  unfolding insert_sorted
  Memᴰ-insert_sorted a x [] = (Memᴰ.cases_cons, elim [ inl e ↦ Memᴰ.head e | inr m ↦ Memᴰ.tail m ])
  Memᴰ-insert_sorted a x (y ∷ xs) = elim (Bool-cases (leb x y)) [
    | inl h ↦ rw h (Memᴰ.cases_cons, elim [ inl e ↦ Memᴰ.head e | inr m ↦ Memᴰ.tail m ])
    | inr h ↦ rw h (
      λ m. elim (Memᴰ.cases_cons m) [
        | inl e ↦ inr (Memᴰ.head e)
        | inr r ↦ elim ((Memᴰ-insert_sorted a x xs).0 r) [
          | inl e ↦ inl e
          | inr m' ↦ inr (Memᴰ.tail m')
        ]
      ],
      elim [
        | inl e ↦ Memᴰ.tail ((Memᴰ-insert_sorted a x xs).1 (inl e))
        | inr m ↦ elim (Memᴰ.cases_cons m) [
          | inl e ↦ Memᴰ.head e
          | inr r ↦ Memᴰ.tail ((Memᴰ-insert_sorted a x xs).1 (inr r))
        ]
      ],
    )
  ]

  pub Memᴰ-sorted : (a : A) (xs : List A) → Memᴰ a (sorted leb xs) ↔ Memᴰ a xs
  unfolding sorted
  Memᴰ-sorted a [] = (λ m. m, λ m. m)
  Memᴰ-sorted a (x ∷ xs) = (
    λ m. elim ((Memᴰ-insert_sorted a x (sorted leb xs)).0 m) [
      | inl e ↦ Memᴰ.head e
      | inr r ↦ Memᴰ.tail ((Memᴰ-sorted a xs).0 r)
    ],
    λ m.
        (Memᴰ-insert_sorted a x (sorted leb xs)).1
          (elim (Memᴰ.cases_cons m) [ inl e ↦ inl e | inr r ↦ inr ((Memᴰ-sorted a xs).1 r) ]),
  )

pub member-all_nodes : (d : Adjacency) (u w : String) → Edge d u w → member w (all_nodes d) ≡ true
unfolding all_nodes lookup
member-all_nodes [] u w m = cc
member-all_nodes ((k, vs) ∷ d) u w m = elim (Bool-cases (str_eq k u)) [
  | inl h ↦
      let m' : member w vs ≡ true = rw (h, member) at m in
      ground (arith, member-append w vs (all_nodes d))
  | inr h ↦
      let rest = member-all_nodes d u w (rw (h, member) at m) in
      ground (arith, member-append w vs (all_nodes d))
]

pub keys-all_nodes :
    (d : Adjacency) (k : String) → member k (keys d) ≡ true → member k (all_nodes d) ≡ true
unfolding all_nodes keys
keys-all_nodes [] k m = cc
keys-all_nodes ((j, vs) ∷ d) k m =
    ground (arith, member-append k vs (all_nodes d), keys-all_nodes d k)

-- A node with an edge is a key.
pub member-keys : (d : Adjacency) (u w : String) → Edge d u w → member u (keys d) ≡ true
unfolding keys lookup
member-keys [] u w m = cc
member-keys ((k, vs) ∷ d) u w m = elim (Bool-cases (str_eq k u)) [
  | inl h ↦ ground (arith, eq_iff k u, eq_iff u k)
  | inr h ↦ let rest = member-keys d u w (rw (h, member) at m) in ground arith
]

pub Reaches-first :
    (d : Adjacency) {u w : String} → Reaches d u w → (u ≡ w) ⊎ (member u (keys d) ≡ true)
Reaches-first d here = inl refl
Reaches-first d {u} (step {v = m} {w = z} r e) = elim (Reaches-first d r) [
  | inl same ↦ inr (rw same (member-keys d m z e))
  | inr k ↦ inr k
]

pub unvisited-le-length : (s : Tarjan) (xs : List String) → unvisited s xs ≤ length xs
unvisited-le-length s [] = omega arith
unvisited-le-length s (x ∷ xs) = ground (arith, unvisited-le-length s xs)

pub member-cycle_nodes :
    (components : List (List String)) (x : String)
    → (member x (cycle_nodes components) ≡ true)
      ↔ ((c : List String) × Memᴰ c components × (member x c ≡ true))
unfolding cycle_nodes
member-cycle_nodes [] x = (λ m. cc, λ (c, m, h). absurd (Memᴰ.not-nil m))
member-cycle_nodes (d ∷ components) x = (
  λ m. elim (Bool-cases (member x d)) [
    | inl first ↦ (d, Memᴰ.head refl, first)
    | inr there ↦
        let (c, n, h) =
          (member-cycle_nodes components x).0
            (ground (arith, member-append x d (cycle_nodes components))) in
        (c, Memᴰ.tail n, h)
  ],
  λ (c, m, h). elim (Memᴰ.cases_cons m) [
    | inl is ↦
        let h' : member x d ≡ true = rw is at h in
        ground (arith, member-append x d (cycle_nodes components))
    | inr rest ↦
        let h' = (member-cycle_nodes components x).1 (c, rest, h) in
        ground (arith, member-append x d (cycle_nodes components))
  ],
)
