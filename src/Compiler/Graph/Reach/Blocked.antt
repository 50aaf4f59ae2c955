-- ===== src/Compiler/Graph/Reach/Blocked.antt =====
-- What the walk of `_nodes_blocked_by_unresolved` in src/millforge/compiler/graph.py finds.
use mathlib.Core.List.{reverse}
use millforge.Compiler.Graph.{Adjacency}
use millforge.Prelude.{
  ℕ, zero, suc, ◌+◌, ◌≤◌, String, str_eq, List, [], ◌∷◌, ◌++◌, length, true, false, ◌||◌, some, ◌≡◌,
  refl, sym, ◌∙◌, ◌↔◌, ◌⊎◌, inl, inr, if◌then◌else◌, lookup, arith, Bool-cases,
}
use text.Mathlib.TextEquality.{eq_iff}
use millforge.Compiler.Collections.{member, difference, sorted, text_leb, get_or, string_eq}
use millforge.Compiler.Collections.Laws.{
  member-append, member-sorted, member-difference, member-reverse, length-sorted, length-reverse,
}
use millforge.Compiler.Graph.Walks.{Reaches, here, step}
use millforge.Compiler.Graph.Reach.{
  block_dependents, all_targets, block_from, nodes_blocked_by_unresolved,
}

abbrev targets : Adjacency → String → List String
targets adjacency id = get_or id adjacency []

-- The entries of a list that are not in a set.
pub outside : List String → List String → ℕ
outside set [] = 0
outside set (x ∷ xs) = (if member x set then 0 else 1) + outside set xs

pub outside-append :
    (set xs ys : List String) → outside set (xs ++ ys) ≡ outside set xs + outside set ys
unfolding outside
outside-append set [] ys = omega arith
outside-append set (x ∷ xs) ys = omega (arith, outside-append set xs ys)

pub outside-le : (set xs : List String) → outside set xs ≤ length xs
unfolding outside
outside-le set [] = omega arith
outside-le set (x ∷ xs) = ground (arith, outside-le set xs)

-- A new member of the set leaves fewer entries outside it.
pub outside-cons : (d : String) (set xs : List String) → outside (d ∷ set) xs ≤ outside set xs
unfolding outside
outside-cons d set [] = omega arith
outside-cons d set (x ∷ xs) = ground (arith, outside-cons d set xs)

pub outside-new :
    (d : String) (set xs : List String)
    → member d set ≡ false
    → member d xs ≡ true
    → suc (outside (d ∷ set) xs) ≤ outside set xs
unfolding outside
outside-new d set [] new m = cc
outside-new d set (x ∷ xs) new m =
    ground (arith, outside-cons d set xs, outside-new d set xs, eq_iff d x, eq_iff x d)

member-targets-all :
    (adjacency : Adjacency) (u d : String)
    → member d (targets adjacency u) ≡ true
    → member d (all_targets adjacency) ≡ true
unfolding all_targets lookup
member-targets-all [] u d m = cc
member-targets-all ((k, vs) ∷ adjacency) u d m =
    rw (member-append d vs (all_targets adjacency)) (elim (Bool-cases (str_eq k u)) [
      | inl h ↦ let m' : member d vs ≡ true = rw (h, member) at m in rw m' refl
      | inr h ↦ let rest = member-targets-all adjacency u d (rw (h, member) at m) in ground arith
    ])

-- What the `for` loop over the dependents of one node does.
record Blocks (ds blocked stack blocked' stack' : List String) : Type 0 where
  found : (x : String) → member x blocked' ≡ (member x blocked || member x ds)
  pushed :
      (x : String) → member x blocked' ≡ true → (member x blocked ≡ true) ⊎ (member x stack' ≡ true)
  kept : (x : String) → member x stack' ≡ true → (member x stack ≡ true) ⊎ (member x ds ≡ true)
  below : (x : String) → member x stack ≡ true → member x stack' ≡ true
  work :
      (all : List String)
      → ((x : String) → member x ds ≡ true → member x all ≡ true)
      → outside blocked' all + length stack' ≤ outside blocked all + length stack

block_dependents-Blocks :
    (ds blocked stack : List String)
    → Blocks ds blocked stack
        (block_dependents ds blocked stack).0
        (block_dependents ds blocked stack).1
unfolding block_dependents
block_dependents-Blocks [] blocked stack = record {
  found = λ x. ground arith;
  pushed = λ x m. inl m;
  kept = λ x m. inl m;
  below = λ x m. m;
  work = λ all h. omega arith;
}
block_dependents-Blocks (d ∷ ds) blocked stack = elim (Bool-cases (member d blocked)) [
  | inl old ↦
      let ih = block_dependents-Blocks ds blocked stack in
      rw (old, block_dependents)
        (record {
          found = λ x. ground (arith, ih.found x, eq_iff x d);
          pushed = λ x m. ih.pushed x m;
          kept = λ x m. ground (arith, ih.kept x m);
          below = λ x m. ih.below x m;
          work = λ all h. ih.work all (λ x m. h x (ground arith));
        })
  | inr new ↦
      let ih = block_dependents-Blocks ds (d ∷ blocked) (d ∷ stack) in
      rw (new, block_dependents)
        (record {
          found = λ x. ground (arith, ih.found x);
          pushed = λ x m. ground (arith, ih.pushed x m, ih.below x);
          kept = λ x m. ground (arith, ih.kept x m);
          below = λ x m. ih.below x (ground arith);
          work = λ all h.
              let step = ih.work all (λ x m. h x (ground arith)) in
              omega (arith, outside-new d blocked all new (h d (ground (arith, eq_iff d d))), step);
        })
]

module _ (adjacency : Adjacency) (seed : List String) where
  -- Some seed reaches the node.
  abbrev pub IsReached : String → Type 0
  IsReached x = (u : String) × (member u seed ≡ true) × Reaches adjacency u x

  record Inv (blocked stack : List String) : Type 0 where
    seeds : (x : String) → member x seed ≡ true → member x blocked ≡ true
    inside : (x : String) → member x stack ≡ true → member x blocked ≡ true
    sound : (x : String) → member x blocked ≡ true → IsReached x
    closed :
        (x y : String)
        → member x blocked ≡ true
        → member y (targets adjacency x) ≡ true
        → (member x stack ≡ true) ⊎ (member y blocked ≡ true)

  Inv-step :
      {blocked stack blocked' stack' : List String} (current : String)
      → Blocks (targets adjacency current) blocked stack blocked' stack'
      → Inv blocked (current ∷ stack)
      → Inv blocked' stack'
  Inv-step {blocked} {stack} {blocked'} {stack'} current b i = record {
    seeds = λ x m. ground (arith, b.found x, i.seeds x m);
    inside = λ x m. ground (arith, b.found x, b.kept x m, i.inside x);
    sound = λ x m. elim (Bool-cases (member x blocked)) [
      | inl old ↦ i.sound x old
      | inr new ↦
          let (u, s, r) =
            i.sound current (i.inside current (ground (arith, eq_iff current current))) in
          (u, s, step r (ground (arith, b.found x)))
    ];
    closed = λ x y m t. elim (Bool-cases (member x blocked)) [
      | inl old ↦ elim (Bool-cases (str_eq x current)) [
        | inl same ↦
            let x_is : x ≡ current = (eq_iff x current).0 same in
            let t' : member y (targets adjacency current) ≡ true = rw x_is at t in
            inr (ground (arith, b.found y))
        | inr other ↦ ground (arith, i.closed x y old t, b.below x, b.found y)
      ]
      | inr new ↦ ground (arith, b.pushed x m)
    ];
  }

  -- The loop ends, and leaves no node on the stack.
  block_from-Inv :
      (fuel : ℕ) (blocked stack : List String)
      → Inv blocked stack
      → outside blocked (all_targets adjacency) + length stack ≤ fuel
      → (out : List String) × (block_from adjacency fuel blocked stack ≡ some out) × Inv out []
  unfolding block_from
  block_from-Inv fuel blocked [] i f = (blocked, refl, i)
  block_from-Inv zero blocked (current ∷ stack) i f = absurd (omega arith)
  block_from-Inv (suc fuel) blocked (current ∷ stack) i f =
      let b = block_dependents-Blocks (targets adjacency current) blocked stack in
      let less = b.work (all_targets adjacency) (λ x. member-targets-all adjacency current x) in
      block_from-Inv fuel _ _ (Inv-step current b i) (omega arith)

  Reaches-member :
      (out : List String)
      → Inv out []
      → {u x : String} → member u seed ≡ true
      → Reaches adjacency u x
      → member x out ≡ true
  Reaches-member out i s here = i.seeds _ s
  Reaches-member out i s (step {v} {w} r t) = elim (i.closed v w (Reaches-member out i s r) t) [
    | inl waiting ↦ cc
    | inr m ↦ m
  ]

  pub block_from_lem :
      (stack : List String) (fuel : ℕ)
      → ((x : String) → member x stack ≡ member x seed)
      → length stack + length (all_targets adjacency) ≤ fuel
      → (out : List String) × (block_from adjacency fuel seed stack ≡ some out)
        × ((x : String) → (member x out ≡ true) ↔ IsReached x)
  block_from_lem stack fuel same f =
      let start : Inv seed stack = record {
        seeds = λ x m. m;
        inside = λ x m. sym (same x) ∙ m;
        sound = λ x m. (x, m, here);
        closed = λ x y m t. inl (same x ∙ m);
      } in
      let (out, e, i) =
        block_from-Inv fuel seed stack start
          (omega (arith, outside-le seed (all_targets adjacency))) in
      (out, e, λ x. (i.sound x, λ (u, s, r). Reaches-member out i s r))

-- An unresolved node reaches the node.
pub record IsBlocked (node_ids resolved_ids : List String) (adjacency : Adjacency) (x : String)
    : Type 0 where
  pub unresolved : String
  pub is_node : member unresolved node_ids ≡ true
  pub is_unresolved : member unresolved resolved_ids ≡ false
  pub reaches : Reaches adjacency unresolved x

-- The walk of `_nodes_blocked_by_unresolved` ends with the fuel it is given, and finds exactly the
-- nodes that some node without a catalog entry reaches, itself included.
pub nodes_blocked_by_unresolved-IsBlocked :
    (node_ids resolved_ids : List String) (adjacency : Adjacency)
    → (out : List String) × (nodes_blocked_by_unresolved node_ids adjacency resolved_ids ≡ some out)
      × ((x : String) → (member x out ≡ true) ↔ IsBlocked node_ids resolved_ids adjacency x)
unfolding nodes_blocked_by_unresolved
nodes_blocked_by_unresolved-IsBlocked node_ids resolved_ids adjacency =
    let unresolved = difference node_ids resolved_ids in
    let stack = reverse (sorted text_leb unresolved) in
    let (out, e, found) =
      block_from_lem adjacency unresolved stack (length unresolved + length (all_targets adjacency))
        (λ x. member-reverse x (sorted text_leb unresolved) ∙ member-sorted text_leb x unresolved)
        (omega (
          arith,
          length-reverse (sorted text_leb unresolved),
          length-sorted text_leb unresolved,
        )) in
    (
      out,
      e,
      λ x. (
        λ m.
            let (u, s, r) = (found x).0 m in
            record {
              unresolved = u;
              is_node = ground (arith, member-difference u node_ids resolved_ids);
              is_unresolved = ground (arith, member-difference u node_ids resolved_ids);
              reaches = r;
            },
        λ b. (found x).1 (
          b.unresolved,
          ground (
            arith,
            member-difference b.unresolved node_ids resolved_ids,
            b.is_node,
            b.is_unresolved,
          ),
          b.reaches,
        ),
      ),
    )
