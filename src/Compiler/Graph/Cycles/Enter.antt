-- ===== src/Compiler/Graph/Cycles/Enter.antt =====
-- The first lines of `visit` in `_cycle_components` of src/millforge/compiler/graph.py.
use text.Mathlib.TextEquality.{eq_iff}
use millforge.Compiler.Graph.{Adjacency}
use millforge.Prelude.{
  String, str_eq, List, ◌∷◌, true, false, ◌||◌, ◌≡◌, refl, inl, inr, if◌then◌else◌, arith,
  Bool-cases,
}
use millforge.Compiler.Collections.{member, string_eq}
use millforge.Compiler.Collections.Laws.{member-add, lookup-insert, has-insert}
use millforge.Compiler.Graph.Walks.{Reaches, here}
use millforge.Compiler.Graph.Cycles.{Tarjan, enter}
use millforge.Compiler.Graph.Cycles.Invariant.{visited, num, IsOrdered-same, Inv}

module _ (v : String) (s : Tarjan) where
  pub visited-enter : (x : String) → visited (enter v s) x ≡ (str_eq v x || visited s x)
  unfolding enter
  visited-enter x = has-insert x v s.index s.indices

  pub num-enter : (x : String) → num (enter v s) x ≡ (if str_eq v x then s.index else num s x)
  unfolding enter
  num-enter x =
      rw (lookup-insert x v s.index s.indices)
        (elim (Bool-cases (str_eq v x)) [ inl h ↦ rw h refl | inr h ↦ rw h refl ])

  pub num-enter_self : num (enter v s) v ≡ s.index
  num-enter_self = ground (arith, num-enter v, eq_iff v v)

  -- A node that was visited keeps its number.
  pub num-enter_old :
      (x : String) → visited s v ≡ false → visited s x ≡ true → num (enter v s) x ≡ num s x
  num-enter_old x new old = elim (Bool-cases (str_eq v x)) [
    | inl same ↦
        let v_is : v ≡ x = (eq_iff v x).0 same in let old' : visited s v ≡ true = rw v_is old in cc
    | inr other ↦ ground (arith, num-enter x)
  ]

module _ (adjacency : Adjacency) (v : String) (gray : List String) (s : Tarjan) where
  pub enter-Inv :
      Inv adjacency gray s
      → visited s v ≡ false
      → ((g : String) → member g gray ≡ true → Reaches adjacency g v)
      → Inv adjacency (v ∷ gray) (enter v s)
  unfolding enter
  enter-Inv i new callers = record {
    on_stack = λ x. ground (arith, member-add x v s.on_stack, i.on_stack x);
    seen = λ x m. ground (arith, visited-enter v s x, i.seen x, eq_iff v x, eq_iff x v);
    bound = λ x m. ground (arith, visited-enter v s x, num-enter v s x, i.bound x);
    order = (
      λ y m.
          let a = num-enter_old v s y new (i.seen y m) in
          let b = num-enter_self v s in let c = i.bound y (i.seen y m) in omega arith,
      IsOrdered-same (num s) (num (enter v s)) s.stack (λ x m. num-enter_old v s x new (i.seen x m))
          i.order,
    );
    gray_on = λ x m. ground (arith, i.gray_on x);
    edges = λ x y seen black e.
        let old = was_visited x seen (ground arith) in
        ground (arith, visited-enter v s y, i.edges x y old (ground arith) e);
    done = λ x y seen off e.
        let old = was_visited x seen (ground arith) in
        let black : member x gray ≡ false = elim (Bool-cases (member x gray)) [
          | inl g ↦ let on = i.gray_on x g in ground arith
          | inr b ↦ b
        ] in
        let later = i.done x y old (ground arith) e in
        let y_old = i.edges x y old black e in
        elim (Bool-cases (str_eq y v)) [
          | inl same ↦
              let y_is : y ≡ v = (eq_iff y v).0 same in
              let again : visited s v ≡ true = rw y_is at y_old in cc
          | inr other ↦ ground arith
        ];
    up = λ g x mg mx le. elim (Bool-cases (str_eq x v)) [
      | inl x_new ↦ elim (Bool-cases (str_eq g v)) [
        | inl g_new ↦ rw ((eq_iff g v).0 g_new, (eq_iff x v).0 x_new) here
        | inr g_old ↦ rw ((eq_iff x v).0 x_new) (callers g (ground arith))
      ]
      | inr x_old ↦
          let on : member x s.stack ≡ true = ground arith in
          let kept = num-enter_old v s x new (i.seen x on) in
          elim (Bool-cases (str_eq g v)) [
            | inl g_new ↦
                let small = i.bound x (i.seen x on) in
                absurd (ground (arith, num-enter v s g, eq_iff g v, eq_iff v g))
            | inr g_old ↦
                let gray_g : member g gray ≡ true = ground arith in
                let g_kept = num-enter_old v s g new (i.seen g (i.gray_on g gray_g)) in
                i.up g x gray_g on (omega arith)
          ]
    ];
    down = λ x m. elim (Bool-cases (str_eq x v)) [
      | inl x_new ↦ record {
        node = v;
        is_gray = ground (arith, eq_iff v v);
        below = rw ((eq_iff x v).0 x_new) (omega arith);
        reached = rw ((eq_iff x v).0 x_new) here;
      }
      | inr x_old ↦
          let on : member x s.stack ≡ true = ground arith in
          let d = i.down x on in
          let kept = num-enter_old v s x new (i.seen x on) in
          let g_kept = num-enter_old v s d.node new (i.seen d.node (i.gray_on d.node d.is_gray)) in
          let low = d.below in
          record {
            node = d.node;
            is_gray = ground (arith, d.is_gray);
            below = omega arith;
            reached = d.reached;
          }
    ];
    sound = i.sound;
    wide = i.wide;
    complete = λ x y seen off there back ne.
        i.complete x y (was_visited x seen (ground arith)) (ground arith) there back ne;
  }
    where
      was_visited :
          (x : String) → visited (enter v s) x ≡ true → str_eq x v ≡ false → visited s x ≡ true
      was_visited x seen other = ground (arith, visited-enter v s x, eq_iff x v, eq_iff v x)
