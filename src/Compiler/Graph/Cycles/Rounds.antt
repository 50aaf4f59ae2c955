-- ===== src/Compiler/Graph/Cycles/Rounds.antt =====
-- One round of the loop of `visit` in `_cycle_components` of src/millforge/compiler/graph.py.
use mathlib.Core.List.{append_assoc}
use mathlib.Core.Path.{subst}
use text.Mathlib.TextEquality.{eq_iff}
use millforge.Compiler.Graph.{Adjacency}
use millforge.Prelude.{
  ℕ, ◌≤◌, String, str_eq, List, ◌∷◌, ◌++◌, true, false, some, ◌≡◌, refl, sym, ap, ◌∙◌, inl, inr,
  ltb, lookup, arith, Bool-cases,
}
use millforge.Compiler.Collections.{member, insert, string_eq}
use millforge.Compiler.Collections.Laws.{member-append, lookup-insert}
use millforge.Compiler.Graph.Walks.{Edge, Reaches, here, step, Reaches-trans}
use millforge.Compiler.Graph.Cycles.{Tarjan, min, lower}
use millforge.Compiler.Graph.Cycles.Invariant.{
  visited, num, IsOrdered, IsOrdered-below, Inv, Inv-lowlinks,
}
use millforge.Compiler.Graph.Cycles.Visit.{Ready, Finished, Working}

pub lower-eq :
    (v : String) (value low : ℕ) (s : Tarjan)
    → lookup v s.lowlinks ≡ some low
    → lower v value s ≡ some (record s { lowlinks = insert v (min low value) s.lowlinks })
unfolding lower
lower-eq v value low s e = rw e refl

module _ (adjacency : Adjacency) (v : String) (gray : List String) (start : Tarjan)
    (before : Inv adjacency gray start) (new : visited start v ≡ false) where
  -- Lowering the link of `v` touches no older node.
  pub kept_low-insert :
      (value : ℕ) (s : Tarjan) (x : String)
      → visited start x ≡ true
      → lookup x (insert v value s.lowlinks) ≡ lookup x s.lowlinks
  kept_low-insert value s x old = elim (Bool-cases (str_eq v x)) [
    | inl is ↦
        let v_is : v ≡ x = (eq_iff v x).0 is in
        let old' : visited start v ≡ true = subst (λ z. visited start z ≡ true) (sym v_is) old in cc
    | inr other ↦ lookup-insert x v value s.lowlinks ∙ rw other refl
  ]

  pub low-insert : (value : ℕ) (s : Tarjan) → lookup v (insert v value s.lowlinks) ≡ some value
  low-insert value s =
      let is_v : str_eq v v ≡ true = (eq_iff v v).1 refl in
      lookup-insert v v value s.lowlinks ∙ rw is_v refl

  module _ (d : String) (ds : List String) (s : Tarjan)
      (w : Working adjacency v gray (d ∷ ds) start s) where
    edge : Edge adjacency v d
    edge = w.dependents d (ground (arith, eq_iff d d))

    start_on : (y : String) → member y start.stack ≡ true → member y s.stack ≡ true
    start_on y m =
        ap (member y) w.stacked ∙ ground (arith, member-append y w.extra (v ∷ start.stack))

    v_on : member v s.stack ≡ true
    v_on =
        ap (member v) w.stacked
        ∙ ground (arith, member-append v w.extra (v ∷ start.stack), eq_iff v v)

    -- The dependent is visited, and has left the stack.
    pub round_done :
        visited s d ≡ true → member d s.stack ≡ false → Working adjacency v gray ds start s
    round_done seen off = record {
      inv = w.inv;
      extra = w.extra;
      stacked = w.stacked;
      kept_seen = w.kept_seen;
      kept_num = w.kept_num;
      kept_low = w.kept_low;
      seen = w.seen;
      index = w.index;
      low = w.low;
      low_is = w.low_is;
      target = w.target;
      at_most = w.at_most;
      bounds = w.bounds;
      dependents = λ y m. w.dependents y (ground arith);
      handled = λ y e m. elim (Bool-cases (str_eq y d)) [
        | inl is ↦ subst (λ z. visited s z ≡ true) (sym ((eq_iff y d).0 is)) seen
        | inr other ↦ w.handled y e (ground arith)
      ];
      handled_low = λ y e m r. elim (Bool-cases (str_eq y d)) [
        | inl is ↦
            let on : member d s.stack ≡ true =
              subst (λ z. member z s.stack ≡ true) ((eq_iff y d).0 is) (start_on y r) in
            absurd (ground arith)
        | inr other ↦ w.handled_low y e (ground arith) r
      ];
    }

    -- The dependent is on the stack.
    pub round_on :
        visited s d ≡ true
        → member d s.stack ≡ true
        → Working adjacency v gray ds start
            (record s { lowlinks = insert v (min w.low (num s d)) s.lowlinks })
    round_on seen on = record {
      inv = Inv-lowlinks adjacency (v ∷ gray) s _ w.inv;
      extra = w.extra;
      stacked = w.stacked;
      kept_seen = w.kept_seen;
      kept_num = w.kept_num;
      kept_low = λ x old. kept_low-insert (min w.low (num s d)) s x old ∙ w.kept_low x old;
      seen = w.seen;
      index = w.index;
      low = min w.low (num s d);
      low_is = low-insert (min w.low (num s d)) s;
      target = elim (Bool-cases (ltb (num s d) w.low)) [
        | inl less ↦ record {
          node = d;
          is_on = on;
          numbered = rw less refl;
          reached = step here edge;
        }
        | inr not_less ↦
            let t = w.target in
            record {
              node = t.node;
              is_on = t.is_on;
              numbered = rw not_less t.numbered;
              reached = t.reached;
            }
      ];
      at_most = let m = w.at_most in ground arith;
      bounds = λ x y mx my e. let b = w.bounds x y mx my e in ground arith;
      dependents = λ y m. w.dependents y (ground arith);
      handled = λ y e m. elim (Bool-cases (str_eq y d)) [
        | inl is ↦ subst (λ z. visited s z ≡ true) (sym ((eq_iff y d).0 is)) seen
        | inr other ↦ w.handled y e (ground arith)
      ];
      handled_low = λ y e m r. elim (Bool-cases (str_eq y d)) [
        | inl is ↦
            subst (λ z. min w.low (num s d) ≤ num s z) (sym ((eq_iff y d).0 is)) (ground arith)
        | inr other ↦ let b = w.handled_low y e (ground arith) r in ground arith
      ];
    }

    -- The dependent is visited now.
    pub ready : visited s d ≡ false → Ready adjacency d (v ∷ gray) s
    ready new_d = record {
      inv = w.inv;
      new = new_d;
      callers = λ g m. elim (Bool-cases (str_eq g v)) [
        | inl is ↦ subst (λ z. Reaches adjacency z d) (sym ((eq_iff g v).0 is)) (step here edge)
        | inr other ↦
            let g_below = before.gray_on g (ground arith) in
            let less =
              IsOrdered-below (num s) w.extra start.stack v g
                (subst (IsOrdered (num s)) w.stacked w.inv.order) g_below in
            step (w.inv.up g v m v_on (omega arith)) edge
      ];
    }

    pub round_new :
        (t : Tarjan) (f : Finished adjacency d (v ∷ gray) s t)
        → visited s d ≡ false
        → Working adjacency v gray ds start
            (record t { lowlinks = insert v (min w.low f.low) t.lowlinks })
    round_new t f new_d = record {
      inv = Inv-lowlinks adjacency (v ∷ gray) t _ f.inv;
      extra = f.extra ++ w.extra;
      stacked =
          f.stacked
          ∙ (ap (λ l. f.extra ++ l) w.stacked
              ∙ sym (append_assoc f.extra w.extra (v ∷ start.stack)));
      kept_seen = λ x old. f.kept_seen x (w.kept_seen x old);
      kept_num = λ x old. f.kept_num x (w.kept_seen x old) ∙ w.kept_num x old;
      kept_low = λ x old.
          kept_low-insert (min w.low f.low) t x old
          ∙ (f.kept_low x (w.kept_seen x old) ∙ w.kept_low x old);
      seen = f.kept_seen v w.seen;
      index = let i = w.index in let n = f.kept_num v w.seen in omega arith;
      low = min w.low f.low;
      low_is = low-insert (min w.low f.low) t;
      target = elim (Bool-cases (ltb f.low w.low)) [
        | inl less ↦ elim f.target [
          | inl high ↦ let m = w.at_most in let b = w.inv.bound v w.seen in absurd (ground arith)
          | inr tf ↦ record {
            node = tf.node;
            is_on =
                ap (member tf.node) f.stacked
                ∙ (let on = tf.is_on in ground (arith, member-append tf.node f.extra s.stack));
            numbered = rw less tf.numbered;
            reached = Reaches-trans adjacency (step here edge) tf.reached;
          }
        ]
        | inr not_less ↦
            let t₀ = w.target in
            record {
              node = t₀.node;
              is_on =
                  ap (member t₀.node) f.stacked
                  ∙ (let on = t₀.is_on in ground (arith, member-append t₀.node f.extra s.stack));
              numbered =
                  rw not_less (f.kept_num t₀.node (w.inv.seen t₀.node t₀.is_on) ∙ t₀.numbered);
              reached = t₀.reached;
            }
      ];
      at_most = let m = w.at_most in let n = f.kept_num v w.seen in ground arith;
      bounds = λ x y mx my e.
          let y_on = start_on y my in
          elim (Bool-cases (member x f.extra)) [
            | inl young ↦ let b = f.bounds x y young y_on e in ground arith
            | inr older ↦
                let b = w.bounds x y (ground (arith, member-append x f.extra w.extra)) my e in
                let n = f.kept_num y (w.inv.seen y y_on) in ground arith
          ];
      dependents = λ y m. w.dependents y (ground arith);
      handled = λ y e m. elim (Bool-cases (str_eq y d)) [
        | inl is ↦ subst (λ z. visited t z ≡ true) (sym ((eq_iff y d).0 is)) f.seen
        | inr other ↦ f.kept_seen y (w.handled y e (ground arith))
      ];
      handled_low = λ y e m r. elim (Bool-cases (str_eq y d)) [
        | inl is ↦
            let old = w.inv.seen y (start_on y r) in
            let old' : visited s d ≡ true =
              subst (λ z. visited s z ≡ true) ((eq_iff y d).0 is) old in
            absurd (ground arith)
        | inr other ↦
            let b = w.handled_low y e (ground arith) r in
            let n = f.kept_num y (w.inv.seen y (start_on y r)) in ground arith
      ];
    }
