-- ===== src/Compiler/Graph/Cycles/Close.antt =====
-- The two ways in which `visit` in `_cycle_components` of src/millforge/compiler/graph.py returns.
use mathlib.Core.List.{Memᴰ, append_assoc}
use mathlib.Core.Path.{subst}
use text.Mathlib.TextEquality.{eq_iff}
use millforge.Compiler.Graph.{Adjacency}
use millforge.Prelude.{
  ℕ, ◌==◌, ◌≤◌, ◌<◌, String, str_eq, List, [], ◌∷◌, ◌++◌, true, false, ◌||◌, some, ◌≡◌, ◌≢◌, refl,
  sym, ap, ◌∙◌, inl, inr, lookup, arith, Bool-cases,
}
use millforge.Compiler.Collections.{member, or_else, text_leb, string_eq, ◌>>=◌}
use millforge.Compiler.Collections.Laws.{member-append, member-sorted, Option-cases}
use millforge.Compiler.Graph.Walks.{Edge, Reaches, Reaches-trans}
use millforge.Compiler.Graph.Cycles.{Tarjan, leave, pop_component, record_component}
use millforge.Compiler.Graph.Cycles.Invariant.{
  visited, num, IsOrdered-tail, Down, Inv, Reaches-done, Together, Other,
}
use millforge.Compiler.Graph.Cycles.Pop.{
  pop_component-Pops, component-Other, record_component_old, record_component_cases,
  record_component-Together,
}
use millforge.Compiler.Graph.Cycles.Leave.{
  Target, Leaving, Left, ordered, below, on, inside, on_inside, at_least, out-Edge, closed, stays,
  from_v, to_v,
}

module _ (adjacency : Adjacency) (v : String) (gray rest extra : List String) (low : ℕ) (s : Tarjan)
    (w : Leaving adjacency v gray rest extra low s) where
  -- A gray node below the node.
  gray-other : (g x : String) → num s g ≤ num s x → num s x < num s v → str_eq g v ≡ false
  gray-other g x le lt = elim (Bool-cases (str_eq g v)) [
    | inl is ↦
        let le' : num s v ≤ num s x = subst (λ z. num s z ≤ num s x) ((eq_iff g v).0 is) le in
        absurd (omega arith)
    | inr other ↦ other
  ]

  rest-Down : (x : String) → member x rest ≡ true → Down adjacency gray s x
  rest-Down x m =
      let d = w.inv.down x (ground (arith, on adjacency v gray rest extra low s w x)) in
      let g = d.is_gray in
      let other = gray-other d.node x d.below (below adjacency v gray rest extra low s w x m) in
      record { node = d.node; is_gray = ground arith; below = d.below; reached = d.reached }

  -- The node stays on the stack, below a gray node.
  module _ (t : Target adjacency v s rest low) where
    stay-Down : (x : String) → member x s.stack ≡ true → Down adjacency gray s x
    stay-Down x m =
        let d = w.inv.down x m in
        let g = d.is_gray in
        let lower = below adjacency v gray rest extra low s w t.node t.is_on in
        elim (Bool-cases (str_eq d.node v)) [
          | inl is ↦
              let d_is = (eq_iff d.node v).0 is in
              let e = rest-Down t.node t.is_on in
              let le : num s v ≤ num s x = subst (λ z. num s z ≤ num s x) d_is d.below in
              let le' = e.below in
              record {
                node = e.node;
                is_gray = e.is_gray;
                below = omega arith;
                reached =
                    Reaches-trans adjacency (subst (Reaches adjacency x) d_is d.reached)
                      (Reaches-trans adjacency t.reached e.reached);
              }
          | inr other ↦ record {
            node = d.node;
            is_gray = ground arith;
            below = d.below;
            reached = d.reached;
          }
        ]

    stay-Inv : Inv adjacency gray s
    stay-Inv = record {
      on_stack = w.inv.on_stack;
      seen = w.inv.seen;
      bound = w.inv.bound;
      order = w.inv.order;
      gray_on = λ x m. w.inv.gray_on x (ground arith);
      edges = out-Edge adjacency v gray rest extra low s w;
      done = w.inv.done;
      up = λ g x m. w.inv.up g x (ground arith);
      down = stay-Down;
      sound = w.inv.sound;
      wide = w.inv.wide;
      complete = w.inv.complete;
    }

  abbrev component : List String
  component = extra ++ v ∷ []

  member-component : (x : String) → member x component ≡ (member x extra || str_eq x v)
  member-component x = ground (arith, member-append x extra (v ∷ []))

  -- The state after the component is popped.
  abbrev popped : List String → Tarjan
  popped left = record s {
    stack = rest;
    on_stack = left;
    components = record_component component s.components;
  }

  module _ (closes : low ≡ num s v) where
    close_sound :
        (c : List String) (x y : String)
        → Memᴰ c (record_component component s.components)
        → member x c ≡ true
        → member y c ≡ true
        → Reaches adjacency x y
    close_sound c x y m mx my = elim (record_component_cases component s.components c m) [
      | inl old ↦ w.inv.sound c x y old mx my
      | inr (new, two) ↦
          let in_x = ap (member x) new ∙ member-sorted text_leb x component in
          let in_y = ap (member y) new ∙ member-sorted text_leb y component in
          Reaches-trans adjacency
            (to_v adjacency v gray rest extra low s w closes x
              (sym (member-component x) ∙ (sym in_x ∙ mx)))
            (from_v adjacency v gray rest extra low s w closes y
              (sym (member-component y) ∙ (sym in_y ∙ my)))
    ]

    close_wide :
        (c : List String) (x : String)
        → Memᴰ c (record_component component s.components)
        → member x c ≡ true
        → Other c x
    close_wide c x m mx = elim (record_component_cases component s.components c m) [
      | inl old ↦ w.inv.wide c x old mx
      | inr (new, two) ↦
          let in_x = sym (ap (member x) new ∙ member-sorted text_leb x component) ∙ mx in
          let o =
            component-Other (num s) extra rest v x (ordered adjacency v gray rest extra low s w) two
              in_x in
          record {
            node = o.node;
            is_in = ap (member o.node) new ∙ (member-sorted text_leb o.node component ∙ o.is_in);
            differs = o.differs;
          }
    ]

    close_complete :
        (x y : String)
        → visited s x ≡ true
        → member x rest ≡ false
        → Reaches adjacency x y
        → Reaches adjacency y x
        → x ≢ y
        → Together (record_component component s.components) x y
    close_complete x y seen off there back ne =
        elim (Bool-cases (inside adjacency v gray rest extra low s w x)) [
          | inl m ↦
              let y_in = stays adjacency v gray rest extra low s w closes seen off there in
              let y_seen = y_in.0 in
              let y_off = y_in.1 in
              elim (Bool-cases (member y s.stack)) [
                | inl y_on ↦
                    record_component-Together component s.components x y (member-component x ∙ m)
                      (member-component y
                        ∙ ground (arith, on adjacency v gray rest extra low s w y))
                      ne
                | inr y_done ↦
                    let again = Reaches-done adjacency (v ∷ gray) s w.inv y_seen y_done back in
                    let x_on = on_inside adjacency v gray rest extra low s w x m in
                    let x_off = again.1 in absurd (ground arith)
              ]
          | inr outside ↦
              let t =
                w.inv.complete x y seen (ground (arith, on adjacency v gray rest extra low s w x))
                  there back ne in
              record {
                component = t.component;
                found = record_component_old component s.components t.component t.found;
                has_first = t.has_first;
                has_second = t.has_second;
              }
        ]

    close-Inv :
        (left : List String)
        → ((x : String) → member x left ≡ member x rest)
        → Inv adjacency gray (popped left)
    close-Inv left same = record {
      on_stack = same;
      seen = λ x m. w.inv.seen x (ground (arith, on adjacency v gray rest extra low s w x));
      bound = w.inv.bound;
      order = IsOrdered-tail (num s) extra rest v (ordered adjacency v gray rest extra low s w);
      gray_on = w.gray_below;
      edges = out-Edge adjacency v gray rest extra low s w;
      done = closed adjacency v gray rest extra low s w closes;
      up = λ g x m r.
          w.inv.up g x (ground arith) (ground (arith, on adjacency v gray rest extra low s w x));
      down = λ x m.
          let d = rest-Down x m in
          record { node = d.node; is_gray = d.is_gray; below = d.below; reached = d.reached };
      sound = close_sound;
      wide = close_wide;
      complete = close_complete;
    }

  -- A low link below the node is the number of a node further down the stack.
  rest-Target : (low == num s v) ≡ false → Target adjacency v s rest low
  rest-Target ne =
      let t = w.target in
      let n = t.numbered in
      let m = t.is_on in
      let most = w.at_most in
      let is_low : num s t.node < num s v = ground arith in
      let other : inside adjacency v gray rest extra low s w t.node ≡ false =
        elim (Bool-cases (inside adjacency v gray rest extra low s w t.node)) [
          | inl i ↦
              let high = at_least adjacency v gray rest extra low s w t.node i in
              absurd (omega arith)
          | inr h ↦ h
        ] in
      record {
        node = t.node;
        is_on = ground (arith, on adjacency v gray rest extra low s w t.node);
        numbered = n;
        reached = t.reached;
      }

  pub leave-Left : (t : Tarjan) × (leave v s ≡ some t) × Left adjacency v gray rest extra low s t
  unfolding leave
  leave-Left = elim (Option-cases (lookup v s.indices)) [
    | inl missing ↦ let seen = w.seen in absurd (ground arith)
    | inr (i, i_is) ↦
        let numbered : num s v ≡ i = ap (λ o. or_else o 0) i_is in
        elim (Bool-cases (low == i)) [
          | inl same ↦
              let closes : low ≡ num s v = ground arith in
              let p =
                pop_component-Pops (num s) v extra rest s.on_stack []
                  (λ x. w.inv.on_stack x ∙ ap (member x) w.stacked)
                  (ordered adjacency v gray rest extra low s w) in
              let pops =
                subst
                  (λ l.
                    pop_component v l s.on_stack []
                    ≡ some (record { stack = rest; on_stack = p.left; component = component }))
                  (sym w.stacked) p.pops in
              (
                popped p.left,
                rw (w.low_is, i_is, ◌>>=◌, same, pops) refl,
                record {
                  inv = close-Inv closes p.left p.same;
                  kept = [];
                  stacked = refl;
                  inner = λ x m. cc;
                  same_indices = refl;
                  same_lowlinks = refl;
                  same_index = refl;
                  target = inl closes;
                  bounds = λ x y m. cc;
                },
              )
          | inr other ↦
              let ne : (low == num s v) ≡ false = rw numbered other in
              let t = rest-Target ne in
              (
                s,
                rw (w.low_is, i_is, ◌>>=◌, other) refl,
                record {
                  inv = stay-Inv t;
                  kept = extra ++ v ∷ [];
                  stacked = w.stacked ∙ sym (append_assoc extra (v ∷ []) rest);
                  inner = λ x m. sym (member-component x) ∙ m;
                  same_indices = refl;
                  same_lowlinks = refl;
                  same_index = refl;
                  target = inr t;
                  bounds = λ x y m r e. elim (Bool-cases (str_eq x v)) [
                    | inl is ↦
                        w.handled_low y (subst (λ z. Edge adjacency z y) ((eq_iff x v).0 is) e) r
                    | inr new ↦
                        let i = sym (member-component x) ∙ m in w.bounds x y (ground arith) r e
                  ];
                },
              )
        ]
  ]
