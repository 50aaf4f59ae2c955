-- ===== src/Compiler/Graph/Cycles/Total.antt =====
-- `visit` in `_cycle_components` of src/millforge/compiler/graph.py returns.
use text.Mathlib.TextEquality.{eq_iff}
use millforge.Compiler.Graph.{Adjacency}
use millforge.Prelude.{
  ℕ, zero, suc, ◌≤◌, String, List, [], ◌∷◌, true, false, Option, none, some, is_some, ◌≡◌, refl,
  sym, ap, ◌∙◌, inl, inr, lookup, arith, Bool-cases,
}
use millforge.Compiler.Collections.{member, get_or, insert, or_else, string_eq, ◌>>=◌}
use millforge.Compiler.Collections.Laws.{Option-cases}
use millforge.Compiler.Graph.Walks.{Edge, here}
use millforge.Compiler.Graph.Cycles.{
  Tarjan, enter, min, lower, visit_dependent, visit_dependents, visit,
}
use millforge.Compiler.Graph.Cycles.Invariant.{visited, num, Inv}
use millforge.Compiler.Graph.Cycles.Enter.{visited-enter, num-enter_self, num-enter_old, enter-Inv}
use millforge.Compiler.Graph.Cycles.Leave.{Leaving, Left}
use millforge.Compiler.Graph.Cycles.Close.{leave-Left}
use millforge.Compiler.Graph.Cycles.Visit.{
  Ready, Finished, Working, Visits, unvisited, unvisited-le, unvisited-lt,
}
use millforge.Compiler.Graph.Cycles.Rounds.{
  lower-eq, kept_low-insert, low-insert, round_done, round_on, round_new, ready,
}

module _ (go : String → Tarjan → Option Tarjan) (v d : String) (s : Tarjan) where
  visit_dependent_new :
      (t : Tarjan) (low : ℕ)
      → lookup d s.indices ≡ none
      → go d s ≡ some t
      → lookup d t.lowlinks ≡ some low
      → visit_dependent go v d s ≡ lower v low t
  unfolding visit_dependent
  visit_dependent_new t low missing e low_is = rw (visit_dependent, missing, e, ◌>>=◌, low_is) refl

  visit_dependent_old :
      (i : ℕ)
      → lookup d s.indices ≡ some i
      → visit_dependent go v d s
        ≡ elim (member d s.on_stack) [ true ↦ lower v i s | false ↦ some s ]
  unfolding visit_dependent
  visit_dependent_old i i_is = rw (visit_dependent, i_is) refl

module _ (adjacency : Adjacency) (all : List String)
    (targets_in : (u w : String) → Edge adjacency u w → member w all ≡ true) where
  module _ (fuel : ℕ) (go : String → Tarjan → Option Tarjan) (visits : Visits adjacency all fuel go)
      (v : String) (gray : List String) (start : Tarjan) (before : Inv adjacency gray start)
      (new : visited start v ≡ false) where
    visit_dependent-Working :
        (d : String) (ds : List String) (s : Tarjan)
        → Working adjacency v gray (d ∷ ds) start s
        → unvisited s all ≤ fuel
        → (t : Tarjan) × (visit_dependent go v d s ≡ some t)
          × Working adjacency v gray ds start t
          × (unvisited t all ≤ fuel)
    visit_dependent-Working d ds s w enough = elim (Option-cases (lookup d s.indices)) [
      | inl missing ↦
          let new_d : visited s d ≡ false = ap is_some missing in
          let (t, e, f) =
            visits d (v ∷ gray) s (ready adjacency v gray start before new d ds s w new_d)
              (targets_in v d (w.dependents d (ground (arith, eq_iff d d)))) enough in
          let low_is = f.kept_low v w.seen ∙ w.low_is in
          (
            record t { lowlinks = insert v (min w.low f.low) t.lowlinks },
            visit_dependent_new go v d s t f.low missing e f.low_is
                ∙ lower-eq v f.low w.low t low_is,
            round_new adjacency v gray start before new d ds s w t f new_d,
            (let less = unvisited-le s t all f.kept_seen in omega arith),
          )
      | inr (i, i_is) ↦
          let seen : visited s d ≡ true = ap is_some i_is in
          let numbered : num s d ≡ i = ap (λ o. or_else o 0) i_is in
          elim (Bool-cases (member d s.on_stack)) [
            | inl on ↦
                let on' = sym (w.inv.on_stack d) ∙ on in
                (
                  record s { lowlinks = insert v (min w.low (num s d)) s.lowlinks },
                  visit_dependent_old go v d s i i_is
                      ∙ rw (on, sym numbered) (lower-eq v (num s d) w.low s w.low_is),
                  round_on adjacency v gray start before new d ds s w seen on',
                  enough,
                )
            | inr off ↦
                let off' = sym (w.inv.on_stack d) ∙ off in
                (
                  s,
                  visit_dependent_old go v d s i i_is ∙ rw off refl,
                  round_done adjacency v gray start before new d ds s w seen off',
                  enough,
                )
          ]
    ]

    visit_dependents-Working :
        (ds : List String) (s : Tarjan)
        → Working adjacency v gray ds start s
        → unvisited s all ≤ fuel
        → (t : Tarjan) × (visit_dependents go v ds s ≡ some t) × Working adjacency v gray [] start t
    unfolding visit_dependents
    visit_dependents-Working [] s w enough = (s, refl, w)
    visit_dependents-Working (d ∷ ds) s w enough =
        let (t, e, w', enough') = visit_dependent-Working d ds s w enough in
        let (u, e', w'') = visit_dependents-Working ds t w' enough' in (u, rw (e, ◌>>=◌) e', w'')

  enter-Working :
      (v : String) (gray : List String) (s : Tarjan)
      → Ready adjacency v gray s
      → Working adjacency v gray (get_or v adjacency []) s (enter v s)
  unfolding enter
  enter-Working v gray s r = record {
    inv = enter-Inv adjacency v gray s r.inv r.new r.callers;
    extra = [];
    stacked = refl;
    kept_seen = λ x old. ground (arith, visited-enter v s x);
    kept_num = λ x old. num-enter_old v s x r.new old;
    kept_low = λ x old. kept_low-insert adjacency v gray s r.inv r.new s.index s x old;
    seen = ground (arith, visited-enter v s v, eq_iff v v);
    index = let n = num-enter_self v s in omega arith;
    low = s.index;
    low_is = low-insert adjacency v gray s r.inv r.new s.index s;
    target = record {
      node = v;
      is_on = ground (arith, eq_iff v v);
      numbered = num-enter_self v s;
      reached = here;
    };
    at_most = let n = num-enter_self v s in omega arith;
    bounds = λ x y m. cc;
    dependents = λ y m. m;
    handled = λ y e m. cc;
    handled_low = λ y e m. cc;
  }

  Working-Leaving :
      (v : String) (gray : List String) (s t : Tarjan)
      → Inv adjacency gray s
      → (w : Working adjacency v gray [] s t) → Leaving adjacency v gray s.stack w.extra w.low t
  Working-Leaving v gray s t before w = record {
    inv = w.inv;
    stacked = w.stacked;
    gray_below = before.gray_on;
    low_is = w.low_is;
    seen = w.seen;
    target = w.target;
    at_most = w.at_most;
    bounds = w.bounds;
    handled = λ y e. w.handled y e refl;
    handled_low = λ y e. w.handled_low y e refl;
  }

  Left-Finished :
      (v : String) (gray : List String) (s t u : Tarjan) (w : Working adjacency v gray [] s t)
      → Left adjacency v gray s.stack w.extra w.low t u
      → Finished adjacency v gray s u
  Left-Finished v gray s t u w l = record {
    inv = l.inv;
    extra = l.kept;
    stacked = l.stacked;
    kept_seen = λ x old. same_seen x ∙ w.kept_seen x old;
    kept_num = λ x old. same_num x ∙ w.kept_num x old;
    kept_low = λ x old. ap (lookup x) l.same_lowlinks ∙ w.kept_low x old;
    seen = same_seen v ∙ w.seen;
    low = w.low;
    low_is = ap (lookup v) l.same_lowlinks ∙ w.low_is;
    target = elim l.target [
      | inl closes ↦ inl (let i = w.index in omega arith)
      | inr g ↦ inr (record {
        node = g.node;
        is_on = g.is_on;
        numbered = same_num g.node ∙ g.numbered;
        reached = g.reached;
      })
    ];
    bounds = λ x y mx my e. let b = l.bounds x y mx my e in let n = same_num y in omega arith;
  }
    where
      same_seen : (x : String) → visited u x ≡ visited t x
      same_seen x = ap (λ d. is_some (lookup x d)) l.same_indices

      same_num : (x : String) → num u x ≡ num t x
      same_num x = ap (λ d. or_else (lookup x d) 0) l.same_indices

  pub visit-Finished : (fuel : ℕ) → Visits adjacency all fuel (visit adjacency fuel)
  unfolding visit
  visit-Finished zero v gray s r m enough =
      let w = enter-Working v gray s r in
      absurd (omega (arith, unvisited-lt s (enter v s) v all w.kept_seen m r.new w.seen))
  visit-Finished (suc fuel) v gray s r m enough =
      let w = enter-Working v gray s r in
      let less = unvisited-lt s (enter v s) v all w.kept_seen m r.new w.seen in
      let (t, e, w') =
        visit_dependents-Working fuel (visit adjacency fuel) (visit-Finished fuel) v gray s r.inv
          r.new (get_or v adjacency []) (enter v s) w (omega arith) in
      let (u, e', l) =
        leave-Left adjacency v gray s.stack w'.extra w'.low t
          (Working-Leaving v gray s t r.inv w') in
      (u, rw (e, ◌>>=◌) e', Left-Finished v gray s t u w' l)
