-- ===== src/Compiler/Graph/Cycles/Roots.antt =====
-- The loop over the nodes in `_cycle_components` of src/millforge/compiler/graph.py.
use mathlib.Core.List.Memᴰ
use text.Mathlib.TextEquality.{eq_iff}
use millforge.Compiler.Graph.{Adjacency}
use millforge.Prelude.{
  ℕ, suc, String, str_eq, List, [], ◌∷◌, length, true, none, some, is_some, ◌≡◌, refl, ap, ◌∙◌, inl,
  inr, lookup, arith, Bool-cases,
}
use millforge.Compiler.Collections.{member, string_eq, ◌>>=◌}
use millforge.Compiler.Collections.Laws.{Option-cases}
use millforge.Compiler.Graph.Cycles.{Tarjan, empty_state, all_nodes, visit, visit_roots}
use millforge.Compiler.Graph.Cycles.Invariant.{visited, Inv}
use millforge.Compiler.Graph.Cycles.Total.{visit-Finished}
use millforge.Compiler.Graph.Cycles.Named.{member-all_nodes, unvisited-le-length}

module _ (adjacency : Adjacency) where
  pub empty-Inv : Inv adjacency [] empty_state
  unfolding empty_state lookup
  empty-Inv = record {
    on_stack = λ x. refl;
    seen = λ x m. cc;
    bound = λ x m. cc;
    order = tt;
    gray_on = λ x m. cc;
    edges = λ x y m. cc;
    done = λ x y m. cc;
    up = λ g x m. cc;
    down = λ x m. cc;
    sound = λ c x y m. absurd (Memᴰ.not-nil m);
    wide = λ c x m. absurd (Memᴰ.not-nil m);
    complete = λ x y m. cc;
  }

  visit_roots_new :
      (fuel : ℕ) (id : String) (ids : List String) (s t : Tarjan)
      → lookup id s.indices ≡ none
      → visit adjacency fuel id s ≡ some t
      → visit_roots adjacency fuel (id ∷ ids) s ≡ visit_roots adjacency fuel ids t
  unfolding visit_roots
  visit_roots_new fuel id ids s t missing e = rw (visit_roots, missing, e, ◌>>=◌) refl

  -- From a state that has the invariant of the walk with no `visit` open, the loop over nodes that
  -- the adjacency names ends with the fuel it is given, in a state that has the invariant; what
  -- was visited stays visited, and each node of the loop is visited.
  pub visit_roots-Inv :
      (ids : List String) (s : Tarjan)
      → Inv adjacency [] s
      → ((x : String) → member x ids ≡ true → member x (all_nodes adjacency) ≡ true)
      → (t : Tarjan) × (visit_roots adjacency (suc (length (all_nodes adjacency))) ids s ≡ some t)
        × Inv adjacency [] t
        × ((x : String) → visited s x ≡ true → visited t x ≡ true)
        × ((x : String) → member x ids ≡ true → visited t x ≡ true)
  unfolding visit_roots
  visit_roots-Inv [] s i named = (s, refl, i, λ x h. h, λ x m. cc)
  visit_roots-Inv (id ∷ ids) s i named = elim (Option-cases (lookup id s.indices)) [
    | inr (n, n_is) ↦
        let (t, e, j, more, all) = visit_roots-Inv ids s i (λ x m. named x (ground arith)) in
        (
          t,
          rw (n_is, visit_roots) e,
          j,
          more,
          λ x m. elim (Bool-cases (str_eq x id)) [
            | inl is ↦
                let old : visited s id ≡ true = ap is_some n_is in
                rw ((eq_iff x id).0 is) (more id old)
            | inr other ↦ all x (ground arith)
          ],
        )
    | inl missing ↦
        let (t₁, e₁, f) =
          visit-Finished adjacency (all_nodes adjacency) (member-all_nodes adjacency)
            (suc (length (all_nodes adjacency))) id [] s
            (record { inv = i; new = ap is_some missing; callers = λ g m. cc })
            (named id (ground (arith, eq_iff id id)))
            (omega (arith, unvisited-le-length s (all_nodes adjacency))) in
        let (t, e, j, more, all) = visit_roots-Inv ids t₁ f.inv (λ x m. named x (ground arith)) in
        (
          t,
          visit_roots_new (suc (length (all_nodes adjacency))) id ids s t₁ missing e₁ ∙ e,
          j,
          λ x old. more x (f.kept_seen x old),
          λ x m. elim (Bool-cases (str_eq x id)) [
            | inl is ↦ rw ((eq_iff x id).0 is) (more id f.seen)
            | inr other ↦ all x (ground arith)
          ],
        )
  ]
