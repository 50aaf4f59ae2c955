-- ===== src/Compiler/Graph/Edges/Append.antt =====
-- Appending to the lists of a dictionary, in src/millforge/compiler/graph.py: with its key present,
-- each `d[k].append(v)` adds one edge and raises no KeyError.
use text.Mathlib.TextEquality.{eq_iff}
use millforge.Prelude.{
  String, str_eq, List, [], ◌∷◌, ◌++◌, Bool, true, false, ◌&&◌, ◌||◌, Option, some, is_some, ◌≡◌,
  refl, ◌∙◌, inl, inr, if◌then◌else◌, lookup, arith, Bool-cases,
}
use millforge.Compiler.Collections.{member, or_else, string_eq, pair_eq, ◌>>=◌}
use millforge.Compiler.Collections.Laws.{member-append, HasUniqueKeys, >>=_assoc}
use millforge.Compiler.Graph.{Adjacency, Pairs, targets, append_at}

-- The entries of the list of `j` in a dictionary whose first key is `k`.
pub targets-cons :
    (j k : String) (vs : List String) (d : Adjacency)
    → targets ((k, vs) ∷ d) j ≡ (if str_eq k j then vs else targets d j)
unfolding targets lookup
targets-cons j k vs d = pick (str_eq k j) (lookup j d)
  where
    pick :
        (b : Bool) (o : Option (List String))
        → or_else (if b then some vs else o) [] ≡ (if b then vs else or_else o [])
    pick true o = refl
    pick false o = refl

pub record Appended (k v : String) (d d' : Adjacency) : Type 0 where
  pub has : (j : String) → is_some (lookup j d') ≡ is_some (lookup j d)
  pub holds :
      (j x : String)
      → member x (targets d' j) ≡ (member x (targets d j) || (str_eq j k && str_eq x v))
  pub unique : HasUniqueKeys d → HasUniqueKeys d'

append_at-Appended :
    (k v : String) (d : Adjacency)
    → is_some (lookup k d) ≡ true
    → (d' : Adjacency) × (append_at k v d ≡ some d') × Appended k v d d'
unfolding append_at lookup targets
append_at-Appended k v [] h = cc
append_at-Appended k v ((i, vs) ∷ d) h = elim (Bool-cases (str_eq i k)) [
  | inl same ↦ (
    (i, vs ++ (v ∷ [])) ∷ d,
    rw same refl,
    record {
      has = λ j. ground arith;
      holds = λ j x.
          let i_is : i ≡ k = (eq_iff i k).0 same in
          rw (targets-cons j i (vs ++ (v ∷ [])) d, targets-cons j i vs d, i_is)
            (ground (arith, member-append x vs (v ∷ []), eq_iff k j, eq_iff j k));
      unique = λ u. u;
    },
  )
  | inr other ↦
      let (d', e, a) = append_at-Appended k v d (rw other at h) in
      (
        (i, vs) ∷ d',
        rw (other, e) refl,
        record {
          has = λ j. ground (arith, a.has j);
          holds = λ j x.
              rw (targets-cons j i vs d', targets-cons j i vs d)
                (ground (arith, a.holds j x, eq_iff i k, eq_iff j k, eq_iff i j));
          unique = λ u. (ground (arith, a.has i, u.0), a.unique u.1);
        },
      )
]

-- One append for each dependent with its prerequisite.
unfoldable pub append_pairs : Pairs → Adjacency → Option Adjacency
append_pairs [] d = some d
append_pairs ((v, k) ∷ es) d = append_at k v d >>= append_pairs es

pub record Extended (es : Pairs) (d d' : Adjacency) : Type 0 where
  pub has : (j : String) → is_some (lookup j d') ≡ is_some (lookup j d)
  pub holds :
      (j x : String) → member x (targets d' j) ≡ (member x (targets d j) || member (x, j) es)
  pub unique : HasUniqueKeys d → HasUniqueKeys d'

pub append_pairs-Extended :
    (es : Pairs) (d : Adjacency)
    → ((v k : String) → member (v, k) es ≡ true → is_some (lookup k d) ≡ true)
    → (d' : Adjacency) × (append_pairs es d ≡ some d') × Extended es d d'
unfolding append_pairs
append_pairs-Extended [] d keyed =
    (d, refl, record { has = λ j. refl; holds = λ j x. ground arith; unique = λ u. u })
append_pairs-Extended ((v, k) ∷ es) d keyed =
    let (d₁, e₁, a) =
      append_at-Appended k v d (keyed v k (ground (arith, eq_iff v v, eq_iff k k))) in
    let (d', e, x) = append_pairs-Extended es d₁ (λ w j m. a.has j ∙ keyed w j (ground arith)) in
    (
      d',
      rw (append_pairs, e₁) e,
      record {
        has = λ j. x.has j ∙ a.has j;
        holds = λ j y. ground (arith, x.holds j y, a.holds j y);
        unique = λ u. x.unique (a.unique u);
      },
    )

-- Two runs of appends, one after the other.
pub append_pairs-append :
    (es fs : Pairs) (d : Adjacency)
    → append_pairs (es ++ fs) d ≡ (append_pairs es d >>= append_pairs fs)
unfolding append_pairs
append_pairs-append [] fs d = refl
append_pairs-append ((v, k) ∷ es) fs d =
    >>=_assoc (append_pairs es) (append_pairs fs) (append_pairs (es ++ fs))
      (append_pairs-append es fs) (append_at k v d)
