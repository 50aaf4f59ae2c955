-- ===== src/Compiler/Graph/Validate/Results.antt =====
-- The terminal results of a graph, in `validate_harness_graph` of src/millforge/compiler/graph.py.
use mathlib.Core.Path.{subst}
use text.Mathlib.TextEquality.{eq_iff}
use millforge.Prelude.{
  String, str_eq, List, [], ◌∷◌, true, false, none, some, ◌≡◌, refl, sym, ap, ◌∙◌, inl, inr, lookup,
  arith, Bool-cases,
}
use millforge.Compiler.Collections.{member, get_or, set_default, string_eq, pair_eq}
use millforge.Compiler.Collections.Laws.{lookup-insert, Option-cases}
use millforge.Compiler.Graph.Validate.{duplicate_results}

-- With no duplicates, one result has one node.
first_kept :
    (firsts : List (String × String)) (j q r id : String)
    → lookup r firsts ≡ some id
    → lookup r (set_default q j firsts) ≡ some id
unfolding set_default
first_kept firsts j q r id h = elim (Option-cases (lookup q firsts)) [
  | inl missing ↦
      rw (set_default, missing)
        (lookup-insert r q j firsts ∙ elim (Bool-cases (str_eq q r)) [
          | inl is ↦
              let gone : lookup r firsts ≡ none =
                subst (λ x. lookup x firsts ≡ none) ((eq_iff q r).0 is) missing in
              cc
          | inr other ↦ rw other h
        ])
  | inr (w, is) ↦ rw (set_default, is) h
]

first_set :
    (firsts : List (String × String)) (j q : String)
    → str_eq (get_or q firsts j) j ≡ true
    → lookup q (set_default q j firsts) ≡ some j
unfolding set_default
first_set firsts j q h = elim (Option-cases (lookup q firsts)) [
  | inl missing ↦
      let same : str_eq q q ≡ true = (eq_iff q q).1 refl in
      rw (set_default, missing) (lookup-insert q q j firsts ∙ rw same refl)
  | inr (w, is) ↦
      let h' : str_eq w j ≡ true = rw is at h in
      rw (set_default, is) (is ∙ ap some ((eq_iff w j).0 h'))
]

pub first_only :
    (firsts terminals : List (String × String)) (r id j : String)
    → ((x : String) → member x (duplicate_results firsts terminals) ≡ false)
    → lookup r firsts ≡ some id
    → member (j, r) terminals ≡ true
    → id ≡ j
unfolding duplicate_results
first_only firsts [] r id j none_left h m = cc
first_only firsts ((k, q) ∷ terminals) r id j none_left h m =
    elim (Bool-cases (str_eq (get_or q firsts k) k)) [
      | inl same ↦
          let none_left' : (x : String)
              → member x (duplicate_results (set_default q k firsts) terminals) ≡ false =
            λ x. rw same at (none_left x) in
          elim (Bool-cases (member (j, r) terminals)) [
            | inl later ↦
                first_only (set_default q k firsts) terminals r id j none_left'
                  (first_kept firsts k q r id h) later
            | inr first ↦
                let r_is : r ≡ q = ground (arith, eq_iff r q) in
                let j_is : j ≡ k = ground (arith, eq_iff j k) in
                let h' : lookup q firsts ≡ some id =
                  subst (λ x. lookup x firsts ≡ some id) r_is h in
                let same' : str_eq id k ≡ true = rw h' at same in (eq_iff id k).0 same' ∙ sym j_is
          ]
      | inr other ↦
          let bad : member q (q ∷ duplicate_results (set_default q k firsts) terminals) ≡ false =
            rw other at (none_left q) in
          absurd (ground (arith, eq_iff q q))
    ]

pub one_node :
    (firsts terminals : List (String × String)) (r id j : String)
    → ((x : String) → member x (duplicate_results firsts terminals) ≡ false)
    → member (id, r) terminals ≡ true
    → member (j, r) terminals ≡ true
    → id ≡ j
unfolding duplicate_results
one_node firsts [] r id j none_left m m' = cc
one_node firsts ((k, q) ∷ terminals) r id j none_left m m' =
    elim (Bool-cases (str_eq (get_or q firsts k) k)) [
      | inl same ↦
          let none_left' : (x : String)
              → member x (duplicate_results (set_default q k firsts) terminals) ≡ false =
            λ x. rw same at (none_left x) in
          let now = first_set firsts k q same in
          let is_k : (i : String)
              → member (i, r) ((k, q) ∷ terminals) ≡ true
              → member (i, r) terminals ≡ false
              → (r ≡ q) × (k ≡ i) =
            λ i n off. (ground (arith, eq_iff r q), ground (arith, eq_iff i k)) in
          elim (Bool-cases (member (id, r) terminals)) [
            | inl later ↦ elim (Bool-cases (member (j, r) terminals)) [
              | inl later' ↦
                  one_node (set_default q k firsts) terminals r id j none_left' later later'
              | inr first ↦
                  let (r_is, j_is) = is_k j m' first in
                  let now' =
                    subst (λ x. lookup x (set_default q k firsts) ≡ some k) (sym r_is) now in
                  sym (first_only (set_default q k firsts) terminals r k id none_left' now' later)
                  ∙ j_is
            ]
            | inr first ↦
                let (r_is, id_is) = is_k id m first in
                let now' = subst (λ x. lookup x (set_default q k firsts) ≡ some k) (sym r_is) now in
                elim (Bool-cases (member (j, r) terminals)) [
                  | inl later' ↦
                      sym id_is
                      ∙ first_only (set_default q k firsts) terminals r k j none_left' now' later'
                  | inr first' ↦ sym id_is ∙ (is_k j m' first').1
                ]
          ]
      | inr other ↦
          let bad : member q (q ∷ duplicate_results (set_default q k firsts) terminals) ≡ false =
            rw other at (none_left q) in
          absurd (ground (arith, eq_iff q q))
    ]
