-- ===== src/Compiler/Graph/Reach/Ancestors.antt =====
-- What the walk of `_required_ancestor_gaps` in src/millforge/compiler/graph.py finds.
use mathlib.Core.List.{reverse}
use millforge.Compiler.Graph.{Adjacency}
use millforge.Prelude.{
  ℕ, zero, suc, ◌+◌, ◌≤◌, String, str_eq, List, [], ◌∷◌, ◌++◌, length, length-append, true, false,
  ◌&&◌, ◌||◌, not, some, is_some, ◌≡◌, ◌≢◌, refl, ap, ◌∙◌, ◌↔◌, ◌⊎◌, inl, inr, if◌then◌else◌,
  lookup, arith, Bool-cases,
}
use text.Mathlib.TextEquality.{eq_iff}
use millforge.Compiler.Collections.{member, difference, set_of, sorted, text_leb, get_or, string_eq}
use millforge.Compiler.Collections.Laws.{
  member-append, member-sorted, member-difference, member-reverse, member-set_of, get_or-some,
  Option-cases, length-reverse,
}
use millforge.Compiler.Graph.Reach.{all_targets, ancestors_from, ancestors_of, missing_required}

abbrev prior : Adjacency → String → List String
prior reversed id = get_or id reversed []

-- `p` is a prerequisite of `t`, or of a prerequisite of it, and so on.
pub data IsAncestor (reversed : Adjacency) (t : String) : String → Type 0 where
  direct : {p : String} → member p (get_or t reversed []) ≡ true → IsAncestor reversed t p
  further :
      {q p : String}
      → IsAncestor reversed t q
      → member p (get_or q reversed []) ≡ true
      → IsAncestor reversed t p

-- Each node that the dictionary lists is a key of it.
abbrev pub IsClosed : Adjacency → Type 0
IsClosed reversed =
    (q p : String) → member p (get_or q reversed []) ≡ true → is_some (lookup p reversed) ≡ true

-- The entries of the keys that are not visited.
remaining : List String → Adjacency → ℕ
remaining visited [] = 0
remaining visited ((k, vs) ∷ d) = (if member k visited then 0 else length vs) + remaining visited d

remaining-nil : (d : Adjacency) → remaining [] d ≡ length (all_targets d)
unfolding remaining all_targets
remaining-nil [] = refl
remaining-nil ((k, vs) ∷ d) = omega (arith, remaining-nil d, length-append vs (all_targets d))

remaining-cons :
    (c : String) (visited : List String) (d : Adjacency)
    → remaining (c ∷ visited) d ≤ remaining visited d
unfolding remaining
remaining-cons c visited [] = omega arith
remaining-cons c visited ((k, vs) ∷ d) = ground (arith, remaining-cons c visited d)

remaining-visit :
    (c : String) (visited : List String) (d : Adjacency) (vs : List String)
    → member c visited ≡ false
    → lookup c d ≡ some vs
    → remaining (c ∷ visited) d + length vs ≤ remaining visited d
unfolding remaining lookup
remaining-visit c visited [] vs new e = cc
remaining-visit c visited ((k, ws) ∷ d) vs new e = elim (Bool-cases (str_eq k c)) [
  | inl same ↦
      let k_is : k ≡ c = (eq_iff k c).0 same in
      let e' : some ws ≡ some vs = rw (same, lookup) at e in
      let first : member k visited ≡ false = rw k_is new in
      ground (arith, remaining-cons c visited d, e', first)
  | inr other ↦
      let e' : lookup c d ≡ some vs = rw (other, lookup) at e in
      ground (arith, remaining-visit c visited d vs new e', eq_iff k c)
]

module _ (reversed : Adjacency) (t : String) where
  record Inv (visited stack : List String) : Type 0 where
    direct_seen :
        (p : String)
        → member p (prior reversed t) ≡ true
        → (member p stack ≡ true) ⊎ (member p visited ≡ true)
    sound :
        (p : String) → (member p stack ≡ true) ⊎ (member p visited ≡ true) → IsAncestor reversed t p
    closed :
        (q p : String)
        → member q visited ≡ true
        → member p (prior reversed q) ≡ true
        → (member p stack ≡ true) ⊎ (member p visited ≡ true)

  Inv-skip :
      {visited stack : List String} (c : String)
      → member c visited ≡ true
      → Inv visited (c ∷ stack)
      → Inv visited stack
  Inv-skip c old i = record {
    direct_seen = λ p m. ground (arith, i.direct_seen p m, eq_iff p c);
    sound = λ p m. i.sound p (ground arith);
    closed = λ q p v m. ground (arith, i.closed q p v m, eq_iff p c);
  }

  Inv-visit :
      {visited stack : List String} (c : String)
      → Inv visited (c ∷ stack)
      → Inv (c ∷ visited) (reverse (prior reversed c) ++ stack)
  Inv-visit {visited} {stack} c i = record {
    direct_seen = λ p m. ground (arith, pushed p, i.direct_seen p m);
    sound = λ p m. elim (Bool-cases (member p (prior reversed c))) [
      | inl up ↦ further c_is up
      | inr other ↦ i.sound p (ground (arith, pushed p))
    ];
    closed = λ q p v m. elim (Bool-cases (str_eq q c)) [
      | inl same ↦
          let q_is : q ≡ c = (eq_iff q c).0 same in
          let m' : member p (prior reversed c) ≡ true = rw q_is at m in ground (arith, pushed p)
      | inr other ↦ ground (arith, pushed p, i.closed q p (ground arith) m)
    ];
  }
    where
      pushed :
          (p : String)
          → member p (reverse (prior reversed c) ++ stack)
            ≡ (member p (prior reversed c) || member p stack)
      pushed p =
          member-append p (reverse (prior reversed c)) stack
          ∙ ap (λ b. b || member p stack) (member-reverse p (prior reversed c))

      c_is : IsAncestor reversed t c
      c_is = i.sound c (inl (ground (arith, eq_iff c c)))

  -- The loop ends, with no KeyError, and leaves no node on the stack.
  ancestors_from-Inv :
      IsClosed reversed
      → (fuel : ℕ) (visited stack : List String) → Inv visited stack
      → ((p : String) → member p stack ≡ true → is_some (lookup p reversed) ≡ true)
      → remaining visited reversed + length stack ≤ fuel
      → (out : List String) × (ancestors_from reversed fuel visited stack ≡ some out) × Inv out []
  unfolding ancestors_from
  ancestors_from-Inv c fuel visited [] i keyed f = (visited, refl, i)
  ancestors_from-Inv c zero visited (current ∷ stack) i keyed f = absurd (omega arith)
  ancestors_from-Inv c (suc fuel) visited (current ∷ stack) i keyed f =
      elim (Bool-cases (member current visited)) [
        | inl old ↦
            rw (old, ancestors_from)
              (ancestors_from-Inv c fuel visited stack (Inv-skip current old i)
                (λ p m. keyed p (ground arith)) (omega arith))
        | inr new ↦ elim (Option-cases (lookup current reversed)) [
          | inl missing ↦ let present = keyed current (ground (arith, eq_iff current current)) in cc
          | inr (vs, e) ↦
              let is_prior : prior reversed current ≡ vs = get_or-some current reversed [] vs e in
              let up = Inv-visit current i in
              let (out, ends, last) =
                ancestors_from-Inv c fuel (current ∷ visited) (reverse vs ++ stack)
                  (rw is_prior at up)
                  (λ p m. elim (Bool-cases (member p vs)) [
                    | inl above ↦ c current p (rw is_prior above)
                    | inr other ↦
                        keyed p
                          (ground (arith, member-append p (reverse vs) stack, member-reverse p vs))
                  ])
                  (omega (
                    arith,
                    remaining-visit current visited reversed vs new e,
                    length-append (reverse vs) stack,
                    length-reverse vs,
                  )) in
              (out, rw (new, ancestors_from, e) ends, last)
        ]
      ]

  IsAncestor-member :
      (out : List String)
      → Inv out []
      → {p : String} → IsAncestor reversed t p
      → member p out ≡ true
  IsAncestor-member out i (direct m) = ground (arith, i.direct_seen _ m)
  IsAncestor-member out i (further {q} {p} a m) =
      ground (arith, i.closed q p (IsAncestor-member out i a) m)

  pub ancestors_of-IsAncestor :
      IsClosed reversed
      → is_some (lookup t reversed) ≡ true
      → (out : List String) × (ancestors_of reversed t ≡ some out)
        × ((p : String) → (member p out ≡ true) ↔ IsAncestor reversed t p)
  unfolding ancestors_of
  ancestors_of-IsAncestor c k = elim (Option-cases (lookup t reversed)) [
    | inl missing ↦ cc
    | inr (vs, e) ↦
        let is_prior : prior reversed t ≡ vs = get_or-some t reversed [] vs e in
        let stacked : (p : String) → member p (reverse vs) ≡ member p (prior reversed t) =
          λ p. rw is_prior (member-reverse p vs) in
        let start : Inv [] (reverse vs) = record {
          direct_seen = λ p m. inl (stacked p ∙ m);
          sound = λ p m. direct (ground (arith, stacked p));
          closed = λ q p v m. cc;
        } in
        let (out, ends, last) =
          ancestors_from-Inv c (length vs + length (all_targets reversed)) [] (reverse vs) start
            (λ p m. c t p (ground (arith, stacked p)))
            (omega (arith, remaining-nil reversed, length-reverse vs)) in
        (
          out,
          rw (e, ancestors_of) ends,
          λ p. (λ m. last.sound p (inr m), λ a. IsAncestor-member out last a),
        )
  ]

-- A required node that does not gate the terminal node.
pub record IsMissing (reversed : Adjacency) (required : List String) (t x : String) : Type 0 where
  pub is_required : member x required ≡ true
  pub is_other : x ≢ t
  pub is_no_ancestor : ¬ IsAncestor reversed t x

member-missing :
    (required ancestors : List String) (t x : String)
    → member x (sorted text_leb (difference (difference (set_of required) ancestors) (t ∷ [])))
      ≡ (member x required && (not (member x ancestors) && not (str_eq x t)))
member-missing required ancestors t x = ground (
  arith,
  member-sorted text_leb x (difference (difference (set_of required) ancestors) (t ∷ [])),
  member-difference x (difference (set_of required) ancestors) (t ∷ []),
  member-difference x (set_of required) ancestors,
  member-set_of x required,
)

-- What `_required_ancestor_gaps` finds for one terminal node, where its walk meets no KeyError.
pub missing_required-IsMissing :
    (reversed : Adjacency) (required : List String) (t : String)
    → IsClosed reversed
    → is_some (lookup t reversed) ≡ true
    → (out : List String) × (missing_required reversed required t ≡ some out)
      × ((x : String) → (member x out ≡ true) ↔ IsMissing reversed required t x)
unfolding missing_required
missing_required-IsMissing reversed required t c k =
    let (ancestors, e, found) = ancestors_of-IsAncestor reversed t c k in
    (
      sorted text_leb (difference (difference (set_of required) ancestors) (t ∷ [])),
      rw (e, missing_required) refl,
      λ x.
          let has = member-missing required ancestors t x in
          (
            λ m. record {
              is_required = ground (arith, has);
              is_other = λ same. ground (arith, has, eq_iff x t);
              is_no_ancestor = λ a. let seen = (found x).1 a in ground (arith, has);
            },
            λ missing. elim (Bool-cases (member x ancestors)) [
              | inl seen ↦ absurd (missing.is_no_ancestor ((found x).0 seen))
              | inr new ↦ elim (Bool-cases (str_eq x t)) [
                | inl same ↦ absurd (missing.is_other ((eq_iff x t).0 same))
                | inr other ↦ ground (arith, has, missing.is_required)
              ]
            ],
          ),
    )
