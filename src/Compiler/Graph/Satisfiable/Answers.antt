-- ===== src/Compiler/Graph/Satisfiable/Answers.antt =====
-- What `_satisfiable_nodes` of src/millforge/compiler/graph.py answers.
use text.Mathlib.TextEquality.{eq_iff}
use millforge.Prelude.{
  ℕ, zero, suc, ◌≤◌, String, str_eq, List, [], ◌∷◌, Bool, true, false, Option, none, some, is_some,
  ◌≡◌, refl, sym, ap, ◌∙◌, ◌↔◌, inl, inr, lookup, arith, Bool-cases,
}
use mathlib.Core.Path.{subst}
use millforge.Compiler.Collections.{member, keys, get_or, string_eq, ◌>>=◌}
use millforge.Compiler.Collections.Laws.{get_or-some, Option-cases}
use millforge.Compiler.Source.{HarnessNodeSource}
use millforge.Compiler.Graph.{Adjacency, Nodes, Pairs}
use millforge.Compiler.Graph.Reach.Blocked.{outside, outside-new}
use millforge.Compiler.Graph.Reach.Ancestors.{IsAncestor, direct, further}
use millforge.Compiler.Graph.Satisfiable.{
  Memo, has_invalid, remember, settle, examine, recall, satisfiable, satisfiable_from,
}
use millforge.Compiler.Graph.Satisfiable.Prerequisites.{
  Answers, IsMet, IsRight, all-IsMet, all_satisfiable-Answers, insert-IsRight, meets, member-keys,
  not-IsMet, not_cyclic, refused,
}

module _ (nodes_by_id : Nodes) (reversed : Adjacency) (cycle_nodes : List String)
    (invalid : Pairs) where
  abbrev Met : String → Type 0
  Met = IsMet nodes_by_id reversed cycle_nodes invalid

  abbrev Right : Memo → Type 0
  Right = IsRight nodes_by_id reversed cycle_nodes invalid

  abbrev Gives : Option (Bool × Memo) → Type 0 → Type 0
  Gives = Answers nodes_by_id reversed cycle_nodes invalid

  module _ (keyed : (x : String) → is_some (lookup x reversed) ≡ is_some (lookup x nodes_by_id))
      (closed : (q p : String)
        → member p (get_or q reversed []) ≡ true
        → is_some (lookup p nodes_by_id) ≡ true)
      (cyclic : (x : String) → IsAncestor reversed x x → member x cycle_nodes ≡ true) where
    abbrev all : List String
    all = keys nodes_by_id

    no_key :
        (id : String) (node : HarnessNodeSource)
        → lookup id nodes_by_id ≡ some node
        → lookup id reversed ≡ none
        → ◌≡◌ false true
    no_key id node is missing = sym (ap is_some missing) ∙ (keyed id ∙ ap is_some is)

    -- The nodes whose call waits for this one.
    abbrev Waiting : List String → String → Type 0
    Waiting path id =
        (y : String)
        → member y path ≡ true
        → IsAncestor reversed y id × (member y cycle_nodes ≡ false)

    not-Waiting : (path : List String) (id : String) → Waiting path id → member id path ≡ false
    not-Waiting path id w = elim (Bool-cases (member id path)) [
      | inl m ↦ let (a, off) = w id m in let on = cyclic id a in cc
      | inr h ↦ h
    ]

    abbrev Go : Type 0
    Go = String → Memo → Option (Bool × Memo)

    -- A node in no cycle is decided by its prerequisites.
    settle-Answers :
        (go : Go) (id : String) (memo : Memo) (node : HarnessNodeSource)
        → member id cycle_nodes ≡ false
        → lookup id nodes_by_id ≡ some node
        → ((p : String) (m : Memo)
            → member p (get_or id reversed []) ≡ true
            → Right m
            → Gives (go p m) (Met p))
        → Right memo
        → Gives
            (settle nodes_by_id reversed cycle_nodes invalid go id memo (has_invalid invalid node))
            (Met id)
    unfolding settle
    settle-Answers go id memo node off is each right =
        elim (Bool-cases (has_invalid invalid node)) [
          | inl bad ↦
              refused nodes_by_id reversed cycle_nodes invalid id memo
                (settle nodes_by_id reversed cycle_nodes invalid go id memo
                  (has_invalid invalid node))
                (ap (settle nodes_by_id reversed cycle_nodes invalid go id memo) bad) right
                (not-IsMet nodes_by_id reversed cycle_nodes invalid node is bad)
          | inr fine ↦ elim (Option-cases (lookup id reversed)) [
            | inl missing ↦ let k = no_key id node is missing in absurd cc
            | inr (prior, found) ↦
                let prior_is = get_or-some id reversed [] prior found in
                let a =
                  all_satisfiable-Answers nodes_by_id reversed cycle_nodes invalid go prior memo
                    (λ p m h. each p m (subst (λ ps. member p ps ≡ true) (sym prior_is) h)) right in
                let same : (a.result.0 ≡ true) ↔ Met id = (
                  λ h.
                      meets id off node is fine
                        (λ p m. a.answers.0 h p (subst (λ ps. member p ps ≡ true) prior_is m)),
                  λ k. a.answers.1 (λ p m.
                      all-IsMet nodes_by_id reversed cycle_nodes invalid k p
                        (subst (λ ps. member p ps ≡ true) (sym prior_is) m)),
                ) in
                record {
                  result = remember id a.result;
                  returns =
                      ap (settle nodes_by_id reversed cycle_nodes invalid go id memo) fine
                      ∙ rw (found, ◌>>=◌, a.returns) refl;
                  right =
                      insert-IsRight nodes_by_id reversed cycle_nodes invalid a.result.1 id
                        a.result.0 a.right same;
                  answers = same;
                }
          ]
        ]

    examine-Answers :
        (go : Go) (id : String) (memo : Memo)
        → is_some (lookup id nodes_by_id) ≡ true
        → (member id cycle_nodes ≡ false
            → (p : String) (m : Memo) → member p (get_or id reversed []) ≡ true
            → Right m
            → Gives (go p m) (Met p))
        → Right memo
        → Gives
            (examine nodes_by_id reversed cycle_nodes invalid go id memo (member id cycle_nodes))
            (Met id)
    unfolding examine
    examine-Answers go id memo known each right = elim (Bool-cases (member id cycle_nodes)) [
      | inl on ↦
          refused nodes_by_id reversed cycle_nodes invalid id memo
            (examine nodes_by_id reversed cycle_nodes invalid go id memo (member id cycle_nodes))
            (ap (examine nodes_by_id reversed cycle_nodes invalid go id memo) on) right
            (not_cyclic nodes_by_id reversed cycle_nodes invalid on)
      | inr off ↦ elim (Option-cases (lookup id nodes_by_id)) [
        | inl missing ↦ let k : false ≡ true = sym (ap is_some missing) ∙ known in absurd cc
        | inr (node, found) ↦
            subst (λ m. Gives m (Met id))
              (sym (
                ap (examine nodes_by_id reversed cycle_nodes invalid go id memo) off
                ∙ rw (found, ◌>>=◌) refl))
              (settle-Answers go id memo node off found (each off) right)
      ]
    ]

    Waiting-cons :
        (path : List String) (id p : String)
        → Waiting path id
        → member id cycle_nodes ≡ false
        → member p (get_or id reversed []) ≡ true
        → Waiting (id ∷ path) p
    Waiting-cons path id p w off m y h = elim (Bool-cases (str_eq y id)) [
      | inl same ↦
          subst (λ z. IsAncestor reversed z p × (member z cycle_nodes ≡ false))
            (sym ((eq_iff y id).0 same)) (direct m, off)
      | inr other ↦ let (a, b) = w y (ground arith) in (further a m, b)
    ]

    fewer_left :
        (path : List String) (id : String) (fuel : ℕ)
        → Waiting path id
        → is_some (lookup id nodes_by_id) ≡ true
        → outside path all ≤ suc fuel
        → outside (id ∷ path) all ≤ fuel
    fewer_left path id fuel w known enough =
        let new = not-Waiting path id w in
        let m = sym (member-keys id nodes_by_id) ∙ known in
        omega (arith, outside-new id path all new m)

    satisfiable-Answers :
        (fuel : ℕ) (path : List String) (id : String) (memo : Memo)
        → Waiting path id
        → is_some (lookup id nodes_by_id) ≡ true
        → Right memo
        → outside path all ≤ fuel
        → Gives (satisfiable nodes_by_id reversed cycle_nodes invalid fuel id memo) (Met id)
    unfolding satisfiable recall examine
    satisfiable-Answers zero path id memo w known right enough =
        let new = not-Waiting path id w in
        let m = sym (member-keys id nodes_by_id) ∙ known in
        absurd (omega (arith, outside-new id path all new m))
    satisfiable-Answers (suc fuel) path id memo w known right enough =
        let go = satisfiable nodes_by_id reversed cycle_nodes invalid fuel in
        let next : member id cycle_nodes ≡ false
            → (p : String) (m : Memo) → member p (get_or id reversed []) ≡ true
            → Right m
            → Gives (go p m) (Met p) =
          λ off p m n r.
            satisfiable-Answers fuel (id ∷ path) p m (Waiting-cons path id p w off n)
              (closed id p n) r (fewer_left path id fuel w known enough) in
        elim (Option-cases (lookup id memo)) [
          | inl missing ↦
              subst
                (λ o. Gives (recall nodes_by_id reversed cycle_nodes invalid go id memo o) (Met id))
                (sym missing) (examine-Answers go id memo known next right)
          | inr (b, found) ↦ record {
            result = (b, memo);
            returns = rw found refl;
            right = right;
            answers = right id b found;
          }
        ]

    -- The nodes of a list that are met.
    pub record Kept (ids : List String) (m : Option (List String)) : Type 0 where
      pub list : List String
      pub returns : m ≡ some list
      pub met : (x : String) → (member x list ≡ true) ↔ ((member x ids ≡ true) × Met x)

    abbrev pub AreMet : List String → List String → Type 0
    AreMet ids list = (x : String) → (member x list ≡ true) ↔ ((member x ids ≡ true) × Met x)

    kept_if :
        (id : String) (ids list : List String)
        → AreMet ids list
        → Met id
        → AreMet (id ∷ ids) (id ∷ list)
    kept_if id ids list met k x = elim (Bool-cases (str_eq x id)) [
      | inl same ↦
          (λ m. (ground arith, subst Met (sym ((eq_iff x id).0 same)) k), λ h. ground arith)
      | inr other ↦ (
        λ m. let (i, h) = (met x).0 (ground arith) in (ground arith, h),
        λ h. let i = (met x).1 (let j = h.0 in ground arith, h.1) in ground arith,
      )
    ]

    left_out :
        (id : String) (ids list : List String)
        → AreMet ids list
        → ¬ (Met id)
        → AreMet (id ∷ ids) list
    left_out id ids list met k x = (
      λ m. let (i, h) = (met x).0 m in (ground arith, h),
      λ h. elim (Bool-cases (str_eq x id)) [
        | inl same ↦ absurd (k (subst Met ((eq_iff x id).0 same) h.1))
        | inr other ↦ (met x).1 (let j = h.0 in ground arith, h.1)
      ],
    )

    nothing_waits : (id : String) → Waiting [] id
    nothing_waits id y m = cc

    pub satisfiable_from-Kept :
        (fuel : ℕ) (ids : List String) (memo : Memo)
        → ((x : String) → member x ids ≡ true → is_some (lookup x nodes_by_id) ≡ true)
        → Right memo
        → outside [] all ≤ fuel
        → Kept ids (satisfiable_from nodes_by_id reversed cycle_nodes invalid fuel ids memo)
    unfolding satisfiable_from
    satisfiable_from-Kept fuel [] memo known right enough = record {
      list = [];
      returns = refl;
      met = λ x. (λ m. cc, λ h. h.0);
    }
    satisfiable_from-Kept fuel (id ∷ ids) memo known right enough =
        let a =
          satisfiable-Answers fuel [] id memo (nothing_waits id)
            (known id (ground (arith, eq_iff id id))) right enough in
        let rest =
          satisfiable_from-Kept fuel ids a.result.1 (λ x m. known x (ground arith)) a.right
            enough in
        elim (Bool-cases a.result.0) [
          | inl holds ↦ record {
            list = id ∷ rest.list;
            returns = rw (a.returns, ◌>>=◌, rest.returns, holds) refl;
            met = kept_if id ids rest.list rest.met (a.answers.0 holds);
          }
          | inr fails ↦ record {
            list = rest.list;
            returns = rw (a.returns, ◌>>=◌, rest.returns, fails) refl;
            met = left_out id ids rest.list rest.met (λ k. let t = a.answers.1 k in absurd cc);
          }
        ]
