-- ===== src/Compiler/Graph/Satisfiable/Prerequisites.antt =====
-- The nodes that `_satisfiable_nodes` of src/millforge/compiler/graph.py should answer, and its answers
-- for the prerequisites of a node.
use text.Mathlib.TextEquality.{eq_iff}
use millforge.Prelude.{
  String, str_eq, List, [], ◌∷◌, Bool, true, false, Option, some, is_some, ◌≡◌, refl, sym, ◌∙◌, ◌↔◌,
  inl, inr, lookup, arith, Bool-cases,
}
use mathlib.Core.Path.{subst}
use millforge.Compiler.Collections.{member, insert, keys, get_or, string_eq, ◌>>=◌}
use millforge.Compiler.Collections.Laws.{lookup-insert}
use millforge.Compiler.Source.{HarnessNodeSource}
use millforge.Compiler.Graph.{Adjacency, Nodes, Pairs}
use millforge.Compiler.Graph.Satisfiable.{Memo, has_invalid, all_satisfiable, remember}

pub member-keys :
    {V : Type 0} (k : String) (d : List (String × V)) → is_some (lookup k d) ≡ member k (keys d)
unfolding lookup keys
member-keys k [] = refl
member-keys k ((j, v) ∷ d) = ground (arith, member-keys k d, eq_iff j k, eq_iff k j)

pub some-injective : {A : Type 0} (x y : A) → some x ≡ some y → x ≡ y
some-injective x y e = cc

module _ (memo : Memo) (x y : String) (b : Bool) where
  insert-same : str_eq x y ≡ true → lookup y (insert x b memo) ≡ some b
  insert-same same = lookup-insert y x b memo ∙ rw same refl

  insert-other : str_eq x y ≡ false → lookup y (insert x b memo) ≡ lookup y memo
  insert-other other = lookup-insert y x b memo ∙ rw other refl

module _ (nodes_by_id : Nodes) (reversed : Adjacency) (cycle_nodes : List String)
    (invalid : Pairs) where
  -- Nodes outside the cycles with no refused prerequisite, whose prerequisites are such nodes.
  pub data IsMet : String → Type 0 where
    meets :
        (x : String)
        → member x cycle_nodes ≡ false
        → (node : HarnessNodeSource) → lookup x nodes_by_id ≡ some node
        → has_invalid invalid node ≡ false
        → ((p : String) → member p (get_or x reversed []) ≡ true → IsMet p)
        → IsMet x

  -- The answers so far are right.
  abbrev pub IsRight : Memo → Type 0
  IsRight memo = (x : String) (b : Bool) → lookup x memo ≡ some b → (b ≡ true) ↔ IsMet x

  pub record Answers (m : Option (Bool × Memo)) (P : Type 0) : Type 0 where
    pub result : Bool × Memo
    pub returns : m ≡ some result
    pub right : IsRight result.1
    pub answers : (result.0 ≡ true) ↔ P

  pub insert-IsRight :
      (memo : Memo) (x : String) (b : Bool)
      → IsRight memo
      → ((b ≡ true) ↔ IsMet x)
      → IsRight (insert x b memo)
  insert-IsRight memo x b right new y c h = elim (Bool-cases (str_eq x y)) [
    | inl same ↦
        let x_is : x ≡ y = (eq_iff x y).0 same in
        let is : some b ≡ some c = sym (insert-same memo x y b same) ∙ h in
        let b_is : b ≡ c = some-injective b c is in
        subst (λ z. (c ≡ true) ↔ IsMet z) x_is (subst (λ d. (d ≡ true) ↔ IsMet x) b_is new)
    | inr other ↦ right y c (sym (insert-other memo x y b other) ∙ h)
  ]

  -- Answers for a list of prerequisites.
  pub all_satisfiable-Answers :
      (go : String → Memo → Option (Bool × Memo)) (ps : List String) (memo : Memo)
      → ((p : String) (m : Memo) → member p ps ≡ true → IsRight m → Answers (go p m) (IsMet p))
      → IsRight memo
      → Answers (all_satisfiable go ps memo) ((p : String) → member p ps ≡ true → IsMet p)
  unfolding all_satisfiable
  all_satisfiable-Answers go [] memo each right = record {
    result = (true, memo);
    returns = refl;
    right = right;
    answers = (λ _. λ p m. cc, λ _. refl);
  }
  all_satisfiable-Answers go (p ∷ ps) memo each right =
      let a = each p memo (ground (arith, eq_iff p p)) right in
      elim (Bool-cases a.result.0) [
        | inl met ↦
            let rest =
              all_satisfiable-Answers go ps a.result.1 (λ q m n. each q m (ground arith)) a.right in
            record {
              result = rest.result;
              returns = rw (all_satisfiable, a.returns, ◌>>=◌, met) rest.returns;
              right = rest.right;
              answers = (
                λ h. λ q m. elim (Bool-cases (str_eq q p)) [
                  | inl same ↦ subst IsMet (sym ((eq_iff q p).0 same)) (a.answers.0 met)
                  | inr other ↦ rest.answers.0 h q (ground arith)
                ],
                λ h. rest.answers.1 (λ q m. h q (ground arith)),
              );
            }
        | inr unmet ↦ record {
          result = (false, a.result.1);
          returns = rw (all_satisfiable, a.returns, ◌>>=◌, unmet) refl;
          right = a.right;
          answers = (λ h. cc, λ h. let b = a.answers.1 (h p (ground (arith, eq_iff p p))) in cc);
        }
      ]

  -- A refused node.
  pub refused :
      (id : String) (memo : Memo) (m : Option (Bool × Memo))
      → m ≡ some (remember id (false, memo))
      → IsRight memo
      → ¬ (IsMet id)
      → Answers m (IsMet id)
  refused id memo m e right no_way =
      let never : (◌≡◌ false true) ↔ IsMet id = (λ h. cc, λ k. absurd (no_way k)) in
      record {
        result = remember id (false, memo);
        returns = e;
        right = insert-IsRight memo id false right never;
        answers = never;
      }

  pub not-IsMet :
      {id : String} (node : HarnessNodeSource)
      → lookup id nodes_by_id ≡ some node
      → has_invalid invalid node ≡ true
      → ¬ (IsMet id)
  not-IsMet node is bad (meets x off other found fine prior) =
      let e = some-injective node other (sym is ∙ found) in
      let b : has_invalid invalid other ≡ true = subst (λ n. has_invalid invalid n ≡ true) e bad in
      cc

  pub not_cyclic : {id : String} → member id cycle_nodes ≡ true → ¬ (IsMet id)
  not_cyclic on (meets x off node found fine prior) = cc

  pub all-IsMet :
      {id : String} → IsMet id → (p : String) → member p (get_or id reversed []) ≡ true → IsMet p
  all-IsMet (meets x off node found fine prior) = prior
