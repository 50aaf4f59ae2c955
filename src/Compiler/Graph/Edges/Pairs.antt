-- ===== src/Compiler/Graph/Edges/Pairs.antt =====
-- The four sets of refused prerequisites of src/millforge/compiler/graph.py.
use mathlib.Core.List.{Memᴰ}
use mathlib.Core.List.Memᴰ
use text.Mathlib.TextEquality.{eq_iff}
use millforge.Prelude.{
  String, str_eq, List, [], ◌∷◌, Bool, true, false, ◌&&◌, ◌||◌, ◌≡◌, refl, sym, ap, ◌∙◌, ◌↔◌, inl,
  inr, arith, Bool-cases,
}
use millforge.Compiler.Collections.{member, string_eq, pair_eq}
use millforge.Compiler.Collections.Laws.{member-append}
use millforge.Compiler.Source.{PrerequisiteSource, HarnessNodeSource}
use millforge.Compiler.Graph.{node_pairs, pairs_where}
use millforge.Compiler.Graph.Edges.{IsDeclared}

-- Whether a node names `p`.
names : String → List PrerequisiteSource → Bool
names p [] = false
names p (q ∷ qs) = str_eq p q.node_id || names p qs

member-node_pairs :
    (test : String → String → Bool) (id d p : String) (ps : List PrerequisiteSource)
    → member (d, p) (node_pairs test id ps) ≡ (str_eq d id && (names p ps && test d p))
unfolding node_pairs names
member-node_pairs test id d p [] = ground arith
member-node_pairs test id d p (q ∷ ps) = elim (Bool-cases (str_eq d id)) [
  | inl d_eq ↦ elim (Bool-cases (str_eq p q.node_id)) [
    | inl p_eq ↦
        let d_is : id ≡ d = sym ((eq_iff d id).0 d_eq) in
        let p_is : q.node_id ≡ p = sym ((eq_iff p q.node_id).0 p_eq) in
        let ih = member-node_pairs test id d p ps in
        elim (Bool-cases (test d p)) [
          | inl t ↦ let t' : test id q.node_id ≡ true = rw (d_is, p_is) t in ground arith
          | inr t ↦ let t' : test id q.node_id ≡ false = rw (d_is, p_is) t in ground arith
        ]
    | inr other ↦ ground (arith, member-node_pairs test id d p ps)
  ]
  | inr other ↦ ground (arith, member-node_pairs test id d p ps)
]

-- Whether some node `d` names `p`.
pub declares : String → String → List HarnessNodeSource → Bool
declares d p [] = false
declares d p (n ∷ nodes) = str_eq d n.node_id && names p n.prerequisites || declares d p nodes

pub member-pairs_where :
    (test : String → String → Bool) (d p : String) (nodes : List HarnessNodeSource)
    → member (d, p) (pairs_where test nodes) ≡ (declares d p nodes && test d p)
unfolding pairs_where declares
member-pairs_where test d p [] = refl
member-pairs_where test d p (n ∷ nodes) = ground (
  arith,
  member-append (d, p) (node_pairs test n.node_id n.prerequisites) (pairs_where test nodes),
  member-node_pairs test n.node_id d p n.prerequisites,
  member-pairs_where test d p nodes,
)

names-Memᴰ :
    (p : String) (ps : List PrerequisiteSource)
    → (names p ps ≡ true) ↔ ((q : PrerequisiteSource) × Memᴰ q ps × (p ≡ q.node_id))
unfolding names
names-Memᴰ p [] = (λ h. cc, λ (q, m, e). absurd (Memᴰ.not-nil m))
names-Memᴰ p (q ∷ ps) = (
  λ h. elim (Bool-cases (str_eq p q.node_id)) [
    | inl same ↦ (q, Memᴰ.head refl, (eq_iff p q.node_id).0 same)
    | inr other ↦ let (r, m, e) = (names-Memᴰ p ps).0 (ground arith) in (r, Memᴰ.tail m, e)
  ],
  λ (r, m, e). elim (Memᴰ.cases_cons m) [
    | inl is ↦
        let same : p ≡ q.node_id = e ∙ ap (λ (x : PrerequisiteSource). x.node_id) is in
        ground (arith, eq_iff p q.node_id)
    | inr rest ↦ let ih = (names-Memᴰ p ps).1 (r, rest, e) in ground arith
  ],
)

pub declares-IsDeclared :
    (d p : String) (nodes : List HarnessNodeSource)
    → (declares d p nodes ≡ true) ↔ IsDeclared nodes d p
unfolding declares
declares-IsDeclared d p [] = (λ h. cc, λ i. absurd (Memᴰ.not-nil i.listed))
declares-IsDeclared d p (n ∷ nodes) = (
  λ h. elim (Bool-cases (str_eq d n.node_id && names p n.prerequisites)) [
    | inl here ↦
        let (q, m, e) = (names-Memᴰ p n.prerequisites).0 (ground arith) in
        record {
          node = n;
          listed = Memᴰ.head refl;
          is_dependent = ground (arith, eq_iff d n.node_id);
          prerequisite = q;
          named = m;
          is_prerequisite = e;
        }
    | inr there ↦
        let i = (declares-IsDeclared d p nodes).0 (ground arith) in
        record {
          node = i.node;
          listed = Memᴰ.tail i.listed;
          is_dependent = i.is_dependent;
          prerequisite = i.prerequisite;
          named = i.named;
          is_prerequisite = i.is_prerequisite;
        }
  ],
  λ i. elim (Memᴰ.cases_cons i.listed) [
    | inl is ↦
        let same : d ≡ n.node_id = i.is_dependent ∙ ap (λ (x : HarnessNodeSource). x.node_id) is in
        let named : Memᴰ i.prerequisite n.prerequisites = rw is at i.named in
        let named' = (names-Memᴰ p n.prerequisites).1 (i.prerequisite, named, i.is_prerequisite) in
        ground (arith, eq_iff d n.node_id)
    | inr rest ↦
        let ih = (declares-IsDeclared d p nodes).1 (record {
          node = i.node;
          listed = rest;
          is_dependent = i.is_dependent;
          prerequisite = i.prerequisite;
          named = i.named;
          is_prerequisite = i.is_prerequisite;
        }) in
        ground arith
  ],
)
