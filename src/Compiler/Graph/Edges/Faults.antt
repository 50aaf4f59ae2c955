-- ===== src/Compiler/Graph/Edges/Faults.antt =====
-- The union of the refused prerequisites of src/millforge/compiler/graph.py, and what is left.
use mathlib.Core.List.{Memᴰ}
use mathlib.Core.List.Memᴰ
use text.Mathlib.TextEquality.{eq_iff}
use millforge.Prelude.{
  ℕ, ◌+◌, ◌≤◌, String, str_eq, List, [], ◌∷◌, ◌++◌, Bool, true, false, not, ◌&&◌, ◌||◌, ◌≡◌, refl,
  sym, ap, ◌∙◌, ◌↔◌, inl, inr, if◌then◌else◌, leb, arith, Bool-cases,
}
use millforge.Compiler.Collections.{member, string_eq, pair_eq}
use millforge.Compiler.Collections.Laws.{member-append}
use millforge.Compiler.Source.{PrerequisiteSource, HarnessNodeSource}
use millforge.Compiler.Graph.{
  Nodes, duplicates_of, duplicate_prerequisite_pairs, is_known, is_terminal_node,
  unknown_prerequisite_pairs, self_prerequisite_pairs, terminal_as_prerequisite_pairs,
  invalid_pairs,
}
use millforge.Compiler.Graph.Edges.{IsRepeated, IsValidEdge, occurrences}
use millforge.Compiler.Graph.Edges.Pairs.{declares, declares-IsDeclared, member-pairs_where}

abbrev one_if : Bool → ℕ
one_if b = if b then 1 else 0

member-duplicates_of :
    (id : String) (seen : List String) (d p : String) (ps : List PrerequisiteSource)
    → member (d, p) (duplicates_of id seen ps) ≡ (
        str_eq d id
        && leb 1 (occurrences p ps)
        && leb 2 (one_if (member p seen) + occurrences p ps))
unfolding duplicates_of
member-duplicates_of id seen d p [] = ground arith
member-duplicates_of id seen d p (q ∷ ps) =
    let ih = member-duplicates_of id (q.node_id ∷ seen) d p ps in
    elim (Bool-cases (str_eq p q.node_id)) [
      | inl same ↦
          let p_is : q.node_id ≡ p = sym ((eq_iff p q.node_id).0 same) in
          elim (Bool-cases (member p seen)) [
            | inl old ↦ let old' : member q.node_id seen ≡ true = rw p_is old in ground arith
            | inr new ↦ let new' : member q.node_id seen ≡ false = rw p_is new in ground arith
          ]
      | inr other ↦ ground (arith, ih)
    ]

-- Whether some node `d` names `p` twice.
pub repeats : String → String → List HarnessNodeSource → Bool
repeats d p [] = false
repeats d p (n ∷ nodes) =
    str_eq d n.node_id && leb 2 (occurrences p n.prerequisites) || repeats d p nodes

member-duplicates :
    (d p : String) (nodes : List HarnessNodeSource)
    → member (d, p) (duplicate_prerequisite_pairs nodes) ≡ repeats d p nodes
unfolding duplicate_prerequisite_pairs repeats
member-duplicates d p [] = refl
member-duplicates d p (n ∷ nodes) = ground (
  arith,
  member-append (d, p) (duplicates_of n.node_id [] n.prerequisites)
      (duplicate_prerequisite_pairs nodes),
  member-duplicates_of n.node_id [] d p n.prerequisites,
  member-duplicates d p nodes,
)

pub repeats-IsRepeated :
    (d p : String) (nodes : List HarnessNodeSource)
    → (repeats d p nodes ≡ true) ↔ IsRepeated nodes d p
unfolding repeats
repeats-IsRepeated d p [] = (λ h. cc, λ i. absurd (Memᴰ.not-nil i.listed))
repeats-IsRepeated d p (n ∷ nodes) = (
  λ h. elim (Bool-cases (str_eq d n.node_id && leb 2 (occurrences p n.prerequisites))) [
    | inl here ↦ record {
      node = n;
      listed = Memᴰ.head refl;
      is_dependent = ground (arith, eq_iff d n.node_id);
      twice = ground arith;
    }
    | inr there ↦
        let i = (repeats-IsRepeated d p nodes).0 (ground arith) in
        record {
          node = i.node;
          listed = Memᴰ.tail i.listed;
          is_dependent = i.is_dependent;
          twice = i.twice;
        }
  ],
  λ i. elim (Memᴰ.cases_cons i.listed) [
    | inl is ↦
        let same : d ≡ n.node_id = i.is_dependent ∙ ap (λ (x : HarnessNodeSource). x.node_id) is in
        let twice : 2 ≤ occurrences p n.prerequisites = rw is at i.twice in
        ground (arith, eq_iff d n.node_id)
    | inr rest ↦
        let ih = (repeats-IsRepeated d p nodes).1 (record {
          node = i.node;
          listed = rest;
          is_dependent = i.is_dependent;
          twice = i.twice;
        }) in
        ground arith
  ],
)

module _ (nodes : List HarnessNodeSource) (nodes_by_id : Nodes) (d p : String) where
  -- A declared pair is refused for one of four faults.
  member-invalid_pairs :
      declares d p nodes ≡ true
      → member (d, p) (invalid_pairs nodes nodes_by_id) ≡ (
          repeats d p nodes
          || (not (is_known nodes_by_id p) || (str_eq p d || is_terminal_node nodes_by_id p)))
  unfolding invalid_pairs unknown_prerequisite_pairs self_prerequisite_pairs
      terminal_as_prerequisite_pairs
  member-invalid_pairs h = ground (
    arith,
    member-append (d, p)
        (duplicate_prerequisite_pairs nodes
          ++ unknown_prerequisite_pairs nodes nodes_by_id
          ++ self_prerequisite_pairs nodes)
        (terminal_as_prerequisite_pairs nodes nodes_by_id),
    member-append (d, p)
        (duplicate_prerequisite_pairs nodes ++ unknown_prerequisite_pairs nodes nodes_by_id)
        (self_prerequisite_pairs nodes),
    member-append (d, p) (duplicate_prerequisite_pairs nodes)
        (unknown_prerequisite_pairs nodes nodes_by_id),
    member-duplicates d p nodes,
    member-pairs_where (λ id q. not (is_known nodes_by_id q)) d p nodes,
    member-pairs_where (λ id q. str_eq q id) d p nodes,
    member-pairs_where (λ id q. is_terminal_node nodes_by_id q) d p nodes,
  )

  -- The pairs that the adjacency takes.
  abbrev pub is_edge : Bool
  is_edge = declares d p nodes && not (member (d, p) (invalid_pairs nodes nodes_by_id))

  pub is_edge-IsValidEdge : (is_edge ≡ true) ↔ IsValidEdge nodes nodes_by_id d p
  is_edge-IsValidEdge = (
    λ h.
        let named : declares d p nodes ≡ true = ground arith in
        let faults = member-invalid_pairs named in
        record {
          declared = (declares-IsDeclared d p nodes).0 named;
          known = ground arith;
          other = λ e. ground (arith, eq_iff p d);
          no_terminal = ground arith;
          once = λ r. let again = (repeats-IsRepeated d p nodes).1 r in ground arith;
        },
    λ e.
        let named = (declares-IsDeclared d p nodes).1 e.declared in
        let faults = member-invalid_pairs named in
        elim (Bool-cases (repeats d p nodes)) [
          | inl again ↦ absurd (e.once ((repeats-IsRepeated d p nodes).0 again))
          | inr once ↦ elim (Bool-cases (str_eq p d)) [
            | inl same ↦ absurd (e.other (sym ((eq_iff p d).0 same)))
            | inr other ↦ ground (arith, e.known, e.no_terminal)
          ]
        ],
  )
