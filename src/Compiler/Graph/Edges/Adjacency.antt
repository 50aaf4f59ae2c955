-- ===== src/Compiler/Graph/Edges/Adjacency.antt =====
-- The adjacency of a harness graph and its reverse, of src/millforge/compiler/graph.py: which edges
-- they hold.
use mathlib.Core.List.{Memᴰ}
use mathlib.Core.List.Memᴰ
use mathlib.Core.Path.{fun_ext}
use text.Mathlib.TextEquality.{eq_iff}
use millforge.Prelude.{
  String, str_eq, List, [], ◌∷◌, map, Bool, true, false, not, Option, some, is_some, ◌≡◌, refl, sym,
  ap, ◌∙◌, ◌↔◌, inl, inr, lookup, arith, Bool-cases,
}
use millforge.Compiler.Collections.{
  member, set_of, sorted, text_leb, insert, string_eq, pair_eq, ◌>>=◌,
}
use millforge.Compiler.Collections.Laws.{
  member-sorted, member-set_of, HasUniqueKeys, insert-HasUniqueKeys, lookup-insert, has-insert,
}
use millforge.Compiler.Source.{PrerequisiteSource, HarnessNodeSource}
use millforge.Compiler.Graph.{
  Adjacency, Nodes, Pairs, targets, nodes_from, is_known, node_pairs, pairs_where, invalid_pairs,
  append_prerequisites, append_edges, empty_adjacency, sort_targets, valid_adjacency, append_at,
  sort_values,
}
use millforge.Compiler.Graph.Edges.{IsValidEdge}
use millforge.Compiler.Graph.Edges.Append.{
  targets-cons, append_pairs, append_pairs-append, append_pairs-Extended,
}
use millforge.Compiler.Graph.Edges.Pairs.{member-pairs_where}
use millforge.Compiler.Graph.Edges.Faults.{is_edge, is_edge-IsValidEdge}

abbrev is_taken : Pairs → String → String → Bool
is_taken invalid id p = not (member (id, p) invalid)

append_prerequisites-eq-append_pairs :
    (invalid : Pairs) (id : String) (ps : List PrerequisiteSource) (d : Adjacency)
    → append_prerequisites invalid id ps d ≡ append_pairs (node_pairs (is_taken invalid) id ps) d
unfolding append_prerequisites append_pairs node_pairs
append_prerequisites-eq-append_pairs invalid id [] d = refl
append_prerequisites-eq-append_pairs invalid id (p ∷ ps) d =
    elim (Bool-cases (member (id, p.node_id) invalid)) [
      | inl bad ↦ rw bad (append_prerequisites-eq-append_pairs invalid id ps d)
      | inr good ↦ rw good (
          ap (λ (f : Adjacency → Option Adjacency). append_at p.node_id id d >>= f)
            (fun_ext (append_prerequisites-eq-append_pairs invalid id ps)))
    ]

append_edges-eq-append_pairs :
    (invalid : Pairs) (nodes : List HarnessNodeSource) (d : Adjacency)
    → append_edges invalid nodes d ≡ append_pairs (pairs_where (is_taken invalid) nodes) d
unfolding append_edges append_pairs pairs_where
append_edges-eq-append_pairs invalid [] d = refl
append_edges-eq-append_pairs invalid (n ∷ nodes) d =
    rw
      (append_pairs-append (node_pairs (is_taken invalid) n.node_id n.prerequisites)
        (pairs_where (is_taken invalid) nodes) d)
      (rw (append_prerequisites-eq-append_pairs invalid n.node_id n.prerequisites d) (
        ap
          (λ (f : Adjacency → Option Adjacency).
            append_pairs (node_pairs (is_taken invalid) n.node_id n.prerequisites) d >>= f)
          (fun_ext (append_edges-eq-append_pairs invalid nodes))))

-- The dictionaries of empty lists have the keys of the nodes.
pub record IsBlank (d : Adjacency) (nodes_by_id : Nodes) : Type 0 where
  pub has : (j : String) → is_some (lookup j d) ≡ is_known nodes_by_id j
  pub empty : (j x : String) → member x (targets d j) ≡ false
  pub unique : HasUniqueKeys d

pub IsBlank-insert :
    (d : Adjacency) (nodes_by_id : Nodes) (k : String) (node : HarnessNodeSource)
    → IsBlank d nodes_by_id
    → IsBlank (insert k [] d) (insert k node nodes_by_id)
unfolding is_known targets
IsBlank-insert d nodes_by_id k node b = record {
  has = λ j. ground (arith, has-insert j k [] d, has-insert j k node nodes_by_id, b.has j);
  empty = λ j x.
      rw (lookup-insert j k [] d)
        (elim (Bool-cases (str_eq k j)) [ inl h ↦ rw h refl | inr h ↦ rw h (b.empty j x) ]);
  unique = insert-HasUniqueKeys k [] d b.unique;
}

empty_adjacency-IsBlank :
    (nodes : List HarnessNodeSource) (d : Adjacency) (nodes_by_id : Nodes)
    → IsBlank d nodes_by_id
    → IsBlank (empty_adjacency d nodes) (nodes_from nodes_by_id nodes)
unfolding empty_adjacency nodes_from
empty_adjacency-IsBlank [] d nodes_by_id b = b
empty_adjacency-IsBlank (n ∷ nodes) d nodes_by_id b =
    empty_adjacency-IsBlank nodes _ _ (IsBlank-insert d nodes_by_id n.node_id n b)

pub nil-IsBlank : IsBlank [] []
unfolding is_known targets lookup
nil-IsBlank = record { has = λ j. refl; empty = λ j x. refl; unique = tt }

-- Sorting the lists of a dictionary keeps its edges.
pub record IsSame (d d' : Adjacency) : Type 0 where
  pub has : (j : String) → is_some (lookup j d') ≡ is_some (lookup j d)
  pub holds : (j x : String) → member x (targets d' j) ≡ member x (targets d j)
  pub unique : HasUniqueKeys d → HasUniqueKeys d'

abbrev pub map_values : (List String → List String) → Adjacency → Adjacency
map_values f [] = []
map_values f ((k, vs) ∷ d) = (k, f vs) ∷ map_values f d

pub map_values-IsSame :
    (f : List String → List String)
    → ((x : String) (vs : List String) → member x (f vs) ≡ member x vs)
    → (d : Adjacency) → IsSame d (map_values f d)
unfolding targets lookup
map_values-IsSame f h [] = record { has = λ j. refl; holds = λ j x. refl; unique = λ u. u }
map_values-IsSame f h ((k, vs) ∷ d) =
    let ih = map_values-IsSame f h d in
    record {
      has = λ j. ground (arith, ih.has j);
      holds = λ j x.
          rw (targets-cons j k (f vs) (map_values f d), targets-cons j k vs d)
            (ground (arith, h x vs, ih.holds j x));
      unique = λ u. (ground (arith, ih.has k, u.0), ih.unique u.1);
    }

map-sort_targets :
    (d : Adjacency) → map sort_targets d ≡ map_values (λ vs. sorted text_leb (set_of vs)) d
map-sort_targets [] = refl
map-sort_targets ((k, vs) ∷ d) = ap (λ r. (k, sorted text_leb (set_of vs)) ∷ r) (map-sort_targets d)

pub map-sort_values : (d : Adjacency) → map sort_values d ≡ map_values (sorted text_leb) d
map-sort_values [] = refl
map-sort_values ((k, vs) ∷ d) = ap (λ r. (k, sorted text_leb vs) ∷ r) (map-sort_values d)

-- A node of the graph is a key of its dictionary.
is_known-nodes_from :
    (nodes : List HarnessNodeSource) (by_id : Nodes) (j : String)
    → is_known by_id j ≡ true
    → is_known (nodes_from by_id nodes) j ≡ true
unfolding is_known nodes_from
is_known-nodes_from [] by_id j h = h
is_known-nodes_from (n ∷ nodes) by_id j h =
    is_known-nodes_from nodes (insert n.node_id n by_id) j
      (ground (arith, has-insert j n.node_id n by_id))

pub Memᴰ-is_known :
    (nodes : List HarnessNodeSource) (by_id : Nodes) (n : HarnessNodeSource)
    → Memᴰ n nodes
    → is_known (nodes_from by_id nodes) n.node_id ≡ true
unfolding is_known nodes_from
Memᴰ-is_known [] by_id n m = absurd (Memᴰ.not-nil m)
Memᴰ-is_known (k ∷ nodes) by_id n m = elim (Memᴰ.cases_cons m) [
  | inl is ↦ is_known-nodes_from nodes (insert k.node_id k by_id) n.node_id (
      rw (ap (λ (x : HarnessNodeSource). x.node_id) is)
        (ground (arith, has-insert k.node_id k.node_id k by_id, eq_iff k.node_id k.node_id)))
  | inr rest ↦ Memᴰ-is_known nodes (insert k.node_id k by_id) n rest
]

module _ (nodes : List HarnessNodeSource) where
  abbrev pub by_id : Nodes
  by_id = nodes_from [] nodes

  abbrev pub invalid : Pairs
  invalid = invalid_pairs nodes by_id

  -- The adjacency of the graph: an edge for each valid prerequisite.
  pub record IsAdjacency (adjacency : Adjacency) : Type 0 where
    pub has : (j : String) → is_some (lookup j adjacency) ≡ is_known by_id j
    pub holds :
        (d p : String) → (member d (targets adjacency p) ≡ true) ↔ IsValidEdge nodes by_id d p
    pub unique : HasUniqueKeys adjacency

  valid_adjacency_keys :
      (d p : String)
      → member (d, p) (pairs_where (is_taken invalid) nodes) ≡ true
      → is_some (lookup p (empty_adjacency [] nodes)) ≡ true
  unfolding is_known
  valid_adjacency_keys d p m =
      let named = member-pairs_where (is_taken invalid) d p nodes in
      let e = (is_edge-IsValidEdge nodes by_id d p).0 (sym named ∙ m) in
      (empty_adjacency-IsBlank nodes [] [] nil-IsBlank).has p ∙ e.known

  -- `_valid_adjacency` of the nodes and their refused pairs meets no KeyError. Its keys are the
  -- nodes, each once, and a node is listed under another exactly where it declares that one as a
  -- prerequisite, and the prerequisite is known, another node, not terminal and declared once.
  pub valid_adjacency-IsAdjacency :
      (adjacency : Adjacency) × (valid_adjacency nodes invalid ≡ some adjacency)
      × IsAdjacency adjacency
  unfolding valid_adjacency
  valid_adjacency-IsAdjacency =
      let blank = empty_adjacency-IsBlank nodes [] [] nil-IsBlank in
      let es = pairs_where (is_taken invalid) nodes in
      let (d, e, x) = append_pairs-Extended es (empty_adjacency [] nodes) valid_adjacency_keys in
      let same =
        map_values-IsSame (λ vs. sorted text_leb (set_of vs))
          (λ y vs. member-sorted text_leb y (set_of vs) ∙ member-set_of y vs) d in
      let edge : (v p : String)
          → member v (targets (map_values (λ vs. sorted text_leb (set_of vs)) d) p)
            ≡ is_edge nodes by_id v p =
        λ v p.
          same.holds p v
          ∙ x.holds p v
          ∙ rw (blank.empty p v) (member-pairs_where (is_taken invalid) v p nodes) in
      (
        map_values (λ vs. sorted text_leb (set_of vs)) d,
        rw (append_edges-eq-append_pairs invalid nodes (empty_adjacency [] nodes), e)
            (ap some (map-sort_targets d)),
        record {
          has = λ j. same.has j ∙ x.has j ∙ blank.has j;
          holds = λ v p. (
            λ m. (is_edge-IsValidEdge nodes by_id v p).0 (sym (edge v p) ∙ m),
            λ w. edge v p ∙ (is_edge-IsValidEdge nodes by_id v p).1 w,
          );
          unique = same.unique (x.unique blank.unique);
        },
      )
