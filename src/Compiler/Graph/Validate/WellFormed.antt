-- ===== src/Compiler/Graph/Validate/WellFormed.antt =====
-- The graphs that `validate_harness_graph` of src/millforge/compiler/graph.py accepts.
use mathlib.Core.List.{Memᴰ}
use mathlib.Core.List.Memᴰ
use mathlib.Core.Path.{subst}
use text.Mathlib.TextEquality.{eq_iff}
use millforge.Prelude.{
  ℕ, String, str_eq, List, [], ◌∷◌, true, false, Option, none, some, is_some, ◌≡◌, ◌≢◌, refl, sym,
  ap, ◌∙◌, inl, inr, arith, Bool-cases,
}
use millforge.Compiler.Collections.{
  member, set_of, difference, sorted, text_leb, string_eq, pair_eq,
}
use millforge.Compiler.Collections.Laws.{
  member-sorted, member-set_of, member-difference, sorted-eq-nil, Option-cases,
}
use millforge.Compiler.Source.{HarnessNodeSource, Value, ResolvedNode}
use millforge.Compiler.Diagnostics.{Fallible, ok, Redaction}
use millforge.Compiler.Diagnostics.Outcomes.{each-eq-nil}
use millforge.Compiler.Graph.{Adjacency, nodes_from, targets}
use millforge.Compiler.Graph.Walks.{Edge, Reaches, here, step, Reaches-trans}
use millforge.Compiler.Graph.Edges.{IsDeclared, IsValidEdge}
use millforge.Compiler.Graph.Edges.Pairs.{declares-IsDeclared}
use millforge.Compiler.Graph.Edges.Faults.{is_edge-IsValidEdge}
use millforge.Compiler.Graph.Edges.Adjacency.{IsAdjacency, valid_adjacency-IsAdjacency}
use millforge.Compiler.Graph.Cycles.{cycle_components}
use millforge.Compiler.Graph.Cycles.Correct.{IsCyclic, cycle_components-AreCycles}
use millforge.Compiler.Graph.Cycles.Named.{Memᴰ-sorted}
use millforge.Compiler.Graph.Arguments.{node_leb}
use millforge.Compiler.Graph.Validate.{
  GraphValidationResult, validate_harness_graph, terminals_of, results_of, unused_results, illegal,
  key_leb, cycle_diagnostic,
}
use millforge.Compiler.Graph.Validate.Accepted.{Clean, validate_harness_graph-Clean}
use millforge.Compiler.Graph.Validate.Checks.{
  edge_diagnostics_nil, terminal_diagnostics_nil, required_terminal_nil, member-terminals_of,
  terminals_of-member, TerminalsPass,
}
use millforge.Compiler.Graph.Validate.Results.{one_node}

-- `p` is a prerequisite of `d`, or of one of its prerequisites, and so on.
pub data Requires (nodes : List HarnessNodeSource) (d : String) : String → Type 0 where
  direct : {p : String} → IsDeclared nodes d p → Requires nodes d p
  further : {q p : String} → Requires nodes d q → IsDeclared nodes q p → Requires nodes d p

pub record IsWellFormed (nodes : List HarnessNodeSource) (allowed : Option (List String))
    : Type 0 where
  pub valid : (d p : String) → IsDeclared nodes d p → IsValidEdge nodes (nodes_from [] nodes) d p
  pub acyclic : (d : String) → ¬ Requires nodes d d
  pub terminal_node : HarnessNodeSource
  pub is_listed : Memᴰ terminal_node nodes
  pub is_terminal : is_some terminal_node.terminal_result ≡ true
  pub legal :
      (n : HarnessNodeSource) (r : String)
      → Memᴰ n nodes
      → n.terminal_result ≡ some r
      → illegal allowed r ≡ false
  pub unique :
      (m n : HarnessNodeSource) (r : String)
      → Memᴰ m nodes
      → Memᴰ n nodes
      → m.terminal_result ≡ some r
      → n.terminal_result ≡ some r
      → m.node_id ≡ n.node_id
  pub covered :
      (results : List String) (r : String)
      → allowed ≡ some results
      → member r results ≡ true
      → (n : HarnessNodeSource) × Memᴰ n nodes × (n.terminal_result ≡ some r)
  pub optional :
      (n : HarnessNodeSource) → Memᴰ n nodes → n.required ≡ true → n.terminal_result ≡ none

-- The results of the terminal nodes.
results_of-member :
    (terminals : List (String × String)) (r : String)
    → member r (results_of terminals) ≡ true
    → (id : String) × (member (id, r) terminals ≡ true)
unfolding results_of
results_of-member [] r m = cc
results_of-member ((id, q) ∷ terminals) r m = elim (Bool-cases (str_eq r q)) [
  | inl is ↦ (id, ground (arith, eq_iff id id))
  | inr other ↦ let (j, n) = results_of-member terminals r (ground arith) in (j, ground arith)
]

a_terminal :
    (terminals : List (String × String))
    → terminals ≢ []
    → (id : String) × (r : String) × (member (id, r) terminals ≡ true)
a_terminal [] h = absurd (h refl)
a_terminal ((id, r) ∷ terminals) h = (id, r, ground (arith, eq_iff id id, eq_iff r r))

unused_nil :
    (allowed : Option (List String)) (seen results : List String) (r : String)
    → unused_results allowed seen ≡ []
    → allowed ≡ some results
    → member r results ≡ true
    → member r seen ≡ true
unused_nil none seen results r h e m = cc
unused_nil (some all) seen results r h e m =
    let all_is : all ≡ results = cc in
    let none_left = ap (member r) (sorted-eq-nil text_leb (difference (set_of all) seen) h) in
    let m' : member r all ≡ true = subst (λ l. member r l ≡ true) (sym all_is) m in
    ground (arith, member-difference r (set_of all) seen, member-set_of r all)

module _ (nodes : List HarnessNodeSource) (adjacency : Adjacency) (a : IsAdjacency nodes adjacency)
    (valid : (d p : String)
      → IsDeclared nodes d p
      → IsValidEdge nodes (nodes_from [] nodes) d p) where
  Edge-of : (d p : String) → IsDeclared nodes d p → Edge adjacency p d
  unfolding targets
  Edge-of d p i = (a.holds d p).1 (valid d p i)

  Requires-Reaches : {d p : String} → Requires nodes d p → Reaches adjacency p d
  Requires-Reaches {d} (direct {p} i) = step here (Edge-of d p i)
  Requires-Reaches (further {q} {p} r i) =
      Reaches-trans adjacency (step here (Edge-of q p i)) (Requires-Reaches r)

  acyclic_of : (d : String) → ¬ IsCyclic adjacency d → ¬ Requires nodes d d
  acyclic_of d calm r = go r
    where
      go : Requires nodes d d → ⊥
      go (direct i) = (valid d d i).other refl
      go (further {q} r i) = calm (record {
        other = q;
        differs = λ e. (valid q d i).other (sym e);
        there = step here (Edge-of q d i);
        back = Requires-Reaches r;
      })

some_injective : {A : Type 0} (a b : A) → some a ≡ some b → a ≡ b
some_injective a b h = cc

module _ (redaction : Redaction) (nodes : List HarnessNodeSource)
    (resolved : List (String × ResolvedNode)) (allowed : Option (List String))
    (c : Clean redaction nodes resolved allowed) where
  valid_of : (d p : String) → IsDeclared nodes d p → IsValidEdge nodes (nodes_from [] nodes) d p
  valid_of d p i =
      let named = (declares-IsDeclared d p nodes).1 i in
      let fine = edge_diagnostics_nil redaction nodes (nodes_from [] nodes) d p c.no_edges in
      (is_edge-IsValidEdge nodes (nodes_from [] nodes) d p).0 (ground arith)

  calm : (adjacency : Adjacency) → c.adjacency ≡ adjacency → (d : String) → ¬ IsCyclic adjacency d
  calm adjacency same d k =
      let (components, e, cycles) = cycle_components-AreCycles adjacency in
      let e' = subst (λ x. cycle_components x ≡ some c.components) same c.components_are in
      let found = some_injective components c.components (sym e ∙ e') in
      let none_left = each-eq-nil (cycle_diagnostic redaction) c.components c.no_cycles in
      let t = cycles.complete d k.other k.differs k.there k.back in
      Memᴰ.not-nil (subst (λ l. Memᴰ t.component l) (found ∙ none_left) t.found)

  pass : TerminalsPass allowed (sorted key_leb (terminals_of nodes))
  pass =
      terminal_diagnostics_nil redaction allowed (sorted key_leb (terminals_of nodes)) c.no_terminal

  member-terminals :
      (n : HarnessNodeSource) (r : String)
      → Memᴰ n nodes
      → n.terminal_result ≡ some r
      → member (n.node_id, r) (sorted key_leb (terminals_of nodes)) ≡ true
  member-terminals n r m t =
      member-sorted key_leb (n.node_id, r) (terminals_of nodes) ∙ member-terminals_of n nodes r m t

  node_of :
      (id r : String)
      → member (id, r) (sorted key_leb (terminals_of nodes)) ≡ true
      → (n : HarnessNodeSource) × Memᴰ n nodes × (n.terminal_result ≡ some r)
  node_of id r m =
      let (n, l, e, t) =
        terminals_of-member nodes id r
          (sym (member-sorted key_leb (id, r) (terminals_of nodes)) ∙ m) in
      (n, l, t)

  Clean-IsWellFormed : IsWellFormed nodes allowed
  Clean-IsWellFormed =
      let (adjacency, e, a) = valid_adjacency-IsAdjacency nodes in
      let same = some_injective c.adjacency adjacency (sym c.adjacency_is ∙ e) in
      let (id, r, m) = a_terminal (sorted key_leb (terminals_of nodes)) pass.present in
      let (n, l, t) = node_of id r m in
      record {
        valid = valid_of;
        acyclic = λ d. acyclic_of nodes adjacency a valid_of d (calm adjacency same d);
        terminal_node = n;
        is_listed = l;
        is_terminal = ap is_some t;
        legal = λ k q lk tk. pass.legal k.node_id q (member-terminals k q lk tk);
        unique = λ j k q lj lk tj tk.
            one_node [] (sorted key_leb (terminals_of nodes)) q j.node_id k.node_id pass.unique
              (member-terminals j q lj tj) (member-terminals k q lk tk);
        covered = λ results q is mq.
            let (i, mi) = results_of-member (sorted key_leb (terminals_of nodes)) q (
              unused_nil allowed (results_of (sorted key_leb (terminals_of nodes))) results q
                pass.used is mq) in
            node_of i q mi;
        optional = λ k lk rk.
            let both =
              required_terminal_nil redaction allowed k (sorted node_leb nodes) c.no_required
                ((Memᴰ-sorted node_leb k nodes).1 lk) in
            elim (Option-cases k.terminal_result) [
              | inl absent ↦ absent
              | inr (q, is) ↦
                  let there : is_some k.terminal_result ≡ true = ap is_some is in
                  absurd (ground arith)
            ];
      }

-- A graph for which `validate_harness_graph` returns no diagnostics is well formed: every
-- prerequisite is a known node, another than the dependent, not terminal and named once; no node
-- requires itself, directly or not; there is a terminal node; terminal results are allowed ones,
-- belong to one node each, and include all allowed ones where such are given; no terminal node is
-- required.
pub validate_harness_graph-IsWellFormed :
    (redaction : Redaction) (compatibility_bytes : Value → Fallible (List ℕ))
    (nodes : List HarnessNodeSource) (resolved : List (String × ResolvedNode))
    (allowed : Option (List String)) (r : GraphValidationResult)
    → validate_harness_graph redaction compatibility_bytes nodes resolved allowed ≡ ok r
    → r.diagnostics ≡ []
    → IsWellFormed nodes allowed
validate_harness_graph-IsWellFormed redaction compatibility_bytes nodes resolved allowed r h
      none_left =
    Clean-IsWellFormed redaction nodes resolved allowed (
      validate_harness_graph-Clean redaction nodes resolved allowed compatibility_bytes r h
        none_left)
