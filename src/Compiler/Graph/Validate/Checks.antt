-- ===== src/Compiler/Graph/Validate/Checks.antt =====
-- What each check of `validate_harness_graph` of src/millforge/compiler/graph.py leaves when it finds
-- nothing.
use mathlib.Core.List.{Memᴰ}
use mathlib.Core.List.Memᴰ
use mathlib.Core.Path.{subst}
use text.Mathlib.TextEquality.{eq_iff}
use millforge.Prelude.{
  String, List, [], ◌∷◌, ◌++◌, Bool, true, false, ◌&&◌, Option, some, is_some, ◌≡◌, ◌≢◌, refl, sym,
  ap, ◌∙◌, inl, inr, arith, Bool-cases,
}
use millforge.Compiler.Collections.{
  Eq, member, set_of, sorted, text_leb, pair_leb, string_eq, pair_eq,
}
use millforge.Compiler.Collections.Laws.{member-append, member-sorted, member-set_of, Option-cases}
use millforge.Compiler.Source.{HarnessNodeSource}
use millforge.Compiler.Diagnostics.{
  Fallible, ok, ◌>>=◌, each, when, Redaction, CompilerDiagnostic, DiagnosticList,
}
use millforge.Compiler.Diagnostics.Outcomes.{>>=-elim, each-eq-nil, when-eq-nil, append-eq-nil}
use millforge.Compiler.Graph.{
  Nodes, invalid_pairs, duplicate_prerequisite_pairs, unknown_prerequisite_pairs,
  self_prerequisite_pairs, terminal_as_prerequisite_pairs,
}
use millforge.Compiler.Graph.Validate.{
  edge_diagnostics, terminal_diagnostics, terminals_of, results_of, unused_results, illegal,
  illegal_diagnostics, illegal_diagnostic, required_terminal_diagnostics, sorted_pairs,
  duplicate_results, unknown_diagnostic, self_diagnostic, duplicate_diagnostic,
  terminal_prerequisite_diagnostic, duplicate_result_diagnostic, unused_diagnostic,
  no_terminal_diagnostic,
}

-- An empty answer of two steps.
pub both_nil :
    {A : Type 0} (m n : Fallible (List A))
    → (m >>= λ xs. n >>= λ ys. ok (xs ++ ys)) ≡ ok []
    → (m ≡ ok []) × (n ≡ ok [])
both_nil {A = A} m n h = >>=-elim m _ h λ xs e h₁. >>=-elim n _ h₁ λ ys e₁ h₂.
    let nil : xs ++ ys ≡ [] =
      ap (λ (o : Fallible (List A)). elim o [ ok l ↦ l | _ ↦ xs ++ ys ]) h₂ in
    let (nx, ny) = append-eq-nil xs ys nil in (e ∙ ap ok nx, e₁ ∙ ap ok ny)

no_member :
    {A : Type 0} ⦃e : Eq A⦄ (leb : A → A → Bool) (xs : List A) (x : A)
    → sorted leb (set_of xs) ≡ []
    → member x xs ≡ false
no_member leb xs x h = sym (member-sorted leb x (set_of xs) ∙ member-set_of x xs) ∙ ap (member x) h

module _ (redaction : Redaction) (nodes : List HarnessNodeSource) (nodes_by_id : Nodes) where
  pub edge_diagnostics_nil :
      (d p : String)
      → edge_diagnostics redaction nodes nodes_by_id ≡ ok []
      → member (d, p) (invalid_pairs nodes nodes_by_id) ≡ false
  unfolding edge_diagnostics invalid_pairs
  edge_diagnostics_nil d p h =
      >>=-elim
        (each (unknown_diagnostic redaction)
          (sorted_pairs (unknown_prerequisite_pairs nodes nodes_by_id)))
        _ h
        λ xs e h₁.
          >>=-elim (each (self_diagnostic redaction) (sorted_pairs (self_prerequisite_pairs nodes)))
            _ h₁
            λ ys e₁ h₂.
              >>=-elim
                (each (duplicate_diagnostic redaction)
                  (sorted_pairs (duplicate_prerequisite_pairs nodes)))
                _ h₂
                λ zs e₂ h₃.
                  >>=-elim
                    (each (terminal_prerequisite_diagnostic redaction)
                      (sorted_pairs (terminal_as_prerequisite_pairs nodes nodes_by_id)))
                    _ h₃
                    λ ws e₃ h₄.
                      let nil : xs ++ (ys ++ (zs ++ ws)) ≡ [] =
                        ap (λ (o : DiagnosticList). elim o [ ok l ↦ l | _ ↦ [] ]) h₄ in
                      let (n₁, r₁) = append-eq-nil xs _ nil in
                      let (n₂, r₂) = append-eq-nil ys _ r₁ in
                      let (n₃, n₄) = append-eq-nil zs ws r₂ in
                      let a =
                        no_member pair_leb (unknown_prerequisite_pairs nodes nodes_by_id) (d, p)
                          (each-eq-nil (unknown_diagnostic redaction) _ (e ∙ ap ok n₁)) in
                      let b =
                        no_member pair_leb (self_prerequisite_pairs nodes) (d, p)
                          (each-eq-nil (self_diagnostic redaction) _ (e₁ ∙ ap ok n₂)) in
                      let c =
                        no_member pair_leb (duplicate_prerequisite_pairs nodes) (d, p)
                          (each-eq-nil (duplicate_diagnostic redaction) _ (e₂ ∙ ap ok n₃)) in
                      let f =
                        no_member pair_leb (terminal_as_prerequisite_pairs nodes nodes_by_id) (d, p)
                          (each-eq-nil (terminal_prerequisite_diagnostic redaction) _
                            (e₃ ∙ ap ok n₄)) in
                      ground (
                        arith,
                        member-append (d, p)
                            (duplicate_prerequisite_pairs nodes
                              ++ unknown_prerequisite_pairs nodes nodes_by_id
                              ++ self_prerequisite_pairs nodes)
                            (terminal_as_prerequisite_pairs nodes nodes_by_id),
                        member-append (d, p)
                            (duplicate_prerequisite_pairs nodes
                              ++ unknown_prerequisite_pairs nodes nodes_by_id)
                            (self_prerequisite_pairs nodes),
                        member-append (d, p) (duplicate_prerequisite_pairs nodes)
                            (unknown_prerequisite_pairs nodes nodes_by_id),
                      )

-- The terminal nodes.
pub member-terminals_of :
    (n : HarnessNodeSource) (nodes : List HarnessNodeSource) (r : String)
    → Memᴰ n nodes
    → n.terminal_result ≡ some r
    → member (n.node_id, r) (terminals_of nodes) ≡ true
unfolding terminals_of
member-terminals_of n [] r m h = absurd (Memᴰ.not-nil m)
member-terminals_of n (k ∷ nodes) r m h = elim (Memᴰ.cases_cons m) [
  | inl is ↦
      let h' : k.terminal_result ≡ some r =
        sym (ap (λ (x : HarnessNodeSource). x.terminal_result) is) ∙ h in
      let same : n.node_id ≡ k.node_id = ap (λ (x : HarnessNodeSource). x.node_id) is in
      rw h' (ground (arith, eq_iff n.node_id k.node_id, eq_iff r r))
  | inr rest ↦
      let ih = member-terminals_of n nodes r rest h in
      elim (Option-cases k.terminal_result) [
        | inl none_there ↦ rw none_there ih
        | inr (q, is) ↦ rw is (ground arith)
      ]
]

pub terminals_of-member :
    (nodes : List HarnessNodeSource) (id r : String)
    → member (id, r) (terminals_of nodes) ≡ true
    → (n : HarnessNodeSource) × Memᴰ n nodes × (id ≡ n.node_id) × (n.terminal_result ≡ some r)
unfolding terminals_of
terminals_of-member [] id r m = cc
terminals_of-member (k ∷ nodes) id r m = elim (Option-cases k.terminal_result) [
  | inl none_there ↦
      let (n, l, e, t) = terminals_of-member nodes id r (rw none_there at m) in
      (n, Memᴰ.tail l, e, t)
  | inr (q, is) ↦
      let m' : member (id, r) ((k.node_id, q) ∷ terminals_of nodes) ≡ true = rw is at m in
      elim (Bool-cases (member (id, r) (terminals_of nodes))) [
        | inl later ↦
            let (n, l, e, t) = terminals_of-member nodes id r later in (n, Memᴰ.tail l, e, t)
        | inr first ↦ (
          k,
          Memᴰ.head refl,
          ground (arith, eq_iff id k.node_id),
          is ∙ ap some (ground (arith, eq_iff r q)),
        )
      ]
]

-- What the checks of the terminal nodes leave.
pub record TerminalsPass (allowed : Option (List String)) (terminals : List (String × String))
    : Type 0 where
  pub present : terminals ≢ []
  pub legal : (id r : String) → member (id, r) terminals ≡ true → illegal allowed r ≡ false
  pub unique : (r : String) → member r (duplicate_results [] terminals) ≡ false
  pub used : unused_results allowed (results_of terminals) ≡ []

module _ (redaction : Redaction) (allowed : Option (List String)) where
  illegal_diagnostics_nil :
      (terminals : List (String × String)) (id r : String)
      → illegal_diagnostics redaction allowed terminals ≡ ok []
      → member (id, r) terminals ≡ true
      → illegal allowed r ≡ false
  unfolding illegal_diagnostics
  illegal_diagnostics_nil [] id r h m = cc
  illegal_diagnostics_nil ((j, q) ∷ terminals) id r h m =
      let (here, there) =
        both_nil (when (illegal allowed q) (illegal_diagnostic redaction (j, q)))
          (illegal_diagnostics redaction allowed terminals) h in
      elim (Bool-cases (member (id, r) terminals)) [
        | inl later ↦ illegal_diagnostics_nil terminals id r there later
        | inr first ↦
            let r_is : q ≡ r = ground (arith, eq_iff r q) in
            subst (λ x. illegal allowed x ≡ false) r_is (when-eq-nil (illegal allowed q) _ here)
      ]

  terminals_present :
      (terminals : List (String × String))
      → elim terminals [ [] ↦ when true (no_terminal_diagnostic redaction) | _ ∷ _ ↦ ok [] ] ≡ ok []
      → terminals ≢ []
  terminals_present [] h = absurd (not_ok (no_terminal_diagnostic redaction) h)
    where
      not_ok : (m : Fallible CompilerDiagnostic) → when true m ≡ ok [] → ⊥
      not_ok m h = cc (when-eq-nil true m h)
  terminals_present (t ∷ terminals) h = λ e. cc

  pub terminal_diagnostics_nil :
      (terminals : List (String × String))
      → terminal_diagnostics redaction allowed terminals ≡ ok []
      → TerminalsPass allowed terminals
  unfolding terminal_diagnostics
  terminal_diagnostics_nil terminals h =
      >>=-elim
        (elim terminals [ [] ↦ when true (no_terminal_diagnostic redaction) | _ ∷ _ ↦ ok [] ]) _ h
        λ xs e h₁. >>=-elim (illegal_diagnostics redaction allowed terminals) _ h₁ λ ys e₁ h₂.
          >>=-elim
            (each (duplicate_result_diagnostic redaction terminals)
              (sorted text_leb (set_of (duplicate_results [] terminals))))
            _ h₂
            λ zs e₂ h₃.
              >>=-elim
                (each (unused_diagnostic redaction) (unused_results allowed (results_of terminals)))
                _ h₃
                λ ws e₃ h₄.
                  let nil : xs ++ (ys ++ (zs ++ ws)) ≡ [] =
                    ap (λ (o : DiagnosticList). elim o [ ok l ↦ l | _ ↦ [] ]) h₄ in
                  let (n₁, r₁) = append-eq-nil xs _ nil in
                  let (n₂, r₂) = append-eq-nil ys _ r₁ in
                  let (n₃, n₄) = append-eq-nil zs ws r₂ in
                  record {
                    present = terminals_present terminals (e ∙ ap ok n₁);
                    legal = λ id r. illegal_diagnostics_nil terminals id r (e₁ ∙ ap ok n₂);
                    unique = λ r. no_member text_leb (duplicate_results [] terminals) r (
                        each-eq-nil (duplicate_result_diagnostic redaction terminals) _
                          (e₂ ∙ ap ok n₃));
                    used = each-eq-nil (unused_diagnostic redaction) _ (e₃ ∙ ap ok n₄);
                  }

  pub required_terminal_nil :
      (n : HarnessNodeSource) (nodes : List HarnessNodeSource)
      → required_terminal_diagnostics redaction nodes ≡ ok []
      → Memᴰ n nodes
      → (n.required && is_some n.terminal_result) ≡ false
  unfolding required_terminal_diagnostics
  required_terminal_nil n [] h m = absurd (Memᴰ.not-nil m)
  required_terminal_nil n (k ∷ nodes) h m =
      let (first, rest) =
        both_nil (when (k.required && is_some k.terminal_result) _)
          (required_terminal_diagnostics redaction nodes) h in
      elim (Memᴰ.cases_cons m) [
        | inl is ↦
            subst (λ (x : HarnessNodeSource). (x.required && is_some x.terminal_result) ≡ false)
              (sym is) (when-eq-nil (k.required && is_some k.terminal_result) _ first)
        | inr later ↦ required_terminal_nil n nodes rest later
      ]
