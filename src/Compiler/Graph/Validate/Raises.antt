-- ===== src/Compiler/Graph/Validate/Raises.antt =====
-- How `validate_harness_graph` of src/millforge/compiler/graph.py ends.
use millforge.Prelude.{
  String, List, [], ◌∷◌, ◌++◌, Bool, true, false, Option, refl, inl, inr, if◌then◌else◌,
}
use millforge.Compiler.Collections.{sorted, text_leb, set_of, string_eq, pair_eq}
use millforge.Compiler.Source.{HarnessNodeSource}
use millforge.Compiler.Diagnostics.{
  Fallible, ok, value_error, each, when, Redaction, CompilerDiagnostic, compiler_diagnostic,
  is_admitted,
}
use millforge.Compiler.Diagnostics.Outcomes.{Ends, Ends->>=, Ends-each}
use millforge.Compiler.Graph.{
  Nodes, duplicate_prerequisite_pairs, unknown_prerequisite_pairs, self_prerequisite_pairs,
  terminal_as_prerequisite_pairs,
}
use millforge.Compiler.Graph.Arguments.{diagnostic}
use millforge.Compiler.Graph.Validate.{
  unknown_diagnostic, self_diagnostic, duplicate_diagnostic, terminal_prerequisite_diagnostic,
  cycle_diagnostic, illegal_diagnostic, illegal, illegal_diagnostics, duplicate_result_diagnostic,
  unused_diagnostic, no_terminal_diagnostic, edge_diagnostics, terminal_diagnostics, sorted_pairs,
  duplicate_results, unused_results, results_of,
}

pub ok-Ends : {A : Type 0} (a : A) → Ends (ok a)
ok-Ends a = inr (a, refl)

pub if-Ends :
    {A : Type 0} (b : Bool) (m n : Fallible A) → Ends m → Ends n → Ends (if b then m else n)
if-Ends true m n h k = h
if-Ends false m n h k = k

pub when-Ends : {A : Type 0} (b : Bool) (m : Fallible A) → Ends m → Ends (when b m)
when-Ends true m h = Ends->>= m (λ a. ok (a ∷ [])) h (λ a e. ok-Ends (a ∷ []))
when-Ends false m h = ok-Ends []

module _ (redaction : Redaction) where
  pub compiler_diagnostic-Ends : (d : CompilerDiagnostic) → Ends (compiler_diagnostic redaction d)
  unfolding compiler_diagnostic
  compiler_diagnostic-Ends d =
      if-Ends (is_admitted redaction d) _ value_error (ok-Ends _) (inl refl)

  unknown_diagnostic-Ends : (p : String × String) → Ends (unknown_diagnostic redaction p)
  unfolding unknown_diagnostic diagnostic
  unknown_diagnostic-Ends (d, p) = compiler_diagnostic-Ends _

  self_diagnostic-Ends : (p : String × String) → Ends (self_diagnostic redaction p)
  unfolding self_diagnostic diagnostic
  self_diagnostic-Ends (d, p) = compiler_diagnostic-Ends _

  duplicate_diagnostic-Ends : (p : String × String) → Ends (duplicate_diagnostic redaction p)
  unfolding duplicate_diagnostic diagnostic
  duplicate_diagnostic-Ends (d, p) = compiler_diagnostic-Ends _

  terminal_prerequisite_diagnostic-Ends :
      (p : String × String) → Ends (terminal_prerequisite_diagnostic redaction p)
  unfolding terminal_prerequisite_diagnostic diagnostic
  terminal_prerequisite_diagnostic-Ends (d, p) = compiler_diagnostic-Ends _

  illegal_diagnostic-Ends : (p : String × String) → Ends (illegal_diagnostic redaction p)
  unfolding illegal_diagnostic diagnostic
  illegal_diagnostic-Ends (d, p) = compiler_diagnostic-Ends _

  pub cycle_diagnostic-Ends : (c : List String) → Ends (cycle_diagnostic redaction c)
  unfolding cycle_diagnostic diagnostic
  cycle_diagnostic-Ends c = compiler_diagnostic-Ends _

  duplicate_result_diagnostic-Ends :
      (terminals : List (String × String)) (r : String)
      → Ends (duplicate_result_diagnostic redaction terminals r)
  unfolding duplicate_result_diagnostic diagnostic
  duplicate_result_diagnostic-Ends terminals r = compiler_diagnostic-Ends _

  unused_diagnostic-Ends : (r : String) → Ends (unused_diagnostic redaction r)
  unfolding unused_diagnostic diagnostic
  unused_diagnostic-Ends r = compiler_diagnostic-Ends _

  no_terminal_diagnostic-Ends : Ends (no_terminal_diagnostic redaction)
  unfolding no_terminal_diagnostic diagnostic
  no_terminal_diagnostic-Ends = compiler_diagnostic-Ends _

  illegal_diagnostics-Ends :
      (allowed : Option (List String)) (terminals : List (String × String))
      → Ends (illegal_diagnostics redaction allowed terminals)
  unfolding illegal_diagnostics
  illegal_diagnostics-Ends allowed [] = ok-Ends []
  illegal_diagnostics-Ends allowed ((id, r) ∷ terminals) =
      Ends->>= (when (illegal allowed r) (illegal_diagnostic redaction (id, r))) _
        (when-Ends (illegal allowed r) _ (illegal_diagnostic-Ends (id, r)))
        (λ here _.
          Ends->>= (illegal_diagnostics redaction allowed terminals) _
            (illegal_diagnostics-Ends allowed terminals) (λ rest _. ok-Ends (here ++ rest)))

  pub edge_diagnostics-Ends :
      (nodes : List HarnessNodeSource) (by_id : Nodes)
      → Ends (edge_diagnostics redaction nodes by_id)
  unfolding edge_diagnostics
  edge_diagnostics-Ends nodes by_id =
      let unknown = sorted_pairs (unknown_prerequisite_pairs nodes by_id) in
      let own = sorted_pairs (self_prerequisite_pairs nodes) in
      let twice = sorted_pairs (duplicate_prerequisite_pairs nodes) in
      let terminal = sorted_pairs (terminal_as_prerequisite_pairs nodes by_id) in
      Ends->>= (each (unknown_diagnostic redaction) unknown) _
        (Ends-each _ unknown_diagnostic-Ends unknown)
        (λ a _.
          Ends->>= (each (self_diagnostic redaction) own) _ (Ends-each _ self_diagnostic-Ends own)
            (λ b _.
              Ends->>= (each (duplicate_diagnostic redaction) twice) _
                (Ends-each _ duplicate_diagnostic-Ends twice)
                (λ c _.
                  Ends->>= (each (terminal_prerequisite_diagnostic redaction) terminal) _
                    (Ends-each _ terminal_prerequisite_diagnostic-Ends terminal)
                    (λ d _. ok-Ends (a ++ (b ++ (c ++ d)))))))

  absent-Ends :
      (terminals : List (String × String))
      → Ends (elim terminals [ [] ↦ when true (no_terminal_diagnostic redaction) | _ ∷ _ ↦ ok [] ])
  absent-Ends [] = when-Ends true _ no_terminal_diagnostic-Ends
  absent-Ends (t ∷ ts) = ok-Ends []

  pub terminal_diagnostics-Ends :
      (allowed : Option (List String)) (terminals : List (String × String))
      → Ends (terminal_diagnostics redaction allowed terminals)
  unfolding terminal_diagnostics
  terminal_diagnostics-Ends allowed terminals =
      let repeated = sorted text_leb (set_of (duplicate_results [] terminals)) in
      let unused = unused_results allowed (results_of terminals) in
      Ends->>= _ _ (absent-Ends terminals) (λ a _.
        Ends->>= (illegal_diagnostics redaction allowed terminals) _
          (illegal_diagnostics-Ends allowed terminals)
          (λ b _.
            Ends->>= (each (duplicate_result_diagnostic redaction terminals) repeated) _
              (Ends-each _ (duplicate_result_diagnostic-Ends terminals) repeated)
              (λ c _.
                Ends->>= (each (unused_diagnostic redaction) unused) _
                  (Ends-each _ unused_diagnostic-Ends unused)
                  (λ d _. ok-Ends (a ++ (b ++ (c ++ d)))))))
