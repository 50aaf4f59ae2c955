-- ===== src/Compiler/Graph/Validate/Cycles.antt =====
-- The cycles that `validate_harness_graph` of src/millforge/compiler/graph.py cannot report.
use mathlib.Core.List.Memᴰ
use mathlib.Core.List.{Memᴰ}
use mathlib.Core.Path.{subst}
use millforge.Prelude.{
  ℕ, ◌≤◌, String, List, [], ◌∷◌, length, Bool, false, not, ◌&&◌, Option, some, ◌≡◌, refl, inl, inr,
  leb, arith, any, is_blank, lookup,
}
use millforge.Compiler.Source.{HarnessNodeSource, Value, ResolvedNode}
use millforge.Compiler.Diagnostics.{
  Fallible, ok, value_error, stuck, ◌>>=◌, each, or_stuck, Redaction, CompilerDiagnostic,
  compiler_diagnostic, is_admitted, node_id_admitted, registry_matches, max_diagnostic_message_utf8,
  max_related_ids,
}
use millforge.Compiler.Diagnostics.Registry.{diagnostic_registry}
use Prim.Native.String.{len}
use millforge.Compiler.Diagnostics.Outcomes.{Ends}
use millforge.Compiler.Graph.{Adjacency, nodes_from, invalid_pairs, valid_adjacency}
use millforge.Compiler.Graph.Cycles.{cycle_components}
use millforge.Compiler.Graph.Arguments.{diagnostic}
use millforge.Compiler.Graph.Validate.{validate_harness_graph, cycle_diagnostic, edge_diagnostics}
use millforge.Compiler.Graph.Validate.Raises.{edge_diagnostics-Ends, cycle_diagnostic-Ends}

module _ {A B : Type 0} where
  raises->>= :
      (m : Fallible A) (f : A → Fallible B)
      → Ends m
      → ((a : A) → f a ≡ value_error)
      → (m >>= f) ≡ value_error
  raises->>= (ok a) f e k = k a
  raises->>= value_error f e k = refl
  raises->>= stuck f (inl e) k = cc
  raises->>= stuck f (inr e) k = let is = e.1 in cc

  raised->>= : (m : Fallible A) (f : A → Fallible B) → m ≡ value_error → (m >>= f) ≡ value_error
  raised->>= m f e = rw e refl

  raises-or_stuck :
      (o : Option A) (f : A → Fallible B) (a : A)
      → o ≡ some a
      → f a ≡ value_error
      → (or_stuck o >>= f) ≡ value_error
  raises-or_stuck o f a e k = rw e k

module _ {A B : Type 0} where
  each-raises :
      (f : A → Fallible B) (xs : List A) (x : A)
      → ((a : A) → Ends (f a))
      → Memᴰ x xs
      → f x ≡ value_error
      → each f xs ≡ value_error
  unfolding each
  each-raises f [] x k m h = absurd (Memᴰ.not-nil m)
  each-raises f (y ∷ ys) x k (Memᴰ.head e) h =
      raised->>= (f y) _ (subst (λ z. f z ≡ value_error) e h)
  each-raises f (y ∷ ys) x k (Memᴰ.tail m) h =
      raises->>= (f y) _ (k y) (λ b. raised->>= (each f ys) _ (each-raises f ys x k m h))

fourth_false : (a b c d e f : Bool) → d ≡ false → (a && b && c && d && e && f) ≡ false
fourth_false a b c d e f h = ground arith

module _ (redaction : Redaction) where
  not_admitted :
      (d : CompilerDiagnostic) → 17 ≤ length d.related_ids → is_admitted redaction d ≡ false
  unfolding is_admitted
  not_admitted d long =
      fourth_false (not (is_blank d.message))
        (leb (len (redaction.message d.message)) max_diagnostic_message_utf8)
        (node_id_admitted d.node_id) (leb (length d.related_ids) max_related_ids)
        (not (any is_blank d.related_ids))
        (registry_matches d.phase d.severity (lookup d.code diagnostic_registry)) (ground arith)

  too_many_ids :
      (d : CompilerDiagnostic)
      → 17 ≤ length d.related_ids
      → compiler_diagnostic redaction d ≡ value_error
  unfolding compiler_diagnostic
  too_many_ids d long = rw (not_admitted d long) refl

  cycle_diagnostic-raises :
      (c : List String) → 18 ≤ length c → cycle_diagnostic redaction c ≡ value_error
  unfolding cycle_diagnostic diagnostic
  cycle_diagnostic-raises [] long = absurd (omega arith)
  cycle_diagnostic-raises (id ∷ ids) long = too_many_ids _ (omega arith)

  -- A graph with a cycle component of more than seventeen nodes makes `validate_harness_graph`
  -- raise a ValueError, whatever else is in the graph.
  pub validate_harness_graph-cycle_limit :
      (compatibility_bytes : Value → Fallible (List ℕ)) (nodes : List HarnessNodeSource)
      (resolved : List (String × ResolvedNode)) (allowed : Option (List String))
      (adjacency : Adjacency) (components : List (List String)) (c : List String)
      → valid_adjacency nodes (invalid_pairs nodes (nodes_from [] nodes)) ≡ some adjacency
      → cycle_components adjacency ≡ some components
      → Memᴰ c components
      → 18 ≤ length c
      → validate_harness_graph redaction compatibility_bytes nodes resolved allowed ≡ value_error
  unfolding validate_harness_graph
  validate_harness_graph-cycle_limit compatibility_bytes nodes resolved allowed adjacency components
        c e f m long =
      raises->>= (edge_diagnostics redaction nodes (nodes_from [] nodes)) _
        (edge_diagnostics-Ends redaction nodes (nodes_from [] nodes))
        (λ edges.
          raises-or_stuck (valid_adjacency nodes (invalid_pairs nodes (nodes_from [] nodes))) _
            adjacency e
            (raises-or_stuck (cycle_components adjacency) _ components f (
              raised->>= (each (cycle_diagnostic redaction) components) _ (
                each-raises (cycle_diagnostic redaction) components c
                  (cycle_diagnostic-Ends redaction) m (cycle_diagnostic-raises c long)))))
