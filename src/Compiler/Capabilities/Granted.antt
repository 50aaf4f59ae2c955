-- ===== src/Compiler/Capabilities/Granted.antt =====
-- What `validate_capability_grants` of src/millforge/compiler/capabilities.py finds.
use text.Mathlib.TextEquality.{eq_iff}
use millforge.Prelude.{
  String, str_eq, List, [], ◌∷◌, ◌++◌, any, Bool, true, not, ◌||◌, ◌≡◌, refl, sym, ap, ◌∙◌, ◌↔◌,
  arith,
}
use millforge.Compiler.Collections.{
  member, sorted, insert_sorted, text_leb, insert, keys, get_or, string_eq,
}
use millforge.Compiler.Collections.Laws.{member-sorted}
use millforge.Compiler.Source.{ResolvedNode}
use millforge.Compiler.Diagnostics.{ok, ◌>>=◌, when, Redaction, sort_diagnostics}
use millforge.Compiler.Diagnostics.Outcomes.{
  >>=-elim, when-eq-nil, append-eq-nil, sort_diagnostics-eq-nil,
}
use millforge.Compiler.Capabilities.{
  CapabilityNodes, CapabilityValidationResult, capabilities_of, add_node, capability_nodes,
  item_leb, capability_diagnostic, missing_grants, validate_capability_grants,
}

-- Whether some node requires a capability.
abbrev pub is_required : List (String × ResolvedNode) → String → Bool
is_required nodes c = any (λ (n : String × ResolvedNode). member c (capabilities_of n.1)) nodes

module _ {V : Type 0} where
  member-keys-insert :
      (c k : String) (v : V) (d : List (String × V))
      → member c (keys (insert k v d)) ≡ (str_eq c k || member c (keys d))
  unfolding keys insert
  member-keys-insert c k v [] = refl
  member-keys-insert c k v ((j, w) ∷ d) =
      ground (arith, member-keys-insert c k v d, eq_iff j k, eq_iff c j, eq_iff c k)

  member-keys-insert_sorted :
      (leb : String × V → String × V → Bool) (c k : String) (v : V) (d : List (String × V))
      → member c (keys (insert_sorted leb (k, v) d)) ≡ (str_eq c k || member c (keys d))
  unfolding keys insert_sorted
  member-keys-insert_sorted leb c k v [] = refl
  member-keys-insert_sorted leb c k v ((j, w) ∷ d) =
      ground (arith, member-keys-insert_sorted leb c k v d)

  member-keys-sorted :
      (leb : String × V → String × V → Bool) (c : String) (d : List (String × V))
      → member c (keys (sorted leb d)) ≡ member c (keys d)
  unfolding keys sorted
  member-keys-sorted leb c [] = refl
  member-keys-sorted leb c ((k, v) ∷ d) =
      member-keys-insert_sorted leb c k v (sorted leb d)
      ∙ ap (λ b. str_eq c k || b) (member-keys-sorted leb c d)

member-keys-add_node :
    (c id : String) (cs : List String) (d : CapabilityNodes)
    → member c (keys (add_node id cs d)) ≡ (member c cs || member c (keys d))
unfolding add_node
member-keys-add_node c id [] d = refl
member-keys-add_node c id (k ∷ cs) d =
    let value = get_or k d [] ++ id ∷ [] in
    ground (arith, member-keys-add_node c id cs (insert k value d), member-keys-insert c k value d)

member-keys-capability_nodes :
    (c : String) (nodes : List (String × ResolvedNode)) (d : CapabilityNodes)
    → member c (keys (capability_nodes nodes d)) ≡ (is_required nodes c || member c (keys d))
unfolding capability_nodes
member-keys-capability_nodes c [] d = refl
member-keys-capability_nodes c ((id, v) ∷ nodes) d =
    let next = add_node id (capabilities_of v) d in
    ground (
      arith,
      member-keys-capability_nodes c nodes next,
      member-keys-add_node c id (capabilities_of v) d,
    )

ok-injective : {A : Type 0} {a b : A} → ok a ≡ ok b → a ≡ b
ok-injective e = cc

sort_diagnostics-nil : sort_diagnostics [] ≡ []
unfolding sort_diagnostics sorted
sort_diagnostics-nil = refl

module _ (redaction : Redaction) (granted : List String) where
  missing_grants-nil :
      (items : CapabilityNodes)
      → missing_grants redaction granted items ≡ ok []
      → (c : String) → member c (keys items) ≡ true
      → member c granted ≡ true
  unfolding missing_grants keys
  missing_grants-nil [] h c m = cc
  missing_grants-nil ((k, ids) ∷ items) h c m =
      >>=-elim (when (not (member k granted)) (capability_diagnostic redaction k ids)) _ h
        (λ here e h₁. >>=-elim (missing_grants redaction granted items) _ h₁ (λ rest f h₂.
          let (no_here, no_rest) = append-eq-nil here rest cc in
          let fine =
            when-eq-nil (not (member k granted)) (capability_diagnostic redaction k ids)
              (e ∙ ap ok no_here) in
          let later = missing_grants-nil items (f ∙ ap ok no_rest) c in ground (arith, eq_iff c k)))

  nil-missing_grants :
      (items : CapabilityNodes)
      → ((c : String) → member c (keys items) ≡ true → member c granted ≡ true)
      → missing_grants redaction granted items ≡ ok []
  unfolding missing_grants keys
  nil-missing_grants [] all = refl
  nil-missing_grants ((k, ids) ∷ items) all =
      let here = all k (ground (arith, eq_iff k k)) in
      let rest = nil-missing_grants items (λ c m. all c (ground arith)) in
      rw (here, rest, ◌>>=◌) refl

  listed_is :
      (nodes : List (String × ResolvedNode)) (c : String)
      → member c (keys (sorted item_leb (capability_nodes nodes []))) ≡ is_required nodes c
  unfolding keys
  listed_is nodes c = ground (
    arith,
    member-keys-sorted item_leb c (capability_nodes nodes []),
    member-keys-capability_nodes c nodes [],
  )

  ids_is :
      (nodes : List (String × ResolvedNode)) (c : String)
      → member c (sorted text_leb (keys (capability_nodes nodes []))) ≡ is_required nodes c
  unfolding keys
  ids_is nodes c = ground (
    arith,
    member-sorted text_leb c (keys (capability_nodes nodes [])),
    member-keys-capability_nodes c nodes [],
  )

  -- Where `validate_capability_grants` returns, its required capabilities are exactly those that
  -- some node requires, and it has no diagnostics exactly where each of these is granted.
  pub validate_capability_grants-Granted :
      (nodes : List (String × ResolvedNode)) (r : CapabilityValidationResult)
      → validate_capability_grants redaction nodes granted ≡ ok r
      → ((c : String) → member c r.required_capability_ids ≡ is_required nodes c)
        × ((r.diagnostics ≡ [])
            ↔ ((c : String) → is_required nodes c ≡ true → member c granted ≡ true))
  unfolding validate_capability_grants
  validate_capability_grants-Granted nodes r h =
      let items = sorted item_leb (capability_nodes nodes []) in
      >>=-elim (missing_grants redaction granted items) _ h (λ ds e k.
        let made = ok-injective k in
        let ids_are : r.required_capability_ids
            ≡ sorted text_leb (keys (capability_nodes nodes [])) =
          sym (ap (λ (x : CapabilityValidationResult). x.required_capability_ids) made) in
        let ds_are : r.diagnostics ≡ sort_diagnostics ds =
          sym (ap (λ (x : CapabilityValidationResult). x.diagnostics) made) in
        (
          λ c. ap (member c) ids_are ∙ ids_is nodes c,
          (
            λ none_left. λ c m.
                missing_grants-nil items
                  (e ∙ ap ok (sort_diagnostics-eq-nil ds (sym ds_are ∙ none_left))) c
                  (listed_is nodes c ∙ m),
            λ all.
                let none_left =
                  ok-injective (
                    sym e
                    ∙ nil-missing_grants items (λ c m. all c (sym (listed_is nodes c) ∙ m))) in
                ds_are ∙ (ap sort_diagnostics none_left ∙ sort_diagnostics-nil),
          ),
        ))
