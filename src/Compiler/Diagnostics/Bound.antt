-- ===== src/Compiler/Diagnostics/Bound.antt =====
-- `bound_diagnostics` of src/millforge/compiler/diagnostics.py. The size of the serialized report is an
-- argument.
use mathlib.Core.Path.{subst}
use millforge.Prelude.{
  ℕ, zero, suc, ◌≤◌, ◌<◌, str_eq, List, [], ◌∷◌, ◌++◌, length, length-append, take, Bool, false,
  ◌&&◌, none, ◌≡◌, refl, sym, ap, ◌∙◌, ◌⊎◌, inl, inr, if◌then◌else◌, leb, arith, Bool-cases,
}
use millforge.Compiler.Collections.Laws.{length-sorted}
use millforge.Compiler.Diagnostics.{
  Fallible, ok, ◌>>=◌, Redaction, CompilerDiagnostic, DiagnosticList, compiler_diagnostic,
  sort_diagnostics, diagnostic_leb,
}
use millforge.Compiler.Diagnostics.Registry.{internal, warning}

abbrev pub max_diagnostic_report_bytes : ℕ
max_diagnostic_report_bytes = 262144

abbrev pub max_diagnostics_per_report : ℕ
max_diagnostics_per_report = 128

abbrev pub max_diagnostics_without_truncation_warning : ℕ
max_diagnostics_without_truncation_warning = 127

-- `_diagnostics_truncated_warning`
unfoldable pub diagnostics_truncated_warning : Redaction → Fallible CompilerDiagnostic
unfolding compiler_diagnostic
diagnostics_truncated_warning redaction = compiler_diagnostic redaction (record {
  code = "MF-D001";
  severity = warning;
  phase = internal;
  message = "Diagnostics were truncated.";
  source_reference = none;
  harness_id = none;
  node_id = none;
  related_ids = [];
  suggested_fix = none;
  fields = [];
})

unfoldable pub without_truncated : List CompilerDiagnostic → List CompilerDiagnostic
without_truncated [] = []
without_truncated (d ∷ ds) =
    let rest = without_truncated ds in if str_eq d.code "MF-D001" then rest else d ∷ rest

module _ (report_size : List CompilerDiagnostic → ℕ) where
  abbrev pub fits : List CompilerDiagnostic → Bool
  fits ds = leb (report_size ds) max_diagnostic_report_bytes

  -- The `while` loop, where the first `n` of `kept` are left.
  unfoldable pub shorten :
      CompilerDiagnostic → List CompilerDiagnostic → ℕ → List CompilerDiagnostic
  shorten notice kept zero = notice ∷ []
  shorten notice kept (suc n) =
      let rest = shorten notice kept n in
      if fits (take (suc n) kept ++ notice ∷ []) then take (suc n) kept ++ notice ∷ [] else rest

  unfoldable pub bound_diagnostics : Redaction → List CompilerDiagnostic → DiagnosticList
  unfolding sort_diagnostics diagnostics_truncated_warning without_truncated shorten
  bound_diagnostics redaction diagnostics =
      let ordered = sort_diagnostics diagnostics in
      if leb (length ordered) max_diagnostics_per_report && fits ordered then ok ordered else do
        notice ← diagnostics_truncated_warning redaction
        let kept = take max_diagnostics_without_truncation_warning (without_truncated ordered)
        ok (shorten notice kept (length kept))

  -- The longest first part of `kept` that fits with the notice after it, or none of it.
  pub record Shortened (notice : CompilerDiagnostic) (kept : List CompilerDiagnostic) (n : ℕ)
      (out : List CompilerDiagnostic) : Type 0 where
    pub left : ℕ
    pub at_most : left ≤ n
    pub is_out : out ≡ take left kept ++ notice ∷ []
    pub fitting : (left ≡ 0) ⊎ (report_size out ≤ max_diagnostic_report_bytes)
    pub longest :
        (m : ℕ)
        → left < m
        → m ≤ n
        → max_diagnostic_report_bytes < report_size (take m kept ++ notice ∷ [])

  shorten-Shortened :
      (notice : CompilerDiagnostic) (kept : List CompilerDiagnostic) (n : ℕ)
      → Shortened notice kept n (shorten notice kept n)
  unfolding shorten
  shorten-Shortened notice kept zero = record {
    left = 0;
    at_most = omega arith;
    is_out = refl;
    fitting = inl refl;
    longest = λ m l h. absurd (omega arith);
  }
  shorten-Shortened notice kept (suc n) =
      elim (Bool-cases (fits (take (suc n) kept ++ notice ∷ []))) [
        | inl yields ↦ record {
          left = suc n;
          at_most = omega arith;
          is_out = rw yields refl;
          fitting = inr (rw yields (ground arith));
          longest = λ m l h. absurd (omega arith);
        }
        | inr exceeds ↦
            let s = shorten-Shortened notice kept n in
            record {
              left = s.left;
              at_most = let h = s.at_most in omega arith;
              is_out = rw exceeds s.is_out;
              fitting = rw exceeds s.fitting;
              longest = λ m l h. elim (Bool-cases (leb m n)) [
                | inl low ↦ s.longest m l (ground arith)
                | inr high ↦
                    let last : m ≡ suc n = ground arith in
                    let over : max_diagnostic_report_bytes
                        < report_size (take (suc n) kept ++ notice ∷ []) =
                      ground arith in
                    subst
                      (λ k. max_diagnostic_report_bytes < report_size (take k kept ++ notice ∷ []))
                      (sym last) over
              ];
            }
      ]

  abbrev pub kept_of : List CompilerDiagnostic → List CompilerDiagnostic
  kept_of diagnostics =
      take max_diagnostics_without_truncation_warning
        (without_truncated (sort_diagnostics diagnostics))

  -- A report within its bounds: all diagnostics in order, or a first part of them with the notice.
  pub record Bounded (notice : CompilerDiagnostic) (diagnostics out : List CompilerDiagnostic)
      : Type 0 where
    pub few : length out ≤ max_diagnostics_per_report
    pub small : (report_size out ≤ max_diagnostic_report_bytes) ⊎ (out ≡ notice ∷ [])
    pub report :
        (out ≡ sort_diagnostics diagnostics)
        ⊎ ((max_diagnostics_per_report < length diagnostics
              ⊎ max_diagnostic_report_bytes < report_size (sort_diagnostics diagnostics))
            × Shortened notice (kept_of diagnostics) (length (kept_of diagnostics)) out)

  length-sort_diagnostics :
      (ds : List CompilerDiagnostic) → length (sort_diagnostics ds) ≡ length ds
  unfolding sort_diagnostics
  length-sort_diagnostics ds = length-sorted diagnostic_leb ds

  length-take : {A : Type 0} (n : ℕ) (xs : List A) → length (take n xs) ≤ n
  length-take zero xs = omega arith
  length-take (suc n) [] = omega arith
  length-take (suc n) (x ∷ xs) = omega (arith, length-take n xs)

  module _ (redaction : Redaction) (notice : CompilerDiagnostic)
      (notice_is : diagnostics_truncated_warning redaction ≡ ok notice)
      (diagnostics : List CompilerDiagnostic) where
    abbrev shortened : List CompilerDiagnostic
    shortened = shorten notice (kept_of diagnostics) (length (kept_of diagnostics))

    shortened-Bounded :
        max_diagnostics_per_report < length diagnostics
          ⊎ max_diagnostic_report_bytes < report_size (sort_diagnostics diagnostics)
        → Bounded notice diagnostics shortened
    shortened-Bounded over =
        let kept = kept_of diagnostics in
        let s = shorten-Shortened notice kept (length kept) in
        record {
          few =
              let size = ap length s.is_out in
              let low = s.at_most in
              omega (
                arith,
                length-append (take s.left kept) (notice ∷ []),
                length-take s.left kept,
                length-take max_diagnostics_without_truncation_warning
                    (without_truncated (sort_diagnostics diagnostics)),
              );
          small = elim s.fitting [
            | inl nothing ↦ inr (s.is_out ∙ ap (λ k. take k kept ++ notice ∷ []) nothing)
            | inr yields ↦ inl yields
          ];
          report = inr (over, s);
        }

    exceeds_either :
        (leb (length (sort_diagnostics diagnostics)) max_diagnostics_per_report
            && fits (sort_diagnostics diagnostics))
          ≡ false
        → max_diagnostics_per_report < length diagnostics
          ⊎ max_diagnostic_report_bytes < report_size (sort_diagnostics diagnostics)
    exceeds_either h = elim (Bool-cases (fits (sort_diagnostics diagnostics))) [
      | inl yields ↦ inl (ground (arith, length-sort_diagnostics diagnostics))
      | inr exceeds ↦ inr (ground arith)
    ]

    -- Where the notice of a truncation can be built, `bound_diagnostics` returns a report for
    -- every size function of reports and all diagnostics. It has at most 128 diagnostics and fits
    -- the limit of bytes, unless it is the notice alone. It is all diagnostics in order, or, where
    -- these are too many or too large, the notice after a first part of those with another code:
    -- at most 127, and no longer first part of these fits.
    pub bound_diagnostics-Bounded :
        (out : List CompilerDiagnostic) × (bound_diagnostics redaction diagnostics ≡ ok out)
        × Bounded notice diagnostics out
    unfolding bound_diagnostics
    bound_diagnostics-Bounded =
        elim (Bool-cases (
          leb (length (sort_diagnostics diagnostics)) max_diagnostics_per_report
          && fits (sort_diagnostics diagnostics))) [
            | inl within ↦ (
              sort_diagnostics diagnostics,
              rw within refl,
              record { few = ground arith; small = inl (ground arith); report = inl refl },
            )
            | inr beyond ↦ (
              shortened,
              rw (beyond, notice_is, ◌>>=◌) refl,
              shortened-Bounded (exceeds_either beyond),
            )
          ]
