-- ===== src/Compiler/Diagnostics/Registry.antt =====
-- The phases, severities and registered codes of src/millforge/compiler/diagnostics.py.
use millforge.Prelude.{ℕ, String, List, [], ◌∷◌, ◌++◌, map}

pub data CompilerPhase : Type 0 where
  request parse schema resolution graph capability artifact lowering output internal : CompilerPhase

-- `tuple(CompilerPhase).index(phase)`
unfoldable pub phase_index : CompilerPhase → ℕ
phase_index request = 0
phase_index parse = 1
phase_index schema = 2
phase_index resolution = 3
phase_index graph = 4
phase_index capability = 5
phase_index artifact = 6
phase_index lowering = 7
phase_index output = 8
phase_index internal = 9

pub data DiagnosticSeverity : Type 0 where
  error warning : DiagnosticSeverity

abbrev pub severity_index : DiagnosticSeverity → ℕ
severity_index error = 0
severity_index warning = 1

pub record Registered : Type 0 where
  pub phase : CompilerPhase
  pub severity : DiagnosticSeverity

abbrev pub errors : CompilerPhase → List String → List (String × Registered)
errors phase codes = map (λ code. (code, record { phase = phase; severity = error })) codes

-- `DIAGNOSTIC_REGISTRY`
unfoldable pub diagnostic_registry : List (String × Registered)
diagnostic_registry =
    errors request (
      "MF-S001" ∷ "MF-S002" ∷ "MF-S013" ∷ "MF-S014" ∷ "MF-S015" ∷ "MF-S016" ∷ "MF-S017" ∷ "MF-S018"
      ∷ [])
    ++ (errors parse (
          "MF-S003" ∷ "MF-S004" ∷ "MF-S005" ∷ "MF-S006" ∷ "MF-S007" ∷ "MF-S008" ∷ "MF-S009"
          ∷ "MF-S010" ∷ "MF-S011" ∷ "MF-S012" ∷ [])
        ++ (errors schema (
              "MF-S020" ∷ "MF-S021" ∷ "MF-S022" ∷ "MF-S023" ∷ "MF-S024" ∷ "MF-S025" ∷ "MF-S026"
              ∷ "MF-S027" ∷ "MF-S028" ∷ "MF-S029" ∷ [])
            ++ (errors resolution (
                  "MF-R001" ∷ "MF-R002" ∷ "MF-R003" ∷ "MF-R004" ∷ "MF-R005" ∷ "MF-R006" ∷ "MF-R007"
                  ∷ "MF-R008" ∷ "MF-R009" ∷ "MF-R010" ∷ "MF-R011" ∷ "MF-C001_DISCOVERY_NOT_CATALOG"
                  ∷ [])
                ++ (errors graph (
                      "MF-G001" ∷ "MF-G002" ∷ "MF-G003" ∷ "MF-G004" ∷ "MF-G005" ∷ "MF-G006"
                      ∷ "MF-G007" ∷ "MF-G008" ∷ "MF-G009" ∷ "MF-G010" ∷ "MF-G011" ∷ "MF-G012"
                      ∷ "MF-G013" ∷ [])
                    ++ (errors capability ("MF-C001" ∷ [])
                        ++ (errors artifact (
                              "MF-A001" ∷ "MF-A002" ∷ "MF-A003" ∷ "MF-A004" ∷ "MF-A005" ∷ "MF-A006"
                              ∷ "MF-A007" ∷ [])
                            ++ (errors lowering ("MF-L001" ∷ "MF-L002" ∷ "MF-L003" ∷ "MF-L004" ∷ [])
                                ++ (errors output (
                                      "MF-O001" ∷ "MF-O002" ∷ "MF-O003" ∷ "MF-O004" ∷ "MF-O005"
                                      ∷ [])
                                    ++ (errors internal ("MF-I001" ∷ [])
                                        ++ ((
                                          "MF-D001",
                                          record { phase = internal; severity = warning },
                                        )
                                            ∷ []))))))))))
