-- ===== src/Runtime/Artifacts/Writes.antt =====
-- The writes of src/millforge/runtime.py that concern no terminal result.
use millforge.Prelude.{false, Option, none, some, ◌≡◌, refl}
use millforge.Runtime.Contracts.{
  ArtifactRef, DiagnosticMetadata, GuardedSessionResult, HarnessExecutionRequest,
}
use millforge.Runtime.Payloads.{Payload}
use millforge.Runtime.Effects.{Env, Exn}
use millforge.Runtime.Logic.{sessions, commits, is_terminal_result}
use millforge.Runtime.Quiet.{
  Quiet, Quiet-pure, Quiet-throw, Quiet-tick, Quiet-bind, Quiet-record_effect, any_kind,
}
use millforge.Runtime.Artifacts.{
  finish_write, write_artifact, write_session_records, write_optional_diagnostic,
  write_non_terminal_artifacts,
}
use millforge.Runtime.ArtifactRefs.{ArtifactId}

module _ (env : Env) where
  Quiet-finish_write :
      (ref : ArtifactRef) (payload : Payload) (o : Option Exn)
      → is_terminal_result payload ≡ false
      → Quiet any_kind (λ _. Unit {0}) (finish_write env ref payload o)
  unfolding sessions commits
  Quiet-finish_write ref payload none h = Quiet-record_effect _ refl (rw h)
  Quiet-finish_write ref payload (some e) h = Quiet-throw e refl

  pub Quiet-write_artifact :
      (i : ArtifactId) (payload : Payload)
      → is_terminal_result payload ≡ false
      → Quiet any_kind (λ _. Unit {0}) (write_artifact env i payload)
  unfolding write_artifact
  Quiet-write_artifact i payload h =
      Quiet-bind _ _ Quiet-tick λ n _. Quiet-finish_write _ payload _ h

  Quiet-write_session_records :
      (o : Option GuardedSessionResult)
      → Quiet any_kind (λ _. Unit {0}) (write_session_records env o)
  unfolding write_session_records
  Quiet-write_session_records none = Quiet-pure _ tt
  Quiet-write_session_records (some session) =
      Quiet-bind _ _ (Quiet-write_artifact _ _ refl) λ _ _. Quiet-write_artifact _ _ refl

  Quiet-write_optional_diagnostic :
      (o : Option DiagnosticMetadata)
      → Quiet any_kind (λ _. Unit {0}) (write_optional_diagnostic env o)
  unfolding write_optional_diagnostic
  Quiet-write_optional_diagnostic none = Quiet-pure _ tt
  Quiet-write_optional_diagnostic (some d) = Quiet-write_artifact _ _ refl

  pub Quiet-write_non_terminal_artifacts :
      (request : HarnessExecutionRequest) (status : _) (result_class : _)
      (session : Option GuardedSessionResult) (d : Option DiagnosticMetadata) (certainty : _)
      → Quiet any_kind
          (λ _. Unit {0})
          (write_non_terminal_artifacts env request status result_class session d certainty)
  unfolding write_non_terminal_artifacts
  Quiet-write_non_terminal_artifacts request status result_class session d certainty =
      Quiet-bind _ _ (Quiet-write_artifact _ _ refl) λ _ _.
        Quiet-bind _ _ (Quiet-write_artifact _ _ refl) λ _ _.
          Quiet-bind _ _ (Quiet-write_session_records session) λ _ _.
            Quiet-bind _ _ (Quiet-write_optional_diagnostic d)
              λ _ _. Quiet-bind _ _ (Quiet-write_artifact _ _ refl) λ _ _. Quiet-pure _ tt
