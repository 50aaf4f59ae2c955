-- ===== src/Runtime/Artifacts.antt =====
-- The artifact writing helpers of src/millforge/runtime.py.
pub mod Writes
pub mod Order
pub mod Complete
use millforge.Prelude.{
  String, List, [], ◌∷◌, ◌++◌, Bool, true, false, Option, none, some, map, if◌then◌else◌, is_some,
}
use mathlib.Core.Option
use millforge.Runtime.ArtifactRefs.{
  ArtifactId, artifact_key, build_artifact_ref, build_success_artifact_refs, if_diagnostic,
  non_terminal_artifact_ids, standard_filename, success_artifact_ids,
}
use millforge.Runtime.States.{
  ExecutionStatus, ExecutionResultClass, FailureOrigin, TerminalCertainty, status_value,
  session_status_value,
}
use millforge.Runtime.Contracts.{
  ArtifactRef, Deadline, DiagnosticMetadata, GuardedSessionResult, HarnessExecutionRequest,
  TerminalIntent, UsageMetadata,
}
use millforge.Runtime.Payloads.{Payload}
use millforge.Runtime.Effects.{
  Env, Exec, ExnKind, Exn, Effect, ◌>>=◌, ◌>>◌, pure, throw, tick, try_except, record_effect,
}
use millforge.Runtime.Preflight.{checkpoint_invocation}

abbrev session_usage : Option GuardedSessionResult → Option UsageMetadata
session_usage none = none
session_usage (some session) = session.usage

abbrev metrics_status : ExecutionStatus → Option GuardedSessionResult → String
metrics_status status none = status_value status
metrics_status status (some session) = session_status_value session.status

abbrev pub diagnostic_write : Option DiagnosticMetadata → List (ArtifactId × Payload)
diagnostic_write none = []
diagnostic_write (some d) = (ArtifactId.diagnostic, Payload.diagnostic d) ∷ []

-- The terminal result that is committed.
abbrev pub terminal_result_payload :
    HarnessExecutionRequest → TerminalIntent → ExecutionResultClass → Payload
terminal_result_payload request terminal_intent result_class = Payload.terminal_result (record {
  schema_version = "1.0";
  request_id = request.request_id;
  run_id = request.run_id;
  stage = request.stage;
  terminal_result = terminal_intent.terminal_result;
  result_class = result_class;
  summary_artifact_paths = map (λ (a : ArtifactRef). a.path) terminal_intent.artifact_refs;
  compiled_harness_sha256 = request.compiled_harness.digest;
  terminal_certainty = TerminalCertainty.committed;
})

-- The writes of steps 17 to 20, in their order.
unfoldable pub post_commit_writes :
    HarnessExecutionRequest
    → GuardedSessionResult
    → ExecutionResultClass
    → ExecutionStatus
    → List (ArtifactId × Payload)
post_commit_writes request session_result result_class status =
    ((ArtifactId.events, Payload.events session_result.events)
      ∷ (ArtifactId.tool_trace, Payload.tool_trace session_result.tool_trace)
      ∷ (
        ArtifactId.metrics,
        Payload.metrics (record {
          schema_version = "1.0";
          request_id = request.request_id;
          run_id = request.run_id;
          session_id = some session_result.session_id;
          status = session_status_value session_result.status;
          usage = session_result.usage;
        }),
      )
      ∷ (
        ArtifactId.execution_summary,
        Payload.execution_summary (record {
          schema_version = "1.0";
          request_id = request.request_id;
          run_id = request.run_id;
          stage = request.stage;
          status = status;
          result_class = result_class;
          diagnostic_error_code = none;
          terminal_certainty = TerminalCertainty.committed;
        }),
      )
      ∷ [])
    ++ (diagnostic_write session_result.diagnostic
        ++ (
          ArtifactId.artifact_manifest,
          Payload.artifact_manifest (record {
            schema_version = "1.0";
            request_id = request.request_id;
            run_id = request.run_id;
            artifacts = map artifact_key (
                (ArtifactId.terminal_result ∷ ArtifactId.events ∷ ArtifactId.tool_trace
                  ∷ ArtifactId.metrics ∷ ArtifactId.execution_summary ∷ [])
                ++ if_diagnostic (is_some session_result.diagnostic));
          }),
        )
          ∷ [])

module _ (env : Env) where
  -- A call of the artifact writer.
  abbrev pub finish_write : ArtifactRef → Payload → Option Exn → Exec Unit
  finish_write ref payload none = record_effect (Effect.wrote ref payload)
  finish_write ref payload (some e) = throw e

  unfoldable pub write_artifact : ArtifactId → Payload → Exec Unit
  write_artifact i payload = do
    n ← tick
    finish_write (build_artifact_ref i) payload (env.write (build_artifact_ref i) payload n)

  unfoldable pub write_session_records : Option GuardedSessionResult → Exec Unit
  write_session_records none = pure tt
  write_session_records (some session) = do
    write_artifact ArtifactId.events (Payload.events session.events)
    write_artifact ArtifactId.tool_trace (Payload.tool_trace session.tool_trace)

  unfoldable pub write_optional_diagnostic : Option DiagnosticMetadata → Exec Unit
  write_optional_diagnostic none = pure tt
  write_optional_diagnostic (some d) = write_artifact ArtifactId.diagnostic (Payload.diagnostic d)

  -- `_write_non_terminal_artifacts`
  unfoldable pub write_non_terminal_artifacts :
      HarnessExecutionRequest
      → ExecutionStatus
      → ExecutionResultClass
      → Option GuardedSessionResult
      → Option DiagnosticMetadata
      → TerminalCertainty
      → Exec (List ArtifactRef)
  write_non_terminal_artifacts request status result_class session_result diagnosis certainty = do
    write_artifact ArtifactId.execution_summary (
        Payload.execution_summary (record {
          schema_version = "1.0";
          request_id = request.request_id;
          run_id = request.run_id;
          stage = request.stage;
          status = status;
          result_class = result_class;
          diagnostic_error_code = Option.map (λ (d : DiagnosticMetadata). d.error_code) diagnosis;
          terminal_certainty = certainty;
        }))
    write_artifact ArtifactId.metrics (
        Payload.metrics (record {
          schema_version = "1.0";
          request_id = request.request_id;
          run_id = request.run_id;
          session_id = Option.map (λ (r : GuardedSessionResult). r.session_id) session_result;
          status = metrics_status status session_result;
          usage = session_usage session_result;
        }))
    write_session_records session_result
    write_optional_diagnostic diagnosis
    let artifact_ids = non_terminal_artifact_ids (is_some session_result) (is_some diagnosis)
    write_artifact ArtifactId.artifact_manifest (
        Payload.artifact_manifest (record {
          schema_version = "1.0";
          request_id = request.request_id;
          run_id = request.run_id;
          artifacts = map artifact_key artifact_ids;
        }))
    pure (map build_artifact_ref (artifact_ids ++ ArtifactId.artifact_manifest ∷ []))

  -- The handlers of the write of the terminal result.
  unfoldable pub ambiguous_commit : Exn → Option (Exec Unit)
  ambiguous_commit e = elim e.kind [
    | ExnKind.operation_cancelled ↦ some (
        throw (record {
          kind = ExnKind.ambiguous_terminal_commit FailureOrigin.already_cancelled;
          message = e.message;
        }))
    | ExnKind.deadline_exceeded ↦ some (
        throw (record {
          kind = ExnKind.ambiguous_terminal_commit FailureOrigin.expired_deadline;
          message = e.message;
        }))
    | _ ↦ none
  ]

  abbrev pub stop_finalizing : Exn → Option (Exec Bool)
  stop_finalizing e = elim e.kind [
    | ExnKind.operation_cancelled ↦ some (pure false)
    | ExnKind.deadline_exceeded ↦ some (pure false)
    | _ ↦ none
  ]

  -- `_checkpoint_after_terminal_commit`
  unfoldable pub checkpoint_after_terminal_commit : Deadline → Exec Bool
  checkpoint_after_terminal_commit deadline =
      try_except (do checkpoint_invocation env deadline; pure true) stop_finalizing

  -- The artifacts of steps 17 to 20: each is written unless the checkpoint before it stops the
  -- method, which then returns.
  unfoldable pub write_after_commit : Deadline → List (ArtifactId × Payload) → Exec Unit
  write_after_commit deadline [] = pure tt
  write_after_commit deadline ((i, payload) ∷ rest) = do
    go_on ← checkpoint_after_terminal_commit deadline
    if go_on then (do write_artifact i payload; write_after_commit deadline rest) else pure tt

  -- `_write_artifacts`
  unfoldable pub write_artifacts :
      HarnessExecutionRequest
      → GuardedSessionResult
      → TerminalIntent
      → ExecutionResultClass
      → ExecutionStatus
      → Deadline
      → Exec Unit
  write_artifacts request session_result terminal_intent result_class status deadline = do
    checkpoint_invocation env deadline
    try_except
        (write_artifact ArtifactId.terminal_result
          (terminal_result_payload request terminal_intent result_class))
        ambiguous_commit
    write_after_commit deadline (post_commit_writes request session_result result_class status)
