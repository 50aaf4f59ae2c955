-- ===== src/Runtime.antt =====
-- The harness runtime, src/millforge/runtime.py, with the contracts of src/millforge/contracts.py
-- that it reads and builds.
pub mod States
pub mod Contracts
pub mod Payloads
pub mod Classify
pub mod Effects
pub mod Machine
pub mod Preflight
pub mod ArtifactRefs
pub mod Artifacts
pub mod Results
pub mod Terminal
pub mod Clauses
pub mod Guard
pub mod Steps
pub mod Execute
pub mod Logic
pub mod Quiet
pub mod Sample
pub mod Tests
