-- ===== src/Compiler.antt =====
-- The compiler of src/millforge/compiler: its validation of a harness graph, and of
-- the capabilities that its tools require.
pub mod Collections
pub mod Source
pub mod Diagnostics
pub mod Graph
pub mod Capabilities
mod Tests
