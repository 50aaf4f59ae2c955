-- ===== src/Tools.antt =====
-- The tools of src/millforge/tools: the policy of their paths.
pub mod PathPolicy
mod Tests
