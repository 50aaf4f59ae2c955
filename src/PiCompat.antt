-- ===== src/PiCompat.antt =====
-- The text tools of src/millforge/tools/pi_compat. A Python text is the list of its code points,
-- since it may hold a lone surrogate.
pub mod Truncation
pub mod LineEndings
pub mod Replacements
pub mod Tests
