-- ===== src/Tagging/Tests.antt =====
-- Runs of the tagging models, and the theorems about them at concrete inputs.
pub mod Sample
pub mod Objects
pub mod Trees
