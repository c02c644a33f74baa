-- ===== src/Publishing/Tests.antt =====
-- A small learning package, runs of the publishing API on it, and the theorems at these inputs.
mod Sample
mod Changes
mod Publishes
