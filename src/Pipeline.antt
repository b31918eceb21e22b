-- ===== src/Pipeline.antt =====
-- The pipeline package.
pub mod RunId
pub mod Advance
pub mod Plan
pub mod Staging
pub mod Commit
pub mod Lock
