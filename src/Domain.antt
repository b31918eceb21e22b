-- ===== src/Domain.antt =====
-- The domain package: checkpoints, the tables' contracts, and the dicts that leave the service.
pub mod Checkpoint
pub mod Tables
