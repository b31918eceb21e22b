-- ===== src/Outputs.antt =====
-- The outputs package: what is staged for the lake, the share and the events.
pub mod Lake
pub mod Share
pub mod Events
pub mod Counted
