-- ===== src/Examples.antt =====
-- Each theorem of the list in the root's header, at data that a small deployment could have.
mod Deltas
mod Documents
mod Commits
mod Sweeps
mod Runs
mod Reads
mod Locks
mod Checkpoints
mod Services
mod Orders
mod Publications
mod Published
mod Partitions
mod Lines
mod Manifests
