-- ===== src/Orchestrator.antt =====
-- pipeline/orchestrator.py, domain/manifest.py and the paths of core/config.py: one ingest run.
-- The checkpoint store's module is not in the repository: it is a parameter.
pub mod Fetch
pub mod Stage
pub mod Locked
pub mod CheckpointLast
pub mod Document
pub use Stage.{
  Settings, runs_dir, checkpoint_file, lock_path, Store, for_tables, Predictions, build_events,
  stage_outputs,
}
pub use Locked.{Service, Manifest, TableManifest}
unfoldable pub use Locked.{
  build_manifest, predict, planned_run, real_run, publish, run_locked, run, startup_resume,
}
