-- ===== src/Orchestrator/Locked.antt =====
-- `_run_locked`: the whole run under the lock, and the manifest that it returns.
pub mod DryRun
pub mod Staged
pub mod Stuck
pub mod Marker
pub mod Zones
pub mod Places
pub mod Placed
pub mod Committable
pub mod AllOrNothing
pub mod Published
use incremental_sync_data_se.Base.{
  ℕ, ◌+◌, String, Bool, true, false, Option, none, some, List, [], ◌∷◌, Result, ok, err, os_error,
  ingest_in_progress, length, map, if◌then◌else◌, nat_eq, list_eq,
}
use incremental_sync_data_se.Base.Errors.{◌>>=◌ as ◌>>>=◌}
use incremental_sync_data_se.Time.{Text}
use incremental_sync_data_se.Json.{Value}
use incremental_sync_data_se.Machine.Tree.{
  FilePath, Node, dir, file, Fs, node_at, parent, write_file,
}
use incremental_sync_data_se.Machine.{M, ◌>>=◌, ◌>>◌, raise, lift, effect, done}
use incremental_sync_data_se.FileSystem.{ensure_dir}
use incremental_sync_data_se.Domain.Checkpoint.{Checkpoint, TableWatermark, to_dict}
use incremental_sync_data_se.Domain.Tables.{TableSpec, spec_by_name}
use incremental_sync_data_se.Source.Connection.{Database}
use incremental_sync_data_se.Source.Session.{IncrementalSourceRepository}
use incremental_sync_data_se.Platform.{Platform}
use incremental_sync_data_se.Pipeline.RunId.{compute_run_id, compute_schema_fingerprint}
use incremental_sync_data_se.Pipeline.Advance.{advance_checkpoint, build_row_identities}
use incremental_sync_data_se.Pipeline.Plan.{path_text}
use incremental_sync_data_se.Pipeline.Staging.{
  RunStagingDir, make, ensure_layout, write_commit_plan, mark_ready, read,
}
use incremental_sync_data_se.Pipeline.Commit.{commit, resume_pending}
use incremental_sync_data_se.Outputs.Lake.{predict_partitions}
use incremental_sync_data_se.Outputs.Share.{predict_share_path}
use incremental_sync_data_se.Outputs.Events.{emit_to_stdout}
use incremental_sync_data_se.Orchestrator.Fetch.{fetch_deltas}
use incremental_sync_data_se.Orchestrator.Stage.{
  Settings, runs_dir, lock_path, Store, at, for_tables, Predictions, optional_text, build_events,
  stage_outputs,
}

-- the constructor's arguments
pub record Service : Type 0 where
  pub sys : Platform
  pub settings : Settings
  pub store : Store
  pub database : Database
  pub repository : IncrementalSourceRepository
  pub specs : List TableSpec

pub record TableManifest : Type 0 where
  pub table : String
  pub delta_row_count : ℕ
  pub lake_paths : List Text
  pub share_path : Option Text
  pub schema_fingerprint : Text

pub record Manifest : Type 0 where
  pub run_id : Text
  pub started_at : ℕ
  pub finished_at : ℕ
  pub dry_run : Bool
  pub checkpoint_before : Value
  pub checkpoint_after : Value
  pub tables : List TableManifest

abbrev table_manifest : Predictions → TableSpec → Result TableManifest
table_manifest p spec = at p.share_path spec.name >>>= λ share. at p.deltas spec.name >>>= λ rows.
    at p.lake_paths spec.name >>>= λ lake. at p.fingerprints spec.name >>>= λ fingerprint.
    ok (record {
      table = spec.name;
      delta_row_count = length rows;
      lake_paths = map path_text lake;
      share_path = optional_text share;
      schema_fingerprint = fingerprint;
    })

pub table_manifests : Predictions → List TableSpec → Result (List TableManifest)
table_manifests p [] = ok []
table_manifests p (spec ∷ specs) =
    table_manifest p spec >>>= λ t. table_manifests p specs >>>= λ ts. ok (t ∷ ts)

-- the defaults of `compute_schema_fingerprint`
abbrev pub fingerprint_prefix_len : ℕ
fingerprint_prefix_len = 16

module _ (svc : Service) where
  open svc use {sys, settings, store, database, repository, specs}

  unfoldable pub build_manifest : Predictions → Checkpoint → ℕ → ℕ → Bool → Result Manifest
  unfolding table_manifests
  build_manifest p cp_before started_at finished_at dry_run = table_manifests p specs >>>= λ tables.
      to_dict cp_before >>>= λ before. to_dict p.cp_after >>>= λ after. ok (record {
        run_id = p.run_id;
        started_at = started_at;
        finished_at = finished_at;
        dry_run = dry_run;
        checkpoint_before = before;
        checkpoint_after = after;
        tables = tables;
      })

  -- steps 3 to 5 of a run: everything that is computed from the checkpoint and the source
  unfoldable pub predict : Checkpoint → Result Predictions
  predict cp_before = (fetch_deltas database repository cp_before specs []).0 >>>= λ deltas.
      to_dict cp_before >>>= λ before.
      build_row_identities (spec_by_name specs) deltas >>>= λ identities.
      compute_run_id sys.hexdigest before identities settings.run_id_hex_prefix_len >>>= λ run_id.
      advance_checkpoint (spec_by_name specs) deltas cp_before >>>= λ cp_after.
      for_tables (λ spec. compute_schema_fingerprint sys.hexdigest spec fingerprint_prefix_len)
        specs
      >>>= λ fingerprints.
          for_tables (λ spec. at deltas spec.name >>>= predict_partitions settings.lake_root spec)
            specs
          >>>= λ lake_paths.
              for_tables
                (λ spec. at deltas spec.name >>>= λ rows.
                  ok (predict_share_path settings.share_root spec rows))
                specs
              >>>= λ share_path. ok (record {
                run_id = run_id;
                deltas = deltas;
                fingerprints = fingerprints;
                cp_after = cp_after;
                lake_paths = lake_paths;
                share_path = share_path;
              })

  -- `clock.now_utc()`
  unfoldable pub now_utc : M ℕ
  now_utc m = (done (sys.clock m.reads), record m { reads = m.reads + 1 })

  -- the outputs, the plan and the marker, in the run's staging directory
  unfoldable pub stage_run : RunStagingDir → Predictions → M (Unit {0})
  stage_run staging p = do
    ensure_layout staging
    steps ← stage_outputs sys settings store staging p specs
    write_commit_plan sys staging steps
    mark_ready sys staging

  unfoldable pub publish : Predictions → M (Unit {0})
  publish p = do
    staging ← lift (make (runs_dir settings) p.run_id)
    stage_run staging p
    commit sys staging

  unfoldable pub emit_stdout_events : Predictions → M (Unit {0})
  emit_stdout_events p = do events ← lift (build_events p specs); emit_to_stdout sys events

  unfoldable pub real_run : Checkpoint → ℕ → Predictions → M Manifest
  unfolding publish emit_stdout_events
  real_run cp_before started_at p = do
    publish p
    emit_stdout_events p
    finished_at ← now_utc
    lift (build_manifest p cp_before started_at finished_at false)

  unfoldable pub planned_run : Checkpoint → ℕ → Predictions → M Manifest
  planned_run cp_before started_at p = do
    finished_at ← now_utc
    lift (build_manifest p cp_before started_at finished_at true)

  unfoldable pub run_locked : Bool → M Manifest
  run_locked dry_run = do
    resumed ← resume_pending sys (runs_dir settings)
    started_at ← now_utc
    cp_before ← read store.load
    p ← lift (predict cp_before)
    if dry_run then planned_run cp_before started_at p else real_run cp_before started_at p

  unfoldable pub startup_resume : M (List Text)
  startup_resume = resume_pending sys (runs_dir settings)

  -- `os.open(path, O_CREAT)`: the lock's file is made if it is missing; a directory cannot be opened
  abbrev pub opened : Option Node → Fs → Result Fs → Result Fs
  opened none fs created = created
  opened (some (file b)) fs created = ok fs
  opened (some dir) fs created = err os_error

  unfoldable pub open_lock_file : FilePath → Fs → Result Fs
  open_lock_file path fs = opened (node_at path fs) fs (write_file path [] fs)

  -- `run`: `held` says whether another process holds the lock, which the kernel tells
  unfoldable pub run : Bool → Bool → M Manifest
  unfolding open_lock_file
  run held dry_run = do
    ensure_dir (parent (lock_path settings))
    effect (open_lock_file (lock_path settings))
    if held then raise ingest_in_progress else run_locked dry_run
