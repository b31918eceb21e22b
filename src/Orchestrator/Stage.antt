-- ===== src/Orchestrator/Stage.antt =====
-- The parts of a run up to the commit plan: deltas, predictions, events and the staging of every
-- output.
pub mod Reported
use incremental_sync_data_se.Base.{
  ℕ, String, Option, none, some, List, [], ◌∷◌, ◌++◌, Result, ok, key_error, or_raise, map, length,
  string_eq,
}
use incremental_sync_data_se.Base.Errors.{◌>>=◌ as ◌>>>=◌}
use incremental_sync_data_se.Base.Dict
use incremental_sync_data_se.Base.Dict.{Dict}
use incremental_sync_data_se.Base.Sort.{codes}
use incremental_sync_data_se.Time.{Text}
use incremental_sync_data_se.Json.{Value, str}
use incremental_sync_data_se.Machine.Tree.{FilePath, Fs, ◌/◌}
use incremental_sync_data_se.Machine.{M, ◌>>=◌, ◌>>◌, pure, lift}
use incremental_sync_data_se.Domain.Checkpoint.{Checkpoint, to_dict}
use incremental_sync_data_se.Domain.Tables.{TableSpec}
use incremental_sync_data_se.Source.{Row}
use incremental_sync_data_se.Platform.{Platform}
use incremental_sync_data_se.Pipeline.Plan.{CommitStep, path_text}
use incremental_sync_data_se.Pipeline.Staging.{
  RunStagingDir, lake_dir, share_dir, events_dir, checkpoint_path,
}
use incremental_sync_data_se.Outputs.Lake.{StagedLakePartition, stage_partitions}
use incremental_sync_data_se.Outputs.Share.{StagedShareFile, stage_share}
use incremental_sync_data_se.Outputs.Events.{Event, StagedEventFile, stage_events}

-- core/config.py
pub record Settings : Type 0 where
  pub database_url : Text
  pub app_host : Text
  pub app_port : ℕ
  pub state_dir : FilePath
  pub lake_root : FilePath
  pub share_root : FilePath
  pub events_root : FilePath
  pub run_id_hex_prefix_len : ℕ

unfoldable pub checkpoint_file : Settings → FilePath
checkpoint_file s = s.state_dir / codes "checkpoint.json"

unfoldable pub runs_dir : Settings → FilePath
runs_dir s = s.state_dir / codes "runs"

unfoldable pub lock_path : Settings → FilePath
lock_path s = s.state_dir / codes ".ingest.lock"

-- `CheckpointStore`: what `load` makes of the tree, and the file that `stage` writes
pub record Store : Type 0 where
  pub load : Fs → Result Checkpoint
  pub stage : Checkpoint → FilePath → M (Unit {0})

-- `d[name]`
abbrev pub at {ℓ} : {V : Type ℓ} → Dict String V → String → Result V
at d name = or_raise key_error (Dict.lookup name d)

-- `{spec.name: f(spec) for spec in specs}`
module _ {V : Type 0} (f : TableSpec → Result V) where
  unfoldable pub for_each : List TableSpec → Dict String V → Result (Dict String V)
  for_each [] d = ok d
  for_each (spec ∷ specs) d = f spec >>>= λ v. for_each specs (Dict.insert spec.name v d)

  unfoldable pub for_tables : List TableSpec → Result (Dict String V)
  unfolding for_each
  for_tables specs = for_each specs []

-- what both kinds of run compute before anything is written
pub record Predictions : Type 0 where
  pub run_id : Text
  pub deltas : Dict String (List Row)
  pub fingerprints : Dict String Text
  pub cp_after : Checkpoint
  pub lake_paths : Dict String (List FilePath)
  pub share_path : Dict String (Option FilePath)

abbrev pub optional_text : Option FilePath → Option Text
optional_text none = none
optional_text (some p) = some (path_text p)

abbrev pub event_of : Predictions → Value → TableSpec → Result Event
event_of p cp_after spec = at p.share_path spec.name >>>= λ share.
    at p.fingerprints spec.name >>>= λ fingerprint. at p.deltas spec.name >>>= λ rows.
    at p.lake_paths spec.name >>>= λ lake. ok (record {
      table = spec.name;
      run_id = p.run_id;
      schema_fingerprint = fingerprint;
      delta_row_count = length rows;
      lake_paths = map path_text lake;
      share_path = optional_text share;
      checkpoint_after = cp_after;
    })

unfoldable pub events_for : Predictions → Value → List TableSpec → Result (List Event)
events_for p cp_after [] = ok []
events_for p cp_after (spec ∷ specs) =
    event_of p cp_after spec >>>= λ e. events_for p cp_after specs >>>= λ es. ok (e ∷ es)

unfoldable pub build_events : Predictions → List TableSpec → Result (List Event)
unfolding events_for
build_events p specs = to_dict p.cp_after >>>= λ cp_after. events_for p cp_after specs

unfoldable pub lake_steps : List StagedLakePartition → List CommitStep
lake_steps [] = []
lake_steps (part ∷ parts) =
    record {
      staged_path = part.staged_path;
      live_path = part.live_path;
      label = str (codes "lake:" ++ codes part.table ++ b':' ∷ part.date_key);
    }
    ∷ lake_steps parts

unfoldable pub share_steps : TableSpec → Option StagedShareFile → List CommitStep
share_steps spec none = []
share_steps spec (some file) =
    record {
      staged_path = file.staged_path;
      live_path = file.live_path;
      label = str (codes "share:" ++ codes spec.name);
    }
    ∷ []

module _ (sys : Platform) (s : Settings) (store : Store) (staging : RunStagingDir)
    (p : Predictions) where
  unfoldable pub stage_lake : List TableSpec → M (List CommitStep)
  unfolding lake_steps
  stage_lake [] = pure []
  stage_lake (spec ∷ specs) = do
    rows ← lift (at p.deltas spec.name)
    parts ← stage_partitions sys s.lake_root spec (lake_dir staging) rows
    more ← stage_lake specs
    pure (lake_steps parts ++ more)

  unfoldable pub stage_shares : Value → List TableSpec → M (List CommitStep)
  unfolding share_steps
  stage_shares cp_after [] = pure []
  stage_shares cp_after (spec ∷ specs) = do
    rows ← lift (at p.deltas spec.name)
    fingerprint ← lift (at p.fingerprints spec.name)
    file ← stage_share sys s.share_root spec rows p.run_id fingerprint cp_after (share_dir staging)
    more ← stage_shares cp_after specs
    pure (share_steps spec file ++ more)

  unfoldable pub event_step : StagedEventFile → CommitStep
  event_step file = record {
    staged_path = file.staged_path;
    live_path = file.live_path;
    label = str (codes "events");
  }

  unfoldable pub checkpoint_step : CommitStep
  checkpoint_step = record {
    staged_path = checkpoint_path staging;
    live_path = checkpoint_file s;
    label = str (codes "checkpoint");
  }

  -- the lake, the shares, the events, and the checkpoint last
  unfoldable pub stage_outputs : List TableSpec → M (List CommitStep)
  unfolding stage_lake stage_shares event_step checkpoint_step
  stage_outputs specs = do
    lake ← stage_lake specs
    cp_after ← lift (to_dict p.cp_after)
    shares ← stage_shares cp_after specs
    events ← lift (build_events p specs)
    file ← stage_events sys s.events_root events p.run_id (events_dir staging)
    store.stage p.cp_after (checkpoint_path staging)
    pure (lake ++ shares ++ event_step file ∷ checkpoint_step ∷ [])
