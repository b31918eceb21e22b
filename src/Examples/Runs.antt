-- ===== src/Examples/Runs.antt =====
-- Runs of a service without history, and two processes at the lock.
use incremental_sync_data_se.Base.{
  ◌≡◌, ◌≢◌, refl, os_error, true, false, some, none, [], ◌∷◌, ok, nat_eq, list_eq, string_eq,
}
use incremental_sync_data_se.Base.Dict
use incremental_sync_data_se.Base.Sort.{codes}
use incremental_sync_data_se.Json
use incremental_sync_data_se.Machine.{Machine, done, raised}
use incremental_sync_data_se.Machine.Tree.{FilePath, dir, file, node_at, exists, is_under}
use incremental_sync_data_se.FileSystem.{write_bytes_atomic}
use incremental_sync_data_se.FileSystem.Frame.{file_at}
use incremental_sync_data_se.Domain.Checkpoint.{initial}
use incremental_sync_data_se.Domain.Tables.{all_tables}
use incremental_sync_data_se.Platform.{Platform}
use incremental_sync_data_se.Source.Sorting.{sort_with}
use incremental_sync_data_se.Pipeline.Staging.{
  RunStagingDir, root, checkpoint_path, is_ready, ready_marker_path, commit_plan_path,
}
use incremental_sync_data_se.Orchestrator.Locked.Stuck.{run_locked-stuck}
use incremental_sync_data_se.Pipeline.Commit.{resume_pending, run_dirs}
use incremental_sync_data_se.Orchestrator.Stage.{Settings, runs_dir, lock_path, Store, Predictions}
use incremental_sync_data_se.Orchestrator.Locked.{Service, Manifest, run_locked, stage_run}
use incremental_sync_data_se.Orchestrator.Locked.DryRun.{run_locked-dry}
use incremental_sync_data_se.Orchestrator.Locked.Staged.{StagesWithin, stage_run-outside}
use incremental_sync_data_se.FileSystem.Crash.{is_under_refl}
use incremental_sync_data_se.FileSystem.Within.{is_under-parent_join, Keeps-write_bytes_atomic}
use incremental_sync_data_se.Api.{manifest, ingest}
use incremental_sync_data_se.Api.Held.{ingest-held}

abbrev pub sys : Platform
sys = record {
  random_part = λ fs p. codes "tmp";
  loads = λ b. ok (Json.str b);
  removal_order = λ l. l;
  hexdigest = λ b. codes "00000000";
  stdout_open = λ l. true;
  clock = λ n. n;
}

abbrev settings : Settings
settings = record {
  database_url = codes "host=db";
  app_host = codes "0.0.0.0";
  app_port = 8000;
  state_dir = codes "state" ∷ [];
  lake_root = codes "lake" ∷ [];
  share_root = codes "share" ∷ [];
  events_root = codes "events" ∷ [];
  run_id_hex_prefix_len = 16;
}

-- a store that stages a file of one line
abbrev pub store : Store
store = record {
  load = λ fs. ok (initial ("customers" ∷ "cases" ∷ []));
  stage = λ cp path. write_bytes_atomic sys.random_part path (codes "{}\n");
}

abbrev pub svc : Service
svc = record {
  sys = sys;
  settings = settings;
  store = store;
  database = record { answer = λ calls c. ok [] };
  repository = record { factory = record { dsn = codes "host=db" }; fetch_size = 1000 };
  specs = all_tables;
}

abbrev pub machine : Machine
machine = record {
  fs = (codes "lake" ∷ codes "x" ∷ [], file (codes "old")) ∷ [];
  power = some 30;
  reads = 0;
  stdout = [];
}

pub nothing_pending : resume_pending sys (runs_dir settings) machine ≡ (done [], machine)
unfolding resume_pending exists Dict.lookup nat_eq list_eq runs_dir
nothing_pending = refl

run_locked-dry_example : (run_locked svc true machine).1.fs ≡ machine.fs
run_locked-dry_example = run_locked-dry svc machine machine [] nothing_pending

abbrev d : RunStagingDir
d = record { runs_root = codes "state" ∷ codes "runs" ∷ []; run_id = codes "0000" }

within : StagesWithin store d
unfolding checkpoint_path
within = record {
  stays = λ q b cp outside.
      Keeps-write_bytes_atomic sys.random_part (root d) q outside (checkpoint_path d) (codes "{}\n")
        (is_under-parent_join (root d) (root d) _ (is_under_refl (root d)));
}

abbrev pub predictions : Predictions
predictions = record {
  run_id = codes "0000";
  deltas = ("customers", []) ∷ ("cases", []) ∷ [];
  fingerprints = ("customers", codes "f") ∷ ("cases", codes "g") ∷ [];
  cp_after = initial ("customers" ∷ "cases" ∷ []);
  lake_paths = ("customers", []) ∷ ("cases", []) ∷ [];
  share_path = ("customers", none) ∷ ("cases", none) ∷ [];
}

abbrev live : FilePath
live = codes "lake" ∷ codes "x" ∷ []

live_outside : is_under (root d) live ≡ false
unfolding is_under root nat_eq list_eq
live_outside = refl

stage_run-outside_example :
    file_at live (stage_run svc d predictions machine).1.fs ≡ file_at live machine.fs
stage_run-outside_example = stage_run-outside svc d predictions machine within live live_outside

ingest-held_example :
    ((x : Manifest) → (ingest svc true false machine).0 ≢ manifest x)
    × ((q : FilePath)
        → q ≢ lock_path settings
        → file_at q (ingest svc true false machine).1.fs ≡ file_at q machine.fs)
ingest-held_example = ingest-held svc false machine

-- a run that lost its plan and kept its marker
abbrev stranded : Machine
stranded = record machine {
  fs =
      (codes "state" ∷ codes "runs" ∷ [], dir)
      ∷ (codes "state" ∷ codes "runs" ∷ codes "0000" ∷ [], dir)
      ∷ (codes "state" ∷ codes "runs" ∷ codes "0000" ∷ codes "READY" ∷ [], file (codes "READY\n"))
      ∷ [];
}

runs_there : exists (runs_dir settings) stranded.fs ≡ true
unfolding exists runs_dir Dict.lookup nat_eq list_eq
runs_there = refl

one_run : run_dirs (runs_dir settings) stranded.fs ≡ codes "0000" ∷ []
unfolding run_dirs runs_dir sort_with nat_eq list_eq
one_run = refl

marker_there :
    is_ready (record { runs_root = runs_dir settings; run_id = codes "0000" }) stranded.fs ≡ true
unfolding is_ready ready_marker_path root exists runs_dir Dict.lookup nat_eq list_eq
marker_there = refl

plan_gone :
    node_at
      (commit_plan_path (record { runs_root = runs_dir settings; run_id = codes "0000" }))
      stranded.fs
    ≡ none
unfolding commit_plan_path root runs_dir Dict.lookup nat_eq list_eq
plan_gone = refl

run_locked-stuck_example : run_locked svc false stranded ≡ (raised os_error, stranded)
run_locked-stuck_example =
    run_locked-stuck svc stranded (codes "0000") [] false runs_there one_run marker_there plan_gone
