-- ===== src/Examples/Manifests.antt =====
-- A run of two tables without new rows, dry and real.
use incremental_sync_data_se.Base.{
  ℕ, All, ◌≢◌, String, pos, ◌≡◌, refl, Bool, true, false, some, none, List, [], ◌∷◌, ok, string_eq,
  nat_eq, list_eq, traverse,
}
use incremental_sync_data_se.Base.Dict
use incremental_sync_data_se.Base.Sort.{codes, sort_by, str_le}
use incremental_sync_data_se.Time.{Text, iso_utc_z}
use incremental_sync_data_se.Time.Print.{digits, decimal}
use incremental_sync_data_se.Json
use incremental_sync_data_se.Json.{
  Value, object, str, int, field, end, dumps, object_text, quote, bracket, int_text, encode_utf8,
  canonical_json_line, canonical_json_bytes, pretty_json_bytes,
}
use incremental_sync_data_se.Machine.{Machine, Outcome, crashed, done, effect}
use incremental_sync_data_se.Machine.Tree.{
  file, exists, is_under, parent, file_name, mkdir, os_replace, write_file, remove, below,
}
use incremental_sync_data_se.FileSystem.{
  make_dirs, ensure_dir, temp_file, fill_temp, write_bytes_atomic, atomic_rename,
}
use incremental_sync_data_se.Domain.Checkpoint.{initial, to_dict, watermark_dict, fields_of}
use incremental_sync_data_se.Domain.Tables.{all_tables}
use incremental_sync_data_se.FileSystem.Frame.{file_at}
use incremental_sync_data_se.Pipeline.Commit.Steps.{Away}
use incremental_sync_data_se.Orchestrator.CheckpointLast.{stage_outputs-checkpoint_last}
use incremental_sync_data_se.Platform.{Platform}
use incremental_sync_data_se.Json.Access.{field_at}
use incremental_sync_data_se.Pipeline.Plan.{
  CommitStep, plan_dict, plan_from_dict, path_text, path_of,
}
use incremental_sync_data_se.Pipeline.Staging.{
  RunStagingDir, make, root, checkpoint_path, commit_plan_path, ready_marker_path, lake_dir,
  share_dir, events_dir, ensure_layout, is_ready, read_bytes, plan_in, load_commit_plan,
  write_commit_plan, mark_ready, remove_all, rmtree, cleanup,
}
use incremental_sync_data_se.Pipeline.Commit.{commit, finish, execute_steps, execute_step}
use incremental_sync_data_se.Outputs.Lake.{stage_partitions}
use incremental_sync_data_se.Outputs.Share.{stage_share}
use incremental_sync_data_se.Outputs.Events.{stage_events, event_dict, emit_to_stdout}
use incremental_sync_data_se.Orchestrator.Stage.{
  Settings, runs_dir, checkpoint_file, Store, Predictions, build_events, stage_lake, stage_shares,
  share_steps, stage_outputs, checkpoint_step,
}
use incremental_sync_data_se.Orchestrator.Locked.{
  Service, Manifest, TableManifest, now_utc, stage_run, publish, emit_stdout_events, real_run,
  planned_run, build_manifest,
}
use incremental_sync_data_se.Orchestrator.Locked.DryRun.{planned_run-real_run}

abbrev pub sys : Platform
sys = record {
  random_part = λ fs p. codes "tmp";
  loads = λ b. ok (Json.str b);
  removal_order = λ l. l;
  hexdigest = λ b. codes "00000000";
  stdout_open = λ l. true;
  clock = λ n. n;
}

abbrev pub settings : Settings
settings = record {
  database_url = codes "host=db";
  app_host = codes "0.0.0.0";
  app_port = 8000;
  state_dir = codes "state" ∷ [];
  lake_root = codes "lake" ∷ [];
  share_root = codes "share" ∷ [];
  events_root = codes "events" ∷ [];
  run_id_hex_prefix_len = 16;
}

abbrev pub store : Store
store = record {
  load = λ fs. ok (initial ("customers" ∷ "cases" ∷ []));
  stage = λ cp path. write_bytes_atomic sys.random_part path (codes "{}\n");
}

abbrev pub svc : Service
svc = record {
  sys = sys;
  settings = settings;
  store = store;
  database = record { answer = λ calls c. ok [] };
  repository = record { factory = record { dsn = codes "host=db" }; fetch_size = 1000 };
  specs = all_tables;
}

abbrev pub predictions : Predictions
predictions = record {
  run_id = codes "0000";
  deltas = ("customers", []) ∷ ("cases", []) ∷ [];
  fingerprints = ("customers", codes "f") ∷ ("cases", codes "g") ∷ [];
  cp_after = initial ("customers" ∷ "cases" ∷ []);
  lake_paths = ("customers", []) ∷ ("cases", []) ∷ [];
  share_path = ("customers", none) ∷ ("cases", none) ∷ [];
}

abbrev pub machine : Machine
machine = record {
  fs = (codes "lake" ∷ codes "x" ∷ [], file (codes "old")) ∷ [];
  power = some 30;
  reads = 1;
  stdout = [];
}

-- a service whose plan is read back, and a process that is not cut off
abbrev pub events_step : CommitStep
events_step = record {
  staged_path =
      codes "state" ∷ codes "runs" ∷ codes "0000" ∷ codes "events" ∷ codes "0000.jsonl" ∷ [];
  live_path = codes "events" ∷ codes "0000.jsonl" ∷ [];
  label = Json.str (codes "events");
}

abbrev pub last_step : CommitStep
last_step = record {
  staged_path = codes "state" ∷ codes "runs" ∷ codes "0000" ∷ codes "checkpoint.json" ∷ [];
  live_path = codes "state" ∷ codes "checkpoint.json" ∷ [];
  label = Json.str (codes "checkpoint");
}

abbrev pub steps : List CommitStep
steps = events_step ∷ last_step ∷ []

abbrev reading : Service
reading = record svc { sys = record sys { loads = λ b. ok (plan_dict steps) } }

abbrev fresh : Machine
fresh = record machine { power = none; reads = 4 }

abbrev mark_of_none : Value
mark_of_none =
    object
      (field "updated_at" (str (codes "0001-01-01T00:00:00Z")) (field "last_pk" (int (pos 0)) end))

abbrev before : Value
before = object (field "cases" mark_of_none (field "customers" mark_of_none end))

abbrev table_answer : String → Text → TableManifest
table_answer name fingerprint = record {
  table = name;
  delta_row_count = 0;
  lake_paths = [];
  share_path = none;
  schema_fingerprint = fingerprint;
}

abbrev answer : ℕ → Bool → Manifest
answer t dry_run = record {
  run_id = codes "0000";
  started_at = 0;
  finished_at = t;
  dry_run = dry_run;
  checkpoint_before = before;
  checkpoint_after = before;
  tables = table_answer "customers" (codes "f") ∷ table_answer "cases" (codes "g") ∷ [];
}

abbrev real_end : Machine
real_end = (real_run reading (initial ("customers" ∷ "cases" ∷ [])) 0 predictions fresh).1

abbrev planned_end : Machine
planned_end = (planned_run reading (initial ("customers" ∷ "cases" ∷ [])) 0 predictions machine).1

real_answers :
    real_run reading (initial ("customers" ∷ "cases" ∷ [])) 0 predictions fresh
    ≡ (done (answer 4 false), real_end)
unfolding real_run planned_run publish stage_run emit_stdout_events now_utc build_manifest make root
    checkpoint_path commit_plan_path ready_marker_path lake_dir share_dir events_dir ensure_layout
    is_ready read_bytes plan_in load_commit_plan write_commit_plan mark_ready remove_all rmtree
    cleanup commit finish execute_steps execute_step stage_partitions stage_share stage_events
    event_dict emit_to_stdout build_events stage_lake stage_shares share_steps stage_outputs
    runs_dir checkpoint_file make_dirs ensure_dir temp_file fill_temp write_bytes_atomic
    atomic_rename effect exists is_under parent file_name mkdir os_replace write_file remove below
    Dict.lookup Dict.insert Dict.erase Dict.keys initial to_dict watermark_dict fields_of dumps
    object_text quote bracket int_text encode_utf8 canonical_json_line canonical_json_bytes
    pretty_json_bytes sort_by str_le iso_utc_z digits decimal plan_dict plan_from_dict path_text
    path_of field_at string_eq nat_eq list_eq traverse
real_answers = refl

planned_answers :
    planned_run reading (initial ("customers" ∷ "cases" ∷ [])) 0 predictions machine
    ≡ (done (answer 1 true), planned_end)
unfolding real_run planned_run publish stage_run emit_stdout_events now_utc build_manifest make root
    checkpoint_path commit_plan_path ready_marker_path lake_dir share_dir events_dir ensure_layout
    is_ready read_bytes plan_in load_commit_plan write_commit_plan mark_ready remove_all rmtree
    cleanup commit finish execute_steps execute_step stage_partitions stage_share stage_events
    event_dict emit_to_stdout build_events stage_lake stage_shares share_steps stage_outputs
    runs_dir checkpoint_file make_dirs ensure_dir temp_file fill_temp write_bytes_atomic
    atomic_rename effect exists is_under parent file_name mkdir os_replace write_file remove below
    Dict.lookup Dict.insert Dict.erase Dict.keys initial to_dict watermark_dict fields_of dumps
    object_text quote bracket int_text encode_utf8 canonical_json_line canonical_json_bytes
    pretty_json_bytes sort_by str_le iso_utc_z digits decimal plan_dict plan_from_dict path_text
    path_of field_at string_eq nat_eq list_eq traverse
planned_answers = refl

planned_run-real_run_example :
    answer 4 false ≡ record (answer 1 true) { finished_at = 4; dry_run = false }
planned_run-real_run_example =
    planned_run-real_run reading (initial ("customers" ∷ "cases" ∷ [])) 0 predictions machine fresh
      planned_end real_end (answer 1 true) (answer 4 false) planned_answers real_answers

abbrev staging : RunStagingDir
staging = record { runs_root = codes "state" ∷ codes "runs" ∷ []; run_id = codes "0000" }

abbrev staged_end : Machine
staged_end = (stage_outputs reading.sys settings store staging predictions all_tables fresh).1

staged :
    stage_outputs reading.sys settings store staging predictions all_tables fresh
    ≡ (done (events_step ∷ last_step ∷ []), staged_end)
unfolding real_run planned_run publish stage_run emit_stdout_events now_utc build_manifest make root
    checkpoint_path commit_plan_path ready_marker_path lake_dir share_dir events_dir ensure_layout
    is_ready read_bytes plan_in load_commit_plan write_commit_plan mark_ready remove_all rmtree
    cleanup commit finish execute_steps execute_step stage_partitions stage_share stage_events
    event_dict emit_to_stdout build_events stage_lake stage_shares share_steps stage_outputs
    runs_dir checkpoint_file make_dirs ensure_dir temp_file fill_temp write_bytes_atomic
    atomic_rename effect exists is_under parent file_name mkdir os_replace write_file remove below
    Dict.lookup Dict.insert Dict.erase Dict.keys initial to_dict watermark_dict fields_of dumps
    object_text quote bracket int_text encode_utf8 canonical_json_line canonical_json_bytes
    pretty_json_bytes sort_by str_le iso_utc_z digits decimal plan_dict plan_from_dict path_text
    path_of field_at string_eq nat_eq list_eq traverse
staged = refl

abbrev weak : Machine
weak = record fresh { fs = (events_step.staged_path, file (codes "{}")) ∷ []; power = some 1 }

abbrev weak_end : Machine
weak_end = (execute_steps (events_step ∷ last_step ∷ []) weak).1

cut_off : execute_steps (events_step ∷ last_step ∷ []) weak ≡ (crashed, weak_end)
unfolding execute_steps execute_step exists atomic_rename ensure_dir parent make_dirs effect mkdir
    os_replace Dict.lookup Dict.insert nat_eq list_eq
cut_off = refl

away : All (Away (checkpoint_file settings)) (events_step ∷ [])
unfolding checkpoint_file
away = ((λ p. cc, λ p. cc), tt)

abbrev stopped : Outcome (Unit {0})
stopped = crashed

is_cut : stopped ≢ done tt
is_cut p = cc

stage_outputs-checkpoint_last_example :
    (last_step ≡ checkpoint_step reading.sys settings store staging predictions)
    × (file_at (checkpoint_file settings) weak_end.fs ≡ file_at (checkpoint_file settings) weak.fs)
stage_outputs-checkpoint_last_example =
    stage_outputs-checkpoint_last reading.sys settings store staging predictions all_tables fresh
      staged_end weak weak_end (events_step ∷ []) last_step stopped staged away cut_off is_cut
