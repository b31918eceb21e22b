-- ===== src/Examples/Published.antt =====
-- A publication in a process that is not cut off.
use mathlib.Core.Path.{subst}
use incremental_sync_data_se.Base.{
  none, true, All, arith, ◌≡◌, refl, sym, ap, ◌∙◌, false, some, List, [], ◌∷◌, ok, traverse,
  string_eq, nat_eq, list_eq,
}
use incremental_sync_data_se.Base.Dict
use incremental_sync_data_se.Base.Sort.{codes, sort_by, str_le}
use incremental_sync_data_se.Time.{iso_utc_z}
use incremental_sync_data_se.Time.Print.{digits, decimal}
use incremental_sync_data_se.Json.{
  dumps, object_text, quote, bracket, int_text, encode_utf8, canonical_json_line,
  canonical_json_bytes, pretty_json_bytes,
}
use incremental_sync_data_se.Json.Access.{field_at}
use incremental_sync_data_se.Json.Parsed.{in_order}
use incremental_sync_data_se.Orchestrator.Locked.Committable.{ReadsPlan, staged_steps}
use incremental_sync_data_se.Machine.{Machine, Outcome, done, reboot, effect}
use incremental_sync_data_se.Machine.Tree.{
  Fs, dir, file, FilePath, exists, is_under, parent, file_name, mkdir, os_replace, write_file,
  remove, below, node_at,
}
use incremental_sync_data_se.FileSystem.{
  make_dirs, ensure_dir, temp_file, fill_temp, write_bytes_atomic, atomic_rename,
}
use incremental_sync_data_se.FileSystem.Frame.{file_at}
use incremental_sync_data_se.Domain.Checkpoint.{initial, to_dict, watermark_dict, fields_of}
use incremental_sync_data_se.Pipeline.Plan.{
  CommitStep, plan_dict, plan_from_dict, path_text, path_of,
}
use incremental_sync_data_se.Pipeline.Staging.{
  make, root, checkpoint_path, commit_plan_path, ready_marker_path, lake_dir, share_dir, events_dir,
  ensure_layout, is_ready, read_bytes, plan_in, load_commit_plan, write_commit_plan, mark_ready,
  remove_all, rmtree, cleanup,
}
use incremental_sync_data_se.Pipeline.Commit.{commit, finish, execute_steps, execute_step}
use incremental_sync_data_se.Outputs.Lake.{stage_partitions}
use incremental_sync_data_se.Outputs.Share.{stage_share}
use incremental_sync_data_se.Outputs.Events.{stage_events, event_dict, emit_to_stdout}
use incremental_sync_data_se.Orchestrator.Stage.{
  runs_dir, checkpoint_file, build_events, stage_lake, stage_shares, share_steps, stage_outputs,
}
use incremental_sync_data_se.Orchestrator.Locked.{
  now_utc, stage_run, publish, emit_stdout_events, real_run, planned_run, build_manifest,
}
use incremental_sync_data_se.Examples.Manifests.{
  settings, predictions, machine, steps, events_step, last_step,
}
use incremental_sync_data_se.Orchestrator.Locked.Zones.{IsSpread}
use incremental_sync_data_se.Orchestrator.Locked.Published.{publish-IsMoved}
use incremental_sync_data_se.Pipeline.Commit.Moved.{IsDistinct, IsMoved}
use incremental_sync_data_se.Pipeline.Commit.Clear.{IsClear}
use incremental_sync_data_se.Pipeline.Commit.Steps.{Away}
use incremental_sync_data_se.FileSystem.Renamed.{IsPassable, NoFile}
use incremental_sync_data_se.Time.{Text}
use incremental_sync_data_se.Examples.Publications.{d, publishing, returned, laid, removes, is_made}

abbrev whole : Machine
whole = record machine { power = none }

abbrev staged : Machine
staged = (stage_run publishing d predictions whole).1

abbrev planned : Machine
planned = (staged_steps publishing d predictions whole).1

is_staged : stage_run publishing d predictions whole ≡ (done tt, reboot staged)
unfolding real_run planned_run publish stage_run emit_stdout_events now_utc build_manifest make root
    checkpoint_path commit_plan_path ready_marker_path lake_dir share_dir events_dir ensure_layout
    is_ready read_bytes plan_in load_commit_plan write_commit_plan mark_ready remove_all rmtree
    cleanup commit finish execute_steps execute_step stage_partitions stage_share stage_events
    event_dict emit_to_stdout build_events stage_lake stage_shares share_steps stage_outputs
    runs_dir checkpoint_file make_dirs ensure_dir temp_file fill_temp write_bytes_atomic
    atomic_rename effect exists is_under parent file_name mkdir os_replace write_file remove below
    Dict.lookup Dict.insert Dict.erase Dict.keys initial to_dict watermark_dict fields_of dumps
    object_text quote bracket int_text encode_utf8 canonical_json_line canonical_json_bytes
    pretty_json_bytes sort_by str_le iso_utc_z digits decimal plan_dict plan_from_dict path_text
    path_of field_at string_eq nat_eq list_eq traverse in_order
is_staged = refl

is_planned : staged_steps publishing d predictions whole ≡ (done steps, planned)
unfolding real_run planned_run publish stage_run emit_stdout_events now_utc build_manifest make root
    checkpoint_path commit_plan_path ready_marker_path lake_dir share_dir events_dir ensure_layout
    is_ready read_bytes plan_in load_commit_plan write_commit_plan mark_ready remove_all rmtree
    cleanup commit finish execute_steps execute_step stage_partitions stage_share stage_events
    event_dict emit_to_stdout build_events stage_lake stage_shares share_steps stage_outputs
    runs_dir checkpoint_file make_dirs ensure_dir temp_file fill_temp write_bytes_atomic
    atomic_rename effect exists is_under parent file_name mkdir os_replace write_file remove below
    Dict.lookup Dict.insert Dict.erase Dict.keys initial to_dict watermark_dict fields_of dumps
    object_text quote bracket int_text encode_utf8 canonical_json_line canonical_json_bytes
    pretty_json_bytes sort_by str_le iso_utc_z digits decimal plan_dict plan_from_dict path_text
    path_of field_at string_eq nat_eq list_eq traverse in_order
is_planned = refl

-- the tree that the staging leaves
abbrev tree : Fs
tree =
    (codes "lake" ∷ codes "x" ∷ [], file (codes "old"))
    ∷ (codes "state" ∷ [], dir)
    ∷ (codes "state" ∷ codes "runs" ∷ [], dir)
    ∷ (codes "state" ∷ codes "runs" ∷ codes "0000" ∷ [], dir)
    ∷ (codes "state" ∷ codes "runs" ∷ codes "0000" ∷ codes "lake" ∷ [], dir)
    ∷ (codes "state" ∷ codes "runs" ∷ codes "0000" ∷ codes "share" ∷ [], dir)
    ∷ (codes "state" ∷ codes "runs" ∷ codes "0000" ∷ codes "events" ∷ [], dir)
    ∷ (
      codes "state" ∷ codes "runs" ∷ codes "0000" ∷ codes "events" ∷ codes "0000.jsonl" ∷ [],
      file (
          codes
            "{\"checkpoint_after\":{\"cases\":{\"last_pk\":0,\"updated_at\":\"0001-01-01T00:00:00Z\"},\"customers\":{\"last_pk\":0,\"updated_at\":\"0001-01-01T00:00:00Z\"}},\"delta_row_count\":0,\"lake_paths\":[],\"run_id\":\"0000\",\"schema_fingerprint\":\"f\",\"share_path\":null,\"table\":\"customers\"}\n{\"checkpoint_after\":{\"cases\":{\"last_pk\":0,\"updated_at\":\"0001-01-01T00:00:00Z\"},\"customers\":{\"last_pk\":0,\"updated_at\":\"0001-01-01T00:00:00Z\"}},\"delta_row_count\":0,\"lake_paths\":[],\"run_id\":\"0000\",\"schema_fingerprint\":\"g\",\"share_path\":null,\"table\":\"cases\"}\n"),
    )
    ∷ (
      codes "state" ∷ codes "runs" ∷ codes "0000" ∷ codes "checkpoint.json" ∷ [],
      file (codes "{}\n"),
    )
    ∷ (
      codes "state" ∷ codes "runs" ∷ codes "0000" ∷ codes "commit_plan.json" ∷ [],
      file (
          codes
            "{\n  \"steps\": [\n    {\n      \"label\": \"events\",\n      \"live_path\": \"/events/0000.jsonl\",\n      \"staged_path\": \"/state/runs/0000/events/0000.jsonl\"\n    },\n    {\n      \"label\": \"checkpoint\",\n      \"live_path\": \"/state/checkpoint.json\",\n      \"staged_path\": \"/state/runs/0000/checkpoint.json\"\n    }\n  ]\n}\n"),
    )
    ∷ (codes "state" ∷ codes "runs" ∷ codes "0000" ∷ codes "READY" ∷ [], file (codes "READY\n"))
    ∷ []

is_tree : staged.fs ≡ tree
unfolding real_run planned_run publish stage_run emit_stdout_events now_utc build_manifest make root
    checkpoint_path commit_plan_path ready_marker_path lake_dir share_dir events_dir ensure_layout
    is_ready read_bytes plan_in load_commit_plan write_commit_plan mark_ready remove_all rmtree
    cleanup commit finish execute_steps execute_step stage_partitions stage_share stage_events
    event_dict emit_to_stdout build_events stage_lake stage_shares share_steps stage_outputs
    runs_dir checkpoint_file make_dirs ensure_dir temp_file fill_temp write_bytes_atomic
    atomic_rename effect exists is_under parent file_name mkdir os_replace write_file remove below
    Dict.lookup Dict.insert Dict.erase Dict.keys initial to_dict watermark_dict fields_of dumps
    object_text quote bracket int_text encode_utf8 canonical_json_line canonical_json_bytes
    pretty_json_bytes sort_by str_le iso_utc_z digits decimal plan_dict plan_from_dict path_text
    path_of field_at string_eq nat_eq list_eq traverse in_order
is_tree = refl

reads : ReadsPlan publishing d predictions whole
reads l m' b h printed =
    let same : steps ≡ l =
      ap (λ (w : Outcome (List CommitStep) × Machine). returned w.0) (sym is_planned ∙ h) in
    ap (λ k. ok (in_order (plan_dict k))) same

spread : IsSpread settings
unfolding checkpoint_file is_under nat_eq list_eq
spread = record {
  lake_share = record { out = refl; back = refl };
  lake_events = record { out = refl; back = refl };
  lake_checkpoint = record { out = refl; back = refl };
  share_events = record { out = refl; back = refl };
  share_checkpoint = record { out = refl; back = refl };
  events_checkpoint = record { out = refl; back = refl };
}

rooted : node_at (root d) tree ≡ some dir
unfolding root Dict.lookup nat_eq list_eq
rooted = refl

distinct : IsDistinct steps
distinct = (((λ p. cc, λ p. cc), tt), ((λ p. cc, λ p. cc), tt), (tt, tt, tt))

-- the way to a file that lies in a directory of the root
way_free : (name : Text) → NoFile (name ∷ []) tree → IsPassable (name ∷ []) tree
unfolding is_under nat_eq list_eq Dict.lookup
way_free name free [] on b found = cc
way_free name free (x ∷ []) on b found =
    let same : x ≡ name = ground arith in
    let there = ap (λ (n : Text). node_at (n ∷ []) tree) same in free b (sym there ∙ found)
way_free name free (x ∷ y ∷ q) on b found = ground arith

events_free : NoFile (codes "events" ∷ []) tree
unfolding Dict.lookup nat_eq list_eq
events_free b found = cc

state_free : NoFile (codes "state" ∷ []) tree
unfolding Dict.lookup nat_eq list_eq
state_free b found = cc

events_step-IsClear : IsClear tree events_step
unfolding parent Dict.lookup nat_eq list_eq
events_step-IsClear = record {
  way = way_free (codes "events") events_free;
  live_free = λ found. cc;
  staged_free = λ found. cc;
}

last_step-IsClear : IsClear tree last_step
unfolding parent Dict.lookup nat_eq list_eq
last_step-IsClear = record {
  way = way_free (codes "state") state_free;
  live_free = λ found. cc;
  staged_free = λ found. cc;
}

clear : All (IsClear tree) steps
clear = (events_step-IsClear, (last_step-IsClear, tt))

publish-IsMoved_example :
    (m' : Machine) × (publish publishing predictions whole ≡ (done tt, m'))
    × All (IsMoved staged.fs m'.fs) steps
    × ((q : FilePath) → is_under (root d) q ≡ true → node_at q m'.fs ≡ none)
    × ((q : FilePath)
        → is_under (root d) q ≡ false
        → All (Away q) steps
        → file_at q m'.fs ≡ file_at q staged.fs)
publish-IsMoved_example =
    publish-IsMoved publishing predictions d whole planned staged steps is_made removes laid spread
      reads is_planned is_staged (subst (λ fs. node_at (root d) fs ≡ some dir) (sym is_tree) rooted)
      distinct (subst (λ fs. All (IsClear fs) steps) (sym is_tree) clear)
