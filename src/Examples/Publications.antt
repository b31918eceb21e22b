-- ===== src/Examples/Publications.antt =====
-- A publication whose power fails between the renames.
use mathlib.Core.Path.{subst}
use incremental_sync_data_se.Base.{
  arith, ◌≡◌, refl, sym, ap, ◌∙◌, ◌⊎◌, ◌≢◌, true, none, false, some, List, [], ◌∷◌, ok, traverse,
  string_eq, nat_eq, list_eq,
}
use incremental_sync_data_se.Base.Dict
use incremental_sync_data_se.Base.Sort.{codes, sort_by, str_le}
use incremental_sync_data_se.Time.{iso_utc_z}
use incremental_sync_data_se.Time.Print.{digits, decimal}
use incremental_sync_data_se.Json.{
  dumps, object_text, quote, bracket, int_text, encode_utf8, canonical_json_line,
  canonical_json_bytes, pretty_json_bytes,
}
use incremental_sync_data_se.Json.Access.{field_at}
use incremental_sync_data_se.Json.Parsed.{in_order}
use incremental_sync_data_se.Orchestrator.Locked.Places.{IsLaidOut}
use incremental_sync_data_se.Orchestrator.Locked.Committable.{
  ReadsPlan, staged_steps, stage_run-IsCommittable,
}
use incremental_sync_data_se.Machine.{Machine, Outcome, done, crashed, reboot, effect}
use incremental_sync_data_se.Machine.Tree.{
  FilePath, dir, exists, is_under, parent, file_name, mkdir, os_replace, write_file, remove, below,
  node_at,
}
use incremental_sync_data_se.FileSystem.{
  make_dirs, ensure_dir, temp_file, fill_temp, write_bytes_atomic, atomic_rename,
}
use incremental_sync_data_se.FileSystem.Frame.{file_at}
use incremental_sync_data_se.FileSystem.Crash.{is_under_refl}
use incremental_sync_data_se.FileSystem.Within.{is_under-parent_join, Keeps-write_bytes_atomic}
use incremental_sync_data_se.FileSystem.Kept.{Keeps-write-Absent}
use incremental_sync_data_se.Domain.Checkpoint.{initial, to_dict, watermark_dict, fields_of}
use incremental_sync_data_se.Pipeline.Plan.{
  CommitStep, plan_dict, plan_from_dict, path_text, path_of,
}
use incremental_sync_data_se.Pipeline.Staging.{
  RunStagingDir, make, root, checkpoint_path, commit_plan_path, ready_marker_path, lake_dir,
  share_dir, events_dir, ensure_layout, is_ready, read_bytes, plan_in, load_commit_plan,
  write_commit_plan, mark_ready, remove_all, rmtree, cleanup,
}
use incremental_sync_data_se.Pipeline.Staging.Removal.{RemovesAll}
use incremental_sync_data_se.Pipeline.Commit.{
  commit, finish, execute_steps, execute_step, resume_run,
}
use incremental_sync_data_se.Pipeline.Commit.Crash.{IsCommittable, GoesOn}
use incremental_sync_data_se.Outputs.Lake.{stage_partitions}
use incremental_sync_data_se.Outputs.Share.{stage_share}
use incremental_sync_data_se.Outputs.Events.{stage_events, event_dict, emit_to_stdout}
use incremental_sync_data_se.Orchestrator.Stage.{
  runs_dir, checkpoint_file, build_events, stage_lake, stage_shares, share_steps, stage_outputs,
}
use incremental_sync_data_se.Orchestrator.Locked.{
  Service, now_utc, stage_run, publish, emit_stdout_events, real_run, planned_run, build_manifest,
}
use incremental_sync_data_se.Orchestrator.Locked.Staged.{StagesWithin}
use incremental_sync_data_se.Orchestrator.Locked.Marker.{LeavesMarker, marker-IsPlainName}
use incremental_sync_data_se.Orchestrator.Locked.AllOrNothing.{publish_all_or_nothing}
use incremental_sync_data_se.Examples.Orders.{order, removes_all}
use incremental_sync_data_se.Examples.Manifests.{
  sys, settings, store, svc, predictions, machine, steps,
}

abbrev pub d : RunStagingDir
d = record { runs_root = codes "state" ∷ codes "runs" ∷ []; run_id = codes "0000" }

abbrev pub marker : FilePath
marker = codes "state" ∷ codes "runs" ∷ codes "0000" ∷ codes "READY" ∷ []

-- the plan is read back, and the marker is removed first
abbrev pub publishing : Service
publishing = record svc {
  sys = record sys { loads = λ b. ok (in_order (plan_dict steps)); removal_order = order marker };
}

-- The staging makes 40 changes; then the events are renamed, and the checkpoint is not.
abbrev short : Machine
short = record machine { power = some 42 }

abbrev staged_end : Machine
staged_end = (stage_run publishing d predictions short).1

abbrev stopped : Machine
stopped = (publish publishing predictions short).1

abbrev finished : Machine
finished = (commit publishing.sys d (reboot staged_end)).1

is_staged : stage_run publishing d predictions short ≡ (done tt, staged_end)
unfolding real_run planned_run publish stage_run emit_stdout_events now_utc build_manifest make root
    checkpoint_path commit_plan_path ready_marker_path lake_dir share_dir events_dir ensure_layout
    is_ready read_bytes plan_in load_commit_plan write_commit_plan mark_ready remove_all rmtree
    cleanup commit finish execute_steps execute_step stage_partitions stage_share stage_events
    event_dict emit_to_stdout build_events stage_lake stage_shares share_steps stage_outputs
    runs_dir checkpoint_file make_dirs ensure_dir temp_file fill_temp write_bytes_atomic
    atomic_rename effect exists is_under parent file_name mkdir os_replace write_file remove below
    Dict.lookup Dict.insert Dict.erase Dict.keys initial to_dict watermark_dict fields_of dumps
    object_text quote bracket int_text encode_utf8 canonical_json_line canonical_json_bytes
    pretty_json_bytes sort_by str_le iso_utc_z digits decimal plan_dict plan_from_dict path_text
    path_of field_at string_eq nat_eq list_eq traverse in_order
is_staged = refl

is_cut : publish publishing predictions short ≡ (crashed, stopped)
unfolding real_run planned_run publish stage_run emit_stdout_events now_utc build_manifest make root
    checkpoint_path commit_plan_path ready_marker_path lake_dir share_dir events_dir ensure_layout
    is_ready read_bytes plan_in load_commit_plan write_commit_plan mark_ready remove_all rmtree
    cleanup commit finish execute_steps execute_step stage_partitions stage_share stage_events
    event_dict emit_to_stdout build_events stage_lake stage_shares share_steps stage_outputs
    runs_dir checkpoint_file make_dirs ensure_dir temp_file fill_temp write_bytes_atomic
    atomic_rename effect exists is_under parent file_name mkdir os_replace write_file remove below
    Dict.lookup Dict.insert Dict.erase Dict.keys initial to_dict watermark_dict fields_of dumps
    object_text quote bracket int_text encode_utf8 canonical_json_line canonical_json_bytes
    pretty_json_bytes sort_by str_le iso_utc_z digits decimal plan_dict plan_from_dict path_text
    path_of field_at string_eq nat_eq list_eq traverse in_order
is_cut = refl

is_finished : commit publishing.sys d (reboot staged_end) ≡ (done tt, finished)
unfolding real_run planned_run publish stage_run emit_stdout_events now_utc build_manifest make root
    checkpoint_path commit_plan_path ready_marker_path lake_dir share_dir events_dir ensure_layout
    is_ready read_bytes plan_in load_commit_plan write_commit_plan mark_ready remove_all rmtree
    cleanup commit finish execute_steps execute_step stage_partitions stage_share stage_events
    event_dict emit_to_stdout build_events stage_lake stage_shares share_steps stage_outputs
    runs_dir checkpoint_file make_dirs ensure_dir temp_file fill_temp write_bytes_atomic
    atomic_rename effect exists is_under parent file_name mkdir os_replace write_file remove below
    Dict.lookup Dict.insert Dict.erase Dict.keys initial to_dict watermark_dict fields_of dumps
    object_text quote bracket int_text encode_utf8 canonical_json_line canonical_json_bytes
    pretty_json_bytes sort_by str_le iso_utc_z digits decimal plan_dict plan_from_dict path_text
    path_of field_at string_eq nat_eq list_eq traverse in_order
is_finished = refl

abbrev planned_end : Machine
planned_end = (staged_steps publishing d predictions short).1

is_planned : staged_steps publishing d predictions short ≡ (done steps, planned_end)
unfolding real_run planned_run publish stage_run emit_stdout_events now_utc build_manifest make root
    checkpoint_path commit_plan_path ready_marker_path lake_dir share_dir events_dir ensure_layout
    is_ready read_bytes plan_in load_commit_plan write_commit_plan mark_ready remove_all rmtree
    cleanup commit finish execute_steps execute_step stage_partitions stage_share stage_events
    event_dict emit_to_stdout build_events stage_lake stage_shares share_steps stage_outputs
    runs_dir checkpoint_file make_dirs ensure_dir temp_file fill_temp write_bytes_atomic
    atomic_rename effect exists is_under parent file_name mkdir os_replace write_file remove below
    Dict.lookup Dict.insert Dict.erase Dict.keys initial to_dict watermark_dict fields_of dumps
    object_text quote bracket int_text encode_utf8 canonical_json_line canonical_json_bytes
    pretty_json_bytes sort_by str_le iso_utc_z digits decimal plan_dict plan_from_dict path_text
    path_of field_at string_eq nat_eq list_eq traverse in_order
is_planned = refl

-- the steps that an outcome returns
abbrev pub returned : Outcome (List CommitStep) → List CommitStep
returned (done l) = l
returned _ = []

reads : ReadsPlan publishing d predictions short
reads l m' b h printed =
    let same : steps ≡ l =
      ap (λ (w : Outcome (List CommitStep) × Machine). returned w.0) (sym is_planned ∙ h) in
    ap (λ k. ok (in_order (plan_dict k))) same

pub laid : IsLaidOut publishing d
unfolding root runs_dir checkpoint_file is_under nat_eq list_eq
laid = record {
  run_named = ground arith;
  id_named = ground arith;
  tables_named = ground arith;
  lake_named = ground arith;
  share_named = ground arith;
  events_named = ground arith;
  checkpoint_named = ground arith;
  lake_apart = record { out = refl; back = refl };
  share_apart = record { out = refl; back = refl };
  events_apart = record { out = refl; back = refl };
  checkpoint_apart = refl;
}

-- the commit of what was staged, uninterrupted
abbrev CanFinish : Machine → Type 0
CanFinish m₁ = (m₂ : Machine) × (commit publishing.sys d (reboot m₁) ≡ (done tt, m₂))

can_finish :
    (m₁ : Machine) → stage_run publishing d predictions short ≡ (done tt, m₁) → CanFinish m₁
can_finish m₁ h =
    subst CanFinish (ap (λ (w : Outcome (Unit {0}) × Machine). w.1) (sym is_staged ∙ h))
      (finished, is_finished)

pub removes : RemovesAll publishing.sys
removes = removes_all marker

within : StagesWithin store d
unfolding checkpoint_path
within = record {
  stays = λ q b cp outside.
      Keeps-write_bytes_atomic sys.random_part (root d) q outside (checkpoint_path d) (codes "{}\n")
        (is_under-parent_join (root d) (root d) _ (is_under_refl (root d)));
}

beside : is_under (ready_marker_path d) (checkpoint_path d) ≡ false
unfolding is_under ready_marker_path checkpoint_path root nat_eq list_eq
beside = refl

leaves : LeavesMarker store d
leaves = record {
  absent = λ cp.
      Keeps-write-Absent sys.random_part (ready_marker_path d) (marker-IsPlainName d)
        (checkpoint_path d) beside (codes "{}\n");
}

pub is_made : make (runs_dir settings) predictions.run_id ≡ ok d
unfolding make runs_dir nat_eq list_eq
is_made = refl

not_ready : is_ready d short.fs ≡ false
unfolding is_ready ready_marker_path root exists Dict.lookup nat_eq list_eq
not_ready = refl

publish_all_or_nothing_example :
    (((q : FilePath) → is_under (root d) q ≡ false → file_at q stopped.fs ≡ file_at q short.fs)
      × ((node_at (root d) stopped.fs ≢ some dir)
          ⊎ ((m₃ : Machine) × (resume_run publishing.sys d.runs_root d.run_id (reboot stopped)
                ≡ (done tt, m₃))
              × ((q : FilePath)
                  → is_under (root d) q ≡ false
                  → file_at q m₃.fs ≡ file_at q short.fs)
              × ((q : FilePath) → is_under (root d) q ≡ true → node_at q m₃.fs ≡ none))))
    ⊎ ((m₁ : Machine) × (m₂ : Machine) × (stage_run publishing d predictions short ≡ (done tt, m₁))
        × (commit publishing.sys d (reboot m₁) ≡ (done tt, m₂))
        × GoesOn publishing.sys d stopped m₂)
publish_all_or_nothing_example =
    publish_all_or_nothing publishing predictions d short stopped is_made removes within leaves
      not_ready laid reads can_finish is_cut

stage_run-IsCommittable_example : IsCommittable publishing.sys d staged_end.fs steps
stage_run-IsCommittable_example =
    stage_run-IsCommittable publishing d predictions short staged_end steps planned_end refl laid
      reads is_planned is_staged
