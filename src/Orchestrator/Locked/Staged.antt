-- ===== src/Orchestrator/Locked/Staged.antt =====
-- Staging a run touches no live file.
use incremental_sync_data_se.Base.{
  ℕ, ◌≡◌, refl, true, false, ◌∙◌, Option, none, List, [], ◌∷◌, ◌++◌,
}
use incremental_sync_data_se.Time.{Text}
use incremental_sync_data_se.Json.{Value}
use incremental_sync_data_se.Machine.{Machine}
use incremental_sync_data_se.Base.Sort.{codes}
use incremental_sync_data_se.Machine.Tree.{Bytes, FilePath, Fs, ◌/◌, is_under, parent}
use incremental_sync_data_se.Machine.Keeps.{Keeps, Keeps-bind, Keeps-lift, Keeps-pure}
use incremental_sync_data_se.FileSystem.{ensure_dir, write_bytes_atomic}
use incremental_sync_data_se.FileSystem.Frame.{file_at, file_at-mkdir}
use incremental_sync_data_se.FileSystem.Crash.{Keeps-make_dirs, is_under_refl}
use incremental_sync_data_se.FileSystem.Within.{
  is_under-extend, is_under_trans, is_under-parent_join, Keeps-write_bytes_atomic,
}
use incremental_sync_data_se.Domain.Checkpoint.{Checkpoint}
use incremental_sync_data_se.Domain.Tables.{TableSpec}
use incremental_sync_data_se.Source.{Row}
use incremental_sync_data_se.Pipeline.Staging.{
  RunStagingDir, root, lake_dir, share_dir, events_dir, checkpoint_path, commit_plan_path,
  ready_marker_path, ensure_layout, write_commit_plan, mark_ready,
}
use incremental_sync_data_se.Outputs.Lake.Staged.{Keeps-stage_partitions}
use incremental_sync_data_se.Outputs.Share.{share_bytes, share_file, stage_share}
use incremental_sync_data_se.Outputs.Events.{Event, run_file, stage_events}
use incremental_sync_data_se.Orchestrator.Stage.{
  Store, Predictions, at, share_steps, stage_lake, stage_shares, stage_outputs,
}
use incremental_sync_data_se.Orchestrator.Locked.{Service, stage_run}

-- `CheckpointStore.stage` writes below the directory of the path that it is given, and nowhere else.
pub record StagesWithin (store : Store) (d : RunStagingDir) : Type 0 where
  pub stays :
      (q : FilePath) (b : Option Bytes) (cp : Checkpoint)
      → is_under (root d) q ≡ false
      → Keeps (λ fs. file_at q fs ≡ b) (store.stage cp (checkpoint_path d))

-- a directory of the layout
inner : (d : RunStagingDir) (rest : FilePath) → is_under (root d) (root d ++ rest) ≡ true
inner d rest = is_under-extend (root d) (root d) rest (is_under_refl (root d))

-- below a directory of the layout is below the run's directory
deeper :
    (d : RunStagingDir) (name : List ℕ) (x : FilePath)
    → is_under (root d / name) x ≡ true
    → is_under (root d) x ≡ true
deeper d name x h = is_under_trans (root d) (root d / name) x (inner d (name ∷ [])) h

-- What the outputs of a run are staged with keeps `P`.
pub record KeepsOutputs (svc : Service) (d : RunStagingDir) (p : Predictions) (P : Fs → Type 0)
    : Type 0 where
  pub lake :
      (target : FilePath) (bytes : Bytes)
      → is_under (lake_dir d) (parent target) ≡ true
      → Keeps P (write_bytes_atomic svc.sys.random_part target bytes)
  pub share :
      (target : FilePath) (bytes : Bytes)
      → is_under (share_dir d) (parent target) ≡ true
      → Keeps P (write_bytes_atomic svc.sys.random_part target bytes)
  pub events :
      (target : FilePath) (bytes : Bytes)
      → is_under (events_dir d) (parent target) ≡ true
      → Keeps P (write_bytes_atomic svc.sys.random_part target bytes)
  pub checkpoint : Keeps P (svc.store.stage p.cp_after (checkpoint_path d))

module _ (svc : Service) (d : RunStagingDir) (p : Predictions) (P : Fs → Type 0)
    (kept : KeepsOutputs svc d p P) where
  Keeps-stage_share :
      (spec : TableSpec) (rows : List Row) (run_id fingerprint : Text) (cp_after : Value)
      → Keeps P (
          stage_share svc.sys svc.settings.share_root spec rows run_id fingerprint cp_after
            (share_dir d))
  unfolding stage_share
  Keeps-stage_share spec [] run_id fingerprint cp_after = Keeps-pure none
  Keeps-stage_share spec (row ∷ rows) run_id fingerprint cp_after =
      Keeps-bind _ _ (Keeps-lift (share_bytes spec run_id fingerprint cp_after (row ∷ rows)))
        (λ bytes.
          Keeps-bind _ _
            (kept.share (share_file (share_dir d) spec) bytes (
              is_under-parent_join (share_dir d) _ _
                (is_under-extend (share_dir d) (share_dir d) _ (is_under_refl (share_dir d)))))
            (λ _. Keeps-pure _))

  Keeps-stage_events :
      (events : List Event)
      → Keeps P (stage_events svc.sys svc.settings.events_root events p.run_id (events_dir d))
  unfolding stage_events
  Keeps-stage_events events = Keeps-bind _ _ (Keeps-lift _) (λ blob.
      Keeps-bind _ _
        (kept.events (run_file (events_dir d) p.run_id) blob
          (is_under-parent_join (events_dir d) _ _ (is_under_refl (events_dir d))))
        (λ _. Keeps-pure _))

  Keeps-stage_lake :
      (specs : List TableSpec) → Keeps P (stage_lake svc.sys svc.settings svc.store d p specs)
  unfolding stage_lake
  Keeps-stage_lake [] = Keeps-pure _
  Keeps-stage_lake (spec ∷ specs) = Keeps-bind _ _ (Keeps-lift _) (λ rows.
      Keeps-bind _ _
        (Keeps-stage_partitions svc.sys svc.settings.lake_root spec (lake_dir d) P kept.lake rows)
        (λ parts. Keeps-bind _ _ (Keeps-stage_lake specs) (λ more. Keeps-pure _)))

  Keeps-stage_shares :
      (cp_after : Value) (specs : List TableSpec)
      → Keeps P (stage_shares svc.sys svc.settings svc.store d p cp_after specs)
  unfolding stage_shares
  Keeps-stage_shares cp_after [] = Keeps-pure _
  Keeps-stage_shares cp_after (spec ∷ specs) =
      Keeps-bind _ _ (Keeps-lift (at p.deltas spec.name)) (λ rows.
        Keeps-bind _ _ (Keeps-lift (at p.fingerprints spec.name)) (λ fingerprint.
          Keeps-bind _ _ (Keeps-stage_share spec rows p.run_id fingerprint cp_after) (λ file.
            Keeps-bind _ _ (Keeps-stage_shares cp_after specs)
              (λ more. Keeps-pure (share_steps spec file ++ more)))))

  pub Keeps-stage_outputs :
      (specs : List TableSpec) → Keeps P (stage_outputs svc.sys svc.settings svc.store d p specs)
  unfolding stage_outputs
  Keeps-stage_outputs specs = Keeps-bind _ _ (Keeps-stage_lake specs) (λ lake.
      Keeps-bind _ _ (Keeps-lift _) (λ cp_after.
        Keeps-bind _ _ (Keeps-stage_shares cp_after specs) (λ shares.
          Keeps-bind _ _ (Keeps-lift _) (λ events.
            Keeps-bind _ _ (Keeps-stage_events events)
              (λ file. Keeps-bind _ _ (kept.checkpoint) (λ _. Keeps-pure _))))))

module _ (svc : Service) (d : RunStagingDir) (p : Predictions) (within : StagesWithin svc.store d)
    (q : FilePath) (outside : is_under (root d) q ≡ false) {b : Option Bytes} where
  Keeps-write :
      (target : FilePath) (bytes : Bytes)
      → is_under (root d) (parent target) ≡ true
      → Keeps (λ fs. file_at q fs ≡ b) (write_bytes_atomic svc.sys.random_part target bytes)
  Keeps-write = Keeps-write_bytes_atomic svc.sys.random_part (root d) q outside

  KeepsOutputs-file : KeepsOutputs svc d p (λ fs. file_at q fs ≡ b)
  unfolding lake_dir share_dir events_dir
  KeepsOutputs-file = record {
    lake = λ target bytes h. Keeps-write target bytes (deeper d (codes "lake") (parent target) h);
    share = λ target bytes h. Keeps-write target bytes (deeper d (codes "share") (parent target) h);
    events =
        λ target bytes h. Keeps-write target bytes (deeper d (codes "events") (parent target) h);
    checkpoint = within.stays q b p.cp_after outside;
  }

  Keeps-ensure_dir : (dir : FilePath) → Keeps (λ fs. file_at q fs ≡ b) (ensure_dir dir)
  unfolding ensure_dir
  Keeps-ensure_dir dir = Keeps-make_dirs _ [] dir (λ p _ fs fs' h e. file_at-mkdir q fs p e ∙ h)

  Keeps-stage_run : Keeps (λ fs. file_at q fs ≡ b) (stage_run svc d p)
  unfolding stage_run ensure_layout write_commit_plan mark_ready commit_plan_path ready_marker_path
  Keeps-stage_run =
      Keeps-bind _ _
        (Keeps-bind _ _ (Keeps-ensure_dir (root d)) (λ _.
          Keeps-bind _ _ (Keeps-ensure_dir (lake_dir d)) (λ _.
            Keeps-bind _ _ (Keeps-ensure_dir (share_dir d))
              (λ _. Keeps-ensure_dir (events_dir d)))))
        (λ _. Keeps-bind _ _ (Keeps-stage_outputs svc d p _ KeepsOutputs-file svc.specs) (λ steps.
          Keeps-bind _ _
            (Keeps-bind _ _ (Keeps-lift _) (λ bytes.
              Keeps-write (commit_plan_path d) bytes
                (is_under-parent_join (root d) _ _ (is_under_refl (root d)))))
            (λ _.
              Keeps-write (ready_marker_path d) _
                (is_under-parent_join (root d) _ _ (is_under_refl (root d))))))

-- If the store stages within the run's directory: while a run stages its outputs, its plan and its
-- marker, no file outside that directory changes, whether the staging returns, raises or is cut off.
pub stage_run-outside :
    (svc : Service) (d : RunStagingDir) (p : Predictions) (m : Machine)
    → StagesWithin svc.store d
    → (q : FilePath) → is_under (root d) q ≡ false
    → file_at q (stage_run svc d p m).1.fs ≡ file_at q m.fs
stage_run-outside svc d p m within q outside = (Keeps-stage_run svc d p within q outside).at m refl
