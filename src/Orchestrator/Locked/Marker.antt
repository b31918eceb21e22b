-- ===== src/Orchestrator/Locked/Marker.antt =====
-- The marker of a run is made by the last change of its staging.
use incremental_sync_data_se.Base.{
  ℕ, ◌≡◌, ◌≢◌, refl, sym, ap, ◌∙◌, ◌⊎◌, inl, inr, true, false, List, [], nat_eq, list_eq, ◌==◌,
}
use incremental_sync_data_se.Base.Sort.{codes}
use incremental_sync_data_se.Machine.{Machine, Outcome, done, raised, crashed, effect}
use incremental_sync_data_se.Machine.Tree.{
  Bytes, FilePath, Fs, ◌/◌, parent, file_name, is_under, write_file, os_replace, remove,
}
use incremental_sync_data_se.Machine.Keeps.{
  Keeps, Keeps-bind, Keeps-lift, Keeps-raise, Keeps-effect,
}
use incremental_sync_data_se.Machine.Unless.{
  IsDone, KeepsUnless, KeepsUnless-bind, KeepsUnless-effect,
}
use incremental_sync_data_se.FileSystem.Within.{parent-join, siblings, not_inside}
use incremental_sync_data_se.FileSystem.Frame.{node_at-write_file_ne, node_at-remove_ne}
use incremental_sync_data_se.Domain.Checkpoint.{Checkpoint}
use incremental_sync_data_se.FileSystem.{
  ensure_dir, or_unlink, temp_file, fill_temp, write_bytes_atomic,
}
use incremental_sync_data_se.FileSystem.Crash.{Keeps-make_dirs, is_under_refl, is_under-parent}
use incremental_sync_data_se.FileSystem.Kept.{
  Absent, IsPlainName, Stays-mkdir, Keeps-write-Absent, file_name-join,
}
use incremental_sync_data_se.Pipeline.Plan.{CommitStep}
use incremental_sync_data_se.Pipeline.Staging.{
  RunStagingDir, root, lake_dir, share_dir, events_dir, checkpoint_path, commit_plan_path,
  ready_marker_path, ensure_layout, write_commit_plan, mark_ready,
}
use incremental_sync_data_se.Orchestrator.Stage.{Predictions, Store}
use incremental_sync_data_se.Orchestrator.Locked.{Service, stage_run}
use incremental_sync_data_se.Orchestrator.Locked.Staged.{KeepsOutputs, Keeps-stage_outputs}

module _ (d : RunStagingDir) where
  abbrev marker : FilePath
  marker = ready_marker_path d

  pub marker-IsPlainName : IsPlainName (ready_marker_path d)
  unfolding ready_marker_path IsPlainName
  marker-IsPlainName name h = let e = sym (file_name-join (root d) (codes "READY")) ∙ h in cc

  beside :
      (name : List ℕ) (x : FilePath)
      → (codes "READY" == name) ≡ false
      → is_under (root d / name) x ≡ true
      → is_under (ready_marker_path d) x ≡ false
  unfolding ready_marker_path
  beside name x n h = siblings (root d) name (codes "READY") x n h

  marker_deep : is_under (ready_marker_path d) (root d) ≡ false
  unfolding ready_marker_path
  marker_deep = not_inside (root d) (codes "READY")

  Keeps-ensure-Absent :
      (x : FilePath)
      → is_under (ready_marker_path d) x ≡ false
      → Keeps (Absent (ready_marker_path d)) (ensure_dir x)
  unfolding ensure_dir
  Keeps-ensure-Absent x apart = Keeps-make_dirs _ [] x (λ p h.
      Stays-mkdir (ready_marker_path d) p (λ same. cc (apart, ap (λ y. is_under y x) same, h)))

-- `CheckpointStore.stage` does not make the run's marker.
pub record LeavesMarker (store : Store) (d : RunStagingDir) : Type 0 where
  pub absent :
      (cp : Checkpoint) → Keeps (Absent (ready_marker_path d)) (store.stage cp (checkpoint_path d))

-- The `try` block and its handler.
or_unlink-unless :
    (P : Fs → Type 0) (tmp : FilePath) (r : Outcome (Unit {0})) (m : Machine)
    → Keeps P (effect (remove tmp))
    → IsDone r ⊎ P m.fs
    → IsDone (or_unlink tmp (r, m)).0 ⊎ P (or_unlink tmp (r, m)).1.fs
or_unlink-unless P tmp (done a) m k h = inl refl
or_unlink-unless P tmp (raised e) m k (inl p) = absurd (cc)
or_unlink-unless P tmp (raised e) m k (inr h) =
    inr ((Keeps-bind (effect (remove tmp)) _ k (λ _. Keeps-raise e)).at m h)
or_unlink-unless P tmp crashed m k h = h

-- A file that is not there is made by the last change of its writing.
KeepsUnless-write_bytes_atomic :
    (random_part : Fs → FilePath → List ℕ) (target : FilePath) (bytes : Bytes)
    → IsPlainName target
    → Keeps (Absent target) (ensure_dir (parent target))
    → KeepsUnless (Absent target) (write_bytes_atomic random_part target bytes)
unfolding write_bytes_atomic fill_temp temp_file IsPlainName
KeepsUnless-write_bytes_atomic random_part target bytes plain dirs = KeepsUnless-bind _ _ dirs (λ _.
    record {
      at = λ m h.
          let tmp = temp_file random_part target m.fs in
          let differ : target ≢ tmp =
            λ same. plain _ (ap file_name same ∙ file_name-join (parent target) _) in
          let write : (b : Bytes) → Keeps (Absent target) (effect (write_file tmp b)) = λ b.
            Keeps-effect _ (λ fs fs' k e. node_at-write_file_ne target fs tmp b differ e ∙ k) in
          let gone =
            Keeps-effect (remove tmp)
              (λ fs fs' k e. node_at-remove_ne target fs tmp differ e ∙ k) in
          let fill =
            KeepsUnless-bind _ _ (write bytes)
              (λ _. KeepsUnless-effect (Absent target) (os_replace tmp target)) in
          let whole = KeepsUnless-bind _ _ (write []) (λ _. record {
            at = λ m' h'. or_unlink-unless (Absent target) tmp _ _ gone (fill.at m' h');
          }) in
          whole.at m h;
    })

module _ (svc : Service) (d : RunStagingDir) where
  open svc use {sys}

  -- the files of the layout, and the plan, do not stand where the marker will
  write_beside :
      (name : List ℕ)
      → (codes "READY" == name) ≡ false
      → (target : FilePath) (bytes : Bytes) → is_under (root d / name) (parent target) ≡ true
      → Keeps (Absent (ready_marker_path d)) (write_bytes_atomic sys.random_part target bytes)
  write_beside name n target bytes h =
      Keeps-write-Absent sys.random_part (ready_marker_path d) (marker-IsPlainName d) target
        (beside d name target n (is_under-parent (root d / name) target h)) bytes

  Keeps-layout : Keeps (Absent (ready_marker_path d)) (ensure_layout d)
  unfolding ensure_layout lake_dir share_dir events_dir list_eq nat_eq
  Keeps-layout =
      let inner : (name : List ℕ)
          → (codes "READY" == name) ≡ false
          → Keeps _ (ensure_dir (root d / name)) =
        λ name n.
          Keeps-ensure-Absent d (root d / name)
            (beside d name (root d / name) n (is_under_refl _)) in
      Keeps-bind _ _ (Keeps-ensure-Absent d (root d) (marker_deep d)) (λ _.
        Keeps-bind _ _ (inner (codes "lake") refl)
          (λ _. Keeps-bind _ _ (inner (codes "share") refl) (λ _. inner (codes "events") refl)))

  KeepsOutputs-Absent :
      (p : Predictions)
      → LeavesMarker svc.store d
      → KeepsOutputs svc d p (Absent (ready_marker_path d))
  unfolding lake_dir share_dir events_dir list_eq nat_eq
  KeepsOutputs-Absent p leaves = record {
    lake = write_beside (codes "lake") refl;
    share = write_beside (codes "share") refl;
    events = write_beside (codes "events") refl;
    checkpoint = leaves.absent p.cp_after;
  }

  Keeps-plan :
      (steps : List CommitStep)
      → Keeps (Absent (ready_marker_path d)) (write_commit_plan sys d steps)
  unfolding write_commit_plan commit_plan_path list_eq nat_eq
  Keeps-plan steps = Keeps-bind _ _ (Keeps-lift _) (λ bytes.
      Keeps-write-Absent sys.random_part (ready_marker_path d) (marker-IsPlainName d)
        (root d / codes "commit_plan.json")
        (beside d (codes "commit_plan.json") (root d / codes "commit_plan.json") refl
          (is_under_refl (root d / codes "commit_plan.json")))
        bytes)

  KeepsUnless-mark_ready : KeepsUnless (Absent (ready_marker_path d)) (mark_ready sys d)
  unfolding mark_ready ready_marker_path
  KeepsUnless-mark_ready =
      KeepsUnless-write_bytes_atomic sys.random_part (ready_marker_path d) (codes "READY\n")
        (marker-IsPlainName d)
        (Keeps-ensure-Absent d (parent (ready_marker_path d)) (
          ap (is_under (ready_marker_path d)) (parent-join (root d) (codes "READY"))
          ∙ marker_deep d))

  -- Unless the staging returns, the marker that was not there is not there.
  pub KeepsUnless-stage_run :
      (p : Predictions)
      → LeavesMarker svc.store d
      → KeepsUnless (Absent (ready_marker_path d)) (stage_run svc d p)
  unfolding stage_run
  KeepsUnless-stage_run p leaves = KeepsUnless-bind _ _ Keeps-layout (λ _.
      KeepsUnless-bind _ _ (Keeps-stage_outputs svc d p _ (KeepsOutputs-Absent p leaves) svc.specs)
        (λ steps. KeepsUnless-bind _ _ (Keeps-plan steps) (λ _. KeepsUnless-mark_ready)))
