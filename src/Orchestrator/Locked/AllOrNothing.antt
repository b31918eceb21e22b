-- ===== src/Orchestrator/Locked/AllOrNothing.antt =====
-- A publication that is cut off anywhere, and the next process's sweep over its run.
use incremental_sync_data_se.Base.{
  ◌≡◌, refl, sym, ap, ◌∙◌, ◌⊎◌, ◌≢◌, inl, inr, true, false, Option, some, none, nat_eq, list_eq, ok,
  arith,
}
use incremental_sync_data_se.Machine.{Machine, done, crashed, reboot, ◌>>◌}
use incremental_sync_data_se.Machine.Tree.{FilePath, Node, dir, file, Fs, is_under, node_at, exists}
use incremental_sync_data_se.Machine.Restart.{bind-crashed, changed_to}
use incremental_sync_data_se.FileSystem.Frame.{file_at, content}
use incremental_sync_data_se.FileSystem.Kept.{Absent}
use incremental_sync_data_se.Pipeline.Staging.{
  RunStagingDir, make, root, ready_marker_path, is_ready,
}
use incremental_sync_data_se.Pipeline.Staging.Removal.{RemovesAll, IsCleared}
use incremental_sync_data_se.Pipeline.Commit.{commit, resume_run}
use incremental_sync_data_se.Pipeline.Commit.Crash.{GoesOn, resume_run-commit}
use incremental_sync_data_se.Pipeline.Commit.Discard.{resume_run-discards}
use incremental_sync_data_se.Orchestrator.Stage.{Predictions, runs_dir}
use incremental_sync_data_se.Orchestrator.Locked.{Service, stage_run, publish}
use incremental_sync_data_se.Orchestrator.Locked.Staged.{StagesWithin, stage_run-outside}
use incremental_sync_data_se.Time.{Text}
use incremental_sync_data_se.Orchestrator.Locked.Places.{IsLaidOut}
use incremental_sync_data_se.Orchestrator.Locked.Committable.{ReadsPlan, stage_run-staged}
use incremental_sync_data_se.Orchestrator.Locked.Marker.{LeavesMarker, KeepsUnless-stage_run}

absent : (d : RunStagingDir) (fs : Fs) → is_ready d fs ≡ false → Absent (ready_marker_path d) fs
unfolding is_ready exists
absent d fs h = ground arith

unready : (d : RunStagingDir) (fs : Fs) → Absent (ready_marker_path d) fs → is_ready d fs ≡ false
unfolding is_ready exists
unready d fs h = ground arith

module _ (svc : Service) (p : Predictions) (d : RunStagingDir) (m m' : Machine) where
  open svc use {sys, store}

  stage_run-unready :
      LeavesMarker store d
      → is_ready d m.fs ≡ false
      → stage_run svc d p m ≡ (crashed, m')
      → is_ready d m'.fs ≡ false
  stage_run-unready leaves fresh early =
      elim ((KeepsUnless-stage_run svc d p leaves).at m (absent d m.fs fresh)) [
        | inl returned ↦ absurd (let cut = ap (λ w. w.0) early in cc)
        | inr gone ↦
            unready d m'.fs (ap (λ w. node_at (ready_marker_path d) w.1.fs) (sym early) ∙ gone)
      ]

  pub publish_lem :
      make (runs_dir svc.settings) p.run_id ≡ ok d
      → publish svc p m ≡ (stage_run svc d p >> commit sys d) m
  unfolding publish
  publish_lem made = rw (made) refl

  untouched :
      (q : FilePath)
      → StagesWithin store d
      → is_under (root d) q ≡ false
      → stage_run svc d p m ≡ (crashed, m')
      → file_at q m'.fs ≡ file_at q m.fs
  unfolding file_at
  untouched q within outside early =
      ap (λ w. content (node_at q w.1.fs)) (sym early)
      ∙ stage_run-outside svc d p m within q outside

  discarded :
      (q : FilePath) (fs : Fs)
      → StagesWithin store d
      → is_under (root d) q ≡ false
      → stage_run svc d p m ≡ (crashed, m')
      → IsCleared (root d) m'.fs fs
      → file_at q fs ≡ file_at q m.fs
  unfolding file_at
  discarded q fs within outside early cleared =
      let here : node_at q fs ≡ node_at q m'.fs = cleared q ∙ rw (outside) refl in
      ap content here ∙ untouched q within outside early

is_dir_or_not : (o : Option Node) → (o ≡ some dir) ⊎ (o ≢ some dir)
is_dir_or_not none = inr (λ e. cc)
is_dir_or_not (some dir) = inl refl
is_dir_or_not (some (file b)) = inr (λ e. cc)

pub made-run_id :
    (runs_root : FilePath) (id : Text) (d : RunStagingDir)
    → make runs_root id ≡ ok d
    → id ≡ d.run_id
unfolding make
made-run_id runs_root id d h = ground arith

-- `rmtree` removes all that it lists, in any order; the store stages within the run's directory and does
-- not make the marker, which is not there at the start; the places of the outputs have names and lie
-- apart from the run's directory; `json.loads` reads the plan that is printed; and the commit of the
-- staged run returns when it is not cut off. If the publication of the run is cut off at any change,
-- then one of two holds. Every file outside the run's directory is as it was before, and either there
-- is no such directory or the next process's sweep over the run returns, still leaves those files as
-- they were, and removes the directory. Or the run was staged: then the sweep over the run returns and
-- every path is as its whole commit leaves it; or the clean-up was cut off when the plan was gone and
-- the marker was not, or the run's directory was gone, and every path outside that directory is
-- already as the whole commit leaves it.
pub publish_all_or_nothing :
    (svc : Service) (p : Predictions) (d : RunStagingDir) (m m' : Machine)
    → make (runs_dir svc.settings) p.run_id ≡ ok d
    → RemovesAll svc.sys
    → StagesWithin svc.store d
    → LeavesMarker svc.store d
    → is_ready d m.fs ≡ false
    → IsLaidOut svc d
    → ReadsPlan svc d p m
    → ((m₁ : Machine)
        → stage_run svc d p m ≡ (done tt, m₁)
        → (m₂ : Machine) × (commit svc.sys d (reboot m₁) ≡ (done tt, m₂)))
    → publish svc p m ≡ (crashed, m')
    → (((q : FilePath) → is_under (root d) q ≡ false → file_at q m'.fs ≡ file_at q m.fs)
        × ((node_at (root d) m'.fs ≢ some dir)
            ⊎ ((m₃ : Machine) × (resume_run svc.sys d.runs_root d.run_id (reboot m')
                  ≡ (done tt, m₃))
                × ((q : FilePath) → is_under (root d) q ≡ false → file_at q m₃.fs ≡ file_at q m.fs)
                × ((q : FilePath) → is_under (root d) q ≡ true → node_at q m₃.fs ≡ none))))
      ⊎ ((m₁ : Machine) × (m₂ : Machine) × (stage_run svc d p m ≡ (done tt, m₁))
          × (commit svc.sys d (reboot m₁) ≡ (done tt, m₂))
          × GoesOn svc.sys d m' m₂)
publish_all_or_nothing svc p d m m' made removes within leaves fresh laid reads returns cut =
    elim (bind-crashed (stage_run svc d p) (λ _. commit svc.sys d) m
      (sym (publish_lem svc p d m m' made) ∙ cut)) [
        | inl early ↦
            let unready = stage_run-unready svc p d m m' leaves fresh early in
            inl (
              λ q outside. untouched svc p d m m' q within outside early,
              elim (is_dir_or_not (node_at (root d) m'.fs)) [
                | inr absent ↦ inl absent
                | inl rooted ↦
                    let (fs, resumed, cleared) =
                      resume_run-discards svc.sys d m' removes rooted unready in
                    inr (
                      changed_to m' fs none,
                      resumed,
                      (λ q outside. discarded svc p d m m' q fs within outside early cleared),
                      (λ q inside. cleared q ∙ rw (inside) refl),
                    )
              ],
            )
        | inr (_, m₁, first, late) ↦
            let same = made-run_id (runs_dir svc.settings) p.run_id d made in
            let (steps, _, _, _, committable) =
              stage_run-staged svc d p m m₁ same laid reads first in
            let (m₂, whole) = returns m₁ first in
            inr (
              m₁,
              m₂,
              first,
              whole,
              resume_run-commit svc.sys d removes m₁ committable m' m₂ late whole,
            )
      ]
