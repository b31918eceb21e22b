-- ===== src/Orchestrator/Locked/Published.antt =====
-- A publication that is not cut off.
use mathlib.Core.Path.{subst}
use incremental_sync_data_se.Base.{
  ◌≡◌, sym, ap, ◌∙◌, true, false, some, none, List, ok, All, All-weaken,
}
use incremental_sync_data_se.Machine.{Machine, Outcome, done, reboot}
use incremental_sync_data_se.Machine.Restart.{bind_of_done}
use incremental_sync_data_se.Machine.Tree.{FilePath, dir, node_at, is_under}
use incremental_sync_data_se.FileSystem.Frame.{file_at}
use incremental_sync_data_se.Pipeline.Plan.{CommitStep}
use incremental_sync_data_se.Pipeline.Staging.{RunStagingDir, make, root}
use incremental_sync_data_se.Pipeline.Staging.Removal.{RemovesAll}
use incremental_sync_data_se.Pipeline.Commit.{commit}
use incremental_sync_data_se.Pipeline.Commit.Steps.{Away}
use incremental_sync_data_se.Pipeline.Commit.Moved.{IsDistinct, IsMoved}
use incremental_sync_data_se.Pipeline.Commit.Clear.{IsClear}
use incremental_sync_data_se.Pipeline.Commit.Crash.{IsCommittable}
use incremental_sync_data_se.Pipeline.Commit.Published.{IsPublishable, commit-IsMoved}
use incremental_sync_data_se.Orchestrator.Stage.{Predictions, runs_dir}
use incremental_sync_data_se.Orchestrator.Locked.{Service, stage_run, publish}
use incremental_sync_data_se.Orchestrator.Locked.Places.{IsPlaced, IsLaidOut}
use incremental_sync_data_se.Orchestrator.Locked.Zones.{IsSpread, All-IsZoned-IsOpen}
use incremental_sync_data_se.Orchestrator.Locked.Committable.{
  ReadsPlan, steps_of, staged_steps, stage_run-staged,
}
use incremental_sync_data_se.Orchestrator.Locked.AllOrNothing.{publish_lem, made-run_id}

-- What a staging returns can be committed, and its targets do not bar one another.
staged-IsPublishable :
    (svc : Service) (p : Predictions) (d : RunStagingDir) (m a m₁ : Machine)
    (steps : List CommitStep)
    → p.run_id ≡ d.run_id
    → IsLaidOut svc d
    → IsSpread svc.settings
    → ReadsPlan svc d p m
    → staged_steps svc d p m ≡ (done steps, a)
    → stage_run svc d p m ≡ (done tt, m₁)
    → node_at (root d) m₁.fs ≡ some dir
    → IsDistinct steps
    → All (IsClear m₁.fs) steps
    → IsCommittable svc.sys d m₁.fs steps × IsPublishable d m₁.fs steps
staged-IsPublishable svc p d m a m₁ steps same laid spread reads planned staged rooted distinct
      clear =
    let (own, a', planned', all_placed, all_committable) =
      stage_run-staged svc d p m m₁ same laid reads staged in
    let e : own ≡ steps =
      ap (λ (w : Outcome (List CommitStep) × Machine). steps_of w.0) (sym planned' ∙ planned) in
    let placed = subst (All (IsPlaced svc.settings d)) e all_placed in
    (
      subst (IsCommittable svc.sys d m₁.fs) e all_committable,
      record {
        rooted = rooted;
        outside = All-weaken (IsPlaced svc.settings d) _ steps (λ s h. h.outside) placed;
        distinct = distinct;
        open_ways =
            All-IsZoned-IsOpen svc.settings spread steps
              (All-weaken (IsPlaced svc.settings d) _ steps (λ s h. h.zoned) placed);
        clear = clear;
      },
    )

-- The run's directory is named after the run; the places of the outputs have names, lie apart from that
-- directory and from one another; `json.loads` reads the printed plan; and `rmtree` removes all that it
-- lists. If the staging returns in a process that is not cut off and leaves the run's directory in
-- place, no two steps of its plan share a file, and no directory or file bars the way to a live path,
-- then the publication returns. Each file that a step staged is then at its live path, nothing is left
-- at or below the run's directory, and every other file is as the staging left it.
pub publish-IsMoved :
    (svc : Service) (p : Predictions) (d : RunStagingDir) (m a m₁ : Machine)
    (steps : List CommitStep)
    → make (runs_dir svc.settings) p.run_id ≡ ok d
    → RemovesAll svc.sys
    → IsLaidOut svc d
    → IsSpread svc.settings
    → ReadsPlan svc d p m
    → staged_steps svc d p m ≡ (done steps, a)
    → stage_run svc d p m ≡ (done tt, reboot m₁)
    → node_at (root d) m₁.fs ≡ some dir
    → IsDistinct steps
    → All (IsClear m₁.fs) steps
    → (m' : Machine) × (publish svc p m ≡ (done tt, m'))
      × All (IsMoved m₁.fs m'.fs) steps
      × ((q : FilePath) → is_under (root d) q ≡ true → node_at q m'.fs ≡ none)
      × ((q : FilePath)
          → is_under (root d) q ≡ false
          → All (Away q) steps
          → file_at q m'.fs ≡ file_at q m₁.fs)
publish-IsMoved svc p d m a m₁ steps made removes laid spread reads planned staged rooted distinct
      clear =
    let same = made-run_id (runs_dir svc.settings) p.run_id d made in
    let (committable, publishable) =
      staged-IsPublishable svc p d m a (reboot m₁) steps same laid spread reads planned staged
        rooted distinct clear in
    let (m', returned, moved, gone, kept) =
      commit-IsMoved svc.sys d m₁ steps removes committable publishable in
    (
      m',
      publish_lem svc p d m m' made
          ∙ bind_of_done (stage_run svc d p) (λ _. commit svc.sys d) m staged
          ∙ returned,
      moved,
      gone,
      kept,
    )
