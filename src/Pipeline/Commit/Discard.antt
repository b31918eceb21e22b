-- ===== src/Pipeline/Commit/Discard.antt =====
-- The sweep over a run that was not ready.
use incremental_sync_data_se.Base.{◌≡◌, ◌∙◌, false, some, none}
use incremental_sync_data_se.Machine.Tree.{Fs, dir, node_at}
use incremental_sync_data_se.Machine.{Machine, done, reboot}
use incremental_sync_data_se.Machine.Restart.{changed_to}
use incremental_sync_data_se.Platform.{Platform}
use incremental_sync_data_se.Pipeline.Staging.{RunStagingDir, root, is_ready}
use incremental_sync_data_se.Pipeline.Staging.Removal.{RemovesAll, IsCleared, rmtree_clears}
use incremental_sync_data_se.Pipeline.Commit.{resume_run}
use incremental_sync_data_se.Pipeline.Commit.Crash.{resume_run_unready}

-- The sweep over a run's directory without a marker, in a process that is not cut off, returns, removes every path
-- at or below the run's directory and leaves every other path as it was, if `rmtree` removes all that it
-- lists and nothing else.
pub resume_run-discards :
    (sys : Platform) (d : RunStagingDir) (m : Machine)
    → RemovesAll sys
    → node_at (root d) m.fs ≡ some dir
    → is_ready d m.fs ≡ false
    → (fs : Fs) × (resume_run sys d.runs_root d.run_id (reboot m) ≡ (done tt, changed_to m fs none))
      × IsCleared (root d) m.fs fs
resume_run-discards sys d m removes rooted unready =
    let (fs, cleared, at) = rmtree_clears sys removes (root d) m rooted in
    (fs, resume_run_unready sys d (reboot m) unready ∙ cleared, at)
