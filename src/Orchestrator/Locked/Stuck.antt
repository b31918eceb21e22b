-- ===== src/Orchestrator/Locked/Stuck.antt =====
-- A run whose marker is there and whose plan is gone, which a cut-off `rmtree` may leave behind.
use incremental_sync_data_se.Base.{◌≡◌, refl, ◌∙◌, Bool, true, some, none, List, ◌∷◌, os_error}
use incremental_sync_data_se.Time.{Text}
use incremental_sync_data_se.Machine.Tree.{Node, dir, file, exists, node_at}
use incremental_sync_data_se.Machine.{Machine, raised}
use incremental_sync_data_se.Pipeline.Staging.{
  RunStagingDir, is_ready, commit_plan_path, plan_in, read_bytes, load_commit_plan,
}
use incremental_sync_data_se.Pipeline.Commit.{
  finish, resume_run, resume_all, resume_pending, run_dirs,
}
use incremental_sync_data_se.Pipeline.Commit.Crash.{some_node, resume_run_ready}
use incremental_sync_data_se.Orchestrator.Stage.{runs_dir}
use incremental_sync_data_se.Orchestrator.Locked.{Service, run_locked}

module _ (svc : Service) (m : Machine) (name : Text) (names : List Text) where
  abbrev staging : RunStagingDir
  staging = record { runs_root = runs_dir svc.settings; run_id = name }

  -- whether a directory or a file is there, what is raised is an `OSError`
  entered :
      (n : Node)
      → node_at (runs_dir svc.settings) m.fs ≡ some n
      → resume_run svc.sys (runs_dir svc.settings) name m ≡ (raised os_error, m)
      → run_dirs (runs_dir svc.settings) m.fs ≡ name ∷ names
      → resume_pending svc.sys (runs_dir svc.settings) m ≡ (raised os_error, m)
  unfolding resume_pending resume_all
  entered dir found first listed = rw (found, listed, first) refl
  entered (file b) found first listed = rw (found) refl

  -- If the first run in the directory of runs has its marker and no plan, the sweep raises the error
  -- of the missing file and leaves the machine as it is.
  pub resume_pending-stuck :
      exists (runs_dir svc.settings) m.fs ≡ true
      → run_dirs (runs_dir svc.settings) m.fs ≡ name ∷ names
      → is_ready (record { runs_root = runs_dir svc.settings; run_id = name }) m.fs ≡ true
      → node_at
          (commit_plan_path (record { runs_root = runs_dir svc.settings; run_id = name }))
          m.fs
        ≡ none
      → resume_pending svc.sys (runs_dir svc.settings) m ≡ (raised os_error, m)
  unfolding resume_pending resume_all finish load_commit_plan plan_in read_bytes
  resume_pending-stuck there listed ready gone =
      let first : resume_run svc.sys (runs_dir svc.settings) name m ≡ (raised os_error, m) =
        resume_run_ready svc.sys staging m ready ∙ rw gone refl in
      let (n, found) = some_node (runs_dir svc.settings) m.fs there in entered n found first listed

  -- If the first run in the directory of runs has its marker and no plan, a run, dry or real, raises the
  -- error of the missing file and leaves the machine as it is.
  pub run_locked-stuck :
      (dry_run : Bool)
      → exists (runs_dir svc.settings) m.fs ≡ true
      → run_dirs (runs_dir svc.settings) m.fs ≡ name ∷ names
      → is_ready (record { runs_root = runs_dir svc.settings; run_id = name }) m.fs ≡ true
      → node_at
          (commit_plan_path (record { runs_root = runs_dir svc.settings; run_id = name }))
          m.fs
        ≡ none
      → run_locked svc dry_run m ≡ (raised os_error, m)
  unfolding run_locked
  run_locked-stuck dry_run there listed ready gone =
      rw (resume_pending-stuck there listed ready gone) refl
