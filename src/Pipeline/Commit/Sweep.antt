-- ===== src/Pipeline/Commit/Sweep.antt =====
-- The runs of a sweep.
use incremental_sync_data_se.Base.{◌≡◌, Bool, false, ◌||◌, some, List, [], ◌∷◌, nat_eq, list_eq}
use incremental_sync_data_se.Time.{Text}
use incremental_sync_data_se.Machine.Tree.{FilePath, dir, Fs, ◌/◌, node_at, is_under}
use incremental_sync_data_se.Pipeline.Staging.{RunStagingDir, is_ready}

-- a run of the sweep
abbrev pub run_of : FilePath → Text → RunStagingDir
run_of runs_root name = record { runs_root = runs_root; run_id = name }

-- whether a path is at or below the directory of one of the runs
abbrev pub in_runs : FilePath → List Text → FilePath → Bool
in_runs runs_root [] q = false
in_runs runs_root (name ∷ names) q = is_under (runs_root / name) q || in_runs runs_root names q

-- a run's directory that has no marker
abbrev pub IsUnready : FilePath → Fs → Text → Type 0
IsUnready runs_root fs name =
    (node_at (runs_root / name) fs ≡ some dir) × (is_ready (run_of runs_root name) fs ≡ false)
