-- ===== src/Pipeline/Commit.antt =====
-- pipeline/commit.py: the commit of a staged run, and the sweep that finishes or discards what an
-- earlier process left behind. Log lines are left out.
pub mod Steps
pub mod Crash
pub mod Discard
pub mod Sweep
pub mod Beside
pub mod Listed
pub mod Rounds
pub mod Pending
pub mod Last
pub mod Moved
pub mod Clear
pub mod Published
use incremental_sync_data_se.Base.{
  ℕ, Bool, true, false, Option, none, some, List, [], ◌∷◌, ◌++◌, Error, os_error, runtime_error,
  if◌then◌else◌, ◌==◌, nat_eq, list_eq,
}
use incremental_sync_data_se.Base.Dict
use incremental_sync_data_se.Base.Sort.{lex_le}
use incremental_sync_data_se.Source.Sorting.{sort_with}
use incremental_sync_data_se.Time.{Text}
use incremental_sync_data_se.Machine.Tree.{
  Node, dir, file, FilePath, Node, dir, file, Fs, exists, is_dir_node, node_at,
}
use incremental_sync_data_se.Machine.{M, ◌>>=◌, ◌>>◌, pure, raise, gets}
use incremental_sync_data_se.FileSystem.{atomic_rename}
use incremental_sync_data_se.Platform.{Platform}
use incremental_sync_data_se.Pipeline.Plan.{CommitStep}
use incremental_sync_data_se.Pipeline.Staging.{
  RunStagingDir, make, root, is_ready, load_commit_plan, rmtree, cleanup,
}

-- A staged file that is gone was renamed by an earlier attempt.
unfoldable pub execute_step : CommitStep → M (Unit {0})
execute_step step = do
  there ← gets (exists step.staged_path)
  if there then atomic_rename step.staged_path step.live_path else pure tt

unfoldable pub execute_steps : List CommitStep → M (Unit {0})
execute_steps [] = pure tt
execute_steps (step ∷ steps) = do execute_step step; execute_steps steps

-- the name of a path that lies directly in a directory
unfoldable pub name_in : FilePath → FilePath → Option Text
name_in [] [] = none
name_in [] (n ∷ []) = some n
name_in [] (n ∷ k ∷ p) = none
name_in (r ∷ top) [] = none
name_in (r ∷ top) (n ∷ p) = let rest = name_in top p in if r == n then rest else none

abbrev add_name : Option Text → Option Node → List Text → List Text
add_name (some n) (some dir) names = n ∷ names
add_name _ _ names = names

-- the directories among some entries that lie directly in `top`
unfoldable pub dirs_among : FilePath → Fs → List Text
unfolding name_in
dirs_among top [] = []
dirs_among top ((p, node) ∷ fs) = add_name (name_in top p) (some node) (dirs_among top fs)

-- `sorted(p for p in top.iterdir() if p.is_dir())`, by their names
unfoldable pub run_dirs : FilePath → Fs → List Text
unfolding dirs_among
run_dirs top fs = sort_with lex_le (dirs_among top fs)

module _ (sys : Platform) where
  -- what follows once the marker was seen
  unfoldable pub finish : RunStagingDir → M (Unit {0})
  finish staging = do plan ← load_commit_plan sys staging; execute_steps plan; cleanup sys staging

  unfoldable pub commit : RunStagingDir → M (Unit {0})
  commit staging = do
    ready ← gets (is_ready staging)
    if ready then pure tt else raise runtime_error
    finish staging

  -- one round of the loop of `resume_pending`
  unfoldable pub resume_run : FilePath → Text → M (Unit {0})
  resume_run runs_root name = do
    let staging : RunStagingDir = record { runs_root = runs_root; run_id = name }
    ready ← gets (is_ready staging)
    if ready then finish staging else rmtree sys (root staging)

  unfoldable pub resume_all : FilePath → List Text → M (List Text)
  resume_all runs_root [] = pure []
  resume_all runs_root (name ∷ names) = do
    resume_run runs_root name
    processed ← resume_all runs_root names
    pure (name ∷ processed)

  -- `iterdir` on what is at the path: nothing, a directory or a file
  abbrev entering : Option Node → M (List Text) → M (List Text)
  entering none sweep = pure []
  entering (some dir) sweep = sweep
  entering (some (file b)) sweep = raise os_error

  unfoldable pub resume_pending : FilePath → M (List Text)
  resume_pending runs_root = do
    found ← gets (node_at runs_root)
    names ← gets (run_dirs runs_root)
    entering found (resume_all runs_root names)
