-- ===== src/Pipeline/Commit/Published.antt =====
-- What a commit does, in a process that is not cut off.
use incremental_sync_data_se.Base.{
  ◌≡◌, refl, ap, sym, ◌∙◌, true, false, some, none, List, All, All-both,
}
use incremental_sync_data_se.Machine.Tree.{FilePath, Fs, dir, node_at, is_under}
use incremental_sync_data_se.Machine.{Machine, Outcome, done, reboot}
use incremental_sync_data_se.Machine.Restart.{bind_of_done, changed_to}
use incremental_sync_data_se.FileSystem.Frame.{file_at, content}
use incremental_sync_data_se.Platform.{Platform}
use incremental_sync_data_se.Pipeline.Plan.{CommitStep}
use incremental_sync_data_se.Pipeline.Staging.{RunStagingDir, root, cleanup}
use incremental_sync_data_se.Pipeline.Staging.Removal.{RemovesAll, IsCleared, rmtree_clears}
use incremental_sync_data_se.Pipeline.Commit.{execute_steps, commit}
use incremental_sync_data_se.Pipeline.Commit.Crash.{IsCommittable, commit_lem, cleanup_there, there}
use incremental_sync_data_se.Pipeline.Commit.Steps.{Away}
use incremental_sync_data_se.Pipeline.Commit.Moved.{
  IsDistinct, IsMoved, execute_steps-IsMoved, Keeps-execute_steps_file, Keeps-execute_steps_dir,
}
use incremental_sync_data_se.Pipeline.Commit.Clear.{IsClear, IsOpen, Returns-execute_steps}

-- What must hold of a staged run for its commit to go through.
pub record IsPublishable (d : RunStagingDir) (fs : Fs) (steps : List CommitStep) : Type 0 where
  pub rooted : node_at (root d) fs ≡ some dir
  pub outside : All (λ (s : CommitStep). is_under (root d) s.live_path ≡ false) steps
  pub distinct : IsDistinct steps
  pub open_ways : IsOpen steps
  pub clear : All (IsClear fs) steps

-- the two parts of a commit: the renames, and the removal of the run's directory
pub commit-parts :
    (sys : Platform) (d : RunStagingDir) (m : Machine) (steps : List CommitStep)
    → RemovesAll sys
    → IsCommittable sys d m.fs steps
    → IsPublishable d m.fs steps
    → (fs : Fs) × (fs' : Fs) × (execute_steps steps (reboot m) ≡ (done tt, changed_to m fs none))
      × (commit sys d (reboot m) ≡ (done tt, changed_to m fs' none))
      × IsCleared (root d) fs fs'
commit-parts sys d m steps removes c p =
    let (fs, renamed, _) = (Returns-execute_steps steps c.separate p.open_ways).at m p.clear in
    let m₁ = changed_to m fs none in
    let rooted : node_at (root d) fs ≡ some dir =
      ap (λ (w : Outcome (Unit {0}) × Machine). node_at (root d) w.1.fs) (sym renamed)
      ∙ (Keeps-execute_steps_dir (root d) steps).at (reboot m) p.rooted in
    let (fs', cleared, at) = rmtree_clears sys removes (root d) m₁ rooted in
    (
      fs,
      fs',
      renamed,
      commit_lem sys d (reboot m) c
          ∙ bind_of_done (execute_steps steps) (λ _. cleanup sys d) (reboot m) renamed
          ∙ cleanup_there sys d m₁ (there (root d) fs rooted)
          ∙ cleared,
      at,
    )

-- If a staged run can be committed, no two of its steps share a file, the ways to the live paths are
-- clear and lead outside the run's directory, and `rmtree` removes all that it lists, then a commit
-- that is not cut off returns. Each file that a step staged is then at its live path, nothing is left
-- at or below the run's directory, and every other file is as it was.
pub commit-IsMoved :
    (sys : Platform) (d : RunStagingDir) (m : Machine) (steps : List CommitStep)
    → RemovesAll sys
    → IsCommittable sys d m.fs steps
    → IsPublishable d m.fs steps
    → (m' : Machine) × (commit sys d (reboot m) ≡ (done tt, m'))
      × All (IsMoved m.fs m'.fs) steps
      × ((q : FilePath) → is_under (root d) q ≡ true → node_at q m'.fs ≡ none)
      × ((q : FilePath)
          → is_under (root d) q ≡ false
          → All (Away q) steps
          → file_at q m'.fs ≡ file_at q m.fs)
unfolding file_at
commit-IsMoved sys d m steps removes c p =
    let (fs, fs', renamed, returned, at) = commit-parts sys d m steps removes c p in
    let m₁ = changed_to m fs none in
    let fs_of : Outcome (Unit {0}) × Machine → Fs = λ w. w.1.fs in
    let moved = execute_steps-IsMoved steps (reboot m) m₁ p.distinct renamed in
    (
      changed_to m fs' none,
      returned,
      All-both _ _ (IsMoved m.fs fs') steps
          (λ s out here b was. at s.live_path ∙ rw (out) (here b was)) p.outside moved,
      (λ q inside. at q ∙ rw (inside) refl),
      (λ q out away.
          ap content (at q ∙ rw (out) refl)
          ∙ ap (λ w. content (node_at q (fs_of w))) (sym renamed)
          ∙ (Keeps-execute_steps_file q steps away).at (reboot m) refl),
    )
