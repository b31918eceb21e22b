-- ===== src/Pipeline/Commit/Moved.antt =====
-- What the renames of a plan have done when they have all returned.
use incremental_sync_data_se.Base.{◌≡◌, ap, sym, ◌∙◌, some, List, [], ◌∷◌, All, All-both, Option}
use incremental_sync_data_se.Machine.Tree.{Bytes, FilePath, Fs, file, dir, node_at, exists}
use incremental_sync_data_se.Machine.{Machine, Outcome, done}
use incremental_sync_data_se.Machine.Keeps.{Keeps, Keeps-pure, Keeps-gets, Keeps-if, Keeps-bind}
use incremental_sync_data_se.Machine.Restart.{bind-done}
use incremental_sync_data_se.FileSystem.Frame.{file_at, node_at-mkdir_dir, node_at-os_replace_dir}
use incremental_sync_data_se.FileSystem.Crash.{Keeps-atomic_rename}
use incremental_sync_data_se.FileSystem.Renamed.{atomic_rename-done}
use incremental_sync_data_se.Pipeline.Plan.{CommitStep}
use incremental_sync_data_se.Pipeline.Commit.{execute_step, execute_steps}
use incremental_sync_data_se.Pipeline.Commit.Crash.{there}
use incremental_sync_data_se.Pipeline.Commit.Steps.{
  Away, Keeps-execute_step_node, Keeps-execute_steps_node, execute_step_there,
}
use incremental_sync_data_se.Pipeline.Commit.Last.{Keeps-execute_step_file}

-- No two steps share a file.
abbrev pub IsDistinct : List CommitStep → Type 0
IsDistinct [] = Unit
IsDistinct (s ∷ steps) =
    All (Away s.live_path) steps
    × All (λ (t : CommitStep). Away t.staged_path s) steps
    × IsDistinct steps

-- the file that a step staged is at its live path
abbrev pub IsMoved : Fs → Fs → CommitStep → Type 0
IsMoved before after s =
    (b : Bytes)
    → node_at s.staged_path before ≡ some (file b)
    → node_at s.live_path after ≡ some (file b)

execute_step-IsMoved :
    (s : CommitStep) (m m' : Machine) → execute_step s m ≡ (done tt, m') → IsMoved m.fs m'.fs s
execute_step-IsMoved s m m' h b was =
    atomic_rename-done s.staged_path s.live_path m m'
      (sym (execute_step_there s m (there s.staged_path m.fs was)) ∙ h) was

pub execute_steps-IsMoved :
    (steps : List CommitStep) (m m' : Machine)
    → IsDistinct steps
    → execute_steps steps m ≡ (done tt, m')
    → All (IsMoved m.fs m'.fs) steps
unfolding execute_steps
execute_steps-IsMoved [] m m' apart h = tt
execute_steps-IsMoved (s ∷ steps) m m' apart h =
    let (_, m₁, first, next) = bind-done (execute_step s) (λ _. execute_steps steps) m h in
    let fs_of : Outcome (Unit {0}) × Machine → Fs = λ w. w.1.fs in
    let here : IsMoved m.fs m'.fs s = λ b was.
      ap (λ w. node_at s.live_path (fs_of w)) (sym next)
      ∙ (Keeps-execute_steps_node s.live_path steps apart.0).at m₁
          (execute_step-IsMoved s m m₁ first b was) in
    (
      here,
      All-both (λ (t : CommitStep). Away t.staged_path s) (IsMoved m₁.fs m'.fs) (IsMoved m.fs m'.fs)
          steps
          (λ t away moved b was. moved b (
            ap (λ w. node_at t.staged_path (fs_of w)) (sym first)
            ∙ (Keeps-execute_step_node t.staged_path s away).at m was))
          apart.1 (execute_steps-IsMoved steps m₁ m' apart.2 next),
    )

-- every other file stays
pub Keeps-execute_steps_file :
    (q : FilePath) {b : Option Bytes} (steps : List CommitStep)
    → All (Away q) steps
    → Keeps (λ fs. file_at q fs ≡ b) (execute_steps steps)
unfolding execute_steps
Keeps-execute_steps_file q [] away = Keeps-pure tt
Keeps-execute_steps_file q (s ∷ steps) away =
    Keeps-bind _ _ (Keeps-execute_step_file q s away.0)
      (λ _. Keeps-execute_steps_file q steps away.1)

-- and so does every directory
pub Keeps-execute_steps_dir :
    (q : FilePath) (steps : List CommitStep)
    → Keeps (λ fs. node_at q fs ≡ some dir) (execute_steps steps)
unfolding execute_steps execute_step
Keeps-execute_steps_dir q [] = Keeps-pure tt
Keeps-execute_steps_dir q (s ∷ steps) =
    Keeps-bind _ _
      (Keeps-bind _ _ (Keeps-gets (exists s.staged_path)) (λ found.
        Keeps-if found _ _
          (Keeps-atomic_rename s.staged_path s.live_path _
            (λ p _ fs fs' h e. node_at-mkdir_dir q fs p e h)
            (λ fs fs' h e. node_at-os_replace_dir s.staged_path s.live_path fs q e h))
          (Keeps-pure tt)))
      (λ _. Keeps-execute_steps_dir q steps)
