-- ===== src/Pipeline/Commit/Beside.antt =====
-- What one run's renames and removals leave of another run's plan.
use incremental_sync_data_se.Base.{
  ◌≡◌, ◌≢◌, sym, ap, ◌∙◌, true, false, Option, List, [], ◌∷◌, All, All-weaken, arith, nat_eq,
  list_eq,
}
use incremental_sync_data_se.Machine.Tree.{FilePath, Node, Fs, node_at, exists, is_under}
use incremental_sync_data_se.Machine.Keeps.{Keeps, Keeps-pure, Keeps-gets, Keeps-if, Keeps-bind}
use incremental_sync_data_se.FileSystem.Frame.{node_at-mkdir_ne, node_at-os_replace_ne}
use incremental_sync_data_se.FileSystem.Crash.{Keeps-atomic_rename}
use incremental_sync_data_se.FileSystem.Within.{is_under_trans}
use incremental_sync_data_se.Pipeline.Plan.{CommitStep}
use incremental_sync_data_se.Pipeline.Staging.Removal.{IsCleared}
use incremental_sync_data_se.Pipeline.Commit.{execute_step, execute_steps}
use incremental_sync_data_se.Pipeline.Commit.Clear.{IsClear, Beside, Keeps-execute_step-All}

-- What the removal of another tree leaves clear.
pub cleared-IsClear :
    (top : FilePath) (fs fs' : Fs) (s : CommitStep)
    → IsCleared top fs fs'
    → IsClear fs s
    → IsClear fs' s
cleared-IsClear top fs fs' s cleared h = record {
  way = λ q on b found. ground (arith, cleared q, h.way q on b);
  live_free = λ found. ground (arith, cleared s.live_path, h.live_free);
  staged_free = λ found. ground (arith, cleared s.staged_path, h.staged_free);
}

-- a path in the directory of the runs that no step renames
pub Keeps-execute_steps_inside :
    (runs_root q : FilePath) {o : Option Node} (steps : List CommitStep)
    → is_under runs_root q ≡ true
    → All (λ (s : CommitStep). is_under runs_root s.live_path ≡ false) steps
    → All (λ (s : CommitStep). q ≢ s.staged_path) steps
    → Keeps (λ fs. node_at q fs ≡ o) (execute_steps steps)
unfolding execute_steps execute_step
Keeps-execute_steps_inside runs_root q [] in_root out other = Keeps-pure tt
Keeps-execute_steps_inside runs_root q (s ∷ steps) in_root out other =
    let not_above : (p : FilePath) → is_under p s.live_path ≡ true → q ≢ p = λ p on same. cc (
      is_under_trans runs_root p s.live_path (ap (is_under runs_root) (sym same) ∙ in_root) on,
      out.0,
    ) in
    let not_live : q ≢ s.live_path = λ same. cc (ap (is_under runs_root) same, in_root, out.0) in
    Keeps-bind _ _
      (Keeps-bind _ _ (Keeps-gets (exists s.staged_path)) (λ found.
        Keeps-if found _ _
          (Keeps-atomic_rename s.staged_path s.live_path _
            (λ p on fs fs' h e. node_at-mkdir_ne q fs p (not_above p on) e ∙ h)
            (λ fs fs' h e.
              node_at-os_replace_ne s.staged_path s.live_path fs q other.0 not_live e ∙ h))
          (Keeps-pure tt)))
      (λ _. Keeps-execute_steps_inside runs_root q steps in_root out.1 other.1)

-- The ways of other steps stay clear.
pub Keeps-execute_steps-All :
    (steps others : List CommitStep)
    → All (λ s. All (Beside s) others) steps
    → Keeps (λ fs. All (IsClear fs) others) (execute_steps steps)
unfolding execute_steps
Keeps-execute_steps-All [] others h = Keeps-pure tt
Keeps-execute_steps-All (s ∷ steps) others h =
    Keeps-bind _ _ (Keeps-execute_step-All s others h.0)
      (λ _. Keeps-execute_steps-All steps others h.1)

pub All-swap :
    (R : CommitStep → CommitStep → Type 0) (l k : List CommitStep)
    → All (λ t. All (R t) k) l
    → All (λ s. All (λ t. R t s) l) k
All-swap R l [] h = tt
All-swap R l (s ∷ k) h =
    (All-weaken _ _ l (λ t r. r.0) h, All-swap R l k (All-weaken _ _ l (λ t r. r.1) h))
