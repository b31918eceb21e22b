-- ===== src/Pipeline/Commit/Steps.antt =====
-- The renames of a plan, cut off at any point and executed again by the next process.
use mathlib.Core.Path.{subst}
use incremental_sync_data_se.Base.{
  ◌≡◌, refl, ap, sym, ◌∙◌, ◌≢◌, true, false, none, some, List, [], ◌∷◌, inl, inr, All, All-weaken,
  Bool-cases, arith,
}
use incremental_sync_data_se.Machine.Tree.{FilePath, Node, node_at, exists, is_under}
use incremental_sync_data_se.Machine.{Machine, Outcome, done, crashed, continue, reboot}
use incremental_sync_data_se.Machine.Keeps.{Keeps, Keeps-pure, Keeps-gets, Keeps-if, Keeps-bind}
use incremental_sync_data_se.Machine.Restart.{
  bind_of_done, bind-done, bind-crashed, Steady, Steady-pure, Steady-gets, Steady-if, Steady-bind,
}
use incremental_sync_data_se.FileSystem.{atomic_rename}
use incremental_sync_data_se.FileSystem.Frame.{exists-mkdir}
use incremental_sync_data_se.FileSystem.Crash.{
  is_under_refl, atomic_rename_restart, Steady-atomic_rename, Keeps-atomic_rename_absent,
  Keeps-atomic_rename_node, atomic_rename_src, atomic_rename_crashed,
}
use incremental_sync_data_se.Pipeline.Plan.{CommitStep}
use incremental_sync_data_se.Pipeline.Commit.{execute_step, execute_steps}

-- No step's target is at or below the staged file of another or of itself.
abbrev pub Apart : FilePath → CommitStep → Type 0
Apart staged t = is_under staged t.live_path ≡ false

abbrev pub IsSeparate : List CommitStep → Type 0
IsSeparate steps = All (λ (s : CommitStep). All (Apart s.staged_path) steps) steps

Steady-execute_step : (s : CommitStep) → Steady (execute_step s)
unfolding execute_step
Steady-execute_step s =
    Steady-bind _ _ (Steady-gets _)
      (λ b. Steady-if b _ _ (Steady-atomic_rename s.staged_path s.live_path) (Steady-pure tt))

Keeps-execute_step_absent :
    (q : FilePath) (s : CommitStep) → Apart q s → Keeps (λ fs. node_at q fs ≡ none) (execute_step s)
unfolding execute_step
Keeps-execute_step_absent q s apart = Keeps-bind _ _ (Keeps-gets _) (λ b.
    Keeps-if b _ _ (Keeps-atomic_rename_absent s.staged_path s.live_path q apart) (Keeps-pure tt))

pub Keeps-execute_steps_absent :
    (q : FilePath) (steps : List CommitStep)
    → All (Apart q) steps
    → Keeps (λ fs. node_at q fs ≡ none) (execute_steps steps)
unfolding execute_steps
Keeps-execute_steps_absent q [] apart = Keeps-pure tt
Keeps-execute_steps_absent q (s ∷ steps) apart =
    Keeps-bind _ _ (Keeps-execute_step_absent q s apart.0)
      (λ _. Keeps-execute_steps_absent q steps apart.1)

-- A path that no step renames from or to.
abbrev pub Away : FilePath → CommitStep → Type 0
Away q s = (q ≢ s.staged_path) × (q ≢ s.live_path)

pub Keeps-execute_step_node :
    (q : FilePath) {n : Node} (s : CommitStep)
    → Away q s
    → Keeps (λ fs. node_at q fs ≡ some n) (execute_step s)
unfolding execute_step
Keeps-execute_step_node q s away = Keeps-bind _ _ (Keeps-gets _) (λ b.
    Keeps-if b _ _ (Keeps-atomic_rename_node s.staged_path s.live_path q away.0 away.1)
      (Keeps-pure tt))

pub Keeps-execute_steps_node :
    (q : FilePath) {n : Node} (steps : List CommitStep)
    → All (Away q) steps
    → Keeps (λ fs. node_at q fs ≡ some n) (execute_steps steps)
unfolding execute_steps
Keeps-execute_steps_node q [] away = Keeps-pure tt
Keeps-execute_steps_node q (s ∷ steps) away =
    Keeps-bind _ _ (Keeps-execute_step_node q s away.0)
      (λ _. Keeps-execute_steps_node q steps away.1)

pub Steady-execute_steps : (steps : List CommitStep) → Steady (execute_steps steps)
unfolding execute_steps
Steady-execute_steps [] = Steady-pure tt
Steady-execute_steps (s ∷ steps) =
    Steady-bind _ _ (Steady-execute_step s) (λ _. Steady-execute_steps steps)

module _ (s : CommitStep) (m : Machine) where
  pub execute_step_there :
      exists s.staged_path m.fs ≡ true
      → execute_step s m ≡ atomic_rename s.staged_path s.live_path m
  unfolding execute_step
  execute_step_there e = rw e

  -- A step whose staged file is gone changes nothing.
  pub execute_step_gone : exists s.staged_path m.fs ≡ false → execute_step s m ≡ (done tt, m)
  unfolding execute_step
  execute_step_gone e = rw e

  absent : exists s.staged_path m.fs ≡ false → node_at s.staged_path m.fs ≡ none
  unfolding exists
  absent e = ground arith

gone :
    (s : CommitStep) (m : Machine)
    → node_at s.staged_path m.fs ≡ none
    → exists s.staged_path m.fs ≡ false
unfolding exists
gone s m h = ground arith

-- After a step its staged file is gone.
execute_step_done :
    (s : CommitStep) (m m' : Machine)
    → Apart s.staged_path s
    → execute_step s m ≡ (done tt, m')
    → node_at s.staged_path m'.fs ≡ none
execute_step_done s m m' apart h = elim (Bool-cases (exists s.staged_path m.fs)) [
  | inl e ↦
      atomic_rename_src s.staged_path s.live_path
        (λ same. cc (
          ap (λ (p : FilePath). is_under s.staged_path p) same,
          is_under_refl s.staged_path,
          apart,
        ))
        m m' (sym (execute_step_there s m e) ∙ h)
  | inr e ↦
      ap (λ (r : Outcome (Unit {0}) × Machine). node_at s.staged_path r.1.fs)
        (sym h ∙ execute_step_gone s m e)
      ∙ absent s m e
]

execute_step_restart :
    (s : CommitStep) (m m' : Machine)
    → execute_step s m ≡ (crashed, m')
    → execute_step s (reboot m') ≡ execute_step s (reboot m)
execute_step_restart s m m' h = elim (Bool-cases (exists s.staged_path m.fs)) [
  | inl e ↦
      let cut = sym (execute_step_there s m e) ∙ h in
      let still =
        atomic_rename_crashed s.staged_path s.live_path (λ fs. exists s.staged_path fs ≡ true)
          (λ p fs fs' there made. exists-mkdir s.staged_path fs p made there) m m' cut e in
      execute_step_there s (reboot m') still
      ∙ atomic_rename_restart s.staged_path s.live_path m m' cut
      ∙ sym (execute_step_there s (reboot m) e)
  | inr e ↦ cc (execute_step_gone s m e)
]

-- Renames that were cut off anywhere end, when the whole plan is executed again, as they would have
-- ended, if no target lies at or below a staged file.
pub execute_steps_restart_from :
    (steps : List CommitStep) (m m' : Machine)
    → IsSeparate steps
    → execute_steps steps m ≡ (crashed, m')
    → execute_steps steps (reboot m') ≡ execute_steps steps (reboot m)
unfolding execute_steps
execute_steps_restart_from [] m m' apart h = cc
execute_steps_restart_from (s ∷ steps) m m' apart h =
    elim (bind-crashed (execute_step s) (λ _. execute_steps steps) m h) [
      | inl c ↦
          ap (λ (r : Outcome (Unit {0}) × Machine). continue r.0 (λ _. execute_steps steps) r.1)
            (execute_step_restart s m m' c)
      | inr (_, m₁, first, next) ↦
          let left = execute_step_done s m m₁ apart.0.0 first in
          let kept = (Keeps-execute_steps_absent s.staged_path steps apart.0.1).at m₁ left in
          let clear =
            subst (λ (r : Outcome (Unit {0}) × Machine). node_at s.staged_path r.1.fs ≡ none) next
              kept in
          bind_of_done (execute_step s) (λ _. execute_steps steps) (reboot m')
            (execute_step_gone s (reboot m') (gone s (reboot m') clear))
          ∙ execute_steps_restart_from steps m₁ m' (All-weaken _ _ steps (λ t a. a.1) apart.1) next
          ∙ sym (
              bind_of_done (execute_step s) (λ _. execute_steps steps) (reboot m)
                ((Steady-execute_step s).at m tt m₁ first))
    ]

-- When the plan has been executed, no staged file is left.
pub execute_steps_done :
    (steps : List CommitStep) (m m' : Machine)
    → IsSeparate steps
    → execute_steps steps m ≡ (done tt, m')
    → All (λ (s : CommitStep). node_at s.staged_path m'.fs ≡ none) steps
unfolding execute_steps
execute_steps_done [] m m' apart h = tt
execute_steps_done (s ∷ steps) m m' apart h =
    let (_, m₁, first, next) = bind-done (execute_step s) (λ _. execute_steps steps) m h in
    let left = execute_step_done s m m₁ apart.0.0 first in
    let kept = (Keeps-execute_steps_absent s.staged_path steps apart.0.1).at m₁ left in
    (
      subst (λ (r : Outcome (Unit {0}) × Machine). node_at s.staged_path r.1.fs ≡ none) next kept,
      execute_steps_done steps m₁ m' (All-weaken _ _ steps (λ t a. a.1) apart.1) next,
    )

-- A plan whose staged files are gone changes nothing.
pub execute_steps_gone :
    (steps : List CommitStep) (m : Machine)
    → All (λ (s : CommitStep). node_at s.staged_path m.fs ≡ none) steps
    → execute_steps steps m ≡ (done tt, m)
unfolding execute_steps
execute_steps_gone [] m h = refl
execute_steps_gone (s ∷ steps) m h =
    bind_of_done (execute_step s) (λ _. execute_steps steps) m
      (execute_step_gone s m (gone s m h.0))
    ∙ execute_steps_gone steps m h.1
