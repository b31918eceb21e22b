-- ===== src/Pipeline/Commit/Crash.antt =====
-- A commit that is cut off, and the next process's sweep over the run.
use incremental_sync_data_se.Base.{
  ◌≡◌, refl, ap, sym, ◌∙◌, ◌⊎◌, inl, inr, true, false, none, some, List, arith, ok, All, All-weaken,
  Bool-cases, Option-cases, nat_eq, list_eq,
}
use incremental_sync_data_se.Machine.Tree.{FilePath, Node, dir, Fs, node_at, exists, is_under}
use incremental_sync_data_se.Machine.{Machine, Outcome, done, crashed, ◌>>◌, reboot, continue}
use incremental_sync_data_se.Machine.Restart.{bind_of_done, bind-crashed, changed_to}
use incremental_sync_data_se.Platform.{Platform}
use incremental_sync_data_se.Pipeline.Plan.{CommitStep}
use incremental_sync_data_se.Pipeline.Staging.{
  RunStagingDir, root, ready_marker_path, commit_plan_path, is_ready, plan_in, load_commit_plan,
  rmtree, cleanup,
}
use incremental_sync_data_se.Pipeline.Staging.Removal.{
  RemovesAll, IsCleared, rmtree_clears, rmtree_crashed, rmtree_crashed_dir,
}
use incremental_sync_data_se.Pipeline.Commit.{execute_steps, finish, commit, resume_run}
use incremental_sync_data_se.Pipeline.Commit.Steps.{
  IsSeparate, Away, Keeps-execute_steps_node, Steady-execute_steps, execute_steps_restart_from,
  execute_steps_done, execute_steps_gone,
}

-- A staged run whose marker is written: its plan is read back, no rename undoes another, and none
-- touches the plan or the marker.
pub record IsCommittable (sys : Platform) (d : RunStagingDir) (fs : Fs) (steps : List CommitStep)
    : Type 0 where
  pub ready : is_ready d fs ≡ true
  pub planned : plan_in sys d fs ≡ ok steps
  pub separate : IsSeparate steps
  pub ready_away : All (Away (ready_marker_path d)) steps
  pub plan_away : All (Away (commit_plan_path d)) steps

-- How a commit that was cut off goes on. Either the next process's sweep over the run returns, and every
-- path is as the whole commit leaves it; or the commit was in its clean-up, which had removed the plan
-- and not the marker, or the run's directory itself, and every path outside that directory is already
-- as the whole commit leaves it.
abbrev pub GoesOn : Platform → RunStagingDir → Machine → Machine → Type 0
GoesOn sys d m' m₂ =
    ((m₃ : Machine) × (resume_run sys d.runs_root d.run_id (reboot m') ≡ (done tt, m₃))
      × ((q : FilePath) → node_at q m₃.fs ≡ node_at q m₂.fs))
    ⊎ ((((is_ready d m'.fs ≡ true) × (node_at (commit_plan_path d) m'.fs ≡ none))
          ⊎ (node_at (root d) m'.fs ≡ none))
        × ((q : FilePath) → is_under (root d) q ≡ false → node_at q m'.fs ≡ node_at q m₂.fs))

pub some_node : (p : FilePath) (fs : Fs) → exists p fs ≡ true → (n : Node) × (node_at p fs ≡ some n)
unfolding exists
some_node p fs h = elim (Option-cases (node_at p fs)) [
  | inl e ↦ ground (arith, e, h)
  | inr found ↦ found
]

pub there : (p : FilePath) (fs : Fs) {n : Node} → node_at p fs ≡ some n → exists p fs ≡ true
unfolding exists
there p fs h = ground arith

module _ (sys : Platform) (d : RunStagingDir) where
  plan_node :
      (fs : Fs) {steps : List CommitStep}
      → plan_in sys d fs ≡ ok steps
      → (n : Node) × (node_at (commit_plan_path d) fs ≡ some n)
  unfolding plan_in
  plan_node fs h = elim (Option-cases (node_at (commit_plan_path d) fs)) [
    | inl e ↦ ground (arith, e, h)
    | inr found ↦ found
  ]

  pub plan_in_congr :
      (fs fs' : Fs)
      → node_at (commit_plan_path d) fs ≡ node_at (commit_plan_path d) fs'
      → plan_in sys d fs ≡ plan_in sys d fs'
  unfolding plan_in
  plan_in_congr fs fs' h = rw h

  finish_lem :
      (m : Machine) {steps : List CommitStep}
      → plan_in sys d m.fs ≡ ok steps
      → finish sys d m ≡ (execute_steps steps >> cleanup sys d) m
  unfolding finish load_commit_plan
  finish_lem m h = rw h

  pub commit_ready : (m : Machine) → is_ready d m.fs ≡ true → commit sys d m ≡ finish sys d m
  unfolding commit
  commit_ready m h = rw h

  pub resume_run_ready :
      (m : Machine)
      → is_ready d m.fs ≡ true
      → resume_run sys d.runs_root d.run_id m ≡ finish sys d m
  unfolding resume_run
  resume_run_ready m h = rw h

  pub resume_run_unready :
      (m : Machine)
      → is_ready d m.fs ≡ false
      → resume_run sys d.runs_root d.run_id m ≡ rmtree sys (root d) m
  unfolding resume_run
  resume_run_unready m h = rw h

  pub cleanup_there :
      (m : Machine) → exists (root d) m.fs ≡ true → cleanup sys d m ≡ rmtree sys (root d) m
  unfolding cleanup
  cleanup_there m h = rw h

  cleanup_gone : (m : Machine) → exists (root d) m.fs ≡ false → cleanup sys d m ≡ (done tt, m)
  unfolding cleanup
  cleanup_gone m h = rw h

  cleanup_crashed : (m m' : Machine) → cleanup sys d m ≡ (crashed, m') → exists (root d) m.fs ≡ true
  cleanup_crashed m m' h = elim (Bool-cases (exists (root d) m.fs)) [
    | inl e ↦ e
    | inr e ↦ cc (cleanup_gone m e)
  ]

module _ (sys : Platform) (d : RunStagingDir) (m : Machine) {steps : List CommitStep}
    (c : IsCommittable sys d m.fs steps) where
  -- The marker and the plan survive the renames, however many are done.
  IsCommittable-execute_steps :
      {r : Outcome (Unit {0})} (m' : Machine)
      → execute_steps steps m ≡ (r, m')
      → IsCommittable sys d m'.fs steps
  unfolding is_ready
  IsCommittable-execute_steps {r} m' h =
      let fs_of : Outcome (Unit {0}) × Machine → Fs = λ w. w.1.fs in
      let (n, marker) = some_node (ready_marker_path d) m.fs c.ready in
      let (k, plan) = plan_node sys d m.fs c.planned in
      let marker' =
        (Keeps-execute_steps_node (ready_marker_path d) steps c.ready_away).at m marker in
      let plan' = (Keeps-execute_steps_node (commit_plan_path d) steps c.plan_away).at m plan in
      let moved = ap fs_of h in
      record {
        ready =
            there (ready_marker_path d) m'.fs
              (sym (ap (node_at (ready_marker_path d)) moved) ∙ marker');
        planned =
            plan_in_congr sys d m'.fs m.fs
              (sym (ap (node_at (commit_plan_path d)) moved) ∙ plan' ∙ sym plan)
            ∙ c.planned;
        separate = c.separate;
        ready_away = c.ready_away;
        plan_away = c.plan_away;
      }

  pub commit_lem : commit sys d m ≡ (execute_steps steps >> cleanup sys d) m
  commit_lem = commit_ready sys d m c.ready ∙ finish_lem sys d m c.planned

  resume_lem : resume_run sys d.runs_root d.run_id m ≡ (execute_steps steps >> cleanup sys d) m
  resume_lem = resume_run_ready sys d m c.ready ∙ finish_lem sys d m c.planned

module _ (sys : Platform) (d : RunStagingDir) (removes : RemovesAll sys) (m : Machine)
    {steps : List CommitStep} (c : IsCommittable sys d m.fs steps) where
  -- cut off in the renames: the sweep does what the commit would have done
  resume_after_renames :
      (m' : Machine)
      → execute_steps steps m ≡ (crashed, m')
      → resume_run sys d.runs_root d.run_id (reboot m') ≡ commit sys d (reboot m)
  resume_after_renames m' h =
      resume_lem sys d (reboot m') (IsCommittable-execute_steps sys d m c m' h)
      ∙ ap (λ (w : Outcome (Unit {0}) × Machine). continue w.0 (λ _. cleanup sys d) w.1)
          (execute_steps_restart_from steps m m' c.separate h)
      ∙ sym (commit_lem sys d (reboot m) c)

  -- all renames done, the marker and the plan still there
  resume_done :
      (m₁ m' : Machine)
      → execute_steps steps m ≡ (done tt, m₁)
      → ((q : FilePath) → node_at q m₁.fs ≡ none → node_at q m'.fs ≡ none)
      → is_ready d m'.fs ≡ true
      → node_at (commit_plan_path d) m'.fs ≡ node_at (commit_plan_path d) m₁.fs
      → node_at (root d) m'.fs ≡ some dir
      → resume_run sys d.runs_root d.run_id (reboot m') ≡ rmtree sys (root d) (reboot m')
  resume_done m₁ m' first gone ready same_plan rooted =
      let c₁ = IsCommittable-execute_steps sys d m c m₁ first in
      let c' : IsCommittable sys d m'.fs steps = record {
        ready = ready;
        planned = plan_in_congr sys d m'.fs m₁.fs same_plan ∙ c₁.planned;
        separate = c.separate;
        ready_away = c.ready_away;
        plan_away = c.plan_away;
      } in
      let left =
        All-weaken _ _ steps (λ (s : CommitStep). gone s.staged_path)
          (execute_steps_done steps m m₁ c.separate first) in
      resume_lem sys d (reboot m') c'
      ∙ bind_of_done (execute_steps steps) (λ _. cleanup sys d) (reboot m')
          (execute_steps_gone steps (reboot m') left)
      ∙ cleanup_there sys d (reboot m') (there (root d) m'.fs rooted)

  commit_finished :
      (m₁ : Machine)
      → execute_steps steps m ≡ (done tt, m₁)
      → node_at (root d) m₁.fs ≡ some dir
      → (fs : Fs) × (commit sys d (reboot m) ≡ (done tt, changed_to m₁ fs none))
        × IsCleared (root d) m₁.fs fs
  commit_finished m₁ first rooted =
      let (fs, cleared, at) = rmtree_clears sys removes (root d) m₁ rooted in
      (
        fs,
        commit_lem sys d (reboot m) c
            ∙ bind_of_done (execute_steps steps) (λ _. cleanup sys d) (reboot m)
                ((Steady-execute_steps steps).at m tt m₁ first)
            ∙ cleanup_there sys d (reboot m₁) (there (root d) m₁.fs rooted)
            ∙ cleared,
        at,
      )

  -- cut off in the clean-up
  commit_cut_late :
      (m₁ m' m₂ : Machine)
      → execute_steps steps m ≡ (done tt, m₁)
      → cleanup sys d m₁ ≡ (crashed, m')
      → commit sys d (reboot m) ≡ (done tt, m₂)
      → GoesOn sys d m' m₂
  commit_cut_late m₁ m' m₂ first late whole =
      let cut = sym (cleanup_there sys d m₁ (cleanup_crashed sys d m₁ m' late)) ∙ late in
      let rooted = rmtree_crashed_dir sys removes (root d) m₁ m' cut in
      let (out, gone, each) = rmtree_crashed sys removes (root d) m₁ m' cut in
      let (fs₂, finished, at₂) = commit_finished m₁ first rooted in
      let last = ap (λ (w : Outcome (Unit {0}) × Machine). w.1.fs) (sym finished ∙ whole) in
      let published : (q : FilePath)
          → is_under (root d) q ≡ false
          → node_at q m'.fs ≡ node_at q m₂.fs =
        λ q outside. ground (arith, at₂ q, out q, ap (node_at q) last) in
      let swept : node_at (root d) m'.fs ≡ some dir
          → resume_run sys d.runs_root d.run_id (reboot m') ≡ rmtree sys (root d) (reboot m')
          → GoesOn sys d m' m₂ =
        λ rooted' resumed.
          let (fs, cleared, at) = rmtree_clears sys removes (root d) m' rooted' in
          inl (
            changed_to m' fs none,
            resumed ∙ cleared,
            λ q. ground (arith, at q, at₂ q, out q, ap (node_at q) last),
          ) in
      elim (each (root d)) [
        | inr no_root ↦ inr (inr no_root, published)
        | inl same_root ↦ elim (Bool-cases (is_ready d m'.fs)) [
          | inr unready ↦ swept (same_root ∙ rooted) (resume_run_unready sys d (reboot m') unready)
          | inl ready ↦ elim (each (commit_plan_path d)) [
            | inr no_plan ↦ inr (inl (ready, no_plan), published)
            | inl same_plan ↦
                swept (same_root ∙ rooted)
                  (resume_done m₁ m' first gone ready same_plan (same_root ∙ rooted))
          ]
        ]
      ]

  -- The run is ready, its plan is read back, no step undoes another or touches the marker or the plan,
  -- and `rmtree` removes all that it lists, in any order. If the commit is cut off at any change, and
  -- would return when it is not, then either the next process's sweep over the run returns and every
  -- path is as the commit would have left it; or the clean-up was cut off when the plan was gone and
  -- the marker was not, or the run's directory was gone, and every path outside that directory is
  -- already as the commit would have left it.
  pub resume_run-commit :
      (m' m₂ : Machine)
      → commit sys d m ≡ (crashed, m')
      → commit sys d (reboot m) ≡ (done tt, m₂)
      → GoesOn sys d m' m₂
  resume_run-commit m' m₂ cut whole =
      elim (bind-crashed (execute_steps steps) (λ _. cleanup sys d) m
        (sym (commit_lem sys d m c) ∙ cut)) [
          | inl early ↦ inl (m₂, resume_after_renames m' early ∙ whole, λ q. refl)
          | inr (_, m₁, first, late) ↦ commit_cut_late m₁ m' m₂ first late whole
        ]
