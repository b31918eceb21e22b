-- ===== src/Pipeline/Commit/Rounds.antt =====
-- What one round of the sweep leaves of the other runs.
use mathlib.Core.Path.{subst}
use incremental_sync_data_se.Base.{
  ◌≡◌, refl, sym, ap, ◌∙◌, ◌⊎◌, inl, inr, Bool-cases, true, false, none, List, [], ◌∷◌, All,
  All-weaken, All-both, arith, ◌==◌, nat_eq, list_eq,
}
use incremental_sync_data_se.Base.Sort.{codes}
use incremental_sync_data_se.Time.{Text}
use incremental_sync_data_se.Machine.Tree.{FilePath, Fs, ◌/◌, node_at, exists, is_under}
use incremental_sync_data_se.Machine.{Machine, Outcome, done, reboot}
use incremental_sync_data_se.Machine.Restart.{changed_to}
use incremental_sync_data_se.FileSystem.Crash.{is_under-append, is_under_refl}
use incremental_sync_data_se.FileSystem.Within.{is_under_trans, siblings}
use incremental_sync_data_se.Platform.{Platform}
use incremental_sync_data_se.Pipeline.Plan.{CommitStep}
use incremental_sync_data_se.Pipeline.Staging.{
  RunStagingDir, root, ready_marker_path, commit_plan_path, is_ready,
}
use incremental_sync_data_se.Pipeline.Staging.Removal.{RemovesAll, IsCleared}
use incremental_sync_data_se.Pipeline.Commit.{execute_steps}
use incremental_sync_data_se.Pipeline.Commit.Crash.{IsCommittable, plan_in_congr}
use incremental_sync_data_se.Pipeline.Commit.Steps.{Apart, Keeps-execute_steps_absent}
use incremental_sync_data_se.Pipeline.Commit.Clear.{IsClear, NotAbove, Beside}
use incremental_sync_data_se.Pipeline.Commit.Beside.{
  cleared-IsClear, Keeps-execute_steps_inside, Keeps-execute_steps-All, All-swap,
}
use incremental_sync_data_se.Pipeline.Commit.Published.{IsPublishable}
use incremental_sync_data_se.Pipeline.Commit.Sweep.{run_of, IsUnready}

-- Each run's plan renames from the run's directory to outside all of them, and no target of any plan
-- is at or above the directory of another target.
pub record IsSweepable (runs_root : FilePath) (plan : Text → List CommitStep) : Type 0 where
  pub inside :
      (a : Text) → All (λ (s : CommitStep). is_under (runs_root / a) s.staged_path ≡ true) (plan a)
  pub outside :
      (a : Text) → All (λ (s : CommitStep). is_under runs_root s.live_path ≡ false) (plan a)
  pub open_ways :
      (a b : Text) → All (λ (s : CommitStep). All (NotAbove s.live_path) (plan b)) (plan a)

-- A run that is not ready, or one that can be committed by its plan.
abbrev pub IsPending : Platform → FilePath → (Text → List CommitStep) → Fs → Text → Type 0
IsPending sys runs_root plan fs name =
    IsUnready runs_root fs name
    ⊎ (IsCommittable sys (run_of runs_root name) fs (plan name)
        × IsPublishable (run_of runs_root name) fs (plan name))

ready_same :
    (d : RunStagingDir) (fs fs' : Fs)
    → node_at (ready_marker_path d) fs' ≡ node_at (ready_marker_path d) fs
    → is_ready d fs' ≡ is_ready d fs
unfolding is_ready exists
ready_same d fs fs' e = ground (arith, e)

module _ (sys : Platform) (removes : RemovesAll sys) (runs_root : FilePath)
    (plan : Text → List CommitStep) (sweepable : IsSweepable runs_root plan) where
  -- a run whose directory and whose ways are as they were
  IsPending-same :
      (b : Text) (fs fs' : Fs)
      → ((q : FilePath) → is_under (runs_root / b) q ≡ true → node_at q fs' ≡ node_at q fs)
      → (All (IsClear fs) (plan b) → All (IsClear fs') (plan b))
      → IsPending sys runs_root plan fs b
      → IsPending sys runs_root plan fs' b
  unfolding ready_marker_path commit_plan_path root
  IsPending-same b fs fs' same clear (inl unready) = inl (
    same (runs_root / b) (is_under_refl (runs_root / b)) ∙ unready.0,
    ready_same (run_of runs_root b) fs fs'
          (same _ (is_under-append (runs_root / b) (codes "READY" ∷ [])))
        ∙ unready.1,
  )
  IsPending-same b fs fs' same clear (inr (c, p)) = inr (
    record {
      ready =
          ready_same (run_of runs_root b) fs fs'
            (same _ (is_under-append (runs_root / b) (codes "READY" ∷ [])))
          ∙ c.ready;
      planned =
          plan_in_congr sys (run_of runs_root b) fs' fs
            (same _ (is_under-append (runs_root / b) (codes "commit_plan.json" ∷ [])))
          ∙ c.planned;
      separate = c.separate;
      ready_away = c.ready_away;
      plan_away = c.plan_away;
    },
    record {
      rooted = same (runs_root / b) (is_under_refl (runs_root / b)) ∙ p.rooted;
      outside = p.outside;
      distinct = p.distinct;
      open_ways = p.open_ways;
      clear = clear p.clear;
    },
  )

  other_dir :
      (a b : Text) (q : FilePath)
      → (b == a) ≡ false
      → is_under (runs_root / b) q ≡ true
      → is_under (runs_root / a) q ≡ false
  other_dir a b q differ h =
      let flipped : (a == b) ≡ false = ground arith in siblings runs_root b a q flipped h

  -- a staged file of a run is not above what lies outside the runs
  not_below :
      (s t : CommitStep) (b : Text)
      → is_under runs_root s.live_path ≡ false
      → is_under (runs_root / b) t.staged_path ≡ true
      → Apart t.staged_path s
  not_below s t b out staged = elim (Bool-cases (is_under t.staged_path s.live_path)) [
    | inl e ↦
        let in_root =
          is_under_trans runs_root (runs_root / b) t.staged_path
            (is_under-append runs_root (b ∷ [])) staged in
        cc (is_under_trans runs_root t.staged_path s.live_path in_root e, out)
    | inr e ↦ e
  ]

  besides : (a b : Text) → All (λ s. All (Beside s) (plan b)) (plan a)
  besides a b =
      let facing =
        All-swap (λ (t s : CommitStep). NotAbove t.live_path s) (plan b) (plan a)
          (sweepable.open_ways b a) in
      let apart : (s : CommitStep)
          → is_under runs_root s.live_path ≡ false
          → All (λ (t : CommitStep). Apart t.staged_path s) (plan b) =
        λ s out.
          All-weaken _ _ (plan b) (λ t staged. not_below s t b out staged) (sweepable.inside b) in
      All-both _ _ (λ s. All (Beside s) (plan b)) (plan a)
        (λ s ahead k.
          All-both _ _ (Beside s) (plan b) (λ t st l. (st, l.0, l.1)) ahead
            (All-both _ _ (λ t. NotAbove t.live_path s × Apart t.staged_path s) (plan b)
              (λ t ts away. (ts, away)) k.0 (apart s k.1)))
        (sweepable.open_ways a b)
        (All-both _ _
          (λ s.
            All (λ (t : CommitStep). NotAbove t.live_path s) (plan b)
            × (is_under runs_root s.live_path ≡ false))
          (plan a) (λ s back out. (back, out)) facing (sweepable.outside a))

  -- The removal of a run's directory leaves another run pending.
  pub cleared-IsPending :
      (a b : Text) (fs fs' : Fs)
      → (b == a) ≡ false
      → IsCleared (runs_root / a) fs fs'
      → IsPending sys runs_root plan fs b
      → IsPending sys runs_root plan fs' b
  cleared-IsPending a b fs fs' differ cleared =
      IsPending-same b fs fs' (λ q h. cleared q ∙ rw (other_dir a b q differ h) refl)
        (All-weaken (IsClear fs) (IsClear fs') (plan b)
          (λ s. cleared-IsClear (runs_root / a) fs fs' s cleared))

  -- So do the renames of a run's plan.
  pub execute_steps-IsPending :
      (a b : Text) (m : Machine) (fs : Fs)
      → (b == a) ≡ false
      → execute_steps (plan a) (reboot m) ≡ (done tt, changed_to m fs none)
      → IsPending sys runs_root plan m.fs b
      → IsPending sys runs_root plan fs b
  execute_steps-IsPending a b m fs differ renamed =
      let fs_of : Outcome (Unit {0}) × Machine → Fs = λ w. w.1.fs in
      IsPending-same b m.fs fs
        (λ q h.
          let inside =
            is_under_trans runs_root (runs_root / b) q (is_under-append runs_root (b ∷ [])) h in
          ap (λ w. node_at q (fs_of w)) (sym renamed)
          ∙ (Keeps-execute_steps_inside runs_root q {o = node_at q m.fs} (plan a) inside
                (sweepable.outside a)
                (All-weaken _ _ (plan a)
                  (λ s staged same.
                    cc (ap (is_under (runs_root / a)) same, staged, other_dir a b q differ h))
                  (sweepable.inside a))).at
              (reboot m) refl)
        (λ clear.
          subst (λ w. All (IsClear (fs_of w)) (plan b)) renamed
            ((Keeps-execute_steps-All (plan a) (plan b) (besides a b)).at (reboot m) clear))

  -- Renames put nothing below the directory of the runs.
  pub renamed_gone :
      (a : Text) (q : FilePath) (m : Machine) (fs : Fs)
      → is_under runs_root q ≡ true
      → execute_steps (plan a) (reboot m) ≡ (done tt, changed_to m fs none)
      → node_at q m.fs ≡ none
      → node_at q fs ≡ none
  renamed_gone a q m fs in_root renamed gone =
      let below : (s : CommitStep) → is_under runs_root s.live_path ≡ false → Apart q s = λ s out.
        elim (Bool-cases (is_under q s.live_path)) [
          | inl e ↦ cc (is_under_trans runs_root q s.live_path in_root e, out)
          | inr e ↦ e
        ] in
      ap (λ (w : Outcome (Unit {0}) × Machine). node_at q w.1.fs) (sym renamed)
      ∙ (Keeps-execute_steps_absent q (plan a)
            (All-weaken _ _ (plan a) below (sweepable.outside a))).at
          (reboot m) gone
