-- ===== src/Pipeline/Commit/Pending.antt =====
-- The sweep over several runs, ready or not.
use incremental_sync_data_se.Base.{
  ◌≡◌, refl, sym, ◌∙◌, inl, inr, Bool-cases, true, false, contains, ◌==◌, some, none, List, [], ◌∷◌,
  All, arith, nat_eq, list_eq,
}
use incremental_sync_data_se.Time.{Text}
use incremental_sync_data_se.Machine.Tree.{FilePath, dir, is_dir_node, Fs, ◌/◌, node_at, is_under}
use incremental_sync_data_se.Machine.{Machine, done, M, ◌>>=◌, pure, reboot}
use incremental_sync_data_se.Machine.Restart.{bind_of_done, changed_to}
use incremental_sync_data_se.FileSystem.Crash.{is_under-append}
use incremental_sync_data_se.FileSystem.Within.{is_under_trans}
use incremental_sync_data_se.Platform.{Platform}
use incremental_sync_data_se.Pipeline.Plan.{CommitStep}
use incremental_sync_data_se.Pipeline.Staging.{root}
use incremental_sync_data_se.Pipeline.Staging.Removal.{RemovesAll}
use incremental_sync_data_se.Pipeline.Commit.{
  resume_run, resume_all, resume_pending, run_dirs, dirs_among,
}
use incremental_sync_data_se.Pipeline.Commit.Crash.{commit_ready, resume_run_ready}
use incremental_sync_data_se.Pipeline.Commit.Published.{commit-parts}
use incremental_sync_data_se.Pipeline.Commit.Discard.{resume_run-discards}
use incremental_sync_data_se.Pipeline.Commit.Sweep.{run_of, in_runs}
use incremental_sync_data_se.Pipeline.Commit.Listed.{
  IsTree, IsListedOnce, All-contains, All-listed, others, node_of_dir, contains-run_dirs,
  IsListedOnce-run_dirs,
}
use incremental_sync_data_se.Base.Sort.{lex_le, lex_le_total, lex_le_trans}
use incremental_sync_data_se.Source.Sorting.{IsSorted, IsSorted-sort_with}
use incremental_sync_data_se.Pipeline.Commit.Rounds.{
  IsSweepable, IsPending, cleared-IsPending, renamed_gone, execute_steps-IsPending,
}

module _ (sys : Platform) (removes : RemovesAll sys) (runs_root : FilePath)
    (plan : Text → List CommitStep) (sweepable : IsSweepable runs_root plan) where
  -- One round of the sweep.
  resume_run-returns :
      (a : Text) (m : Machine)
      → IsPending sys runs_root plan m.fs a
      → (fs : Fs) × (resume_run sys runs_root a (reboot m) ≡ (done tt, changed_to m fs none))
        × ((q : FilePath) → is_under (runs_root / a) q ≡ true → node_at q fs ≡ none)
        × ((q : FilePath)
            → is_under runs_root q ≡ true
            → node_at q m.fs ≡ none
            → node_at q fs ≡ none)
        × ((b : Text)
            → (b == a) ≡ false
            → IsPending sys runs_root plan m.fs b
            → IsPending sys runs_root plan fs b)
  unfolding root
  resume_run-returns a m (inl unready) =
      let (fs, first, cleared) =
        resume_run-discards sys (run_of runs_root a) m removes unready.0 unready.1 in
      (
        fs,
        first,
        (λ q h. cleared q ∙ rw (h) refl),
        (λ q _ gone. ground (arith, cleared q, gone)),
        (λ b differ.
            cleared-IsPending sys removes runs_root plan sweepable a b m.fs fs differ cleared),
      )
  resume_run-returns a m (inr (c, p)) =
      let d = run_of runs_root a in
      let (fs, fs', renamed, returned, cleared) = commit-parts sys d m (plan a) removes c p in
      (
        fs',
        resume_run_ready sys d (reboot m) c.ready
            ∙ sym (commit_ready sys d (reboot m) c.ready)
            ∙ returned,
        (λ q h. cleared q ∙ rw (h) refl),
        (λ q in_root gone. ground (
          arith,
          cleared q,
          renamed_gone sys removes runs_root plan sweepable a q m fs in_root renamed gone,
        )),
        (λ b differ pending.
            cleared-IsPending sys removes runs_root plan sweepable a b fs fs' differ cleared (
              execute_steps-IsPending sys removes runs_root plan sweepable a b m fs differ renamed
                pending)),
      )

  resume_all-returns :
      (names : List Text) (m : Machine)
      → IsListedOnce names
      → All (IsPending sys runs_root plan m.fs) names
      → (fs : Fs) × (resume_all sys runs_root names (reboot m) ≡ (done names, changed_to m fs none))
        × ((q : FilePath) → in_runs runs_root names q ≡ true → node_at q fs ≡ none)
        × ((q : FilePath)
            → is_under runs_root q ≡ true
            → node_at q m.fs ≡ none
            → node_at q fs ≡ none)
  unfolding resume_all
  resume_all-returns [] m once h = (m.fs, refl, (λ q listed. cc), (λ q in_root gone. gone))
  resume_all-returns (name ∷ names) m once h =
      let (fs, first, cleared, gone, kept) = resume_run-returns name m h.0 in
      let m₁ = changed_to m fs none in
      let (fs', rest, all_cleared, still_gone) = resume_all-returns names m₁ once.1 (
        All-contains (IsPending sys runs_root plan fs) names (λ b listed.
          kept b (others name names b once.0 listed)
            (All-listed (IsPending sys runs_root plan m.fs) names b h.1 listed))) in
      let finish : List Text → M (List Text) = λ processed. pure (name ∷ processed) in
      (
        fs',
        bind_of_done (resume_run sys runs_root name)
              (λ _. resume_all sys runs_root names >>= finish) (reboot m) first
            ∙ bind_of_done (resume_all sys runs_root names) finish m₁ rest,
        (λ q listed. elim (Bool-cases (is_under (runs_root / name) q)) [
          | inl here ↦
              still_gone q
                (is_under_trans runs_root (runs_root / name) q
                  (is_under-append runs_root (name ∷ [])) here)
                (cleared q here)
          | inr other ↦ all_cleared q (ground (arith, listed, other))
        ]),
        (λ q in_root none_there. still_gone q in_root (gone q in_root none_there)),
      )

  pub resume_pending-returns :
      (m : Machine)
      → IsTree m.fs
      → node_at runs_root m.fs ≡ some dir
      → ((name : Text)
          → node_at (runs_root / name) m.fs ≡ some dir
          → IsPending sys runs_root plan m.fs name)
      → (names : List Text) × (fs : Fs) × (resume_pending sys runs_root (reboot m)
          ≡ (done names, changed_to m fs none))
        × IsSorted lex_le names
        × IsListedOnce names
        × ((name : Text) → contains names name ≡ is_dir_node (node_at (runs_root / name) m.fs))
        × ((q : FilePath) → in_runs runs_root names q ≡ true → node_at q fs ≡ none)
  unfolding resume_pending run_dirs
  resume_pending-returns m tree there pending =
      let names = run_dirs runs_root m.fs in
      let once = IsListedOnce-run_dirs runs_root m.fs tree in
      let listed : (name : Text)
          → contains names name ≡ is_dir_node (node_at (runs_root / name) m.fs) =
        λ name. contains-run_dirs runs_root m.fs name tree in
      let each =
        All-contains (IsPending sys runs_root plan m.fs) names
          (λ name here. pending name (node_of_dir _ (sym (listed name) ∙ here))) in
      let (fs, swept, cleared, _) = resume_all-returns names m once each in
      (
        names,
        fs,
        rw (there) swept,
        IsSorted-sort_with lex_le lex_le_total lex_le_trans (dirs_among runs_root m.fs),
        once,
        listed,
        cleared,
      )
