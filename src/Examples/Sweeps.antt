-- ===== src/Examples/Sweeps.antt =====
-- A sweep over two runs, of which one is ready.
use incremental_sync_data_se.Base.{
  contains, ◌≢◌, ◌∙◌, some, ℕ, arith, ap, List, ◌≡◌, refl, sym, true, false, Bool-cases, none, [],
  ◌∷◌, All, inl, inr, if◌then◌else◌, ◌==◌, nat_eq, list_eq, string_eq, traverse,
}
use mathlib.Core.Path.{subst}
use incremental_sync_data_se.Base.Dict
use incremental_sync_data_se.Base.Sort.{codes, lex_le}
use incremental_sync_data_se.Source.Sorting.{IsSorted, sort_with}
use incremental_sync_data_se.Pipeline.Commit.Listed.{IsTree, IsListedOnce, contains-run_dirs}
use incremental_sync_data_se.Time.{Text}
use incremental_sync_data_se.Json.Access.{field_at}
use incremental_sync_data_se.Machine.{Machine, done, reboot}
use incremental_sync_data_se.Machine.Tree.{
  is_dir_node, FilePath, ◌/◌, dir, file, Fs, node_at, exists, parent, is_under,
}
use incremental_sync_data_se.Machine.Restart.{changed_to}
use incremental_sync_data_se.FileSystem.Renamed.{IsPassable, NoDir}
use incremental_sync_data_se.Pipeline.Plan.{
  CommitStep, plan_dict, plan_from_dict, path_text, path_of,
}
use incremental_sync_data_se.Pipeline.Staging.{
  root, ready_marker_path, commit_plan_path, is_ready, plan_in, read_bytes,
}
use incremental_sync_data_se.Pipeline.Commit.{resume_pending, run_dirs, dirs_among}
use incremental_sync_data_se.Pipeline.Commit.Crash.{IsCommittable}
use incremental_sync_data_se.Pipeline.Commit.Clear.{NotAbove}
use incremental_sync_data_se.Pipeline.Commit.Published.{IsPublishable}
use incremental_sync_data_se.Pipeline.Commit.Sweep.{in_runs, IsUnready}
use incremental_sync_data_se.Pipeline.Commit.Rounds.{IsPending}
use incremental_sync_data_se.Pipeline.Commit.Pending.{resume_pending-returns}
use incremental_sync_data_se.Examples.Commits.{
  d, step, marker, machine, sys, removes, separate, not_staged, not_live, plan_not_staged,
  plan_not_live,
}

abbrev runs_root : FilePath
runs_root = codes "runs" ∷ []

-- the run `ab` is ready, the run `cd` is not
abbrev tree : Fs
tree =
    (codes "runs" ∷ [], dir)
    ∷ (codes "runs" ∷ codes "ab" ∷ [], dir)
    ∷ (codes "runs" ∷ codes "cd" ∷ [], dir)
    ∷ (codes "runs" ∷ codes "ab" ∷ codes "x" ∷ [], file (codes "new"))
    ∷ (codes "runs" ∷ codes "ab" ∷ codes "commit_plan.json" ∷ [], file (codes "plan"))
    ∷ (marker, file (codes "READY\n"))
    ∷ (codes "runs" ∷ codes "cd" ∷ codes "x" ∷ [], file (codes "late"))
    ∷ []

abbrev two_runs : Machine
two_runs = record (machine 1) { fs = tree }

abbrev plan : Text → List CommitStep
plan name = if name == codes "ab" then step ∷ [] else []

there : node_at runs_root tree ≡ some dir
unfolding Dict.lookup nat_eq list_eq
there = refl

listed_once : IsTree tree
unfolding Dict.keys nat_eq list_eq
listed_once = (refl, (refl, (refl, (refl, (refl, (refl, (refl, tt)))))))

committable : IsCommittable sys d tree (step ∷ [])
unfolding is_ready ready_marker_path commit_plan_path root exists Dict.lookup plan_in read_bytes
    plan_from_dict plan_dict path_text path_of field_at traverse string_eq nat_eq list_eq
committable = record {
  ready = refl;
  planned = refl;
  separate = separate;
  ready_away = ((not_staged, not_live), tt);
  plan_away = ((plan_not_staged, plan_not_live), tt);
}

passable : IsPassable (codes "lake" ∷ []) tree
unfolding is_under nat_eq list_eq Dict.lookup
passable [] on b found = cc
passable (x ∷ []) on b found =
    let same : x ≡ codes "lake" = ground arith in
    let gone = ap (λ (n : List ℕ). node_at (n ∷ []) tree) same in cc (gone, found)
passable (x ∷ y ∷ q) on b found = ground arith

live_free : NoDir step.live_path tree
unfolding Dict.lookup nat_eq list_eq
live_free found = cc

staged_free : NoDir step.staged_path tree
unfolding Dict.lookup nat_eq list_eq
staged_free found = cc

publishable : IsPublishable d tree (step ∷ [])
unfolding root Dict.lookup is_under parent nat_eq list_eq
publishable = record {
  rooted = refl;
  outside = (refl, tt);
  distinct = (tt, tt, tt);
  open_ways = ((refl, tt), tt);
  clear = (record { way = passable; live_free = live_free; staged_free = staged_free }, tt);
}

late-IsUnready : IsUnready runs_root tree (codes "cd")
unfolding is_ready ready_marker_path root exists Dict.lookup nat_eq list_eq
late-IsUnready = (refl, refl)

inside :
    (a : Text) → All (λ (s : CommitStep). is_under (runs_root / a) s.staged_path ≡ true) (plan a)
unfolding is_under nat_eq list_eq
inside a = elim (Bool-cases (a == codes "ab")) [
  | inl here ↦
      let same : codes "ab" ≡ a = ground arith in
      subst (λ b. All (λ (s : CommitStep). is_under (runs_root / b) s.staged_path ≡ true) (plan b))
        same (refl, tt)
  | inr other ↦ rw other tt
]

outside : (a : Text) → All (λ (s : CommitStep). is_under runs_root s.live_path ≡ false) (plan a)
unfolding is_under nat_eq list_eq
outside a = elim (Bool-cases (a == codes "ab")) [
  | inl here ↦ rw here (refl, tt)
  | inr other ↦ rw other tt
]

open_ways : (a b : Text) → All (λ (s : CommitStep). All (NotAbove s.live_path) (plan b)) (plan a)
unfolding is_under parent nat_eq list_eq
open_ways a b = elim (Bool-cases (a == codes "ab")) [
  | inl here ↦ rw here elim (Bool-cases (b == codes "ab")) [
    | inl also ↦ rw also ((refl, tt), tt)
    | inr other ↦ rw other (tt, tt)
  ]
  | inr other ↦ rw other tt
]

names : run_dirs runs_root tree ≡ codes "ab" ∷ codes "cd" ∷ []
unfolding run_dirs dirs_among sort_with lex_le nat_eq list_eq
names = refl

ab-IsPending : IsPending sys runs_root plan tree (codes "ab")
unfolding nat_eq list_eq
ab-IsPending = inr (committable, publishable)

other_run :
    (name : Text)
    → (name == codes "ab") ≡ false
    → (name == codes "cd") ≡ false
    → node_at (runs_root / name) tree ≢ some dir
other_run name a b found =
    let listed : contains (codes "ab" ∷ codes "cd" ∷ []) name ≡ true =
      sym (ap (λ l. contains l name) names)
      ∙ contains-run_dirs runs_root tree name listed_once
      ∙ ap is_dir_node found in
    absurd (ground (arith, listed, a, b))

pending :
    (name : Text)
    → node_at (runs_root / name) tree ≡ some dir
    → IsPending sys runs_root plan tree name
pending name found = elim (Bool-cases (name == codes "ab")) [
  | inl here ↦
      let same : codes "ab" ≡ name = ground arith in
      subst (IsPending sys runs_root plan tree) same ab-IsPending
  | inr other ↦ elim (Bool-cases (name == codes "cd")) [
    | inl here ↦
        let same : codes "cd" ≡ name = ground arith in
        subst (IsPending sys runs_root plan tree) same (inl late-IsUnready)
    | inr neither ↦ absurd (other_run name other neither found)
  ]
]

resume_pending-returns_example :
    (names : List Text) × (fs : Fs) × (resume_pending sys runs_root (reboot two_runs)
      ≡ (done names, changed_to two_runs fs none))
    × IsSorted lex_le names
    × IsListedOnce names
    × ((name : Text) → contains names name ≡ is_dir_node (node_at (runs_root / name) tree))
    × ((q : FilePath) → in_runs runs_root names q ≡ true → node_at q fs ≡ none)
resume_pending-returns_example =
    resume_pending-returns sys removes runs_root plan
      (record { inside = inside; outside = outside; open_ways = open_ways }) two_runs listed_once
      there pending
