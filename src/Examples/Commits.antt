-- ===== src/Examples/Commits.antt =====
-- A run of one step, whose commit is cut off.
use incremental_sync_data_se.Base.{
  ℕ, arith, ap, List, ◌≡◌, ◌≢◌, refl, true, false, some, none, [], ◌∷◌, ok, All, err, value_error,
  if◌then◌else◌, ◌==◌, nat_eq, list_eq, string_eq, traverse,
}
use incremental_sync_data_se.Base.Dict
use incremental_sync_data_se.Base.Sort.{codes}
use incremental_sync_data_se.Json.{str}
use incremental_sync_data_se.Machine.{Machine, done, crashed, effect, reboot}
use incremental_sync_data_se.Machine.Tree.{
  FilePath, dir, file, Fs, node_at, exists, parent, is_under, mkdir, os_replace, remove, below,
}
use incremental_sync_data_se.FileSystem.{make_dirs, ensure_dir, atomic_rename}
use incremental_sync_data_se.Platform.{Platform}
use incremental_sync_data_se.Json.Access.{field_at}
use incremental_sync_data_se.Pipeline.Plan.{
  CommitStep, plan_dict, plan_from_dict, path_text, path_of,
}
use incremental_sync_data_se.Pipeline.Staging.{
  RunStagingDir, root, ready_marker_path, commit_plan_path, is_ready, plan_in, read_bytes, rmtree,
  remove_all, cleanup, load_commit_plan,
}
use incremental_sync_data_se.Pipeline.Staging.Removal.{RemovesAll}
use incremental_sync_data_se.Pipeline.Commit.{execute_step, execute_steps, commit, finish}
use incremental_sync_data_se.Pipeline.Commit.Steps.{IsSeparate, execute_steps_restart_from}
use incremental_sync_data_se.Pipeline.Plan.RoundTrip.{IsNamed, plan_from_dict-plan_dict}
use incremental_sync_data_se.Pipeline.Commit.Crash.{IsCommittable, GoesOn, resume_run-commit}
use incremental_sync_data_se.FileSystem.Frame.{file_at}
use incremental_sync_data_se.FileSystem.Renamed.{IsPassable, NoDir}
use incremental_sync_data_se.Pipeline.Commit.Steps.{Away}
use incremental_sync_data_se.Pipeline.Commit.Moved.{IsMoved}
use incremental_sync_data_se.Pipeline.Commit.Published.{IsPublishable, commit-IsMoved}
use incremental_sync_data_se.Examples.Orders.{order, removes_all}

abbrev pub d : RunStagingDir
d = record { runs_root = codes "runs" ∷ []; run_id = codes "ab" }

abbrev pub step : CommitStep
step = record {
  staged_path = codes "runs" ∷ codes "ab" ∷ codes "x" ∷ [];
  live_path = codes "lake" ∷ codes "x" ∷ [];
  label = str (codes "x");
}

abbrev pub marker : FilePath
marker = codes "runs" ∷ codes "ab" ∷ codes "READY" ∷ []

abbrev tree : Fs
tree =
    (codes "runs" ∷ [], dir)
    ∷ (codes "runs" ∷ codes "ab" ∷ [], dir)
    ∷ (codes "runs" ∷ codes "ab" ∷ codes "x" ∷ [], file (codes "new"))
    ∷ (codes "runs" ∷ codes "ab" ∷ codes "commit_plan.json" ∷ [], file (codes "plan"))
    ∷ (marker, file (codes "READY\n"))
    ∷ (codes "lake" ∷ codes "x" ∷ [], file (codes "old"))
    ∷ []

abbrev pub machine : ℕ → Machine
machine n = record { fs = tree; power = some n; reads = 0; stdout = [] }

abbrev pub sys : Platform
sys = record {
  random_part = λ fs p. codes "tmp";
  loads = λ b. if b == codes "plan" then ok (plan_dict (step ∷ [])) else err value_error;
  removal_order = order marker;
  hexdigest = λ b. codes "00000000";
  stdout_open = λ l. true;
  clock = λ n. n;
}

pub removes : RemovesAll sys
removes = removes_all marker

pub separate : IsSeparate (step ∷ [])
unfolding is_under nat_eq list_eq
separate = ((refl, tt), tt)

abbrev cut : Machine
cut = record (machine 1) { fs = Dict.insert (codes "lake" ∷ []) dir tree; power = some 0 }

renames_cut : execute_steps (step ∷ []) (machine 1) ≡ (crashed, cut)
unfolding execute_steps execute_step exists atomic_rename ensure_dir parent make_dirs effect mkdir
    os_replace Dict.lookup Dict.insert nat_eq list_eq
renames_cut = refl

execute_steps_restart_from_example :
    execute_steps (step ∷ []) (reboot cut) ≡ execute_steps (step ∷ []) (reboot (machine 1))
execute_steps_restart_from_example =
    execute_steps_restart_from (step ∷ []) (machine 1) cut separate renames_cut

-- neither the marker nor the plan is the step's
pub not_staged : ready_marker_path d ≢ step.staged_path
unfolding ready_marker_path root
not_staged p = cc

pub not_live : ready_marker_path d ≢ step.live_path
unfolding ready_marker_path root
not_live p = cc

pub plan_not_staged : commit_plan_path d ≢ step.staged_path
unfolding commit_plan_path root
plan_not_staged p = cc

pub plan_not_live : commit_plan_path d ≢ step.live_path
unfolding commit_plan_path root
plan_not_live p = cc

committable : IsCommittable sys d tree (step ∷ [])
unfolding is_ready ready_marker_path commit_plan_path root exists Dict.lookup plan_in read_bytes
    plan_from_dict plan_dict path_text path_of field_at traverse string_eq nat_eq list_eq
committable = record {
  ready = refl;
  planned = refl;
  separate = separate;
  ready_away = ((not_staged, not_live), tt);
  plan_away = ((plan_not_staged, plan_not_live), tt);
}

-- the power fails when the rename is done and the marker is removed
abbrev stopped : Machine
stopped = (commit sys d (machine 3)).1

abbrev finished : Machine
finished = (commit sys d (reboot (machine 3))).1

commit_cut : commit sys d (machine 3) ≡ (crashed, stopped)
unfolding commit finish cleanup rmtree remove_all below is_under load_commit_plan is_ready
    ready_marker_path commit_plan_path root plan_in read_bytes plan_from_dict plan_dict path_text
    path_of field_at traverse string_eq nat_eq list_eq execute_steps execute_step exists
    atomic_rename ensure_dir parent make_dirs effect mkdir os_replace remove Dict.lookup Dict.insert
    Dict.erase Dict.keys
commit_cut = refl

commit_whole : commit sys d (reboot (machine 3)) ≡ (done tt, finished)
unfolding commit finish cleanup rmtree remove_all below is_under load_commit_plan is_ready
    ready_marker_path commit_plan_path root plan_in read_bytes plan_from_dict plan_dict path_text
    path_of field_at traverse string_eq nat_eq list_eq execute_steps execute_step exists
    atomic_rename ensure_dir parent make_dirs effect mkdir os_replace remove Dict.lookup Dict.insert
    Dict.erase Dict.keys
commit_whole = refl

resume_run-commit_example : GoesOn sys d stopped finished
resume_run-commit_example =
    resume_run-commit sys d removes (machine 3) committable stopped finished commit_cut commit_whole

named : All IsNamed (step ∷ [])
named = (
  (
    ((λ p. cc, λ p. cc, refl), ((λ p. cc, λ p. cc, refl), ((λ p. cc, λ p. cc, refl), tt))),
    ((λ p. cc, λ p. cc, refl), ((λ p. cc, λ p. cc, refl), tt)),
  ),
  tt,
)

plan_from_dict-plan_dict_example : plan_from_dict (plan_dict (step ∷ [])) ≡ ok (step ∷ [])
plan_from_dict-plan_dict_example = plan_from_dict-plan_dict (step ∷ []) named

passable : IsPassable (codes "lake" ∷ []) tree
unfolding is_under nat_eq list_eq Dict.lookup
passable [] on b found = cc
passable (x ∷ []) on b found =
    let same : x ≡ codes "lake" = ground arith in
    let gone = ap (λ (n : List ℕ). node_at (n ∷ []) tree) same in cc (gone, found)
passable (x ∷ y ∷ q) on b found = ground arith

live_free : NoDir step.live_path tree
unfolding Dict.lookup nat_eq list_eq
live_free found = cc

staged_free : NoDir step.staged_path tree
unfolding Dict.lookup nat_eq list_eq
staged_free found = cc

publishable : IsPublishable d tree (step ∷ [])
unfolding root Dict.lookup is_under parent nat_eq list_eq
publishable = record {
  rooted = refl;
  outside = (refl, tt);
  distinct = (tt, tt, tt);
  open_ways = ((refl, tt), tt);
  clear = (record { way = passable; live_free = live_free; staged_free = staged_free }, tt);
}

commit-IsMoved_example :
    (m' : Machine) × (commit sys d (reboot (machine 3)) ≡ (done tt, m'))
    × All (IsMoved tree m'.fs) (step ∷ [])
    × ((q : FilePath) → is_under (root d) q ≡ true → node_at q m'.fs ≡ none)
    × ((q : FilePath)
        → is_under (root d) q ≡ false
        → All (Away q) (step ∷ [])
        → file_at q m'.fs ≡ file_at q tree)
commit-IsMoved_example =
    commit-IsMoved sys d (machine 3) (step ∷ []) removes committable publishable
