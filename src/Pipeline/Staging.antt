-- ===== src/Pipeline/Staging.antt =====
-- pipeline/staging.py: the layout of a run's staging directory, and its reads and writes.
pub mod Reads
pub mod Removal
use incremental_sync_data_se.Base.{
  ℕ, String, Bool, true, false, Option, none, some, List, [], ◌∷◌, ◌++◌, Error, Result, ok, err,
  value_error, os_error, if◌then◌else◌, ◌==◌, nat_eq, list_eq,
}
use incremental_sync_data_se.Base.Sort.{codes}
use incremental_sync_data_se.Time.{Text}
use incremental_sync_data_se.Json.{Value, pretty_json_bytes}
use incremental_sync_data_se.Machine.Tree.{
  Bytes, FilePath, Node, dir, file, Fs, ◌/◌, node_at, exists, is_dir_node, below, remove,
}
use incremental_sync_data_se.Machine.{M, ◌>>=◌, ◌>>◌, pure, raise, lift, gets, effect}
use incremental_sync_data_se.FileSystem.{ensure_dir, write_bytes_atomic}
use incremental_sync_data_se.Platform.{Platform}
use incremental_sync_data_se.Pipeline.Plan.{CommitStep, plan_dict, plan_from_dict}

pub record RunStagingDir : Type 0 where
  pub runs_root : FilePath
  pub run_id : Text

-- the constructor; a run's name is not empty
unfoldable pub make : FilePath → Text → Result RunStagingDir
make runs_root run_id =
    if run_id == [] then err value_error else ok (record { runs_root = runs_root; run_id = run_id })

module _ (d : RunStagingDir) where
  unfoldable pub root : FilePath
  root = d.runs_root / d.run_id

  unfoldable pub lake_dir : FilePath
  lake_dir = root / codes "lake"

  unfoldable pub share_dir : FilePath
  share_dir = root / codes "share"

  unfoldable pub events_dir : FilePath
  events_dir = root / codes "events"

  unfoldable pub checkpoint_path : FilePath
  checkpoint_path = root / codes "checkpoint.json"

  unfoldable pub commit_plan_path : FilePath
  commit_plan_path = root / codes "commit_plan.json"

  unfoldable pub ready_marker_path : FilePath
  ready_marker_path = root / codes "READY"

  unfoldable pub ensure_layout : M (Unit {0})
  ensure_layout = do
    ensure_dir root
    ensure_dir lake_dir
    ensure_dir share_dir
    ensure_dir events_dir

  unfoldable pub is_ready : Fs → Bool
  is_ready = exists ready_marker_path

abbrev bytes_of : Option Node → Result Bytes
bytes_of (some (file b)) = ok b
bytes_of _ = err os_error

-- `path.read_bytes()`
unfoldable pub read_bytes : FilePath → Fs → Result Bytes
read_bytes p fs = bytes_of (node_at p fs)

-- `raise` of what a read or a pure computation raised
abbrev pub read {ℓ} : {A : Type ℓ} → (Fs → Result A) → M A
read f m = lift (f m.fs) m

-- `shutil.rmtree`, one path after the other
unfoldable pub remove_all : List FilePath → M (Unit {0})
remove_all [] = pure tt
remove_all (p ∷ ps) = do effect (remove p); remove_all ps

-- `json.loads(raw)` of what was read, and the plan of what was parsed
abbrev parsed : Platform → Result Bytes → Result Value
parsed sys (ok b) = sys.loads b
parsed sys (err e) = err e

abbrev parsed_plan : Result Value → Result (List CommitStep)
parsed_plan (ok v) = plan_from_dict v
parsed_plan (err e) = err e

module _ (sys : Platform) where
  -- A path where no directory is raises.
  unfoldable pub rmtree : FilePath → M (Unit {0})
  rmtree top = do
    found ← gets (node_at top)
    paths ← gets (λ fs. sys.removal_order (below top fs))
    if is_dir_node found then remove_all paths else raise os_error

  module _ (d : RunStagingDir) where
    unfoldable pub write_commit_plan : List CommitStep → M (Unit {0})
    write_commit_plan steps = do
      bytes ← lift (pretty_json_bytes (plan_dict steps))
      write_bytes_atomic sys.random_part (commit_plan_path d) bytes

    -- the plan that a tree holds for the run
    unfoldable pub plan_in : Fs → Result (List CommitStep)
    unfolding read_bytes
    plan_in fs = parsed_plan (parsed sys (read_bytes (commit_plan_path d) fs))

    unfoldable pub load_commit_plan : M (List CommitStep)
    load_commit_plan = read plan_in

    unfoldable pub mark_ready : M (Unit {0})
    mark_ready = write_bytes_atomic sys.random_part (ready_marker_path d) (codes "READY\n")

    unfoldable pub cleanup : M (Unit {0})
    cleanup = do there ← gets (exists (root d)); if there then rmtree (root d) else pure tt
