-- ===== src/Pipeline/Lock.antt =====
-- pipeline/lock.py on POSIX: any number of processes that open the lock's file and try to take the
-- lock without waiting. The kernel keeps the holder, and frees the lock when its process ends.
pub mod Exclusion
pub mod Progress
pub mod Windows
use incremental_sync_data_se.Base.{ℕ, ◌≡◌, Option, none, some, ◌==◌, nat_eq, if◌then◌else◌}

-- where a process is in `acquire_ingest_lock`
pub data Phase : Type 0 where
  -- not in it; with the file open; in the body of the `with`; past `LOCK_UN`, the file still open
  outside opened inside released : Phase

pub record State : Type 0 where
  pub phase : ℕ → Phase
  pub holder : Option ℕ

abbrev pub move : (ℕ → Phase) → ℕ → Phase → ℕ → Phase
move phase i to j = if j == i then to else phase j

-- `flock` when a process ends: its lock is gone
abbrev pub freed : ℕ → Option ℕ → Option ℕ
freed i none = none
freed i (some j) = if j == i then none else some j

pub data Step (s : State) (t : State) : Type 0 where
  open_file :
      (i : ℕ) → s.phase i ≡ outside → t ≡ record s { phase = move s.phase i opened } → Step s t
  take :
      (i : ℕ)
      → s.phase i ≡ opened
      → s.holder ≡ none
      → t ≡ record { phase = move s.phase i inside; holder = some i }
      → Step s t
  -- `BlockingIOError`: the file is closed, and `IngestInProgressError` is raised
  refuse :
      (i j : ℕ)
      → s.phase i ≡ opened
      → s.holder ≡ some j
      → t ≡ record s { phase = move s.phase i outside }
      → Step s t
  -- another `OSError` of `flock` is answered in the same way
  flock_fails :
      (i : ℕ) → s.phase i ≡ opened → t ≡ record s { phase = move s.phase i outside } → Step s t
  -- the `finally` around the body, whether it returned or raised
  unlock :
      (i : ℕ)
      → s.phase i ≡ inside
      → t ≡ record { phase = move s.phase i released; holder = freed i s.holder }
      → Step s t
  -- an `OSError` of `LOCK_UN` is passed over, and the lock is still held
  unlock_fails :
      (i : ℕ) → s.phase i ≡ inside → t ≡ record s { phase = move s.phase i released } → Step s t
  -- the kernel frees the lock, if it is still held, with the file
  close :
      (i : ℕ)
      → s.phase i ≡ released
      → t ≡ record { phase = move s.phase i outside; holder = freed i s.holder }
      → Step s t
  -- a process ends, wherever it is
  die :
      (i : ℕ) → t ≡ record { phase = move s.phase i outside; holder = freed i s.holder } → Step s t

pub data Reach : State → Type 0 where
  start : Reach (record { phase = λ i. outside; holder = none })
  after : {s t : State} → Reach s → Step s t → Reach t
