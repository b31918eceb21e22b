-- ===== src/Pipeline/Lock/Windows.antt =====
-- pipeline/lock.py on Windows: the lock is a file that is created exclusively.
pub mod Exclusive
use incremental_sync_data_se.Base.{
  ℕ, ◌≡◌, ◌≢◌, refl, sym, ap, ◌∙◌, Bool, true, false, nat_eq, arith, ◌==◌, if◌then◌else◌,
}

-- Where a process is: not in the code; in the body, which its file makes it alone in; past
-- `os.close`, with its file still there.
pub data Phase : Type 0 where
  outside inside closed : Phase

pub record State : Type 0 where
  pub phase : ℕ → Phase
  -- whether there is a file at the lock's path
  pub file_there : Bool

abbrev pub move : (ℕ → Phase) → ℕ → Phase → ℕ → Phase
move phase i to j = if j == i then to else phase j

pub data Step (s : State) (t : State) : Type 0 where
  -- `O_CREAT | O_EXCL`
  create :
      (i : ℕ)
      → s.phase i ≡ outside
      → s.file_there ≡ false
      → t ≡ record { phase = move s.phase i inside; file_there = true }
      → Step s t
  -- `FileExistsError`
  refuse : (i : ℕ) → s.phase i ≡ outside → s.file_there ≡ true → t ≡ s → Step s t
  close_file :
      (i : ℕ) → s.phase i ≡ inside → t ≡ record s { phase = move s.phase i closed } → Step s t
  unlink :
      (i : ℕ)
      → s.phase i ≡ closed
      → t ≡ record { phase = move s.phase i outside; file_there = false }
      → Step s t
  -- `unlink` raised an `OSError`, which is dropped
  not_unlinked :
      (i : ℕ) → s.phase i ≡ closed → t ≡ record s { phase = move s.phase i outside } → Step s t
  -- a process ends, wherever it is, and its file stays
  die : (i : ℕ) → t ≡ record s { phase = move s.phase i outside } → Step s t

pub data Reach : State → Type 0 where
  start : (there : Bool) → Reach (record { phase = λ i. outside; file_there = there })
  after : {s t : State} → Reach s → Step s t → Reach t
