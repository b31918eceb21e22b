-- ===== src/Examples/Locks.antt =====
-- Processes at the lock, on POSIX and on Windows.
use incremental_sync_data_se.Base.{ℕ, ◌≡◌, refl, true, false, some, none, nat_eq, arith}
use incremental_sync_data_se.Pipeline.Lock.{
  State, outside, opened, inside, Reach, start, after, open_file, take, move,
}
use incremental_sync_data_se.Pipeline.Lock.Exclusion.{mutual_exclusion}
use incremental_sync_data_se.Pipeline.Lock.Progress.{CanEnter, lock_progress}
use incremental_sync_data_se.Pipeline.Lock.Windows
use incremental_sync_data_se.Pipeline.Lock.Windows.Exclusive.{
  here, next, windows_exclusion, stale_lock,
}

abbrev idle : State
idle = record { phase = λ i. outside; holder = none }

abbrev waiting : State
waiting = record idle { phase = move idle.phase 7 opened }

abbrev busy : State
busy = record { phase = move waiting.phase 7 inside; holder = some 7 }

was_opened : waiting.phase 7 ≡ opened
unfolding nat_eq
was_opened = refl

is_inside : busy.phase 7 ≡ inside
unfolding nat_eq
is_inside = refl

busy-Reach : Reach busy
busy-Reach = after (after start (open_file 7 refl refl)) (take 7 was_opened refl refl)

abbrev worker : ℕ
worker = 7

mutual_exclusion_example : worker ≡ worker
mutual_exclusion_example = mutual_exclusion busy-Reach worker worker is_inside is_inside

lock_progress_example : CanEnter busy 3
lock_progress_example = lock_progress busy-Reach 3

abbrev unlocked : Windows.State
unlocked = record { phase = λ i. Windows.outside; file_there = false }

abbrev locked : Windows.State
locked = record { phase = Windows.move unlocked.phase 7 Windows.inside; file_there = true }

-- the process has ended in the body
abbrev left : Windows.State
left = record locked { phase = Windows.move locked.phase 7 Windows.outside }

locked-Reach : Windows.Reach locked
locked-Reach = Windows.after (Windows.start false) (Windows.create 7 refl refl refl)

is_locked : locked.phase 7 ≡ Windows.inside
unfolding nat_eq
is_locked = refl

nobody : (i : ℕ) → left.phase i ≡ Windows.outside
nobody i = ground arith

refused : Windows.Step left left
refused = Windows.refuse 3 (nobody 3) refl refl

windows_exclusion_example : worker ≡ worker
windows_exclusion_example = windows_exclusion locked-Reach worker worker is_locked is_locked

stale_lock_example : left.phase 3 ≡ Windows.outside
stale_lock_example = stale_lock refl nobody (next refused here) 3
