-- ===== src/Pipeline/Lock/Exclusion.antt =====
-- At most one process is in the body.
use incremental_sync_data_se.Base.{ℕ, ◌≡◌, sym, ap, ◌∙◌, Bool, true, false, some, nat_eq, arith}
use mathlib.Core.Option.{some-injective}
use incremental_sync_data_se.Pipeline.Lock.{
  Phase, outside, opened, inside, released, State, Step, open_file, take, refuse, flock_fails,
  unlock, unlock_fails, close, die, Reach, start, after,
}

-- in the body, or past `LOCK_UN` with the file open
abbrev pub is_within : Phase → Bool
is_within outside = false
is_within opened = false
is_within inside = true
is_within released = true

-- the process in the body is the one that the kernel has as the holder, and the holder is in the body or
-- has yet to close the file
pub record IsConsistent (s : State) : Type 0 where
  pub held : (i : ℕ) → s.phase i ≡ inside → s.holder ≡ some i
  pub busy : (i : ℕ) → s.holder ≡ some i → is_within (s.phase i) ≡ true

-- what a step did to the process `i` and to the holder
abbrev phase_path : {s t : State} → (i : ℕ) → s ≡ t → s.phase i ≡ t.phase i
phase_path i e = ap (λ (w : State). w.phase i) e

abbrev holder_path : {s t : State} → s ≡ t → s.holder ≡ t.holder
holder_path e = ap (λ (w : State). w.holder) e

module _ {s t : State} (c : IsConsistent s) where
  held-Step : Step s t → (i : ℕ) → t.phase i ≡ inside → t.holder ≡ some i
  held-Step (open_file j p e) i h = ground (arith, c.held i, phase_path i e, holder_path e)
  held-Step (take j p q e) i h = ground (arith, c.held i, phase_path i e, holder_path e)
  held-Step (refuse j k p q e) i h = ground (arith, c.held i, phase_path i e, holder_path e)
  held-Step (unlock j p e) i h = ground (arith, c.held i, phase_path i e, holder_path e)
  held-Step (flock_fails j p e) i h = ground (arith, c.held i, phase_path i e, holder_path e)
  held-Step (unlock_fails j p e) i h = ground (arith, c.held i, phase_path i e, holder_path e)
  held-Step (close j p e) i h = ground (arith, c.held i, phase_path i e, holder_path e)
  held-Step (die j e) i h = ground (arith, c.held i, phase_path i e, holder_path e)

  busy-Step : Step s t → (i : ℕ) → t.holder ≡ some i → is_within (t.phase i) ≡ true
  busy-Step (open_file j p e) i h = ground (arith, c.busy i, phase_path i e, holder_path e)
  busy-Step (take j p q e) i h = ground (arith, c.busy i, phase_path i e, holder_path e)
  busy-Step (refuse j k p q e) i h = ground (arith, c.busy i, phase_path i e, holder_path e)
  busy-Step (unlock j p e) i h = ground (arith, c.busy i, phase_path i e, holder_path e)
  busy-Step (flock_fails j p e) i h = ground (arith, c.busy i, phase_path i e, holder_path e)
  busy-Step (unlock_fails j p e) i h = ground (arith, c.busy i, phase_path i e, holder_path e)
  busy-Step (close j p e) i h = ground (arith, c.busy i, phase_path i e, holder_path e)
  busy-Step (die j e) i h = ground (arith, c.busy i, phase_path i e, holder_path e)

pub IsConsistent-Reach : {s : State} → Reach s → IsConsistent s
IsConsistent-Reach start = record { held = λ i h. cc; busy = λ i h. cc }
IsConsistent-Reach (after r st) =
    let c = IsConsistent-Reach r in record { held = held-Step c st; busy = busy-Step c st }

-- However the processes interleave, and wherever they end, no two are in the body at once.
pub mutual_exclusion :
    {s : State} (r : Reach s) (i j : ℕ) → s.phase i ≡ inside → s.phase j ≡ inside → i ≡ j
mutual_exclusion r i j h k =
    let c = IsConsistent-Reach r in some-injective i j (sym (c.held i h) ∙ c.held j k)
