-- ===== src/Pipeline/Lock/Windows/Exclusive.antt =====
-- On Windows too at most one process is in the body; but a lock that is left behind stays.
use incremental_sync_data_se.Base.{ℕ, ◌≡◌, ◌≢◌, refl, ap, ◌∙◌, true, nat_eq, arith}
use incremental_sync_data_se.Pipeline.Lock.Windows.{
  outside, inside, State, Step, create, refuse, close_file, unlink, not_unlinked, die, Reach, start,
  after,
}

-- a process that is in the code has the file there, and is alone
pub record IsExclusive (s : State) : Type 0 where
  pub there : (i : ℕ) → s.phase i ≢ outside → s.file_there ≡ true
  pub alone : (i j : ℕ) → s.phase i ≢ outside → s.phase j ≢ outside → i ≡ j

abbrev phase_path : {s t : State} → (i : ℕ) → s ≡ t → s.phase i ≡ t.phase i
phase_path i e = ap (λ (w : State). w.phase i) e

abbrev file_path : {s t : State} → s ≡ t → s.file_there ≡ t.file_there
file_path e = ap (λ (w : State). w.file_there) e

module _ {s t : State} (c : IsExclusive s) where
  there-Step : Step s t → (i : ℕ) → t.phase i ≢ outside → t.file_there ≡ true
  there-Step (create k p q e) i h = ground (arith, file_path e)
  there-Step (refuse k p q e) i h = ground (arith, q, file_path e)
  there-Step (close_file k p e) i h =
      ground (arith, c.there i, c.there k, phase_path i e, file_path e)
  there-Step (unlink k p e) i h = ground (arith, c.alone i k, phase_path i e, file_path e)
  there-Step (not_unlinked k p e) i h = ground (arith, c.there i, phase_path i e, file_path e)
  there-Step (die k e) i h = ground (arith, c.there i, phase_path i e, file_path e)

  alone-Step : Step s t → (i j : ℕ) → t.phase i ≢ outside → t.phase j ≢ outside → i ≡ j
  alone-Step (create k p q e) i j h g =
      ground (arith, c.there i, c.there j, phase_path i e, phase_path j e)
  alone-Step (refuse k p q e) i j h g = ground (arith, c.alone i j, phase_path i e, phase_path j e)
  alone-Step (close_file k p e) i j h g =
      ground (arith, c.alone i j, c.alone i k, c.alone k j, phase_path i e, phase_path j e)
  alone-Step (unlink k p e) i j h g = ground (arith, c.alone i j, phase_path i e, phase_path j e)
  alone-Step (not_unlinked k p e) i j h g =
      ground (arith, c.alone i j, phase_path i e, phase_path j e)
  alone-Step (die k e) i j h g = ground (arith, c.alone i j, phase_path i e, phase_path j e)

pub IsExclusive-Reach : {s : State} → Reach s → IsExclusive s
IsExclusive-Reach (start b) = record {
  there = λ i h. absurd (h refl);
  alone = λ i j h g. absurd (h refl);
}
IsExclusive-Reach (after r st) =
    let c = IsExclusive-Reach r in record { there = there-Step c st; alone = alone-Step c st }

-- a lock that no process holds: its file is there
pub record IsStale (s : State) : Type 0 where
  pub there : s.file_there ≡ true
  pub nobody : (i : ℕ) → s.phase i ≡ outside

IsStale-Step : {s t : State} → IsStale s → Step s t → IsStale t
IsStale-Step c (create k p q e) = absurd (let there = c.there in cc)
IsStale-Step c (refuse k p q e) = record {
  there = file_path e ∙ c.there;
  nobody = λ i. phase_path i e ∙ c.nobody i;
}
IsStale-Step c (close_file k p e) = absurd (let out = c.nobody k in cc)
IsStale-Step c (unlink k p e) = absurd (let out = c.nobody k in cc)
IsStale-Step c (not_unlinked k p e) = absurd (let out = c.nobody k in cc)
IsStale-Step c (die k e) = record {
  there = file_path e ∙ c.there;
  nobody = λ i. ground (arith, phase_path i e, c.nobody i);
}

pub data Later : State → State → Type 0 where
  here : {s : State} → Later s s
  next : {s t u : State} → Step s t → Later t u → Later s u

IsStale-Later : {s t : State} → IsStale s → Later s t → IsStale t
IsStale-Later c here = c
IsStale-Later c (next st rest) = IsStale-Later (IsStale-Step c st) rest

-- On Windows too, however the processes interleave, no two are in the body at once.
pub windows_exclusion :
    {s : State} (r : Reach s) (i j : ℕ) → s.phase i ≡ inside → s.phase j ≡ inside → i ≡ j
windows_exclusion r i j h g = (IsExclusive-Reach r).alone i j (λ p. cc) (λ p. cc)

-- On Windows, if the lock's file is there while no process is in the code, as after a process ended
-- in the body, no process gets into the body from then on.
pub stale_lock :
    {s t : State}
    → s.file_there ≡ true
    → ((i : ℕ) → s.phase i ≡ outside)
    → Later s t
    → (i : ℕ) → t.phase i ≡ outside
stale_lock there nobody later =
    (IsStale-Later (record { there = there; nobody = nobody }) later).nobody
