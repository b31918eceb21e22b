-- ===== src/Pipeline/Lock/Progress.antt =====
-- The lock is not lost: every process can come to hold it.
use incremental_sync_data_se.Base.{
  ℕ, ◌≡◌, refl, inl, inr, none, some, true, Option, Option-cases, nat_eq, ==_refl,
}
use incremental_sync_data_se.Pipeline.Lock.{
  Phase, outside, opened, inside, released, State, Step, open_file, take, refuse, flock_fails,
  unlock, unlock_fails, close, die, Reach, move, freed,
}
use incremental_sync_data_se.Pipeline.Lock.Exclusion.{is_within, IsConsistent-Reach}

-- no process ends by force, and no call fails
unfoldable pub IsOrderly : {s t : State} → Step s t → Type 0
IsOrderly (open_file _ _ _) = Unit
IsOrderly (take _ _ _ _) = Unit
IsOrderly (refuse _ _ _ _ _) = Unit
IsOrderly (unlock _ _ _) = Unit
IsOrderly (flock_fails _ _ _) = ⊥
IsOrderly (unlock_fails _ _ _) = ⊥
IsOrderly (close _ _ _) = Unit
IsOrderly (die _ _) = ⊥

-- what orderly steps lead to
pub data Later : State → State → Type 0 where
  here : {s : State} → Later s s
  next : {s t u : State} (step : Step s t) → IsOrderly step → Later t u → Later s u

abbrev pub CanEnter : State → ℕ → Type 0
CanEnter s i = (t : State) × (Later s t) × (t.phase i ≡ inside)

moved : (phase : ℕ → Phase) (i : ℕ) (to : Phase) → move phase i to i ≡ to
moved phase i to = rw (==_refl i) refl

enter_next : {s t : State} (i : ℕ) (step : Step s t) → IsOrderly step → CanEnter t i → CanEnter s i
enter_next i step orderly (u, rest, entered) = (u, next step orderly rest, entered)

enter_opened : (s : State) (i : ℕ) → s.phase i ≡ opened → s.holder ≡ none → CanEnter s i
unfolding IsOrderly
enter_opened s i p q = (_, next (take i p q refl) tt here, moved s.phase i inside)

enter_outside : (s : State) (i : ℕ) → s.phase i ≡ outside → s.holder ≡ none → CanEnter s i
unfolding IsOrderly
enter_outside s i p q =
    enter_next i (open_file i p refl) tt (enter_opened _ i (moved s.phase i opened) q)

freed-none : (i : ℕ) (o : Option ℕ) → o ≡ none → freed i o ≡ none
freed-none i o q = rw q refl

enter_free : (s : State) (i : ℕ) (p : Phase) → s.phase i ≡ p → s.holder ≡ none → CanEnter s i
unfolding IsOrderly
enter_free s i outside p q = enter_outside s i p q
enter_free s i opened p q = enter_opened s i p q
enter_free s i inside p q = (s, here, p)
enter_free s i released p q =
    enter_next i (close i p refl) tt
      (enter_outside _ i (moved s.phase i outside) (freed-none i s.holder q))

freed_own : (j : ℕ) → freed j (some j) ≡ none
freed_own j = rw (==_refl j) refl

-- once the holder has let go
enter_held :
    (s : State) (i j : ℕ) (p : Phase)
    → s.phase j ≡ p
    → is_within p ≡ true
    → s.holder ≡ some j
    → CanEnter s i
unfolding IsOrderly
enter_held s i j outside p w q = cc
enter_held s i j opened p w q = cc
enter_held s i j inside p w q =
    let t : State = record { phase = move s.phase j released; holder = freed j s.holder } in
    enter_next i (unlock j p refl) tt (enter_free t i (t.phase i) refl (rw (q) (freed_own j)))
enter_held s i j released p w q =
    let t : State = record { phase = move s.phase j outside; holder = freed j s.holder } in
    enter_next i (close j p refl) tt (enter_free t i (t.phase i) refl (rw (q) (freed_own j)))

-- From every state that can be reached, steps in which no process ends by force and no call fails lead
-- to a state in which a given process is in the body: no refusal, no failing call and no end of a
-- process makes the lock unavailable for good.
pub lock_progress : {s : State} → Reach s → (i : ℕ) → CanEnter s i
lock_progress {s} r i = elim (Option-cases s.holder) [
  | inl q ↦ enter_free s i (s.phase i) refl q
  | inr (j, q) ↦ enter_held s i j (s.phase j) refl ((IsConsistent-Reach r).busy j q) q
]
