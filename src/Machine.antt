-- ===== src/Machine.antt =====
-- What the service runs on: a tree of files, and a process that may lose power between any two
-- changes to it. An action returns, raises, or is cut off; what it changed before stays changed.
pub mod Keeps
pub mod Restart
pub mod Unless
pub mod Yields
pub mod Returns
pub mod Tree
use incremental_sync_data_se.Base.{
  ℕ, zero, suc, ◌≡◌, refl, Bool, true, false, Option, none, some, List, [], Error, Result, ok, err,
}
use Tree.{Fs}

pub record Machine : Type 0 where
  pub fs : Fs
  -- the changes that the process still lives to make; `none` is a process that is not cut off
  pub power : Option ℕ
  -- how often the clock was read
  pub reads : ℕ
  -- what was printed to stdout
  pub stdout : List (List ℕ)

pub data Outcome {ℓ} (A : Type ℓ) : Type ℓ where
  done : A → Outcome A
  raised : Error → Outcome A
  crashed : Outcome A

abbrev pub M {ℓ} : Type ℓ → Type ℓ
M A = Machine → Outcome A × Machine

abbrev pub continue {ℓ κ} :
    {A : Type ℓ} {B : Type κ} → Outcome A → (A → M B) → Machine → Outcome B × Machine
continue (done a) f m = f a m
continue (raised e) f m = (raised e, m)
continue crashed f m = (crashed, m)

infixl 5 ◌>>=◌ ◌>>◌
abbrev pub ◌>>=◌ {ℓ κ} : {A : Type ℓ} {B : Type κ} → M A → (A → M B) → M B
◌>>=◌ act f m = let (r, m') = act m in continue r f m'

abbrev pub ◌>>◌ {ℓ} : {B : Type ℓ} → M (Unit {0}) → M B → M B
m >> k = m >>= λ _. k

abbrev pub pure {ℓ} : {A : Type ℓ} → A → M A
pure a m = (done a, m)

abbrev pub raise {ℓ} : {A : Type ℓ} → Error → M A
raise e m = (raised e, m)

-- A pure computation that may raise.
abbrev pub lift {ℓ} : {A : Type ℓ} → Result A → M A
lift (ok a) m = (done a, m)
lift (err e) m = (raised e, m)

abbrev pub gets {ℓ} : {A : Type ℓ} → (Fs → A) → M A
gets f m = (done (f m.fs), m)

abbrev pub spend : Option ℕ → Option (Option ℕ)
spend none = some none
spend (some zero) = none
spend (some (suc n)) = some (some n)

abbrev pub commit_change : Result Fs → Machine → Outcome (Unit {0}) × Machine
commit_change (ok fs) m = (done tt, record m { fs = fs })
commit_change (err e) m = (raised e, m)

abbrev pub attempt : Option (Option ℕ) → (Fs → Result Fs) → Machine → Outcome (Unit {0}) × Machine
attempt none change m = (crashed, m)
attempt (some p) change m = commit_change (change m.fs) (record m { power = p })

-- One system call that changes the tree, all at once or not at all.
unfoldable pub effect : (Fs → Result Fs) → M (Unit {0})
effect change m = attempt (spend m.power) change m

-- The next process finds the tree that the last one left, and is not cut off.
abbrev pub reboot : Machine → Machine
reboot m = record m { power = none }
