-- ===== src/Machine/Keeps.antt =====
-- Invariants of actions: what holds of the tree before holds after, whether the action returns,
-- raises or is cut off. One rule for each way to build an action.
use incremental_sync_data_se.Base.{
  ℕ, ◌≡◌, refl, Bool, true, false, Option, none, some, Error, Result, ok, err, if◌then◌else◌,
}
use incremental_sync_data_se.Machine.Tree.{Fs}
use incremental_sync_data_se.Machine.{
  Machine, Outcome, done, raised, crashed, M, continue, ◌>>=◌, pure, raise, lift, gets, effect,
  spend, attempt, commit_change,
}

pub record Keeps {ℓ} {A : Type ℓ} (P : Fs → Type 0) (act : M A) : Type 0 where
  pub at : (m : Machine) → P m.fs → P (act m).1.fs

-- `change` leads from `P` to `P` wherever it succeeds
abbrev pub Stays : (Fs → Type 0) → (Fs → Result Fs) → Type 0
Stays P change = (fs fs' : Fs) → P fs → change fs ≡ ok fs' → P fs'

lift_at {ℓ} :
    {A : Type ℓ} (P : Fs → Type 0) (r : Result A) (m : Machine) → P m.fs → P (lift r m).1.fs
lift_at P (ok a) m h = h
lift_at P (err e) m h = h

module _ {ℓ} {A : Type ℓ} {P : Fs → Type 0} where
  pub Keeps-pure : (a : A) → Keeps P (pure a)
  Keeps-pure a = record { at = λ m h. h }

  pub Keeps-raise : (e : Error) → Keeps P (raise {A = A} e)
  Keeps-raise e = record { at = λ m h. h }

  pub Keeps-lift : (r : Result A) → Keeps P (lift r)
  Keeps-lift r = record { at = lift_at P r }

  pub Keeps-gets : (f : Fs → A) → Keeps P (gets f)
  Keeps-gets f = record { at = λ m h. h }

  pub Keeps-if : (b : Bool) (a c : M A) → Keeps P a → Keeps P c → Keeps P (if b then a else c)
  Keeps-if true a c ka kc = ka
  Keeps-if false a c ka kc = kc

module _ {P : Fs → Type 0} where
  changed_at :
      (r : Result Fs) (m : Machine)
      → P m.fs
      → ((fs' : Fs) → r ≡ ok fs' → P fs')
      → P (commit_change r m).1.fs
  changed_at (ok fs) m h k = k fs refl
  changed_at (err e) m h k = h

  attempt_at :
      (s : Option (Option ℕ)) (change : Fs → Result Fs) (m : Machine)
      → P m.fs
      → Stays P change
      → P (attempt s change m).1.fs
  attempt_at none change m h k = h
  attempt_at (some p) change m h k = changed_at (change m.fs) _ h (λ fs' e. k m.fs fs' h e)

  pub Keeps-effect : (change : Fs → Result Fs) → Stays P change → Keeps P (effect change)
  unfolding effect
  Keeps-effect change k = record { at = λ m h. attempt_at (spend m.power) change m h k }

module _ {ℓ κ} {A : Type ℓ} {B : Type κ} {P : Fs → Type 0} where
  continue_at :
      (r : Outcome A) (f : A → M B) (m : Machine)
      → P m.fs
      → ((a : A) → Keeps P (f a))
      → P (continue r f m).1.fs
  continue_at (done a) f m h k = (k a).at m h
  continue_at (raised e) f m h k = h
  continue_at crashed f m h k = h

  pub Keeps-bind :
      (act : M A) (f : A → M B) → Keeps P act → ((a : A) → Keeps P (f a)) → Keeps P (act >>= f)
  Keeps-bind act f ka kf = record {
    at = λ m h. let (r, m') = act m in continue_at r f m' (ka.at m h) kf;
  }

pub ruleset keeps_rules = (Keeps-pure, Keeps-raise, Keeps-lift, Keeps-gets, Keeps-if, Keeps-bind)
