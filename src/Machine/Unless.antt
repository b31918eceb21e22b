-- ===== src/Machine/Unless.antt =====
-- What holds before an action holds after it unless the action returned.
use incremental_sync_data_se.Base.{ℕ, ◌≡◌, refl, ◌⊎◌, inl, inr, Option, none, some, Result, ok, err}
use incremental_sync_data_se.Machine.Tree.{Fs}
use incremental_sync_data_se.Machine.{
  Machine, Outcome, done, raised, crashed, M, continue, ◌>>=◌, effect, spend, attempt,
  commit_change,
}
use incremental_sync_data_se.Machine.Keeps.{Keeps}

abbrev pub IsDone : Outcome (Unit {0}) → Type 0
IsDone r = r ≡ done tt

pub record KeepsUnless (P : Fs → Type 0) (act : M (Unit {0})) : Type 0 where
  pub at : (m : Machine) → P m.fs → IsDone (act m).0 ⊎ P (act m).1.fs

module _ (P : Fs → Type 0) where
  changed_unless :
      (r : Result Fs) (m : Machine)
      → P m.fs
      → IsDone (commit_change r m).0 ⊎ P (commit_change r m).1.fs
  changed_unless (ok fs) m h = inl refl
  changed_unless (err e) m h = inr h

  attempt_unless :
      (s : Option (Option ℕ)) (change : Fs → Result Fs) (m : Machine)
      → P m.fs
      → IsDone (attempt s change m).0 ⊎ P (attempt s change m).1.fs
  attempt_unless none change m h = inr h
  attempt_unless (some p) change m h = changed_unless (change m.fs) _ h

  pub KeepsUnless-effect : (change : Fs → Result Fs) → KeepsUnless P (effect change)
  unfolding effect
  KeepsUnless-effect change = record { at = λ m h. attempt_unless (spend m.power) change m h }

module _ {ℓ} {A : Type ℓ} {P : Fs → Type 0} where
  continue_unless :
      (r : Outcome A) (f : A → M (Unit {0})) (m : Machine)
      → P m.fs
      → ((a : A) → KeepsUnless P (f a))
      → IsDone (continue r f m).0 ⊎ P (continue r f m).1.fs
  continue_unless (done a) f m h k = (k a).at m h
  continue_unless (raised e) f m h k = inr h
  continue_unless crashed f m h k = inr h

  pub KeepsUnless-bind :
      (act : M A) (f : A → M (Unit {0}))
      → Keeps P act
      → ((a : A) → KeepsUnless P (f a))
      → KeepsUnless P (act >>= f)
  KeepsUnless-bind act f ka kf = record {
    at = λ m h. let (r, m') = act m in continue_unless r f m' (ka.at m h) kf;
  }
