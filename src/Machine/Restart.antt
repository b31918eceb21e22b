-- ===== src/Machine/Restart.antt =====
-- Taking runs of actions apart, and how an action that was cut off relates to one that was not.
use incremental_sync_data_se.Base.{
  ℕ, ◌≡◌, refl, ap, sym, Bool, true, false, if◌then◌else◌, ◌⊎◌, inl, inr, Option, none, some, Error,
  Result, ok, err, ◌∙◌,
}
use incremental_sync_data_se.Machine.Tree.{Fs}
use incremental_sync_data_se.Machine.{
  Machine, Outcome, done, raised, crashed, M, continue, ◌>>=◌, ◌>>◌, pure, lift, gets, effect,
  spend, attempt, commit_change, reboot,
}

module _ {ℓ κ} {A : Type ℓ} {B : Type κ} (act : M A) (f : A → M B) (m : Machine) where
  pub bind_of_done : {a : A} {m₁ : Machine} → act m ≡ (done a, m₁) → (act >>= f) m ≡ f a m₁
  bind_of_done h = rw h

  pub bind_of_raised :
      {e : Error} {m₁ : Machine} → act m ≡ (raised e, m₁) → (act >>= f) m ≡ (raised e, m₁)
  bind_of_raised h = rw h

  pub bind_of_crashed : {m₁ : Machine} → act m ≡ (crashed, m₁) → (act >>= f) m ≡ (crashed, m₁)
  bind_of_crashed h = rw h

module _ {ℓ κ} {A : Type ℓ} {B : Type κ} (f : A → M B) where
  continue-done :
      (r : Outcome A) (m₁ : Machine) {b : B} {m' : Machine}
      → continue r f m₁ ≡ (done b, m')
      → (a : A) × (r ≡ done a) × (f a m₁ ≡ (done b, m'))
  continue-done (done a) m₁ h = (a, refl, h)
  continue-done (raised e) m₁ h = cc
  continue-done crashed m₁ h = cc

  continue-crashed :
      (r : Outcome A) (m₁ : Machine) {m' : Machine}
      → continue r f m₁ ≡ (crashed, m')
      → ((r ≡ crashed) × (m₁ ≡ m')) ⊎ ((a : A) × (r ≡ done a) × (f a m₁ ≡ (crashed, m')))
  continue-crashed (done a) m₁ h = inr (a, refl, h)
  continue-crashed (raised e) m₁ h = cc
  continue-crashed crashed m₁ h = inl (refl, cc)

module _ {ℓ κ} {A : Type ℓ} {B : Type κ} (act : M A) (f : A → M B) (m : Machine) where
  -- an action in two parts returned: so did each part
  pub bind-done :
      {b : B} {m' : Machine}
      → (act >>= f) m ≡ (done b, m')
      → (a : A) × (m₁ : Machine) × (act m ≡ (done a, m₁)) × (f a m₁ ≡ (done b, m'))
  bind-done h =
      let (a, e, k) = continue-done f (act m).0 (act m).1 h in
      (a, (act m).1, ap (λ (r : Outcome A). (r, (act m).1)) e, k)

  -- an action in two parts was cut off: in the first, or after it
  pub bind-crashed :
      {m' : Machine}
      → (act >>= f) m ≡ (crashed, m')
      → (act m ≡ (crashed, m'))
        ⊎ ((a : A) × (m₁ : Machine) × (act m ≡ (done a, m₁)) × (f a m₁ ≡ (crashed, m')))
  bind-crashed {m'} h = elim (continue-crashed f (act m).0 (act m).1 h) [
    | inl c ↦ inl (cc (c.0, c.1))
    | inr (a, e, k) ↦ inr (a, (act m).1, ap (λ (r : Outcome A). (r, (act m).1)) e, k)
  ]

-- What one change did, if it returned, and if it was cut off.
module _ (change : Fs → Result Fs) (m : Machine) {m' : Machine} where
  commit_change-done :
      (r : Result Fs) (p : Option ℕ)
      → commit_change r (record m { power = p }) ≡ (done tt, m')
      → (fs : Fs) × (r ≡ ok fs) × (m' ≡ record m { fs = fs; power = p })
  commit_change-done (ok fs) p h = (fs, refl, cc)
  commit_change-done (err e) p h = cc

  attempt-done :
      (s : Option (Option ℕ))
      → attempt s change m ≡ (done tt, m')
      → (fs : Fs) × (p : Option ℕ) × (change m.fs ≡ ok fs) × (m' ≡ record m { fs = fs; power = p })
  attempt-done none h = cc
  attempt-done (some p) h = let (fs, e, k) = commit_change-done (change m.fs) p h in (fs, p, e, k)

  pub effect-done :
      effect change m ≡ (done tt, m')
      → (fs : Fs) × (p : Option ℕ) × (change m.fs ≡ ok fs) × (m' ≡ record m { fs = fs; power = p })
  unfolding effect
  effect-done h = attempt-done (spend m.power) h

  commit_change-not_crashed :
      (r : Result Fs) (m₁ : Machine) → commit_change r m₁ ≡ (crashed, m') → ⊥
  commit_change-not_crashed (ok fs) m₁ h = cc
  commit_change-not_crashed (err e) m₁ h = cc

  attempt-crashed : (s : Option (Option ℕ)) → attempt s change m ≡ (crashed, m') → m' ≡ m
  attempt-crashed none h = cc
  attempt-crashed (some p) h = absurd (commit_change-not_crashed (change m.fs) _ h)

  pub effect-crashed : effect change m ≡ (crashed, m') → m' ≡ m
  unfolding effect
  effect-crashed h = attempt-crashed (spend m.power) h

-- a process that is not cut off
pub effect-reboot :
    (change : Fs → Result Fs) (m : Machine) {fs : Fs}
    → change m.fs ≡ ok fs
    → effect change (reboot m) ≡ (done tt, record m { fs = fs; power = none })
unfolding effect
effect-reboot change m h = rw h

abbrev pub changed_to : Machine → Fs → Option ℕ → Machine
changed_to m fs p = record m { fs = fs; power = p }

-- One change and then the rest.
module _ {ℓ} {B : Type ℓ} (change : Fs → Result Fs) (rest : M B) (m : Machine) where
  pub then-done :
      {b : B} {m' : Machine}
      → (effect change >> rest) m ≡ (done b, m')
      → (fs : Fs) × (p : Option ℕ) × (change m.fs ≡ ok fs)
        × (rest (changed_to m fs p) ≡ (done b, m'))
  then-done h =
      let (_, m₁, first, next) = bind-done (effect change) (λ _. rest) m h in
      let (fs, p, made, e) = effect-done change m first in (fs, p, made, ap rest (sym e) ∙ next)

  pub then-crashed :
      {m' : Machine}
      → (effect change >> rest) m ≡ (crashed, m')
      → (m' ≡ m)
        ⊎ ((fs : Fs) × (p : Option ℕ) × (change m.fs ≡ ok fs)
            × (rest (changed_to m fs p) ≡ (crashed, m')))
  then-crashed h = elim (bind-crashed (effect change) (λ _. rest) m h) [
    | inl c ↦ inl (effect-crashed change m c)
    | inr (_, m₁, first, next) ↦
        let (fs, p, made, e) = effect-done change m first in
        inr (fs, p, made, ap rest (sym e) ∙ next)
  ]

  pub then-reboot :
      {fs : Fs}
      → change m.fs ≡ ok fs
      → (effect change >> rest) (reboot m) ≡ rest (changed_to m fs none)
  then-reboot h = bind_of_done (effect change) (λ _. rest) (reboot m) (effect-reboot change m h)

-- An action that returns although its time is limited returns the same without a limit.
pub record Steady {ℓ} {A : Type ℓ} (act : M A) : Type ℓ where
  pub at :
      (m : Machine) (a : A) (m₁ : Machine)
      → act m ≡ (done a, m₁)
      → act (reboot m) ≡ (done a, reboot m₁)

pub Steady-effect : (change : Fs → Result Fs) → Steady (effect change)
Steady-effect change = record {
  at = λ m a m₁ h.
      let (fs, p, e, k) = effect-done change m h in
      effect-reboot change m e ∙ sym (ap (λ (q : Machine). (done tt, reboot q)) k);
}

pub Steady-pure {ℓ} : {A : Type ℓ} (a : A) → Steady (pure a)
Steady-pure {A} b = record {
  at = λ m a m₁ h. ap (λ (r : Outcome A × Machine). (r.0, reboot r.1)) h;
}

pub Steady-bind {ℓ κ} :
    {A : Type ℓ} {B : Type κ} (act : M A) (f : A → M B)
    → Steady act
    → ((a : A) → Steady (f a))
    → Steady (act >>= f)
Steady-bind act f sa sf = record {
  at = λ m b m' h.
      let (a, m₁, first, next) = bind-done act f m h in
      bind_of_done act f (reboot m) (sa.at m a m₁ first) ∙ (sf a).at m₁ b m' next;
}

pub Steady-gets {ℓ} : {A : Type ℓ} (f : Fs → A) → Steady (gets f)
Steady-gets {A} f = record {
  at = λ m a m₁ h. ap (λ (r : Outcome A × Machine). (r.0, reboot r.1)) h;
}

pub Steady-if {ℓ} :
    {A : Type ℓ} (b : Bool) (x y : M A) → Steady x → Steady y → Steady (if b then x else y)
Steady-if true x y sx sy = sx
Steady-if false x y sx sy = sy

pub ruleset steady_rules = (Steady-effect, Steady-pure, Steady-gets, Steady-if, Steady-bind)

-- What an action returned that changes nothing.
pub pure-done {ℓ} : {A : Type ℓ} {a b : A} {m m' : Machine} → pure a m ≡ (done b, m') → a ≡ b
pure-done h = cc

pub lift-done {ℓ} :
    {A : Type ℓ} (r : Result A) (m : Machine) {a : A} {m' : Machine}
    → lift r m ≡ (done a, m')
    → r ≡ ok a
lift-done {A} (ok b) m {a} {m'} h = cc
lift-done {A} (err e) m {a} {m'} h = absurd (cc)
