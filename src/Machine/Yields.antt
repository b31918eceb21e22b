-- ===== src/Machine/Yields.antt =====
-- What is true of the value that an action returns, where it returns. One rule for each way to build
-- an action.
use mathlib.Core.Path.{subst}
use incremental_sync_data_se.Base.{◌≡◌, Result, ok}
use incremental_sync_data_se.Machine.{Machine, done, M, ◌>>=◌, pure, lift}
use incremental_sync_data_se.Machine.Restart.{bind-done, pure-done, lift-done}

pub record Yields {ℓ} {A : Type ℓ} (Q : A → Type 0) (act : M A) : Type ℓ where
  pub at : (m : Machine) (a : A) (m' : Machine) → act m ≡ (done a, m') → Q a

-- nothing is said
abbrev pub Anything {ℓ} : {A : Type ℓ} → A → Type 0
Anything a = Unit

module _ {ℓ} {A : Type ℓ} where
  pub Yields-Anything : (act : M A) → Yields Anything act
  Yields-Anything act = record { at = λ m a m' h. tt }

  pub Yields-pure : {Q : A → Type 0} (a : A) → Q a → Yields Q (pure a)
  Yields-pure {Q} a q = record { at = λ m b m' h. subst Q (pure-done h) q }

  pub Yields-lift : {Q : A → Type 0} (r : Result A) → ((a : A) → r ≡ ok a → Q a) → Yields Q (lift r)
  Yields-lift r q = record { at = λ m a m' h. q a (lift-done r m h) }

pub Yields-bind {ℓ κ} :
    {A : Type ℓ} {B : Type κ} {P : A → Type 0} {Q : B → Type 0} (act : M A) (f : A → M B)
    → Yields P act
    → ((a : A) → P a → Yields Q (f a))
    → Yields Q (act >>= f)
Yields-bind act f ya yf = record {
  at = λ m b m' h.
      let (a, m₁, first, next) = bind-done act f m h in (yf a (ya.at m a m₁ first)).at m₁ b m' next;
}
