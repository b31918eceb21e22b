-- ===== src/Machine/Returns.antt =====
-- Total correctness of actions that change the tree: from a tree as said, in a process that is not cut
-- off, the action returns, and leaves a tree as said. One rule for each way to build an action.
use mathlib.Core.Path.{subst}
use incremental_sync_data_se.Base.{◌≡◌, refl, ◌∙◌, none, Result, ok}
use incremental_sync_data_se.Machine.Tree.{Fs}
use incremental_sync_data_se.Machine.{Machine, Outcome, done, M, ◌>>◌, pure, effect, reboot}
use incremental_sync_data_se.Machine.Keeps.{Keeps}
use incremental_sync_data_se.Machine.Restart.{bind_of_done, effect-reboot, changed_to}

pub record Returns (P Q : Fs → Type 0) (act : M (Unit {0})) : Type 0 where
  pub at :
      (m : Machine) → P m.fs → (fs : Fs) × (act (reboot m) ≡ (done tt, changed_to m fs none)) × Q fs

module _ {P Q : Fs → Type 0} where
  pub Returns-pure : ((fs : Fs) → P fs → Q fs) → Returns P Q (pure tt)
  Returns-pure h = record { at = λ m p. (m.fs, refl, h m.fs p) }

  pub Returns-effect :
      (change : Fs → Result Fs)
      → ((fs : Fs) → P fs → (fs' : Fs) × (change fs ≡ ok fs') × Q fs')
      → Returns P Q (effect change)
  Returns-effect change h = record {
    at = λ m p. let (fs, made, q) = h m.fs p in (fs, effect-reboot change m made, q);
  }

  pub Returns-then :
      {R : Fs → Type 0} (act rest : M (Unit {0}))
      → Returns P R act
      → Returns R Q rest
      → Returns P Q (act >> rest)
  Returns-then {R} act rest a b = record {
    at = λ m p.
        let (fs, first, r) = a.at m p in
        let (fs', next, q) = b.at (changed_to m fs none) r in
        (fs', bind_of_done act (λ _. rest) (reboot m) first ∙ next, q);
  }

-- What an action keeps, it leaves when it returns.
pub Returns-Keeps :
    {P Q : Fs → Type 0} (act : M (Unit {0}))
    → Returns P (λ fs. Unit {0}) act
    → Keeps Q act
    → Returns (λ fs. P fs × Q fs) Q act
Returns-Keeps {P} {Q} act a k = record {
  at = λ m h.
      let (fs, first, _) = a.at m h.0 in
      (
        fs,
        first,
        subst (λ (w : Outcome (Unit {0}) × Machine). Q w.1.fs) first (k.at (reboot m) h.1),
      );
}
