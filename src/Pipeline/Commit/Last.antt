-- ===== src/Pipeline/Commit/Last.antt =====
-- The last file of a plan: until all the renames have returned, it is the old one.
use mathlib.Core.Path.{subst}
use incremental_sync_data_se.Base.{
  ℕ, ◌≡◌, ◌≢◌, refl, sym, ap, ◌∙◌, Option, none, some, List, [], ◌∷◌, ◌++◌, Result, ok, err, inl,
  inr, All, Bool-cases,
}
use incremental_sync_data_se.Machine.Tree.{Bytes, FilePath, Fs, parent, exists, os_replace}
use incremental_sync_data_se.Machine.{
  Machine, Outcome, done, raised, crashed, M, continue, pure, effect, commit_change, attempt, spend,
}
use incremental_sync_data_se.Machine.Keeps.{Keeps, Keeps-pure, Keeps-gets, Keeps-if, Keeps-bind}
use incremental_sync_data_se.FileSystem.{ensure_dir, atomic_rename}
use incremental_sync_data_se.FileSystem.Frame.{file_at, file_at-mkdir}
use incremental_sync_data_se.FileSystem.Crash.{Keeps-make_dirs, Keeps-atomic_rename_file}
use incremental_sync_data_se.Pipeline.Plan.{CommitStep}
use incremental_sync_data_se.Pipeline.Commit.{execute_step, execute_steps}
use incremental_sync_data_se.Pipeline.Commit.Steps.{Away}

abbrev Ran : Type 0
Ran = Outcome (Unit {0}) × Machine

-- A change that did not return changed nothing.
commit_change_failed :
    (r : Result Fs) (m : Machine) {o : Outcome (Unit {0})} {m' : Machine}
    → commit_change r m ≡ (o, m')
    → o ≢ done tt
    → m'.fs ≡ m.fs
commit_change_failed (ok fs) m {o} {m'} h n = absurd (n (sym (ap (λ (w : Ran). w.0) h)))
commit_change_failed (err e) m {o} {m'} h n = sym (ap (λ (w : Ran). w.1.fs) h)

attempt_failed :
    (s : Option (Option ℕ)) (change : Fs → Result Fs) (m : Machine) {o : Outcome (Unit {0})}
    {m' : Machine}
    → attempt s change m ≡ (o, m')
    → o ≢ done tt
    → m'.fs ≡ m.fs
attempt_failed none change m {o} {m'} h n = sym (ap (λ (w : Ran). w.1.fs) h)
attempt_failed (some p) change m {o} {m'} h n = commit_change_failed (change m.fs) _ h n

effect_failed :
    (change : Fs → Result Fs) (m : Machine) {o : Outcome (Unit {0})} {m' : Machine}
    → effect change m ≡ (o, m')
    → o ≢ done tt
    → m'.fs ≡ m.fs
unfolding effect
effect_failed change m h n = attempt_failed (spend m.power) change m h n

-- Two parts, of which the whole did not return: the first did not, or the second.
continue_failed :
    (P : Fs → Type 0) (r : Outcome (Unit {0})) (rest : M (Unit {0})) (m : Machine)
    {o : Outcome (Unit {0})} {m' : Machine}
    → continue r (λ _. rest) m ≡ (o, m')
    → o ≢ done tt
    → P m.fs
    → (rest m ≡ (o, m') → P m'.fs)
    → P m'.fs
continue_failed P (done a) rest m {o} {m'} h n here later = later h
continue_failed P (raised e) rest m {o} {m'} h n here later = subst (λ (w : Ran). P w.1.fs) h here
continue_failed P crashed rest m {o} {m'} h n here later = subst (λ (w : Ran). P w.1.fs) h here

continue-pure : (r : Outcome (Unit {0})) (m : Machine) → continue r (λ _. pure tt) m ≡ (r, m)
continue-pure (done a) m = refl
continue-pure (raised e) m = refl
continue-pure crashed m = refl

module _ (q : FilePath) {b : Option Bytes} where
  atomic_rename_failed :
      (src dst : FilePath) (m : Machine) {o : Outcome (Unit {0})} {m' : Machine}
      → atomic_rename src dst m ≡ (o, m')
      → o ≢ done tt
      → file_at q m.fs ≡ b
      → file_at q m'.fs ≡ b
  unfolding atomic_rename ensure_dir
  atomic_rename_failed src dst m {o} {m'} h n old =
      let (r, m₁) = ensure_dir (parent dst) m in
      let kept =
        (Keeps-make_dirs (λ fs. file_at q fs ≡ b) [] (parent dst)
            (λ p _ fs fs' k e. file_at-mkdir q fs p e ∙ k)).at
          m old in
      continue_failed (λ fs. file_at q fs ≡ b) r (effect (os_replace src dst)) m₁ h n kept
        (λ k. ap (file_at q) (effect_failed (os_replace src dst) m₁ k n) ∙ kept)

  execute_step_failed :
      (s : CommitStep) (m : Machine) {o : Outcome (Unit {0})} {m' : Machine}
      → execute_step s m ≡ (o, m')
      → o ≢ done tt
      → file_at q m.fs ≡ b
      → file_at q m'.fs ≡ b
  unfolding execute_step
  execute_step_failed s m {o} {m'} h n old = elim (Bool-cases (exists s.staged_path m.fs)) [
    | inl e ↦ atomic_rename_failed s.staged_path s.live_path m (rw e at h) n old
    | inr e ↦
        let done_is : (done tt, m) ≡ (o, m') = rw e at h in
        absurd (n (sym (ap (λ (w : Ran). w.0) done_is)))
  ]

  pub Keeps-execute_step_file :
      (s : CommitStep) → Away q s → Keeps (λ fs. file_at q fs ≡ b) (execute_step s)
  unfolding execute_step
  Keeps-execute_step_file s away = Keeps-bind _ _ (Keeps-gets _) (λ there.
      Keeps-if there _ _ (Keeps-atomic_rename_file s.staged_path s.live_path q away.0 away.1)
        (Keeps-pure tt))

  -- A file that no step but the last renames from or to is the old one, unless all steps return.
  pub execute_steps_failed :
      (steps : List CommitStep) (last : CommitStep) (m : Machine) {o : Outcome (Unit {0})}
      {m' : Machine}
      → All (Away q) steps
      → execute_steps (steps ++ last ∷ []) m ≡ (o, m')
      → o ≢ done tt
      → file_at q m.fs ≡ b
      → file_at q m'.fs ≡ b
  unfolding execute_steps
  execute_steps_failed [] last m {o} {m'} away h n old =
      let (r, m₁) = execute_step last m in
      execute_step_failed last m (sym (continue-pure r m₁) ∙ h) n old
  execute_steps_failed (s ∷ steps) last m {o} {m'} away h n old =
      let (r, m₁) = execute_step s m in
      let kept = (Keeps-execute_step_file s away.0).at m old in
      continue_failed (λ fs. file_at q fs ≡ b) r (execute_steps (steps ++ last ∷ [])) m₁ h n kept
        (λ k. execute_steps_failed steps last m₁ away.1 k n kept)
