-- ===== src/Orchestrator/Locked/DryRun.antt =====
-- A dry run: the plan of a run without its effects.
use incremental_sync_data_se.Base.{ℕ, ◌≡◌, refl, sym, ap, ◌∙◌, true, false, List, ok}
use incremental_sync_data_se.Base.Errors.{bind-ok}
use incremental_sync_data_se.Time.{Text}
use incremental_sync_data_se.Machine.Tree.{Fs}
use incremental_sync_data_se.Machine.{Machine, M, Outcome, done, ◌>>=◌, ◌>>◌, lift}
use incremental_sync_data_se.Machine.Keeps.{Keeps, Keeps-bind, Keeps-lift}
use incremental_sync_data_se.Machine.Restart.{lift-done, bind_of_done, bind-done}
use incremental_sync_data_se.Domain.Checkpoint.{Checkpoint, to_dict}
use incremental_sync_data_se.Pipeline.Commit.{resume_pending}
use incremental_sync_data_se.Pipeline.Staging.{read}
use incremental_sync_data_se.Pipeline.Staging.Reads.{Keeps-read}
use incremental_sync_data_se.Orchestrator.Stage.{runs_dir, Predictions}
use incremental_sync_data_se.Orchestrator.Locked.{
  Service, Manifest, predict, now_utc, build_manifest, planned_run, real_run, publish,
  emit_stdout_events, run_locked, table_manifests,
}

module _ (svc : Service) where
  Keeps-now_utc : (P : Fs → Type 0) → Keeps P (now_utc svc)
  unfolding now_utc
  Keeps-now_utc P = record { at = λ m h. h }

  Keeps-planned_run :
      (P : Fs → Type 0) (cp : Checkpoint) (t : ℕ) (p : Predictions)
      → Keeps P (planned_run svc cp t p)
  unfolding planned_run
  Keeps-planned_run P cp t p = Keeps-bind _ _ (Keeps-now_utc P) (λ n. Keeps-lift _)

  -- Once the sweep over the pending runs has returned, a dry run changes no path, whatever it answers.
  pub run_locked-dry :
      (m m₁ : Machine) (names : List Text)
      → resume_pending svc.sys (runs_dir svc.settings) m ≡ (done names, m₁)
      → (run_locked svc true m).1.fs ≡ m₁.fs
  unfolding run_locked
  run_locked-dry m m₁ names h =
      let same : Fs → Type 0 = λ fs. fs ≡ m₁.fs in
      let after : List Text → M Manifest = λ _. now_utc svc >>= λ t.
      read svc.store.load >>= λ cp. lift (predict svc cp) >>= λ p. planned_run svc cp t p in
      let rest = Keeps-bind _ _ (Keeps-now_utc same) (λ t.
        Keeps-bind _ _ (Keeps-read {P = same} svc.store.load) (λ cp.
          Keeps-bind _ _ (Keeps-lift (predict svc cp)) (λ p. Keeps-planned_run same cp t p))) in
      ap (λ (r : Outcome Manifest × Machine). r.1.fs)
        (bind_of_done (resume_pending svc.sys (runs_dir svc.settings)) after m h)
      ∙ rest.at m₁ refl

  manifest_time :
      (p : Predictions) (cp : Checkpoint) (s t u : ℕ) {x y : Manifest}
      → build_manifest svc p cp s t false ≡ ok x
      → build_manifest svc p cp s u true ≡ ok y
      → x ≡ record y { finished_at = t; dry_run = false }
  unfolding build_manifest
  manifest_time p cp s t u {x} {y} h k =
      let (tables, a, h₁) = bind-ok (table_manifests p svc.specs) _ h in
      let (before, b, h₂) = bind-ok (to_dict cp) _ h₁ in
      let (after, c, h₃) = bind-ok (to_dict p.cp_after) _ h₂ in
      let (tables', a', k₁) = bind-ok (table_manifests p svc.specs) _ k in
      let (before', b', k₂) = bind-ok (to_dict cp) _ k₁ in
      let (after', c', k₃) = bind-ok (to_dict p.cp_after) _ k₂ in cc

  -- A dry run and a real run with the same checkpoint, start and predictions, where both answer, have
  -- the same manifest but for the time of the end and the flag.
  pub planned_run-real_run :
      (cp : Checkpoint) (t : ℕ) (p : Predictions) (m n m' n' : Machine) (planned real : Manifest)
      → planned_run svc cp t p m ≡ (done planned, m')
      → real_run svc cp t p n ≡ (done real, n')
      → real ≡ record planned { finished_at = real.finished_at; dry_run = false }
  unfolding planned_run real_run
  planned_run-real_run cp t p m n m' n' planned real h k =
      let last : ℕ → M Manifest = λ s. lift (build_manifest svc p cp t s false) in
      let late = now_utc svc >>= last in
      let (u, m₁, _, h₁) =
        bind-done (now_utc svc) (λ s. lift (build_manifest svc p cp t s true)) m h in
      let (_, n₁, _, k₁) = bind-done (publish svc p) (λ _. emit_stdout_events svc p >> late) n k in
      let (_, n₂, _, k₂) = bind-done (emit_stdout_events svc p) (λ _. late) n₁ k₁ in
      let (s, n₃, _, k₃) = bind-done (now_utc svc) last n₂ k₂ in
      let same = manifest_time p cp t s u (lift-done _ n₃ k₃) (lift-done _ m₁ h₁) in
      same
      ∙ ap (λ (x : Manifest). record planned { finished_at = x.finished_at; dry_run = false })
          (sym same)
