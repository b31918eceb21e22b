-- ===== src/Api/Held.antt =====
-- An ingest while another process holds the lock.
use mathlib.Core.Path.{subst}
use incremental_sync_data_se.Base.{
  ◌≡◌, ◌≢◌, Option-cases, some, inl, inr, refl, ap, ◌∙◌, Bool, true, Option, ok, [], key_error,
  type_error, value_error, attribute_error, runtime_error, os_error, ingest_in_progress,
  checkpoint_corrupt, commit_interrupted, source_query, database_error,
}
use incremental_sync_data_se.Machine.Tree.{
  Bytes, FilePath, Node, dir, file, Fs, node_at, write_file, parent,
}
use incremental_sync_data_se.Machine.{
  Machine, M, Outcome, done, raised, crashed, ◌>>◌, effect, raise,
}
use incremental_sync_data_se.Machine.Keeps.{Keeps, Keeps-bind, Keeps-raise, Keeps-effect}
use incremental_sync_data_se.Machine.Restart.{bind-done}
use incremental_sync_data_se.FileSystem.{ensure_dir}
use incremental_sync_data_se.FileSystem.Frame.{
  file_at, file_at-mkdir, node_at-write_file_ne, content,
}
use incremental_sync_data_se.FileSystem.Crash.{Keeps-make_dirs}
use incremental_sync_data_se.Orchestrator.Stage.{lock_path}
use incremental_sync_data_se.Orchestrator.Locked.{Service, Manifest, run, opened, open_lock_file}
use incremental_sync_data_se.Api.{manifest, respond, ingest}

module _ (svc : Service) (q : FilePath) (other : q ≢ lock_path svc.settings)
    {b : Option Bytes} where
  -- an open of what is there changes nothing
  is_open :
      (n : Node) (fs fs' : Fs)
      → file_at q fs ≡ b
      → opened svc (some n) fs (write_file (lock_path svc.settings) [] fs) ≡ ok fs'
      → file_at q fs' ≡ b
  is_open dir fs fs' h e = cc
  is_open (file c) fs fs' h e = subst (λ x. file_at q x ≡ b) (let same : fs ≡ fs' = cc in same) h

  Keeps-open : Keeps (λ fs. file_at q fs ≡ b) (effect (open_lock_file svc (lock_path svc.settings)))
  unfolding open_lock_file file_at
  Keeps-open = Keeps-effect _ (λ fs fs' h e.
      elim (Option-cases (node_at (lock_path svc.settings) fs)) [
        | inl missing ↦
            let made : write_file (lock_path svc.settings) [] fs ≡ ok fs' = rw missing at e in
            ap content (node_at-write_file_ne q fs (lock_path svc.settings) [] other made) ∙ h
        | inr (n, found) ↦ is_open n fs fs' h (rw found at e)
      ])

  Keeps-run : (dry_run : Bool) → Keeps (λ fs. file_at q fs ≡ b) (run svc true dry_run)
  unfolding run ensure_dir
  Keeps-run dry_run =
      Keeps-bind _ _
        (Keeps-make_dirs _ [] (parent (lock_path svc.settings))
          (λ p _ fs fs' h e. file_at-mkdir q fs p e ∙ h))
        (λ _. Keeps-bind _ _ Keeps-open (λ _. Keeps-raise _))

-- no manifest
not_done :
    (svc : Service) (dry_run : Bool) (m m' : Machine) (x : Manifest)
    → run svc true dry_run m ≢ (done x, m')
unfolding run
not_done svc dry_run m m' x h =
    let refuse : M Manifest = raise ingest_in_progress in
    let open_it = effect (open_lock_file svc (lock_path svc.settings)) in
    let (_, m₁, _, next) =
      bind-done (ensure_dir (parent (lock_path svc.settings))) (λ _. open_it >> refuse) m h in
    let (_, m₂, _, last) = bind-done open_it (λ _. refuse) m₁ next in cc

not_manifest :
    (r : Outcome Manifest) → ((x : Manifest) → r ≢ done x) → (x : Manifest) → respond r ≢ manifest x
unfolding respond
not_manifest (done y) n x h = n y refl
not_manifest (raised key_error) n x h = cc
not_manifest (raised type_error) n x h = cc
not_manifest (raised value_error) n x h = cc
not_manifest (raised attribute_error) n x h = cc
not_manifest (raised runtime_error) n x h = cc
not_manifest (raised os_error) n x h = cc
not_manifest (raised ingest_in_progress) n x h = cc
not_manifest (raised checkpoint_corrupt) n x h = cc
not_manifest (raised commit_interrupted) n x h = cc
not_manifest (raised source_query) n x h = cc
not_manifest (raised database_error) n x h = cc
not_manifest crashed n x h = cc

-- While another process holds the lock, an ingest answers with no manifest and changes no file but
-- the lock's.
pub ingest-held :
    (svc : Service) (dry_run : Bool) (m : Machine)
    → ((x : Manifest) → (ingest svc true dry_run m).0 ≢ manifest x)
      × ((q : FilePath)
          → q ≢ lock_path svc.settings
          → file_at q (ingest svc true dry_run m).1.fs ≡ file_at q m.fs)
unfolding ingest
ingest-held svc dry_run m = (
  not_manifest _ (λ x h.
      not_done svc dry_run m (run svc true dry_run m).1 x
        (ap (λ (r : Outcome Manifest). (r, (run svc true dry_run m).1)) h)),
  λ q other. (Keeps-run svc q other dry_run).at m refl,
)
