-- ===== src/Wiring/Built.antt =====
-- What a service that was built from settings can rely on.
use incremental_sync_data_se.Base.{
  ◌≤◌, ◌≡◌, refl, ap, sym, ◌∙◌, Bool, String, List, [], ◌∷◌, Result, ok, err, bind-each, bind-ok,
  value_error, check, leb, ◌&&◌, ◌>>=◌, Option, length, pos, arith, nat_eq, list_eq,
}
use incremental_sync_data_se.Time.{Text}
use incremental_sync_data_se.Machine.Tree.{Bytes, FilePath}
use incremental_sync_data_se.Domain.Checkpoint.{Checkpoint, to_dict}
use incremental_sync_data_se.Domain.Tables.{spec_by_name}
use incremental_sync_data_se.Source.Connection.{Database, make_factory}
use incremental_sync_data_se.Source.Session.{make_repository}
use incremental_sync_data_se.Platform.{Platform}
use incremental_sync_data_se.Pipeline.RunId.{compute_run_id, compute_schema_fingerprint}
use incremental_sync_data_se.Pipeline.RunId.Bounds.{compute_run_id-length}
use incremental_sync_data_se.Pipeline.Advance.{advance_checkpoint, build_row_identities}
use incremental_sync_data_se.Pipeline.Staging.{make}
use incremental_sync_data_se.Base.Dict.{Dict}
use incremental_sync_data_se.Source.{Row}
use incremental_sync_data_se.Outputs.Lake.{predict_partitions}
use incremental_sync_data_se.Outputs.Share.{predict_share_path}
use incremental_sync_data_se.Orchestrator.Stage.{at}
use incremental_sync_data_se.Orchestrator.Locked.{fingerprint_prefix_len}
use incremental_sync_data_se.Orchestrator.{
  for_tables, Settings, runs_dir, Store, Predictions, Service, predict,
}
use incremental_sync_data_se.Orchestrator.Fetch.{fetch_deltas}
use incremental_sync_data_se.Wiring.{
  default_settings, load_settings, build_orchestrator, init_orchestrator,
}

-- a name that is not empty makes a staging directory
make-nonempty :
    (runs_root : FilePath) (run_id : Text)
    → 8 ≤ length run_id
    → make runs_root run_id ≡ ok (record { runs_root = runs_root; run_id = run_id })
unfolding make list_eq
make-nonempty runs_root [] h = absurd (omega arith)
make-nonempty runs_root (c ∷ run_id) h = refl

abbrev run_id_of : Text → Result Predictions → Text
run_id_of default (ok p) = p.run_id
run_id_of default (err e) = default

-- The identifier among the predictions is the one that was computed.
module _ (svc : Service) (deltas : Dict String (List Row)) (run_id : Text) where
  abbrev IsNamed : Predictions → Type 0
  IsNamed q = run_id ≡ q.run_id

  abbrev fingerprints_of : Result (Dict String Text)
  fingerprints_of =
      for_tables (λ spec. compute_schema_fingerprint svc.sys.hexdigest spec fingerprint_prefix_len)
        svc.specs

  abbrev lake_paths_of : Result (Dict String (List FilePath))
  lake_paths_of =
      for_tables (λ spec. at deltas spec.name >>= predict_partitions svc.settings.lake_root spec)
        svc.specs

  abbrev share_path_of : Result (Dict String (Option FilePath))
  share_path_of =
      for_tables
        (λ spec.
          at deltas spec.name >>= λ rows. ok (predict_share_path svc.settings.share_root spec rows))
        svc.specs

  advanced-IsNamed :
      (cp_after : Result Checkpoint) (p : Predictions)
      → (cp_after >>= λ cp. fingerprints_of >>= λ fingerprints. lake_paths_of >>= λ lake_paths.
          share_path_of >>= λ share_path. ok (record {
            run_id = run_id;
            deltas = deltas;
            fingerprints = fingerprints;
            cp_after = cp;
            lake_paths = lake_paths;
            share_path = share_path;
          }))
        ≡ ok p
      → IsNamed p
  advanced-IsNamed cp_after = bind-each IsNamed cp_after (λ cp _.
      bind-each IsNamed fingerprints_of (λ fingerprints _.
        bind-each IsNamed lake_paths_of (λ lake_paths _.
          bind-each IsNamed share_path_of (λ share_path _ q h. ap (run_id_of run_id) h))))

predict-run_id :
    (svc : Service) (cp : Checkpoint) (p : Predictions)
    → ((b : Bytes) → length (svc.sys.hexdigest b) ≡ 64)
    → predict svc cp ≡ ok p
    → (length p.run_id ≡ svc.settings.run_id_hex_prefix_len)
      × (8 ≤ svc.settings.run_id_hex_prefix_len)
      × (svc.settings.run_id_hex_prefix_len ≤ 64)
unfolding predict
predict-run_id svc cp p full =
    let n = svc.settings.run_id_hex_prefix_len in
    let P : Predictions → Type 0 = λ q. (length q.run_id ≡ n) × (8 ≤ n) × (n ≤ 64) in
    bind-each P (fetch_deltas svc.database svc.repository cp svc.specs []).0
      (λ deltas _. bind-each P (to_dict cp) (λ before _.
        bind-each P (build_row_identities (spec_by_name svc.specs) deltas) (λ identities _.
          bind-each P (compute_run_id svc.sys.hexdigest before identities n) (λ run_id named q h.
            let bounds =
              compute_run_id-length svc.sys.hexdigest full before identities n run_id named in
            let same =
              advanced-IsNamed svc deltas run_id
                (advance_checkpoint (spec_by_name svc.specs) deltas cp) q h in
            rw (sym same) bounds))))
      p

sys_of : Platform → Result Service → Platform
sys_of default (ok svc) = svc.sys
sys_of default (err e) = default

settings_of : Settings → Result Service → Settings
settings_of default (ok svc) = svc.settings
settings_of default (err e) = default

settings_in : Settings → Result Settings → Settings
settings_in default (ok s) = s
settings_in default (err e) = default

load_settings-same :
    (is_postgres_dsn : Text → Bool) (environment : Settings → Settings) (s : Settings)
    → load_settings is_postgres_dsn environment ≡ ok s
    → environment default_settings ≡ s
unfolding load_settings settings_in
load_settings-same is_postgres_dsn environment =
    let s = environment default_settings in
    let Same : Settings → Type 0 = λ t. s ≡ t in
    bind-each Same (check (is_postgres_dsn s.database_url) value_error) (λ _ _.
      bind-each Same
        (check (leb 8 s.run_id_hex_prefix_len && leb s.run_id_hex_prefix_len 64) value_error)
        (λ _ _ t h. ap (settings_in s) h))

build_orchestrator-same :
    (sys : Platform) (checkpoint_store : FilePath → List String → Store) (database : Database)
    (s : Settings) (svc : Service)
    → build_orchestrator sys checkpoint_store database s ≡ ok svc
    → (sys ≡ svc.sys) × (s ≡ svc.settings)
unfolding build_orchestrator sys_of settings_of
build_orchestrator-same sys checkpoint_store database s =
    let Same : Service → Type 0 = λ t. (sys ≡ t.sys) × (s ≡ t.settings) in
    bind-each Same (make_factory s.database_url) (λ factory _.
      bind-each Same (make_repository factory (pos 1000))
        (λ repository _ t h. (ap (sys_of sys) h, ap (settings_of s) h)))

-- Where SHA-256 has 64 digits: a service that was built from the environment and the defaults names
-- its runs with as many digits as the settings ask for, from 8 to 64, so that making a run's staging
-- directory does not raise.
pub init_orchestrator-named :
    (sys : Platform) (checkpoint_store : FilePath → List String → Store) (database : Database)
    (is_postgres_dsn : Text → Bool) (environment : Settings → Settings) (svc : Service)
    → ((b : Bytes) → length (sys.hexdigest b) ≡ 64)
    → init_orchestrator sys checkpoint_store database is_postgres_dsn environment ≡ ok svc
    → (cp : Checkpoint) (p : Predictions) → predict svc cp ≡ ok p
    → (length p.run_id ≡ (environment default_settings).run_id_hex_prefix_len)
      × (8 ≤ length p.run_id)
      × (length p.run_id ≤ 64)
      × (make (runs_dir svc.settings) p.run_id
          ≡ ok (record { runs_root = runs_dir svc.settings; run_id = p.run_id }))
unfolding init_orchestrator
init_orchestrator-named sys checkpoint_store database is_postgres_dsn environment svc full built cp
      p h =
    let (s, loaded, made) = bind-ok (load_settings is_postgres_dsn environment) _ built in
    let same = load_settings-same is_postgres_dsn environment s loaded in
    let (same_sys, same_settings) =
      build_orchestrator-same sys checkpoint_store database s svc made in
    let (long, low, high) =
      predict-run_id svc cp p
        (λ b. ap (λ (y : Platform). length (y.hexdigest b)) (sym same_sys) ∙ full b) h in
    let asked = ap (λ (t : Settings). t.run_id_hex_prefix_len) (same ∙ same_settings) in
    let enough : 8 ≤ length p.run_id = omega (arith, long, low) in
    (
      long ∙ sym asked,
      enough,
      omega (arith, long, high),
      make-nonempty (runs_dir svc.settings) p.run_id enough,
    )
