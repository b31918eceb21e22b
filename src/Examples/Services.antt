-- ===== src/Examples/Services.antt =====
-- A service built from the defaults, and its answers.
use incremental_sync_data_se.Base.{
  ℕ, zero, suc, ◌≤◌, ◌≡◌, refl, true, [], ◌∷◌, ok, length, traverse, string_eq, nat_eq, list_eq,
}
use incremental_sync_data_se.Base.Dict
use incremental_sync_data_se.Base.Sort.{codes, sort_by, str_le}
use incremental_sync_data_se.Time.{Text, iso_utc_z}
use incremental_sync_data_se.Time.Print.{digits, decimal}
use incremental_sync_data_se.Json.{
  dumps, quote, bracket, object_text, int_text, encode_utf8, canonical_json_bytes,
}
use incremental_sync_data_se.Machine.{effect}
use incremental_sync_data_se.Machine.Tree.{write_file}
use incremental_sync_data_se.FileSystem.{write_bytes_atomic}
use incremental_sync_data_se.FileSystem.StagedWriter.{
  staged_writer, staged_writer-write_bytes_atomic,
}
use incremental_sync_data_se.Domain.Checkpoint.{initial, watermark_dict, to_dict, fields_of}
use incremental_sync_data_se.Domain.Tables.{spec_by_name}
use incremental_sync_data_se.Source.Connection.{Database, make_factory, call, with_connection}
use incremental_sync_data_se.Source.Session.{
  make_repository, fetch_delta, read_session, with_cursor, transaction, close_with,
}
use incremental_sync_data_se.Platform.{Platform}
use incremental_sync_data_se.Pipeline.RunId.{
  compute_run_id, compute_schema_fingerprint, run_id_payload, normalize_checkpoint, normalize_value,
  prefix, fingerprint_payload,
}
use incremental_sync_data_se.Pipeline.Advance.{advance_checkpoint, build_row_identities}
use incremental_sync_data_se.Pipeline.Staging.{make}
use incremental_sync_data_se.Outputs.Lake.{predict_partitions}
use incremental_sync_data_se.Outputs.Share.{predict_share_path}
use incremental_sync_data_se.Orchestrator.Stage.{Predictions, runs_dir, for_tables, for_each}
use incremental_sync_data_se.Orchestrator.Fetch.{fetch_deltas, fetch_each}
use incremental_sync_data_se.Orchestrator.Locked.{Service, predict}
use incremental_sync_data_se.Wiring.{default_settings, init_orchestrator}
use incremental_sync_data_se.Wiring.Built.{init_orchestrator-named}
use incremental_sync_data_se.Examples.Runs.{sys, store, svc, predictions}

staged_writer-write_bytes_atomic_example :
    staged_writer sys.random_part
      (codes "lake" ∷ codes "x" ∷ [])
      (λ tmp. effect (write_file tmp (codes "new")))
    ≡ write_bytes_atomic sys.random_part (codes "lake" ∷ codes "x" ∷ []) (codes "new")
staged_writer-write_bytes_atomic_example =
    staged_writer-write_bytes_atomic sys.random_part (codes "lake" ∷ codes "x" ∷ []) (codes "new")

abbrev zeros : ℕ → Text
zeros zero = []
zeros (suc n) = b'0' ∷ zeros n

abbrev sys_of_zeros : Platform
sys_of_zeros = record sys { hexdigest = λ b. zeros 64 }

abbrev empty_database : Database
empty_database = record { answer = λ calls c. ok [] }

abbrev built : Service
built = record svc {
  sys = sys_of_zeros;
  settings = default_settings;
  repository = record {
    factory = record { dsn = default_settings.database_url };
    fetch_size = 1000;
  };
}

is_built :
    init_orchestrator sys_of_zeros (λ path names. store) empty_database (λ dsn. true) (λ s. s)
    ≡ ok built
unfolding init_orchestrator make_factory make_repository
is_built = refl

abbrev predicted : Predictions
predicted = record predictions {
  run_id = zeros 32;
  fingerprints = ("customers", zeros 16) ∷ ("cases", zeros 16) ∷ [];
}

is_predicted : predict built (initial ("customers" ∷ "cases" ∷ [])) ≡ ok predicted
unfolding predict fetch_deltas read_session with_connection with_cursor transaction call fetch_each
    fetch_delta close_with to_dict traverse sort_by initial Dict.insert Dict.lookup string_eq str_le
    iso_utc_z build_row_identities compute_run_id fields_of watermark_dict spec_by_name bracket
    canonical_json_bytes dumps encode_utf8 int_text object_text quote for_each for_tables
    predict_partitions predict_share_path advance_checkpoint compute_schema_fingerprint
    fingerprint_payload normalize_checkpoint normalize_value prefix run_id_payload decimal digits
is_predicted = refl

init_orchestrator-named_example :
    (length predicted.run_id ≡ 32)
    × (8 ≤ length predicted.run_id)
    × (length predicted.run_id ≤ 64)
    × (make (runs_dir built.settings) predicted.run_id
        ≡ ok (record { runs_root = runs_dir built.settings; run_id = predicted.run_id }))
init_orchestrator-named_example =
    init_orchestrator-named sys_of_zeros (λ path names. store) empty_database (λ dsn. true) (λ s. s)
      built (λ b. refl) is_built (initial ("customers" ∷ "cases" ∷ [])) predicted is_predicted
