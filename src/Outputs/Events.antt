-- ===== src/Outputs/Events.antt =====
-- outputs/event_writer.py and domain/events.py: one event for each table of a run.
use incremental_sync_data_se.Base.{
  ℕ, String, pos, Option, none, some, List, [], ◌∷◌, ◌++◌, Result, ok, length, if◌then◌else◌,
}
use incremental_sync_data_se.Base.Errors.{◌>>=◌ as ◌>>>=◌}
use incremental_sync_data_se.Base.Sort.{codes}
use incremental_sync_data_se.Time.{Text}
use incremental_sync_data_se.Json.{
  Value, null, str, int, array, object, end, field, canonical_json_line, canonical_json_bytes,
}
use incremental_sync_data_se.Machine.Tree.{Bytes, FilePath, ◌/◌}
use incremental_sync_data_se.Machine.{Machine, M, ◌>>=◌, ◌>>◌, pure, lift, done}
use incremental_sync_data_se.FileSystem.{write_bytes_atomic}
use incremental_sync_data_se.Platform.{Platform}
use incremental_sync_data_se.Pipeline.RunId.{items_of}

pub record Event : Type 0 where
  pub table : String
  pub run_id : Text
  pub schema_fingerprint : Text
  pub delta_row_count : ℕ
  pub lake_paths : List Text
  pub share_path : Option Text
  pub checkpoint_after : Value

abbrev texts : List Text → List Value
texts [] = []
texts (t ∷ ts) = str t ∷ texts ts

abbrev or_null : Option Text → Value
or_null none = null
or_null (some t) = str t

-- `model_dump(mode="json")`
unfoldable pub event_dict : Event → Value
event_dict e = object (
    field "table" (str (codes e.table)) (
      field "run_id" (str e.run_id) (
        field "schema_fingerprint" (str e.schema_fingerprint) (
          field "delta_row_count" (int (pos e.delta_row_count)) (
            field "lake_paths" (array (items_of (texts e.lake_paths))) (
              field "share_path" (or_null e.share_path)
                (field "checkpoint_after" e.checkpoint_after end)))))))

pub record StagedEventFile : Type 0 where
  pub staged_path : FilePath
  pub live_path : FilePath
  pub run_id : Text
  pub event_count : ℕ

unfoldable pub events_bytes : List Event → Result Bytes
unfolding event_dict
events_bytes [] = ok []
events_bytes (e ∷ events) = canonical_json_line (event_dict e) >>>= λ line.
    events_bytes events >>>= λ rest. ok (line ++ rest)

abbrev pub run_file : FilePath → Text → FilePath
run_file top run_id = top / (run_id ++ codes ".jsonl")

module _ (sys : Platform) where
  unfoldable pub stage_events : FilePath → List Event → Text → FilePath → M StagedEventFile
  unfolding events_bytes
  stage_events events_root events run_id run_events_staging = do
    let staged = run_file run_events_staging run_id
    blob ← lift (events_bytes events)
    write_bytes_atomic sys.random_part staged blob
    pure (record {
      staged_path = staged;
      live_path = run_file events_root run_id;
      run_id = run_id;
      event_count = length events;
    })

  abbrev print_line : Bytes → Machine → Machine
  print_line line m = record m { stdout = m.stdout ++ (line ++ 10 ∷ []) ∷ [] }

  -- A closed stdout ends the loop and raises nothing.
  unfoldable pub emit_to_stdout : List Event → M (Unit {0})
  emit_to_stdout [] = pure tt
  emit_to_stdout (e ∷ events) = do
    line ← lift (canonical_json_bytes (event_dict e))
    λ m.
        let rest = emit_to_stdout events (print_line line m) in
        if sys.stdout_open m.stdout then rest else (done tt, m)
