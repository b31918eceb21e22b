-- ===== src/Outputs/Share.antt =====
-- outputs/share_writer.py: the latest delta of a table, as a file that replaces the one before.
use incremental_sync_data_se.Base.{
  ℕ, String, Option, none, some, List, [], ◌∷◌, ◌++◌, Result, ok, err, value_error, ◌>>=◌, length,
  string_eq,
}
use incremental_sync_data_se.Base.Sort.{codes}
use incremental_sync_data_se.Time.{Text, Datetime, iso_utc_z}
use incremental_sync_data_se.Json.{Value, str, int, datetime, object, canonical_json_line}
use incremental_sync_data_se.Machine.Tree.{Bytes, FilePath, ◌/◌}
use incremental_sync_data_se.Machine.{Machine, Outcome, done, M, continue, pure, lift}
use incremental_sync_data_se.FileSystem.{write_bytes_atomic}
use incremental_sync_data_se.Domain.Checkpoint.{fields_of, dict_of}
use incremental_sync_data_se.Domain.Tables.{TableSpec}
use incremental_sync_data_se.Source.{Row}
use incremental_sync_data_se.Platform.{Platform}
use incremental_sync_data_se.Outputs.Lake.{row_to_jsonl}
use incremental_sync_data_se.Json.Access.{int_of}
use incremental_sync_data_se.Pipeline.Advance.{cell}

pub record StagedShareFile : Type 0 where
  pub staged_path : FilePath
  pub live_path : FilePath
  pub table : String
  pub row_count : ℕ

abbrev pub share_file : FilePath → TableSpec → FilePath
share_file top table = top / codes table.share_subdir / codes "changes.jsonl"

unfoldable pub predict_share_path : FilePath → TableSpec → List Row → Option FilePath
predict_share_path share_root table [] = none
predict_share_path share_root table (row ∷ rows) = some (share_file share_root table)

abbrev as_datetime : Value → Result Datetime
as_datetime (datetime d) = ok d
as_datetime _ = err value_error

-- The payload under `record` is built as the lake's lines are: by columns, timestamps printed.
unfoldable pub build_record : TableSpec → Row → Text → Text → Value → Result Value
unfolding int_of cell
build_record table row run_id schema_fingerprint checkpoint_after = do
  pk_value ← cell table.primary_key row
  at ← cell "updated_at" row
  time ← as_datetime at
  payload ← row_to_jsonl table row
  pk ← int_of pk_value
  updated_at ← iso_utc_z time
  ok (
      object (
        fields_of (
          dict_of
            (("table", str (codes table.name))
              ∷ ("op", str (codes "upsert"))
              ∷ (table.primary_key, int pk)
              ∷ ("updated_at", str updated_at)
              ∷ ("run_id", str run_id)
              ∷ ("schema_fingerprint", str schema_fingerprint)
              ∷ ("checkpoint_after", checkpoint_after)
              ∷ ("record", payload)
              ∷ [])
            [])))

unfoldable pub share_bytes : TableSpec → Text → Text → Value → List Row → Result Bytes
unfolding build_record
share_bytes table run_id fingerprint checkpoint_after [] = ok []
share_bytes table run_id fingerprint checkpoint_after (row ∷ rows) = do
  r ← build_record table row run_id fingerprint checkpoint_after
  line ← canonical_json_line r
  rest ← share_bytes table run_id fingerprint checkpoint_after rows
  ok (line ++ rest)

abbrev pub written :
    StagedShareFile → Outcome (Unit {0}) × Machine → Outcome (Option StagedShareFile) × Machine
written file (r, m) = continue r (λ _. pure (some file)) m

module _ (sys : Platform) (share_root : FilePath) (table : TableSpec) where
  unfoldable pub stage_share :
      List Row → Text → Text → Value → FilePath → M (Option StagedShareFile)
  stage_share [] run_id fingerprint checkpoint_after run_share_staging m = (done none, m)
  stage_share (row ∷ rows) run_id fingerprint checkpoint_after run_share_staging m =
      let (r, m') = lift (share_bytes table run_id fingerprint checkpoint_after (row ∷ rows)) m in
      let file : StagedShareFile = record {
        staged_path = share_file run_share_staging table;
        live_path = share_file share_root table;
        table = table.name;
        row_count = length (row ∷ rows);
      } in
      continue r (λ b w. written file (write_bytes_atomic sys.random_part file.staged_path b w)) m'
