-- ===== src/Outputs/Lake.antt =====
-- outputs/lake_writer.py: the delta's rows, appended to the partitions of their UTC dates. The new
-- bytes of a partition are staged whole.
pub mod Merge
pub mod Staged
pub mod Predicted
pub mod Grouped
pub mod Keyed
pub mod Split
use incremental_sync_data_se.Base.{
  ℕ, String, Option, none, some, List, [], ◌∷◌, ◌++◌, Result, ok, err, value_error, key_error,
  traverse, or_raise, map, if◌then◌else◌, ◌==◌, nat_eq, list_eq, string_eq, last?, length,
}
use incremental_sync_data_se.Base.Errors.{◌>>=◌ as ◌>>>=◌}
use incremental_sync_data_se.Base.Dict
use incremental_sync_data_se.Base.Dict.{Dict}
use incremental_sync_data_se.Base.Sort.{codes, lex_le}
use incremental_sync_data_se.Time.{Text, aware, date_text, iso_utc_z}
use incremental_sync_data_se.Json.{Value, str, datetime, object, canonical_json_line}
use incremental_sync_data_se.Machine.Tree.{Bytes, FilePath, Fs, ◌/◌, exists}
use incremental_sync_data_se.Machine.{M, ◌>>=◌, ◌>>◌, pure, lift}
use incremental_sync_data_se.FileSystem.{write_bytes_atomic}
use incremental_sync_data_se.Domain.Checkpoint.{fields_of}
use incremental_sync_data_se.Domain.Tables.{TableSpec, column_names}
use incremental_sync_data_se.Source.{Row}
use incremental_sync_data_se.Source.Sorting.{sort_with}
use incremental_sync_data_se.Platform.{Platform}
use incremental_sync_data_se.Pipeline.Staging.{read, read_bytes}

pub record StagedLakePartition : Type 0 where
  pub staged_path : FilePath
  pub live_path : FilePath
  pub table : String
  pub date_key : Text
  pub row_count : ℕ

-- the UTC date of a row's timestamp; `strftime` prints a year before 1000 without its leading zeros on
-- some platforms, which is not modelled
unfoldable pub date_key_of : Option Value → Result Text
date_key_of (some (datetime (aware t))) = ok (date_text t)
date_key_of _ = err value_error

abbrev pub rows_or_none : Option (List Row) → List Row
rows_or_none none = []
rows_or_none (some rows) = rows

-- `out.setdefault(date_key, []).append(row)`
abbrev pub append_to : Text → Row → Dict Text (List Row) → Dict Text (List Row)
append_to key row out = Dict.insert key (rows_or_none (Dict.lookup key out) ++ row ∷ []) out

unfoldable pub group_from : Dict Text (List Row) → List Row → Result (Dict Text (List Row))
group_from out [] = ok out
group_from out (row ∷ rows) =
    date_key_of (Dict.lookup "updated_at" row) >>>= λ key. group_from (append_to key row out) rows

unfoldable pub group_by_utc_date : List Row → Result (Dict Text (List Row))
unfolding group_from date_key_of
group_by_utc_date = group_from []

abbrev pub partition_path : FilePath → TableSpec → Text → FilePath
partition_path top table key =
    top / codes table.lake_subdir / (codes "date=" ++ key) / codes "data.jsonl"

unfoldable pub predict_partitions : FilePath → TableSpec → List Row → Result (List FilePath)
unfolding group_by_utc_date
predict_partitions lake_root table [] = ok []
predict_partitions lake_root table (row ∷ rows) = group_by_utc_date (row ∷ rows) >>>= λ groups.
    ok (map (partition_path lake_root table) (sort_with lex_le (Dict.keys groups)))

-- a row's columns, with timestamps printed
unfoldable pub json_of_cell : Value → Result Value
json_of_cell (datetime d) = iso_utc_z d >>>= λ t. ok (str t)
json_of_cell v = ok v

abbrev projected : Row → String → Result (String × Value)
projected row col =
    or_raise key_error (Dict.lookup col row) >>>= λ v. json_of_cell v >>>= λ j. ok (col, j)

unfoldable pub row_to_jsonl : TableSpec → Row → Result Value
unfolding json_of_cell
row_to_jsonl table row =
    traverse (projected row) (column_names table) >>>= λ cells. ok (object (fields_of cells))

abbrev pub line_of : TableSpec → Row → Result Bytes
line_of table row = row_to_jsonl table row >>>= canonical_json_line

unfoldable pub lines_of : TableSpec → List Row → Result Bytes
unfolding row_to_jsonl
lines_of table [] = ok []
lines_of table (row ∷ rows) =
    line_of table row >>>= λ line. lines_of table rows >>>= λ rest. ok (line ++ rest)

abbrev pub closed_line : Option ℕ → Bytes → Bytes
closed_line none existing = existing
closed_line (some c) existing = if c == 10 then existing else existing ++ 10 ∷ []

-- what is there, up to the end of a line
unfoldable pub with_newline : Bytes → Bytes
with_newline existing = closed_line (last? existing) existing

-- `live_path.read_bytes() if live_path.exists() else b""`
unfoldable pub existing_bytes : FilePath → Fs → Result Bytes
existing_bytes p fs = let found = read_bytes p fs in if exists p fs then found else ok []

unfoldable pub build_merged_content : TableSpec → FilePath → List Row → Fs → Result Bytes
unfolding existing_bytes with_newline lines_of
build_merged_content table live_path new_rows fs = existing_bytes live_path fs >>>= λ existing.
    lines_of table new_rows >>>= λ appended. ok (with_newline existing ++ appended)

module _ (sys : Platform) (lake_root : FilePath) (table : TableSpec)
    (run_lake_staging : FilePath) where
  stage_partition : Text → List Row → M StagedLakePartition
  stage_partition key rows = do
    let staged = partition_path run_lake_staging table key
    let live = partition_path lake_root table key
    merged ← read (build_merged_content table live rows)
    write_bytes_atomic sys.random_part staged merged
    pure (record {
      staged_path = staged;
      live_path = live;
      table = table.name;
      date_key = key;
      row_count = length rows;
    })

  stage_keys : Dict Text (List Row) → List Text → M (List StagedLakePartition)
  stage_keys groups [] = pure []
  stage_keys groups (key ∷ keys) = do
    part ← stage_partition key (rows_or_none (Dict.lookup key groups))
    parts ← stage_keys groups keys
    pure (part ∷ parts)

  unfoldable pub stage_partitions : List Row → M (List StagedLakePartition)
  unfolding stage_partition stage_keys
  stage_partitions [] = pure []
  stage_partitions (row ∷ rows) = do
    groups ← lift (group_by_utc_date (row ∷ rows))
    stage_keys groups (sort_with lex_le (Dict.keys groups))
