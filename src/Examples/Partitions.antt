-- ===== src/Examples/Partitions.antt =====
-- Two customers that changed on two days.
use incremental_sync_data_se.Base.{
  ℕ, ◌*◌, pos, ◌≡◌, refl, true, none, List, [], ◌∷◌, ◌++◌, ok, string_eq, nat_eq, list_eq, traverse,
}
use incremental_sync_data_se.Base.Dict
use incremental_sync_data_se.Base.Sort.{codes, sort_by, str_le, lex_le}
use incremental_sync_data_se.Source.Sorting.{sort_with}
use incremental_sync_data_se.Time.{Text, aware, micros_per_day, date_text, iso_utc_z}
use incremental_sync_data_se.Time.Print.{digits, decimal}
use incremental_sync_data_se.Json
use incremental_sync_data_se.Json.{
  int, str, datetime, dumps, object_text, quote, bracket, int_text, encode_utf8,
  canonical_json_line, canonical_json_bytes,
}
use incremental_sync_data_se.Machine.{Machine, done, effect}
use incremental_sync_data_se.Machine.Tree.{
  FilePath, exists, parent, file_name, mkdir, os_replace, write_file,
}
use incremental_sync_data_se.FileSystem.{
  make_dirs, ensure_dir, temp_file, fill_temp, write_bytes_atomic,
}
use incremental_sync_data_se.Domain.Checkpoint.{fields_of}
use incremental_sync_data_se.Domain.Tables.{customers, column_names}
use incremental_sync_data_se.Platform.{Platform}
use incremental_sync_data_se.Pipeline.Staging.{read_bytes}
use incremental_sync_data_se.Source.{Row}
use incremental_sync_data_se.Outputs.Lake.{
  StagedLakePartition, date_key_of, group_from, group_by_utc_date, predict_partitions, json_of_cell,
  row_to_jsonl, lines_of, with_newline, existing_bytes, build_merged_content, stage_partitions,
}
use incremental_sync_data_se.Outputs.Lake.{rows_or_none}
use incremental_sync_data_se.Outputs.Lake.Grouped.{rows_of_date, group_by_utc_date-rows_of_date}
use incremental_sync_data_se.Base.Dict.{Dict}
use incremental_sync_data_se.Outputs.Lake.Predicted.{live_paths, stage_partitions-predicted}

abbrev sys : Platform
sys = record {
  random_part = λ fs p. codes "tmp";
  loads = λ b. ok (Json.str b);
  removal_order = λ l. l;
  hexdigest = λ b. codes "00000000";
  stdout_open = λ l. true;
  clock = λ n. n;
}

abbrev row : ℕ → ℕ → Row
row n t =
    ("customer_id", int (pos n))
    ∷ ("name", str (codes "Ada"))
    ∷ ("email", str (codes "ada@example.org"))
    ∷ ("country", str (codes "CA"))
    ∷ ("updated_at", datetime (aware t))
    ∷ []

abbrev rows : List Row
rows = row 1 (739616 * micros_per_day) ∷ row 2 (739617 * micros_per_day) ∷ []

abbrev lake : FilePath
lake = codes "lake" ∷ []

abbrev staging : FilePath
staging = codes "runs" ∷ codes "0000" ∷ codes "lake" ∷ []

abbrev machine : Machine
machine = record { fs = []; power = none; reads = 0; stdout = [] }

abbrev partition : Text → StagedLakePartition
partition day = record {
  staged_path =
      codes "runs"
      ∷ codes "0000"
      ∷ codes "lake"
      ∷ codes "customers"
      ∷ (codes "date=2026-01-0" ++ day)
      ∷ codes "data.jsonl"
      ∷ [];
  live_path =
      codes "lake" ∷ codes "customers" ∷ (codes "date=2026-01-0" ++ day) ∷ codes "data.jsonl" ∷ [];
  table = "customers";
  date_key = codes "2026-01-0" ++ day;
  row_count = 1;
}

abbrev end : Machine
end = (stage_partitions sys lake customers staging rows machine).1

staged :
    stage_partitions sys lake customers staging rows machine
    ≡ (done (partition (codes "1") ∷ partition (codes "2") ∷ []), end)
unfolding stage_partitions build_merged_content existing_bytes with_newline lines_of row_to_jsonl
    json_of_cell column_names fields_of date_key_of group_from group_by_utc_date date_text iso_utc_z
    digits decimal read_bytes exists sort_with lex_le Dict.lookup Dict.insert Dict.erase Dict.keys
    list_eq nat_eq string_eq traverse canonical_json_line canonical_json_bytes dumps quote bracket
    object_text int_text encode_utf8 sort_by str_le write_bytes_atomic ensure_dir make_dirs
    temp_file fill_temp parent file_name effect mkdir os_replace write_file
staged = refl

stage_partitions-predicted_example :
    predict_partitions lake customers rows
    ≡ ok (live_paths (partition (codes "1") ∷ partition (codes "2") ∷ []))
stage_partitions-predicted_example =
    stage_partitions-predicted sys lake customers staging rows machine end
      (partition (codes "1") ∷ partition (codes "2") ∷ []) staged

abbrev grouped : Dict Text (List Row)
grouped =
    (codes "0001-01-02", row 1 micros_per_day ∷ [])
    ∷ (codes "0001-01-01", row 2 5 ∷ row 3 6 ∷ [])
    ∷ []

are_grouped : group_by_utc_date (row 1 micros_per_day ∷ row 2 5 ∷ row 3 6 ∷ []) ≡ ok grouped
unfolding group_by_utc_date group_from date_key_of date_text digits Dict.lookup Dict.insert nat_eq
    list_eq string_eq
are_grouped = refl

group_by_utc_date-rows_of_date_example :
    rows_or_none (Dict.lookup (codes "0001-01-01") grouped)
    ≡ rows_of_date (codes "0001-01-01") (row 1 micros_per_day ∷ row 2 5 ∷ row 3 6 ∷ [])
group_by_utc_date-rows_of_date_example =
    group_by_utc_date-rows_of_date (row 1 micros_per_day ∷ row 2 5 ∷ row 3 6 ∷ []) grouped
      are_grouped (codes "0001-01-01")
