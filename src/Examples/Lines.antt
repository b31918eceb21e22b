-- ===== src/Examples/Lines.antt =====
-- A customer whose name has a line break in it.
use incremental_sync_data_se.Base.{
  ℕ, ◌≡◌, refl, pos, List, [], ◌∷◌, ◌++◌, Result, ok, err, string_eq, nat_eq, list_eq, traverse,
  map, All, none, some,
}
use incremental_sync_data_se.Base.Dict
use incremental_sync_data_se.Base.Sort.{codes, sort_by, str_le}
use incremental_sync_data_se.Time.{aware, iso_utc_z}
use incremental_sync_data_se.Time.Print.{digits, decimal}
use incremental_sync_data_se.Json.{
  null, int, str, datetime, dumps, object_text, quote, bracket, int_text, encode_utf8,
  canonical_json_line, canonical_json_bytes,
}
use incremental_sync_data_se.Json.Access.{int_of}
use incremental_sync_data_se.Json.Lines.{OneLine, newlines, canonical_json_line-OneLine}
use incremental_sync_data_se.Machine.Tree.{Bytes, FilePath, Fs, file, exists}
use incremental_sync_data_se.Domain.Checkpoint.{fields_of, dict_of}
use incremental_sync_data_se.Domain.Tables.{customers, column_names}
use incremental_sync_data_se.Source.{Row}
use incremental_sync_data_se.Pipeline.Advance.{cell}
use incremental_sync_data_se.Pipeline.Staging.{read_bytes}
use incremental_sync_data_se.Outputs.Lake.{
  json_of_cell, row_to_jsonl, lines_of, with_newline, existing_bytes, build_merged_content,
}
use incremental_sync_data_se.Outputs.Share.{build_record, share_bytes}
use incremental_sync_data_se.Outputs.Events.{event_dict, events_bytes}
use incremental_sync_data_se.Outputs.Lake.Split.{
  split_lines, json_of_row, build_merged_content-split_lines,
}
use incremental_sync_data_se.Outputs.Counted.{share_bytes-newlines}
use incremental_sync_data_se.Domain.Checkpoint.{initial, to_dict, watermark_dict}
use incremental_sync_data_se.Domain.Tables.{TableSpec, cases}
use incremental_sync_data_se.Pipeline.Plan.{path_text}
use incremental_sync_data_se.Outputs.Events.{Event}
use incremental_sync_data_se.Orchestrator.Stage.{Predictions, build_events, events_for}
use incremental_sync_data_se.Orchestrator.Stage.Reported.{Counts, build_events-Counts}

abbrev row : Row
row =
    ("customer_id", int (pos 7))
    ∷ ("name", str (codes "Ada\nLovelace"))
    ∷ ("email", str (codes "ada@example.org"))
    ∷ ("country", str (codes "CA"))
    ∷ ("updated_at", datetime (aware 0))
    ∷ []

abbrev rows : List Row
rows = row ∷ row ∷ []

abbrev taken : Result Bytes → Bytes
taken (ok b) = b
taken (err e) = []

abbrev name_line : Bytes
name_line = encode_utf8 (codes "\"Ada\\nLovelace\"\n")

named : canonical_json_line (str (codes "Ada\nLovelace")) ≡ ok name_line
unfolding canonical_json_line canonical_json_bytes dumps quote encode_utf8
named = refl

canonical_json_line-OneLine_example : (body : List ℕ) × OneLine body × (name_line ≡ body ++ 10 ∷ [])
canonical_json_line-OneLine_example =
    canonical_json_line-OneLine (str (codes "Ada\nLovelace")) name_line named

abbrev shared : Bytes
shared = taken (share_bytes customers (codes "0000") (codes "f") null rows)

are_shared : share_bytes customers (codes "0000") (codes "f") null rows ≡ ok shared
unfolding share_bytes build_record cell int_of row_to_jsonl json_of_cell column_names fields_of
    dict_of iso_utc_z digits decimal Dict.lookup Dict.insert list_eq nat_eq string_eq traverse
    canonical_json_line canonical_json_bytes dumps quote bracket object_text int_text encode_utf8
    sort_by str_le
are_shared = refl

share_bytes-newlines_example : newlines shared ≡ 2
share_bytes-newlines_example =
    share_bytes-newlines customers (codes "0000") (codes "f") null rows shared are_shared

abbrev live : FilePath
live = codes "data.jsonl" ∷ []

-- the last line of the file is not closed
abbrev fs : Fs
fs = (live, file (codes "{}\n{}")) ∷ []

abbrev merged : Bytes
merged = taken (build_merged_content customers live rows fs)

are_merged : build_merged_content customers live rows fs ≡ ok merged
unfolding build_merged_content existing_bytes with_newline lines_of row_to_jsonl json_of_cell
    column_names fields_of iso_utc_z digits decimal read_bytes exists Dict.lookup list_eq nat_eq
    string_eq traverse canonical_json_line canonical_json_bytes dumps quote bracket object_text
    int_text encode_utf8 sort_by str_le
are_merged = refl

build_merged_content-split_lines_example :
    (existing : Bytes) × (new : List Bytes) × (existing_bytes live fs ≡ ok existing)
    × (traverse (json_of_row customers) rows ≡ ok new)
    × (split_lines merged ≡ split_lines existing ++ new)
build_merged_content-split_lines_example =
    build_merged_content-split_lines customers live rows fs merged are_merged

-- the customers have two new rows, the cases none
abbrev predictions : Predictions
predictions = record {
  run_id = codes "0000";
  deltas = ("cases", []) ∷ ("customers", rows) ∷ [];
  fingerprints = ("cases", codes "f") ∷ ("customers", codes "g") ∷ [];
  cp_after = initial ("cases" ∷ "customers" ∷ []);
  lake_paths = ("cases", []) ∷ ("customers", live ∷ []) ∷ [];
  share_path = ("cases", none) ∷ ("customers", some live) ∷ [];
}

abbrev specs : List TableSpec
specs = cases ∷ customers ∷ []

abbrev all_of : Result (List Event) → List Event
all_of (ok es) = es
all_of (err e) = []

abbrev events : List Event
events = all_of (build_events predictions specs)

are_built : build_events predictions specs ≡ ok events
unfolding build_events events_for initial to_dict watermark_dict fields_of iso_utc_z digits decimal
    path_text Dict.lookup Dict.insert string_eq sort_by str_le traverse
are_built = refl

abbrev reported : Bytes
reported = taken (events_bytes events)

are_reported : events_bytes events ≡ ok reported
unfolding build_events events_for events_bytes event_dict initial to_dict watermark_dict fields_of
    iso_utc_z digits decimal path_text Dict.lookup Dict.insert string_eq canonical_json_line
    canonical_json_bytes dumps quote bracket object_text int_text encode_utf8 sort_by str_le
    traverse
are_reported = refl

build_events-Counts_example :
    (map (λ (e : Event). e.table) events ≡ "cases" ∷ "customers" ∷ [])
    × All (Counts predictions) events
    × (newlines reported ≡ 2)
build_events-Counts_example =
    build_events-Counts predictions specs events reported are_built are_reported
