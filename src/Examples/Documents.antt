-- ===== src/Examples/Documents.antt =====
-- Small documents, and a partition of two rows.
use incremental_sync_data_se.Base.{
  ℕ, String, ◌+◌, pos, ◌≡◌, ◌≢◌, refl, ap, arith, ok, some, [], ◌∷◌, ◌++◌, string_eq, nat_eq,
  list_eq, traverse,
}
use incremental_sync_data_se.Base.Dict
use incremental_sync_data_se.Base.Sort.{codes, sort_by, str_le}
use incremental_sync_data_se.Time.{aware, iso_utc_z}
use incremental_sync_data_se.Time.Print.{digits, decimal}
use incremental_sync_data_se.Json.{
  Value, int, str, datetime, object, array, nil, cons, field, end, dumps, quote, bracket,
  object_text, int_text, encode_utf8, canonical_json_bytes, canonical_json_line, pretty_json_bytes,
}
use incremental_sync_data_se.Json.Order.{same_object, swapped, json_bytes-SameValue}
use incremental_sync_data_se.Machine.Tree.{Bytes, FilePath, Fs, file, exists, node_at}
use incremental_sync_data_se.Domain.Checkpoint.{fields_of}
use incremental_sync_data_se.Domain.Tables.{TableSpec, column_names}
use incremental_sync_data_se.Source.{Row}
use incremental_sync_data_se.Pipeline.Staging.{read_bytes}
use incremental_sync_data_se.Outputs.Lake.{
  build_merged_content, existing_bytes, with_newline, lines_of, row_to_jsonl, json_of_cell,
}
use incremental_sync_data_se.Outputs.Lake.Merge.{build_merged_content-append}

abbrev one_order : Value
one_order = object (field "b" (int (pos 1)) (field "a" (array (cons (str (codes "x")) nil)) end))

abbrev other_order : Value
other_order = object (field "a" (array (cons (str (codes "x")) nil)) (field "b" (int (pos 1)) end))

abbrev name_a : String
name_a = "a"

abbrev name_b : String
name_b = "b"

b_is_not_a : name_b ≢ name_a
b_is_not_a p = let e : codes name_b ≡ codes name_a = ap codes p in ground arith

json_bytes-SameValue_example :
    (canonical_json_bytes one_order ≡ canonical_json_bytes other_order)
    × (pretty_json_bytes one_order ≡ pretty_json_bytes other_order)
json_bytes-SameValue_example = json_bytes-SameValue (
    same_object (swapped "b" "a" (int (pos 1)) (array (cons (str (codes "x")) nil)) end b_is_not_a))

abbrev spec : TableSpec
spec = record {
  name = "notes";
  primary_key = "id";
  columns =
      record { name = "id"; pg_type = "bigint" }
      ∷ record { name = "updated_at"; pg_type = "timestamptz" }
      ∷ [];
  lake_subdir = "notes";
  share_subdir = "notes";
}

abbrev row : ℕ → Row
row n = ("id", int (pos n)) ∷ ("updated_at", datetime (aware 0)) ∷ []

abbrev line : ℕ → Bytes
line n = codes "{\"id\":" ++ (b'0' + n) ∷ codes ",\"updated_at\":\"0001-01-01T00:00:00Z\"}\n"

abbrev live : FilePath
live = codes "lake" ∷ codes "data.jsonl" ∷ []

-- a file whose last line was not closed
abbrev before : Fs
before = (live, file (codes "{}")) ∷ []

abbrev between : Fs
between = (live, file (codes "{}\n" ++ line 1)) ∷ []

first_merge : build_merged_content spec live (row 1 ∷ []) before ≡ ok (codes "{}\n" ++ line 1)
unfolding build_merged_content existing_bytes with_newline lines_of row_to_jsonl json_of_cell
    column_names read_bytes exists Dict.lookup list_eq nat_eq string_eq traverse canonical_json_line
    canonical_json_bytes dumps quote bracket object_text int_text encode_utf8 sort_by str_le
    iso_utc_z digits decimal fields_of
first_merge = refl

second_merge :
    build_merged_content spec live (row 2 ∷ []) between ≡ ok (codes "{}\n" ++ line 1 ++ line 2)
unfolding build_merged_content existing_bytes with_newline lines_of row_to_jsonl json_of_cell
    column_names read_bytes exists Dict.lookup list_eq nat_eq string_eq traverse canonical_json_line
    canonical_json_bytes dumps quote bracket object_text int_text encode_utf8 sort_by str_le
    iso_utc_z digits decimal fields_of
second_merge = refl

present : node_at live between ≡ some (file (codes "{}\n" ++ line 1))
unfolding Dict.lookup list_eq nat_eq
present = refl

build_merged_content-append_example :
    build_merged_content spec live (row 1 ∷ row 2 ∷ []) before
    ≡ ok (codes "{}\n" ++ line 1 ++ line 2)
build_merged_content-append_example =
    build_merged_content-append spec live (row 1 ∷ []) (row 2 ∷ []) before between
      (codes "{}\n" ++ line 1) (codes "{}\n" ++ line 1 ++ line 2) first_merge present second_merge
