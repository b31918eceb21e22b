-- ===== src/Json/Tests.antt =====
-- Runs of the encoders.
use incremental_sync_data_se.Base.{◌≡◌, refl, ok, negsuc, true, traverse}
use incremental_sync_data_se.Base.Sort.{codes, sort_by, str_le}
use incremental_sync_data_se.Time.{aware, iso_utc_z}
use incremental_sync_data_se.Time.Print.{digits, decimal}
use incremental_sync_data_se.Json.{
  Value, null, boolean, int, str, array, object, datetime, nil, cons, end, field, dumps,
  encode_utf8, object_text, int_text, canonical_json_line, pretty_json_bytes, canonical_json_bytes,
  quote, bracket,
}

abbrev sample : Value
sample = object (
    field "b" (array (cons (int (negsuc 6)) (cons null nil)))
      (field "a" (str (codes "é\n")) (field "c" (datetime (aware 0)) end)))

canonical_runs :
    canonical_json_line sample
    ≡ ok (encode_utf8 (codes "{\"a\":\"é\\n\",\"b\":[-7,null],\"c\":\"0001-01-01T00:00:00Z\"}\n"))
unfolding canonical_json_line canonical_json_bytes dumps object_text int_text sort_by str_le
    traverse decimal iso_utc_z digits quote bracket encode_utf8
canonical_runs = refl

pretty_runs :
    pretty_json_bytes
      (object (field "x" (array (cons (boolean true) nil)) (field "e" (array nil) end)))
    ≡ ok (encode_utf8 (codes "{\n  \"e\": [],\n  \"x\": [\n    true\n  ]\n}\n"))
unfolding pretty_json_bytes dumps object_text sort_by str_le traverse quote bracket encode_utf8
pretty_runs = refl
