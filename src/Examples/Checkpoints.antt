-- ===== src/Examples/Checkpoints.antt =====
-- A checkpoint of two tables, whose names are not in order.
use incremental_sync_data_se.Base.{
  String, ◌+◌, ◌*◌, ◌≡◌, ◌≢◌, refl, ap, arith, Result, ok, err, value_error, [], ◌∷◌, ◌>>=◌,
  if◌then◌else◌, ◌==◌, nat_eq, list_eq, All, string_eq,
}
use incremental_sync_data_se.Base.Sort.{codes, sort_by}
use incremental_sync_data_se.Time.{Text, Datetime, aware, micros_per_day, date_text, time_text}
use incremental_sync_data_se.Time.Print.{digits}
use incremental_sync_data_se.Time.Parse.{isoformat}
use incremental_sync_data_se.Domain.Checkpoint.{TableWatermark, Checkpoint, table_name, to_dict}
use incremental_sync_data_se.Domain.Checkpoint.Loaded.{Python, from_dict, SameCheckpoint}
use incremental_sync_data_se.Domain.Checkpoint.Loaded.RoundTrip.{Entry, Reads, from_dict-to_dict}

-- a reader of two timestamps
abbrev read_two : Text → Result Datetime
read_two s =
    if s == codes "2026-03-31T12:00:00+00:00"
    then ok (aware (739705 * micros_per_day + 43200000000))
    else if s == codes "0001-01-01T00:00:00+00:00"
    then ok (aware 0)
    else err value_error

abbrev py : Python
py = record { fromisoformat = read_two; repr = λ v. [] }

abbrev watermark_one : TableWatermark
watermark_one = record { updated_at = 739705 * micros_per_day + 43200000000; last_pk = 7 }

abbrev watermark_two : TableWatermark
watermark_two = record { updated_at = 0; last_pk = 0 }

abbrev checkpoint : Checkpoint
checkpoint = record { per_table = ("customers", watermark_one) ∷ ("cases", watermark_two) ∷ [] }

abbrev name_customers : String
name_customers = "customers"

abbrev name_cases : String
name_cases = "cases"

distinct_names : name_customers ≢ name_cases
distinct_names p = let e : codes name_customers ≡ codes name_cases = ap codes p in ground arith

checkpoint-Reads : All (λ (e : Entry). Reads py e.1) checkpoint.per_table
unfolding isoformat digits nat_eq list_eq date_text time_text
checkpoint-Reads = (refl, (refl, tt))

from_dict-to_dict_example :
    (cp' : Checkpoint) × ((to_dict checkpoint >>= from_dict py) ≡ ok cp')
    × (cp'.per_table ≡ sort_by table_name checkpoint.per_table)
    × SameCheckpoint cp' checkpoint
from_dict-to_dict_example =
    from_dict-to_dict py checkpoint ((distinct_names, tt), (tt, tt)) checkpoint-Reads
