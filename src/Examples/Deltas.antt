-- ===== src/Examples/Deltas.antt =====
-- A table of three customers, two of them with one timestamp.
use incremental_sync_data_se.Base.{
  ℕ, String, pos, ◌≡◌, refl, ok, some, List, [], ◌∷◌, ◌++◌, Bool, true, not, keep, contains,
  string_eq, last?, traverse,
}
use incremental_sync_data_se.Base.Int.{int_le}
use incremental_sync_data_se.Base.Dict
use incremental_sync_data_se.Base.Dict.{Dict}
use incremental_sync_data_se.Base.Sort.{codes}
use incremental_sync_data_se.Time.{aware}
use incremental_sync_data_se.Json.{int, str, datetime}
use incremental_sync_data_se.Domain.Checkpoint.{Checkpoint, watermark, with_updated, empty, make}
use incremental_sync_data_se.Domain.Tables.{TableSpec, customers, column_names}
use incremental_sync_data_se.Source.{
  SourceRow, Row, is_past, row_le, delta_rows, select_row, fetch_delta,
}
use incremental_sync_data_se.Source.Sorting.{sort_with}
use incremental_sync_data_se.Source.Windows.{mark, delta_rows_exactly_once}
use incremental_sync_data_se.Json.Access.{int_of}
use incremental_sync_data_se.Pipeline.Advance.{row_watermark, cell, advance_checkpoint}
use incremental_sync_data_se.Pipeline.Advance.Forward.{
  IsDelta, watermark_le, advance_checkpoint-forward,
}
use incremental_sync_data_se.Pipeline.Advance.Exact.{fetch_delta-advanced}

abbrev source_row : ℕ → ℕ → SourceRow
source_row n t = record {
  pk = pos n;
  updated_at = t;
  cells =
      ("name", str (codes "Ada"))
      ∷ ("email", str (codes "ada@example.org"))
      ∷ ("country", str (codes "CA"))
      ∷ [];
}

abbrev pub selected : ℕ → ℕ → Row
selected n t =
    ("customer_id", int (pos n))
    ∷ ("name", str (codes "Ada"))
    ∷ ("email", str (codes "ada@example.org"))
    ∷ ("country", str (codes "CA"))
    ∷ ("updated_at", datetime (aware t))
    ∷ []

abbrev pub table : List SourceRow
table = source_row 2 5 ∷ source_row 1 5 ∷ []

abbrev grown : List SourceRow
grown = source_row 3 5 ∷ source_row 2 5 ∷ source_row 1 5 ∷ []

last_row : last? (delta_rows empty table) ≡ some (source_row 2 5)
unfolding delta_rows is_past row_le sort_with int_le
last_row = refl

same_past :
    let later : SourceRow → Bool = λ y. not (is_past (mark (source_row 2 5) 2) y) in
    keep later grown ≡ keep later table
unfolding is_past int_le
same_past = refl

delta_rows_exactly_once_example :
    delta_rows empty grown ≡ delta_rows empty table ++ delta_rows (mark (source_row 2 5) 2) grown
delta_rows_exactly_once_example =
    delta_rows_exactly_once empty table (source_row 2 5) 2 last_row refl grown same_past

fetched : fetch_delta customers empty table ≡ ok (selected 1 5 ∷ selected 2 5 ∷ [])
unfolding fetch_delta select_row delta_rows is_past row_le sort_with int_le string_eq traverse
    Dict.lookup
fetched = refl

advanced : row_watermark customers (selected 2 5) ≡ ok (record { updated_at = 5; last_pk = 2 })
unfolding row_watermark cell int_of make string_eq Dict.lookup
advanced = refl

keyed : contains (column_names customers) customers.primary_key ≡ true
unfolding column_names string_eq
keyed = refl

timed : contains (column_names customers) "updated_at" ≡ true
unfolding column_names string_eq
timed = refl

fetch_delta-advanced_example :
    fetch_delta customers (record { updated_at = 5; last_pk = 2 }) table ≡ ok []
fetch_delta-advanced_example =
    fetch_delta-advanced customers keyed timed empty (record { updated_at = 5; last_pk = 2 }) table
      (selected 1 5 ∷ selected 2 5 ∷ []) (selected 2 5) fetched refl advanced

abbrev no_history : Checkpoint
no_history = record { per_table = [] }

abbrev registry : Dict String TableSpec
registry = ("customers", customers) ∷ []

is_delta :
    IsDelta registry (λ name. table) no_history ("customers", selected 1 5 ∷ selected 2 5 ∷ [])
unfolding watermark Dict.lookup string_eq
is_delta = record {
  spec = customers;
  registered = refl;
  keyed = keyed;
  timed = timed;
  fetched = fetched;
}

abbrev moved_on : Checkpoint
moved_on = record { per_table = ("customers", record { updated_at = 5; last_pk = 2 }) ∷ [] }

moves_on :
    advance_checkpoint registry (("customers", selected 1 5 ∷ selected 2 5 ∷ []) ∷ []) no_history
    ≡ ok moved_on
unfolding advance_checkpoint row_watermark cell int_of make string_eq Dict.lookup Dict.insert
    with_updated
moves_on = refl

advance_checkpoint-forward_example :
    watermark_le (watermark "customers" no_history) (watermark "customers" moved_on) ≡ true
advance_checkpoint-forward_example =
    advance_checkpoint-forward registry (λ name. table) no_history moved_on
      (("customers", selected 1 5 ∷ selected 2 5 ∷ []) ∷ []) (is_delta, tt) moves_on "customers"
