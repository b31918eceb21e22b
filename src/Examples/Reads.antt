-- ===== src/Examples/Reads.antt =====
-- A database with three customers and no case, and one whose queries fail.
use incremental_sync_data_se.Base.{
  All, ◌≡◌, refl, ok, err, Result, List, [], ◌∷◌, String, if◌then◌else◌, ◌==◌, nat_eq, list_eq,
  string_eq, database_error, source_query, Bool, true, false, ==_refl, traverse,
}
use incremental_sync_data_se.Base.Int.{int_le}
use incremental_sync_data_se.Base.Dict
use incremental_sync_data_se.Base.Dict.{Dict}
use incremental_sync_data_se.Base.Sort.{codes}
use incremental_sync_data_se.Json.{join}
use incremental_sync_data_se.Domain.Checkpoint.{
  TableWatermark, Checkpoint, make, initial, watermark, with_updated,
}
use incremental_sync_data_se.Domain.Tables.{
  TableSpec, customers, cases, all_tables, spec_by_name, column_names,
}
use incremental_sync_data_se.Source
use incremental_sync_data_se.Source.{
  Row, SourceRow, build_delta_query, delta_rows, is_past, row_le, select_row,
}
use incremental_sync_data_se.Source.Sorting.{sort_with}
use incremental_sync_data_se.Source.Connection.{
  call, with_connection, Call, execute, fetch_rows, Database,
}
use incremental_sync_data_se.Source.Session.{
  IncrementalSourceRepository, fetch_delta, read_session, with_cursor, transaction, close_with,
  after_rollback, translated,
}
use incremental_sync_data_se.Source.Session.Ended.{Ended}
use incremental_sync_data_se.Source.Session.Failing.{PsycopgOnly}
use incremental_sync_data_se.Source.Session.Snapshot.{Serves}
use incremental_sync_data_se.Orchestrator.Stage.{for_tables, for_each}
use incremental_sync_data_se.Orchestrator.Fetch.{fetch_deltas, fetch_each}
use incremental_sync_data_se.Orchestrator.Fetch.Reads.{fetch_deltas-Ended}
use incremental_sync_data_se.Json.Access.{int_of}
use incremental_sync_data_se.Pipeline.Advance.{row_watermark, cell, advance_checkpoint}
use incremental_sync_data_se.Orchestrator.Fetch.Again.{IsRegistered, fetch_deltas_again}
use incremental_sync_data_se.Orchestrator.Locked.{Service, run_locked}
use incremental_sync_data_se.Api.{http_error, respond}
use incremental_sync_data_se.Api.Unread.{unread, run_locked-unread}
use incremental_sync_data_se.Examples.Deltas.{table, selected}
use incremental_sync_data_se.Examples.Runs.{svc, machine, nothing_pending}

abbrev repo : IncrementalSourceRepository
repo = record { factory = record { dsn = codes "host=db" }; fetch_size = 1000 }

abbrev tables_by_name : String → List SourceRow
tables_by_name name = if name == "customers" then table else []

abbrev tables : TableSpec → List SourceRow
tables spec = tables_by_name spec.name

abbrev or_no_rows : Result (List Row) → Result (List Row)
or_no_rows (ok rows) = ok rows
or_no_rows (err e) = ok []

abbrev rows_of : Bool → TableWatermark → Result (List Row)
rows_of true w = or_no_rows (Source.fetch_delta customers w table)
rows_of false w = or_no_rows (Source.fetch_delta cases w [])

-- what the last query asked for, if it was a delta query
abbrev served : List Call → Result (List Row)
served (execute q w ∷ calls) = rows_of (q == build_delta_query customers) w
served calls = ok []

abbrev answered : List Call → Call → Result (List Row)
answered calls (fetch_rows n) = served calls
answered calls c = ok []

abbrev db : Database
db = record { answer = answered }

or_no_rows-ok : (r : Result (List Row)) → (rows : List Row) × (or_no_rows r ≡ ok rows)
or_no_rows-ok (ok rows) = (rows, refl)
or_no_rows-ok (err e) = ([], refl)

rows_of-ok : (b : Bool) (w : TableWatermark) → (rows : List Row) × (rows_of b w ≡ ok rows)
rows_of-ok true w = or_no_rows-ok _
rows_of-ok false w = or_no_rows-ok _

served-ok : (calls : List Call) → (rows : List Row) × (served calls ≡ ok rows)
served-ok [] = ([], refl)
served-ok (execute q w ∷ calls) = rows_of-ok (q == build_delta_query customers) w
served-ok (c ∷ calls) = ([], refl)

answered-ok : (calls : List Call) (c : Call) → (rows : List Row) × (answered calls c ≡ ok rows)
answered-ok calls (fetch_rows n) = served-ok calls
answered-ok calls c = ([], refl)

or_no_rows-of : (r : Result (List Row)) (rows : List Row) → r ≡ ok rows → or_no_rows r ≡ ok rows
or_no_rows-of (ok rows') rows h = h
or_no_rows-of (err e) rows h = absurd (cc)

first_is_customers : build_delta_query customers == build_delta_query customers ≡ true
first_is_customers = ==_refl (build_delta_query customers)

second_is_cases : (build_delta_query cases == build_delta_query customers) ≡ false
unfolding build_delta_query nat_eq list_eq join
second_is_cases = refl

serves : Serves db tables all_tables
unfolding string_eq
serves = record {
  answers = answered-ok;
  delta = (
    λ calls w n rows h. rw (first_is_customers) (or_no_rows-of _ rows h),
    (λ calls w n rows h. rw (second_is_cases) (or_no_rows-of _ rows h), tt),
  );
}

abbrev deltas : Dict String (List Row)
deltas = ("customers", selected 1 5 ∷ selected 2 5 ∷ []) ∷ ("cases", []) ∷ []

wanted :
    for_tables
      (λ spec.
        Source.fetch_delta spec (watermark spec.name (initial ("customers" ∷ []))) (tables spec))
      all_tables
    ≡ ok deltas
unfolding for_tables for_each Source.fetch_delta select_row delta_rows is_past row_le sort_with
    int_le string_eq traverse Dict.lookup Dict.insert watermark initial
wanted = refl

fetch_deltas-Ended_example :
    Ended [] repo
      (fetch_deltas db repo (initial ("customers" ∷ [])) all_tables []).0
      (fetch_deltas db repo (initial ("customers" ∷ [])) all_tables []).1
fetch_deltas-Ended_example = fetch_deltas-Ended db repo (initial ("customers" ∷ [])) all_tables

-- the queries fail, as on a server that has no such table
abbrev refused : Call → Result (List Row)
refused (execute q w) = err database_error
refused c = ok []

refused-PsycopgOnly : PsycopgOnly (record { answer = λ calls. refused })
refused-PsycopgOnly calls (execute q w) e h = cc
refused-PsycopgOnly calls c e h = absurd (cc)

abbrev svc_without_tables : Service
svc_without_tables = record svc { database = record { answer = λ calls. refused } }

failed :
    (fetch_deltas svc_without_tables.database svc.repository
      (initial ("customers" ∷ "cases" ∷ []))
      all_tables
      []).0
    ≡ err source_query
unfolding fetch_deltas fetch_each fetch_delta read_session with_connection with_cursor transaction
    close_with after_rollback translated call
failed = refl

run_locked-unread_example :
    (respond (run_locked svc_without_tables false machine).0 ≡ http_error 502)
    × ((run_locked svc_without_tables false machine).1.fs ≡ machine.fs)
unfolding unread
run_locked-unread_example =
    run_locked-unread svc_without_tables false machine machine []
      (initial ("customers" ∷ "cases" ∷ [])) source_query refused-PsycopgOnly nothing_pending refl
      failed

abbrev moved_on : Checkpoint
moved_on =
    with_updated "customers" (record { updated_at = 5; last_pk = 2 }) (initial ("customers" ∷ []))

are_advanced :
    advance_checkpoint (spec_by_name all_tables) deltas (initial ("customers" ∷ [])) ≡ ok moved_on
unfolding advance_checkpoint row_watermark cell int_of make spec_by_name with_updated initial
    string_eq Dict.lookup Dict.insert
are_advanced = refl

are-IsRegistered : All (IsRegistered all_tables) all_tables
unfolding spec_by_name column_names string_eq Dict.lookup Dict.insert
are-IsRegistered = (
  record { found = refl; keyed = refl; timed = refl },
  (record { found = refl; keyed = refl; timed = refl }, tt),
)

fetch_deltas_again_example :
    ((fetch_deltas db repo (initial ("customers" ∷ [])) all_tables []).0 ≡ ok deltas)
    × (deltas' : Dict String (List Row)) × ((fetch_deltas db repo moved_on all_tables []).0
        ≡ ok deltas')
    × All (λ (entry : String × List Row). entry.1 ≡ []) deltas'
    × (advance_checkpoint (spec_by_name all_tables) deltas' moved_on ≡ ok moved_on)
fetch_deltas_again_example =
    fetch_deltas_again db repo tables_by_name all_tables (initial ("customers" ∷ [])) moved_on
      deltas serves are-IsRegistered wanted are_advanced
