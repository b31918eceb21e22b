-- ===== src/Orchestrator/Fetch/Again.antt =====
-- A second run over the same data.
use incremental_sync_data_se.Base.{
  String, ◌≡◌, refl, true, some, List, [], ◌∷◌, Result, ok, All, All-both, All-weaken, contains,
  string_eq,
}
use incremental_sync_data_se.Base.Dict
use incremental_sync_data_se.Base.Dict.{Dict}
use incremental_sync_data_se.Domain.Checkpoint.{Checkpoint, watermark}
use incremental_sync_data_se.Domain.Tables.{TableSpec, spec_by_name, column_names}
use incremental_sync_data_se.Source
use incremental_sync_data_se.Source.{Row, SourceRow}
use incremental_sync_data_se.Source.Connection.{Database}
use incremental_sync_data_se.Source.Session.{IncrementalSourceRepository}
use incremental_sync_data_se.Source.Session.Snapshot.{Serves}
use incremental_sync_data_se.Pipeline.Advance.{advance_checkpoint}
use incremental_sync_data_se.Pipeline.Advance.Forward.{IsDelta}
use incremental_sync_data_se.Pipeline.Advance.Caught.{IsCaught, advance_checkpoint-All}
use incremental_sync_data_se.Orchestrator.Stage.{for_tables}
use incremental_sync_data_se.Orchestrator.Fetch.{fetch_deltas}
use incremental_sync_data_se.Orchestrator.Fetch.Reads.{fetch_deltas-snapshot}
use incremental_sync_data_se.Orchestrator.Fetch.Tables.{
  All-at, All-for_tables, for_tables-listed, for_tables_const,
}

-- No other table has the table's name, and its key and its timestamp are among its columns.
pub record IsRegistered (specs : List TableSpec) (spec : TableSpec) : Type 0 where
  pub found : Dict.lookup spec.name (spec_by_name specs) ≡ some spec
  pub keyed : contains (column_names spec) spec.primary_key ≡ true
  pub timed : contains (column_names spec) "updated_at" ≡ true

abbrev IsEmpty : String × List Row → Type 0
IsEmpty entry = entry.1 ≡ []

-- Empty deltas leave the checkpoint as it is.
advance_checkpoint_empty :
    (specs : Dict String TableSpec) (deltas : Dict String (List Row)) (cp : Checkpoint)
    → All IsEmpty deltas
    → advance_checkpoint specs deltas cp ≡ ok cp
unfolding advance_checkpoint
advance_checkpoint_empty specs [] cp h = refl
advance_checkpoint_empty specs ((name, rows) ∷ deltas) cp h =
    rw (h.0) (advance_checkpoint_empty specs deltas cp h.1)

module _ (table : String → List SourceRow) (specs : List TableSpec) (cp : Checkpoint) where
  -- the delta of a table in the snapshot
  abbrev delta_of : TableSpec → Result (List Row)
  delta_of spec = Source.fetch_delta spec (watermark spec.name cp) (table spec.name)

  All-IsDelta :
      (deltas : Dict String (List Row))
      → All (IsRegistered specs) specs
      → for_tables delta_of specs ≡ ok deltas
      → All (IsDelta (spec_by_name specs) table cp) deltas
  All-IsDelta deltas registered = All-for_tables delta_of _ specs deltas (
      All-weaken (IsRegistered specs) _ specs
        (λ spec r rows fetched. record {
          spec = spec;
          registered = r.found;
          keyed = r.keyed;
          timed = r.timed;
          fetched = fetched;
        })
        registered)

  -- every table is caught up with
  All-caught :
      (deltas : Dict String (List Row)) (cp' : Checkpoint)
      → All (IsRegistered specs) specs
      → for_tables delta_of specs ≡ ok deltas
      → advance_checkpoint (spec_by_name specs) deltas cp ≡ ok cp'
      → All
          (λ (spec : TableSpec).
            Source.fetch_delta spec (watermark spec.name cp') (table spec.name) ≡ ok [])
          specs
  All-caught deltas cp' registered fetched advanced =
      let caught =
        advance_checkpoint-All (spec_by_name specs) table cp cp' deltas
          (All-IsDelta deltas registered fetched) advanced in
      All-both (IsRegistered specs) _ _ specs
        (λ spec r listed.
          All-at (λ name. IsCaught (spec_by_name specs) table name cp') deltas spec.name caught
            listed spec r.found)
        registered (for_tables-listed delta_of specs deltas fetched)

-- A database serves one snapshot in which every table's delta can be read; no two tables share a name,
-- and each has its key and its timestamp among its columns. If a run's checkpoint is advanced past
-- the deltas that it read, then the next run that reads this snapshot reads no row of any table, and
-- its checkpoint stays as it is.
pub fetch_deltas_again :
    (db : Database) (repo : IncrementalSourceRepository) (table : String → List SourceRow)
    (specs : List TableSpec) (cp cp' : Checkpoint) (deltas : Dict String (List Row))
    → Serves db (λ spec. table spec.name) specs
    → All (IsRegistered specs) specs
    → for_tables (λ spec. Source.fetch_delta spec (watermark spec.name cp) (table spec.name)) specs
      ≡ ok deltas
    → advance_checkpoint (spec_by_name specs) deltas cp ≡ ok cp'
    → ((fetch_deltas db repo cp specs []).0 ≡ ok deltas)
      × (deltas' : Dict String (List Row)) × ((fetch_deltas db repo cp' specs []).0 ≡ ok deltas')
      × All (λ (entry : String × List Row). entry.1 ≡ []) deltas'
      × (advance_checkpoint (spec_by_name specs) deltas' cp' ≡ ok cp')
fetch_deltas_again db repo table specs cp cp' deltas served registered fetched advanced =
    let caught = All-caught table specs cp deltas cp' registered fetched advanced in
    let (deltas', refetched) = for_tables_const (delta_of table specs cp') [] specs caught in
    let none_left : All IsEmpty deltas' =
      All-for_tables (delta_of table specs cp') IsEmpty specs deltas'
        (All-weaken _ _ specs (λ spec nothing rows found. cc (nothing, found)) caught) refetched in
    (
      fetch_deltas-snapshot db repo cp (λ spec. table spec.name) specs served deltas fetched,
      deltas',
      fetch_deltas-snapshot db repo cp' (λ spec. table spec.name) specs served deltas' refetched,
      none_left,
      advance_checkpoint_empty (spec_by_name specs) deltas' cp' none_left,
    )
