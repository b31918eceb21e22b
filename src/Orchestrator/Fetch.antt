-- ===== src/Orchestrator/Fetch.antt =====
-- `_fetch_deltas`: every table's delta, in one read session.
pub mod Reads
pub mod Tables
pub mod Again
use incremental_sync_data_se.Base.{String, string_eq, List, [], ◌∷◌}
use incremental_sync_data_se.Base.Dict
use incremental_sync_data_se.Base.Dict.{Dict}
use incremental_sync_data_se.Domain.Checkpoint.{Checkpoint, watermark}
use incremental_sync_data_se.Domain.Tables.{TableSpec}
use incremental_sync_data_se.Source.{Row}
use incremental_sync_data_se.Source.Connection.{Database, Session, ◌>>=◌, pure}
use incremental_sync_data_se.Source.Session.{IncrementalSourceRepository, fetch_delta, read_session}

module _ (db : Database) (repo : IncrementalSourceRepository) (cp_before : Checkpoint) where
  -- the `for` loop
  unfoldable pub fetch_each :
      List TableSpec → Dict String (List Row) → Session (Dict String (List Row))
  fetch_each [] deltas = pure deltas
  fetch_each (spec ∷ specs) deltas = do
    rows ← fetch_delta db repo.fetch_size spec (watermark spec.name cp_before)
    fetch_each specs (Dict.insert spec.name rows deltas)

  unfoldable pub fetch_deltas : List TableSpec → Session (Dict String (List Row))
  fetch_deltas specs = read_session db repo (fetch_each specs [])
