-- ===== src/Orchestrator/Fetch/Reads.antt =====
-- How the reads of a run end, and what they return from one snapshot.
use incremental_sync_data_se.Base.{
  ◌≡◌, String, string_eq, List, [], ◌∷◌, Error, Result, ok, err, bind-ok, source_query,
}
use incremental_sync_data_se.Base.Dict
use incremental_sync_data_se.Base.Dict.{Dict}
use incremental_sync_data_se.Domain.Checkpoint.{Checkpoint, watermark}
use incremental_sync_data_se.Domain.Tables.{TableSpec}
use incremental_sync_data_se.Source
use incremental_sync_data_se.Source.{Row, SourceRow}
use incremental_sync_data_se.Source.Connection.{Call, connect, Database, Session, continue}
use incremental_sync_data_se.Source.Session.{IncrementalSourceRepository, fetch_delta}
use incremental_sync_data_se.Source.Session.Calls.{
  Within, Within-bind, Within-pure, Within-fetch_delta,
}
use incremental_sync_data_se.Source.Session.Failing.{
  PsycopgOnly, Reading, Reading-bind, Reading-pure, Reading-fetch_delta, read_session-source_query,
  read_session-unconnected,
}
use incremental_sync_data_se.Source.Session.Snapshot.{
  Serves, Returns, fetch_delta-Returns, read_session-Returns,
}
use incremental_sync_data_se.Source.Session.Ended.{Ended, read_session-Ended}
use incremental_sync_data_se.Orchestrator.Stage.{for_tables, for_each}
use incremental_sync_data_se.Orchestrator.Fetch.{fetch_each, fetch_deltas}

continue-Returns {ℓ κ} :
    {A : Type ℓ} {B : Type κ} (r : Result A × List Call) (next : A → Session B) (a : A) (b : B)
    → r.0 ≡ ok a
    → Returns (next a) b
    → (continue next r).0 ≡ ok b
continue-Returns (ok a', calls) next a b first h = let same : a' ≡ a = cc in rw (same) (h calls)
continue-Returns (err e, calls) next a b first h = absurd (cc)

module _ (db : Database) (repo : IncrementalSourceRepository) (cp_before : Checkpoint) where
  pub Within-fetch_each :
      (specs : List TableSpec) (deltas : Dict String (List Row))
      → Within (fetch_each db repo cp_before specs deltas)
  unfolding fetch_each
  Within-fetch_each [] deltas = Within-pure deltas
  Within-fetch_each (spec ∷ specs) deltas =
      Within-bind (fetch_delta db repo.fetch_size spec (watermark spec.name cp_before)) _
        (Within-fetch_delta db repo.fetch_size spec (watermark spec.name cp_before))
        (λ rows. Within-fetch_each specs (Dict.insert spec.name rows deltas))

  -- The reads of a run make one connection. If it is made, the transaction is committed when all
  -- deltas were returned and the commit returns, it is rolled back when anything failed, also the
  -- commit, and closing the connection is the last call.
  pub fetch_deltas-Ended :
      (specs : List TableSpec)
      → Ended [] repo
          (fetch_deltas db repo cp_before specs []).0
          (fetch_deltas db repo cp_before specs []).1
  unfolding fetch_deltas
  fetch_deltas-Ended specs =
      read_session-Ended db repo (fetch_each db repo cp_before specs [])
        (Within-fetch_each specs []) []

  Reading-fetch_each :
      PsycopgOnly db
      → (specs : List TableSpec) (deltas : Dict String (List Row))
      → Reading (fetch_each db repo cp_before specs deltas)
  unfolding fetch_each
  Reading-fetch_each only [] deltas = Reading-pure deltas
  Reading-fetch_each only (spec ∷ specs) deltas =
      Reading-bind (fetch_delta db repo.fetch_size spec (watermark spec.name cp_before)) _
        (Reading-fetch_delta db only repo.fetch_size spec (watermark spec.name cp_before))
        (λ rows. Reading-fetch_each only specs (Dict.insert spec.name rows deltas))

  pub fetch_deltas-source_query :
      PsycopgOnly db
      → (specs : List TableSpec) (rows : List Row)
      → db.answer [] (connect repo.factory.dsn) ≡ ok rows
      → (e : Error) → (fetch_deltas db repo cp_before specs []).0 ≡ err e
      → e ≡ source_query
  unfolding fetch_deltas
  fetch_deltas-source_query only specs =
      read_session-source_query db only repo (fetch_each db repo cp_before specs [])
        (Reading-fetch_each only specs []) []

  pub fetch_deltas-unconnected :
      (specs : List TableSpec) (e : Error)
      → db.answer [] (connect repo.factory.dsn) ≡ err e
      → (fetch_deltas db repo cp_before specs []).0 ≡ err e
  unfolding fetch_deltas
  fetch_deltas-unconnected specs =
      read_session-unconnected db repo (fetch_each db repo cp_before specs []) []

  fetch_each-snapshot :
      (table : TableSpec → List SourceRow) (specs : List TableSpec)
      → Serves db table specs
      → (deltas deltas' : Dict String (List Row))
      → for_each
          (λ spec. Source.fetch_delta spec (watermark spec.name cp_before) (table spec))
          specs
          deltas
        ≡ ok deltas'
      → Returns (fetch_each db repo cp_before specs deltas) deltas'
  unfolding fetch_each for_each
  fetch_each-snapshot table [] served deltas deltas' wanted calls = wanted
  fetch_each-snapshot table (spec ∷ specs) served deltas deltas' wanted calls =
      let w = watermark spec.name cp_before in
      let (rows, first, next) = bind-ok (Source.fetch_delta spec w (table spec)) _ wanted in
      let fetched =
        fetch_delta-Returns db served.answers repo.fetch_size spec w rows
          (λ before. served.delta.0 before w repo.fetch_size rows first) calls in
      continue-Returns (fetch_delta db repo.fetch_size spec w calls) _ rows deltas' fetched (
        fetch_each-snapshot table specs
          (record { answers = served.answers; delta = served.delta.1 })
          (Dict.insert spec.name rows deltas) deltas' next)

  -- From a database that serves one snapshot in which every table's delta can be read, a run reads, for
  -- each table, the delta of that snapshot past the table's watermark.
  pub fetch_deltas-snapshot :
      (table : TableSpec → List SourceRow) (specs : List TableSpec)
      → Serves db table specs
      → (deltas : Dict String (List Row))
      → for_tables
          (λ spec. Source.fetch_delta spec (watermark spec.name cp_before) (table spec))
          specs
        ≡ ok deltas
      → (fetch_deltas db repo cp_before specs []).0 ≡ ok deltas
  unfolding fetch_deltas for_tables
  fetch_deltas-snapshot table specs served deltas wanted =
      read_session-Returns db served.answers repo (fetch_each db repo cp_before specs []) deltas
        (fetch_each-snapshot table specs served [] deltas wanted) []
