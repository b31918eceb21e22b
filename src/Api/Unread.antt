-- ===== src/Api/Unread.antt =====
-- How an ingest answers when the source cannot be read.
use incremental_sync_data_se.Base.{
  ◌+◌, ◌≡◌, refl, ap, ◌∙◌, Bool, List, [], Error, Result, ok, err, database_error, Result-cases,
  inl, inr,
}
use incremental_sync_data_se.Time.{Text}
use incremental_sync_data_se.Machine.{Machine, done, raised}
use incremental_sync_data_se.Domain.Checkpoint.{Checkpoint}
use incremental_sync_data_se.Source.{Row}
use incremental_sync_data_se.Source.Connection.{connect}
use incremental_sync_data_se.Source.Session.Failing.{PsycopgOnly}
use incremental_sync_data_se.Pipeline.Commit.{resume_pending}
use incremental_sync_data_se.Orchestrator.Stage.{runs_dir}
use incremental_sync_data_se.Orchestrator.Fetch.{fetch_deltas}
use incremental_sync_data_se.Orchestrator.Fetch.Reads.{
  fetch_deltas-source_query, fetch_deltas-unconnected,
}
use incremental_sync_data_se.Orchestrator.Locked.{Service, predict, now_utc, run_locked}
use incremental_sync_data_se.Api.{Response, http_error, unhandled, respond}

-- the answer, by what connecting came to
unfoldable pub unread : Result (List Row) → Response
unread (ok _) = http_error 502
unread (err e) = unhandled e

module _ (svc : Service) (cp : Checkpoint) where
  open svc use {database, repository, specs}

  predict-unread :
      (e : Error)
      → (fetch_deltas database repository cp specs []).0 ≡ err e
      → predict svc cp ≡ err e
  unfolding predict
  predict-unread e failed = rw (failed) refl

  respond-unread :
      PsycopgOnly database
      → (e : Error) → (fetch_deltas database repository cp specs []).0 ≡ err e
      → respond (raised e) ≡ unread (database.answer [] (connect repository.factory.dsn))
  unfolding respond unread
  respond-unread only e failed =
      elim (Result-cases (database.answer [] (connect repository.factory.dsn))) [
        | inl (e', refused) ↦
            let same = only [] _ e' refused in
            let raised_it = fetch_deltas-unconnected database repository cp specs e' refused in
            let it : e ≡ database_error = cc in rw (refused, it, same) refl
        | inr (rows, made) ↦
            let same =
              fetch_deltas-source_query database repository cp only specs rows made e failed in
            rw (made, same) refl
      ]

-- If the reads of a run fail, where psycopg raises no exception but its own, the run answers 502 when
-- the connection was made, and lets psycopg's exception through when it was refused; dry or not, the
-- files stay as the sweep before it left them.
pub run_locked-unread :
    (svc : Service) (dry_run : Bool) (m m' : Machine) (names : List Text) (cp : Checkpoint)
    (e : Error)
    → PsycopgOnly svc.database
    → resume_pending svc.sys (runs_dir svc.settings) m ≡ (done names, m')
    → svc.store.load m'.fs ≡ ok cp
    → (fetch_deltas svc.database svc.repository cp svc.specs []).0 ≡ err e
    → (respond (run_locked svc dry_run m).0
        ≡ unread (svc.database.answer [] (connect svc.repository.factory.dsn)))
      × ((run_locked svc dry_run m).1.fs ≡ m'.fs)
unfolding run_locked now_utc
run_locked-unread svc dry_run m m' names cp e only swept loaded failed =
    let stopped : run_locked svc dry_run m ≡ (raised e, record m' { reads = m'.reads + 1 }) =
      rw (swept, loaded, predict-unread svc cp e failed) refl in
    (ap (λ r. respond r.0) stopped ∙ respond-unread svc cp only e failed, ap (λ r. r.1.fs) stopped)
