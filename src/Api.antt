-- ===== src/Api.antt =====
-- api/app.py: the start of the service, and what an ingest is answered with.
pub mod Held
pub mod Unread
use incremental_sync_data_se.Base.{
  ℕ, Bool, Error, ingest_in_progress, checkpoint_corrupt, commit_interrupted, source_query, Result,
  Option, none, some,
}
use incremental_sync_data_se.Machine.{Machine, Outcome, done, raised, crashed, M, ◌>>=◌, pure, lift}
use incremental_sync_data_se.Base.Sort.{codes}
use incremental_sync_data_se.Json.{Value, str, object, field, end}
use incremental_sync_data_se.Orchestrator.Document.{manifest_dict}
use incremental_sync_data_se.Orchestrator.{Service, Manifest, run, startup_resume}

pub data Response : Type 0 where
  manifest : Manifest → Response
  http_error : ℕ → Response
  -- an exception that the handler lets through, and no answer at all
  unhandled : Error → Response
  no_response : Response

unfoldable pub respond : Outcome Manifest → Response
respond (done m) = manifest m
respond (raised ingest_in_progress) = http_error 409
respond (raised checkpoint_corrupt) = http_error 500
respond (raised commit_interrupted) = http_error 500
respond (raised source_query) = http_error 502
respond (raised e) = unhandled e
respond crashed = no_response

unfoldable pub ingest : Service → Bool → Bool → Machine → Response × Machine
ingest svc held dry_run m = let (r, m') = run svc held dry_run m in (respond r, m')

-- `lifespan` up to its `yield`: what `init_orchestrator` returned, and the sweep; an exception of
-- either keeps the application from starting. Logging changes no state of the model.
unfoldable pub lifespan : Result Service → M Service
lifespan built = do svc ← lift built; resumed ← startup_resume svc; pure svc

unfoldable pub health : Value
health = object (field "status" (str (codes "ok")) end)

-- the body of the answer to an ingest that returned
unfoldable pub content : Response → Option (Result Value)
content (manifest m) = some (manifest_dict m)
content _ = none
