-- ===== src/Lib.antt =====
-- The incremental sync service: an ingest reads the rows of two Postgres tables that changed since the
-- last checkpoint, stages what it derives from them in a directory of the run, and commits the run by
-- renaming each staged file to its place, the checkpoint last. A later process finishes a commit that
-- was cut off, and discards a run that was not ready.
--
-- How the parts interact: api/app.py calls `IngestRunOrchestrator.run`, which takes the lock, sweeps
-- over pending runs, reads the checkpoint and the deltas, names the run by a hash, and either answers
-- (dry run) or lets the writers stage their files, writes the commit plan and the READY marker, and
-- calls the committer.
--
-- Files, and the code below src/caseware_sync/ that they are about:
--   Machine, Machine/*       a tree of files and a process that may lose power between two changes;
--                            an action takes the machine and returns, raises or is cut off
--   FileSystem, FileSystem/* utils/fs.py: ensure_dir, write_bytes_atomic, atomic_rename, staged_writer
--   Time, Json               utils/jsonio.py: iso_utc_z, canonical_json_bytes, canonical_json_line,
--                            pretty_json_bytes, parse_iso_utc (Time/Parse)
--   Domain/Checkpoint, ../*  domain/checkpoint.py; Loaded has from_dict
--   Domain/Tables            domain/tables.py
--   Source, Source/*         source/repository.py: build_delta_query and what its SQL asks for;
--                            Session has read_session and _SessionReader, Connection has source/pg.py
--   Pipeline/RunId           pipeline/run_id.py, pipeline/fingerprint.py
--   Pipeline/Advance         pipeline/checkpoint_advance.py
--   Pipeline/Plan, Staging   pipeline/staging.py: CommitStep, CommitPlan, RunStagingDir
--   Pipeline/Commit          pipeline/commit.py: Committer (_execute_step is execute_step, and so on)
--   Pipeline/Lock            pipeline/lock.py as steps of any number of processes, on POSIX and, in
--                            Pipeline/Lock/Windows, on Windows
--   Outputs/Lake             outputs/lake_writer.py
--   Outputs/Share            outputs/share_writer.py
--   Outputs/Events           outputs/event_writer.py, domain/events.py
--   Orchestrator/Fetch       pipeline/orchestrator.py: _fetch_deltas
--   Orchestrator/Stage       pipeline/orchestrator.py: _stage_outputs, _build_events;
--                            core/config.py: the fields and paths
--   Orchestrator/Locked      pipeline/orchestrator.py: run, _run_locked, _build_manifest, and
--                            domain/manifest.py; `predict`, `stage_run`, `publish`, `planned_run` and
--                            `real_run` are the parts of _run_locked
--   Orchestrator/Document    domain/manifest.py: to_canonical_dict
--   Wiring                   core/config.py: the defaults and checks; api/deps.py
--   Api                      api/app.py: lifespan, health and ingest
--   Platform                 what is outside the repository: random names, json.loads, the order in
--                            which rmtree removes, SHA-256, stdout and the clock, as parameters
--   Base                     shared types: texts as lists of code points, dicts as association lists,
--                            exceptions by class, sorting
--   Examples                 the theorems at data
--
-- Bounds and fuel: every loop of the code is by recursion on a list. Only the printing of a number has
-- fuel: `decimal` gives n + 1 rounds, and each divides by ten. `Machine.power` counts the changes
-- that a process lives to make; the theorems hold for every count, but for those that say that the
-- process is not cut off.
--
-- Not modelled: state/checkpoint_store.py, which the code imports and the repository lacks (the field
-- `Store` of a service stands for it); Postgres, psycopg, FastAPI and pydantic, which are parameters
-- where the code waits for their answers; fsync, and writes that survive a power loss in part;
-- symbolic links; relative paths, which stand for paths from the root, also where they are printed;
-- `FixedClock` and `ShareRecord`, which the service does not use;
-- `Checkpoint.__hash__`; floats in JSON; int() of texts with blanks,
-- underscores or a plus sign; `strftime` of years before 1000 without leading zeros; messages of
-- exceptions and log lines.
pub mod Base
pub mod Machine
pub mod FileSystem
pub mod Time
pub mod Json
pub mod Domain
pub mod Source
pub mod Platform
pub mod Pipeline
pub mod Outputs
pub mod Orchestrator
pub mod Wiring
pub mod Api
mod Examples
