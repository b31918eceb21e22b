-- ===== src/Source/Session.antt =====
-- source/repository.py: `IncrementalSourceRepository` and the reader of one read transaction.
-- The caller collects the generator at once, so its rows are a list.
pub mod Calls
pub mod Ended
pub mod Failing
pub mod Snapshot
use incremental_sync_data_se.Base.{
  zero, suc, ℕ, ℤ, pos, negsuc, true, false, List, [], ◌∷◌, ◌++◌, Error, Result, ok, err,
  value_error, source_query, database_error,
}
use incremental_sync_data_se.Base.Sort.{codes}
use incremental_sync_data_se.Time.{Text}
use incremental_sync_data_se.Domain.Checkpoint.{TableWatermark}
use incremental_sync_data_se.Domain.Tables.{TableSpec}
use incremental_sync_data_se.Source.{Row, build_delta_query}
use incremental_sync_data_se.Source.Connection.{
  Call, set_autocommit, set_isolation_level, repeatable_read, set_read_only, open_cursor,
  close_cursor, execute, fetch_rows, commit, rollback, Database, Session, ◌>>=◌, ◌>>◌, pure,
  PgConnectionFactory, call, with_connection,
}

pub record IncrementalSourceRepository : Type 0 where
  pub factory : PgConnectionFactory
  pub fetch_size : ℕ

-- `IncrementalSourceRepository(conn_factory, fetch_size=fetch_size)`
unfoldable pub make_repository : PgConnectionFactory → ℤ → Result IncrementalSourceRepository
make_repository factory (negsuc _) = err value_error
make_repository factory (pos zero) = err value_error
make_repository factory (pos (suc n)) = ok (record { factory = factory; fetch_size = suc n })

-- `except psycopg.Error as e: raise SourceQueryError(...) from e`
unfoldable pub translated : Error → Error
translated database_error = source_query
translated e = e

abbrev pub translate {ℓ} : {A : Type ℓ} → Result A × List Call → Result A × List Call
translate (ok a, calls) = (ok a, calls)
translate (err e, calls) = (err (translated e), calls)

module _ (db : Database) where
  -- The end of a cursor's `with` block: an exception of its own replaces what the block came to.
  unfoldable pub close_with {ℓ} :
      {A : Type ℓ} → Result A → Result (List Row) × List Call → Result A × List Call
  close_with r (ok _, calls) = (r, calls)
  close_with r (err e, calls) = (err e, calls)

  unfoldable pub with_cursor {ℓ} : {A : Type ℓ} → Text → Session A → Session A
  with_cursor name body = do
    call db (open_cursor name)
    λ calls. let (r, calls') = body calls in close_with r (call db close_cursor calls')

  -- `_SessionReader.fetch_delta`
  unfoldable pub fetch_delta : ℕ → TableSpec → TableWatermark → Session (List Row)
  unfolding with_cursor
  fetch_delta fetch_size spec w calls = translate (
      with_cursor (codes "delta_" ++ codes spec.name)
        (do call db (execute (build_delta_query spec) w); call db (fetch_rows fetch_size)) calls)

  -- After `conn.rollback()` in a handler, what the handler raises: the session's error, unless the
  -- rollback raised something that is not psycopg's.
  unfoldable pub after_rollback {ℓ} :
      {A : Type ℓ} → Error → Result (List Row) × List Call → Result A × List Call
  after_rollback e (ok _, calls) = (err (translated e), calls)
  after_rollback e (err database_error, calls) = (err (translated e), calls)
  after_rollback e (err other, calls) = (err other, calls)

  abbrev pub or_roll_back {ℓ} : {A : Type ℓ} → Result A × List Call → Result A × List Call
  or_roll_back (ok a, calls) = (ok a, calls)
  or_roll_back (err e, calls) = after_rollback e (call db rollback calls)

  -- the `try` block
  unfoldable pub transaction {ℓ} : {A : Type ℓ} → Session A → Session A
  transaction body = do
    call db (set_autocommit false)
    call db (set_isolation_level repeatable_read)
    call db (set_read_only true)
    a ← body
    call db commit
    pure a

  -- `with repository.read_session() as reader: body`
  unfoldable pub read_session {ℓ} :
      {A : Type ℓ} → IncrementalSourceRepository → Session A → Session A
  unfolding transaction
  read_session repo body =
      with_connection db repo.factory (λ calls. or_roll_back (transaction body calls))
