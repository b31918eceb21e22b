-- ===== src/Source/Connection.antt =====
-- source/pg.py, and the calls to psycopg that a read makes.
-- psycopg and Postgres are outside the repository: a `Database` answers each call, given the calls
-- before it, with rows or with an exception. Only a fetch's rows are used.
use incremental_sync_data_se.Base.{Bool, List, [], ◌∷◌, Result, ok, err, value_error, ℕ}
use incremental_sync_data_se.Time.{Text}
use incremental_sync_data_se.Domain.Checkpoint.{TableWatermark}
use incremental_sync_data_se.Source.{Row}

pub data IsolationLevel : Type 0 where
  read_uncommitted read_committed repeatable_read serializable : IsolationLevel

pub data Call : Type 0 where
  -- `psycopg.connect(dsn, autocommit=False)`
  connect : Text → Call
  set_autocommit : Bool → Call
  set_isolation_level : IsolationLevel → Call
  set_read_only : Bool → Call
  -- `conn.cursor(name=name)`, and the end of its `with` block
  open_cursor : Text → Call
  close_cursor : Call
  -- a query and its parameters
  execute : Text → TableWatermark → Call
  -- all rows of the query, in batches of a size
  fetch_rows : ℕ → Call
  commit : Call
  rollback : Call
  close : Call

pub record Database : Type 0 where
  pub answer : List Call → Call → Result (List Row)

-- What a read does: its result, and the calls made so far, the latest first.
abbrev pub Session {ℓ} : Type ℓ → Type ℓ
Session A = List Call → Result A × List Call

abbrev pub continue {ℓ κ} :
    {A : Type ℓ} {B : Type κ} → (A → Session B) → Result A × List Call → Result B × List Call
continue next (ok a, calls) = next a calls
continue next (err e, calls) = (err e, calls)

infixl 5 ◌>>=◌ ◌>>◌
abbrev pub ◌>>=◌ {ℓ κ} : {A : Type ℓ} {B : Type κ} → Session A → (A → Session B) → Session B
◌>>=◌ act next calls = continue next (act calls)

abbrev pub ◌>>◌ {ℓ κ} : {A : Type ℓ} {B : Type κ} → Session A → Session B → Session B
act >> after = act >>= λ _. after

abbrev pub pure {ℓ} : {A : Type ℓ} → A → Session A
pure a calls = (ok a, calls)

pub record PgConnectionFactory : Type 0 where
  pub dsn : Text

-- `PgConnectionFactory(dsn)`
unfoldable pub make_factory : Text → Result PgConnectionFactory
make_factory [] = err value_error
make_factory (c ∷ cs) = ok (record { dsn = c ∷ cs })

module _ (db : Database) where
  unfoldable pub call : Call → Session (List Row)
  call c calls = (db.answer calls c, c ∷ calls)

  -- the `finally` clause: whatever `close` raises is dropped
  abbrev pub closing {ℓ} : {A : Type ℓ} → Result A × List Call → Result A × List Call
  closing (r, calls) = let (_, calls') = call close calls in (r, calls')

  -- `with factory.connect() as conn: body`
  unfoldable pub with_connection {ℓ} : {A : Type ℓ} → PgConnectionFactory → Session A → Session A
  with_connection factory body = do call (connect factory.dsn); λ calls. closing (body calls)
