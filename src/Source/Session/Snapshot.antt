-- ===== src/Source/Session/Snapshot.antt =====
-- A database that serves one snapshot: what its reads return.
use incremental_sync_data_se.Base.{
  ℕ, ◌≡◌, refl, ◌∙◌, List, ◌∷◌, ◌++◌, Result, ok, err, true, false, All,
}
use incremental_sync_data_se.Base.Sort.{codes}
use incremental_sync_data_se.Time.{Text}
use incremental_sync_data_se.Domain.Checkpoint.{TableWatermark}
use incremental_sync_data_se.Domain.Tables.{TableSpec}
use incremental_sync_data_se.Source
use incremental_sync_data_se.Source.{Row, SourceRow, build_delta_query}
use incremental_sync_data_se.Source.Connection.{
  Call, connect, set_autocommit, set_isolation_level, repeatable_read, set_read_only, open_cursor,
  close_cursor, execute, fetch_rows, commit, Database, Session, ◌>>=◌, ◌>>◌, continue, pure, call,
  with_connection,
}
use incremental_sync_data_se.Source.Session.{
  IncrementalSourceRepository, translate, close_with, with_cursor, fetch_delta, transaction,
  or_roll_back, read_session,
}

-- No call fails, and a fetch after a table's delta query, with a watermark, returns the table's delta.
pub record Serves (db : Database) (table : TableSpec → List SourceRow) (specs : List TableSpec)
    : Type 0 where
  pub answers : (calls : List Call) (c : Call) → (rows : List Row) × (db.answer calls c ≡ ok rows)
  pub delta :
      All
        (λ spec.
          (calls : List Call) (w : TableWatermark) (n : ℕ) (rows : List Row)
          → Source.fetch_delta spec w (table spec) ≡ ok rows
          → db.answer (execute (build_delta_query spec) w ∷ calls) (fetch_rows n) ≡ ok rows)
        specs

-- An action that returns the same value whatever was called before.
abbrev pub Returns {ℓ} : {A : Type ℓ} → Session A → A → Type ℓ
Returns act a = (calls : List Call) → (act calls).0 ≡ ok a

module _ (db : Database)
    (answers : (calls : List Call) (c : Call)
      → (rows : List Row) × (db.answer calls c ≡ ok rows)) where
  module _ {ℓ} {A : Type ℓ} where
    Returns-then :
        (c : Call) (act : Session A) (a : A) → Returns act a → Returns (call db c >> act) a
    unfolding call
    Returns-then c act a h calls =
        let (_, answered) = answers calls c in rw (answered) (h (c ∷ calls))

    close_with-ok :
        (r : Result A) (calls : List Call) → (close_with db r (call db close_cursor calls)).0 ≡ r
    unfolding close_with call
    close_with-ok r calls = let (_, closed) = answers calls close_cursor in rw (closed) refl

    with_cursor-Returns :
        (name : Text) (body : Session A) (a : A)
        → Returns body a
        → Returns (with_cursor db name body) a
    unfolding with_cursor call
    with_cursor-Returns name body a h calls =
        let (_, opened) = answers calls (open_cursor name) in
        rw (opened) (close_with-ok (body (open_cursor name ∷ calls)).0 _ ∙ h _)

    translate-ok : (a : A) (r : Result A × List Call) → r.0 ≡ ok a → (translate r).0 ≡ ok a
    translate-ok a (ok a', calls) h = h
    translate-ok a (err e, calls) h = absurd (cc)

    Returns-commit :
        (a : A) (r : Result A × List Call)
        → r.0 ≡ ok a
        → (continue (λ a'. call db commit >> pure a') r).0 ≡ ok a
    unfolding call
    Returns-commit a (ok a', calls) h = let (_, answered) = answers calls commit in rw (answered) h
    Returns-commit a (err e, calls) h = h

    or_roll_back-ok : (a : A) (r : Result A × List Call) → r.0 ≡ ok a → (or_roll_back db r).0 ≡ ok a
    or_roll_back-ok a (ok a', calls) h = h
    or_roll_back-ok a (err e, calls) h = absurd (cc)

    pub read_session-Returns :
        (repo : IncrementalSourceRepository) (body : Session A) (a : A)
        → Returns body a
        → Returns (read_session db repo body) a
    unfolding read_session with_connection transaction call
    read_session-Returns repo body a h calls =
        let finish = body >>= λ a'. call db commit >> pure a' in
        let third = call db (set_read_only true) >> finish in
        let second = call db (set_isolation_level repeatable_read) >> third in
        let (_, made) = answers calls (connect repo.factory.dsn) in
        let tried =
          Returns-then (set_autocommit false) second a
            (Returns-then (set_isolation_level repeatable_read) third a (
              Returns-then (set_read_only true) finish a
                (λ calls'. Returns-commit a (body calls') (h calls'))))
            (connect repo.factory.dsn ∷ calls) in
        rw (made) (or_roll_back-ok a _ tried)

  pub fetch_delta-Returns :
      (n : ℕ) (spec : TableSpec) (w : TableWatermark) (rows : List Row)
      → ((calls : List Call)
          → db.answer (execute (build_delta_query spec) w ∷ calls) (fetch_rows n) ≡ ok rows)
      → Returns (fetch_delta db n spec w) rows
  unfolding fetch_delta call
  fetch_delta-Returns n spec w rows serves calls =
      let query = call db (execute (build_delta_query spec) w) in
      let fetch = call db (fetch_rows n) in
      let name = codes "delta_" ++ codes spec.name in
      translate-ok rows _ (
        with_cursor-Returns name (query >> fetch) rows
          (λ calls'.
            let (_, sent) = answers calls' (execute (build_delta_query spec) w) in
            rw (sent) (serves calls'))
          calls)
