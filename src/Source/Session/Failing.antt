-- ===== src/Source/Session/Failing.antt =====
-- Which exception a read session raises when every exception of psycopg's is a `psycopg.Error`.
use incremental_sync_data_se.Base.{
  ℕ, ◌≡◌, refl, sym, ◌∙◌, ◌⊎◌, inl, inr, List, ◌∷◌, ◌++◌, Error, Result, ok, err, database_error,
  source_query,
}
use incremental_sync_data_se.Base.Sort.{codes}
use incremental_sync_data_se.Time.{Text}
use incremental_sync_data_se.Domain.Checkpoint.{TableWatermark}
use incremental_sync_data_se.Domain.Tables.{TableSpec}
use incremental_sync_data_se.Source.{Row, build_delta_query}
use incremental_sync_data_se.Source.Connection.{
  Call, connect, open_cursor, close_cursor, execute, fetch_rows, commit, rollback, Database,
  Session, ◌>>=◌, ◌>>◌, continue, pure, call, with_connection,
}
use incremental_sync_data_se.Source.Session.{
  IncrementalSourceRepository, translated, translate, close_with, with_cursor, fetch_delta,
  after_rollback, or_roll_back, transaction, read_session,
}

abbrev pub PsycopgOnly : Database → Type 0
PsycopgOnly db =
    (calls : List Call) (c : Call) (e : Error) → db.answer calls c ≡ err e → e ≡ database_error

-- `translated` takes these to `SourceQueryError`.
abbrev IsRead : Error → Type 0
IsRead e = (e ≡ source_query) ⊎ (e ≡ database_error)

abbrev pub Reading {ℓ} : {A : Type ℓ} → Session A → Type ℓ
Reading {A = A} act = (calls : List Call) (e : Error) → (act calls).0 ≡ err e → IsRead e

translated-IsRead : (e : Error) → IsRead e → translated e ≡ source_query
unfolding translated
translated-IsRead e (inl p) = rw (p) refl
translated-IsRead e (inr p) = rw (p) refl

module _ {ℓ κ} {A : Type ℓ} {B : Type κ} where
  Reading-continue :
      (next : A → Session B) (r : Result A × List Call)
      → ((e : Error) → r.0 ≡ err e → IsRead e)
      → ((a : A) → Reading (next a))
      → (e : Error) → (continue next r).0 ≡ err e
      → IsRead e
  Reading-continue next (ok a, calls) first h e q = h a calls e q
  Reading-continue next (err e', calls) first h e q = first e (cc)

  pub Reading-bind :
      (act : Session A) (next : A → Session B)
      → Reading act
      → ((a : A) → Reading (next a))
      → Reading (act >>= next)
  Reading-bind act next first h calls = Reading-continue next (act calls) (first calls) h

pub Reading-pure {ℓ} : {A : Type ℓ} (a : A) → Reading (pure a)
Reading-pure a calls e q = cc

translate-source_query {ℓ} :
    {A : Type ℓ} (r : Result A × List Call)
    → ((e : Error) → r.0 ≡ err e → IsRead e)
    → (e : Error) → (translate r).0 ≡ err e
    → IsRead e
translate-source_query (ok a, calls) h e q = cc
translate-source_query (err e', calls) h e q = let p = translated-IsRead e' (h e' refl) in inl (cc)

module _ (db : Database) (only : PsycopgOnly db) where
  Reading-call : (c : Call) → Reading (call db c)
  unfolding call
  Reading-call c calls e q = inr (only calls c e q)

  Reading-close_with {ℓ} :
      {A : Type ℓ} (r : Result A) (closed : Result (List Row) × List Call)
      → ((e : Error) → r ≡ err e → IsRead e)
      → ((e : Error) → closed.0 ≡ err e → IsRead e)
      → (e : Error) → (close_with db r closed).0 ≡ err e
      → IsRead e
  unfolding close_with
  Reading-close_with r (ok x, calls) h closed e q = h e q
  Reading-close_with r (err e', calls) h closed e q = closed e (cc)

  Reading-with_cursor {ℓ} :
      {A : Type ℓ} (name : Text) (body : Session A)
      → Reading body
      → Reading (with_cursor db name body)
  unfolding with_cursor
  Reading-with_cursor name body h =
      Reading-bind (call db (open_cursor name)) _ (Reading-call (open_cursor name)) (λ _ calls.
        Reading-close_with (body calls).0 _ (h calls) (Reading-call close_cursor (body calls).1))

  pub Reading-fetch_delta :
      (fetch_size : ℕ) (spec : TableSpec) (w : TableWatermark)
      → Reading (fetch_delta db fetch_size spec w)
  unfolding fetch_delta
  Reading-fetch_delta fetch_size spec w calls =
      let query = call db (execute (build_delta_query spec) w) in
      let rows = call db (fetch_rows fetch_size) in
      translate-source_query _ (
        Reading-with_cursor (codes "delta_" ++ codes spec.name) (query >> rows)
          (Reading-bind query (λ _. rows) (Reading-call _) (λ _. Reading-call _)) calls)

  module _ {ℓ} {A : Type ℓ} where
    Reading-then : (c : Call) (act : Session A) → Reading act → Reading (call db c >> act)
    Reading-then c act h = Reading-bind (call db c) (λ _. act) (Reading-call c) (λ _. h)

    Reading-transaction : (body : Session A) → Reading body → Reading (transaction db body)
    unfolding transaction
    Reading-transaction body h = Reading-then _ _ (
        Reading-then _ _ (
          Reading-then _ _ (
            Reading-bind body _ h (λ a.
              Reading-bind (call db commit) (λ _. pure a) (Reading-call commit)
                (λ _. Reading-pure a)))))

    after_rollback-source_query :
        (e : Error) (r : Result (List Row) × List Call)
        → IsRead e
        → ((e' : Error) → r.0 ≡ err e' → e' ≡ database_error)
        → (e'' : Error) → (after_rollback db {A = A} e r).0 ≡ err e''
        → e'' ≡ source_query
    unfolding after_rollback
    after_rollback-source_query e (ok x, calls) read h e'' q =
        let p = translated-IsRead e read in cc
    after_rollback-source_query e (err e', calls) read h e'' q =
        let p = translated-IsRead e read in
        let same : (after_rollback db {A = A} e (err e', calls)).0 ≡ err (translated e) =
          rw (h e' refl) refl in
        cc

    or_roll_back-source_query :
        (r : Result A × List Call)
        → ((e : Error) → r.0 ≡ err e → IsRead e)
        → (e : Error) → (or_roll_back db r).0 ≡ err e
        → e ≡ source_query
    unfolding call
    or_roll_back-source_query (ok a, calls) h e q = cc
    or_roll_back-source_query (err e', calls) h e q =
        after_rollback-source_query e' _ (h e' refl) (only calls rollback) e q

    -- Once the connection is made, whatever a session raises is a `SourceQueryError`.
    pub read_session-source_query :
        (repo : IncrementalSourceRepository) (body : Session A)
        → Reading body
        → (calls : List Call) (rows : List Row)
        → db.answer calls (connect repo.factory.dsn) ≡ ok rows
        → (e : Error) → (read_session db repo body calls).0 ≡ err e
        → e ≡ source_query
    unfolding read_session with_connection call
    read_session-source_query repo body h calls rows made e q =
        let tried = transaction db body (connect repo.factory.dsn ∷ calls) in
        let same : (read_session db repo body calls).0 ≡ (or_roll_back db tried).0 =
          rw (made) refl in
        or_roll_back-source_query tried (Reading-transaction body h _) e (sym same ∙ q)

-- A connection that is refused raises before the `try` block.
pub read_session-unconnected {ℓ} :
    {A : Type ℓ} (db : Database) (repo : IncrementalSourceRepository) (body : Session A)
    (calls : List Call) (e : Error)
    → db.answer calls (connect repo.factory.dsn) ≡ err e
    → (read_session db repo body calls).0 ≡ err e
unfolding read_session with_connection call
read_session-unconnected db repo body calls e refused = rw (refused) refl
