-- ===== src/Source/Session/Ended.antt =====
-- How a read session ends: what it commits, rolls back and closes.
use incremental_sync_data_se.Base.{
  ◌≡◌, refl, ap, sym, ◌∙◌, List, [], ◌∷◌, ◌++◌, inl, inr, Error, Result, ok, err, database_error,
  key_error, type_error, value_error, attribute_error, runtime_error, os_error, ingest_in_progress,
  checkpoint_corrupt, commit_interrupted, source_query, All-append, All, false, true, Result-cases,
}
use mathlib.Core.List.{append_assoc}
use incremental_sync_data_se.Source.{Row}
use incremental_sync_data_se.Source.Connection.{
  Call, connect, set_autocommit, set_isolation_level, repeatable_read, set_read_only, commit,
  rollback, close, Database, Session, ◌>>=◌, ◌>>◌, continue, pure, call, with_connection, closing,
}
use incremental_sync_data_se.Source.Session.{
  IncrementalSourceRepository, translated, after_rollback, or_roll_back, transaction, read_session,
}
use incremental_sync_data_se.Source.Session.Calls.{IsInner, Inner, Within}

-- The calls of a session from `before` on, and its result: the connection fails; or the transaction
-- is committed, rolled back, or rolled back after a commit that failed, and then the connection is
-- closed.
pub data Ended {ℓ} {A : Type ℓ} (before : List Call) (repo : IncrementalSourceRepository)
    (r : Result A) (calls : List Call) : Type ℓ where
  unconnected :
      (e : Error)
      → r ≡ err e
      → calls ≡ connect repo.factory.dsn ∷ before
      → Ended before repo r calls
  committed :
      (a : A) (mid : List Call)
      → All IsInner mid
      → r ≡ ok a
      → calls ≡ close ∷ commit ∷ mid ++ connect repo.factory.dsn ∷ before
      → Ended before repo r calls
  rolled_back :
      (e : Error) (mid : List Call)
      → All IsInner mid
      → r ≡ err e
      → calls ≡ close ∷ rollback ∷ mid ++ connect repo.factory.dsn ∷ before
      → Ended before repo r calls
  commit_failed :
      (e : Error) (mid : List Call)
      → All IsInner mid
      → r ≡ err e
      → calls ≡ close ∷ rollback ∷ commit ∷ mid ++ connect repo.factory.dsn ∷ before
      → Ended before repo r calls

-- the `try` block, in the same manner
data Tried {ℓ} {A : Type ℓ} (before : List Call) (r : Result A × List Call) : Type ℓ where
  returned :
      (a : A) (mid : List Call)
      → All IsInner mid
      → r ≡ (ok a, commit ∷ mid ++ before)
      → Tried before r
  stopped :
      (e : Error) (mid : List Call) → All IsInner mid → r ≡ (err e, mid ++ before) → Tried before r
  refused :
      (e : Error) (mid : List Call)
      → All IsInner mid
      → r ≡ (err e, commit ∷ mid ++ before)
      → Tried before r

module _ {ℓ} {A : Type ℓ} (db : Database) where
  Tried-commit :
      {before : List Call} (r : Result A × List Call)
      → Inner before r
      → Tried before (continue (λ a. call db commit >> pure a) r)
  unfolding call
  Tried-commit (err e, calls) h = stopped e h.mid h.inner (ap (λ l. (err e, l)) h.calls)
  Tried-commit {before} (ok a, calls) h = elim (Result-cases (db.answer calls commit)) [
    | inl (e, q) ↦ refused e h.mid h.inner (rw (q, h.calls))
    | inr (x, q) ↦ returned a h.mid h.inner (rw (q, h.calls))
  ]

  -- One call more at the start.
  Tried-later :
      {before : List Call} (c : Call) (r : Result A × List Call)
      → IsInner c
      → Tried (c ∷ before) r
      → Tried before r
  Tried-later {before} c r inner (returned a mid h q) =
      returned a (mid ++ c ∷ []) (All-append IsInner mid (c ∷ []) h (inner, tt))
        (q ∙ ap (λ l. (ok a, commit ∷ l)) (sym (append_assoc mid (c ∷ []) before)))
  Tried-later {before} c r inner (stopped e mid h q) =
      stopped e (mid ++ c ∷ []) (All-append IsInner mid (c ∷ []) h (inner, tt))
        (q ∙ ap (λ l. (err e, l)) (sym (append_assoc mid (c ∷ []) before)))
  Tried-later {before} c r inner (refused e mid h q) =
      refused e (mid ++ c ∷ []) (All-append IsInner mid (c ∷ []) h (inner, tt))
        (q ∙ ap (λ l. (err e, commit ∷ l)) (sym (append_assoc mid (c ∷ []) before)))

  Tried-then :
      (c : Call)
      → IsInner c
      → (act : Session A) → ((calls : List Call) → Tried calls (act calls))
      → (calls : List Call) → Tried calls ((call db c >> act) calls)
  unfolding call
  Tried-then c inner act h calls = elim (Result-cases (db.answer calls c)) [
    | inl (e, q) ↦ stopped e (c ∷ []) (inner, tt) (rw (q))
    | inr (x, q) ↦ rw (q) (Tried-later c (act (c ∷ calls)) inner (h (c ∷ calls)))
  ]

  Tried-transaction :
      (body : Session A)
      → Within body
      → (calls : List Call) → Tried calls (transaction db body calls)
  unfolding transaction IsInner
  Tried-transaction body h =
      let finish = body >>= λ a. call db commit >> pure a in
      let third = call db (set_read_only true) >> finish in
      let second = call db (set_isolation_level repeatable_read) >> third in
      Tried-then (set_autocommit false) tt second (
        Tried-then (set_isolation_level repeatable_read) tt third (
          Tried-then (set_read_only true) tt finish (λ calls. Tried-commit (body calls) (h calls))))

  -- A rollback raises in any case, and is one call.
  after_rollback-err :
      (e : Error) (r : Result (List Row)) (calls : List Call)
      → (e' : Error) × (after_rollback db {A = A} e (r, calls) ≡ (err e', calls))
  unfolding after_rollback
  after_rollback-err e (ok _) calls = (translated e, refl)
  after_rollback-err e (err database_error) calls = (translated e, refl)
  after_rollback-err e (err key_error) calls = (key_error, refl)
  after_rollback-err e (err type_error) calls = (type_error, refl)
  after_rollback-err e (err value_error) calls = (value_error, refl)
  after_rollback-err e (err attribute_error) calls = (attribute_error, refl)
  after_rollback-err e (err runtime_error) calls = (runtime_error, refl)
  after_rollback-err e (err os_error) calls = (os_error, refl)
  after_rollback-err e (err ingest_in_progress) calls = (ingest_in_progress, refl)
  after_rollback-err e (err checkpoint_corrupt) calls = (checkpoint_corrupt, refl)
  after_rollback-err e (err commit_interrupted) calls = (commit_interrupted, refl)
  after_rollback-err e (err source_query) calls = (source_query, refl)

  -- What the handlers and the `finally` clause make of the `try` block.
  Ended-tried :
      {before : List Call} (repo : IncrementalSourceRepository) (r : Result A × List Call)
      → Tried (connect repo.factory.dsn ∷ before) r
      → Ended before repo (closing db (or_roll_back db r)).0 (closing db (or_roll_back db r)).1
  unfolding call
  Ended-tried repo r (returned a mid h q) = rw (q) (committed a mid h refl refl)
  Ended-tried {before} repo r (stopped e mid h q) =
      let calls = mid ++ connect repo.factory.dsn ∷ before in
      let (e', raised) = after_rollback-err e (db.answer calls rollback) (rollback ∷ calls) in
      rw (q, raised) (rolled_back e' mid h refl refl)
  Ended-tried {before} repo r (refused e mid h q) =
      let calls = commit ∷ mid ++ connect repo.factory.dsn ∷ before in
      let (e', raised) = after_rollback-err e (db.answer calls rollback) (rollback ∷ calls) in
      rw (q, raised) (commit_failed e' mid h refl refl)

  pub read_session-Ended :
      (repo : IncrementalSourceRepository) (body : Session A)
      → Within body
      → (before : List Call)
      → Ended before repo (read_session db repo body before).0 (read_session db repo body before).1
  unfolding read_session with_connection call
  read_session-Ended repo body h before =
      elim (Result-cases (db.answer before (connect repo.factory.dsn))) [
        | inl (e, q) ↦ rw (q) (unconnected e refl refl)
        | inr (x, q) ↦ rw (q) (Ended-tried repo _ (Tried-transaction body h _))
      ]
