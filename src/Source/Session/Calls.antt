-- ===== src/Source/Session/Calls.antt =====
-- Which calls the work inside a read session makes.
use incremental_sync_data_se.Base.{
  ℕ, ◌≡◌, refl, ap, sym, ◌∙◌, List, [], ◌∷◌, ◌++◌, Result, ok, err, All, All-append,
}
use mathlib.Core.List.{append_assoc}
use incremental_sync_data_se.Base.Sort.{codes}
use incremental_sync_data_se.Time.{Text}
use incremental_sync_data_se.Domain.Checkpoint.{TableWatermark}
use incremental_sync_data_se.Domain.Tables.{TableSpec}
use incremental_sync_data_se.Source.{Row, build_delta_query}
use incremental_sync_data_se.Source.Connection.{
  Call, connect, open_cursor, close_cursor, execute, fetch_rows, commit, rollback, close, Database,
  Session, ◌>>=◌, ◌>>◌, continue, pure, call,
}
use incremental_sync_data_se.Source.Session.{translate, close_with, with_cursor, fetch_delta}

-- neither opens nor ends a connection or a transaction
unfoldable pub IsInner : Call → Type 0
IsInner (connect _) = ⊥
IsInner commit = ⊥
IsInner rollback = ⊥
IsInner close = ⊥
IsInner c = Unit

-- what an action adds to the calls
pub record Inner {ℓ} {A : Type ℓ} (before : List Call) (r : Result A × List Call) : Type 0 where
  pub mid : List Call
  pub inner : All IsInner mid
  pub calls : r.1 ≡ mid ++ before

abbrev pub Within {ℓ} : {A : Type ℓ} → Session A → Type 0
Within act = (calls : List Call) → Inner calls (act calls)

Inner-pure {ℓ} : {A : Type ℓ} (r : Result A) (calls : List Call) → Inner calls (r, calls)
Inner-pure r calls = record { mid = []; inner = tt; calls = refl }

-- After calls of its own, the calls of what comes next.
Inner-then {ℓ κ} :
    {A : Type ℓ} {B : Type κ} {before : List Call} (r : Result A) (calls : List Call)
    → Inner before (r, calls)
    → (next : Result B × List Call) → Inner calls next
    → Inner before next
Inner-then {before} r calls first next after = record {
  mid = after.mid ++ first.mid;
  inner = All-append IsInner after.mid first.mid after.inner first.inner;
  calls =
      after.calls
      ∙ ap (λ l. after.mid ++ l) first.calls
      ∙ sym (append_assoc after.mid first.mid before);
}

module _ {ℓ κ} {A : Type ℓ} {B : Type κ} where
  Inner-continue :
      {before : List Call} (next : A → Session B) (r : Result A × List Call)
      → Inner before r
      → ((a : A) → Within (next a))
      → Inner before (continue next r)
  Inner-continue next (ok a, calls) first h = Inner-then (ok a) calls first _ (h a calls)
  Inner-continue next (err e, calls) first h =
      Inner-then (err e) calls first _ (Inner-pure (err e) calls)

  pub Within-bind :
      (act : Session A) (next : A → Session B)
      → Within act
      → ((a : A) → Within (next a))
      → Within (act >>= next)
  Within-bind act next first h calls = Inner-continue next (act calls) (first calls) h

pub Within-pure {ℓ} : {A : Type ℓ} (a : A) → Within (pure a)
Within-pure a calls = Inner-pure (ok a) calls

Inner-translate {ℓ} :
    {A : Type ℓ} {before : List Call} (r : Result A × List Call)
    → Inner before r
    → Inner before (translate r)
Inner-translate (ok a, calls) h = h
Inner-translate (err e, calls) h = Inner-then (err e) calls h _ (Inner-pure _ calls)

module _ (db : Database) where
  pub Within-call : (c : Call) → IsInner c → Within (call db c)
  unfolding call
  Within-call c h calls = record { mid = c ∷ []; inner = (h, tt); calls = refl }

  Inner-close_with {ℓ} :
      {A : Type ℓ} {before : List Call} (r : Result A) (closed : Result (List Row) × List Call)
      → Inner before closed
      → Inner before (close_with db r closed)
  unfolding close_with
  Inner-close_with r (ok x, calls) h = Inner-then (ok x) calls h _ (Inner-pure r calls)
  Inner-close_with r (err e, calls) h = Inner-then (err e) calls h _ (Inner-pure (err e) calls)

  Within-with_cursor {ℓ} :
      {A : Type ℓ} (name : Text) (body : Session A)
      → Within body
      → Within (with_cursor db name body)
  unfolding with_cursor IsInner
  Within-with_cursor name body h =
      Within-bind (call db (open_cursor name)) _ (Within-call (open_cursor name) tt) (λ _ calls.
        Inner-close_with (body calls).0 _ (
          Inner-then (body calls).0 (body calls).1 (h calls) _
            (Within-call close_cursor tt (body calls).1)))

  pub Within-fetch_delta :
      (fetch_size : ℕ) (spec : TableSpec) (w : TableWatermark)
      → Within (fetch_delta db fetch_size spec w)
  unfolding fetch_delta IsInner
  Within-fetch_delta fetch_size spec w calls =
      let query = call db (execute (build_delta_query spec) w) in
      let rows = call db (fetch_rows fetch_size) in
      Inner-translate _ (
        Within-with_cursor (codes "delta_" ++ codes spec.name) (query >> rows)
          (Within-bind query (λ _. rows) (Within-call (execute _ w) tt)
            (λ _. Within-call (fetch_rows fetch_size) tt))
          calls)
