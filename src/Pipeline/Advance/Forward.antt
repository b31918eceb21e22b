-- ===== src/Pipeline/Advance/Forward.antt =====
-- A watermark never goes back.
use mathlib.Core.Path.{subst}
use incremental_sync_data_se.Base.{
  ℕ, pos, String, ◌≡◌, refl, sym, ap, Bool, true, ◌&&◌, ◌||◌, Option, none, some, Bool-cases, inl,
  inr, List, [], ◌∷◌, Result, ok, err, bind-each, All, last?, ltb, leb, eqb, contains, arith,
  string_eq, ◌==◌, if◌then◌else◌,
}
use incremental_sync_data_se.Base.Int.{int_le}
use incremental_sync_data_se.Base.Dict
use incremental_sync_data_se.Base.Dict.{Dict, lookup-insert}
use incremental_sync_data_se.Domain.Checkpoint.{TableWatermark, Checkpoint, watermark, with_updated}
use incremental_sync_data_se.Domain.Tables.{TableSpec, column_names}
use incremental_sync_data_se.Source.{SourceRow, Row, is_past, select_row, delta_rows, fetch_delta}
use incremental_sync_data_se.Source.Windows.{mark, last_past}
use incremental_sync_data_se.Pipeline.Advance.{row_watermark, advance_table, advance_checkpoint}
use incremental_sync_data_se.Pipeline.Advance.Exact.{last?-traverse, row_watermark-select_row}

-- the order of watermarks: by timestamp, then by key
unfoldable pub watermark_le : TableWatermark → TableWatermark → Bool
watermark_le w w' =
    ltb w.updated_at w'.updated_at || eqb w.updated_at w'.updated_at && leb w.last_pk w'.last_pk

watermark_le_refl : (w : TableWatermark) → watermark_le w w ≡ true
unfolding watermark_le
watermark_le_refl w = ground arith

watermark_le-mark :
    (w : TableWatermark) (r : SourceRow) (n : ℕ)
    → r.pk ≡ pos n
    → is_past w r ≡ true
    → watermark_le w (mark r n) ≡ true
unfolding watermark_le is_past int_le
watermark_le-mark w r n key past = ground (arith, key)

-- a delta of a registered table that has its key and its timestamp among its columns, past the
-- table's watermark
pub record IsDelta (specs : Dict String TableSpec) (table : String → List SourceRow)
    (cp : Checkpoint) (entry : String × List Row) : Type 0 where
  pub spec : TableSpec
  pub registered : Dict.lookup entry.0 specs ≡ some spec
  pub keyed : contains (column_names spec) spec.primary_key ≡ true
  pub timed : contains (column_names spec) "updated_at" ≡ true
  pub fetched : fetch_delta spec (watermark entry.0 cp) (table entry.0) ≡ ok entry.1

pub watermark-with_updated :
    (t name : String) (w : TableWatermark) (cp : Checkpoint)
    → watermark t (with_updated name w cp) ≡ (if t == name then w else watermark t cp)
unfolding watermark with_updated
watermark-with_updated t name w cp =
    let found = lookup-insert t name w cp.per_table in
    elim (Bool-cases (t == name)) [ inl e ↦ rw (found, e) refl | inr e ↦ rw (found, e) refl ]

abbrev pub in_result : Checkpoint → Result Checkpoint → Checkpoint
in_result default (ok cp) = cp
in_result default (err e) = default

module _ (specs : Dict String TableSpec) (table : String → List SourceRow) (base : Checkpoint) where
  -- no watermark is behind the one it started from
  abbrev Ahead : Checkpoint → Type 0
  Ahead cp = (t : String) → watermark_le (watermark t base) (watermark t cp) ≡ true

  Ahead-with_updated :
      (name : String) (w : TableWatermark) (cp : Checkpoint)
      → watermark_le (watermark name base) w ≡ true
      → Ahead cp
      → Ahead (with_updated name w cp)
  Ahead-with_updated name w cp forward ahead t = elim (Bool-cases (t == name)) [
    | inl e ↦
        let same : t ≡ name = ground arith in
        rw (watermark-with_updated t name w cp, e, same) forward
    | inr e ↦ rw (watermark-with_updated t name w cp, e) (ahead t)
  ]

  row_watermark-forward :
      (name : String) (rows : List Row) (row : Row) (w : TableWatermark)
      → (delta : IsDelta specs table base (name, rows)) → last? rows ≡ some row
      → row_watermark delta.spec row ≡ ok w
      → watermark_le (watermark name base) w ≡ true
  unfolding fetch_delta
  row_watermark-forward name rows row w delta last advanced =
      let old = watermark name base in
      let (r, greatest, selected) =
        last?-traverse (select_row delta.spec) (delta_rows old (table name)) delta.fetched last in
      let (n, key, moved) =
        row_watermark-select_row delta.spec delta.keyed delta.timed r selected advanced in
      rw (sym moved) (watermark_le-mark old r n key (last_past old (table name) r n greatest key))

  advance_table-Ahead :
      (name : String) (rows : List Row) (o : Option Row) (cp cp' : Checkpoint)
      → IsDelta specs table base (name, rows)
      → last? rows ≡ o
      → Ahead cp
      → advance_table specs name o cp ≡ ok cp'
      → Ahead cp'
  advance_table-Ahead name rows none cp cp' delta last ahead h =
      subst Ahead (ap (in_result cp) h) ahead
  advance_table-Ahead name rows (some row) cp cp' delta last ahead h =
      bind-each Ahead (row_watermark delta.spec row)
        (λ w advanced next e. subst Ahead (ap (in_result cp) e) (
          Ahead-with_updated name w cp (row_watermark-forward name rows row w delta last advanced)
            ahead))
        cp' (rw (delta.registered) at h)

  advance_checkpoint-Ahead :
      (deltas : Dict String (List Row)) (cp cp' : Checkpoint)
      → All (IsDelta specs table base) deltas
      → Ahead cp
      → advance_checkpoint specs deltas cp ≡ ok cp'
      → Ahead cp'
  unfolding advance_checkpoint
  advance_checkpoint-Ahead [] cp cp' fetched ahead h = subst Ahead (ap (in_result cp) h) ahead
  advance_checkpoint-Ahead ((name, rows) ∷ deltas) cp cp' fetched ahead h =
      bind-each Ahead (advance_table specs name (last? rows) cp)
        (λ next first end.
          advance_checkpoint-Ahead deltas next end fetched.1
            (advance_table-Ahead name rows (last? rows) cp next fetched.0 refl ahead first))
        cp' h

-- The deltas are those of registered tables that have their keys and timestamps among their columns,
-- each past the table's watermark: then no table's watermark goes back, in the order of timestamps
-- and, at one timestamp, of keys, whatever name is asked for.
pub advance_checkpoint-forward :
    (specs : Dict String TableSpec) (table : String → List SourceRow) (cp cp' : Checkpoint)
    (deltas : Dict String (List Row))
    → All (IsDelta specs table cp) deltas
    → advance_checkpoint specs deltas cp ≡ ok cp'
    → (t : String) → watermark_le (watermark t cp) (watermark t cp') ≡ true
advance_checkpoint-forward specs table cp cp' deltas fetched =
    advance_checkpoint-Ahead specs table cp deltas cp cp' fetched
      (λ t. watermark_le_refl (watermark t cp))
