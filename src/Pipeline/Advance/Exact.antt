-- ===== src/Pipeline/Advance/Exact.antt =====
-- checkpoint_advance.py against the source's next delta: once the checkpoint is past a delta, the
-- same table has nothing more to fetch.
use incremental_sync_data_se.Base.{
  ℕ, String, ℤ, pos, negsuc, ◌≡◌, refl, ==_refl, sym, ap, ◌∙◌, arith, true, false, some, List, [],
  ◌∷◌, Result, ok, err, attribute_error, traverse, last?, contains, string_eq, map, ◌==◌,
  Bool-cases, traverse-ok, inl, inr,
}
use incremental_sync_data_se.Base.Dict
use incremental_sync_data_se.Time.{aware}
use incremental_sync_data_se.Json.{Value, int, datetime}
use incremental_sync_data_se.Domain.Checkpoint.{TableWatermark, make}
use incremental_sync_data_se.Domain.Tables.{TableSpec, Column, column_names}
use incremental_sync_data_se.Source
use incremental_sync_data_se.Source.{SourceRow, Row, select_row, delta_rows, fetch_delta}
use incremental_sync_data_se.Source.Windows.{mark, delta_rows_again}
use incremental_sync_data_se.Json.Access.{int_of}
use incremental_sync_data_se.Pipeline.Advance.{cell, row_watermark}

module _ {A : Type 0} {B : Type 0} (f : A → Result B) where
  pub last?-traverse :
      (l : List A) {ys : List B} {y : B}
      → traverse f l ≡ ok ys
      → last? ys ≡ some y
      → (x : A) × (last? l ≡ some x) × (f x ≡ ok y)
  unfolding traverse
  last?-traverse [] {ys} {y} e h = cc
  last?-traverse (a ∷ []) {ys} {y} e h =
      let (z, rest_of, first, rest, k) = traverse-ok f a [] e in
      let none_left : [] ≡ rest_of = cc in
      let whole = ap (last? {A = B}) k in
      let single = ap (λ (u : List B). last? (z ∷ u)) none_left in (a, refl, cc)
  last?-traverse (a ∷ b ∷ l) {ys} {y} e h =
      let (z, zs, first, rest, k) = traverse-ok f a (b ∷ l) e in
      let (z', zs', first', rest', k') = traverse-ok f b l rest in
      let longer = ap (λ (u : List B). last? (z ∷ u)) k' in
      let inner = ap (last? {A = B}) k' in
      let whole = ap (last? {A = B}) k in last?-traverse (b ∷ l) rest (cc)

module _ (spec : TableSpec) (r : SourceRow) where
  -- the columns of a selected row carry the names that were asked for
  cell_name :
      (name : String) {item : String × Value} → Source.cell spec r name ≡ ok item → name ≡ item.0
  cell_name name {item} h = ground (arith)

  first_column :
      (k : String) (c : Column) {item : String × Value} (rest : Row) {v : Value} {row : Row}
      → Source.cell spec r k ≡ ok (k, v)
      → Source.cell spec r c.name ≡ ok item
      → k ≡ c.name
      → item ∷ rest ≡ row
      → Dict.lookup k row ≡ some v
  unfolding Dict.lookup
  first_column k c {item} rest {v} {row} at first same e =
      let here = ap (λ (name : String). Source.cell spec r name) same in
      let whole : item ≡ (k, v) = cc in
      let split = ap (λ (l : Row). Dict.lookup k l) e in sym split ∙ rw whole (rw ==_refl refl)

  later_column :
      (k : String) (c : Column) (item : String × Value) (rest : Row) {v : Value} {row : Row}
      → (k == item.0) ≡ false
      → Dict.lookup k rest ≡ some v
      → item ∷ rest ≡ row
      → Dict.lookup k row ≡ some v
  unfolding Dict.lookup
  later_column k c item rest {v} {row} differ found e =
      let split = ap (λ (l : Row). Dict.lookup k l) e in sym split ∙ rw differ found

  lookup-traverse :
      (columns : List Column) (k : String) {v : Value} {row : Row}
      → Source.cell spec r k ≡ ok (k, v)
      → contains (map (λ (c : Column). c.name) columns) k ≡ true
      → traverse (λ (c : Column). Source.cell spec r c.name) columns ≡ ok row
      → Dict.lookup k row ≡ some v
  unfolding Dict.lookup
  lookup-traverse [] k {v} {row} at listed h = cc
  lookup-traverse (c ∷ columns) k {v} {row} at listed h =
      let (item, rest, first, next, e) = traverse-ok _ c columns h in
      let named = cell_name c.name first in
      elim (Bool-cases (k == c.name)) [
        | inl same ↦ first_column k c rest at first (ground arith) e
        | inr differ ↦
            let more : contains (map (λ (c : Column). c.name) columns) k ≡ true =
              ground (arith, listed, differ) in
            later_column k c item rest (ground (arith, named))
              (lookup-traverse columns k at more next) e
      ]

-- a watermark that a key and a timestamp make
make_lem :
    (t : ℕ) (pk : ℤ) {w : TableWatermark}
    → make (aware t) pk ≡ ok w
    → (n : ℕ) × (pk ≡ pos n) × (record { updated_at = t; last_pk = n } ≡ w)
unfolding make
make_lem t (pos n) {w} h = (n, refl, cc)
make_lem t (negsuc n) {w} h = cc

module _ (spec : TableSpec) (keyed : contains (column_names spec) spec.primary_key ≡ true)
    (timed : contains (column_names spec) "updated_at" ≡ true) where
  pub row_watermark-select_row :
      (r : SourceRow) {row : Row} {w : TableWatermark}
      → select_row spec r ≡ ok row
      → row_watermark spec row ≡ ok w
      → (n : ℕ) × (r.pk ≡ pos n) × (mark r n ≡ w)
  unfolding row_watermark cell select_row column_names int_of
  row_watermark-select_row r {row} {w} selected h =
      let own : Source.cell spec r spec.primary_key ≡ ok (spec.primary_key, int r.pk) =
        rw ==_refl refl in
      let key = lookup-traverse spec r spec.columns spec.primary_key own keyed selected in
      elim (Bool-cases ("updated_at" == spec.primary_key)) [
        | inl same ↦
            let is_key : "updated_at" ≡ spec.primary_key = ground arith in
            let time = ap (λ (k : String). Dict.lookup k row) is_key ∙ key in
            let whole : err attribute_error ≡ ok w = rw (time, key) at h in absurd (cc)
        | inr differ ↦
            let at : Source.cell spec r "updated_at"
                ≡ ok ("updated_at", datetime (aware r.updated_at)) =
              rw (differ, ==_refl) refl in
            let time = lookup-traverse spec r spec.columns "updated_at" at timed selected in
            make_lem r.updated_at r.pk (rw (time, key) at h)
      ]

  -- A table that has its key and its timestamp among its columns: once the watermark is taken from the
  -- last row of a delta, the next delta of the same rows is empty.
  pub fetch_delta-advanced :
      (w w' : TableWatermark) (table : List SourceRow) (rows : List Row) (row : Row)
      → fetch_delta spec w table ≡ ok rows
      → last? rows ≡ some row
      → row_watermark spec row ≡ ok w'
      → fetch_delta spec w' table ≡ ok []
  unfolding fetch_delta traverse
  fetch_delta-advanced w w' table rows row fetched last advanced =
      let (r, greatest, selected) =
        last?-traverse (select_row spec) (delta_rows w table) fetched last in
      let (n, key, moved) = row_watermark-select_row r selected advanced in
      ap (λ (v : TableWatermark). traverse (select_row spec) (delta_rows v table)) (sym moved)
      ∙ ap (traverse (select_row spec)) (delta_rows_again w table r n greatest key)
