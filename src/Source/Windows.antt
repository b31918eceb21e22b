-- ===== src/Source/Windows.antt =====
-- Consecutive deltas of a table: each row is fetched once, however the table grows past the
-- watermark, and rows that share a timestamp are told apart by their keys.
use incremental_sync_data_se.Base.{
  ℕ, pos, ◌≡◌, refl, sym, ap, ◌∙◌, Bool, true, false, not, ◌&&◌, ◌||◌, some, List, [], ◌∷◌, ◌++◌,
  arith, All, last?, keep, Bool-cases, inl, inr,
}
use incremental_sync_data_se.Base.Int.{int_le_total, int_le_trans}
use mathlib.Core.List.{append-nil}
use incremental_sync_data_se.Domain.Checkpoint.{TableWatermark}
use incremental_sync_data_se.Source.{SourceRow, is_past, row_le, delta_rows}
use incremental_sync_data_se.Source.Sorting.{
  sort_with, All-back-sort_with, All-sort_with, All-last?, All-keep, keep_congr, keep-keep,
  sort_with-split, IsSorted-sort_with, last?-greatest,
}

row_le_total : (a b : SourceRow) → row_le a b ≡ false → row_le b a ≡ true
unfolding row_le
row_le_total a b h = ground (arith, int_le_total a.pk b.pk)

row_le_trans : (a b c : SourceRow) → row_le a b ≡ true → row_le b c ≡ true → row_le a c ≡ true
unfolding row_le
row_le_trans a b c h k = ground (arith, int_le_trans a.pk b.pk c.pk)

-- the watermark that a row with a key from 0 on leaves
abbrev pub mark : SourceRow → ℕ → TableWatermark
mark r n = record { updated_at = r.updated_at; last_pk = n }

module _ (w : TableWatermark) (r : SourceRow) (n : ℕ) (key : r.pk ≡ pos n) where
  -- no later watermark passes a row back
  past_mark :
      (y : SourceRow) → is_past w r ≡ true → is_past w y ≡ false → is_past (mark r n) y ≡ false
  unfolding is_past
  past_mark y h k =
      ground
        (arith, key, int_le_total r.pk (pos w.last_pk), int_le_trans y.pk (pos w.last_pk) (pos n))

  not_past_mark : (y : SourceRow) → row_le y r ≡ true → is_past (mark r n) y ≡ false
  unfolding is_past row_le
  not_past_mark y h = ground (arith, key)

  past_mark-le :
      (a b : SourceRow)
      → is_past (mark r n) a ≡ false
      → is_past (mark r n) b ≡ true
      → (row_le a b ≡ true) × (row_le b a ≡ false)
  unfolding is_past row_le
  past_mark-le a b h k = ground (
    arith,
    int_le_total b.pk (pos n),
    int_le_total b.pk a.pk,
    int_le_trans a.pk (pos n) b.pk,
    int_le_trans b.pk a.pk (pos n),
  )

-- A test that fails of every element keeps none.
keep-eq-nil :
    (p q : SourceRow → Bool) (P : SourceRow → Type 0) (l : List SourceRow)
    → All P (keep p l)
    → ((y : SourceRow) → P y → q y ≡ false)
    → ((y : SourceRow) → p y ≡ false → q y ≡ false)
    → keep q l ≡ []
keep-eq-nil p q P [] h yes_case no_case = refl
keep-eq-nil p q P (y ∷ l) h yes_case no_case = elim (Bool-cases (p y)) [
  | inl e ↦
      let (here, there) : P y × All P (keep p l) = rw e at h in
      rw (yes_case y here) (keep-eq-nil p q P l there yes_case no_case)
  | inr e ↦ rw (no_case y e) (keep-eq-nil p q P l (rw e at h) yes_case no_case)
]

module _ (w : TableWatermark) (table : List SourceRow) (r : SourceRow) (n : ℕ)
    (last : last? (delta_rows w table) ≡ some r) (key : r.pk ≡ pos n) where
  pub last_past : is_past w r ≡ true
  unfolding delta_rows
  last_past =
      All-last? _ (delta_rows w table)
        (All-sort_with row_le _ (keep (is_past w) table) (All-keep (is_past w) table)) last

  -- The watermark of a delta's last row leaves nothing of the table that the delta was read from.
  pub delta_rows_again : delta_rows (mark r n) table ≡ []
  unfolding delta_rows sort_with
  delta_rows_again =
      let sorted = IsSorted-sort_with row_le row_le_total row_le_trans (keep (is_past w) table) in
      let below =
        last?-greatest row_le row_le_total row_le_trans (delta_rows w table) sorted last in
      let kept = All-back-sort_with row_le _ (keep (is_past w) table) below in
      ap (sort_with row_le) (
        keep-eq-nil (is_past w) (is_past (mark r n)) _ table kept (not_past_mark w r n key)
          (λ y. past_mark w r n key y last_past))

  abbrev settled : SourceRow → Bool
  settled y = is_past w y && not (is_past (mark r n) y)

  delta_rows-split :
      (rows : List SourceRow)
      → delta_rows w rows ≡ sort_with row_le (keep settled rows) ++ delta_rows (mark r n) rows
  unfolding delta_rows
  delta_rows-split rows =
      ap (sort_with row_le) (
        keep_congr (is_past w) (λ x. settled x || is_past (mark r n) x) rows
          (λ x. ground (arith, past_mark w r n key x last_past)))
      ∙ sort_with-split row_le settled (is_past (mark r n))
          (λ a b low. past_mark-le w r n key a b (ground arith)) rows

  pub delta_rows_exactly_once :
      (table' : List SourceRow)
      → keep (λ y. not (is_past (mark r n) y)) table' ≡ keep (λ y. not (is_past (mark r n) y)) table
      → delta_rows w table' ≡ delta_rows w table ++ delta_rows (mark r n) table'
  delta_rows_exactly_once table' same =
      let later : SourceRow → Bool = λ y. not (is_past (mark r n) y) in
      let kept =
        sym (keep-keep (is_past w) later table')
        ∙ ap (keep (is_past w)) same
        ∙ keep-keep (is_past w) later table in
      let old =
        delta_rows-split table
        ∙ ap (λ (l : List SourceRow). sort_with row_le (keep settled table) ++ l) delta_rows_again
        ∙ append-nil _ in
      delta_rows-split table'
      ∙ ap (λ (l : List SourceRow). l ++ delta_rows (mark r n) table')
          (ap (sort_with row_le) kept ∙ sym old)
