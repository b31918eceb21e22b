-- ===== src/Outputs/Lake/Grouped.antt =====
-- lake_writer.py: the groups by date are the rows of each date.
use mathlib.Core.List.{append_assoc, append-nil}
use incremental_sync_data_se.Base.{
  ◌≡◌, refl, ap, ◌∙◌, sym, Bool, false, Bool-cases, inl, inr, List, [], ◌∷◌, ◌++◌, Result, ok, err,
  bind-each, keep, arith, ◌==◌, if◌then◌else◌, nat_eq, list_eq, string_eq,
}
use incremental_sync_data_se.Base.Dict
use incremental_sync_data_se.Base.Dict.{Dict, lookup-insert}
use incremental_sync_data_se.Time.{Text}
use incremental_sync_data_se.Source.{Row}
use incremental_sync_data_se.Outputs.Lake.{
  date_key_of, rows_or_none, append_to, group_from, group_by_utc_date,
}

abbrev is_key : Text → Result Text → Bool
is_key key (ok k) = key == k
is_key key (err e) = false

-- the rows whose timestamp falls on a date
unfoldable pub rows_of_date : Text → List Row → List Row
rows_of_date key rows = keep (λ row. is_key key (date_key_of (Dict.lookup "updated_at" row))) rows

abbrev group_at : Text → Dict Text (List Row) → List Row
group_at key out = rows_or_none (Dict.lookup key out)

group_at-append_to :
    (key key' : Text) (row : Row) (out : Dict Text (List Row))
    → group_at key (append_to key' row out)
      ≡ (if key == key' then group_at key out ++ row ∷ [] else group_at key out)
group_at-append_to key key' row out =
    let found = lookup-insert key key' (group_at key' out ++ row ∷ []) out in
    elim (Bool-cases (key == key')) [
      | inl e ↦ let same : key ≡ key' = ground arith in rw (found, e, same) refl
      | inr e ↦ rw (found, e) refl
    ]

abbrev in_groups : Dict Text (List Row) → Result (Dict Text (List Row)) → Dict Text (List Row)
in_groups default (ok groups) = groups
in_groups default (err e) = default

group_from-rows_of_date :
    (key : Text) (rows : List Row) (out groups : Dict Text (List Row))
    → group_from out rows ≡ ok groups
    → group_at key groups ≡ group_at key out ++ rows_of_date key rows
unfolding group_from rows_of_date
group_from-rows_of_date key [] out groups h =
    ap (group_at key) (sym (ap (in_groups out) h)) ∙ sym (append-nil (group_at key out))
group_from-rows_of_date key (row ∷ rows) out groups h =
    bind-each (λ g. group_at key g ≡ group_at key out ++ rows_of_date key (row ∷ rows))
      (date_key_of (Dict.lookup "updated_at" row))
      (λ key' dated g e.
        let rest = group_from-rows_of_date key rows (append_to key' row out) g e in
        let added = group_at-append_to key key' row out in
        elim (Bool-cases (key == key')) [
          | inl same ↦
              let here : group_at key (append_to key' row out) ≡ group_at key out ++ row ∷ [] =
                rw (same) at added in
              rw (dated, same)
                (rest
                  ∙ ap (λ l. l ++ rows_of_date key rows) here
                  ∙ append_assoc (group_at key out) (row ∷ []) (rows_of_date key rows))
          | inr differ ↦
              let here : group_at key (append_to key' row out) ≡ group_at key out =
                rw (differ) at added in
              rw (dated, differ) (rest ∙ ap (λ l. l ++ rows_of_date key rows) here)
        ])
      groups h

-- What is staged for a date is every row whose timestamp falls on it, in the order of the delta, and no
-- other row: no row is lost, repeated or put under another date.
pub group_by_utc_date-rows_of_date :
    (rows : List Row) (groups : Dict Text (List Row))
    → group_by_utc_date rows ≡ ok groups
    → (key : Text) → rows_or_none (Dict.lookup key groups) ≡ rows_of_date key rows
unfolding group_by_utc_date Dict.lookup
group_by_utc_date-rows_of_date rows groups h key = group_from-rows_of_date key rows [] groups h
