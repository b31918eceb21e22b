-- ===== src/Domain/Checkpoint/Loaded/RoundTrip.antt =====
-- A checkpoint that is written to a dict and read back.
use incremental_sync_data_se.Base.{
  String, ◌≡◌, ◌≢◌, refl, ap, ◌∙◌, List, [], ◌∷◌, ◌++◌, ok, ◌>>=◌, string_eq, traverse, bind-ok,
  All, All-append, All-each, arith,
}
use mathlib.Core.List.{append_assoc, append-nil}
use incremental_sync_data_se.Base.Dict
use incremental_sync_data_se.Base.Dict.{Dict}
use incremental_sync_data_se.Base.Sort.{sort_by}
use incremental_sync_data_se.Base.Sort.Sorted.{
  Distinct, Distinct-sort_by, All-sort_by, sort_by-sort_by,
}
use incremental_sync_data_se.Time.{aware, iso_utc_z}
use incremental_sync_data_se.Time.Parse.{isoformat, parse_iso_utc-iso_utc_z}
use incremental_sync_data_se.Json.{Value}
use incremental_sync_data_se.Json.Access.{item, field_at, int_of}
use incremental_sync_data_se.Domain.Checkpoint.{
  TableWatermark, make, watermark_dict, Checkpoint, table_name, fields_of, entry_dict, to_dict,
}
use incremental_sync_data_se.Domain.Checkpoint.Loaded.{
  Python, str_of, watermark_from_dict, from_fields, from_dict, SameCheckpoint,
}

module _ (py : Python) where
  -- Python reads the timestamps that it prints.
  abbrev pub Reads : TableWatermark → Type 0
  Reads w = py.fromisoformat (isoformat w.updated_at) ≡ ok (aware w.updated_at)

  pub watermark_from_dict-watermark_dict :
      (w : TableWatermark) → Reads w → (watermark_dict w >>= watermark_from_dict py) ≡ ok w
  unfolding watermark_dict watermark_from_dict iso_utc_z item field_at str_of int_of make string_eq
  watermark_from_dict-watermark_dict w reads =
      rw (parse_iso_utc-iso_utc_z py.fromisoformat w.updated_at reads) refl

abbrev pub Entry : Type 0
Entry = String × TableWatermark

abbrev Fresh : Dict String TableWatermark → Entry → Type 0
Fresh d e = All (λ (x : Entry). table_name x ≢ table_name e) d

insert-Fresh :
    (name : String) (w : TableWatermark) (d : Dict String TableWatermark)
    → Fresh d (name, w)
    → Dict.insert name w d ≡ d ++ (name, w) ∷ []
unfolding Dict.insert
insert-Fresh name w [] h = refl
insert-Fresh name w ((j, v) ∷ d) h = ground (arith, insert-Fresh name w d h.1, h.0)

Fresh-append :
    (d : Dict String TableWatermark) (e : Entry) (l : List Entry)
    → All (Fresh d) l
    → All (λ (x : Entry). table_name e ≢ table_name x) l
    → All (Fresh (d ++ e ∷ [])) l
Fresh-append d e [] h k = tt
Fresh-append d e (x ∷ l) h k = (All-append _ d (e ∷ []) h.0 (k.0, tt), Fresh-append d e l h.1 k.1)

module _ (py : Python) where
  -- The items of a dict with distinct names, read after a dict without these names.
  from_fields-fields_of :
      (l : List Entry)
      → Distinct table_name l
      → All (λ (e : Entry). Reads py e.1) l
      → (items : List (String × Value)) × (traverse entry_dict l ≡ ok items)
        × ((d : Dict String TableWatermark)
            → All (Fresh d) l
            → from_fields py (fields_of items) d ≡ ok (d ++ l))
  unfolding from_fields fields_of traverse
  from_fields-fields_of [] distinct reads = ([], refl, λ d fresh. rw (append-nil d) refl)
  from_fields-fields_of ((name, w) ∷ l) distinct reads =
      let (items, printed, read) = from_fields-fields_of l distinct.1 reads.1 in
      let first = watermark_from_dict-watermark_dict py w reads.0 in
      let (v, dict, back) = bind-ok (watermark_dict w) _ first in
      (
        (name, v) ∷ items,
        rw (dict, printed) refl,
        λ d fresh.
            rw (back, insert-Fresh name w d fresh.0)
              (read (d ++ (name, w) ∷ []) (Fresh-append d (name, w) l fresh.1 distinct.0)
                ∙ ap (λ (x : List Entry). ok x) (append_assoc d ((name, w) ∷ []) l)),
      )

  -- A checkpoint with one watermark for each name, printed as a dict, is read back as a checkpoint
  -- with the same entries, in the order of the names, which is `==` to the first one, if Python
  -- reads the timestamps that it prints for the entries.
  pub from_dict-to_dict :
      (cp : Checkpoint)
      → Distinct table_name cp.per_table
      → All (λ (e : Entry). Reads py e.1) cp.per_table
      → (cp' : Checkpoint) × ((to_dict cp >>= from_dict py) ≡ ok cp')
        × (cp'.per_table ≡ sort_by table_name cp.per_table)
        × SameCheckpoint cp' cp
  unfolding to_dict from_dict SameCheckpoint
  from_dict-to_dict cp distinct reads =
      let (items, printed, read) =
        from_fields-fields_of (sort_by table_name cp.per_table)
          (Distinct-sort_by table_name cp.per_table distinct)
          (All-sort_by table_name (λ (e : Entry). Reads py e.1) cp.per_table reads) in
      (
        record { per_table = sort_by table_name cp.per_table },
        rw (printed, read [] (All-each (Fresh []) _ (λ e. tt))) refl,
        refl,
        rw (sort_by-sort_by table_name cp.per_table) refl,
      )
