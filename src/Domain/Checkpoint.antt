-- ===== src/Domain/Checkpoint.antt =====
-- domain/checkpoint.py: composite watermarks, one for each table.
pub mod Loaded
use incremental_sync_data_se.Base.{
  ℕ, String, ℤ, pos, negsuc, Option, none, some, List, [], ◌∷◌, Result, ok, err, value_error, ◌>>=◌,
  string_eq, traverse,
}
use incremental_sync_data_se.Base.Dict
use incremental_sync_data_se.Base.Dict.{Dict}
use incremental_sync_data_se.Base.Sort.{sort_by}
use incremental_sync_data_se.Time.{Datetime, naive, aware, iso_utc_z}
use incremental_sync_data_se.Json.{Value, int, str, object, Fields, end, field}

-- `make` admits aware timestamps and keys from 0 on, so the fields hold an instant and a natural.
pub record TableWatermark : Type 0 where
  pub updated_at : ℕ
  pub last_pk : ℕ

-- the constructor, with `__post_init__`
unfoldable pub make : Datetime → ℤ → Result TableWatermark
make (naive _) pk = err value_error
make (aware t) (negsuc _) = err value_error
make (aware t) (pos n) = ok (record { updated_at = t; last_pk = n })

abbrev pub empty_updated_at : ℕ
empty_updated_at = 0

abbrev pub empty_last_pk : ℕ
empty_last_pk = 0

abbrev pub empty : TableWatermark
empty = record { updated_at = empty_updated_at; last_pk = empty_last_pk }

-- `TableWatermark.to_dict`
unfoldable pub watermark_dict : TableWatermark → Result Value
watermark_dict w = do
  t ← iso_utc_z (aware w.updated_at)
  ok (object (field "updated_at" (str t) (field "last_pk" (int (pos w.last_pk)) end)))

pub record Checkpoint : Type 0 where
  pub per_table : Dict String TableWatermark

abbrev initial_entries : List String → Dict String TableWatermark → Dict String TableWatermark
initial_entries [] d = d
initial_entries (t ∷ ts) d = initial_entries ts (Dict.insert t empty d)

-- `Checkpoint.initial`
unfoldable pub initial : List String → Checkpoint
initial table_names = record { per_table = initial_entries table_names [] }

abbrev or_empty : Option TableWatermark → TableWatermark
or_empty none = empty
or_empty (some w) = w

unfoldable pub watermark : String → Checkpoint → TableWatermark
watermark table cp = or_empty (Dict.lookup table cp.per_table)

unfoldable pub with_updated : String → TableWatermark → Checkpoint → Checkpoint
with_updated table w cp = record { per_table = Dict.insert table w cp.per_table }

abbrev pub table_name {ℓ} : {V : Type ℓ} → String × V → String
table_name (name, _) = name

-- a dict from its items
unfoldable pub fields_of : List (String × Value) → Fields
fields_of [] = end
fields_of ((k, v) ∷ items) = field k v (fields_of items)

-- a dict display: a later entry replaces the value of an earlier one with its key
unfoldable pub dict_of : List (String × Value) → Dict String Value → Dict String Value
dict_of [] d = d
dict_of ((k, v) ∷ items) d = dict_of items (Dict.insert k v d)

abbrev pub entry_dict : String × TableWatermark → Result (String × Value)
entry_dict (name, w) = do v ← watermark_dict w; ok (name, v)

-- `Checkpoint.to_dict`
unfoldable pub to_dict : Checkpoint → Result Value
unfolding watermark_dict
to_dict cp = do
  items ← traverse entry_dict (sort_by table_name cp.per_table)
  ok (object (fields_of items))
