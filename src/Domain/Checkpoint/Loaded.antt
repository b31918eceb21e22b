-- ===== src/Domain/Checkpoint/Loaded.antt =====
-- `from_dict` of domain/checkpoint.py.
pub mod RoundTrip
use incremental_sync_data_se.Base.{
  ◌≡◌, ℕ, ℤ, pos, negsuc, String, Bool, true, false, List, [], ◌∷◌, Result, ok, err,
  attribute_error, ◌>>=◌, string_eq,
}
use incremental_sync_data_se.Base.Dict
use incremental_sync_data_se.Base.Dict.{Dict}
use incremental_sync_data_se.Base.Sort.{codes}
use incremental_sync_data_se.Time.{Text, Datetime}
use incremental_sync_data_se.Time.Parse.{parse_iso_utc}
use incremental_sync_data_se.Json.{
  Value, null, boolean, int, str, object, Fields, end, field, int_text,
}
use incremental_sync_data_se.Json.Access.{int_of, item}
use incremental_sync_data_se.Domain.Checkpoint.{TableWatermark, make, Checkpoint, to_dict}

-- Python's `datetime.fromisoformat`, and its `repr` of what is not a number or a text.
pub record Python : Type 0 where
  pub fromisoformat : Text → Result Datetime
  pub repr : Value → Text

module _ (py : Python) where
  -- `str(v)`
  unfoldable pub str_of : Value → Text
  str_of (str t) = t
  str_of (int i) = int_text i
  str_of (boolean true) = codes "True"
  str_of (boolean false) = codes "False"
  str_of null = codes "None"
  str_of v = py.repr v

  -- `TableWatermark.from_dict`
  unfoldable pub watermark_from_dict : Value → Result TableWatermark
  unfolding str_of
  watermark_from_dict d = do
    updated_at ← item "updated_at" d
    t ← parse_iso_utc py.fromisoformat (str_of updated_at)
    last_pk ← item "last_pk" d
    n ← int_of last_pk
    make t n

  -- the dict comprehension
  unfoldable pub from_fields :
      Fields → Dict String TableWatermark → Result (Dict String TableWatermark)
  from_fields end d = ok d
  from_fields (field name value fields) d = do
    w ← watermark_from_dict value
    from_fields fields (Dict.insert name w d)

  -- `Checkpoint.from_dict`
  unfoldable pub from_dict : Value → Result Checkpoint
  unfolding from_fields
  from_dict (object fields) = do d ← from_fields fields []; ok (record { per_table = d })
  from_dict _ = err attribute_error

-- `Checkpoint.__eq__`, of two checkpoints; their dicts have the names in order
unfoldable pub SameCheckpoint : Checkpoint → Checkpoint → Type 0
SameCheckpoint a b = to_dict a ≡ to_dict b
