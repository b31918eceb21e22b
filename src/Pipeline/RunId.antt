-- ===== src/Pipeline/RunId.antt =====
-- pipeline/run_id.py and pipeline/fingerprint.py: the names of runs and of schemas.
pub mod Bounds
use incremental_sync_data_se.Base.{
  ℕ, zero, suc, String, ℤ, List, [], ◌∷◌, Result, ok, err, value_error, attribute_error, ◌>>=◌,
  ◌>>◌, check, traverse, ◌&&◌, leb,
}
use incremental_sync_data_se.Base.Dict.{Dict}
use incremental_sync_data_se.Base.Sort.{codes}
use incremental_sync_data_se.Time.{Text, iso_utc_z}
use incremental_sync_data_se.Json.{
  Value, str, int, array, object, datetime, null, boolean, decimal_number, bytes, opaque, Items,
  nil, cons, Fields, end, field, canonical_json_bytes,
}
use incremental_sync_data_se.Machine.Tree.{Bytes}
use incremental_sync_data_se.Domain.Checkpoint.{fields_of}
use incremental_sync_data_se.Domain.Tables.{TableSpec, Column}

-- `updated_at` is what the row holds; it is checked when it is printed
pub record RowIdentity : Type 0 where
  pub table : String
  pub pk : ℤ
  pub updated_at : Value

unfoldable pub iso_of_value : Value → Result Text
iso_of_value (datetime d) = iso_utc_z d
iso_of_value _ = err attribute_error

unfoldable pub to_canonical_dict : RowIdentity → Result Value
unfolding iso_of_value
to_canonical_dict r = do
  t ← iso_of_value r.updated_at
  ok (
      object (
        field "table" (str (codes r.table))
          (field "pk" (int r.pk) (field "updated_at" (str t) end))))

unfoldable mutual
  pub normalize_value : Value → Result Value
  normalize_value (object fs) = do gs ← normalize_fields fs; ok (object gs)
  normalize_value (array xs) = do ys ← normalize_items xs; ok (array ys)
  normalize_value (datetime d) = do t ← iso_utc_z d; ok (str t)
  normalize_value null = ok null
  normalize_value (boolean b) = ok (boolean b)
  normalize_value (int i) = ok (int i)
  normalize_value (str s) = ok (str s)
  normalize_value (decimal_number s) = ok (decimal_number s)
  normalize_value (bytes s) = ok (bytes s)
  normalize_value opaque = ok opaque

  pub normalize_items : Items → Result Items
  normalize_items nil = ok nil
  normalize_items (cons x xs) = do y ← normalize_value x; ys ← normalize_items xs; ok (cons y ys)

  pub normalize_fields : Fields → Result Fields
  normalize_fields end = ok end
  normalize_fields (field k v fs) = do
    w ← normalize_value v
    gs ← normalize_fields fs
    ok (field k w gs)

-- `_normalize_checkpoint`, of a dict
unfoldable pub normalize_checkpoint : Value → Result Value
unfolding normalize_value
normalize_checkpoint (object fs) = normalize_value (object fs)
normalize_checkpoint _ = err attribute_error

abbrev pub items_of : List Value → Items
items_of [] = nil
items_of (v ∷ vs) = cons v (items_of vs)

abbrev identity_entry : String × List RowIdentity → Result (String × Value)
identity_entry (name, identities) = do
  vs ← traverse to_canonical_dict identities
  ok (name, array (items_of vs))

-- `text[:n]`
unfoldable pub prefix : ℕ → Text → Text
prefix zero t = []
prefix (suc n) [] = []
prefix (suc n) (c ∷ t) = c ∷ prefix n t

-- what `compute_run_id` hashes
unfoldable pub run_id_payload : Value → Dict String (List RowIdentity) → Result Value
unfolding normalize_checkpoint to_canonical_dict
run_id_payload checkpoint_before table_deltas = do
  before ← normalize_checkpoint checkpoint_before
  tables ← traverse identity_entry table_deltas
  ok (object (field "checkpoint_before" before (field "tables" (object (fields_of tables)) end)))

module _ (hexdigest : Bytes → Text) where
  unfoldable pub compute_run_id : Value → Dict String (List RowIdentity) → ℕ → Result Text
  compute_run_id checkpoint_before table_deltas hex_prefix_len = do
    check (leb 8 hex_prefix_len && leb hex_prefix_len 64) value_error
    payload ← run_id_payload checkpoint_before table_deltas
    blob ← canonical_json_bytes payload
    ok (prefix hex_prefix_len (hexdigest blob))

-- what `compute_schema_fingerprint` hashes
abbrev column_items : List Column → Items
column_items [] = nil
column_items (c ∷ cs) =
    cons (object (field "name" (str (codes c.name)) (field "type" (str (codes c.pg_type)) end)))
      (column_items cs)

unfoldable pub fingerprint_payload : TableSpec → Value
fingerprint_payload t =
    object
      (field "table" (str (codes t.name)) (field "columns" (array (column_items t.columns)) end))

module _ (hexdigest : Bytes → Text) where
  unfoldable pub compute_schema_fingerprint : TableSpec → ℕ → Result Text
  compute_schema_fingerprint t hex_prefix_len = do
    check (leb 8 hex_prefix_len && leb hex_prefix_len 64) value_error
    blob ← canonical_json_bytes (fingerprint_payload t)
    ok (prefix hex_prefix_len (hexdigest blob))
