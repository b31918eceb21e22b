-- ===== src/Pipeline/Advance.antt =====
-- pipeline/checkpoint_advance.py
pub mod Exact
pub mod Forward
pub mod Caught
use incremental_sync_data_se.Base.{
  ℕ, zero, suc, ◌+◌, ◌-◌, ◌*◌, String, ℤ, pos, negsuc, Bool, true, false, Option, none, some, List,
  [], ◌∷◌, Result, ok, err, key_error, type_error, value_error, attribute_error, ◌>>=◌, or_raise,
  traverse, last?, if◌then◌else◌, ltb, leb, ◌&&◌, string_eq,
}
use incremental_sync_data_se.Base.Dict
use incremental_sync_data_se.Base.Dict.{Dict}
use incremental_sync_data_se.Time.{Text, Datetime}
use incremental_sync_data_se.Json.Access.{int_of}
use incremental_sync_data_se.Json.{Value, int, str, boolean, datetime, decimal_number, bytes}
use incremental_sync_data_se.Domain.Checkpoint.{TableWatermark, make, Checkpoint, with_updated}
use incremental_sync_data_se.Domain.Tables.{TableSpec}
use incremental_sync_data_se.Source.{Row}
use incremental_sync_data_se.Pipeline.RunId.{RowIdentity}

-- `row[k]`
unfoldable pub cell : String → Row → Result Value
cell k row = or_raise key_error (Dict.lookup k row)

abbrev watermark_from : Value → ℤ → Result TableWatermark
watermark_from (datetime d) pk = make d pk
watermark_from _ pk = err attribute_error

-- the watermark that the last row of a delta leaves
unfoldable pub row_watermark : TableSpec → Row → Result TableWatermark
unfolding int_of cell make
row_watermark spec row = do
  updated_at ← cell "updated_at" row
  key ← cell spec.primary_key row
  pk ← int_of key
  watermark_from updated_at pk

-- one round of the loop, from the last row of the table's delta
abbrev pub advance_table :
    Dict String TableSpec → String → Option Row → Checkpoint → Result Checkpoint
advance_table specs name none cp = ok cp
advance_table specs name (some row) cp = do
  spec ← or_raise key_error (Dict.lookup name specs)
  w ← row_watermark spec row
  ok (with_updated name w cp)

unfoldable pub advance_checkpoint :
    Dict String TableSpec → Dict String (List Row) → Checkpoint → Result Checkpoint
advance_checkpoint specs [] cp = ok cp
advance_checkpoint specs ((name, rows) ∷ deltas) cp = do
  next ← advance_table specs name (last? rows) cp
  advance_checkpoint specs deltas next

abbrev row_identity : Dict String TableSpec → String → Row → Result RowIdentity
row_identity specs name row = do
  spec ← or_raise key_error (Dict.lookup name specs)
  key ← cell spec.primary_key row
  pk ← int_of key
  updated_at ← cell "updated_at" row
  ok (record { table = name; pk = pk; updated_at = updated_at })

abbrev table_identities :
    Dict String TableSpec → String × List Row → Result (String × List RowIdentity)
table_identities specs (name, rows) = do
  identities ← traverse (row_identity specs name) rows
  ok (name, identities)

unfoldable pub build_row_identities :
    Dict String TableSpec → Dict String (List Row) → Result (Dict String (List RowIdentity))
unfolding cell int_of
build_row_identities specs deltas = traverse (table_identities specs) deltas
