-- ===== src/Json/Parsed.antt =====
-- What a parser makes of a printed value: dicts have their entries in the order of the text, which is
-- that of the sorted keys.
use incremental_sync_data_se.Base.{String, List, [], ◌∷◌}
use incremental_sync_data_se.Base.Sort.{sort_by}
use incremental_sync_data_se.Json.{
  Value, null, boolean, int, str, array, object, datetime, decimal_number, bytes, opaque, Items,
  nil, cons, Fields, end, field,
}
use incremental_sync_data_se.Domain.Checkpoint.{fields_of}

abbrev pub field_key : String × Value → String
field_key (k, _) = k

unfoldable mutual
  pub in_order : Value → Value
  in_order (array xs) = array (items_in_order xs)
  in_order (object fs) = object (fields_of (sort_by field_key (entries_in_order fs)))
  in_order null = null
  in_order (boolean b) = boolean b
  in_order (int i) = int i
  in_order (str t) = str t
  in_order (datetime d) = datetime d
  in_order (decimal_number t) = decimal_number t
  in_order (bytes t) = bytes t
  in_order opaque = opaque

  pub items_in_order : Items → Items
  items_in_order nil = nil
  items_in_order (cons v vs) = cons (in_order v) (items_in_order vs)

  pub entries_in_order : Fields → List (String × Value)
  entries_in_order end = []
  entries_in_order (field k v fs) = (k, in_order v) ∷ entries_in_order fs
