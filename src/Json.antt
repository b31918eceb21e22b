-- ===== src/Json.antt =====
-- utils/jsonio.py: the values that the service serializes, and the three encoders.
-- `json.dumps` is modelled as the code calls it: sorted keys, no ASCII escapes, and either the
-- tightest separators or an indent of two. Floats and keys that are not texts are not modelled.
pub mod Order
pub mod Access
pub mod Lines
pub mod Parsed
mod Tests
use Prim.Native.Char.{code}
use incremental_sync_data_se.Base.{
  ℕ, zero, suc, ◌+◌, ◌*◌, ◌/◌, ◌%◌, String, ℤ, pos, negsuc, Bool, true, false, ◌||◌, ◌&&◌, Option,
  none, some, List, [], ◌∷◌, ◌++◌, Result, ok, err, type_error, value_error, ◌>>=◌, if◌then◌else◌,
  ltb, eqb, traverse,
}
use incremental_sync_data_se.Base.Sort.{codes, sort_by}
use incremental_sync_data_se.Time.{Text, Datetime, iso_utc_z}
use incremental_sync_data_se.Time.Print.{decimal}

mutual
  pub data Value : Type 0 where
    null : Value
    boolean : Bool → Value
    int : ℤ → Value
    str : Text → Value
    array : Items → Value
    object : Fields → Value
    datetime : Datetime → Value
    -- texts are lists of code points; a `Decimal`, by its `str()`, and `bytes` that decode to a text
    decimal_number : Text → Value
    bytes : Text → Value
    -- anything else, which no encoder takes
    opaque : Value

  pub data Items : Type 0 where
    nil : Items
    cons : Value → Items → Items

  -- a dict, in insertion order
  pub data Fields : Type 0 where
    end : Fields
    field : String → Value → Fields → Fields

abbrev hex_digit : ℕ → ℕ
hex_digit d = if ltb d 10 then b'0' + d else b'W' + d

-- one character inside a JSON text
unfoldable pub escape : ℕ → Text
escape c =
    if eqb c b'"'
    then b'\\' ∷ b'"' ∷ []
    else if eqb c b'\\'
    then b'\\' ∷ b'\\' ∷ []
    else if eqb c 10
    then b'\\' ∷ b'n' ∷ []
    else if eqb c 13
    then b'\\' ∷ b'r' ∷ []
    else if eqb c 9
    then b'\\' ∷ b't' ∷ []
    else if eqb c 12
    then b'\\' ∷ b'f' ∷ []
    else if eqb c 8
    then b'\\' ∷ b'b' ∷ []
    else if ltb c 32
    then b'\\' ∷ b'u' ∷ b'0' ∷ b'0' ∷ hex_digit (c / 16) ∷ hex_digit (c % 16) ∷ []
    else c ∷ []

abbrev pub escape_all : List ℕ → Text
escape_all [] = []
escape_all (c ∷ cs) = escape c ++ escape_all cs

unfoldable pub quote : List ℕ → Text
unfolding escape
quote cs = b'"' ∷ escape_all cs ++ b'"' ∷ []

unfoldable pub int_text : ℤ → Text
int_text (pos n) = decimal n
int_text (negsuc n) = b'-' ∷ decimal (suc n)

-- `separators=(",", ":")`, or `indent=2`
pub data Style : Type 0 where
  compact pretty : Style

abbrev spaces : ℕ → Text
spaces zero = []
spaces (suc n) = b' ' ∷ b' ' ∷ spaces n

-- the line break before an element at an indentation level
abbrev break_at : Style → ℕ → Text
break_at compact level = []
break_at pretty level = 10 ∷ spaces level

abbrev colon : Style → Text
colon compact = b':' ∷ []
colon pretty = b':' ∷ b' ' ∷ []

unfoldable pub join : Text → List Text → Text
join sep [] = []
join sep (t ∷ []) = t
join sep (t ∷ u ∷ us) = t ++ sep ++ join sep (u ∷ us)

-- the elements between brackets, each on a line of its own if the style has lines
unfoldable pub bracket : Style → ℕ → ℕ → ℕ → List Text → Text
unfolding join
bracket style level open_mark close_mark [] = open_mark ∷ close_mark ∷ []
bracket style level open_mark close_mark (t ∷ ts) =
    open_mark ∷ break_at style (suc level)
    ++ join (b',' ∷ break_at style (suc level)) (t ∷ ts)
    ++ break_at style level
    ++ close_mark ∷ []

abbrev pub Entry : Type 0
Entry = String × Result Text

abbrev pub entry_key : Entry → String
entry_key (k, _) = k

-- `"key":value`
abbrev pub entry_text : Style → Entry → Result Text
entry_text style (k, r) = do t ← r; ok (quote (codes k) ++ colon style ++ t)

-- an object, from the encodings of its values: the entries are taken by sorted keys
unfoldable pub object_text : Style → ℕ → List Entry → Result Text
unfolding quote bracket
object_text style level entries = do
  ts ← traverse (entry_text style) (sort_by entry_key entries)
  ok (bracket style level b'{' b'}' ts)

abbrev pub text_of_bool : Bool → Text
text_of_bool true = codes "true"
text_of_bool false = codes "false"

-- the encoder, with `_CanonicalEncoder.default` for what JSON has no form for
unfoldable mutual
  pub dumps : Style → ℕ → Value → Result Text
  dumps style level null = ok (codes "null")
  dumps style level (boolean b) = ok (text_of_bool b)
  dumps style level (int i) = ok (int_text i)
  dumps style level (str s) = ok (quote s)
  dumps style level (array xs) = do
    ts ← item_texts style (suc level) xs
    ok (bracket style level b'[' b']' ts)
  dumps style level (object fs) = object_text style level (entry_texts style (suc level) fs)
  dumps style level (datetime d) = do t ← iso_utc_z d; ok (quote t)
  dumps style level (decimal_number s) = ok (quote s)
  dumps style level (bytes s) = ok (quote s)
  dumps style level opaque = err type_error

  pub item_texts : Style → ℕ → Items → Result (List Text)
  item_texts style level nil = ok []
  item_texts style level (cons x xs) = do
    t ← dumps style level x
    ts ← item_texts style level xs
    ok (t ∷ ts)

  pub entry_texts : Style → ℕ → Fields → List Entry
  entry_texts style level end = []
  entry_texts style level (field k v fs) = (k, dumps style level v) ∷ entry_texts style level fs

-- `.encode("utf-8")`
abbrev pub utf8_char : ℕ → List ℕ
utf8_char c =
    if ltb c 0x80
    then c ∷ []
    else if ltb c 0x800
    then (0xc0 + c / 0x40) ∷ (0x80 + c % 0x40) ∷ []
    else if ltb c 0x10000
    then (0xe0 + c / 0x1000) ∷ (0x80 + c / 0x40 % 0x40) ∷ (0x80 + c % 0x40) ∷ []
    else (0xf0 + c / 0x40000)
      ∷ (0x80 + c / 0x1000 % 0x40)
      ∷ (0x80 + c / 0x40 % 0x40)
      ∷ (0x80 + c % 0x40)
      ∷ []

unfoldable pub encode_utf8 : Text → List ℕ
encode_utf8 [] = []
encode_utf8 (c ∷ cs) = utf8_char c ++ encode_utf8 cs

-- a code point that UTF-8 has no bytes for
abbrev is_surrogate : ℕ → Bool
is_surrogate c = ltb 55295 c && ltb c 57344

abbrev pub has_surrogate : Text → Bool
has_surrogate [] = false
has_surrogate (c ∷ cs) = is_surrogate c || has_surrogate cs

-- `t.encode("utf-8")`; `UnicodeEncodeError` is a `ValueError`
abbrev pub encode : Text → Result (List ℕ)
encode t = if has_surrogate t then err value_error else ok (encode_utf8 t)

unfoldable pub canonical_json_bytes : Value → Result (List ℕ)
canonical_json_bytes v = do t ← dumps compact 0 v; encode t

unfoldable pub canonical_json_line : Value → Result (List ℕ)
canonical_json_line v = do b ← canonical_json_bytes v; ok (b ++ 10 ∷ [])

unfoldable pub pretty_json_bytes : Value → Result (List ℕ)
pretty_json_bytes v = do t ← dumps pretty 0 v; encode (t ++ 10 ∷ [])
