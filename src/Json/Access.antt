-- ===== src/Json/Access.antt =====
-- Python's `int`, `str` and `[]` on values.
use incremental_sync_data_se.Base.{
  ℕ, zero, suc, ◌+◌, ◌-◌, ◌*◌, String, ℤ, pos, negsuc, true, false, Option, none, some, [], ◌∷◌,
  Result, ok, err, key_error, type_error, value_error, or_raise, if◌then◌else◌, leb, ◌&&◌,
  string_eq, ◌==◌,
}
use incremental_sync_data_se.Time.{Text}
use incremental_sync_data_se.Json.{
  Value, boolean, int, str, object, Fields, end, field, decimal_number, bytes,
}

-- the value of some digits after what was read; `none` if there is another character
abbrev digits_value : ℕ → Text → Option ℕ
digits_value n [] = some n
digits_value n (c ∷ cs) =
    let rest = digits_value (n * 10 + (c - b'0')) cs in
    if leb b'0' c && leb c b'9' then rest else none

abbrev negated : ℕ → ℤ
negated zero = pos 0
negated (suc n) = negsuc n

abbrev signed : (ℕ → ℤ) → Option ℕ → Result ℤ
signed sign none = err value_error
signed sign (some n) = ok (sign n)

-- digits, with a minus sign or not; blanks, underscores, a plus sign and fractions are not modelled
abbrev int_of_text : Text → Result ℤ
int_of_text [] = err value_error
int_of_text (b ∷ []) = signed pos (digits_value 0 (b ∷ []))
int_of_text (b ∷ c ∷ cs) =
    if leb b b'-' && leb b'-' b
    then signed negated (digits_value 0 (c ∷ cs))
    else signed pos (digits_value 0 (b ∷ c ∷ cs))

-- `int(v)`
unfoldable pub int_of : Value → Result ℤ
int_of (int i) = ok i
int_of (boolean true) = ok (pos 1)
int_of (boolean false) = ok (pos 0)
int_of (str t) = int_of_text t
int_of (decimal_number t) = int_of_text t
int_of (bytes t) = int_of_text t
int_of _ = err type_error

unfoldable pub field_at : String → Fields → Option Value
field_at k end = none
field_at k (field j v fs) = if k == j then some v else field_at k fs

-- `d[k]`
unfoldable pub item : String → Value → Result Value
unfolding field_at
item k (object fs) = or_raise key_error (field_at k fs)
item k _ = err type_error
