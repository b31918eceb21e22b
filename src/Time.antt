-- ===== src/Time.antt =====
-- Timestamps as `datetime` values, and how utils/jsonio.py and the lake writer print them.
-- An aware datetime is given by its instant, in microseconds since 0001-01-01T00:00:00Z: its offset
-- matters only to `astimezone(timezone.utc)`, which the code applies before every use. A naive one
-- has a wall clock and no instant.
pub mod Print
pub mod Parse
mod Tests
use incremental_sync_data_se.Base.{
  ℕ, ◌+◌, ◌-◌, ◌*◌, ◌/◌, ◌%◌, Bool, ◌&&◌, ◌||◌, not, List, [], ◌∷◌, ◌++◌, Result, ok, err,
  value_error, if◌then◌else◌, leb, eqb,
}
use Print.{digits}

pub data Datetime : Type 0 where
  naive : ℕ → Datetime
  aware : ℕ → Datetime

abbrev pub Text : Type 0
Text = List ℕ

pub record Date : Type 0 where
  pub year : ℕ
  pub month : ℕ
  pub day : ℕ

abbrev at_most : ℕ → ℕ → ℕ
at_most k n = if leb n k then n else k

-- the month of a day of the year, and the day of the month, from the lengths of the months
abbrev month_from : ℕ → ℕ → List ℕ → ℕ → Date
month_from year month [] doy = record { year = year; month = month; day = doy + 1 }
month_from year month (n ∷ ns) doy =
    let later = month_from year (month + 1) ns (doy - n) in
    if leb n doy then later else record { year = year; month = month; day = doy + 1 }

abbrev month_lengths : Bool → List ℕ
month_lengths leap =
    31 ∷ (if leap then 29 else 28) ∷ 31 ∷ 30 ∷ 31 ∷ 30 ∷ 31 ∷ 31 ∷ 30 ∷ 31 ∷ 30 ∷ []

-- the date of a day, counted from 0001-01-01
unfoldable pub date_of_day : ℕ → Date
date_of_day n =
    let y400 = n / 146097 in
    let r400 = n % 146097 in
    let y100 = at_most 3 (r400 / 36524) in
    let r100 = r400 - y100 * 36524 in
    let y4 = r100 / 1461 in
    let r4 = r100 % 1461 in
    let y1 = at_most 3 (r4 / 365) in
    let leap = eqb y1 3 && (not (eqb y4 24) || eqb y100 3) in
    month_from (y400 * 400 + y100 * 100 + y4 * 4 + y1 + 1) 1 (month_lengths leap) (r4 - y1 * 365)

abbrev pub micros_per_day : ℕ
micros_per_day = 86400000000

-- `YYYY-MM-DD`
unfoldable pub date_text : ℕ → Text
unfolding date_of_day
date_text t =
    let d = date_of_day (t / micros_per_day) in
    digits 4 d.year ++ b'-' ∷ digits 2 d.month ++ b'-' ∷ digits 2 d.day

unfoldable pub micros_text : ℕ → Text
micros_text u = if eqb u 0 then [] else b'.' ∷ digits 6 u

-- `HH:MM:SS`, and the microseconds if there are any
unfoldable pub time_text : ℕ → Text
unfolding micros_text
time_text t =
    let u = t % micros_per_day in
    let s = u / 1000000 in
    digits 2 (s / 3600)
    ++ b':' ∷ digits 2 (s / 60 % 60)
    ++ b':' ∷ digits 2 (s % 60)
    ++ micros_text (u % 1000000)

-- The offset that `isoformat` prints for UTC, `+00:00`, is the one place that `replace` finds.
unfoldable pub iso_utc_z : Datetime → Result Text
unfolding date_text time_text
iso_utc_z (naive _) = err value_error
iso_utc_z (aware t) = ok (date_text t ++ b'T' ∷ time_text t ++ b'Z' ∷ [])
