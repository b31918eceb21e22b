-- ===== src/Time/Parse.antt =====
-- `parse_iso_utc` of utils/jsonio.py. `datetime.fromisoformat` is Python's, and a parameter.
use incremental_sync_data_se.Base.{
  ℕ, ◌≡◌, refl, ap, ◌∙◌, [], ◌∷◌, ◌++◌, Result, ok, ◌>>=◌, if◌then◌else◌, eqb,
}
use incremental_sync_data_se.Base.Sort.{codes}
use incremental_sync_data_se.Time.{Text, Datetime, naive, aware, date_text, time_text, iso_utc_z}

-- a text with `+00:00` in place of a `Z` at its end
unfoldable pub with_offset : Text → Text
with_offset [] = []
with_offset (c ∷ []) = if eqb c b'Z' then codes "+00:00" else c ∷ []
with_offset (c ∷ d ∷ s) = c ∷ with_offset (d ∷ s)

-- a wall clock without an offset is taken to be UTC
abbrev pub in_utc : Datetime → Datetime
in_utc (naive t) = aware t
in_utc (aware t) = aware t

unfoldable pub parse_iso_utc : (Text → Result Datetime) → Text → Result Datetime
unfolding with_offset
parse_iso_utc fromisoformat s = do dt ← fromisoformat (with_offset s); ok (in_utc dt)

-- `isoformat()` of an instant in UTC
unfoldable pub isoformat : ℕ → Text
isoformat t = date_text t ++ b'T' ∷ time_text t ++ codes "+00:00"

with_offset-append : (s : Text) → with_offset (s ++ b'Z' ∷ []) ≡ s ++ codes "+00:00"
unfolding with_offset
with_offset-append [] = refl
with_offset-append (c ∷ []) = refl
with_offset-append (c ∷ d ∷ s) = ap (λ l. c ∷ l) (with_offset-append (d ∷ s))

-- What was printed is read back, if `fromisoformat` reads what `isoformat` prints for the instant.
pub parse_iso_utc-iso_utc_z :
    (fromisoformat : Text → Result Datetime) (t : ℕ)
    → fromisoformat (isoformat t) ≡ ok (aware t)
    → (iso_utc_z (aware t) >>= parse_iso_utc fromisoformat) ≡ ok (aware t)
unfolding iso_utc_z parse_iso_utc isoformat
parse_iso_utc-iso_utc_z fromisoformat t reads =
    ap (λ s. fromisoformat s >>= λ dt. ok (in_utc dt))
      (with_offset-append (date_text t ++ b'T' ∷ time_text t))
    ∙ rw (reads) refl
