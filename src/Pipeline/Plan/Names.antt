-- ===== src/Pipeline/Plan/Names.antt =====
-- Names of files that are put together from parts.
use incremental_sync_data_se.Base.{
  ℕ, zero, suc, ◌/◌, ◌≡◌, refl, arith, true, [], ◌∷◌, ◌++◌, All, All-append,
}
use incremental_sync_data_se.Base.Sort.{codes}
use incremental_sync_data_se.Time.{Text, date_text, date_of_day, micros_per_day}
use incremental_sync_data_se.Time.Print.{digits}
use incremental_sync_data_se.Machine.Tree.{FilePath, ◌/◌ as ◌//◌}
use incremental_sync_data_se.Pipeline.Plan.RoundTrip.{no_slash, IsName}

no_slash-append : (a b : Text) → no_slash a ≡ true → no_slash b ≡ true → no_slash (a ++ b) ≡ true
no_slash-append [] b h k = k
no_slash-append (c ∷ a) b h k = ground (arith, no_slash-append a b)

-- a name with something behind it
pub IsName-append :
    (a : Text) (c : ℕ) (b : Text) → IsName a → no_slash (c ∷ b) ≡ true → IsName (a ++ (c ∷ b))
IsName-append [] c b h k = absurd (h.0 refl)
IsName-append (x ∷ []) c b (_, _, h) k = (λ e. cc, λ e. cc, no_slash-append (x ∷ []) (c ∷ b) h k)
IsName-append (x ∷ y ∷ a) c b (_, _, h) k =
    (λ e. cc, λ e. cc, no_slash-append (x ∷ y ∷ a) (c ∷ b) h k)

no_slash-digits : (k n : ℕ) → no_slash (digits k n) ≡ true
unfolding digits
no_slash-digits zero n = refl
no_slash-digits (suc k) n =
    no_slash-append (digits k (n / 10)) _ (no_slash-digits k (n / 10)) (ground arith)

dashed : (y m d : ℕ) → no_slash (digits 4 y ++ b'-' ∷ digits 2 m ++ b'-' ∷ digits 2 d) ≡ true
dashed y m d =
    no_slash-append (digits 4 y ++ b'-' ∷ digits 2 m) (b'-' ∷ digits 2 d)
      (no_slash-append (digits 4 y) (b'-' ∷ digits 2 m) (no_slash-digits 4 y) (no_slash-digits 2 m))
      (no_slash-digits 2 d)

pub no_slash-date_text : (t : ℕ) → no_slash (date_text t) ≡ true
unfolding date_text
no_slash-date_text t = let d = date_of_day (t / micros_per_day) in dashed d.year d.month d.day

-- the name of a partition's directory
pub IsName-date : (key : Text) → no_slash key ≡ true → IsName (codes "date=" ++ key)
IsName-date key h = (λ e. cc, λ e. cc, no_slash-append (codes "date=") key refl h)

pub All-join : (p : FilePath) (name : Text) → All IsName p → IsName name → All IsName (p // name)
All-join p name h k = All-append IsName p (name ∷ []) h (k, tt)
