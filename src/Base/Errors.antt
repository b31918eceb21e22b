-- ===== src/Base/Errors.antt =====
-- What a pure function returns that may raise, and Python's exceptions by class. The messages of
-- the exceptions are not modelled.
use mathlib.Core.Path.{◌≡◌, refl}
use mathlib.Core.Logic.{◌⊎◌, inl, inr}
use mathlib.Core.Bool.{Bool, true, false}
use mathlib.Core.Option.{Option, none, some}
use mathlib.Core.List.{List, [], ◌∷◌}

pub data Error : Type 0 where
  key_error type_error value_error attribute_error runtime_error os_error : Error
  ingest_in_progress checkpoint_corrupt commit_interrupted source_query : Error
  -- `psycopg.Error`
  database_error : Error

pub data Result {ℓ} (A : Type ℓ) : Type ℓ where
  ok : A → Result A
  err : Error → Result A

infixl 5 ◌>>=◌ ◌>>◌
abbrev pub ◌>>=◌ {ℓ κ} : {A : Type ℓ} {B : Type κ} → Result A → (A → Result B) → Result B
ok value >>= next = next value
err error >>= next = err error

abbrev pub ◌>>◌ {ℓ} : {B : Type ℓ} → Result (Unit {0}) → Result B → Result B
m >> k = m >>= λ _. k

-- `if not test: raise e`
abbrev pub check : Bool → Error → Result (Unit {0})
check true e = ok tt
check false e = err e

-- `d[k]` after the lookup
abbrev pub or_raise {ℓ} : {A : Type ℓ} → Error → Option A → Result A
or_raise e none = err e
or_raise e (some a) = ok a

-- `[f(x) for x in xs]`, for an `f` that may raise
unfoldable pub traverse {ℓ κ} :
    {A : Type ℓ} {B : Type κ} → (A → Result B) → List A → Result (List B)
traverse act [] = ok []
traverse act (first ∷ rest) = act first >>= λ y. traverse act rest >>= λ ys. ok (y ∷ ys)

pub Result-cases {ℓ} :
    {A : Type ℓ} (r : Result A) → ((e : Error) × (r ≡ err e)) ⊎ ((a : A) × (r ≡ ok a))
Result-cases (ok a) = inr (a, refl)
Result-cases (err e) = inl (e, refl)

-- a computation in two parts returned: so did each part
pub bind-ok {ℓ κ} :
    {A : Type ℓ} {B : Type κ} (r : Result A) (f : A → Result B) {b : B}
    → (r >>= f) ≡ ok b
    → (a : A) × (r ≡ ok a) × (f a ≡ ok b)
bind-ok (ok a) f h = (a, refl, h)
bind-ok (err e) f h = cc

-- The same, in the order of the parts: `P` holds of what is returned if it holds of what the second
-- part returns after the first.
pub bind-each {ℓ κ μ} :
    {A : Type ℓ} {B : Type κ} (P : B → Type μ) (r : Result A) {f : A → Result B}
    → ((a : A) → r ≡ ok a → (b : B) → f a ≡ ok b → P b)
    → (b : B) → (r >>= f) ≡ ok b
    → P b
bind-each P (ok a) each b h = each a refl b h
bind-each P (err e) each b h = absurd (cc)

pub traverse-ok {ℓ κ} :
    {A : Type ℓ} {B : Type κ} (f : A → Result B) (x : A) (xs : List A) {l : List B}
    → traverse f (x ∷ xs) ≡ ok l
    → (y : B) × (ys : List B) × (f x ≡ ok y) × (traverse f xs ≡ ok ys) × (y ∷ ys ≡ l)
unfolding traverse
traverse-ok f x xs {l} h =
    let (y, first, next) = bind-ok (f x) _ h in
    let (ys, rest, e) = bind-ok (traverse f xs) _ next in (y, ys, first, rest, cc)
