-- ===== src/Base/Sort.antt =====
-- Python's order of texts, by code points, and `sorted` by a key that is a text.
pub mod Sorted
use Prim.Native.Nat.{ℕ}
use Prim.Native.Char.{code}
use Prim.Native.String.{String}
use text.Mathlib.TextEquality.{Char-path}
use mathlib.Core.Path.{◌≡◌, refl, ap₂}
use mathlib.Core.Logic.{◌≢◌}
use mathlib.Core.Bool.{Bool, true, false}
use mathlib.Core.List.{List, [], ◌∷◌}
use native.Mathlib.Omega.{arith}
use incremental_sync_data_se.Base.Equality.{if◌then◌else◌}
use incremental_sync_data_se.Base.Tests.{ltb, eqb}

-- the code points of a text
abbrev pub codes : String → List ℕ
codes String.[] = []
codes (String.◌∷◌ c s) = code c ∷ codes s

pub codes-injective : (s t : String) → codes s ≡ codes t → s ≡ t
codes-injective String.[] String.[] h = refl
codes-injective String.[] (String.◌∷◌ d t) h = cc
codes-injective (String.◌∷◌ c s) String.[] h = cc
codes-injective (String.◌∷◌ c s) (String.◌∷◌ d t) h =
    ap₂ String.◌∷◌ (Char-path c d (cc)) (codes-injective s t (cc))

unfoldable pub lex_le : List ℕ → List ℕ → Bool
lex_le [] ys = true
lex_le (x ∷ xs) [] = false
lex_le (x ∷ xs) (y ∷ ys) =
    let rest = lex_le xs ys in if ltb x y then true else if eqb x y then rest else false

pub lex_le_total : (xs ys : List ℕ) → lex_le xs ys ≡ false → lex_le ys xs ≡ true
unfolding lex_le
lex_le_total [] ys h = cc
lex_le_total (x ∷ xs) [] h = refl
lex_le_total (x ∷ xs) (y ∷ ys) h = ground (arith, lex_le_total xs ys)

lex_le_antisym : (xs ys : List ℕ) → lex_le xs ys ≡ true → lex_le ys xs ≡ true → xs ≡ ys
unfolding lex_le
lex_le_antisym [] [] h k = refl
lex_le_antisym [] (y ∷ ys) h k = cc
lex_le_antisym (x ∷ xs) [] h k = cc
lex_le_antisym (x ∷ xs) (y ∷ ys) h k = ground (arith, lex_le_antisym xs ys)

pub lex_le_trans :
    (xs ys zs : List ℕ) → lex_le xs ys ≡ true → lex_le ys zs ≡ true → lex_le xs zs ≡ true
unfolding lex_le
lex_le_trans [] ys zs h k = refl
lex_le_trans (x ∷ xs) [] zs h k = cc
lex_le_trans (x ∷ xs) (y ∷ ys) [] h k = cc
lex_le_trans (x ∷ xs) (y ∷ ys) (z ∷ zs) h k = ground (arith, lex_le_trans xs ys zs)

-- `s <= t`
unfoldable pub str_le : String → String → Bool
unfolding lex_le
str_le s t = lex_le (codes s) (codes t)

pub str_le_total : (s t : String) → str_le s t ≡ false → str_le t s ≡ true
unfolding str_le
str_le_total s t = lex_le_total (codes s) (codes t)

pub str_le_antisym : (s t : String) → str_le s t ≡ true → str_le t s ≡ true → s ≡ t
unfolding str_le
str_le_antisym s t h k = codes-injective s t (lex_le_antisym (codes s) (codes t) h k)

pub str_le_trans : (r s t : String) → str_le r s ≡ true → str_le s t ≡ true → str_le r t ≡ true
unfolding str_le
str_le_trans r s t = lex_le_trans (codes r) (codes s) (codes t)

module _ {ℓ} {A : Type ℓ} (key : A → String) where
  unfoldable pub insert_by : A → List A → List A
  insert_by a [] = a ∷ []
  insert_by a (b ∷ l) = if str_le (key a) (key b) then a ∷ b ∷ l else b ∷ insert_by a l

  -- `sorted(l, key=key)`
  unfoldable pub sort_by : List A → List A
  unfolding insert_by
  sort_by [] = []
  sort_by (a ∷ l) = insert_by a (sort_by l)

  -- Two entries with different keys may be put in place in either order.
  pub insert_by_comm :
      (a b : A) (l : List A)
      → key a ≢ key b
      → insert_by a (insert_by b l) ≡ insert_by b (insert_by a l)
  unfolding insert_by
  insert_by_comm a b [] n =
      ground (arith, str_le_total (key a) (key b), str_le_antisym (key a) (key b), n)
  insert_by_comm a b (c ∷ l) n = ground (
    arith,
    str_le_total (key a) (key b),
    str_le_antisym (key a) (key b),
    n,
    str_le_trans (key a) (key b) (key c),
    str_le_trans (key b) (key a) (key c),
    insert_by_comm a b l n,
  )
