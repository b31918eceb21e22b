-- ===== src/Base/Sort/Sorted.antt =====
-- What sorting keeps, and that a sorted list stays.
use mathlib.Core.Path.{◌≡◌, refl, sym, ap, ◌∙◌}
use mathlib.Core.Logic.{◌≢◌}
use mathlib.Core.Bool.{true}
use mathlib.Core.List.{List, [], ◌∷◌}
use Prim.Native.String.{String}
use native.Mathlib.Omega.{arith}
use incremental_sync_data_se.Base.Lists.{All, All-weaken}
use incremental_sync_data_se.Base.Sort.{str_le, str_le_total, str_le_trans, insert_by, sort_by}

module _ {ℓ} {A : Type ℓ} (key : A → String) where
  pub All-insert_by {κ} :
      (P : A → Type κ) (a : A) (l : List A) → P a → All P l → All P (insert_by key a l)
  unfolding insert_by
  All-insert_by P a [] h hs = (h, tt)
  All-insert_by P a (b ∷ l) h hs = let rest = All-insert_by P a l h hs.1 in ground (arith)

  pub All-sort_by {κ} : (P : A → Type κ) (l : List A) → All P l → All P (sort_by key l)
  unfolding sort_by
  All-sort_by P [] h = tt
  All-sort_by P (a ∷ l) h = All-insert_by P a (sort_by key l) h.0 (All-sort_by P l h.1)

  abbrev pub Differs : A → A → Type 0
  Differs a b = key a ≢ key b

  -- No two entries have one key.
  abbrev pub Distinct : List A → Type 0
  Distinct [] = Unit
  Distinct (a ∷ l) = All (Differs a) l × Distinct l

  Distinct-insert_by :
      (a : A) (l : List A) → All (Differs a) l → Distinct l → Distinct (insert_by key a l)
  unfolding insert_by
  Distinct-insert_by a [] h d = (tt, tt)
  Distinct-insert_by a (b ∷ l) h d =
      let rest = Distinct-insert_by a l h.1 d.1 in
      let others = All-insert_by (Differs b) a l (λ p. h.0 (sym p)) d.0 in ground (arith)

  pub Distinct-sort_by : (l : List A) → Distinct l → Distinct (sort_by key l)
  unfolding sort_by
  Distinct-sort_by [] d = tt
  Distinct-sort_by (a ∷ l) d =
      Distinct-insert_by a (sort_by key l) (All-sort_by (Differs a) l d.0) (Distinct-sort_by l d.1)

  abbrev AtMost : A → A → Type 0
  AtMost a b = str_le (key a) (key b) ≡ true

  abbrev IsSorted : List A → Type 0
  IsSorted [] = Unit
  IsSorted (a ∷ l) = All (AtMost a) l × IsSorted l

  insert_by-IsSorted : (a : A) (l : List A) → IsSorted l → IsSorted (insert_by key a l)
  unfolding insert_by
  insert_by-IsSorted a [] s = (tt, tt)
  insert_by-IsSorted a (b ∷ l) s =
      let rest = insert_by-IsSorted a l s.1 in
      let beyond = λ (low : str_le (key a) (key b) ≡ true).
        All-weaken (AtMost b) (AtMost a) l (λ x. str_le_trans (key a) (key b) (key x) low) s.0 in
      let others = λ (low : str_le (key b) (key a) ≡ true). All-insert_by (AtMost b) a l low s.0 in
      ground (arith, str_le_total (key a) (key b))

  sort_by-IsSorted : (l : List A) → IsSorted (sort_by key l)
  unfolding sort_by
  sort_by-IsSorted [] = tt
  sort_by-IsSorted (a ∷ l) = insert_by-IsSorted a (sort_by key l) (sort_by-IsSorted l)

  insert_by-first : (a : A) (l : List A) → All (AtMost a) l → insert_by key a l ≡ a ∷ l
  unfolding insert_by
  insert_by-first a [] h = refl
  insert_by-first a (b ∷ l) h = rw (h.0) refl

  IsSorted-sort_by : (l : List A) → IsSorted l → sort_by key l ≡ l
  unfolding sort_by
  IsSorted-sort_by [] s = refl
  IsSorted-sort_by (a ∷ l) s =
      ap (insert_by key a) (IsSorted-sort_by l s.1) ∙ insert_by-first a l s.0

  pub sort_by-sort_by : (l : List A) → sort_by key (sort_by key l) ≡ sort_by key l
  sort_by-sort_by l = IsSorted-sort_by (sort_by key l) (sort_by-IsSorted l)
