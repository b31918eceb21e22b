-- ===== src/Source/Sorting.antt =====
-- Insertion sort by an order that is given as a test, and its laws.
use mathlib.Core.Path.{subst}
use mathlib.Core.Option.{some-injective}
use incremental_sync_data_se.Base.{
  ◌&&◌, ◌||◌, keep, Bool-cases, inl, inr, Bool, true, false, ◌≡◌, refl, ap, ◌∙◌, List, [], ◌∷◌,
  ◌++◌, arith, All, All-weaken, last?, some, if◌then◌else◌,
}

module _ {ℓ} {A : Type ℓ} (le : A → A → Bool) where
  unfoldable pub insert_with : A → List A → List A
  insert_with a [] = a ∷ []
  insert_with a (b ∷ l) = let rest = insert_with a l in if le a b then a ∷ b ∷ l else b ∷ rest

  unfoldable pub sort_with : List A → List A
  unfolding insert_with
  sort_with [] = []
  sort_with (a ∷ l) = insert_with a (sort_with l)

  abbrev pub IsSorted : List A → Type 0
  IsSorted [] = Unit
  IsSorted (x ∷ l) = All (λ y. le x y ≡ true) l × IsSorted l

module _ {ℓ} {A : Type ℓ} (le : A → A → Bool) (P : A → Type 0) where
  -- Sorting keeps what holds of every element, and adds no element.
  All-insert_with : (a : A) (l : List A) → P a → All P l → All P (insert_with le a l)
  unfolding insert_with
  All-insert_with a [] p h = (p, tt)
  All-insert_with a (b ∷ l) p h = ground (arith, All-insert_with a l p h.1)

  pub All-sort_with : (l : List A) → All P l → All P (sort_with le l)
  unfolding sort_with
  All-sort_with [] h = tt
  All-sort_with (a ∷ l) h = All-insert_with a (sort_with le l) h.0 (All-sort_with l h.1)

  All-back-insert_with : (a : A) (l : List A) → All P (insert_with le a l) → P a × All P l
  unfolding insert_with
  All-back-insert_with a [] h = h
  All-back-insert_with a (b ∷ l) h = ground (arith, All-back-insert_with a l)

  -- Sorting loses no element.
  pub All-back-sort_with : (l : List A) → All P (sort_with le l) → All P l
  unfolding sort_with
  All-back-sort_with [] h = tt
  All-back-sort_with (a ∷ l) h =
      let (p, rest) = All-back-insert_with a (sort_with le l) h in (p, All-back-sort_with l rest)

-- What holds of every element holds of the last.
pub All-last? {ℓ} :
    {A : Type ℓ} (P : A → Type 0) (l : List A) {r : A} → All P l → last? l ≡ some r → P r
All-last? P [] h e = cc
All-last? P (x ∷ []) h e = subst P (cc) h.0
All-last? P (x ∷ y ∷ l) h e = All-last? P (y ∷ l) h.1 e

module _ {ℓ} {A : Type ℓ} where
  pub All-keep : (p : A → Bool) (l : List A) → All (λ x. p x ≡ true) (keep p l)
  All-keep p [] = tt
  All-keep p (x ∷ l) = elim (Bool-cases (p x)) [
    | inl e ↦ rw e (e, All-keep p l)
    | inr e ↦ rw e (All-keep p l)
  ]

  pub keep_congr : (p q : A → Bool) (l : List A) → ((x : A) → p x ≡ q x) → keep p l ≡ keep q l
  keep_congr p q [] h = refl
  keep_congr p q (x ∷ l) h = rw (h x, keep_congr p q l h)

  pub keep-keep : (p q : A → Bool) (l : List A) → keep p (keep q l) ≡ keep (λ x. p x && q x) l
  keep-keep p q [] = refl
  keep-keep p q (x ∷ l) = ground (arith, keep-keep p q l)

module _ {ℓ} {A : Type ℓ} (le : A → A → Bool) where
  insert_with_low :
      (a : A) (xs ys : List A)
      → All (λ y. le a y ≡ true) ys
      → insert_with le a (xs ++ ys) ≡ insert_with le a xs ++ ys
  unfolding insert_with
  insert_with_low a [] [] h = refl
  insert_with_low a [] (y ∷ ys) h = rw h.0
  insert_with_low a (x ∷ xs) ys h = ground (arith, insert_with_low a xs ys h)

  insert_with_high :
      (a : A) (xs ys : List A)
      → All (λ x. le a x ≡ false) xs
      → insert_with le a (xs ++ ys) ≡ xs ++ insert_with le a ys
  unfolding insert_with
  insert_with_high a [] ys h = refl
  insert_with_high a (x ∷ xs) ys h = rw (h.0, insert_with_high a xs ys h.1)

  -- A list whose low elements all precede its high ones is sorted part by part.
  module _ (low high : A → Bool)
      (apart : (a b : A) → low a ≡ true → high b ≡ true → (le a b ≡ true) × (le b a ≡ false)) where
    low_first :
        (a : A) (l : List A) → low a ≡ true → All (λ y. le a y ≡ true) (sort_with le (keep high l))
    low_first a l e =
        All-sort_with le _ (keep high l)
          (All-weaken _ _ (keep high l) (λ y h. (apart a y e h).0) (All-keep high l))

    high_last :
        (b : A) (l : List A) → high b ≡ true → All (λ x. le b x ≡ false) (sort_with le (keep low l))
    high_last b l e =
        All-sort_with le _ (keep low l)
          (All-weaken _ _ (keep low l) (λ x h. (apart x b h e).1) (All-keep low l))

    never_both : (a : A) → low a ≡ true → high a ≡ true → ⊥
    never_both a h k = let (t, f) = apart a a h k in cc (t, f)

    pub sort_with-split :
        (l : List A)
        → sort_with le (keep (λ x. low x || high x) l)
          ≡ sort_with le (keep low l) ++ sort_with le (keep high l)
    unfolding sort_with
    sort_with-split [] = refl
    sort_with-split (x ∷ l) = elim (Bool-cases (low x)) [
      | inl e ↦ elim (Bool-cases (high x)) [
        | inl k ↦ absurd (never_both x e k)
        | inr k ↦
            rw (e, k)
              (ap (insert_with le x) (sort_with-split l)
                ∙ insert_with_low x _ (sort_with le (keep high l)) (low_first x l e))
      ]
      | inr e ↦ elim (Bool-cases (high x)) [
        | inl k ↦
            rw (e, k)
              (ap (insert_with le x) (sort_with-split l)
                ∙ insert_with_high x (sort_with le (keep low l)) _ (high_last x l k))
        | inr k ↦ rw (e, k) (sort_with-split l)
      ]
    ]

module _ {ℓ} {A : Type ℓ} (le : A → A → Bool) (total : (a b : A) → le a b ≡ false → le b a ≡ true)
    (trans : (a b c : A) → le a b ≡ true → le b c ≡ true → le a c ≡ true) where
  IsSorted-insert_with : (a : A) (l : List A) → IsSorted le l → IsSorted le (insert_with le a l)
  unfolding insert_with
  IsSorted-insert_with a [] h = (tt, tt)
  IsSorted-insert_with a (b ∷ l) h = elim (Bool-cases (le a b)) [
    | inl e ↦ rw e ((e, All-weaken _ _ l (λ y. trans a b y e) h.0), h)
    | inr e ↦ rw e (All-insert_with le _ a l (total a b e) h.0, IsSorted-insert_with a l h.1)
  ]

  pub IsSorted-sort_with : (l : List A) → IsSorted le (sort_with le l)
  unfolding sort_with
  IsSorted-sort_with [] = tt
  IsSorted-sort_with (a ∷ l) = IsSorted-insert_with a (sort_with le l) (IsSorted-sort_with l)

  le_refl : (a : A) → le a a ≡ true
  le_refl a = elim (Bool-cases (le a a)) [ inl e ↦ e | inr e ↦ total a a e ]

  -- The last element of a sorted list is the greatest.
  pub last?-greatest :
      (l : List A) {r : A} → IsSorted le l → last? l ≡ some r → All (λ y. le y r ≡ true) l
  last?-greatest [] h e = tt
  last?-greatest (x ∷ []) {r} h e = (rw (← some-injective x r e) (le_refl x), tt)
  last?-greatest (x ∷ y ∷ l) {r} h e =
      let rest = last?-greatest (y ∷ l) h.1 e in (trans x y r h.0.0 rest.0, rest)
