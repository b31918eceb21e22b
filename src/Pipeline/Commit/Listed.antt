-- ===== src/Pipeline/Commit/Listed.antt =====
-- The names that a sweep finds: one for each directory in the directory of runs, in order.
use mathlib.Core.Path.{subst}
use incremental_sync_data_se.Base.{
  ◌≡◌, refl, sym, ap, ◌∙◌, Bool, Bool-cases, true, false, ◌||◌, ◌==◌, inl, inr, Option,
  Option-cases, none, some, List, [], ◌∷◌, All, arith, nat_eq, list_eq, contains, Eq, ==_refl,
}
use incremental_sync_data_se.Base.Dict
use incremental_sync_data_se.Base.Sort.{lex_le}
use incremental_sync_data_se.Source.Sorting.{insert_with, sort_with}
use incremental_sync_data_se.Time.{Text}
use incremental_sync_data_se.Machine.Tree.{FilePath, Node, dir, file, is_dir_node, Fs, ◌/◌, node_at}
use incremental_sync_data_se.Pipeline.Commit.{name_in, dirs_among, run_dirs}

module _ {ℓ} {A : Type ℓ} ⦃e : Eq A⦄ where
  -- no element is there twice
  abbrev pub IsListedOnce : List A → Type 0
  IsListedOnce [] = Unit
  IsListedOnce (x ∷ l) = (contains l x ≡ false) × IsListedOnce l

  pub All-contains : (P : A → Type 0) (l : List A) → ((x : A) → contains l x ≡ true → P x) → All P l
  All-contains P [] h = tt
  All-contains P (x ∷ l) h =
      (h x (rw (==_refl x) refl), All-contains P l (λ y listed. h y (ground (arith, listed))))

  pub All-listed : (P : A → Type 0) (l : List A) (x : A) → All P l → contains l x ≡ true → P x
  All-listed P [] x h listed = cc
  All-listed P (y ∷ l) x h listed = elim (Bool-cases (x == y)) [
    | inl here ↦ let same : y ≡ x = ground arith in subst P same h.0
    | inr later ↦ All-listed P l x h.1 (ground (arith, listed, later))
  ]

  -- what is listed differs from what is not
  pub others :
      (a : A) (l : List A) (b : A) → contains l a ≡ false → contains l b ≡ true → (b == a) ≡ false
  others a l b new listed = elim (Bool-cases (b == a)) [
    | inl here ↦ let same : b ≡ a = ground arith in cc (ap (contains l) same, new, listed)
    | inr differ ↦ differ
  ]

  contains-insert_with :
      (le : A → A → Bool) (a : A) (l : List A) (x : A)
      → contains (insert_with le a l) x ≡ (x == a || contains l x)
  unfolding insert_with
  contains-insert_with le a [] x = refl
  contains-insert_with le a (b ∷ l) x = ground (arith, contains-insert_with le a l x)

  contains-sort_with :
      (le : A → A → Bool) (l : List A) (x : A) → contains (sort_with le l) x ≡ contains l x
  unfolding sort_with
  contains-sort_with le [] x = refl
  contains-sort_with le (a ∷ l) x =
      contains-insert_with le a (sort_with le l) x
      ∙ ap (λ (b : Bool). x == a || b) (contains-sort_with le l x)

  IsListedOnce-insert_with :
      (le : A → A → Bool) (a : A) (l : List A)
      → contains l a ≡ false
      → IsListedOnce l
      → IsListedOnce (insert_with le a l)
  unfolding insert_with
  IsListedOnce-insert_with le a [] new h = (refl, tt)
  IsListedOnce-insert_with le a (b ∷ l) new h =
      let rest = IsListedOnce-insert_with le a l (ground (arith, new)) h.1 in
      let listed = contains-insert_with le a l b in ground (arith, rest, listed)

  IsListedOnce-sort_with :
      (le : A → A → Bool) (l : List A) → IsListedOnce l → IsListedOnce (sort_with le l)
  unfolding sort_with
  IsListedOnce-sort_with le [] h = tt
  IsListedOnce-sort_with le (a ∷ l) h =
      IsListedOnce-insert_with le a (sort_with le l) (contains-sort_with le l a ∙ h.0)
        (IsListedOnce-sort_with le l h.1)

-- No path is in the tree twice.
abbrev pub IsTree : Fs → Type 0
IsTree fs = IsListedOnce (Dict.keys fs)

pub node_of_dir : (o : Option Node) → is_dir_node o ≡ true → o ≡ some dir
node_of_dir none h = cc
node_of_dir (some dir) h = refl
node_of_dir (some (file b)) h = cc

absent : (fs : Fs) (q : FilePath) → contains (Dict.keys fs) q ≡ false → node_at q fs ≡ none
unfolding Dict.keys Dict.lookup
absent [] q h = refl
absent ((k, n) ∷ fs) q h = ground (arith, absent fs q, h)

name_in_lem : (top p : FilePath) (n : Text) → name_in top p ≡ some n → p ≡ top / n
unfolding name_in
name_in_lem [] [] n h = cc
name_in_lem [] (k ∷ []) n h = cc
name_in_lem [] (k ∷ j ∷ p) n h = cc
name_in_lem (r ∷ top) [] n h = cc
name_in_lem (r ∷ top) (k ∷ p) n h = ground (arith, name_in_lem top p n, h)

name_in-join : (top : FilePath) (n : Text) → name_in top (top / n) ≡ some n
unfolding name_in
name_in-join [] n = refl
name_in-join (r ∷ top) n = ground (arith, name_in-join top n)

module _ (top : FilePath) where
  -- an entry is at a name's path only if that is its name
  same_name : (p : FilePath) (n k : Text) → name_in top p ≡ some k → (top / n == p) ≡ (n == k)
  same_name p n k e = elim (Bool-cases (n == k)) [
    | inl h ↦
        let same : n ≡ k = ground arith in
        let path : top / n ≡ p = ap (λ x. top / x) same ∙ sym (name_in_lem top p k e) in
        let both : (top / n == p) ≡ true = rw (path) (==_refl p) in both ∙ sym h
    | inr h ↦ elim (Bool-cases (top / n == p)) [
      | inl g ↦
          let path : top / n ≡ p = ground arith in
          let found : some n ≡ some k = sym (name_in-join top n) ∙ ap (name_in top) path ∙ e in
          let same : n ≡ k = cc in
          let here : (n == k) ≡ true = rw (same) (==_refl k) in absurd (cc (here, h))
      | inr g ↦ g ∙ sym h
    ]
  ]

  no_name : (p : FilePath) (n : Text) → name_in top p ≡ none → (top / n == p) ≡ false
  no_name p n e = elim (Bool-cases (top / n == p)) [
    | inl g ↦
        let path : top / n ≡ p = ground arith in
        let found : some n ≡ none = sym (name_in-join top n) ∙ ap (name_in top) path ∙ e in cc
    | inr g ↦ g
  ]

  listed_step :
      (p : FilePath) (node : Node) (fs : Fs) (n : Text)
      → contains (dirs_among top fs) n ≡ is_dir_node (node_at (top / n) fs)
      → (contains (Dict.keys fs) (top / n) ≡ false → node_at (top / n) fs ≡ none)
      → contains (Dict.keys fs) p ≡ false
      → contains (dirs_among top ((p, node) ∷ fs)) n
        ≡ is_dir_node (node_at (top / n) ((p, node) ∷ fs))
  unfolding dirs_among Dict.lookup
  listed_step p dir fs n rest gone new = elim (Option-cases (name_in top p)) [
    | inl e ↦ rw (e, no_name p n e) rest
    | inr (k, e) ↦ rw (e, same_name p n k e) (ground (arith, rest))
  ]
  listed_step p (file b) fs n rest gone new = elim (Option-cases (name_in top p)) [
    | inl e ↦ rw (e, no_name p n e) rest
    | inr (k, e) ↦
        let empty : (n == k) ≡ true → node_at (top / n) fs ≡ none = λ here.
          let path : top / n ≡ p = let h = same_name p n k e ∙ here in ground arith in
          gone (rw (path) new) in
        rw (e, same_name p n k e) (ground (arith, rest, empty))
  ]

  once_step :
      (p : FilePath) (node : Node) (fs : Fs)
      → contains (Dict.keys fs) p ≡ false
      → IsListedOnce (dirs_among top fs)
      → ((k : Text) → contains (dirs_among top fs) k ≡ is_dir_node (node_at (top / k) fs))
      → IsListedOnce (dirs_among top ((p, node) ∷ fs))
  unfolding dirs_among
  once_step p dir fs new rest listed = elim (Option-cases (name_in top p)) [
    | inl e ↦ rw e rest
    | inr (k, e) ↦
        let path : p ≡ top / k = name_in_lem top p k e in
        let gone = absent fs (top / k) (ap (contains (Dict.keys fs)) (sym path) ∙ new) in
        rw e (listed k ∙ ap is_dir_node gone, rest)
  ]
  once_step p (file b) fs new rest listed = elim (Option-cases (name_in top p)) [
    | inl e ↦ rw e rest
    | inr (k, e) ↦ rw e rest
  ]

  contains-dirs_among :
      (fs : Fs) (n : Text)
      → IsTree fs
      → contains (dirs_among top fs) n ≡ is_dir_node (node_at (top / n) fs)
  unfolding dirs_among Dict.keys Dict.lookup
  contains-dirs_among [] n h = refl
  contains-dirs_among ((p, node) ∷ fs) n h =
      listed_step p node fs n (contains-dirs_among fs n h.1) (absent fs (top / n)) h.0

  IsListedOnce-dirs_among : (fs : Fs) → IsTree fs → IsListedOnce (dirs_among top fs)
  unfolding dirs_among Dict.keys
  IsListedOnce-dirs_among [] h = tt
  IsListedOnce-dirs_among ((p, node) ∷ fs) h =
      once_step p node fs h.0 (IsListedOnce-dirs_among fs h.1) (λ k. contains-dirs_among fs k h.1)

  -- The names that the sweep finds are those of the directories, each once.
  pub contains-run_dirs :
      (fs : Fs) (n : Text)
      → IsTree fs
      → contains (run_dirs top fs) n ≡ is_dir_node (node_at (top / n) fs)
  unfolding run_dirs
  contains-run_dirs fs n h =
      contains-sort_with lex_le (dirs_among top fs) n ∙ contains-dirs_among fs n h

  pub IsListedOnce-run_dirs : (fs : Fs) → IsTree fs → IsListedOnce (run_dirs top fs)
  unfolding run_dirs
  IsListedOnce-run_dirs fs h =
      IsListedOnce-sort_with lex_le (dirs_among top fs) (IsListedOnce-dirs_among fs h)
