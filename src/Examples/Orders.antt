-- ===== src/Examples/Orders.antt =====
-- An order of removal that takes one path first.
use incremental_sync_data_se.Base.{
  ◌≡◌, refl, ◌∙◌, not, ◌||◌, List, [], ◌∷◌, ◌++◌, keep, contains, arith, nat_eq, list_eq, ◌==◌,
}
use incremental_sync_data_se.Machine.Tree.{FilePath}
use incremental_sync_data_se.Pipeline.Staging.Removal.{contains-keep}

contains-append :
    (l k : List FilePath) (q : FilePath) → contains (l ++ k) q ≡ (contains l q || contains k q)
contains-append [] k q = refl
contains-append (x ∷ l) k q = ground (arith, contains-append l k q)

module _ (marker : FilePath) where
  abbrev pub order : List FilePath → List FilePath
  order l = keep (λ p. p == marker) l ++ keep (λ p. not (p == marker)) l

  pub removes_all : (l : List FilePath) (q : FilePath) → contains (order l) q ≡ contains l q
  removes_all l q =
      contains-append (keep (λ p. p == marker) l) _ q
      ∙ ground
          (arith, contains-keep (λ p. p == marker) l q, contains-keep (λ p. not (p == marker)) l q)
