-- ===== src/FileSystem/Within.antt =====
-- `write_bytes_atomic` under a directory touches no file outside it, however it ends.
use incremental_sync_data_se.Base.{
  ℕ, ◌≡◌, ◌≢◌, refl, ap, ◌∙◌, arith, true, false, nat_eq, list_eq, ◌==◌, Option, List, [], ◌∷◌,
  ◌++◌,
}
use incremental_sync_data_se.Machine.Tree.{Bytes, FilePath, Fs, ◌/◌, parent, is_under}
use incremental_sync_data_se.Machine.Keeps.{Keeps}
use incremental_sync_data_se.FileSystem.{temp_file, write_bytes_atomic}
use incremental_sync_data_se.FileSystem.Frame.{
  file_at, file_at-mkdir, node_at-write_file_ne, node_at-remove_ne, node_at-os_replace_ne, content,
}
use incremental_sync_data_se.FileSystem.Crash.{is_under-parent}
use incremental_sync_data_se.FileSystem.Kept

pub is_under-extend :
    (top p rest : FilePath) → is_under top p ≡ true → is_under top (p ++ rest) ≡ true
unfolding is_under
is_under-extend [] p rest h = refl
is_under-extend (x ∷ top) [] rest h = cc
is_under-extend (x ∷ top) (y ∷ p) rest h = ground (arith, is_under-extend top p rest)

pub is_under_trans :
    (top dir p : FilePath) → is_under top dir ≡ true → is_under dir p ≡ true → is_under top p ≡ true
unfolding is_under
is_under_trans [] dir p h k = refl
is_under_trans (x ∷ top) [] p h k = cc
is_under_trans (x ∷ top) (y ∷ dir) [] h k = cc
is_under_trans (x ∷ top) (y ∷ dir) (z ∷ p) h k = ground (arith, is_under_trans top dir p)

pub parent-join : (p : FilePath) (name : List ℕ) → parent (p / name) ≡ p
unfolding parent
parent-join [] name = refl
parent-join (x ∷ []) name = refl
parent-join (x ∷ y ∷ p) name = ap (◌∷◌ x) (parent-join (y ∷ p) name)

-- the directory of a file below a path that lies below a directory
pub is_under-parent_join :
    (top p : FilePath) (name : List ℕ)
    → is_under top p ≡ true
    → is_under top (parent (p / name)) ≡ true
is_under-parent_join top p name h = ap (is_under top) (parent-join p name) ∙ h

-- A path below one name in a directory is not below another.
pub siblings :
    (top : FilePath) (a b : List ℕ) (x : FilePath)
    → (b == a) ≡ false
    → is_under (top / a) x ≡ true
    → is_under (top / b) x ≡ false
unfolding is_under
siblings [] a b [] n h = refl
siblings [] a b (y ∷ x) n h = ground arith
siblings (t ∷ top) a b [] n h = refl
siblings (t ∷ top) a b (y ∷ x) n h = ground (arith, siblings top a b x n)

-- A directory is not below what is in it.
pub not_inside : (top : FilePath) (a : List ℕ) → is_under (top / a) top ≡ false
unfolding is_under
not_inside [] a = refl
not_inside (t ∷ top) a = ground (arith, not_inside top a)

-- Neither of two paths is at or below the other.
pub record AreDisjoint (a b : FilePath) : Type 0 where
  pub out : is_under a b ≡ false
  pub back : is_under b a ≡ false

out-extend :
    (a b rest : FilePath)
    → is_under a b ≡ false
    → is_under b a ≡ false
    → is_under a (b ++ rest) ≡ false
unfolding is_under
out-extend [] b rest h k = cc
out-extend (x ∷ a) [] rest h k = cc
out-extend (x ∷ a) (y ∷ b) rest h k = ground (arith, out-extend a b rest)

back-extend : (a b rest : FilePath) → is_under b a ≡ false → is_under (b ++ rest) a ≡ false
unfolding is_under
back-extend a [] rest h = cc
back-extend [] (y ∷ b) rest h = refl
back-extend (x ∷ a) (y ∷ b) rest h = ground (arith, back-extend a b rest)

-- What is below a path that is disjoint from another is disjoint from it.
pub AreDisjoint-extend : (a b rest : FilePath) → AreDisjoint a b → AreDisjoint a (b ++ rest)
AreDisjoint-extend a b rest d = record {
  out = out-extend a b rest d.out d.back;
  back = back-extend a b rest d.back;
}

module _ (random_part : Fs → FilePath → List ℕ) (top : FilePath) (q : FilePath)
    (outside : is_under top q ≡ false) where
  apart : (p : FilePath) → is_under top p ≡ true → q ≢ p
  apart p h same = cc (h, outside, ap (is_under top) same)

  -- A file below a directory is written without touching a file outside it, however the write ends.
  pub Keeps-write_bytes_atomic :
      {b : Option Bytes} (target : FilePath) (bytes : Bytes)
      → is_under top (parent target) ≡ true
      → Keeps (λ fs. file_at q fs ≡ b) (write_bytes_atomic random_part target bytes)
  unfolding file_at temp_file
  Keeps-write_bytes_atomic {b} target bytes under =
      let ut = is_under-parent top target under in
      let away : (fs : Fs) → q ≢ temp_file random_part target fs =
        λ fs. apart _ (is_under-extend top (parent target) _ under) in
      Kept.Keeps-write_bytes_atomic random_part (λ fs. file_at q fs ≡ b) target
        (λ p _ fs fs' h e. file_at-mkdir q fs p e ∙ h)
        (λ fs.
          let tmp = temp_file random_part target fs in
          record {
            written = λ blob fs' fs'' h e.
                ap content (node_at-write_file_ne q fs' tmp blob (away fs) e) ∙ h;
            removed = λ fs' fs'' h e. ap content (node_at-remove_ne q fs' tmp (away fs) e) ∙ h;
            moved = λ fs' fs'' h e.
                ap content (node_at-os_replace_ne tmp target fs' q (away fs) (apart target ut) e)
                ∙ h;
          })
        bytes
