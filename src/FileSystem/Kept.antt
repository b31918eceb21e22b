-- ===== src/FileSystem/Kept.antt =====
-- What `write_bytes_atomic` keeps: whatever its calls keep.
use incremental_sync_data_se.Base.{ℕ, ◌≡◌, ◌≢◌, refl, ap, ◌∙◌, true, false, none, List, [], ◌∷◌}
use incremental_sync_data_se.Machine.Tree.{
  Bytes, FilePath, Fs, ◌/◌, parent, file_name, is_under, node_at, mkdir, write_file, remove,
  os_replace,
}
use incremental_sync_data_se.Machine.{Machine, Outcome, done, raised, crashed, ◌>>◌, effect}
use incremental_sync_data_se.Machine.Keeps.{Keeps, Stays, Keeps-bind, Keeps-raise, Keeps-effect}
use incremental_sync_data_se.FileSystem.{
  ensure_dir, or_unlink, temp_file, fill_temp, write_bytes_atomic,
}
use incremental_sync_data_se.FileSystem.Crash.{Keeps-make_dirs, is_under-parent, is_under_refl}
use incremental_sync_data_se.FileSystem.Frame.{
  node_at-mkdir_ne, node_at-write_file_ne, node_at-remove_ne, node_at-os_replace_ne,
}

-- a temporary file whose changes keep `P`
pub record IsFree (P : Fs → Type 0) (tmp target : FilePath) : Type 0 where
  pub written : (bytes : Bytes) → Stays P (write_file tmp bytes)
  pub removed : Stays P (remove tmp)
  pub moved : Stays P (os_replace tmp target)

module _ (random_part : Fs → FilePath → List ℕ) (P : Fs → Type 0) (target : FilePath)
    (dirs : (p : FilePath) → is_under p (parent target) ≡ true → Stays P (mkdir p))
    (free : (fs : Fs) → IsFree P (temp_file random_part target fs) target) where
  unlinked :
      (tmp : FilePath) (r : Outcome (Unit {0})) (m : Machine)
      → IsFree P tmp target
      → P m.fs
      → P (or_unlink tmp (r, m)).1.fs
  unlinked tmp (done a) m f h = h
  unlinked tmp (raised e) m f h =
      (Keeps-bind _ _ (Keeps-effect (remove tmp) f.removed) (λ _. Keeps-raise e)).at m h
  unlinked tmp crashed m f h = h

  filled :
      (tmp : FilePath) (bytes : Bytes)
      → IsFree P tmp target
      → Keeps P (
          effect (write_file tmp []) >> λ m.
          or_unlink tmp (fill_temp random_part tmp target bytes m))
  unfolding fill_temp
  filled tmp bytes f =
      let fill =
        Keeps-bind _ _ (Keeps-effect (write_file tmp bytes) (f.written bytes))
          (λ _. Keeps-effect (os_replace tmp target) f.moved) in
      Keeps-bind _ _ (Keeps-effect (write_file tmp []) (f.written [])) (λ _. record {
        at = λ m h.
            let (r, m') = fill_temp random_part tmp target bytes m in
            unlinked tmp r m' f (fill.at m h);
      })

  pub Keeps-write_bytes_atomic :
      (bytes : Bytes) → Keeps P (write_bytes_atomic random_part target bytes)
  unfolding write_bytes_atomic ensure_dir
  Keeps-write_bytes_atomic bytes = Keeps-bind _ _ (Keeps-make_dirs _ [] (parent target) dirs) (λ _.
      record { at = λ m h. (filled (temp_file random_part target m.fs) bytes (free m.fs)).at m h })

-- nothing is at a path
abbrev pub Absent : FilePath → Fs → Type 0
Absent q fs = node_at q fs ≡ none

pub file_name-join : (p : FilePath) (name : List ℕ) → file_name (p / name) ≡ name
unfolding file_name
file_name-join [] name = refl
file_name-join (x ∷ []) name = refl
file_name-join (x ∷ y ∷ p) name = file_name-join (y ∷ p) name

-- a path whose name does not start with a dot
unfoldable pub IsPlainName : FilePath → Type 0
IsPlainName q = (name : List ℕ) → file_name q ≢ b'.' ∷ name

pub Stays-mkdir : (q p : FilePath) → q ≢ p → Stays (Absent q) (mkdir p)
Stays-mkdir q p differ fs fs' h e = node_at-mkdir_ne q fs p differ e ∙ h

module _ (random_part : Fs → FilePath → List ℕ) (q : FilePath) (plain : IsPlainName q)
    (target : FilePath) (apart : is_under q target ≡ false) where
  not_target : q ≢ target
  not_target same = cc (apart, ap (is_under q) same, is_under_refl q)

  not_above : (p : FilePath) → is_under p (parent target) ≡ true → q ≢ p
  not_above p h same = cc (apart, is_under-parent q target (rw (same) h))

  not_temp : (fs : Fs) → q ≢ temp_file random_part target fs
  unfolding temp_file IsPlainName
  not_temp fs same = plain _ (ap file_name same ∙ file_name-join (parent target) _)

  -- A path that is not at or above a target is not made by writing the target.
  pub Keeps-write-Absent :
      (bytes : Bytes) → Keeps (Absent q) (write_bytes_atomic random_part target bytes)
  Keeps-write-Absent =
      Keeps-write_bytes_atomic random_part (Absent q) target
        (λ p h. Stays-mkdir q p (not_above p h))
        (λ fs.
          let tmp = temp_file random_part target fs in
          record {
            written =
                λ bytes fs' fs'' h e. node_at-write_file_ne q fs' tmp bytes (not_temp fs) e ∙ h;
            removed = λ fs' fs'' h e. node_at-remove_ne q fs' tmp (not_temp fs) e ∙ h;
            moved = λ fs' fs'' h e.
                node_at-os_replace_ne tmp target fs' q (not_temp fs) not_target e ∙ h;
          })
