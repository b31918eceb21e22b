-- ===== src/FileSystem.antt =====
-- utils/fs.py. `fsync` changes nothing that a later read sees, and is left out.
pub mod Frame
pub mod Within
pub mod Crash
pub mod StagedWriter
pub mod Kept
pub mod Written
pub mod Renamed
use incremental_sync_data_se.Base.{ℕ, Bool, true, false, List, [], ◌∷◌, ◌++◌, Error, ok, err, ◌≡◌}
use incremental_sync_data_se.Base.Sort.{codes}
use incremental_sync_data_se.Machine.Tree.{
  Bytes, FilePath, Fs, ◌/◌, parent, file_name, mkdir, os_replace, write_file, remove,
}
use incremental_sync_data_se.Machine.{
  Machine, Outcome, done, raised, crashed, M, ◌>>=◌, ◌>>◌, pure, raise, gets, effect,
}

-- The directories on the way down from `base`, each made if it is missing.
unfoldable pub make_dirs : FilePath → List (List ℕ) → M (Unit {0})
make_dirs base [] = pure tt
make_dirs base (name ∷ names) = do effect (mkdir (base / name)); make_dirs (base / name) names

-- `path.mkdir(parents=True, exist_ok=True)`
unfoldable pub ensure_dir : FilePath → M (Unit {0})
ensure_dir path = make_dirs [] path

-- The `except` clause of `write_bytes_atomic`: the temporary file goes, and the error goes on.
abbrev pub or_unlink : FilePath → Outcome (Unit {0}) × Machine → Outcome (Unit {0}) × Machine
or_unlink tmp (raised e, m) = (effect (remove tmp) >> raise e) m
or_unlink tmp (r, m) = (r, m)

-- The random part of the names that `tempfile.mkstemp` makes, which depends on what is there.
module _ (random_part : Fs → FilePath → List ℕ) where
  unfoldable pub temp_file : FilePath → Fs → FilePath
  temp_file target fs =
      parent target / (b'.' ∷ file_name target ++ b'.' ∷ random_part fs target ++ codes ".tmp")

  unfoldable pub fill_temp : FilePath → FilePath → Bytes → M (Unit {0})
  fill_temp tmp target bytes = do effect (write_file tmp bytes); effect (os_replace tmp target)

  unfoldable pub write_bytes_atomic : FilePath → Bytes → M (Unit {0})
  write_bytes_atomic target bytes = do
    ensure_dir (parent target)
    tmp ← gets (temp_file target)
    effect (write_file tmp [])
    λ m. or_unlink tmp (fill_temp tmp target bytes m)

unfoldable pub atomic_rename : FilePath → FilePath → M (Unit {0})
atomic_rename src dst = do ensure_dir (parent dst); effect (os_replace src dst)
