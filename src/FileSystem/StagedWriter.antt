-- ===== src/FileSystem/StagedWriter.antt =====
-- `staged_writer` of utils/fs.py: the caller writes the temporary file.
use incremental_sync_data_se.Base.{
  ℕ, ◌≡◌, refl, ap, Option, some, Option-cases, List, [], inl, inr, Result, ok, err, os_error,
  nat_eq, list_eq, ==_refl,
}
use mathlib.Core.Path.{fun_ext}
use incremental_sync_data_se.Base.Dict.{lookup-insert}
use incremental_sync_data_se.Machine.Tree.{
  Bytes, FilePath, Fs, Node, file, node_at, parent, os_replace, write_file,
}
use incremental_sync_data_se.Machine.{Machine, M, ◌>>=◌, ◌>>◌, lift, gets, effect, spend}
use incremental_sync_data_se.FileSystem.{
  ensure_dir, or_unlink, temp_file, fill_temp, write_bytes_atomic,
}

-- `open(tmp, "rb+")`, which raises if there is no file
abbrev opens : Option Node → Result (Unit {0})
opens (some (file _)) = ok tt
opens _ = err os_error

-- the `try` block, around what the caller does with the path
unfoldable pub fill_staged : FilePath → FilePath → (FilePath → M (Unit {0})) → M (Unit {0})
fill_staged tmp target body = do
  body tmp
  node ← gets (node_at tmp)
  lift (opens node)
  effect (os_replace tmp target)

module _ (random_part : Fs → FilePath → List ℕ) where
  -- `with staged_writer(target) as tmp: body(tmp)`
  unfoldable pub staged_writer : FilePath → (FilePath → M (Unit {0})) → M (Unit {0})
  unfolding fill_staged
  staged_writer target body = do
    ensure_dir (parent target)
    tmp ← gets (temp_file random_part target)
    effect (write_file tmp [])
    λ m. or_unlink tmp (fill_staged tmp target body m)

  fill_staged-write_file :
      (tmp target : FilePath) (bytes : Bytes) (m : Machine)
      → fill_staged tmp target (λ p. effect (write_file p bytes)) m
        ≡ fill_temp random_part tmp target bytes m
  unfolding fill_staged fill_temp effect write_file
  fill_staged-write_file tmp target bytes m = elim (Option-cases (spend m.power)) [
    | inl q ↦ rw (q) refl
    | inr (p, q) ↦ rw (q, lookup-insert tmp tmp (file bytes) m.fs, ==_refl tmp) refl
  ]

  -- A caller that writes the temporary file whole gets what `write_bytes_atomic` does, in every
  -- state of the machine, wherever it is cut off.
  pub staged_writer-write_bytes_atomic :
      (target : FilePath) (bytes : Bytes)
      → staged_writer target (λ tmp. effect (write_file tmp bytes))
        ≡ write_bytes_atomic random_part target bytes
  unfolding staged_writer write_bytes_atomic
  staged_writer-write_bytes_atomic target bytes =
      let start : (FilePath → M (Unit {0})) → M (Unit {0}) = λ fill. (do
        ensure_dir (parent target)
        tmp ← gets (temp_file random_part target)
        effect (write_file tmp [])
        λ m. or_unlink tmp (fill tmp m)) in
      ap start (fun_ext (λ tmp. fun_ext (fill_staged-write_file tmp target bytes)))
