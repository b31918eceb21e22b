-- ===== src/FileSystem/Written.antt =====
-- What a write that returns has written, and what it leaves there.
use incremental_sync_data_se.Base.{
  ℕ, ◌≡◌, ◌≢◌, ap, sym, ◌∙◌, arith, some, List, [], ok, nat_eq, list_eq,
}
use incremental_sync_data_se.Base.Dict.{lookup-insert}
use incremental_sync_data_se.Machine.Tree.{
  Bytes, FilePath, Fs, Node, file, node_at, parent, file_name, write_file, os_replace, remove,
}
use incremental_sync_data_se.Machine.{
  Machine, Outcome, done, raised, crashed, M, ◌>>◌, raise, effect,
}
use incremental_sync_data_se.Machine.Keeps.{Keeps}
use incremental_sync_data_se.Machine.Restart.{bind-done, effect-done}
use incremental_sync_data_se.FileSystem.{
  ensure_dir, or_unlink, temp_file, fill_temp, write_bytes_atomic,
}
use incremental_sync_data_se.FileSystem.Frame.{
  os_replace_lem, node_at-mkdir_present, node_at-write_file_ne, node_at-remove_ne,
  node_at-os_replace_ne,
}
use incremental_sync_data_se.FileSystem.Kept.{IsPlainName, file_name-join}
use incremental_sync_data_se.FileSystem.Kept

-- a handler that raises again returns nothing
or_unlink-done :
    (tmp : FilePath) (r : Outcome (Unit {0})) (m m' : Machine)
    → or_unlink tmp (r, m) ≡ (done tt, m')
    → ◌≡◌ {A = Outcome (Unit {0}) × Machine} (r, m) (done tt, m')
or_unlink-done tmp (done a) m m' h = h
or_unlink-done tmp (raised e) m m' h =
    let (_, m₁, _, next) = bind-done (effect (remove tmp)) (λ _. raise {A = Unit {0}} e) m h in
    absurd (cc (next))
or_unlink-done tmp crashed m m' h = h

node_at-write_file :
    (p : FilePath) (b : Bytes) (fs fs' : Fs)
    → write_file p b fs ≡ ok fs'
    → node_at p fs' ≡ some (file b)
unfolding write_file
node_at-write_file p b fs fs' h = ground (arith, lookup-insert p p (file b) fs)

module _ (random_part : Fs → FilePath → List ℕ) where
  fill_temp-done :
      (tmp target : FilePath) (bytes : Bytes) (m m' : Machine)
      → fill_temp random_part tmp target bytes m ≡ (done tt, m')
      → node_at target m'.fs ≡ some (file bytes)
  unfolding fill_temp
  fill_temp-done tmp target bytes m m' h =
      let (_, m₁, first, next) =
        bind-done (effect (write_file tmp bytes)) (λ _. effect (os_replace tmp target)) m h in
      let (fs, p, wrote, e) = effect-done (write_file tmp bytes) m first in
      let (fs', p', moved, e') = effect-done (os_replace tmp target) m₁ next in
      let (b, was, _, at) = os_replace_lem tmp target m₁.fs moved in
      let there = node_at-write_file tmp bytes m.fs fs wrote in
      let here = ap (λ (w : Machine). node_at tmp w.fs) e in
      let end = ap (λ (w : Machine). node_at target w.fs) e' in
      let put : node_at target fs' ≡ some (file b) = ground (arith, at target) in
      end ∙ put ∙ sym was ∙ here ∙ there

  -- A write that returns has put the bytes at its target.
  pub write_bytes_atomic-done :
      (target : FilePath) (bytes : Bytes) (m m' : Machine)
      → write_bytes_atomic random_part target bytes m ≡ (done tt, m')
      → node_at target m'.fs ≡ some (file bytes)
  unfolding write_bytes_atomic
  write_bytes_atomic-done target bytes m m' h =
      let fill : FilePath → M (Unit {0}) =
        λ tmp m. or_unlink tmp (fill_temp random_part tmp target bytes m) in
      let (_, m₁, _, h₁) =
        bind-done (ensure_dir (parent target))
          (λ _ w.
            (effect (write_file (temp_file random_part target w.fs) [])
                >> fill (temp_file random_part target w.fs))
              w)
          m h in
      let tmp = temp_file random_part target m₁.fs in
      let (_, m₂, _, h₂) = bind-done (effect (write_file tmp [])) (λ _. fill tmp) m₁ h₁ in
      fill_temp-done tmp target bytes m₂ m' (or_unlink-done tmp _ _ m' h₂)

module _ (random_part : Fs → FilePath → List ℕ) (q : FilePath) (n : Node) (plain : IsPlainName q)
    (target : FilePath) (other : q ≢ target) where
  not_temp : (fs : Fs) → q ≢ temp_file random_part target fs
  unfolding temp_file IsPlainName
  not_temp fs same = plain _ (ap file_name same ∙ file_name-join (parent target) _)

  -- What is at another path, by a name that no temporary file has, stays there.
  pub Keeps-write_present :
      (bytes : Bytes)
      → Keeps (λ fs. node_at q fs ≡ some n) (write_bytes_atomic random_part target bytes)
  Keeps-write_present =
      Kept.Keeps-write_bytes_atomic random_part (λ fs. node_at q fs ≡ some n) target
        (λ p _ fs fs' h e. node_at-mkdir_present q fs p e h)
        (λ fs.
          let tmp = temp_file random_part target fs in
          record {
            written =
                λ bytes fs' fs'' h e. node_at-write_file_ne q fs' tmp bytes (not_temp fs) e ∙ h;
            removed = λ fs' fs'' h e. node_at-remove_ne q fs' tmp (not_temp fs) e ∙ h;
            moved =
                λ fs' fs'' h e. node_at-os_replace_ne tmp target fs' q (not_temp fs) other e ∙ h;
          })
