-- ===== src/FileSystem/Frame.antt =====
-- What the calls of utils/fs.py leave alone.
use incremental_sync_data_se.Base.{
  ◌≡◌, refl, true, ◌≢◌, Option, none, some, arith, ok, ◌==◌, nat_eq, list_eq, if◌then◌else◌, ap,
}
use incremental_sync_data_se.Base.Dict
use incremental_sync_data_se.Base.Dict.{lookup-insert, lookup-erase}
use incremental_sync_data_se.Machine.Tree.{
  Bytes, FilePath, Node, dir, file, Fs, node_at, exists, mkdir, os_replace, replaced, write_file,
  remove,
}

abbrev pub content : Option Node → Option Bytes
content (some (file b)) = some b
content _ = none

-- the bytes of the file at a path, if there is a file
unfoldable pub file_at : FilePath → Fs → Option Bytes
file_at q fs = content (node_at q fs)

module _ (q : FilePath) (fs : Fs) where
  pub file_at-mkdir : (p : FilePath) {fs' : Fs} → mkdir p fs ≡ ok fs' → file_at q fs' ≡ file_at q fs
  unfolding file_at mkdir
  file_at-mkdir p {fs'} h = ground (arith, lookup-insert q p dir fs)

  pub node_at-mkdir_dir :
      (p : FilePath) {fs' : Fs}
      → mkdir p fs ≡ ok fs'
      → node_at q fs ≡ some dir
      → node_at q fs' ≡ some dir
  unfolding mkdir
  node_at-mkdir_dir p {fs'} h e = ground (arith, lookup-insert q p dir fs)

  pub node_at-mkdir_present :
      (p : FilePath) {fs' : Fs} {n : Node}
      → mkdir p fs ≡ ok fs'
      → node_at q fs ≡ some n
      → node_at q fs' ≡ some n
  unfolding mkdir
  node_at-mkdir_present p {fs'} {n} h e = ground (arith, lookup-insert q p dir fs)

  pub exists-mkdir :
      (p : FilePath) {fs' : Fs} → mkdir p fs ≡ ok fs' → exists q fs ≡ true → exists q fs' ≡ true
  unfolding mkdir exists
  exists-mkdir p {fs'} h e = ground (arith, lookup-insert q p dir fs)

  pub node_at-mkdir_ne :
      (p : FilePath) {fs' : Fs} → q ≢ p → mkdir p fs ≡ ok fs' → node_at q fs' ≡ node_at q fs
  unfolding mkdir
  node_at-mkdir_ne p {fs'} ne h = ground (arith, lookup-insert q p dir fs)

  -- the directory is there afterwards, and making it again changes nothing
  pub mkdir_made : {fs' : Fs} → mkdir q fs ≡ ok fs' → node_at q fs' ≡ some dir
  unfolding mkdir
  mkdir_made {fs'} h = ground (arith, lookup-insert q q dir fs)

  pub mkdir_again : node_at q fs ≡ some dir → mkdir q fs ≡ ok fs
  unfolding mkdir
  mkdir_again h = ground arith

  pub node_at-write_file_ne :
      (p : FilePath) (b : Bytes) {fs' : Fs}
      → q ≢ p
      → write_file p b fs ≡ ok fs'
      → node_at q fs' ≡ node_at q fs
  unfolding write_file
  node_at-write_file_ne p b {fs'} n h = ground (arith, lookup-insert q p (file b) fs)

  pub node_at-remove_ne :
      (p : FilePath) {fs' : Fs} → q ≢ p → remove p fs ≡ ok fs' → node_at q fs' ≡ node_at q fs
  unfolding remove
  node_at-remove_ne p {fs'} n h = ground (arith, lookup-erase q p fs)

module _ (src dst : FilePath) (fs : Fs) where
  -- the tree after the bytes `b` moved from `src` to `dst`
  abbrev pub Moved : Bytes → Fs → Type 0
  Moved b fs' =
      (q : FilePath)
      → node_at q fs'
        ≡ (if q == dst then some (file b) else if q == src then none else node_at q fs)

  moved :
      (b : Bytes) {fs' : Fs}
      → ok (Dict.insert dst (file b) (Dict.erase src fs)) ≡ ok fs'
      → Moved b fs'
  moved b {fs'} h q =
      ground (arith, lookup-insert q dst (file b) (Dict.erase src fs), lookup-erase q src fs)

  replaced_lem :
      (s d : Option Node) {fs' : Fs}
      → replaced src dst s d fs ≡ ok fs'
      → (b : Bytes) × (s ≡ some (file b)) × (d ≢ some dir) × Moved b fs'
  replaced_lem (some (file b)) none h = (b, refl, λ e. cc, moved b h)
  replaced_lem (some (file b)) (some (file c)) h = (b, refl, λ e. cc, moved b h)
  replaced_lem (some (file b)) (some dir) h = cc
  replaced_lem none d h = cc
  replaced_lem (some dir) d h = cc

  -- What a rename does, where it succeeds: the source was a file, its bytes are at the target, and
  -- it is gone unless it is the target.
  pub os_replace_lem :
      {fs' : Fs}
      → os_replace src dst fs ≡ ok fs'
      → (b : Bytes) × (node_at src fs ≡ some (file b)) × (node_at dst fs ≢ some dir) × Moved b fs'
  unfolding os_replace
  os_replace_lem {fs'} h = replaced_lem (node_at src fs) (node_at dst fs) h

  pub node_at-os_replace_ne :
      (q : FilePath) {fs' : Fs}
      → q ≢ src
      → q ≢ dst
      → os_replace src dst fs ≡ ok fs'
      → node_at q fs' ≡ node_at q fs
  node_at-os_replace_ne q {fs'} n m h = let (b, _, _, at) = os_replace_lem h in ground (arith, at q)

  -- a directory stays a directory
  pub node_at-os_replace_dir :
      (q : FilePath) {fs' : Fs}
      → os_replace src dst fs ≡ ok fs'
      → node_at q fs ≡ some dir
      → node_at q fs' ≡ some dir
  node_at-os_replace_dir q {fs'} h e =
      let (b, was, free, at) = os_replace_lem h in
      ground (arith, at q, ap (λ (p : FilePath). node_at p fs), was, free, e)

  -- the source is gone
  pub node_at-os_replace_src :
      {fs' : Fs} → src ≢ dst → os_replace src dst fs ≡ ok fs' → node_at src fs' ≡ none
  node_at-os_replace_src {fs'} n h = let (b, _, _, at) = os_replace_lem h in ground (arith, at src)
