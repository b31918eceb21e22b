-- ===== src/FileSystem/Renamed.antt =====
-- When a rename returns, and what it has done then.
use incremental_sync_data_se.Base.{
  ℕ, ◌≡◌, ◌≢◌, ap, sym, ◌∙◌, inl, inr, arith, true, false, some, Option-cases, List, [], ◌∷◌, ◌++◌,
  ok, nat_eq, list_eq,
}
use mathlib.Core.List.{append_assoc}
use incremental_sync_data_se.Base.Dict
use incremental_sync_data_se.Base.Dict.{lookup-insert}
use incremental_sync_data_se.Machine.Tree.{
  Bytes, FilePath, Fs, dir, file, ◌/◌, node_at, parent, is_under, mkdir, os_replace,
}
use incremental_sync_data_se.Machine.{Machine, Outcome, done, effect}
use incremental_sync_data_se.Machine.Keeps.{Keeps, Stays, Keeps-bind, Keeps-effect}
use incremental_sync_data_se.Machine.Restart.{bind-done, effect-done}
use incremental_sync_data_se.Machine.Returns.{Returns, Returns-pure, Returns-effect, Returns-then}
use incremental_sync_data_se.FileSystem.{make_dirs, ensure_dir, atomic_rename}
use incremental_sync_data_se.FileSystem.Frame.{
  os_replace_lem, node_at-mkdir_present, node_at-mkdir_ne,
}
use incremental_sync_data_se.FileSystem.Crash.{
  is_under-append, Keeps-make_dirs, Keeps-atomic_rename,
}

-- no file is at a path; no directory is
abbrev pub NoFile : FilePath → Fs → Type 0
NoFile q fs = (b : Bytes) → node_at q fs ≢ some (file b)

abbrev pub NoDir : FilePath → Fs → Type 0
NoDir q fs = node_at q fs ≢ some dir

-- no file stands where a directory on the way to a path is needed
abbrev pub IsPassable : FilePath → Fs → Type 0
IsPassable path fs = (q : FilePath) → is_under q path ≡ true → NoFile q fs

Stays-mkdir-NoFile : (q p : FilePath) → Stays (NoFile q) (mkdir p)
unfolding mkdir
Stays-mkdir-NoFile q p fs fs' h e b found = ground (arith, lookup-insert q p dir fs, h b)

Stays-mkdir-NoDir : (q p : FilePath) → q ≢ p → Stays (NoDir q) (mkdir p)
Stays-mkdir-NoDir q p other fs fs' h e found = h (sym (node_at-mkdir_ne q fs p other e) ∙ found)

made : (p : FilePath) (fs : Fs) → NoFile p fs → (fs' : Fs) × (mkdir p fs ≡ ok fs')
unfolding mkdir
made p fs free = elim (Option-cases (node_at p fs)) [
  | inl e ↦ (Dict.insert p dir fs, ground (arith, e))
  | inr (dir, e) ↦ (fs, ground (arith, e))
  | inr (file b, e) ↦ absurd (free b e)
]

-- What the directories on the way to a path keep, when they can all be made.
Returns-make_dirs :
    (P : Fs → Type 0) (base : FilePath) (names : List (List ℕ))
    → ((p : FilePath) → is_under p (base ++ names) ≡ true → Stays P (mkdir p))
    → Returns (λ fs. IsPassable (base ++ names) fs × P fs) P (make_dirs base names)
unfolding make_dirs
Returns-make_dirs P base [] k = Returns-pure (λ fs h. h.1)
Returns-make_dirs P base (name ∷ names) k =
    let shift = append_assoc base (name ∷ []) names in
    let on : is_under (base / name) (base ++ name ∷ names) ≡ true =
      rw (← shift) (is_under-append (base / name) names) in
    Returns-then (effect (mkdir (base / name))) (make_dirs (base / name) names)
      (Returns-effect (mkdir (base / name)) (λ fs h.
        let (fs', e) = made (base / name) fs (h.0 (base / name) on) in
        (
          fs',
          e,
          (
            λ q under. Stays-mkdir-NoFile q (base / name) fs fs' (h.0 q (rw (← shift) under)) e,
            k (base / name) on fs fs' h.1 e,
          ),
        )))
      (Returns-make_dirs P (base / name) names (λ p h. k p (rw (← shift) h)))

module _ (src dst : FilePath) where
  moved :
      (fs : Fs) {b : Bytes}
      → node_at src fs ≡ some (file b)
      → NoDir dst fs
      → (fs' : Fs) × (os_replace src dst fs ≡ ok fs')
  unfolding os_replace
  moved fs {b} was free = elim (Option-cases (node_at dst fs)) [
    | inl e ↦ (Dict.insert dst (file b) (Dict.erase src fs), ground (arith, e, was))
    | inr (dir, e) ↦ absurd (free e)
    | inr (file c, e) ↦ (Dict.insert dst (file b) (Dict.erase src fs), ground (arith, e, was))
  ]

  -- A rename returns if its source is a file, the way to its target is passable, and the target is no
  -- directory.
  pub Returns-atomic_rename :
      {b : Bytes}
      → is_under dst (parent dst) ≡ false
      → Returns
          (λ fs. IsPassable (parent dst) fs × (NoDir dst fs × (node_at src fs ≡ some (file b))))
          (λ fs. Unit {0})
          (atomic_rename src dst)
  unfolding atomic_rename ensure_dir
  Returns-atomic_rename {b} above =
      let Ready : Fs → Type 0 = λ fs. NoDir dst fs × (node_at src fs ≡ some (file b)) in
      Returns-then {R = Ready} (make_dirs [] (parent dst)) (effect (os_replace src dst))
        (Returns-make_dirs Ready [] (parent dst) (λ p on fs fs' h e. (
          Stays-mkdir-NoDir dst p
              (λ same. cc (on, above, ap (λ (q : FilePath). is_under q (parent dst)) same)) fs fs'
              h.0 e,
          node_at-mkdir_present src fs p e h.1,
        )))
        (Returns-effect (os_replace src dst)
          (λ fs h. let (fs', e) = moved fs h.1 h.0 in (fs', e, tt)))

  -- A rename that returns has moved the file.
  pub atomic_rename-done :
      (m m' : Machine) {b : Bytes}
      → atomic_rename src dst m ≡ (done tt, m')
      → node_at src m.fs ≡ some (file b)
      → node_at dst m'.fs ≡ some (file b)
  unfolding atomic_rename ensure_dir
  atomic_rename-done m m' {b} h was =
      let (_, m₁, first, next) =
        bind-done (make_dirs [] (parent dst)) (λ _. effect (os_replace src dst)) m h in
      let (fs, p, renamed, e) = effect-done (os_replace src dst) m₁ next in
      let (c, here, _, at) = os_replace_lem src dst m₁.fs renamed in
      let kept =
        (Keeps-make_dirs (λ t. node_at src t ≡ some (file b)) [] (parent dst)
            (λ q _ t t' k made. node_at-mkdir_present src t q made k)).at
          m was in
      let same : node_at src m₁.fs ≡ some (file b) =
        ap (λ (w : Outcome (Unit {0}) × Machine). node_at src w.1.fs) (sym first) ∙ kept in
      let put : node_at dst fs ≡ some (file c) = ground (arith, at dst) in
      ap (λ (w : Machine). node_at dst w.fs) e ∙ put ∙ sym here ∙ same

  -- The way to another path stays passable, and a path that is not on the way stays no directory.
  pub Keeps-atomic_rename-NoFile :
      (q : FilePath) → q ≢ dst → Keeps (NoFile q) (atomic_rename src dst)
  Keeps-atomic_rename-NoFile q other =
      Keeps-atomic_rename src dst _ (λ p _. Stays-mkdir-NoFile q p)
        (λ fs fs' h e b found.
          let (c, _, _, at) = os_replace_lem src dst fs e in ground (arith, at q, h b))

  pub Keeps-atomic_rename-NoDir :
      (q : FilePath) → is_under q (parent dst) ≡ false → Keeps (NoDir q) (atomic_rename src dst)
  unfolding atomic_rename ensure_dir
  Keeps-atomic_rename-NoDir q above =
      Keeps-bind _ _
        (Keeps-make_dirs (NoDir q) [] (parent dst) (λ p on.
          Stays-mkdir-NoDir q p
            (λ same. cc (on, above, ap (λ (t : FilePath). is_under t (parent dst)) same))))
        (λ _. Keeps-effect (os_replace src dst) (λ fs fs' h e found.
          let (c, _, _, at) = os_replace_lem src dst fs e in ground (arith, at q, h)))
