-- ===== src/FileSystem/Crash.antt =====
-- The calls of utils/fs.py that a commit makes, when the power fails: what they keep, and that the
-- same call, made again by the next process, ends as if it had not been interrupted.
use mathlib.Core.List.{append_assoc}
use mathlib.Core.Path.{subst}
use incremental_sync_data_se.Base.{
  ℕ, ◌≡◌, refl, ap, sym, ◌∙◌, ◌≢◌, true, false, Option, none, some, List, [], ◌∷◌, ◌++◌, arith, inl,
  inr, ok, nat_eq, list_eq, ==_refl,
}
use incremental_sync_data_se.Machine.Tree.{
  Bytes, FilePath, Node, dir, Fs, ◌/◌, node_at, parent, is_under, mkdir, os_replace,
}
use incremental_sync_data_se.Machine.{
  Machine, Outcome, done, crashed, M, continue, ◌>>◌, effect, reboot,
}
use incremental_sync_data_se.Machine.Keeps.{Keeps, Stays, Keeps-pure, Keeps-bind, Keeps-effect}
use incremental_sync_data_se.Machine.Restart.{
  bind_of_done, bind-done, then-done, then-crashed, then-reboot, changed_to, bind-crashed,
  effect-done, effect-crashed, Steady, Steady-pure, Steady-bind, Steady-effect,
}
use incremental_sync_data_se.FileSystem.{make_dirs, ensure_dir, atomic_rename}
use incremental_sync_data_se.FileSystem.Frame.{
  file_at, file_at-mkdir, node_at-mkdir_dir, node_at-mkdir_present, node_at-mkdir_ne, mkdir_made,
  mkdir_again, node_at-os_replace_ne, node_at-os_replace_src, content, os_replace_lem,
}

-- a path is at or below itself, and what is below a path's parent is below the path
pub is_under-append : (p rest : FilePath) → is_under p (p ++ rest) ≡ true
unfolding is_under
is_under-append [] rest = refl
is_under-append (x ∷ p) rest = rw ==_refl (is_under-append p rest)

pub is_under_refl : (p : FilePath) → is_under p p ≡ true
unfolding is_under
is_under_refl [] = refl
is_under_refl (x ∷ p) = rw ==_refl (is_under_refl p)

pub is_under-parent : (q p : FilePath) → is_under q (parent p) ≡ true → is_under q p ≡ true
unfolding is_under parent
is_under-parent [] p h = refl
is_under-parent (y ∷ q) [] h = cc
is_under-parent (y ∷ q) (x ∷ []) h = cc
is_under-parent (y ∷ q) (x ∷ z ∷ p) h = ground (arith, is_under-parent q (z ∷ p))

-- `make_dirs` keeps what each directory on the way keeps.
pub Keeps-make_dirs :
    (P : Fs → Type 0) (base : FilePath) (names : List (List ℕ))
    → ((p : FilePath) → is_under p (base ++ names) ≡ true → Stays P (mkdir p))
    → Keeps P (make_dirs base names)
unfolding make_dirs
Keeps-make_dirs P base [] k = Keeps-pure tt
Keeps-make_dirs P base (name ∷ names) k =
    let shift = append_assoc base (name ∷ []) names in
    Keeps-bind _ _
      (Keeps-effect _ (k (base / name) (rw (← shift) (is_under-append (base / name) names))))
      (λ _. Keeps-make_dirs P (base / name) names (λ p h. k p (rw (← shift) h)))

Steady-make_dirs : (base : FilePath) (names : List (List ℕ)) → Steady (make_dirs base names)
unfolding make_dirs
Steady-make_dirs base [] = Steady-pure tt
Steady-make_dirs base (name ∷ names) =
    Steady-bind _ _ (Steady-effect _) (λ _. Steady-make_dirs (base / name) names)

pub Steady-atomic_rename : (src dst : FilePath) → Steady (atomic_rename src dst)
unfolding atomic_rename ensure_dir
Steady-atomic_rename src dst =
    Steady-bind _ _ (Steady-make_dirs [] (parent dst)) (λ _. Steady-effect _)

-- A directory that is there stays there.
Keeps-make_dirs_dir :
    (q base : FilePath) (names : List (List ℕ))
    → Keeps (λ fs. node_at q fs ≡ some dir) (make_dirs base names)
Keeps-make_dirs_dir q base names =
    Keeps-make_dirs _ base names (λ p _ fs fs' e h. node_at-mkdir_dir q fs p h e)

-- What `make_dirs` found made is there when it returns or is cut off.
made_stays :
    {r : Outcome (Unit {0})} (q base : FilePath) (names : List (List ℕ)) (m m' : Machine)
    → make_dirs base names m ≡ (r, m')
    → node_at q m.fs ≡ some dir
    → mkdir q m'.fs ≡ ok m'.fs
made_stays {r} q base names m m' h there =
    let kept = (Keeps-make_dirs_dir q base names).at m there in
    mkdir_again q m'.fs (sym (ap (λ (w : Outcome (Unit {0}) × Machine). node_at q w.1.fs) h) ∙ kept)

-- Directories that were made are not made again.
make_dirs_again :
    (base : FilePath) (names : List (List ℕ)) (m m' : Machine)
    → make_dirs base names m ≡ (done tt, m')
    → make_dirs base names (reboot m') ≡ (done tt, reboot m')
unfolding make_dirs
make_dirs_again base [] m m' h = refl
make_dirs_again base (name ∷ names) m m' h =
    let q = base / name in
    let (fs, p, made, next) = then-done (mkdir q) (make_dirs q names) m h in
    then-reboot (mkdir q) (make_dirs q names) m'
      (made_stays q q names (changed_to m fs p) m' next (mkdir_made q m.fs made))
    ∙ make_dirs_again q names (changed_to m fs p) m' next

-- `make_dirs`, cut off and made again.
make_dirs_restart :
    (base : FilePath) (names : List (List ℕ)) (m m' : Machine)
    → make_dirs base names m ≡ (crashed, m')
    → make_dirs base names (reboot m') ≡ make_dirs base names (reboot m)
unfolding make_dirs
make_dirs_restart base [] m m' h = cc
make_dirs_restart base (name ∷ names) m m' h =
    let q = base / name in
    elim (then-crashed (mkdir q) (make_dirs q names) m h) [
      | inl same ↦ ap (λ (w : Machine). make_dirs base (name ∷ names) (reboot w)) same
      | inr (fs, p, made, next) ↦
          then-reboot (mkdir q) (make_dirs q names) m'
            (made_stays q q names (changed_to m fs p) m' next (mkdir_made q m.fs made))
          ∙ make_dirs_restart q names (changed_to m fs p) m' next
          ∙ sym (then-reboot (mkdir q) (make_dirs q names) m made)
    ]

module _ (src dst : FilePath) where
  -- A rename that was cut off ends, when it is made again, as it would have ended.
  pub atomic_rename_restart :
      (m m' : Machine)
      → atomic_rename src dst m ≡ (crashed, m')
      → atomic_rename src dst (reboot m') ≡ atomic_rename src dst (reboot m)
  unfolding atomic_rename ensure_dir
  atomic_rename_restart m m' h =
      let dirs = make_dirs [] (parent dst) in
      let move : M (Unit {0}) = effect (os_replace src dst) in
      elim (bind-crashed dirs (λ _. move) m h) [
        | inl c ↦
            ap (λ (r : Outcome (Unit {0}) × Machine). continue r.0 (λ _. move) r.1)
              (make_dirs_restart [] (parent dst) m m' c)
        | inr (_, m₁, first, next) ↦
            ap (λ (w : Machine). (dirs >> move) (reboot w)) (effect-crashed _ m₁ next)
            ∙ bind_of_done dirs (λ _. move) (reboot m₁) (make_dirs_again [] (parent dst) m m₁ first)
            ∙ sym (
                bind_of_done dirs (λ _. move) (reboot m)
                  ((Steady-make_dirs [] (parent dst)).at m tt m₁ first))
      ]

  -- A rename that was cut off has made directories at most.
  pub atomic_rename_crashed :
      (P : Fs → Type 0)
      → ((p : FilePath) → Stays P (mkdir p))
      → (m m' : Machine) → atomic_rename src dst m ≡ (crashed, m')
      → P m.fs
      → P m'.fs
  unfolding atomic_rename ensure_dir
  atomic_rename_crashed P made m m' h p =
      let dirs = make_dirs [] (parent dst) in
      let move : M (Unit {0}) = effect (os_replace src dst) in
      let kept = (Keeps-make_dirs P [] (parent dst) (λ q _. made q)).at m p in
      elim (bind-crashed dirs (λ _. move) m h) [
        | inl c ↦ subst (λ (r : Outcome (Unit {0}) × Machine). P r.1.fs) c kept
        | inr (_, m₁, first, next) ↦
            subst (λ (w : Machine). P w.fs) (sym (effect-crashed _ m₁ next))
              (subst (λ (r : Outcome (Unit {0}) × Machine). P r.1.fs) first kept)
      ]

  -- Nothing but the two files and the directories above the target changes.
  pub Keeps-atomic_rename :
      (P : Fs → Type 0)
      → ((p : FilePath) → is_under p dst ≡ true → Stays P (mkdir p))
      → Stays P (os_replace src dst)
      → Keeps P (atomic_rename src dst)
  unfolding atomic_rename ensure_dir
  Keeps-atomic_rename P made moved =
      Keeps-bind _ _ (Keeps-make_dirs P [] (parent dst) (λ p h. made p (is_under-parent p dst h)))
        (λ _. Keeps-effect _ moved)

  absent_after :
      (q : FilePath) (fs : Fs) {fs' : Fs}
      → os_replace src dst fs ≡ ok fs'
      → is_under q dst ≡ false
      → node_at q fs ≡ none
      → node_at q fs' ≡ none
  absent_after q fs {fs'} e apart h =
      let (b, _, _, at) = os_replace_lem src dst fs e in
      ground (arith, at q, h, is_under_refl dst, ap (λ (t : FilePath). is_under t dst), apart)

  -- A path that is not there, and is not on the way to the target, is not there afterwards.
  pub Keeps-atomic_rename_absent :
      (q : FilePath)
      → is_under q dst ≡ false
      → Keeps (λ fs. node_at q fs ≡ none) (atomic_rename src dst)
  Keeps-atomic_rename_absent q apart =
      Keeps-atomic_rename _
        (λ p on fs fs' h e.
          node_at-mkdir_ne q fs p
            (λ same. cc (on, apart, ap (λ (t : FilePath). is_under t dst) same)) e
          ∙ h)
        (λ fs fs' h e. absent_after q fs e apart h)

  -- Every other path that is there stays as it is.
  pub Keeps-atomic_rename_node :
      (q : FilePath) {n : Node}
      → q ≢ src
      → q ≢ dst
      → Keeps (λ fs. node_at q fs ≡ some n) (atomic_rename src dst)
  Keeps-atomic_rename_node q {n} a b =
      Keeps-atomic_rename _ (λ p _ fs fs' h e. node_at-mkdir_present q fs p e h)
        (λ fs fs' h e. node_at-os_replace_ne src dst fs q a b e ∙ h)

  -- The bytes of every other file stay.
  pub Keeps-atomic_rename_file :
      (q : FilePath) {b : Option Bytes}
      → q ≢ src
      → q ≢ dst
      → Keeps (λ fs. file_at q fs ≡ b) (atomic_rename src dst)
  unfolding file_at
  Keeps-atomic_rename_file q {b} n k =
      Keeps-atomic_rename _ (λ p _ fs fs' h e. file_at-mkdir q fs p e ∙ h)
        (λ fs fs' h e. ap content (node_at-os_replace_ne src dst fs q n k e) ∙ h)

  -- Once the rename has returned, the staged file is gone.
  pub atomic_rename_src :
      src ≢ dst
      → (m m' : Machine) → atomic_rename src dst m ≡ (done tt, m')
      → node_at src m'.fs ≡ none
  unfolding atomic_rename
  atomic_rename_src n m m' h =
      let (_, m₁, _, next) =
        bind-done (ensure_dir (parent dst)) (λ _. effect (os_replace src dst)) m h in
      let (fs, p, moved, e) = effect-done (os_replace src dst) m₁ next in
      ap (λ (w : Machine). node_at src w.fs) e ∙ node_at-os_replace_src src dst m₁.fs n moved
