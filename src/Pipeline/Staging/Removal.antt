-- ===== src/Pipeline/Staging/Removal.antt =====
-- What `rmtree` leaves: uninterrupted, nothing of the tree and all else; cut off, some of the tree.
use incremental_sync_data_se.Base.{
  ◌≡◌, refl, ap, sym, ◌∙◌, ◌⊎◌, Bool-cases, Option, some, os_error, inl, inr, Bool, false, ◌&&◌,
  none, List, [], ◌∷◌, ◌++◌, arith, keep, contains, if◌then◌else◌, nat_eq, list_eq,
}
use incremental_sync_data_se.Base.Dict
use incremental_sync_data_se.Base.Dict.{lookup-erase}
use incremental_sync_data_se.Machine.Tree.{
  FilePath, Node, dir, file, is_dir_node, Fs, node_at, exists, is_under, below, remove,
}
use incremental_sync_data_se.Machine.{Machine, Outcome, raised, done, crashed, reboot}
use incremental_sync_data_se.Machine.Restart.{then-crashed, then-reboot, changed_to}
use incremental_sync_data_se.Platform.{Platform}
use incremental_sync_data_se.Pipeline.Staging.{remove_all, rmtree}

pub contains-keep :
    (p : FilePath → Bool) (l : List FilePath) (q : FilePath)
    → contains (keep p l) q ≡ (p q && contains l q)
contains-keep p [] q = ground arith
contains-keep p (x ∷ l) q = ground (arith, contains-keep p l q, ap {B = Bool} p)

contains-keys : (fs : Fs) (q : FilePath) → contains (Dict.keys fs) q ≡ exists q fs
unfolding exists Dict.keys Dict.lookup
contains-keys [] q = refl
contains-keys ((k, n) ∷ fs) q = ground (arith, contains-keys fs q)

pub contains-below :
    (top : FilePath) (fs : Fs) (q : FilePath)
    → contains (below top fs) q ≡ (is_under top q && exists q fs)
unfolding below
contains-below top fs q =
    contains-keep (is_under top) (Dict.keys fs) q
    ∙ ap (λ (b : Bool). is_under top q && b) (contains-keys fs q)

-- the tree without some paths
erased : List FilePath → Fs → Fs
erased [] fs = fs
erased (p ∷ ps) fs = erased ps (Dict.erase p fs)

node_at-erased :
    (ps : List FilePath) (fs : Fs) (q : FilePath)
    → node_at q (erased ps fs) ≡ (if contains ps q then none else node_at q fs)
unfolding erased
node_at-erased [] fs q = refl
node_at-erased (p ∷ ps) fs q =
    ground (arith, node_at-erased ps (Dict.erase p fs) q, lookup-erase q p fs)

remove_all_lem :
    (ps : List FilePath) (m : Machine)
    → remove_all ps (reboot m) ≡ (done tt, changed_to m (erased ps m.fs) none)
unfolding remove_all erased remove
remove_all_lem [] m = refl
remove_all_lem (p ∷ ps) m =
    then-reboot (remove p) (remove_all ps) m refl
    ∙ remove_all_lem ps (changed_to m (Dict.erase p m.fs) none)

contains_prefix :
    (pre rest : List FilePath) (q : FilePath)
    → contains (pre ++ rest) q ≡ false
    → contains pre q ≡ false
contains_prefix [] rest q h = refl
contains_prefix (p ∷ pre) rest q h = ground (arith, contains_prefix pre rest q)

-- A cut-off removal has removed the first of its paths.
remove_all_crashed :
    (ps : List FilePath) (m m' : Machine)
    → remove_all ps m ≡ (crashed, m')
    → (pre : List FilePath) × (rest : List FilePath) × (ps ≡ pre ++ rest)
      × (m'.fs ≡ erased pre m.fs)
unfolding remove_all erased remove
remove_all_crashed [] m m' h = cc
remove_all_crashed (p ∷ ps) m m' h = elim (then-crashed (remove p) (remove_all ps) m h) [
  | inl same ↦ ([], p ∷ ps, refl, ap (λ (w : Machine). w.fs) same)
  | inr (fs, power, made, next) ↦
      let (pre, rest, e, k) = remove_all_crashed ps (changed_to m fs power) m' next in
      let erased_p : Dict.erase p m.fs ≡ fs = cc in
      (p ∷ pre, rest, ap (◌∷◌ p) e, k ∙ ap (erased pre) (sym erased_p))
]

-- `rmtree` removes each path that it lists, in some order, and lists no other.
abbrev pub RemovesAll : Platform → Type 0
RemovesAll sys =
    (l : List FilePath) (q : FilePath) → contains (sys.removal_order l) q ≡ contains l q

-- the tree without everything at or below a root
abbrev pub IsCleared : FilePath → Fs → Fs → Type 0
IsCleared top fs fs' =
    (q : FilePath) → node_at q fs' ≡ (if is_under top q then none else node_at q fs)

dir_cases : (o : Option Node) → (o ≡ some dir) ⊎ (is_dir_node o ≡ false)
dir_cases none = inr refl
dir_cases (some dir) = inl refl
dir_cases (some (file b)) = inr refl

module _ (sys : Platform) (all : RemovesAll sys) (top : FilePath) where
  listed :
      (fs : Fs) (q : FilePath)
      → contains (sys.removal_order (below top fs)) q ≡ (is_under top q && exists q fs)
  listed fs q = all (below top fs) q ∙ contains-below top fs q

  rmtree_dir :
      (m : Machine)
      → node_at top m.fs ≡ some dir
      → rmtree sys top m ≡ remove_all (sys.removal_order (below top m.fs)) m
  unfolding rmtree
  rmtree_dir m rooted = rw rooted refl

  -- On a directory, and uninterrupted, `rmtree` removes the tree and nothing else.
  pub rmtree_clears :
      (m : Machine)
      → node_at top m.fs ≡ some dir
      → (fs : Fs) × (rmtree sys top (reboot m) ≡ (done tt, changed_to m fs none))
        × IsCleared top m.fs fs
  unfolding exists
  rmtree_clears m rooted =
      let ps = sys.removal_order (below top m.fs) in
      (
        erased ps m.fs,
        rmtree_dir (reboot m) rooted ∙ remove_all_lem ps m,
        λ q. ground (arith, node_at-erased ps m.fs q, listed m.fs q),
      )

  -- Cut off, it was on a directory.
  pub rmtree_crashed_dir :
      (m m' : Machine) → rmtree sys top m ≡ (crashed, m') → node_at top m.fs ≡ some dir
  unfolding rmtree
  rmtree_crashed_dir m m' h = elim (dir_cases (node_at top m.fs)) [
    | inl e ↦ e
    | inr e ↦
        let raises : rmtree sys top m ≡ (raised os_error, m) = rw e refl in
        absurd (let same = ap (λ (w : Outcome (Unit {0}) × Machine). w.0) (sym raises ∙ h) in cc)
  ]

  -- Cut off, it has removed part of the tree: what is outside is as it was, and a path inside is as it
  -- was or gone.
  pub rmtree_crashed :
      (m m' : Machine)
      → rmtree sys top m ≡ (crashed, m')
      → ((q : FilePath) → is_under top q ≡ false → node_at q m'.fs ≡ node_at q m.fs)
        × ((q : FilePath) → node_at q m.fs ≡ none → node_at q m'.fs ≡ none)
        × ((q : FilePath) → (node_at q m'.fs ≡ node_at q m.fs) ⊎ (node_at q m'.fs ≡ none))
  unfolding exists
  rmtree_crashed m m' h =
      let ps = sys.removal_order (below top m.fs) in
      let removing : remove_all ps m ≡ (crashed, m') =
        sym (rmtree_dir m (rmtree_crashed_dir m m' h)) ∙ h in
      let (pre, rest, split, e) = remove_all_crashed ps m m' removing in
      let at : (q : FilePath)
          → node_at q m'.fs ≡ (if contains pre q then none else node_at q m.fs) =
        λ q. ap (node_at q) e ∙ node_at-erased pre m.fs q in
      (
        λ q out.
            let unlisted : (is_under top q && exists q m.fs) ≡ false = rw out in
            let kept =
              contains_prefix pre rest q
                (sym (ap (λ (l : List FilePath). contains l q) split) ∙ listed m.fs q ∙ unlisted) in
            ground (arith, at q, kept),
        λ q gone. ground (arith, at q, gone),
        λ q. elim (Bool-cases (contains pre q)) [
          | inl e ↦ inr (at q ∙ rw (e) refl)
          | inr e ↦ inl (at q ∙ rw (e) refl)
        ],
      )
