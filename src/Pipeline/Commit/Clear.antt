-- ===== src/Pipeline/Commit/Clear.antt =====
-- When the renames of a plan return.
use incremental_sync_data_se.Base.{
  ◌≡◌, ◌≢◌, ap, ◌∙◌, inl, inr, true, false, some, List, [], ◌∷◌, All, All-weaken, All-both,
  Bool-cases,
}
use incremental_sync_data_se.Machine.Tree.{
  Bytes, FilePath, Fs, Node, file, dir, node_at, exists, parent, is_under,
}
use incremental_sync_data_se.Machine.{reboot}
use incremental_sync_data_se.Machine.Keeps.{Keeps, Keeps-pure, Keeps-gets, Keeps-if, Keeps-bind}
use incremental_sync_data_se.Machine.Returns.{Returns, Returns-pure, Returns-then, Returns-Keeps}
use incremental_sync_data_se.FileSystem.Crash.{is_under-parent}
use incremental_sync_data_se.FileSystem.Renamed.{
  NoFile, NoDir, IsPassable, Returns-atomic_rename, Keeps-atomic_rename-NoFile,
  Keeps-atomic_rename-NoDir,
}
use incremental_sync_data_se.Pipeline.Plan.{CommitStep}
use incremental_sync_data_se.Pipeline.Commit.{execute_step, execute_steps}
use incremental_sync_data_se.Pipeline.Commit.Crash.{some_node}
use incremental_sync_data_se.Pipeline.Commit.Steps.{
  Apart, IsSeparate, execute_step_there, execute_step_gone,
}

-- No file is where a directory above the live path is needed, and no directory at either path.
pub record IsClear (fs : Fs) (s : CommitStep) : Type 0 where
  pub way : IsPassable (parent s.live_path) fs
  pub live_free : NoDir s.live_path fs
  pub staged_free : NoDir s.staged_path fs

-- No step's target is at or above the directory of another's or of its own.
abbrev pub NotAbove : FilePath → CommitStep → Type 0
NotAbove live t = is_under live (parent t.live_path) ≡ false

abbrev pub IsOpen : List CommitStep → Type 0
IsOpen steps = All (λ (s : CommitStep). All (NotAbove s.live_path) steps) steps

Keeps-execute_step-NoFile :
    (q : FilePath) (s : CommitStep) → q ≢ s.live_path → Keeps (NoFile q) (execute_step s)
unfolding execute_step
Keeps-execute_step-NoFile q s other = Keeps-bind _ _ (Keeps-gets (exists s.staged_path)) (λ found.
    Keeps-if found _ _ (Keeps-atomic_rename-NoFile s.staged_path s.live_path q other)
      (Keeps-pure tt))

Keeps-execute_step-NoDir :
    (q : FilePath) (s : CommitStep)
    → is_under q (parent s.live_path) ≡ false
    → Keeps (NoDir q) (execute_step s)
unfolding execute_step
Keeps-execute_step-NoDir q s above = Keeps-bind _ _ (Keeps-gets (exists s.staged_path)) (λ found.
    Keeps-if found _ _ (Keeps-atomic_rename-NoDir s.staged_path s.live_path q above)
      (Keeps-pure tt))

not_under_parent : (q p : FilePath) → is_under q p ≡ false → is_under q (parent p) ≡ false
not_under_parent q p h = elim (Bool-cases (is_under q (parent p))) [
  | inl e ↦ cc (is_under-parent q p e, h)
  | inr e ↦ e
]

-- A step leaves the way of another clear.
Keeps-execute_step-IsClear :
    (s t : CommitStep)
    → NotAbove s.live_path t
    → NotAbove t.live_path s
    → Apart t.staged_path s
    → Keeps (λ fs. IsClear fs t) (execute_step s)
Keeps-execute_step-IsClear s t st ts apart = record {
  at = λ m h. record {
    way = λ q on.
        (Keeps-execute_step-NoFile q s
            (λ same. cc (on, st, ap (λ (p : FilePath). is_under p (parent t.live_path)) same))).at
          m (h.way q on);
    live_free = (Keeps-execute_step-NoDir t.live_path s ts).at m h.live_free;
    staged_free =
        (Keeps-execute_step-NoDir t.staged_path s
            (not_under_parent t.staged_path s.live_path apart)).at
          m h.staged_free;
  };
}

-- what is to be known of a later step
abbrev pub Beside : CommitStep → CommitStep → Type 0
Beside s t = NotAbove s.live_path t × NotAbove t.live_path s × Apart t.staged_path s

pub Keeps-execute_step-All :
    (s : CommitStep) (steps : List CommitStep)
    → All (Beside s) steps
    → Keeps (λ fs. All (IsClear fs) steps) (execute_step s)
Keeps-execute_step-All s [] h = record { at = λ m k. tt }
Keeps-execute_step-All s (t ∷ steps) ((a, b, c), h) = record {
  at = λ m k. (
    (Keeps-execute_step-IsClear s t a b c).at m k.0,
    (Keeps-execute_step-All s steps h).at m k.1,
  );
}

file_there :
    (p : FilePath) (fs : Fs)
    → NoDir p fs
    → exists p fs ≡ true
    → (b : Bytes) × (node_at p fs ≡ some (file b))
file_there p fs free h = let (n, e) = some_node p fs h in is_file n e
  where
    is_file : (n : Node) → node_at p fs ≡ some n → (b : Bytes) × (node_at p fs ≡ some (file b))
    is_file dir e = absurd (free e)
    is_file (file b) e = (b, e)

Returns-execute_step :
    (s : CommitStep)
    → NotAbove s.live_path s
    → Returns (λ fs. IsClear fs s) (λ fs. Unit {0}) (execute_step s)
Returns-execute_step s own = record {
  at = λ m clear. elim (Bool-cases (exists s.staged_path m.fs)) [
    | inl e ↦
        let (b, was) = file_there s.staged_path m.fs clear.staged_free e in
        let (fs, moved, _) =
          (Returns-atomic_rename s.staged_path s.live_path own).at m
            (clear.way, (clear.live_free, was)) in
        (fs, execute_step_there s (reboot m) e ∙ moved, tt)
    | inr e ↦ (m.fs, execute_step_gone s (reboot m) e, tt)
  ];
}

-- Renames whose ways are clear, and that do not block one another, return.
pub Returns-execute_steps :
    (steps : List CommitStep)
    → IsSeparate steps
    → IsOpen steps
    → Returns (λ fs. All (IsClear fs) steps) (λ fs. Unit {0}) (execute_steps steps)
unfolding execute_steps
Returns-execute_steps [] apart open_ways = Returns-pure (λ fs h. tt)
Returns-execute_steps (s ∷ steps) apart open_ways =
    let besides =
      All-both (NotAbove s.live_path) _ (Beside s) steps (λ t st k. (st, k.0, k.1)) open_ways.0.1
        (All-both _ _ (λ t. NotAbove t.live_path s × Apart t.staged_path s) steps
          (λ t ts apart_t. (ts.0, apart_t.0)) open_ways.1 apart.1) in
    Returns-then (execute_step s) (execute_steps steps)
      (Returns-Keeps (execute_step s) (Returns-execute_step s open_ways.0.0)
        (Keeps-execute_step-All s steps besides))
      (Returns-execute_steps steps (All-weaken _ _ steps (λ t a. a.1) apart.1)
        (All-weaken _ _ steps (λ t a. a.1) open_ways.1))
