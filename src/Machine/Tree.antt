-- ===== src/Machine/Tree.antt =====
-- The file tree: each path that is there, with what it is. Paths are lists of names from the root,
-- free of links; a name is the list of its code points.
use incremental_sync_data_se.Base.{
  ℕ, Bool, true, false, Option, none, some, List, [], ◌∷◌, ◌++◌, Result, ok, err, os_error, ◌==◌,
  nat_eq, list_eq, if◌then◌else◌, keep,
}
use incremental_sync_data_se.Base.Dict
use incremental_sync_data_se.Base.Dict.{Dict}

abbrev pub Bytes : Type 0
Bytes = List ℕ

abbrev pub FilePath : Type 0
FilePath = List (List ℕ)

pub data Node : Type 0 where
  dir : Node
  file : Bytes → Node

abbrev pub Fs : Type 0
Fs = Dict FilePath Node

abbrev pub node_at : FilePath → Fs → Option Node
node_at = Dict.lookup

-- `p.exists()`
unfoldable pub exists : FilePath → Fs → Bool
exists p fs = elim (node_at p fs) [ none ↦ false | some _ ↦ true ]

abbrev pub is_dir_node : Option Node → Bool
is_dir_node (some dir) = true
is_dir_node _ = false

-- `p / name`
infixl 60 ◌/◌
abbrev pub ◌/◌ : FilePath → List ℕ → FilePath
p / name = p ++ (name ∷ [])

-- `p.parent`
unfoldable pub parent : FilePath → FilePath
parent [] = []
parent (x ∷ []) = []
parent (x ∷ y ∷ p) = x ∷ parent (y ∷ p)

-- `p.name`
unfoldable pub file_name : FilePath → List ℕ
file_name [] = []
file_name (x ∷ []) = x
file_name (x ∷ y ∷ p) = file_name (y ∷ p)

-- whether a path is the root or lies below it
unfoldable pub is_under : FilePath → FilePath → Bool
is_under [] p = true
is_under (r ∷ root) [] = false
is_under (r ∷ root) (x ∷ p) = let rest = is_under root p in if r == x then rest else false

-- `os.mkdir` with `exist_ok=True`
unfoldable pub mkdir : FilePath → Fs → Result Fs
mkdir p fs = elim (node_at p fs) [
  | none ↦ ok (Dict.insert p dir fs)
  | some dir ↦ ok fs
  | some (file _) ↦ err os_error
]

abbrev pub replaced : FilePath → FilePath → Option Node → Option Node → Fs → Result Fs
replaced src dst (some (file b)) (some dir) fs = err os_error
replaced src dst (some (file b)) _ fs = ok (Dict.insert dst (file b) (Dict.erase src fs))
replaced src dst _ _ fs = err os_error

-- `os.replace` of a file. The callers have made the parent of `dst`; they rename no directories.
unfoldable pub os_replace : FilePath → FilePath → Fs → Result Fs
os_replace src dst fs = replaced src dst (node_at src fs) (node_at dst fs) fs

-- a file written whole, or made empty
unfoldable pub write_file : FilePath → Bytes → Fs → Result Fs
write_file p b fs = ok (Dict.insert p (file b) fs)

-- `os.unlink` or `os.rmdir` of a path that may be gone
unfoldable pub remove : FilePath → Fs → Result Fs
remove p fs = ok (Dict.erase p fs)

-- every path at or below a root
unfoldable pub below : FilePath → Fs → List FilePath
below root fs = keep (is_under root) (Dict.keys fs)
