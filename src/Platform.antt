-- ===== src/Platform.antt =====
-- What the service takes from outside the repository: randomness, `json.loads`, the order in which
-- a directory is listed, SHA-256 and the clock. The development holds for every choice of these.
use incremental_sync_data_se.Base.{ℕ, Bool, List, Result}
use incremental_sync_data_se.Time.{Text}
use incremental_sync_data_se.Machine.Tree.{Bytes, FilePath, Fs}
use incremental_sync_data_se.Json.{Value}

pub record Platform : Type 0 where
  -- the random part of a temporary name, for a target in a tree
  pub random_part : Fs → FilePath → Text
  pub loads : Bytes → Result Value
  -- the order in which `shutil.rmtree` removes the paths of a tree
  pub removal_order : List FilePath → List FilePath
  -- `hashlib.sha256(data).hexdigest()`
  pub hexdigest : Bytes → Text
  -- whether stdout takes another line after what was printed
  pub stdout_open : List Bytes → Bool
  -- the instant that the clock shows when it is read for the n-th time
  pub clock : ℕ → ℕ
