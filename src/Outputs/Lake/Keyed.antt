-- ===== src/Outputs/Lake/Keyed.antt =====
-- lake_writer.py: the paths of the partitions that staging gives the commit plan.
use mathlib.Core.Path.{subst}
use incremental_sync_data_se.Base.{
  ◌≡◌, refl, true, Option, some, List, [], ◌∷◌, ok, All, arith, bind-each, nat_eq, list_eq,
  string_eq,
}
use incremental_sync_data_se.Base.Dict
use incremental_sync_data_se.Base.Dict.{Dict}
use incremental_sync_data_se.Base.Sort.{lex_le}
use incremental_sync_data_se.Source.Sorting.{All-sort_with}
use incremental_sync_data_se.Time.{Text, aware, date_text}
use incremental_sync_data_se.Json.{Value, datetime}
use incremental_sync_data_se.Machine.Tree.{FilePath}
use incremental_sync_data_se.Machine.Yields.{
  Yields, Yields-Anything, Yields-pure, Yields-lift, Yields-bind,
}
use incremental_sync_data_se.FileSystem.{write_bytes_atomic}
use incremental_sync_data_se.Pipeline.Staging.{read}
use incremental_sync_data_se.Domain.Tables.{TableSpec}
use incremental_sync_data_se.Source.{Row}
use incremental_sync_data_se.Platform.{Platform}
use incremental_sync_data_se.Pipeline.Plan.RoundTrip.{no_slash}
use incremental_sync_data_se.Pipeline.Plan.Names.{no_slash-date_text}
use incremental_sync_data_se.Outputs.Lake.{
  StagedLakePartition, date_key_of, append_to, group_from, group_by_utc_date, partition_path,
  build_merged_content, stage_partition, stage_keys, stage_partitions,
}

abbrev IsKey : Text → Type 0
IsKey key = no_slash key ≡ true

date_key_of-IsKey : (v : Option Value) (key : Text) → date_key_of v ≡ ok key → IsKey key
unfolding date_key_of
date_key_of-IsKey (some (datetime (aware t))) key h =
    let same : date_text t ≡ key = cc in subst IsKey same (no_slash-date_text t)
date_key_of-IsKey v key h = cc

All-keys-insert :
    (key : Text) (rows : List Row) (out : Dict Text (List Row))
    → IsKey key
    → All IsKey (Dict.keys out)
    → All IsKey (Dict.keys (Dict.insert key rows out))
unfolding Dict.keys Dict.insert
All-keys-insert key rows [] k h = (k, tt)
All-keys-insert key rows ((j, w) ∷ out) k h =
    let rest = All-keys-insert key rows out k h.1 in ground arith

group_from-IsKey :
    (rows : List Row) (out groups : Dict Text (List Row))
    → All IsKey (Dict.keys out)
    → group_from out rows ≡ ok groups
    → All IsKey (Dict.keys groups)
unfolding group_from
group_from-IsKey [] out groups k h =
    subst (λ (g : Dict Text (List Row)). All IsKey (Dict.keys g)) (cc) k
group_from-IsKey (row ∷ rows) out groups k h =
    bind-each (λ g. All IsKey (Dict.keys g)) (date_key_of (Dict.lookup "updated_at" row))
      (λ key dated g e.
        group_from-IsKey rows (append_to key row out) g
          (All-keys-insert key _ out (date_key_of-IsKey _ key dated) k) e)
      groups h

-- a partition of a table, staged below `dir`
pub record IsPartition (lake_root : FilePath) (table : TableSpec) (dir : FilePath)
    (part : StagedLakePartition) : Type 0 where
  pub key : Text
  pub plain : no_slash key ≡ true
  pub staged : part.staged_path ≡ partition_path dir table key
  pub live : part.live_path ≡ partition_path lake_root table key

module _ (sys : Platform) (lake_root : FilePath) (table : TableSpec) (dir : FilePath) where
  stage_partition-IsPartition :
      (key : Text) (rows : List Row)
      → IsKey key
      → Yields (IsPartition lake_root table dir) (stage_partition sys lake_root table dir key rows)
  unfolding stage_partition
  stage_partition-IsPartition key rows k =
      let live = partition_path lake_root table key in
      let staged = partition_path dir table key in
      Yields-bind _ _ (Yields-Anything (read (build_merged_content table live rows))) (λ merged _.
        Yields-bind _ _ (Yields-Anything (write_bytes_atomic sys.random_part staged merged))
          (λ _ _. Yields-pure _ (record { key = key; plain = k; staged = refl; live = refl })))

  stage_keys-IsPartition :
      (groups : Dict Text (List Row)) (keys : List Text)
      → All IsKey keys
      → Yields
          (All (IsPartition lake_root table dir))
          (stage_keys sys lake_root table dir groups keys)
  unfolding stage_keys
  stage_keys-IsPartition groups [] k = Yields-pure [] tt
  stage_keys-IsPartition groups (key ∷ keys) k =
      Yields-bind _ _ (stage_partition-IsPartition key _ k.0) (λ part here.
        Yields-bind _ _ (stage_keys-IsPartition groups keys k.1)
          (λ parts others. Yields-pure (part ∷ parts) (here, others)))

  pub stage_partitions-IsPartition :
      (rows : List Row)
      → Yields
          (All (IsPartition lake_root table dir))
          (stage_partitions sys lake_root table dir rows)
  unfolding stage_partitions group_by_utc_date Dict.keys
  stage_partitions-IsPartition [] = Yields-pure [] tt
  stage_partitions-IsPartition (row ∷ rows) =
      Yields-bind _ _
        (Yields-lift (group_by_utc_date (row ∷ rows))
          (λ groups made. group_from-IsKey (row ∷ rows) [] groups tt made))
        (λ groups keyed.
          stage_keys-IsPartition groups _ (All-sort_with lex_le IsKey (Dict.keys groups) keyed))
