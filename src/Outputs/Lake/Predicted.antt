-- ===== src/Outputs/Lake/Predicted.antt =====
-- lake_writer.py: the predicted partitions are the ones that staging gives the commit plan.
use incremental_sync_data_se.Base.{
  ◌≡◌, sym, ap, ◌∙◌, List, [], ◌∷◌, map, length, ok, nat_eq, list_eq,
}
use incremental_sync_data_se.Base.Dict
use incremental_sync_data_se.Base.Dict.{Dict}
use incremental_sync_data_se.Base.Sort.{lex_le}
use incremental_sync_data_se.Source.Sorting.{sort_with}
use incremental_sync_data_se.Time.{Text}
use incremental_sync_data_se.Machine.{Machine, done, M, ◌>>=◌, ◌>>◌, pure, lift}
use incremental_sync_data_se.Machine.Tree.{FilePath, Bytes}
use incremental_sync_data_se.Machine.Restart.{pure-done, lift-done, bind-done}
use incremental_sync_data_se.FileSystem.{write_bytes_atomic}
use incremental_sync_data_se.Domain.Tables.{TableSpec}
use incremental_sync_data_se.Source.{Row}
use incremental_sync_data_se.Platform.{Platform}
use incremental_sync_data_se.Pipeline.Staging.{read}
use incremental_sync_data_se.Outputs.Lake.{
  StagedLakePartition, build_merged_content, group_by_utc_date, partition_path, rows_or_none,
  predict_partitions, stage_partition, stage_keys, stage_partitions,
}

abbrev pub live_paths : List StagedLakePartition → List FilePath
live_paths parts = map (λ (part : StagedLakePartition). part.live_path) parts

module _ (sys : Platform) (lake_root : FilePath) (table : TableSpec) (dir : FilePath) where
  stage_partition-live :
      (key : Text) (rows : List Row) (m m' : Machine) (part : StagedLakePartition)
      → stage_partition sys lake_root table dir key rows m ≡ (done part, m')
      → part.live_path ≡ partition_path lake_root table key
  unfolding stage_partition
  stage_partition-live key rows m m' part h =
      let built = read (build_merged_content table (partition_path lake_root table key) rows) in
      let write : Bytes → M (Unit {0}) =
        write_bytes_atomic sys.random_part (partition_path dir table key) in
      let result : StagedLakePartition = record {
        staged_path = partition_path dir table key;
        live_path = partition_path lake_root table key;
        table = table.name;
        date_key = key;
        row_count = length rows;
      } in
      let (merged, m₁, _, next) = bind-done built (λ b. write b >> pure result) m h in
      let (_, m₂, _, last) = bind-done (write merged) (λ _. pure result) m₁ next in
      ap (λ (x : StagedLakePartition). x.live_path) (sym (pure-done {a = result} last))

  stage_keys-live :
      (groups : Dict Text (List Row)) (keys : List Text) (m m' : Machine)
      (parts : List StagedLakePartition)
      → stage_keys sys lake_root table dir groups keys m ≡ (done parts, m')
      → live_paths parts ≡ map (partition_path lake_root table) keys
  unfolding stage_keys
  stage_keys-live groups [] m m' parts h = ap live_paths (sym (pure-done {a = []} h))
  stage_keys-live groups (key ∷ keys) m m' parts h =
      let first =
        stage_partition sys lake_root table dir key (rows_or_none (Dict.lookup key groups)) in
      let rest = stage_keys sys lake_root table dir groups keys in
      let end : StagedLakePartition → List StagedLakePartition → M (List StagedLakePartition) =
        λ part more. pure (part ∷ more) in
      let (part, m₁, here, next) = bind-done first (λ part. rest >>= end part) m h in
      let (more, m₂, others, last) = bind-done rest (end part) m₁ next in
      ap live_paths (sym (pure-done {a = part ∷ more} last))
      ∙ ap (λ (p : FilePath). p ∷ live_paths more) (stage_partition-live key _ m m₁ part here)
      ∙ ap (◌∷◌ (partition_path lake_root table key))
          (stage_keys-live groups keys m₁ m₂ more others)

  -- Where staging a table's rows returns, the paths that were predicted for the same rows are the live
  -- paths of the staged partitions, in order.
  pub stage_partitions-predicted :
      (rows : List Row) (m m' : Machine) (parts : List StagedLakePartition)
      → stage_partitions sys lake_root table dir rows m ≡ (done parts, m')
      → predict_partitions lake_root table rows ≡ ok (live_paths parts)
  unfolding stage_partitions predict_partitions
  stage_partitions-predicted [] m m' parts h =
      ap (λ (l : List StagedLakePartition). ok (live_paths l)) (pure-done {a = []} h)
  stage_partitions-predicted (row ∷ rows) m m' parts h =
      let rest : Dict Text (List Row) → M (List StagedLakePartition) =
        λ groups. stage_keys sys lake_root table dir groups (sort_with lex_le (Dict.keys groups)) in
      let (groups, m₁, made, next) = bind-done (lift (group_by_utc_date (row ∷ rows))) rest m h in
      rw (lift-done (group_by_utc_date (row ∷ rows)) m made) (
        ap ok (sym (stage_keys-live groups (sort_with lex_le (Dict.keys groups)) m₁ m' parts next)))
