-- ===== src/Outputs/Lake/Staged.antt =====
-- lake_writer.py: staging a table's partitions keeps what writing below the staging directory keeps.
use incremental_sync_data_se.Base.{◌≡◌, true, List, [], ◌∷◌, nat_eq, list_eq}
use incremental_sync_data_se.Base.Dict
use incremental_sync_data_se.Base.Dict.{Dict}
use incremental_sync_data_se.Base.Sort.{codes, lex_le}
use incremental_sync_data_se.Source.Sorting.{sort_with}
use incremental_sync_data_se.Time.{Text}
use incremental_sync_data_se.Machine.Tree.{Bytes, FilePath, Fs, is_under, parent, ◌/◌}
use incremental_sync_data_se.Machine.Keeps.{Keeps, Keeps-bind, Keeps-lift, Keeps-pure}
use incremental_sync_data_se.FileSystem.{write_bytes_atomic}
use incremental_sync_data_se.FileSystem.Crash.{is_under_refl}
use incremental_sync_data_se.FileSystem.Within.{is_under-extend, is_under-parent_join}
use incremental_sync_data_se.Domain.Tables.{TableSpec}
use incremental_sync_data_se.Source.{Row}
use incremental_sync_data_se.Platform.{Platform}
use incremental_sync_data_se.Pipeline.Staging.Reads.{Keeps-read}
use incremental_sync_data_se.Outputs.Lake.{
  build_merged_content, group_by_utc_date, partition_path, rows_or_none, stage_partition,
  stage_keys, stage_partitions,
}

module _ (sys : Platform) (lake_root : FilePath) (table : TableSpec) (dir : FilePath)
    (P : Fs → Type 0)
    (writes : (target : FilePath) (bytes : Bytes)
      → is_under dir (parent target) ≡ true
      → Keeps P (write_bytes_atomic sys.random_part target bytes)) where
  Keeps-stage_partition :
      (key : Text) (rows : List Row) → Keeps P (stage_partition sys lake_root table dir key rows)
  unfolding stage_partition
  Keeps-stage_partition key rows =
      Keeps-bind _ _
        (Keeps-read (build_merged_content table (partition_path lake_root table key) rows))
        (λ merged.
          Keeps-bind _ _
            (writes (partition_path dir table key) merged (
              is_under-parent_join dir _ _ (
                is_under-extend dir (dir / codes table.lake_subdir) _
                  (is_under-extend dir dir _ (is_under_refl dir)))))
            (λ _. Keeps-pure _))

  Keeps-stage_keys :
      (groups : Dict Text (List Row)) (keys : List Text)
      → Keeps P (stage_keys sys lake_root table dir groups keys)
  unfolding stage_keys
  Keeps-stage_keys groups [] = Keeps-pure _
  Keeps-stage_keys groups (key ∷ keys) =
      Keeps-bind _ _ (Keeps-stage_partition key (rows_or_none (Dict.lookup key groups)))
        (λ part. Keeps-bind _ _ (Keeps-stage_keys groups keys) (λ parts. Keeps-pure _))

  pub Keeps-stage_partitions :
      (rows : List Row) → Keeps P (stage_partitions sys lake_root table dir rows)
  unfolding stage_partitions
  Keeps-stage_partitions [] = Keeps-pure _
  Keeps-stage_partitions (row ∷ rows) =
      Keeps-bind _ _ (Keeps-lift (group_by_utc_date (row ∷ rows)))
        (λ groups. Keeps-stage_keys groups (sort_with lex_le (Dict.keys groups)))
