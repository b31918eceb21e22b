-- ===== src/Orchestrator/Document.antt =====
-- domain/manifest.py: the manifest as the document that the service answers with.
use incremental_sync_data_se.Base.{pos, Option, none, some, List, [], ◌∷◌, Result, ok, ◌>>=◌}
use incremental_sync_data_se.Base.Sort.{codes}
use incremental_sync_data_se.Time.{Text, aware, iso_utc_z}
use incremental_sync_data_se.Json.{
  Value, null, boolean, int, str, array, object, Items, nil, cons, field, end,
}
use incremental_sync_data_se.Orchestrator.Locked.{Manifest, TableManifest}

unfoldable pub texts : List Text → Items
texts [] = nil
texts (t ∷ ts) = cons (str t) (texts ts)

abbrev pub optional : Option Text → Value
optional none = null
optional (some t) = str t

unfoldable pub table_dict : TableManifest → Value
unfolding texts
table_dict t = object (
    field "table" (str (codes t.table)) (
      field "delta_row_count" (int (pos t.delta_row_count)) (
        field "lake_paths" (array (texts t.lake_paths)) (
          field "share_path" (optional t.share_path)
            (field "schema_fingerprint" (str t.schema_fingerprint) end)))))

unfoldable pub table_dicts : List TableManifest → Items
table_dicts [] = nil
table_dicts (t ∷ ts) = cons (table_dict t) (table_dicts ts)

-- `to_canonical_dict`, which is `model_dump(mode="json")`
unfoldable pub manifest_dict : Manifest → Result Value
unfolding table_dicts
manifest_dict m = do
  started_at ← iso_utc_z (aware m.started_at)
  finished_at ← iso_utc_z (aware m.finished_at)
  ok (
      object (
        field "run_id" (str m.run_id) (
          field "started_at" (str started_at) (
            field "finished_at" (str finished_at) (
              field "dry_run" (boolean m.dry_run) (
                field "checkpoint_before" m.checkpoint_before (
                  field "checkpoint_after" m.checkpoint_after
                    (field "tables" (array (table_dicts m.tables)) end))))))))
