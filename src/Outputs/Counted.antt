-- ===== src/Outputs/Counted.antt =====
-- share_writer.py: the file has one line for each row.
use incremental_sync_data_se.Base.{◌≡◌, List, [], ◌∷◌, ok, length}
use incremental_sync_data_se.Base.Errors.{bind-ok}
use incremental_sync_data_se.Time.{Text}
use incremental_sync_data_se.Json.{Value, canonical_json_line}
use incremental_sync_data_se.Json.Lines.{newlines, newlines-canonical_json_line}
use incremental_sync_data_se.Machine.Tree.{Bytes}
use incremental_sync_data_se.Domain.Tables.{TableSpec}
use incremental_sync_data_se.Source.{Row}
use incremental_sync_data_se.Outputs.Share.{build_record, share_bytes}

-- The latest delta of a table has one line for each of its rows.
pub share_bytes-newlines :
    (table : TableSpec) (run_id fingerprint : Text) (checkpoint_after : Value) (rows : List Row)
    (b : Bytes)
    → share_bytes table run_id fingerprint checkpoint_after rows ≡ ok b
    → newlines b ≡ length rows
unfolding share_bytes newlines
share_bytes-newlines table run_id fp cp [] b h = cc
share_bytes-newlines table run_id fp cp (row ∷ rows) b h =
    let (r, _, h₁) = bind-ok (build_record table row run_id fp cp) _ h in
    let (line, first, h₂) = bind-ok (canonical_json_line r) _ h₁ in
    let (rest, next, e) = bind-ok (share_bytes table run_id fp cp rows) _ h₂ in
    let here = newlines-canonical_json_line r line rest first in
    let more = share_bytes-newlines table run_id fp cp rows rest next in cc
