-- ===== src/Source.antt =====
-- source/repository.py: the rows of a table that the composite watermark has not passed.
-- Postgres is outside the repository. A table is the list of its rows; `delta_rows` is what the SQL
-- of `build_delta_query` asks for, its WHERE and its ORDER BY, and `fetch_delta` its SELECT.
pub mod Sorting
pub mod Windows
pub mod Connection
pub mod Session
use incremental_sync_data_se.Base.{
  ℕ, String, ℤ, pos, Bool, true, false, ◌||◌, ◌&&◌, not, Option, none, some, List, [], ◌∷◌, ◌++◌,
  Result, ok, err, source_query, ◌>>=◌, traverse, or_raise, keep, if◌then◌else◌, ltb, eqb, ◌==◌,
  string_eq, map,
}
use incremental_sync_data_se.Base.Int.{int_le}
use incremental_sync_data_se.Base.Dict
use incremental_sync_data_se.Base.Dict.{Dict}
use incremental_sync_data_se.Base.Sort.{codes}
use incremental_sync_data_se.Time.{Text, aware}
use incremental_sync_data_se.Json.{Value, int, datetime, join}
use incremental_sync_data_se.Domain.Checkpoint.{TableWatermark}
use incremental_sync_data_se.Domain.Tables.{TableSpec, Column}
use Sorting.{sort_with}

-- a row of a source table: its key, its timestamp, and its other columns
pub record SourceRow : Type 0 where
  pub pk : ℤ
  pub updated_at : ℕ
  pub cells : Dict String Value

-- a row as the cursor yields it, by column names
abbrev pub Row : Type 0
Row = Dict String Value

-- `updated_at > %(updated_at)s OR (updated_at = %(updated_at)s AND pk > %(last_pk)s)`
unfoldable pub is_past : TableWatermark → SourceRow → Bool
is_past w r =
    ltb w.updated_at r.updated_at
    || eqb r.updated_at w.updated_at && not (int_le r.pk (pos w.last_pk))

-- `ORDER BY updated_at ASC, pk ASC`
unfoldable pub row_le : SourceRow → SourceRow → Bool
row_le a b =
    if ltb a.updated_at b.updated_at
    then true
    else if eqb a.updated_at b.updated_at
    then int_le a.pk b.pk
    else false

unfoldable pub delta_rows : TableWatermark → List SourceRow → List SourceRow
delta_rows w table = sort_with row_le (keep (is_past w) table)

-- one column of the SELECT list
abbrev pub cell : TableSpec → SourceRow → String → Result (String × Value)
cell spec r name =
    if name == spec.primary_key
    then ok (name, int r.pk)
    else if name == "updated_at"
    then ok (name, datetime (aware r.updated_at))
    else (do v ← or_raise source_query (Dict.lookup name r.cells); ok (name, v))

unfoldable pub select_row : TableSpec → SourceRow → Result Row
select_row spec r = traverse (λ (c : Column). cell spec r c.name) spec.columns

unfoldable pub fetch_delta : TableSpec → TableWatermark → List SourceRow → Result (List Row)
unfolding delta_rows
fetch_delta spec w table = traverse (select_row spec) (delta_rows w table)

-- `sql.Identifier`, for names without a quotation mark
abbrev identifier : String → Text
identifier name = b'"' ∷ codes name ++ b'"' ∷ []

-- the SQL text, as it is rendered
unfoldable pub build_delta_query : TableSpec → Text
build_delta_query spec =
    codes "SELECT "
    ++ join (codes ", ") (map (λ (c : Column). identifier c.name) spec.columns)
    ++ codes " FROM "
    ++ identifier spec.name
    ++ codes " WHERE updated_at > %(updated_at)s OR (updated_at = %(updated_at)s AND "
    ++ identifier spec.primary_key
    ++ codes " > %(last_pk)s) ORDER BY updated_at ASC, "
    ++ identifier spec.primary_key
    ++ codes " ASC"
