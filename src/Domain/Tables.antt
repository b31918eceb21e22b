-- ===== src/Domain/Tables.antt =====
-- domain/tables.py: the contract of each source table.
mod Tests
use incremental_sync_data_se.Base.{
  String, Bool, true, false, not, List, [], ◌∷◌, ◌++◌, map, Result, check, value_error, ok, ◌>>=◌,
  ◌>>◌, ◌==◌, string_eq, contains, if◌then◌else◌,
}
use incremental_sync_data_se.Base.Dict
use incremental_sync_data_se.Base.Dict.{Dict}
use incremental_sync_data_se.Base.Sort.{codes}
use incremental_sync_data_se.Json.{join}
use incremental_sync_data_se.Time.{Text}
use incremental_sync_data_se.Machine.Tree.{FilePath, ◌/◌}

pub record Column : Type 0 where
  pub name : String
  pub pg_type : String

pub record TableSpec : Type 0 where
  pub name : String
  pub primary_key : String
  pub columns : List Column
  pub lake_subdir : String
  pub share_subdir : String

unfoldable pub column_names : TableSpec → List String
column_names t = map (λ (c : Column). c.name) t.columns

abbrev has_duplicates : List String → Bool
has_duplicates [] = false
has_duplicates (n ∷ ns) = let rest = has_duplicates ns in if contains ns n then true else rest

abbrev or_default : String → String → String
or_default given name = if given == "" then name else given

-- `__post_init__`: the checks, and the default sub-directories
unfoldable pub validated : TableSpec → Result TableSpec
unfolding column_names
validated t = do
  check (contains (column_names t) t.primary_key) value_error
  check (contains (column_names t) "updated_at") value_error
  check (not (has_duplicates (column_names t))) value_error
  ok (record t {
    lake_subdir = or_default t.lake_subdir t.name;
    share_subdir = or_default t.share_subdir t.name;
  })

unfoldable pub select_clause : TableSpec → Text
select_clause t = join (codes ", ") (map (λ (c : Column). codes c.name) t.columns)

unfoldable pub lake_dir : FilePath → TableSpec → FilePath
lake_dir lake_root t = lake_root / codes t.lake_subdir

unfoldable pub share_path : FilePath → TableSpec → FilePath
share_path share_root t = share_root / codes t.share_subdir / codes "changes.jsonl"

abbrev column : String → String → Column
column name pg_type = record { name = name; pg_type = pg_type }

abbrev pub customers : TableSpec
customers = record {
  name = "customers";
  primary_key = "customer_id";
  columns =
      column "customer_id" "bigint"
      ∷ column "name" "text"
      ∷ column "email" "text"
      ∷ column "country" "text"
      ∷ column "updated_at" "timestamptz"
      ∷ [];
  lake_subdir = "customers";
  share_subdir = "customers";
}

abbrev pub cases : TableSpec
cases = record {
  name = "cases";
  primary_key = "case_id";
  columns =
      column "case_id" "bigint"
      ∷ column "customer_id" "bigint"
      ∷ column "title" "text"
      ∷ column "description" "text"
      ∷ column "status" "text"
      ∷ column "updated_at" "timestamptz"
      ∷ [];
  lake_subdir = "cases";
  share_subdir = "cases";
}

-- the canonical iteration order
abbrev pub all_tables : List TableSpec
all_tables = customers ∷ cases ∷ []

abbrev add_specs : List TableSpec → Dict String TableSpec → Dict String TableSpec
add_specs [] d = d
add_specs (t ∷ ts) d = add_specs ts (Dict.insert t.name t d)

-- `{t.name: t for t in tables}`
unfoldable pub spec_by_name : List TableSpec → Dict String TableSpec
spec_by_name ts = add_specs ts []
