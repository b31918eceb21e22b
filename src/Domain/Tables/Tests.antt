-- ===== src/Domain/Tables/Tests.antt =====
-- The concrete tables pass their own checks.
use incremental_sync_data_se.Base.{◌≡◌, refl, ok, string_eq}
use incremental_sync_data_se.Base.Sort.{codes}
use incremental_sync_data_se.Json.{join}
use incremental_sync_data_se.Domain.Tables.{customers, cases, validated, select_clause}

customers_valid :
    validated (record customers { lake_subdir = ""; share_subdir = "" }) ≡ ok customers
unfolding validated string_eq
customers_valid = refl

cases_valid : validated (record cases { lake_subdir = ""; share_subdir = "" }) ≡ ok cases
unfolding validated string_eq
cases_valid = refl

select_runs : select_clause customers ≡ codes "customer_id, name, email, country, updated_at"
unfolding select_clause join
select_runs = refl
