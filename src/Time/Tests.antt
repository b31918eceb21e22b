-- ===== src/Time/Tests.antt =====
-- Runs of the printers.
use incremental_sync_data_se.Base.{◌≡◌, refl, ok, ◌+◌, ◌*◌}
use incremental_sync_data_se.Base.Sort.{codes}
use incremental_sync_data_se.Time.{iso_utc_z, aware, micros_per_day, date_text}
use incremental_sync_data_se.Time.Print.{digits, decimal}

-- 2026-03-31 is day 739705 from 0001-01-01.
iso_runs :
    iso_utc_z (aware (739705 * micros_per_day + 43200000000)) ≡ ok (codes "2026-03-31T12:00:00Z")
unfolding iso_utc_z digits
iso_runs = refl

iso_leap : date_text (738944 * micros_per_day) ≡ codes "2024-02-29"
unfolding date_text digits
iso_leap = refl

iso_micros : iso_utc_z (aware 1) ≡ ok (codes "0001-01-01T00:00:00.000001Z")
unfolding iso_utc_z digits
iso_micros = refl

decimal_runs : decimal 1203 ≡ codes "1203"
unfolding decimal
decimal_runs = refl
