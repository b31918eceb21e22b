-- ===== src/Pipeline/Staging/Reads.antt =====
-- Reads change nothing.
use incremental_sync_data_se.Base.{Result}
use incremental_sync_data_se.Machine.Tree.{Fs}
use incremental_sync_data_se.Machine.Keeps.{Keeps, Keeps-lift}
use incremental_sync_data_se.Pipeline.Staging.{read}

pub Keeps-read : {A : Type 0} {P : Fs → Type 0} (f : Fs → Result A) → Keeps P (read f)
Keeps-read {A} {P} f = record { at = λ m h. (Keeps-lift {P = P} (f m.fs)).at m h }
