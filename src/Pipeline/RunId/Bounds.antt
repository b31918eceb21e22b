-- ===== src/Pipeline/RunId/Bounds.antt =====
-- How long the identifiers of runs and the fingerprints of schemas are.
use incremental_sync_data_se.Base.{
  ℕ, zero, suc, ◌≤◌, ◌≡◌, refl, String, List, [], ◌∷◌, Bool, true, false, ok, bind-ok, check, leb,
  ◌&&◌, length, arith, value_error,
}
use incremental_sync_data_se.Base.Dict.{Dict}
use incremental_sync_data_se.Time.{Text}
use incremental_sync_data_se.Json.{Value, canonical_json_bytes}
use incremental_sync_data_se.Machine.Tree.{Bytes}
use incremental_sync_data_se.Pipeline.RunId.{RowIdentity, prefix, run_id_payload, compute_run_id}

length-prefix : (n : ℕ) (t : Text) → n ≤ length t → length (prefix n t) ≡ n
unfolding prefix
length-prefix zero t h = refl
length-prefix (suc n) [] h = omega arith
length-prefix (suc n) (c ∷ t) h = omega (arith, length-prefix n t)

check-ok : (b : Bool) {u : Unit {0}} → check b value_error ≡ ok u → b ≡ true
check-ok true h = refl
check-ok false h = cc

module _ (hexdigest : Bytes → Text) (full : (b : Bytes) → length (hexdigest b) ≡ 64) where
  -- Where SHA-256 has 64 digits: the identifier that `compute_run_id` returns has as many as asked
  -- for, and that is from 8 to 64.
  pub compute_run_id-length :
      (checkpoint_before : Value) (table_deltas : Dict String (List RowIdentity)) (n : ℕ)
      (run_id : Text)
      → compute_run_id hexdigest checkpoint_before table_deltas n ≡ ok run_id
      → (length run_id ≡ n) × (8 ≤ n) × (n ≤ 64)
  unfolding compute_run_id
  compute_run_id-length checkpoint_before table_deltas n run_id h =
      let (_, checked, next) = bind-ok (check (leb 8 n && leb n 64) value_error) _ h in
      let inside = check-ok (leb 8 n && leb n 64) checked in
      let (payload, _, next') = bind-ok (run_id_payload checkpoint_before table_deltas) _ next in
      let (blob, _, last) = bind-ok (canonical_json_bytes payload) _ next' in
      let low : 8 ≤ n = ground arith in
      let high : n ≤ 64 = ground arith in
      let same : run_id ≡ prefix n (hexdigest blob) = cc in
      (rw (same) (length-prefix n (hexdigest blob) (omega (arith, full blob, high))), low, high)
