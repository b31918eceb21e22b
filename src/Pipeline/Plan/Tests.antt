-- ===== src/Pipeline/Plan/Tests.antt =====
-- Runs on a small plan.
use incremental_sync_data_se.Base.{◌≡◌, refl, ok, [], ◌∷◌, traverse, string_eq, nat_eq, list_eq}
use incremental_sync_data_se.Base.Sort.{codes}
use incremental_sync_data_se.Json.{str}
use incremental_sync_data_se.Pipeline.Plan.{
  CommitStep, path_text, path_of, plan_dict, plan_from_dict,
}

abbrev step : CommitStep
step = record {
  staged_path = codes "runs" ∷ codes "ab" ∷ codes "x.json" ∷ [];
  live_path = codes "x.json" ∷ [];
  label = str (codes "x");
}

path_runs : path_of (codes "/a//b/./c") ≡ codes "a" ∷ codes "b" ∷ codes "c" ∷ []
unfolding path_of nat_eq list_eq
path_runs = refl

plan_runs : plan_from_dict (plan_dict (step ∷ [])) ≡ ok (step ∷ [])
unfolding plan_from_dict plan_dict path_text nat_eq list_eq string_eq traverse
plan_runs = refl
