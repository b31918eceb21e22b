-- ===== src/Pipeline/Plan/Parsed.antt =====
-- A plan that is printed, parsed and read back.
use incremental_sync_data_se.Base.{◌≡◌, refl, List, [], ◌∷◌, ok, All, string_eq, traverse}
use incremental_sync_data_se.Base.Sort.{sort_by, str_le}
use incremental_sync_data_se.Domain.Checkpoint.{fields_of}
use incremental_sync_data_se.Json.Access.{field_at, item}
use incremental_sync_data_se.Json.Parsed.{in_order, items_in_order}
use incremental_sync_data_se.Pipeline.Plan.{
  CommitStep, step_dict, step_from_dict, plan_dict, plan_from_dict, step_items, values_of,
}
use incremental_sync_data_se.Pipeline.Plan.RoundTrip.{IsNamed, path_of-path_text}

-- a step whose paths have names, and whose label a parser reads as it was
pub record IsReadable (s : CommitStep) : Type 0 where
  pub named : IsNamed s
  pub label : in_order s.label ≡ s.label

step_again : (s : CommitStep) → IsReadable s → step_from_dict (in_order (step_dict s)) ≡ ok s
unfolding step_from_dict step_dict item field_at string_eq in_order sort_by str_le fields_of
step_again s h =
    let (a, b) = h.named in
    rw (h.label, path_of-path_text s.staged_path a, path_of-path_text s.live_path b) refl

steps_again :
    (steps : List CommitStep)
    → All IsReadable steps
    → traverse step_from_dict (values_of (items_in_order (step_items steps))) ≡ ok steps
unfolding traverse in_order
steps_again [] h = refl
steps_again (s ∷ steps) h = rw (step_again s h.0, steps_again steps h.1) refl

-- The plan that is read from the parsed text of a plan is the plan.
pub plan_from_dict-in_order :
    (steps : List CommitStep)
    → All IsReadable steps
    → plan_from_dict (in_order (plan_dict steps)) ≡ ok steps
unfolding plan_from_dict plan_dict field_at string_eq in_order sort_by str_le fields_of
plan_from_dict-in_order steps h = steps_again steps h
