-- ===== src/Pipeline/Plan.antt =====
-- pipeline/staging.py: the commit plan and its dict forms, with the paths as texts.
pub mod RoundTrip
pub mod Names
pub mod Parsed
mod Tests
use incremental_sync_data_se.Base.{
  ℕ, String, Option, none, some, List, [], ◌∷◌, ◌++◌, Result, ok, err, key_error, type_error,
  attribute_error, ◌>>=◌, traverse, or_raise, if◌then◌else◌, ◌==◌, string_eq, nat_eq, list_eq, eqb,
}
use incremental_sync_data_se.Time.{Text}
use incremental_sync_data_se.Json.Access.{field_at, item}
use incremental_sync_data_se.Json.{Value, str, array, object, Items, nil, cons, Fields, end, field}
use incremental_sync_data_se.Machine.Tree.{FilePath}

-- `str(path)` of an absolute path
abbrev slash_names : FilePath → Text
slash_names [] = []
slash_names (n ∷ p) = b'/' ∷ n ++ slash_names p

unfoldable pub path_text : FilePath → Text
path_text [] = b'/' ∷ []
path_text (n ∷ p) = slash_names (n ∷ p)

-- the names between the slashes; empty ones and single dots do not count
abbrev add_name : Text → FilePath → FilePath
add_name name p = if name == [] then p else if name == b'.' ∷ [] then p else name ∷ p

unfoldable pub path_from : Text → Text → FilePath
path_from name [] = add_name name []
path_from name (c ∷ cs) =
    let here = add_name name (path_from [] cs) in
    let more = path_from (name ++ c ∷ []) cs in if eqb c b'/' then here else more

-- `Path(text)` of an absolute path
unfoldable pub path_of : Text → FilePath
unfolding path_from
path_of = path_from []

pub record CommitStep : Type 0 where
  pub staged_path : FilePath
  pub live_path : FilePath
  pub label : Value

-- `CommitStep.to_dict`
unfoldable pub step_dict : CommitStep → Value
step_dict s = object (
    field "staged_path" (str (path_text s.staged_path))
      (field "live_path" (str (path_text s.live_path)) (field "label" s.label end)))

abbrev path_value : Value → Result FilePath
path_value (str t) = ok (path_of t)
path_value _ = err type_error

-- `CommitStep.from_dict`
unfoldable pub step_from_dict : Value → Result CommitStep
unfolding item path_of
step_from_dict d = do
  a ← item "staged_path" d
  staged ← path_value a
  b ← item "live_path" d
  live ← path_value b
  label ← item "label" d
  ok (record { staged_path = staged; live_path = live; label = label })

abbrev pub step_items : List CommitStep → Items
step_items [] = nil
step_items (s ∷ steps) = cons (step_dict s) (step_items steps)

-- `CommitPlan.to_dict`; a plan is its steps
unfoldable pub plan_dict : List CommitStep → Value
unfolding step_dict
plan_dict steps = object (field "steps" (array (step_items steps)) end)

abbrev pub values_of : Items → List Value
values_of nil = []
values_of (cons v vs) = v ∷ values_of vs

-- the elements that a loop over a value meets; those of a text or a dict are texts, no step's dict
unfoldable pub iterate : Value → Result (List Value)
iterate (array vs) = ok (values_of vs)
iterate (object end) = ok []
iterate (str []) = ok []
iterate _ = err type_error

abbrev or_no_steps : Option Value → Value
or_no_steps none = array nil
or_no_steps (some v) = v

-- `d.get("steps", [])`
abbrev get_steps : Value → Result Value
get_steps (object fs) = ok (or_no_steps (field_at "steps" fs))
get_steps _ = err attribute_error

-- `CommitPlan.from_dict`
unfoldable pub plan_from_dict : Value → Result (List CommitStep)
unfolding step_from_dict iterate
plan_from_dict d = do v ← get_steps d; vs ← iterate v; traverse step_from_dict vs
