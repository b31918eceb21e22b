-- ===== src/Pipeline/Plan/RoundTrip.antt =====
-- A plan that is written and read back: the dict of a plan is the plan.
use mathlib.Core.List.{append_assoc, append-nil}
use incremental_sync_data_se.Base.{
  ℕ, ◌≡◌, ◌≢◌, refl, ap, ◌∙◌, arith, Bool, true, false, List, [], ◌∷◌, ◌++◌, ok, All, eqb, nat_eq,
  list_eq, string_eq, not, ◌&&◌, traverse,
}
use incremental_sync_data_se.Machine.Tree.{FilePath}
use incremental_sync_data_se.Json.Access.{field_at, item}
use incremental_sync_data_se.Pipeline.Plan.{
  CommitStep, path_text, slash_names, path_from, path_of, add_name, step_dict, step_from_dict,
  plan_dict, plan_from_dict, step_items, values_of,
}

-- a name of a file: not empty, not a dot, and without a slash
abbrev pub no_slash : List ℕ → Bool
no_slash [] = true
no_slash (c ∷ cs) = not (eqb c b'/') && no_slash cs

abbrev pub IsName : List ℕ → Type 0
IsName n = (n ≢ []) × (n ≢ b'.' ∷ []) × (no_slash n ≡ true)

-- a step whose paths have names
abbrev pub IsNamed : CommitStep → Type 0
IsNamed s = All IsName s.staged_path × All IsName s.live_path

add_name_lem : (n : List ℕ) (p : FilePath) → IsName n → add_name n p ≡ n ∷ p
add_name_lem n p h = let (a, b, _) = h in ground arith

-- the rest of a name is read, up to the end or to a slash
path_from-name_end :
    (read n : List ℕ) → no_slash n ≡ true → path_from read n ≡ add_name (read ++ n) []
unfolding path_from
path_from-name_end read [] h = rw (append-nil read) refl
path_from-name_end read (c ∷ n) h =
    let differ : eqb c b'/' ≡ false = ground arith in
    let after : no_slash n ≡ true = ground arith in
    rw differ (
      path_from-name_end (read ++ c ∷ []) n after
      ∙ ap (λ (r : List ℕ). add_name r []) (append_assoc read (c ∷ []) n))

path_from-name_slash :
    (read n rest : List ℕ)
    → no_slash n ≡ true
    → path_from read (n ++ b'/' ∷ rest) ≡ add_name (read ++ n) (path_from [] rest)
unfolding path_from
path_from-name_slash read [] rest h = rw (append-nil read) refl
path_from-name_slash read (c ∷ n) rest h =
    let differ : eqb c b'/' ≡ false = ground arith in
    let after : no_slash n ≡ true = ground arith in
    rw differ (
      path_from-name_slash (read ++ c ∷ []) n rest after
      ∙ ap (λ (r : List ℕ). add_name r (path_from [] rest)) (append_assoc read (c ∷ []) n))

path_of-slash_names : (p : FilePath) → All IsName p → path_of (slash_names p) ≡ p
unfolding path_of path_from list_eq
path_of-slash_names [] h = refl
path_of-slash_names (n ∷ []) h =
    let ((_, _, plain), _) = h in
    ap (path_from []) (append-nil n) ∙ path_from-name_end [] n plain ∙ add_name_lem n [] h.0
path_of-slash_names (n ∷ k ∷ p) h =
    let ((_, _, plain), _) = h in
    path_from-name_slash [] n (k ++ slash_names p) plain
    ∙ ap (add_name n) (path_of-slash_names (k ∷ p) h.1)
    ∙ add_name_lem n (k ∷ p) h.0

pub path_of-path_text : (p : FilePath) → All IsName p → path_of (path_text p) ≡ p
unfolding path_text path_of path_from list_eq
path_of-path_text [] h = refl
path_of-path_text (n ∷ p) h = path_of-slash_names (n ∷ p) h

step_from_dict-step_dict : (s : CommitStep) → IsNamed s → step_from_dict (step_dict s) ≡ ok s
unfolding step_from_dict step_dict item field_at string_eq
step_from_dict-step_dict s (a, b) =
    rw (path_of-path_text s.staged_path a, path_of-path_text s.live_path b) refl

steps_again :
    (steps : List CommitStep)
    → All IsNamed steps
    → traverse step_from_dict (values_of (step_items steps)) ≡ ok steps
unfolding traverse
steps_again [] h = refl
steps_again (s ∷ steps) h = rw (step_from_dict-step_dict s h.0, steps_again steps h.1) refl

-- A plan whose paths have names, none empty, a single dot or with a slash in it, is read back from its
-- dict as it was written.
pub plan_from_dict-plan_dict :
    (steps : List CommitStep) → All IsNamed steps → plan_from_dict (plan_dict steps) ≡ ok steps
unfolding plan_from_dict plan_dict field_at string_eq
plan_from_dict-plan_dict steps h = steps_again steps h
