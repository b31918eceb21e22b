-- ===== src/Orchestrator/Locked/Committable.antt =====
-- A staged run is one that the committer can finish.
use mathlib.Core.Path.{subst}
use incremental_sync_data_se.Base.{
  ◌≡◌, ◌≢◌, sym, ap, ◌∙◌, inl, inr, true, false, some, List, [], ◌∷◌, ok, All, All-weaken,
  Bool-cases, nat_eq, list_eq,
}
use incremental_sync_data_se.Base.Sort.{codes}
use incremental_sync_data_se.Json.{pretty_json_bytes}
use incremental_sync_data_se.Json.Parsed.{in_order}
use incremental_sync_data_se.Machine.{Machine, Outcome, done, M, ◌>>=◌, ◌>>◌, lift}
use incremental_sync_data_se.Machine.Restart.{bind-done, bind_of_done, lift-done}
use incremental_sync_data_se.Machine.Yields.{Yields-Anything, Yields-bind}
use incremental_sync_data_se.Machine.Tree.{Bytes, FilePath, file, node_at, is_under, file_name}
use incremental_sync_data_se.FileSystem.{write_bytes_atomic}
use incremental_sync_data_se.FileSystem.Crash.{is_under_refl, is_under-append}
use incremental_sync_data_se.FileSystem.Within.{is_under_trans}
use incremental_sync_data_se.FileSystem.Kept.{IsPlainName, file_name-join}
use incremental_sync_data_se.FileSystem.Written.{write_bytes_atomic-done, Keeps-write_present}
use incremental_sync_data_se.Pipeline.Plan.{CommitStep, plan_dict}
use incremental_sync_data_se.Pipeline.Plan.Parsed.{plan_from_dict-in_order}
use incremental_sync_data_se.Pipeline.Staging.{
  RunStagingDir, root, commit_plan_path, ready_marker_path, ensure_layout, is_ready, plan_in,
  write_commit_plan, mark_ready,
}
use incremental_sync_data_se.Pipeline.Commit.Steps.{IsSeparate, Away, Apart}
use incremental_sync_data_se.Pipeline.Commit.Crash.{IsCommittable, there}
use incremental_sync_data_se.Orchestrator.Stage.{Settings, Predictions, stage_outputs}
use incremental_sync_data_se.Orchestrator.Locked.{Service, stage_run}
use incremental_sync_data_se.Orchestrator.Locked.Places.{IsPlaced, IsLaidOut}
use incremental_sync_data_se.Orchestrator.Locked.Placed.{stage_outputs-IsPlaced}

module _ (st : Settings) (d : RunStagingDir) where
  apart : (s t : CommitStep) → IsPlaced st d s → IsPlaced st d t → Apart s.staged_path t
  apart s t hs ht = elim (Bool-cases (is_under s.staged_path t.live_path)) [
    | inl e ↦ cc (is_under_trans (root d) s.staged_path t.live_path hs.inside e, ht.outside)
    | inr e ↦ e
  ]

  All-IsPlaced-IsSeparate : (steps : List CommitStep) → All (IsPlaced st d) steps → IsSeparate steps
  All-IsPlaced-IsSeparate steps h =
      All-weaken (IsPlaced st d) _ steps
        (λ s hs. All-weaken (IsPlaced st d) (Apart s.staged_path) steps (λ t ht. apart s t hs ht) h)
        h

  -- a path of the run's directory that a step's staged file is not below
  away :
      (q : FilePath) (s : CommitStep)
      → is_under (root d) q ≡ true
      → is_under q s.staged_path ≡ false
      → IsPlaced st d s
      → Away q s
  away q s inside beside h = (
    λ same. cc (ap (is_under q) same, is_under_refl q, beside),
    λ same. cc (ap (is_under (root d)) same, inside, h.outside),
  )

  marker_inside : is_under (root d) (ready_marker_path d) ≡ true
  unfolding ready_marker_path
  marker_inside = is_under-append (root d) (codes "READY" ∷ [])

  plan_inside : is_under (root d) (commit_plan_path d) ≡ true
  unfolding commit_plan_path
  plan_inside = is_under-append (root d) (codes "commit_plan.json" ∷ [])

  plan-IsPlainName : IsPlainName (commit_plan_path d)
  unfolding commit_plan_path IsPlainName
  plan-IsPlainName name h =
      let e = sym (file_name-join (root d) (codes "commit_plan.json")) ∙ h in cc

  plan_other : commit_plan_path d ≢ ready_marker_path d
  unfolding commit_plan_path ready_marker_path
  plan_other same =
      let e =
        sym (file_name-join (root d) (codes "commit_plan.json"))
        ∙ ap file_name same
        ∙ file_name-join (root d) (codes "READY") in
      cc

-- the steps of an outcome
abbrev pub steps_of : Outcome (List CommitStep) → List CommitStep
steps_of (done steps) = steps
steps_of _ = []

-- the steps that the staging of a run returns
abbrev pub staged_steps : Service → RunStagingDir → Predictions → M (List CommitStep)
staged_steps svc d p = ensure_layout d >> stage_outputs svc.sys svc.settings svc.store d p svc.specs

-- `json.loads` makes of the plan that the run prints the plan's dict, with the keys in the order of
-- the text.
abbrev pub ReadsPlan : Service → RunStagingDir → Predictions → Machine → Type 0
ReadsPlan svc d p m =
    (steps : List CommitStep) (m' : Machine) (b : Bytes)
    → staged_steps svc d p m ≡ (done steps, m')
    → pretty_json_bytes (plan_dict steps) ≡ ok b
    → svc.sys.loads b ≡ ok (in_order (plan_dict steps))

module _ (svc : Service) (d : RunStagingDir) (p : Predictions) (m m₁ : Machine) where
  open svc use {sys, settings, store, specs}

  -- the parts of a staging that returned
  stage_run-done :
      stage_run svc d p m ≡ (done tt, m₁)
      → (steps : List CommitStep) × (a : Machine) × (b : Machine) × (staged_steps svc d p m
          ≡ (done steps, a))
        × (write_commit_plan sys d steps a ≡ (done tt, b))
        × (mark_ready sys d b ≡ (done tt, m₁))
  unfolding stage_run
  stage_run-done h =
      let finish : List CommitStep → M (Unit {0}) =
        λ steps. write_commit_plan sys d steps >> mark_ready sys d in
      let outputs = stage_outputs sys settings store d p specs in
      let (_, m₀, laid, h₀) = bind-done (ensure_layout d) (λ _. outputs >>= finish) m h in
      let (steps, a, staged, h₁) = bind-done outputs finish m₀ h₀ in
      let (_, b, planned, marked) =
        bind-done (write_commit_plan sys d steps) (λ _. mark_ready sys d) a h₁ in
      (steps, a, b, bind_of_done (ensure_layout d) (λ _. outputs) m laid ∙ staged, planned, marked)

  plan_written :
      (steps : List CommitStep) (a b : Machine)
      → write_commit_plan sys d steps a ≡ (done tt, b)
      → (bytes : Bytes) × (pretty_json_bytes (plan_dict steps) ≡ ok bytes)
        × (node_at (commit_plan_path d) b.fs ≡ some (file bytes))
  unfolding write_commit_plan
  plan_written steps a b h =
      let printed = pretty_json_bytes (plan_dict steps) in
      let write : Bytes → M (Unit {0}) = write_bytes_atomic sys.random_part (commit_plan_path d) in
      let (bytes, a', first, next) = bind-done (lift printed) write a h in
      (
        bytes,
        lift-done printed a first,
        write_bytes_atomic-done sys.random_part (commit_plan_path d) bytes a' b next,
      )

  planned :
      (steps : List CommitStep) (bytes : Bytes)
      → node_at (commit_plan_path d) m₁.fs ≡ some (file bytes)
      → sys.loads bytes ≡ ok (in_order (plan_dict steps))
      → All (IsPlaced settings d) steps
      → plan_in sys d m₁.fs ≡ ok steps
  unfolding plan_in
  planned steps bytes node read placed =
      rw (node, read)
        (plan_from_dict-in_order steps
          (All-weaken (IsPlaced settings d) _ steps (λ s h. h.readable) placed))

  -- what a staging that returns leaves
  pub stage_run-staged :
      p.run_id ≡ d.run_id
      → IsLaidOut svc d
      → ReadsPlan svc d p m
      → stage_run svc d p m ≡ (done tt, m₁)
      → (steps : List CommitStep) × (a : Machine) × (staged_steps svc d p m ≡ (done steps, a))
        × All (IsPlaced settings d) steps
        × IsCommittable sys d m₁.fs steps
  unfolding is_ready mark_ready
  stage_run-staged same laid reads h =
      let (steps, a, b, staged, wrote, marked) = stage_run-done h in
      let (bytes, printed, node) = plan_written steps a b wrote in
      let placed : All (IsPlaced settings d) steps =
        (Yields-bind (ensure_layout d) (λ _. stage_outputs sys settings store d p specs)
            (Yields-Anything (ensure_layout d))
            (λ _ _. stage_outputs-IsPlaced svc d laid p same)).at
          m steps a staged in
      let kept : node_at (commit_plan_path d) m₁.fs ≡ some (file bytes) =
        sym (ap (λ (w : Outcome (Unit {0}) × Machine). node_at (commit_plan_path d) w.1.fs) marked)
        ∙ (Keeps-write_present sys.random_part (commit_plan_path d) (file bytes)
              (plan-IsPlainName settings d) (ready_marker_path d) (plan_other settings d)
              (codes "READY\n")).at
            b node in
      (
        steps,
        a,
        staged,
        placed,
        record {
          ready = there (ready_marker_path d) m₁.fs (
              write_bytes_atomic-done sys.random_part (ready_marker_path d) (codes "READY\n") b m₁
                marked);
          planned = planned steps bytes kept (reads steps a bytes staged printed) placed;
          separate = All-IsPlaced-IsSeparate settings d steps placed;
          ready_away =
              All-weaken (IsPlaced settings d) _ steps
                (λ s hs.
                  away settings d (ready_marker_path d) s (marker_inside settings d) hs.not_marker
                    hs)
                placed;
          plan_away =
              All-weaken (IsPlaced settings d) _ steps
                (λ s hs.
                  away settings d (commit_plan_path d) s (plan_inside settings d) hs.not_plan hs)
                placed;
        },
      )

  -- If the run's directory has the run's name, the places of the outputs have names and lie apart from
  -- that directory, and `json.loads` reads the printed plan, then a staging that returns leaves a run
  -- that can be committed by the steps that the writers returned: the marker is there, the plan in the
  -- run's directory is read back as those steps, no step undoes another, and none touches the marker or
  -- the plan.
  pub stage_run-IsCommittable :
      (steps : List CommitStep) (a : Machine)
      → p.run_id ≡ d.run_id
      → IsLaidOut svc d
      → ReadsPlan svc d p m
      → staged_steps svc d p m ≡ (done steps, a)
      → stage_run svc d p m ≡ (done tt, m₁)
      → IsCommittable sys d m₁.fs steps
  stage_run-IsCommittable steps a same laid reads planned h =
      let (own, _, planned', _, committable) = stage_run-staged same laid reads h in
      let e : own ≡ steps =
        ap (λ (w : Outcome (List CommitStep) × Machine). steps_of w.0) (sym planned' ∙ planned) in
      subst (IsCommittable sys d m₁.fs) e committable
