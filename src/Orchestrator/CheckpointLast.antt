-- ===== src/Orchestrator/CheckpointLast.antt =====
-- The checkpoint is the last file of a run's plan, and a commit that fails leaves it as it was.
use mathlib.Core.Option.{some-injective}
use incremental_sync_data_se.Base.{
  ◌≡◌, ◌≢◌, refl, sym, ◌∙◌, some, List, [], ◌∷◌, ◌++◌, All, last?, last?-append,
}
use incremental_sync_data_se.Machine.{Machine, Outcome, done, lift}
use incremental_sync_data_se.Machine.Yields.{Yields, Yields-Anything, Yields-pure, Yields-bind}
use incremental_sync_data_se.FileSystem.Frame.{file_at}
use incremental_sync_data_se.Domain.Checkpoint.{to_dict}
use incremental_sync_data_se.Domain.Tables.{TableSpec}
use incremental_sync_data_se.Platform.{Platform}
use incremental_sync_data_se.Pipeline.Plan.{CommitStep}
use incremental_sync_data_se.Pipeline.Staging.{RunStagingDir, checkpoint_path, events_dir}
use incremental_sync_data_se.Pipeline.Commit.{execute_steps}
use incremental_sync_data_se.Pipeline.Commit.Steps.{Away}
use incremental_sync_data_se.Pipeline.Commit.Last.{execute_steps_failed}
use incremental_sync_data_se.Outputs.Events.{stage_events}
use incremental_sync_data_se.Orchestrator.Stage.{
  Settings, checkpoint_file, Store, Predictions, build_events, stage_lake, stage_shares, event_step,
  checkpoint_step, stage_outputs,
}

module _ (sys : Platform) (s : Settings) (store : Store) (staging : RunStagingDir) (p : Predictions)
    (specs : List TableSpec) where
  stage_outputs-last :
      Yields
        (λ steps. last? steps ≡ some (checkpoint_step sys s store staging p))
        (stage_outputs sys s store staging p specs)
  unfolding stage_outputs
  stage_outputs-last =
      let step = checkpoint_step sys s store staging p in
      Yields-bind _ _ (Yields-Anything (stage_lake sys s store staging p specs)) (λ lake _.
        Yields-bind _ _ (Yields-Anything (lift (to_dict p.cp_after))) (λ cp_after _.
          Yields-bind _ _ (Yields-Anything (stage_shares sys s store staging p cp_after specs))
            (λ shares _.
              Yields-bind _ _ (Yields-Anything (lift (build_events p specs))) (λ events _.
                Yields-bind _ _
                  (Yields-Anything
                    (stage_events sys s.events_root events p.run_id (events_dir staging)))
                  (λ file _.
                    Yields-bind _ _
                      (Yields-Anything (store.stage p.cp_after (checkpoint_path staging)))
                      (λ _ _. Yields-pure _ (
                        last?-append (lake ++ shares) (event_step sys s store staging p file)
                          (step ∷ []))))))))

  -- The last step of the plan that staging returns is the checkpoint's. If no step before it renames
  -- from or to the checkpoint's file, then an execution of the plan that raises or is cut off leaves
  -- that file as it was.
  pub stage_outputs-checkpoint_last :
      (m m₁ m₂ m₃ : Machine) (steps : List CommitStep) (last : CommitStep) (r : Outcome (Unit {0}))
      → stage_outputs sys s store staging p specs m ≡ (done (steps ++ last ∷ []), m₁)
      → All (Away (checkpoint_file s)) steps
      → execute_steps (steps ++ last ∷ []) m₂ ≡ (r, m₃)
      → r ≢ done tt
      → (last ≡ checkpoint_step sys s store staging p)
        × (file_at (checkpoint_file s) m₃.fs ≡ file_at (checkpoint_file s) m₂.fs)
  stage_outputs-checkpoint_last m m₁ m₂ m₃ steps last r staged away failed n = (
    some-injective _ _
        (sym (last?-append steps last []) ∙ stage_outputs-last.at m (steps ++ last ∷ []) m₁ staged),
    execute_steps_failed (checkpoint_file s) steps last m₂ away failed n refl,
  )
