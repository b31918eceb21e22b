-- ===== src/Orchestrator/Locked/Placed.antt =====
-- Every step of the plan that staging returns has its place.
use incremental_sync_data_se.Base.{◌≡◌, sym, Option, none, List, [], ◌∷◌, ◌++◌, All, All-append}
use mathlib.Core.Path.{subst}
use incremental_sync_data_se.Base.Sort.{codes}
use incremental_sync_data_se.Time.{Text}
use incremental_sync_data_se.Json.{Value, str}
use incremental_sync_data_se.Machine.{lift}
use incremental_sync_data_se.Machine.Yields.{Yields, Yields-Anything, Yields-pure, Yields-bind}
use incremental_sync_data_se.FileSystem.{write_bytes_atomic}
use incremental_sync_data_se.Domain.Tables.{TableSpec}
use incremental_sync_data_se.Domain.Checkpoint.{to_dict}
use incremental_sync_data_se.Source.{Row}
use incremental_sync_data_se.Pipeline.Staging.{
  RunStagingDir, lake_dir, share_dir, events_dir, checkpoint_path,
}
use incremental_sync_data_se.Outputs.Lake.{StagedLakePartition}
use incremental_sync_data_se.Outputs.Lake.Keyed.{IsPartition, stage_partitions-IsPartition}
use incremental_sync_data_se.Outputs.Share.{StagedShareFile, share_file, share_bytes, stage_share}
use incremental_sync_data_se.Outputs.Events.{Event, run_file, events_bytes, stage_events}
use incremental_sync_data_se.Orchestrator.Stage.{
  Predictions, at, build_events, lake_steps, share_steps, stage_lake, stage_shares, event_step,
  stage_outputs,
}
use incremental_sync_data_se.Orchestrator.Locked.{Service}
use incremental_sync_data_se.Orchestrator.Locked.Places.{
  IsPlaced, IsLaidOut, IsNamedTable, lake_step-IsPlaced, share_step-IsPlaced, events_step-IsPlaced,
  checkpoint_step-IsPlaced,
}

module _ (svc : Service) (d : RunStagingDir) (laid : IsLaidOut svc d) where
  open svc use {sys, settings, store}

  All-lake_steps :
      (spec : TableSpec) (parts : List StagedLakePartition)
      → IsNamedTable spec
      → All (IsPartition settings.lake_root spec (lake_dir d)) parts
      → All (IsPlaced settings d) (lake_steps parts)
  unfolding lake_steps
  All-lake_steps spec [] n h = tt
  All-lake_steps spec (part ∷ parts) n h =
      (lake_step-IsPlaced svc d laid spec part _ n.0 h.0, All-lake_steps spec parts n h.1)

  -- the share's file, if there is one
  abbrev IsShareFile : TableSpec → Option StagedShareFile → Type 0
  IsShareFile spec o = All (IsPlaced settings d) (share_steps spec o)

  stage_share-IsShareFile :
      (spec : TableSpec) (rows : List Row) (run_id fingerprint : Text) (cp_after : Value)
      → IsNamedTable spec
      → Yields
          (IsShareFile spec)
          (stage_share sys settings.share_root spec rows run_id fingerprint cp_after (share_dir d))
  unfolding stage_share share_steps
  stage_share-IsShareFile spec [] run_id fingerprint cp_after n = Yields-pure none tt
  stage_share-IsShareFile spec (row ∷ rows) run_id fingerprint cp_after n =
      let blob = share_bytes spec run_id fingerprint cp_after (row ∷ rows) in
      Yields-bind _ _ (Yields-Anything (lift blob)) (λ bytes _.
        Yields-bind _ _
          (Yields-Anything
            (write_bytes_atomic sys.random_part (share_file (share_dir d) spec) bytes))
          (λ _ _. Yields-pure _ (share_step-IsPlaced svc d laid spec _ n.1, tt)))

  module _ (p : Predictions) (same : p.run_id ≡ d.run_id) where
    stage_lake-IsPlaced :
        (specs : List TableSpec)
        → All IsNamedTable specs
        → Yields (All (IsPlaced settings d)) (stage_lake sys settings store d p specs)
    unfolding stage_lake
    stage_lake-IsPlaced [] n = Yields-pure [] tt
    stage_lake-IsPlaced (spec ∷ specs) n =
        Yields-bind _ _ (Yields-Anything (lift (at p.deltas spec.name))) (λ rows _.
          Yields-bind _ _
            (stage_partitions-IsPartition sys settings.lake_root spec (lake_dir d) rows)
            (λ parts placed. Yields-bind _ _ (stage_lake-IsPlaced specs n.1) (λ more others.
              Yields-pure (lake_steps parts ++ more) (
                All-append (IsPlaced settings d) (lake_steps parts) more
                  (All-lake_steps spec parts n.0 placed) others))))

    stage_shares-IsPlaced :
        (cp_after : Value) (specs : List TableSpec)
        → All IsNamedTable specs
        → Yields (All (IsPlaced settings d)) (stage_shares sys settings store d p cp_after specs)
    unfolding stage_shares
    stage_shares-IsPlaced cp_after [] n = Yields-pure [] tt
    stage_shares-IsPlaced cp_after (spec ∷ specs) n =
        Yields-bind _ _ (Yields-Anything (lift (at p.deltas spec.name))) (λ rows _.
          Yields-bind _ _ (Yields-Anything (lift (at p.fingerprints spec.name))) (λ fingerprint _.
            Yields-bind _ _ (stage_share-IsShareFile spec rows p.run_id fingerprint cp_after n.0)
              (λ file placed.
                Yields-bind _ _ (stage_shares-IsPlaced cp_after specs n.1) (λ more others.
                  Yields-pure (share_steps spec file ++ more) (
                    All-append (IsPlaced settings d) (share_steps spec file) more placed others)))))

    stage_events-IsPlaced :
        (events : List Event)
        → Yields
            (λ file. IsPlaced settings d (event_step sys settings store d p file))
            (stage_events sys settings.events_root events p.run_id (events_dir d))
    unfolding stage_events event_step
    stage_events-IsPlaced events =
        Yields-bind _ _ (Yields-Anything (lift (events_bytes events))) (λ blob _.
          Yields-bind _ _
            (Yields-Anything
              (write_bytes_atomic sys.random_part (run_file (events_dir d) p.run_id) blob))
            (λ _ _. Yields-pure _ (
              subst
                (λ (id : Text). IsPlaced settings d (record {
                  staged_path = run_file (events_dir d) id;
                  live_path = run_file settings.events_root id;
                  label = str (codes "events");
                }))
                (sym same) (events_step-IsPlaced svc d laid))))

    -- Every step leads from the run's directory to outside it, by paths that have names.
    pub stage_outputs-IsPlaced :
        Yields (All (IsPlaced settings d)) (stage_outputs sys settings store d p svc.specs)
    unfolding stage_outputs
    stage_outputs-IsPlaced =
        Yields-bind _ _ (stage_lake-IsPlaced svc.specs laid.tables_named) (λ lake in_lake.
          Yields-bind _ _ (Yields-Anything (lift (to_dict p.cp_after))) (λ cp_after _.
            Yields-bind _ _ (stage_shares-IsPlaced cp_after svc.specs laid.tables_named)
              (λ shares in_shares.
                Yields-bind _ _ (Yields-Anything (lift (build_events p svc.specs))) (λ events _.
                  Yields-bind _ _ (stage_events-IsPlaced events) (λ file in_events.
                    Yields-bind _ _ (Yields-Anything (store.stage p.cp_after (checkpoint_path d)))
                      (λ _ _. Yields-pure _ (
                        All-append (IsPlaced settings d) (lake ++ shares) _
                          (All-append (IsPlaced settings d) lake shares in_lake in_shares)
                          (in_events, (checkpoint_step-IsPlaced svc d laid p, tt)))))))))
