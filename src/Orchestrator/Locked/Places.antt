-- ===== src/Orchestrator/Locked/Places.antt =====
-- Where the steps of a staged plan lead: from the run's directory to outside it, by paths that have
-- names.
use incremental_sync_data_se.Base.{
  ◌≡◌, refl, sym, true, false, [], ◌∷◌, ◌++◌, All, nat_eq, list_eq, ◌==◌,
}
use mathlib.Core.Path.{subst}
use incremental_sync_data_se.Base.Sort.{codes}
use incremental_sync_data_se.Time.{Text}
use incremental_sync_data_se.Json.{str}
use incremental_sync_data_se.Json.Parsed.{in_order}
use incremental_sync_data_se.Machine.Tree.{FilePath, ◌/◌, is_under}
use incremental_sync_data_se.FileSystem.Crash.{is_under_refl}
use incremental_sync_data_se.FileSystem.Within.{
  is_under-extend, is_under_trans, siblings, AreDisjoint, AreDisjoint-extend,
}
use incremental_sync_data_se.Domain.Tables.{TableSpec}
use incremental_sync_data_se.Pipeline.Plan.{CommitStep}
use incremental_sync_data_se.Pipeline.Plan.RoundTrip.{IsName}
use incremental_sync_data_se.Pipeline.Plan.Names.{IsName-append, IsName-date, All-join}
use incremental_sync_data_se.Pipeline.Plan.Parsed.{IsReadable}
use incremental_sync_data_se.Pipeline.Staging.{
  RunStagingDir, root, lake_dir, share_dir, events_dir, checkpoint_path, commit_plan_path,
  ready_marker_path,
}
use incremental_sync_data_se.Outputs.Lake.{StagedLakePartition, partition_path}
use incremental_sync_data_se.Outputs.Lake.Keyed.{IsPartition}
use incremental_sync_data_se.Outputs.Share.{share_file}
use incremental_sync_data_se.Outputs.Events.{run_file}
use incremental_sync_data_se.Orchestrator.Stage.{
  Settings, checkpoint_file, Predictions, checkpoint_step,
}
use incremental_sync_data_se.Orchestrator.Locked.{Service}
use incremental_sync_data_se.Orchestrator.Locked.Zones.{
  IsZoned, lake-IsZoned, share-IsZoned, events-IsZoned, checkpoint-IsZoned,
}

-- a step from the run's directory, where neither the marker nor the plan is, to the place of a kind of
-- output outside it
pub record IsPlaced (st : Settings) (d : RunStagingDir) (s : CommitStep) : Type 0 where
  pub inside : is_under (root d) s.staged_path ≡ true
  pub not_marker : is_under (ready_marker_path d) s.staged_path ≡ false
  pub not_plan : is_under (commit_plan_path d) s.staged_path ≡ false
  pub outside : is_under (root d) s.live_path ≡ false
  pub readable : IsReadable s
  pub zoned : IsZoned st s.live_path

abbrev pub IsNamedTable : TableSpec → Type 0
IsNamedTable t = IsName (codes t.lake_subdir) × IsName (codes t.share_subdir)

-- The places of the outputs have names, and the run's directory is not at, above or below one of
-- them; nor is the checkpoint in it.
pub record IsLaidOut (svc : Service) (d : RunStagingDir) : Type 0 where
  pub run_named : All IsName (root d)
  pub id_named : IsName d.run_id
  pub tables_named : All IsNamedTable svc.specs
  pub lake_named : All IsName svc.settings.lake_root
  pub share_named : All IsName svc.settings.share_root
  pub events_named : All IsName svc.settings.events_root
  pub checkpoint_named : All IsName (checkpoint_file svc.settings)
  pub lake_apart : AreDisjoint (root d) svc.settings.lake_root
  pub share_apart : AreDisjoint (root d) svc.settings.share_root
  pub events_apart : AreDisjoint (root d) svc.settings.events_root
  pub checkpoint_apart : is_under (root d) (checkpoint_file svc.settings) ≡ false

-- a path in a directory of the layout
module _ (st : Settings) (d : RunStagingDir) (name : Text) (plain : (codes "READY" == name) ≡ false)
    (other : (codes "commit_plan.json" == name) ≡ false) where
  placed :
      (s : CommitStep)
      → is_under (root d / name) s.staged_path ≡ true
      → is_under (root d) s.live_path ≡ false
      → IsReadable s
      → IsZoned st s.live_path
      → IsPlaced st d s
  unfolding ready_marker_path commit_plan_path
  placed s h out read zoned = record {
    inside =
        is_under_trans (root d) (root d / name) s.staged_path
          (is_under-extend (root d) (root d) (name ∷ []) (is_under_refl (root d))) h;
    not_marker = siblings (root d) name (codes "READY") s.staged_path plain h;
    not_plan = siblings (root d) name (codes "commit_plan.json") s.staged_path other h;
    outside = out;
    readable = read;
    zoned = zoned;
  }

module _ (svc : Service) (d : RunStagingDir) (laid : IsLaidOut svc d) where
  open svc use {sys, settings, store}

  lake_dir_named : All IsName (lake_dir d)
  unfolding lake_dir
  lake_dir_named = All-join (root d) (codes "lake") laid.run_named ((λ e. cc), (λ e. cc), refl)

  share_dir_named : All IsName (share_dir d)
  unfolding share_dir
  share_dir_named = All-join (root d) (codes "share") laid.run_named ((λ e. cc), (λ e. cc), refl)

  events_dir_named : All IsName (events_dir d)
  unfolding events_dir
  events_dir_named = All-join (root d) (codes "events") laid.run_named ((λ e. cc), (λ e. cc), refl)

  partition_named :
      (top : FilePath) (spec : TableSpec) (key : Text)
      → IsName (codes spec.lake_subdir)
      → IsName (codes "date=" ++ key)
      → All IsName top
      → All IsName (partition_path top spec key)
  partition_named top spec key sub date h =
      All-join (top / codes spec.lake_subdir / (codes "date=" ++ key)) (codes "data.jsonl")
        (All-join (top / codes spec.lake_subdir) (codes "date=" ++ key)
          (All-join top (codes spec.lake_subdir) h sub) date)
        ((λ e. cc), (λ e. cc), refl)

  share_named :
      (top : FilePath) (spec : TableSpec)
      → IsName (codes spec.share_subdir)
      → All IsName top
      → All IsName (share_file top spec)
  share_named top spec sub h =
      All-join (top / codes spec.share_subdir) (codes "changes.jsonl")
        (All-join top (codes spec.share_subdir) h sub) ((λ e. cc), (λ e. cc), refl)

  run_file_named : (top : FilePath) → All IsName top → All IsName (run_file top d.run_id)
  run_file_named top h =
      All-join top (d.run_id ++ codes ".jsonl") h
        (IsName-append d.run_id b'.' (codes "jsonl") laid.id_named refl)

  pub lake_step-IsPlaced :
      (spec : TableSpec) (part : StagedLakePartition) (label : Text)
      → IsName (codes spec.lake_subdir)
      → IsPartition settings.lake_root spec (lake_dir d) part
      → IsPlaced settings d
          (record { staged_path = part.staged_path; live_path = part.live_path; label = str label })
  unfolding lake_dir in_order nat_eq list_eq
  lake_step-IsPlaced spec part label sub h =
      let staged = partition_path (lake_dir d) spec h.key in
      let live = partition_path settings.lake_root spec h.key in
      let date = IsName-date h.key h.plain in
      let at : FilePath → FilePath → CommitStep =
        λ a b. record { staged_path = a; live_path = b; label = str label } in
      subst (λ a. IsPlaced settings d (at a part.live_path)) (sym h.staged)
        (subst (λ b. IsPlaced settings d (at staged b)) (sym h.live)
          (placed settings d (codes "lake") refl refl (at staged live)
            (is_under-extend (lake_dir d)
              (lake_dir d / codes spec.lake_subdir / (codes "date=" ++ h.key)) _
              (is_under-extend (lake_dir d) (lake_dir d / codes spec.lake_subdir) _
                (is_under-extend (lake_dir d) (lake_dir d) _ (is_under_refl (lake_dir d)))))
            (AreDisjoint-extend (root d)
              (settings.lake_root / codes spec.lake_subdir / (codes "date=" ++ h.key)) _
              (AreDisjoint-extend (root d) (settings.lake_root / codes spec.lake_subdir) _
                (AreDisjoint-extend (root d) settings.lake_root _ laid.lake_apart))).out
            (record {
              named = (
                partition_named (lake_dir d) spec h.key sub date lake_dir_named,
                partition_named settings.lake_root spec h.key sub date laid.lake_named,
              );
              label = refl;
            })
            (lake-IsZoned settings spec h.key)))

  pub share_step-IsPlaced :
      (spec : TableSpec) (label : Text)
      → IsName (codes spec.share_subdir)
      → IsPlaced settings d (record {
        staged_path = share_file (share_dir d) spec;
        live_path = share_file settings.share_root spec;
        label = str label;
      })
  unfolding share_dir in_order nat_eq list_eq
  share_step-IsPlaced spec label sub =
      placed settings d (codes "share") refl refl _
        (is_under-extend (share_dir d) (share_dir d / codes spec.share_subdir) _
          (is_under-extend (share_dir d) (share_dir d) _ (is_under_refl (share_dir d))))
        (AreDisjoint-extend (root d) (settings.share_root / codes spec.share_subdir) _
          (AreDisjoint-extend (root d) settings.share_root _ laid.share_apart)).out
        (record {
          named = (
            share_named (share_dir d) spec sub share_dir_named,
            share_named settings.share_root spec sub laid.share_named,
          );
          label = refl;
        })
        (share-IsZoned settings spec)

  pub events_step-IsPlaced : IsPlaced settings d (record {
    staged_path = run_file (events_dir d) d.run_id;
    live_path = run_file settings.events_root d.run_id;
    label = str (codes "events");
  })
  unfolding events_dir in_order nat_eq list_eq
  events_step-IsPlaced =
      placed settings d (codes "events") refl refl _
        (is_under-extend (events_dir d) (events_dir d) _ (is_under_refl (events_dir d)))
        (AreDisjoint-extend (root d) settings.events_root _ laid.events_apart).out
        (record {
          named = (
            run_file_named (events_dir d) events_dir_named,
            run_file_named settings.events_root laid.events_named,
          );
          label = refl;
        })
        (events-IsZoned settings d.run_id)

  pub checkpoint_step-IsPlaced :
      (p : Predictions) → IsPlaced settings d (checkpoint_step sys settings store d p)
  unfolding checkpoint_step checkpoint_path in_order nat_eq list_eq
  checkpoint_step-IsPlaced p =
      placed settings d (codes "checkpoint.json") refl refl _ (is_under_refl (checkpoint_path d))
        laid.checkpoint_apart
        (record {
          named = (
            All-join (root d) (codes "checkpoint.json") laid.run_named ((λ e. cc), (λ e. cc), refl),
            laid.checkpoint_named,
          );
          label = refl;
        })
        (checkpoint-IsZoned settings)
