-- ===== src/Orchestrator/Locked/Zones.antt =====
-- Where the outputs of a run are published: each kind of output below its own directory, and all of
-- one kind equally deep.
use incremental_sync_data_se.Base.{
  ℕ, ◌+◌, ◌≤◌, ◌≡◌, refl, sym, ap, ◌∙◌, ◌⊎◌, inl, inr, Bool-cases, true, false, nat_eq, list_eq,
  List, [], ◌∷◌, ◌++◌, All, All-weaken, length, length-append, arith,
}
use incremental_sync_data_se.Base.Sort.{codes}
use incremental_sync_data_se.Machine.Tree.{FilePath, ◌/◌, parent, is_under}
use incremental_sync_data_se.FileSystem.Crash.{is_under-parent, is_under_refl}
use incremental_sync_data_se.FileSystem.Within.{is_under-extend, is_under_trans, AreDisjoint}
use incremental_sync_data_se.Time.{Text}
use incremental_sync_data_se.Domain.Tables.{TableSpec}
use incremental_sync_data_se.Outputs.Lake.{partition_path}
use incremental_sync_data_se.Outputs.Share.{share_file}
use incremental_sync_data_se.Outputs.Events.{run_file}
use incremental_sync_data_se.Pipeline.Plan.{CommitStep}
use incremental_sync_data_se.Pipeline.Commit.Clear.{NotAbove, IsOpen}
use incremental_sync_data_se.Orchestrator.Stage.{Settings, checkpoint_file}

length-is_under : (p q : FilePath) → is_under p q ≡ true → length p ≤ length q
unfolding is_under
length-is_under [] q h = omega arith
length-is_under (x ∷ p) [] h = cc
length-is_under (x ∷ p) (y ∷ q) h = ground (arith, length-is_under p q)

length-parent : (x : List ℕ) (q : FilePath) → length (parent (x ∷ q)) ≡ length q
unfolding parent
length-parent x [] = refl
length-parent x (y ∷ q) = omega (arith, length-parent y q)

-- A path is not at or above the directory of one that is as deep.
not_above_same :
    (p q : FilePath) → length p ≡ length q → 1 ≤ length q → is_under p (parent q) ≡ false
not_above_same p [] same deep = ground arith
not_above_same p (x ∷ q) same deep = elim (Bool-cases (is_under p (parent (x ∷ q)))) [
  | inl e ↦ ground (arith, length-is_under p (parent (x ∷ q)) e, length-parent x q)
  | inr e ↦ e
]

-- Two paths above a third are one above the other.
comparable :
    (p q r : FilePath)
    → is_under p r ≡ true
    → is_under q r ≡ true
    → (is_under p q ≡ true) ⊎ (is_under q p ≡ true)
unfolding is_under
comparable [] q r h k = inl refl
comparable (x ∷ p) [] r h k = inr refl
comparable (x ∷ p) (y ∷ q) [] h k = cc
comparable (x ∷ p) (y ∷ q) (z ∷ r) h k = ground (arith, comparable p q r)

-- the kinds of output
pub data Zone : Type 0 where
  lake_zone : Zone
  share_zone : Zone
  events_zone : Zone
  checkpoint_zone : Zone

abbrev pub top : Settings → Zone → FilePath
top st lake_zone = st.lake_root
top st share_zone = st.share_root
top st events_zone = st.events_root
top st checkpoint_zone = checkpoint_file st

abbrev pub depth : Zone → ℕ
depth lake_zone = 3
depth share_zone = 2
depth events_zone = 1
depth checkpoint_zone = 0

-- a path at the depth of its kind of output
pub record IsZoned (st : Settings) (live : FilePath) : Type 0 where
  pub zone : Zone
  pub below : is_under (top st zone) live ≡ true
  pub deep : length live ≡ length (top st zone) + depth zone

-- No place of a kind of output is at or above that of another.
pub record IsSpread (st : Settings) : Type 0 where
  pub lake_share : AreDisjoint st.lake_root st.share_root
  pub lake_events : AreDisjoint st.lake_root st.events_root
  pub lake_checkpoint : AreDisjoint st.lake_root (checkpoint_file st)
  pub share_events : AreDisjoint st.share_root st.events_root
  pub share_checkpoint : AreDisjoint st.share_root (checkpoint_file st)
  pub events_checkpoint : AreDisjoint st.events_root (checkpoint_file st)

flip : (a b : FilePath) → AreDisjoint a b → AreDisjoint b a
flip a b h = record { out = h.back; back = h.out }

module _ (st : Settings) (spread : IsSpread st) where
  spread_out : (z z' : Zone) → (z ≡ z') ⊎ AreDisjoint (top st z) (top st z')
  spread_out lake_zone lake_zone = inl refl
  spread_out share_zone share_zone = inl refl
  spread_out events_zone events_zone = inl refl
  spread_out checkpoint_zone checkpoint_zone = inl refl
  spread_out lake_zone share_zone = inr spread.lake_share
  spread_out lake_zone events_zone = inr spread.lake_events
  spread_out lake_zone checkpoint_zone = inr spread.lake_checkpoint
  spread_out share_zone events_zone = inr spread.share_events
  spread_out share_zone checkpoint_zone = inr spread.share_checkpoint
  spread_out events_zone checkpoint_zone = inr spread.events_checkpoint
  spread_out share_zone lake_zone = inr (flip _ _ spread.lake_share)
  spread_out events_zone lake_zone = inr (flip _ _ spread.lake_events)
  spread_out checkpoint_zone lake_zone = inr (flip _ _ spread.lake_checkpoint)
  spread_out events_zone share_zone = inr (flip _ _ spread.share_events)
  spread_out checkpoint_zone share_zone = inr (flip _ _ spread.share_checkpoint)
  spread_out checkpoint_zone events_zone = inr (flip _ _ spread.events_checkpoint)

  zone_depth : (z : Zone) → 1 ≤ length (top st z) + depth z
  unfolding checkpoint_file
  zone_depth lake_zone = omega arith
  zone_depth share_zone = omega arith
  zone_depth events_zone = omega arith
  zone_depth checkpoint_zone =
      omega (arith, length-append st.state_dir (codes "checkpoint.json" ∷ []))

  some_depth : (live : FilePath) → IsZoned st live → 1 ≤ length live
  some_depth live z = omega (arith, zone_depth z.zone, z.deep)

  -- A target of a run is not at or above the directory of another.
  not_above : (a b : FilePath) → IsZoned st a → IsZoned st b → is_under a (parent b) ≡ false
  not_above a b za zb = elim (spread_out za.zone zb.zone) [
    | inl same ↦
        not_above_same a b (za.deep ∙ ap (λ z. length (top st z) + depth z) same ∙ sym zb.deep)
          (some_depth b zb)
    | inr apart ↦ elim (Bool-cases (is_under a (parent b))) [
      | inl above ↦
          let on = is_under-parent a b above in
          elim (comparable (top st za.zone) (top st zb.zone) b
            (is_under_trans (top st za.zone) a b za.below on) zb.below) [
              | inl e ↦ cc (e, apart.out)
              | inr e ↦ cc (e, apart.back)
            ]
      | inr e ↦ e
    ]
  ]

  pub All-IsZoned-IsOpen :
      (steps : List CommitStep)
      → All (λ (s : CommitStep). IsZoned st s.live_path) steps
      → IsOpen steps
  All-IsZoned-IsOpen steps h =
      All-weaken (λ (s : CommitStep). IsZoned st s.live_path) _ steps
        (λ s zs.
          All-weaken (λ (t : CommitStep). IsZoned st t.live_path) (NotAbove s.live_path) steps
            (λ t zt. not_above s.live_path t.live_path zs zt) h)
        h

-- the places of the outputs
module _ (st : Settings) where
  pub lake-IsZoned :
      (spec : TableSpec) (key : Text) → IsZoned st (partition_path st.lake_root spec key)
  lake-IsZoned spec key =
      let table = st.lake_root / codes spec.lake_subdir in
      let day = table / (codes "date=" ++ key) in
      record {
        zone = lake_zone;
        below = is_under-extend st.lake_root day _ (
            is_under-extend st.lake_root table _
              (is_under-extend st.lake_root st.lake_root _ (is_under_refl st.lake_root)));
        deep = omega (
          arith,
          length-append st.lake_root (codes spec.lake_subdir ∷ []),
          length-append table ((codes "date=" ++ key) ∷ []),
          length-append day (codes "data.jsonl" ∷ []),
        );
      }

  pub share-IsZoned : (spec : TableSpec) → IsZoned st (share_file st.share_root spec)
  share-IsZoned spec =
      let table = st.share_root / codes spec.share_subdir in
      record {
        zone = share_zone;
        below =
            is_under-extend st.share_root table _
              (is_under-extend st.share_root st.share_root _ (is_under_refl st.share_root));
        deep = omega (
          arith,
          length-append st.share_root (codes spec.share_subdir ∷ []),
          length-append table (codes "changes.jsonl" ∷ []),
        );
      }

  pub events-IsZoned : (id : Text) → IsZoned st (run_file st.events_root id)
  events-IsZoned id = record {
    zone = events_zone;
    below = is_under-extend st.events_root st.events_root _ (is_under_refl st.events_root);
    deep = length-append st.events_root ((id ++ codes ".jsonl") ∷ []);
  }

  pub checkpoint-IsZoned : IsZoned st (checkpoint_file st)
  checkpoint-IsZoned = record {
    zone = checkpoint_zone;
    below = is_under_refl (checkpoint_file st);
    deep = omega arith;
  }
