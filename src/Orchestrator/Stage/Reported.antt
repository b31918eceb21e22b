-- ===== src/Orchestrator/Stage/Reported.antt =====
-- The events of a run: one for each of its tables, and one line for each event.
use mathlib.Core.Path.{subst}
use incremental_sync_data_se.Base.{
  ◌≡◌, refl, ap, ◌∙◌, sym, String, List, [], ◌∷◌, ok, map, length, length-map, All,
}
use incremental_sync_data_se.Base.Errors.{bind-ok}
use incremental_sync_data_se.Json.{Value, canonical_json_line}
use incremental_sync_data_se.Json.Lines.{Gives, newlines, newlines-canonical_json_line}
use incremental_sync_data_se.Machine.Tree.{Bytes}
use incremental_sync_data_se.Domain.Checkpoint.{to_dict}
use incremental_sync_data_se.Domain.Tables.{TableSpec}
use incremental_sync_data_se.Source.{Row}
use incremental_sync_data_se.Outputs.Events.{Event, event_dict, events_bytes}
use incremental_sync_data_se.Orchestrator.Stage.{
  Predictions, at, build_events, events_for, event_of,
}

-- the tables of some events, and the names of some tables
abbrev tables_of : List Event → List String
tables_of = map (λ (e : Event). e.table)

abbrev names_of : List TableSpec → List String
names_of = map (λ (spec : TableSpec). spec.name)

-- An event of the run, with the number of its table's rows.
abbrev pub Counts : Predictions → Event → Type 0
Counts p e =
    (e.run_id ≡ p.run_id)
    × ((rows : List Row) × (at p.deltas e.table ≡ ok rows) × (e.delta_row_count ≡ length rows))

event_of-Counts :
    (p : Predictions) (cp_after : Value) (spec : TableSpec) (e : Event)
    → event_of p cp_after spec ≡ ok e
    → (e.table ≡ spec.name) × Counts p e
event_of-Counts p cp_after spec e h =
    let (share, _, h₁) = bind-ok (at p.share_path spec.name) _ h in
    let (fingerprint, _, h₂) = bind-ok (at p.fingerprints spec.name) _ h₁ in
    let (rows, found, h₃) = bind-ok (at p.deltas spec.name) _ h₂ in
    let (lake, _, same) = bind-ok (at p.lake_paths spec.name) _ h₃ in
    subst (Gives (λ (e : Event). (e.table ≡ spec.name) × Counts p e)) same
      (refl, (refl, (rows, found, refl)))

events_for-Counts :
    (p : Predictions) (cp_after : Value) (specs : List TableSpec) (events : List Event)
    → events_for p cp_after specs ≡ ok events
    → (tables_of events ≡ names_of specs) × All (Counts p) events
unfolding events_for
events_for-Counts p cp_after [] events h =
    subst (Gives (λ es. (tables_of es ≡ []) × All (Counts p) es)) h (refl, tt)
events_for-Counts p cp_after (spec ∷ specs) events h =
    let (e, first, h₁) = bind-ok (event_of p cp_after spec) _ h in
    let (es, rest, same) = bind-ok (events_for p cp_after specs) _ h₁ in
    let (named, counts) = event_of-Counts p cp_after spec e first in
    let (tables, all) = events_for-Counts p cp_after specs es rest in
    subst (Gives (λ es. (tables_of es ≡ names_of (spec ∷ specs)) × All (Counts p) es)) same
      (rw (named, tables) refl, (counts, all))

events_bytes-newlines :
    (events : List Event) (b : Bytes) → events_bytes events ≡ ok b → newlines b ≡ length events
unfolding events_bytes newlines
events_bytes-newlines [] b h = cc
events_bytes-newlines (e ∷ events) b h =
    let (line, first, h₁) = bind-ok (canonical_json_line (event_dict e)) _ h in
    let (rest, next, same) = bind-ok (events_bytes events) _ h₁ in
    let here = newlines-canonical_json_line (event_dict e) line rest first in
    let more = events_bytes-newlines events rest next in cc

-- The events of a run are one for each of its tables, in the order of the tables, whether the table
-- has new rows or not. Each bears the run's name and the number of its table's rows; and the bytes
-- that are written to the events' file have one line for each table.
pub build_events-Counts :
    (p : Predictions) (specs : List TableSpec) (events : List Event) (b : Bytes)
    → build_events p specs ≡ ok events
    → events_bytes events ≡ ok b
    → (tables_of events ≡ names_of specs) × All (Counts p) events × (newlines b ≡ length specs)
unfolding build_events
build_events-Counts p specs events b h written =
    let (cp_after, _, made) = bind-ok (to_dict p.cp_after) _ h in
    let (tables, all) = events_for-Counts p cp_after specs events made in
    let same =
      sym (length-map (λ (e : Event). e.table) events)
      ∙ ap length tables
      ∙ length-map (λ (spec : TableSpec). spec.name) specs in
    (tables, all, events_bytes-newlines events b written ∙ same)
