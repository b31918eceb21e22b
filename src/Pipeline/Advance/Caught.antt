-- ===== src/Pipeline/Advance/Caught.antt =====
-- A checkpoint that was advanced past the deltas of some tables is past the tables.
use mathlib.Core.Path.{subst}
use incremental_sync_data_se.Base.{
  String, ◌≡◌, refl, sym, ap, ◌∙◌, ◌⊎◌, Option, none, some, Bool-cases, false, inl, inr, List, [],
  ◌∷◌, ok, bind-each, All, last?, arith, string_eq, ◌==◌, ==_refl,
}
use incremental_sync_data_se.Base.Dict
use incremental_sync_data_se.Base.Dict.{Dict}
use incremental_sync_data_se.Domain.Checkpoint.{TableWatermark, Checkpoint, watermark}
use incremental_sync_data_se.Domain.Tables.{TableSpec}
use incremental_sync_data_se.Source.{SourceRow, Row, fetch_delta}
use incremental_sync_data_se.Pipeline.Advance.{row_watermark, advance_table, advance_checkpoint}
use incremental_sync_data_se.Pipeline.Advance.Exact.{fetch_delta-advanced}
use incremental_sync_data_se.Pipeline.Advance.Forward.{IsDelta, watermark-with_updated, in_result}

nil_of_last? {ℓ} : {A : Type ℓ} (l : List A) → last? l ≡ none → l ≡ []
nil_of_last? [] h = refl
nil_of_last? (x ∷ []) h = cc
nil_of_last? (x ∷ y ∷ l) h = cc (nil_of_last? (y ∷ l) h)

module _ (specs : Dict String TableSpec) (table : String → List SourceRow) where
  -- a registered table has nothing past its watermark
  abbrev pub IsCaught : String → Checkpoint → Type 0
  IsCaught name cp =
      (spec : TableSpec)
      → Dict.lookup name specs ≡ some spec
      → fetch_delta spec (watermark name cp) (table name) ≡ ok []

  module _ (base : Checkpoint) where
    caught_after :
        (name : String) (rows : List Row) (row : Row) (w : TableWatermark) (spec : TableSpec)
        → (delta : IsDelta specs table base (name, rows)) → last? rows ≡ some row
        → row_watermark delta.spec row ≡ ok w
        → Dict.lookup name specs ≡ some spec
        → fetch_delta spec w (table name) ≡ ok []
    caught_after name rows row w spec delta last advanced found =
        let same : delta.spec ≡ spec = cc (delta.registered, found) in
        ap (λ s. fetch_delta s w (table name)) (sym same)
        ∙ fetch_delta-advanced delta.spec delta.keyed delta.timed (watermark name base) w
            (table name) rows row delta.fetched last advanced

    -- with the watermark it started from, or caught up
    abbrev OldOrCaught : Checkpoint → Type 0
    OldOrCaught cp = (t : String) → (watermark t cp ≡ watermark t base) ⊎ IsCaught t cp

    module _ (name : String) (rows : List Row) (delta : IsDelta specs table base (name, rows)) where
      advance_table-IsCaught :
          (t : String) (o : Option Row) (cp cp' : Checkpoint)
          → last? rows ≡ o
          → IsCaught t cp
          → advance_table specs name o cp ≡ ok cp'
          → IsCaught t cp'
      advance_table-IsCaught t none cp cp' last caught h =
          subst (IsCaught t) (ap (in_result cp) h) caught
      advance_table-IsCaught t (some row) cp cp' last caught h =
          bind-each (IsCaught t) (row_watermark delta.spec row)
            (λ w advanced next e. subst (IsCaught t) (ap (in_result cp) e) (λ spec found.
              elim (Bool-cases (t == name)) [
                | inl here ↦
                    let same : t ≡ name = ground arith in
                    let found' = ap (λ n. Dict.lookup n specs) (sym same) ∙ found in
                    rw (watermark-with_updated t name w cp, here, same)
                      (caught_after name rows row w spec delta last advanced found')
                | inr other ↦ rw (watermark-with_updated t name w cp, other) (caught spec found)
              ]))
            cp' (rw (delta.registered) at h)

      -- after its round the table is caught up
      advance_table-own :
          (o : Option Row) (cp cp' : Checkpoint)
          → last? rows ≡ o
          → OldOrCaught cp
          → advance_table specs name o cp ≡ ok cp'
          → IsCaught name cp'
      advance_table-own none cp cp' last before h =
          subst (IsCaught name) (ap (in_result cp) h) (elim (before name) [
            | inl old ↦ λ spec found.
                let same : delta.spec ≡ spec = cc (delta.registered, found) in
                rw (old, sym same) (delta.fetched ∙ ap ok (nil_of_last? rows last))
            | inr caught ↦ caught
          ])
      advance_table-own (some row) cp cp' last before h =
          bind-each (IsCaught name) (row_watermark delta.spec row)
            (λ w advanced next e. subst (IsCaught name) (ap (in_result cp) e) (λ spec found.
              rw (watermark-with_updated name name w cp, ==_refl name)
                (caught_after name rows row w spec delta last advanced found)))
            cp' (rw (delta.registered) at h)

      advance_table-elsewhere :
          (t : String) (o : Option Row) (cp cp' : Checkpoint)
          → (t == name) ≡ false
          → advance_table specs name o cp ≡ ok cp'
          → watermark t cp' ≡ watermark t cp
      advance_table-elsewhere t none cp cp' other h = ap (watermark t) (sym (ap (in_result cp) h))
      advance_table-elsewhere t (some row) cp cp' other h =
          bind-each (λ end. watermark t end ≡ watermark t cp) (row_watermark delta.spec row)
            (λ w _ next e.
              ap (watermark t) (sym (ap (in_result cp) e))
              ∙ rw (watermark-with_updated t name w cp, other) refl)
            cp' (rw (delta.registered) at h)

      advance_table-others :
          (o : Option Row) (cp cp' : Checkpoint)
          → last? rows ≡ o
          → OldOrCaught cp
          → advance_table specs name o cp ≡ ok cp'
          → OldOrCaught cp'
      advance_table-others o cp cp' last before h t = elim (before t) [
        | inr caught ↦ inr (advance_table-IsCaught t o cp cp' last caught h)
        | inl old ↦ elim (Bool-cases (t == name)) [
          | inl here ↦
              let same : t ≡ name = ground arith in
              inr
                (subst (λ n. IsCaught n cp') (sym same) (advance_table-own o cp cp' last before h))
          | inr other ↦ inl (advance_table-elsewhere t o cp cp' other h ∙ old)
        ]
      ]

    advance_checkpoint-IsCaught :
        (deltas : Dict String (List Row)) (t : String) (cp cp' : Checkpoint)
        → All (IsDelta specs table base) deltas
        → IsCaught t cp
        → advance_checkpoint specs deltas cp ≡ ok cp'
        → IsCaught t cp'
    unfolding advance_checkpoint
    advance_checkpoint-IsCaught [] t cp cp' fetched caught h =
        subst (IsCaught t) (ap (in_result cp) h) caught
    advance_checkpoint-IsCaught ((name, rows) ∷ deltas) t cp cp' fetched caught h =
        bind-each (IsCaught t) (advance_table specs name (last? rows) cp)
          (λ next first end.
            advance_checkpoint-IsCaught deltas t next end fetched.1
              (advance_table-IsCaught name rows fetched.0 t (last? rows) cp next refl caught first))
          cp' h

    IsCaught-from :
        (deltas : Dict String (List Row)) (cp cp' : Checkpoint)
        → All (IsDelta specs table base) deltas
        → OldOrCaught cp
        → advance_checkpoint specs deltas cp ≡ ok cp'
        → All (λ (entry : String × List Row). IsCaught entry.0 cp') deltas
    unfolding advance_checkpoint
    IsCaught-from [] cp cp' fetched before h = tt
    IsCaught-from ((name, rows) ∷ deltas) cp cp' fetched before h =
        bind-each
          (λ end. All (λ (entry : String × List Row). IsCaught entry.0 end) ((name, rows) ∷ deltas))
          (advance_table specs name (last? rows) cp)
          (λ next first end rest. (
            advance_checkpoint-IsCaught deltas name next end fetched.1
                (advance_table-own name rows fetched.0 (last? rows) cp next refl before first) rest,
            IsCaught-from deltas next end fetched.1
                (advance_table-others name rows fetched.0 (last? rows) cp next refl before first)
                rest,
          ))
          cp' h

  -- Once a checkpoint has been advanced past the deltas of registered tables, each past its watermark,
  -- none of these tables has a row past its new watermark.
  pub advance_checkpoint-All :
      (cp cp' : Checkpoint) (deltas : Dict String (List Row))
      → All (IsDelta specs table cp) deltas
      → advance_checkpoint specs deltas cp ≡ ok cp'
      → All (λ (entry : String × List Row). IsCaught entry.0 cp') deltas
  advance_checkpoint-All cp cp' deltas fetched =
      IsCaught-from cp deltas cp cp' fetched (λ t. inl refl)
