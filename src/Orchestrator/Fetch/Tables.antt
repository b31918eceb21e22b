-- ===== src/Orchestrator/Fetch/Tables.antt =====
-- Dicts with an entry for each table.
use incremental_sync_data_se.Base.{
  String, ◌≡◌, refl, ◌∙◌, true, ◌||◌, List, [], ◌∷◌, Result, ok, bind-each, Bool-cases, inl, inr,
  All, arith, contains, string_eq, ◌==◌, ==_refl,
}
use mathlib.Core.Path.{subst}
use incremental_sync_data_se.Base.Dict
use incremental_sync_data_se.Base.Dict.{Dict}
use incremental_sync_data_se.Domain.Tables.{TableSpec}
use incremental_sync_data_se.Orchestrator.Stage.{for_each, for_tables}

module _ {V : Type 0} where
  All-insert :
      (P : String × V → Type 0) (k : String) (v : V) (d : Dict String V)
      → P (k, v)
      → All P d
      → All P (Dict.insert k v d)
  unfolding Dict.insert
  All-insert P k v [] h hs = (h, tt)
  All-insert P k v ((j, w) ∷ d) h hs = let rest = All-insert P k v d h hs.1 in ground arith

  contains-keys-insert :
      (j k : String) (v : V) (d : Dict String V)
      → contains (Dict.keys (Dict.insert k v d)) j ≡ (j == k || contains (Dict.keys d) j)
  unfolding Dict.keys Dict.insert
  contains-keys-insert j k v [] = refl
  contains-keys-insert j k v ((i, w) ∷ d) = ground (arith, contains-keys-insert j k v d)

  -- what holds of every entry holds at a key
  pub All-at :
      (P : String → Type 0) (d : Dict String V) (k : String)
      → All (λ (entry : String × V). P entry.0) d
      → contains (Dict.keys d) k ≡ true
      → P k
  unfolding Dict.keys
  All-at P [] k h there = cc
  All-at P ((j, v) ∷ d) k h there = elim (Bool-cases (k == j)) [
    | inl here ↦ let same : j ≡ k = ground arith in subst P same h.0
    | inr other ↦ All-at P d k h.1 (ground (arith, there, other))
  ]

module _ {V : Type 0} (f : TableSpec → Result V) where
  All-for_each :
      (P : String × V → Type 0) (specs : List TableSpec) (d d' : Dict String V)
      → All (λ (spec : TableSpec). (v : V) → f spec ≡ ok v → P (spec.name, v)) specs
      → All P d
      → for_each f specs d ≡ ok d'
      → All P d'
  unfolding for_each
  All-for_each P [] d d' each h e = let same : d ≡ d' = cc in subst (All P) same h
  All-for_each P (spec ∷ specs) d d' each h e =
      bind-each (All P) (f spec)
        (λ v made end next.
          All-for_each P specs (Dict.insert spec.name v d) end each.1
            (All-insert P spec.name v d (each.0 v made) h) next)
        d' e

  pub All-for_tables :
      (P : String × V → Type 0) (specs : List TableSpec) (d : Dict String V)
      → All (λ (spec : TableSpec). (v : V) → f spec ≡ ok v → P (spec.name, v)) specs
      → for_tables f specs ≡ ok d
      → All P d
  unfolding for_tables
  All-for_tables P specs d each = All-for_each P specs [] d each tt

  -- a key stays
  stays_listed :
      (k : String) (specs : List TableSpec) (d d' : Dict String V)
      → contains (Dict.keys d) k ≡ true
      → for_each f specs d ≡ ok d'
      → contains (Dict.keys d') k ≡ true
  unfolding for_each
  stays_listed k [] d d' h e =
      let same : d ≡ d' = cc in subst (λ end. contains (Dict.keys end) k ≡ true) same h
  stays_listed k (spec ∷ specs) d d' h e =
      bind-each (λ end. contains (Dict.keys end) k ≡ true) (f spec)
        (λ v made end next.
          stays_listed k specs (Dict.insert spec.name v d) end
            (ground (arith, contains-keys-insert k spec.name v d)) next)
        d' e

  listed :
      (specs : List TableSpec) (d d' : Dict String V)
      → for_each f specs d ≡ ok d'
      → All (λ (spec : TableSpec). contains (Dict.keys d') spec.name ≡ true) specs
  unfolding for_each
  listed [] d d' e = tt
  listed (spec ∷ specs) d d' e =
      bind-each
        (λ end. All (λ (t : TableSpec). contains (Dict.keys end) t.name ≡ true) (spec ∷ specs))
        (f spec)
        (λ v made end next. (
          stays_listed spec.name specs (Dict.insert spec.name v d) end
              (contains-keys-insert spec.name spec.name v d ∙ rw (==_refl spec.name) refl) next,
          listed specs (Dict.insert spec.name v d) end next,
        ))
        d' e

  -- every table has an entry
  pub for_tables-listed :
      (specs : List TableSpec) (d : Dict String V)
      → for_tables f specs ≡ ok d
      → All (λ (spec : TableSpec). contains (Dict.keys d) spec.name ≡ true) specs
  unfolding for_tables
  for_tables-listed specs d = listed specs [] d

  -- with one value for every table
  for_each_const :
      (v : V) (specs : List TableSpec) (d : Dict String V)
      → All (λ (spec : TableSpec). f spec ≡ ok v) specs
      → (d' : Dict String V) × (for_each f specs d ≡ ok d')
  unfolding for_each
  for_each_const v [] d h = (d, refl)
  for_each_const v (spec ∷ specs) d h =
      let (d', e) = for_each_const v specs (Dict.insert spec.name v d) h.1 in (d', rw (h.0) e)

  pub for_tables_const :
      (v : V) (specs : List TableSpec)
      → All (λ (spec : TableSpec). f spec ≡ ok v) specs
      → (d : Dict String V) × (for_tables f specs ≡ ok d)
  unfolding for_tables
  for_tables_const v specs = for_each_const v specs []
