-- ===== src/Outputs/Lake/Merge.antt =====
-- lake_writer.py: what a partition's file holds after the deltas of several runs.
use mathlib.Core.Path.{subst}
use mathlib.Core.List.{append_assoc, append-nil}
use incremental_sync_data_se.Base.{
  ℕ, ◌≡◌, refl, ==_refl, sym, ap, ◌∙◌, arith, Bool, true, Option, none, some, List, [], ◌∷◌, ◌++◌,
  ok, last?, last?-append, ◌==◌, nat_eq, inl, inr, Bool-cases, Result-cases,
}
use incremental_sync_data_se.Base.Errors.{bind-ok, ◌>>=◌}
use incremental_sync_data_se.Json.{Value, canonical_json_bytes, canonical_json_line}
use incremental_sync_data_se.Machine.Tree.{Bytes, FilePath, file, Fs, node_at, exists}
use incremental_sync_data_se.Domain.Tables.{TableSpec}
use incremental_sync_data_se.Source.{Row}
use incremental_sync_data_se.Pipeline.Staging.{read_bytes}
use incremental_sync_data_se.Outputs.Lake.{
  row_to_jsonl, line_of, lines_of, closed_line, with_newline, existing_bytes, build_merged_content,
}

abbrev is_newline : Option ℕ → Bool
is_newline none = true
is_newline (some c) = c == 10

-- nothing, or lines that are closed
abbrev IsClosed : Bytes → Type 0
IsClosed b = is_newline (last? b) ≡ true

closed_line_lem : (b : Bytes) (o : Option ℕ) → is_newline o ≡ true → closed_line o b ≡ b
closed_line_lem b none h = refl
closed_line_lem b (some c) h = rw h refl

with_newline-IsClosed : (b : Bytes) → IsClosed b → with_newline b ≡ b
unfolding with_newline
with_newline-IsClosed b h = closed_line_lem b (last? b) h

newline-IsClosed : (a : Bytes) → IsClosed (a ++ 10 ∷ [])
newline-IsClosed a = rw (last?-append a 10 []) (==_refl {A = ℕ} 10)

IsClosed-closed_line : (b : Bytes) (o : Option ℕ) → last? b ≡ o → IsClosed (closed_line o b)
IsClosed-closed_line b none h = rw h refl
IsClosed-closed_line b (some c) h = elim (Bool-cases (c == 10)) [
  | inl e ↦ rw (e, h) e
  | inr e ↦ rw e (newline-IsClosed b)
]

IsClosed-with_newline : (b : Bytes) → IsClosed (with_newline b)
unfolding with_newline
IsClosed-with_newline b = IsClosed-closed_line b (last? b) refl

IsClosed-append : (a b : Bytes) → IsClosed a → IsClosed b → IsClosed (a ++ b)
IsClosed-append a [] ca cb = rw (append-nil a) ca
IsClosed-append a (x ∷ b) ca cb = rw (last?-append a x b) cb

canonical_json_line-IsClosed : (v : Value) {b : Bytes} → canonical_json_line v ≡ ok b → IsClosed b
unfolding canonical_json_line with_newline
canonical_json_line-IsClosed v {b} h =
    let (c, _, e) = bind-ok (canonical_json_bytes v) _ h in
    let same : c ++ 10 ∷ [] ≡ b = cc in subst IsClosed same (newline-IsClosed c)

IsClosed-lines_of :
    (table : TableSpec) (rows : List Row) {b : Bytes} → lines_of table rows ≡ ok b → IsClosed b
unfolding lines_of
IsClosed-lines_of table [] {b} h = subst IsClosed (let same : [] ≡ b = cc in same) refl
IsClosed-lines_of table (row ∷ rows) {b} h =
    let (line, first, next) = bind-ok (line_of table row) _ h in
    let (rest, others, e) = bind-ok (lines_of table rows) _ next in
    let (v, _, printed) = bind-ok (row_to_jsonl table row) _ first in
    let same : line ++ rest ≡ b = cc in
    subst IsClosed same (
      IsClosed-append line rest (canonical_json_line-IsClosed v printed)
        (IsClosed-lines_of table rows others))

lines_of-append :
    (table : TableSpec) (rows more : List Row)
    → lines_of table (rows ++ more)
      ≡ (lines_of table rows >>= λ a. lines_of table more >>= λ b. ok (a ++ b))
unfolding lines_of
lines_of-append table [] more = elim (Result-cases (lines_of table more)) [
  | inl (_, e) ↦ rw e refl
  | inr (_, e) ↦ rw e refl
]
lines_of-append table (row ∷ rows) more =
    let step = lines_of-append table rows more in
    elim (Result-cases (line_of table row)) [
      | inl (_, e) ↦ rw e refl
      | inr (line, e) ↦
          rw (e, step)
            (elim (Result-cases (lines_of table rows)) [
              | inl (_, d) ↦ rw d refl
              | inr (a, d) ↦ rw d (elim (Result-cases (lines_of table more)) [
                | inl (_, c) ↦ rw c refl
                | inr (b, c) ↦ rw c (ap ok (sym (append_assoc line a b)))
              ])
            ])
    ]

-- The bytes that a run left in a partition, with the next run's rows merged in, are the bytes that one
-- run with the rows of both would have left, where both merges succeed.
pub build_merged_content-append :
    (table : TableSpec) (live_path : FilePath) (rows more : List Row) (fs fs' : Fs)
    (first second : Bytes)
    → build_merged_content table live_path rows fs ≡ ok first
    → node_at live_path fs' ≡ some (file first)
    → build_merged_content table live_path more fs' ≡ ok second
    → build_merged_content table live_path (rows ++ more) fs ≡ ok second
unfolding build_merged_content existing_bytes read_bytes exists
build_merged_content-append table live_path rows more fs fs' first second h there k =
    let (old, was, h₁) = bind-ok (existing_bytes live_path fs) _ h in
    let (a, la, h₂) = bind-ok (lines_of table rows) _ h₁ in
    let now : existing_bytes live_path fs' ≡ ok first = ground (arith, there) in
    let (old', was', k₁) = bind-ok (existing_bytes live_path fs') _ k in
    let (b, lb, k₂) = bind-ok (lines_of table more) _ k₁ in
    let kept : with_newline first ≡ first = with_newline-IsClosed first (
      subst IsClosed (let same : with_newline old ++ a ≡ first = cc in same) (
        IsClosed-append (with_newline old) a (IsClosed-with_newline old)
          (IsClosed-lines_of table rows la))) in
    let both : lines_of table (rows ++ more) ≡ ok (a ++ b) =
      lines_of-append table rows more ∙ rw (la, lb) refl in
    let grouped = append_assoc (with_newline old) a b in
    let whole : with_newline old ++ a ≡ first = cc in
    let again : first ≡ old' = cc in
    let glue : Bytes → Bytes = λ x. x ++ b in
    let end = sym grouped ∙ ap glue (whole ∙ sym kept ∙ ap with_newline again) in
    rw (was, both) (ap ok end ∙ k₂)
