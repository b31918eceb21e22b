-- ===== src/Outputs/Lake/Split.antt =====
-- lake_writer.py: the lines of a partition's file after a merge.
use mathlib.Core.List.{append_assoc}
use incremental_sync_data_se.Base.{
  ℕ, ◌≡◌, refl, sym, ap, ◌∙◌, arith, true, false, Option, none, some, List, [], ◌∷◌, ◌++◌, Result,
  ok, last?, ◌==◌, ==_refl, nat_eq, inl, inr, Bool-cases, traverse, if◌then◌else◌,
}
use incremental_sync_data_se.Base.Errors.{bind-ok, ◌>>=◌}
use incremental_sync_data_se.Json.{canonical_json_bytes}
use incremental_sync_data_se.Json.Lines.{OneLine, canonical_json_line-bytes}
use incremental_sync_data_se.Machine.Tree.{Bytes, FilePath, Fs}
use incremental_sync_data_se.Domain.Tables.{TableSpec}
use incremental_sync_data_se.Source.{Row}
use incremental_sync_data_se.Outputs.Lake.{
  row_to_jsonl, line_of, lines_of, with_newline, closed_line, existing_bytes, build_merged_content,
}

-- a character at the start of the first line
abbrev onto : ℕ → List Bytes → List Bytes
onto c [] = (c ∷ []) ∷ []
onto c (line ∷ lines) = (c ∷ line) ∷ lines

-- The lines of some bytes, without their newlines; the last line may lack its own.
unfoldable pub split_lines : Bytes → List Bytes
split_lines [] = []
split_lines (c ∷ b) = let rest = split_lines b in if c == 10 then [] ∷ rest else onto c rest

-- the bytes of a row's JSON
abbrev pub json_of_row : TableSpec → Row → Result Bytes
json_of_row table row = row_to_jsonl table row >>= canonical_json_bytes

split_lines-line :
    (body rest : Bytes) → OneLine body → split_lines (body ++ 10 ∷ rest) ≡ body ∷ split_lines rest
unfolding split_lines nat_eq
split_lines-line [] rest h = refl
split_lines-line (c ∷ body) rest h =
    let other : (c == 10) ≡ false = ground arith in rw (other, split_lines-line body rest h.1) refl

first_line_onto : (d : ℕ) (x : List Bytes) → (l : Bytes) × (ls : List Bytes) × (onto d x ≡ l ∷ ls)
first_line_onto d [] = (d ∷ [], [], refl)
first_line_onto d (l ∷ ls) = (d ∷ l, ls, refl)

first_line : (d : ℕ) (a : Bytes) → (l : Bytes) × (ls : List Bytes) × (split_lines (d ∷ a) ≡ l ∷ ls)
unfolding split_lines
first_line d a = elim (Bool-cases (d == 10)) [
  | inl e ↦ ([], split_lines a, rw e refl)
  | inr e ↦ let (l, ls, first) = first_line_onto d (split_lines a) in (l, ls, rw e first)
]

onto-append :
    (c d : ℕ) (a : Bytes) (lines : List Bytes)
    → onto c (split_lines (d ∷ a) ++ lines) ≡ onto c (split_lines (d ∷ a)) ++ lines
onto-append c d a lines = let (l, ls, first) = first_line d a in rw first refl

closed_line_cons : (o : Option ℕ) (c : ℕ) (a : Bytes) → closed_line o (c ∷ a) ≡ c ∷ closed_line o a
closed_line_cons none c a = refl
closed_line_cons (some x) c a = elim (Bool-cases (x == 10)) [
  | inl e ↦ rw e refl
  | inr e ↦ rw e refl
]

newline_lines : (c : ℕ) (b : Bytes) → (c == 10) ≡ true → split_lines (c ∷ b) ≡ [] ∷ split_lines b
unfolding split_lines
newline_lines c b e = rw e refl

other_lines : (c : ℕ) (b : Bytes) → (c == 10) ≡ false → split_lines (c ∷ b) ≡ onto c (split_lines b)
unfolding split_lines
other_lines c b e = rw e refl

split_step :
    (c d : ℕ) (a b x : Bytes)
    → split_lines (x ++ b) ≡ split_lines (d ∷ a) ++ split_lines b
    → split_lines (c ∷ x ++ b) ≡ split_lines (c ∷ d ∷ a) ++ split_lines b
split_step c d a b x rest = elim (Bool-cases (c == 10)) [
  | inl e ↦
      newline_lines c _ e
      ∙ ap (◌∷◌ []) rest
      ∙ ap (λ l. l ++ split_lines b) (sym (newline_lines c _ e))
  | inr e ↦
      other_lines c _ e
      ∙ ap (onto c) rest
      ∙ onto-append c d a (split_lines b)
      ∙ ap (λ l. l ++ split_lines b) (sym (other_lines c _ e))
]

-- Bytes that are closed by a newline keep their lines before others.
split_lines-closed :
    (a b : Bytes) → split_lines (closed_line (last? a) a ++ b) ≡ split_lines a ++ split_lines b
unfolding split_lines
split_lines-closed [] b = refl
split_lines-closed (c ∷ []) b = elim (Bool-cases (c == 10)) [
  | inl e ↦
      let same : closed_line (some c) (c ∷ []) ≡ c ∷ [] = rw e refl in
      ap (λ x. split_lines (x ++ b)) same
      ∙ newline_lines c b e
      ∙ ap (λ l. l ++ split_lines b) (sym (newline_lines c [] e))
  | inr e ↦
      let same : closed_line (some c) (c ∷ []) ≡ c ∷ 10 ∷ [] = rw e refl in
      ap (λ x. split_lines (x ++ b)) same
      ∙ other_lines c (10 ∷ b) e
      ∙ ap (onto c) (newline_lines 10 b (==_refl {A = ℕ} 10))
      ∙ ap (λ l. l ++ split_lines b) (sym (other_lines c [] e))
]
split_lines-closed (c ∷ d ∷ a) b =
    let rest = split_lines-closed (d ∷ a) b in
    let closed = closed_line_cons (last? (d ∷ a)) c (d ∷ a) in
    ap (λ x. split_lines (x ++ b)) closed ∙ split_step c d a b _ rest

split_lines-lines_of :
    (table : TableSpec) (rows : List Row) (b : Bytes)
    → lines_of table rows ≡ ok b
    → traverse (json_of_row table) rows ≡ ok (split_lines b)
unfolding lines_of split_lines traverse
split_lines-lines_of table [] b h = let same : [] ≡ b = cc in ap (λ x. ok (split_lines x)) same
split_lines-lines_of table (row ∷ rows) b h =
    let (line, made, h₁) = bind-ok (line_of table row) _ h in
    let (r, built, first) = bind-ok (row_to_jsonl table row) _ made in
    let (rest, next, e) = bind-ok (lines_of table rows) _ h₁ in
    let (body, encoded, one, closed) = canonical_json_line-bytes r line first in
    let more = split_lines-lines_of table rows rest next in
    let whole : body ++ 10 ∷ rest ≡ b =
      sym (append_assoc body (10 ∷ []) rest)
      ∙ ap (λ l. l ++ rest) (sym closed)
      ∙ (let same : line ++ rest ≡ b = cc in same) in
    rw (built, encoded, more) (ap ok (sym (split_lines-line body rest one) ∙ ap split_lines whole))

-- When a partition's file is merged, its lines are those of what was read from the live path, in order,
-- also when the last of them was not closed, and after them one for each new row, in order, which is
-- the JSON of the row.
pub build_merged_content-split_lines :
    (table : TableSpec) (live_path : FilePath) (rows : List Row) (fs : Fs) (b : Bytes)
    → build_merged_content table live_path rows fs ≡ ok b
    → (existing : Bytes) × (new : List Bytes) × (existing_bytes live_path fs ≡ ok existing)
      × (traverse (json_of_row table) rows ≡ ok new)
      × (split_lines b ≡ split_lines existing ++ new)
unfolding build_merged_content with_newline
build_merged_content-split_lines table live_path rows fs b h =
    let (existing, found, h₁) = bind-ok (existing_bytes live_path fs) _ h in
    let (new, made, e) = bind-ok (lines_of table rows) _ h₁ in
    let same : with_newline existing ++ new ≡ b = cc in
    (
      existing,
      split_lines new,
      found,
      split_lines-lines_of table rows new made,
      ap split_lines (sym same) ∙ split_lines-closed existing new,
    )
