-- ===== src/Json/Lines.antt =====
-- The lines of a JSON Lines file do not run into one another.
use mathlib.Core.Path.{subst}
use incremental_sync_data_se.Base.{
  ℕ, zero, suc, ◌+◌, ◌≡◌, ◌≢◌, refl, sym, ap, ◌∙◌, value_error, Bool-cases, inl, inr, ℤ, pos,
  negsuc, true, false, ◌/◌, ◌%◌, List, [], ◌∷◌, ◌++◌, Result, ok, err, ◌>>=◌, eqb, if◌then◌else◌,
  traverse, All, All-append, arith,
}
use incremental_sync_data_se.Base.Errors.{bind-ok}
use incremental_sync_data_se.Base.Sort.{codes, sort_by}
use incremental_sync_data_se.Base.Sort.Sorted.{All-sort_by}
use incremental_sync_data_se.Time.{Text, iso_utc_z}
use incremental_sync_data_se.Time.Print.{decimal, decimal_with}
use incremental_sync_data_se.Json.{
  Value, null, boolean, int, str, array, object, datetime, decimal_number, bytes, opaque, Items,
  nil, cons, Fields, end, field, compact, escape, escape_all, quote, utf8_char, entry_text,
  int_text, join, bracket, Entry, entry_key, object_text, dumps, item_texts, entry_texts, encode,
  has_surrogate, encode_utf8, canonical_json_bytes, canonical_json_line,
}

-- not the newline
abbrev pub Inline : ℕ → Type 0
Inline c = c ≢ 10

abbrev pub OneLine : List ℕ → Type 0
OneLine t = All Inline t

-- the result, if there is one, is as said
abbrev pub Gives {ℓ κ} : {A : Type ℓ} → (A → Type κ) → Result A → Type κ
Gives P (ok a) = P a
Gives P (err e) = Unit

Gives-bind {ℓ ℓ' κ κ'} :
    {A : Type ℓ} {B : Type ℓ'} (P : A → Type κ) (Q : B → Type κ') (r : Result A) (f : A → Result B)
    → Gives P r
    → ((a : A) → P a → Gives Q (f a))
    → Gives Q (r >>= f)
Gives-bind P Q (ok a) f h k = k a h
Gives-bind P Q (err e) f h k = tt

anything {ℓ} : {A : Type ℓ} (r : Result A) → Gives (λ a. Unit {0}) r
anything (ok a) = tt
anything (err e) = tt

OneLine-append : (s t : List ℕ) → OneLine s → OneLine t → OneLine (s ++ t)
OneLine-append s t = All-append Inline s t

escape-OneLine : (c : ℕ) → OneLine (escape c)
unfolding escape
escape-OneLine c = ground arith

escape_all-OneLine : (s : List ℕ) → OneLine (escape_all s)
escape_all-OneLine [] = tt
escape_all-OneLine (c ∷ s) = OneLine-append (escape c) _ (escape-OneLine c) (escape_all-OneLine s)

quote-OneLine : (s : List ℕ) → OneLine (quote s)
unfolding quote
quote-OneLine s =
    ((omega arith), OneLine-append (escape_all s) _ (escape_all-OneLine s) ((omega arith), tt))

decimal_with-OneLine : (fuel n : ℕ) → OneLine (decimal_with fuel n)
unfolding decimal_with
decimal_with-OneLine zero n = tt
decimal_with-OneLine (suc fuel) n =
    let more =
      OneLine-append (decimal_with fuel (n / 10)) ((48 + n % 10) ∷ [])
        (decimal_with-OneLine fuel (n / 10)) ((omega arith), tt) in
    ground (arith, more)

int_text-OneLine : (i : ℤ) → OneLine (int_text i)
unfolding int_text decimal
int_text-OneLine (pos n) = decimal_with-OneLine (suc n) n
int_text-OneLine (negsuc n) = ((omega arith), decimal_with-OneLine (suc (suc n)) (suc n))

join-OneLine : (ts : List Text) → All OneLine ts → OneLine (join (b',' ∷ []) ts)
unfolding join
join-OneLine [] h = tt
join-OneLine (t ∷ []) h = h.0
join-OneLine (t ∷ u ∷ us) h =
    OneLine-append (t ++ b',' ∷ []) (join (b',' ∷ []) (u ∷ us))
      (OneLine-append t (b',' ∷ []) h.0 ((omega arith), tt)) (join-OneLine (u ∷ us) h.1)

bracket-OneLine :
    (level a z : ℕ) (ts : List Text)
    → Inline a
    → Inline z
    → All OneLine ts
    → OneLine (bracket compact level a z ts)
unfolding bracket
bracket-OneLine level a z [] ha hz h = (ha, (hz, tt))
bracket-OneLine level a z (t ∷ ts) ha hz h = (
  ha,
  OneLine-append (join (b',' ∷ []) (t ∷ ts) ++ []) (z ∷ [])
      (OneLine-append (join (b',' ∷ []) (t ∷ ts)) [] (join-OneLine (t ∷ ts) h) tt) (hz, tt),
)

utf8_char-OneLine : (c : ℕ) → Inline c → OneLine (utf8_char c)
utf8_char-OneLine c h = ground arith

encode_utf8-OneLine : (t : Text) → OneLine t → OneLine (encode_utf8 t)
unfolding encode_utf8
encode_utf8-OneLine [] h = tt
encode_utf8-OneLine (c ∷ cs) h =
    OneLine-append (utf8_char c) _ (utf8_char-OneLine c h.0) (encode_utf8-OneLine cs h.1)

-- an entry's value is on one line, if it could be encoded
abbrev EntryOneLine : Entry → Type 0
EntryOneLine e = Gives OneLine e.1

entry_text-OneLine : (e : Entry) → EntryOneLine e → Gives OneLine (entry_text compact e)
entry_text-OneLine (k, r) h = Gives-bind OneLine OneLine r _ h (λ t one.
    OneLine-append (quote (codes k) ++ b':' ∷ []) t
      (OneLine-append (quote (codes k)) (b':' ∷ []) (quote-OneLine (codes k)) ((omega arith), tt))
      one)

traverse-OneLine :
    (es : List Entry) → All EntryOneLine es → Gives (All OneLine) (traverse (entry_text compact) es)
unfolding traverse
traverse-OneLine [] h = tt
traverse-OneLine (e ∷ es) h =
    Gives-bind OneLine (All OneLine) (entry_text compact e) _ (entry_text-OneLine e h.0) (λ t one.
      Gives-bind (All OneLine) (All OneLine) (traverse (entry_text compact) es) _
        (traverse-OneLine es h.1) (λ ts all. (one, all)))

object_text-OneLine :
    (level : ℕ) (es : List Entry)
    → All EntryOneLine es
    → Gives OneLine (object_text compact level es)
unfolding object_text
object_text-OneLine level es h =
    Gives-bind (All OneLine) OneLine (traverse (entry_text compact) (sort_by entry_key es)) _
      (traverse-OneLine (sort_by entry_key es) (All-sort_by entry_key EntryOneLine es h))
      (λ ts all. bracket-OneLine level b'{' b'}' ts (omega arith) (omega arith) all)

mutual
  unfolding dumps

  dumps-OneLine : (v : Value) (level : ℕ) → Gives OneLine (dumps compact level v)
  dumps-OneLine null level = ground arith
  dumps-OneLine (boolean true) level = ground arith
  dumps-OneLine (boolean false) level = ground arith
  dumps-OneLine (int i) level = int_text-OneLine i
  dumps-OneLine (str s) level = quote-OneLine s
  dumps-OneLine (array xs) level =
      Gives-bind (All OneLine) OneLine (item_texts compact (suc level) xs) _
        (item_texts-OneLine xs (suc level))
        (λ ts all. bracket-OneLine level b'[' b']' ts (omega arith) (omega arith) all)
  dumps-OneLine (object fs) level = object_text-OneLine level _ (entry_texts-OneLine fs (suc level))
  dumps-OneLine (datetime d) level =
      Gives-bind (λ t. Unit {0}) OneLine (iso_utc_z d) _ (anything (iso_utc_z d))
        (λ t h. quote-OneLine t)
  dumps-OneLine (decimal_number s) level = quote-OneLine s
  dumps-OneLine (bytes s) level = quote-OneLine s
  dumps-OneLine opaque level = tt

  item_texts-OneLine : (xs : Items) (level : ℕ) → Gives (All OneLine) (item_texts compact level xs)
  item_texts-OneLine nil level = tt
  item_texts-OneLine (cons x xs) level =
      Gives-bind OneLine (All OneLine) (dumps compact level x) _ (dumps-OneLine x level) (λ t one.
        Gives-bind (All OneLine) (All OneLine) (item_texts compact level xs) _
          (item_texts-OneLine xs level) (λ ts all. (one, all)))

  entry_texts-OneLine : (fs : Fields) (level : ℕ) → All EntryOneLine (entry_texts compact level fs)
  entry_texts-OneLine end level = tt
  entry_texts-OneLine (field k v fs) level = (dumps-OneLine v level, entry_texts-OneLine fs level)

encode_lem : (t : Text) (b : List ℕ) → encode t ≡ ok b → encode_utf8 t ≡ b
encode_lem t b h = elim (Bool-cases (has_surrogate t)) [
  | inl e ↦ let raises : err value_error ≡ ok b = rw e at h in cc
  | inr e ↦ let made : ok (encode_utf8 t) ≡ ok b = rw e at h in cc
]

-- If a value can be encoded, its line ends with the newline and has no other newline, whatever
-- characters the value's texts and keys hold.
pub canonical_json_line-OneLine :
    (v : Value) (b : List ℕ)
    → canonical_json_line v ≡ ok b
    → (body : List ℕ) × OneLine body × (b ≡ body ++ 10 ∷ [])
unfolding canonical_json_line canonical_json_bytes
canonical_json_line-OneLine v b h =
    let (b₁, encoded, closed) = bind-ok (canonical_json_bytes v) _ h in
    let (text, dumped, same) = bind-ok (dumps compact 0 v) _ encoded in
    let one = subst (Gives OneLine) dumped (dumps-OneLine v 0) in
    let bytes = encode_lem text b₁ same in (encode_utf8 text, encode_utf8-OneLine text one, cc)

-- A line is the value's bytes, which have no newline, and the newline.
pub canonical_json_line-bytes :
    (v : Value) (b : List ℕ)
    → canonical_json_line v ≡ ok b
    → (body : List ℕ) × (canonical_json_bytes v ≡ ok body) × OneLine body × (b ≡ body ++ 10 ∷ [])
unfolding canonical_json_line canonical_json_bytes
canonical_json_line-bytes v b h =
    let (b₁, encoded, closed) = bind-ok (canonical_json_bytes v) _ h in
    let (text, dumped, same) = bind-ok (dumps compact 0 v) _ encoded in
    let one = subst (Gives OneLine) dumped (dumps-OneLine v 0) in
    let bytes = encode_lem text b₁ same in
    (encode_utf8 text, encoded ∙ ap ok (sym bytes), encode_utf8-OneLine text one, cc)

-- how many newlines some bytes have
unfoldable pub newlines : List ℕ → ℕ
newlines [] = 0
newlines (c ∷ b) = let rest = newlines b in if eqb c 10 then suc rest else rest

pub newlines-append : (a b : List ℕ) → newlines (a ++ b) ≡ newlines a + newlines b
unfolding newlines
newlines-append [] b = omega arith
newlines-append (c ∷ a) b = ground (arith, newlines-append a b)

newlines-OneLine : (b : List ℕ) → OneLine b → newlines b ≡ 0
unfolding newlines
newlines-OneLine [] h = refl
newlines-OneLine (c ∷ b) h = ground (arith, newlines-OneLine b h.1)

pub newlines-canonical_json_line :
    (v : Value) (line rest : List ℕ)
    → canonical_json_line v ≡ ok line
    → newlines (line ++ rest) ≡ suc (newlines rest)
unfolding newlines
newlines-canonical_json_line v line rest h =
    let (body, one, e) = canonical_json_line-OneLine v line h in
    let ends = newlines-append body (10 ∷ []) in
    let none = newlines-OneLine body one in
    rw (e, newlines-append (body ++ 10 ∷ []) rest, ends, none) (omega arith)
