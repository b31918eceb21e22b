-- ===== src/Json/Order.antt =====
-- The encoders do not see the order in which a dict was built.
use incremental_sync_data_se.Base.{ℕ, suc, String, ◌≡◌, ◌≢◌, refl, ap, ◌∙◌, ok, Result, List, ◌>>=◌}
use incremental_sync_data_se.Base.Sort.{sort_by, insert_by_comm}
use incremental_sync_data_se.Json.{
  Value, array, object, Items, nil, cons, Fields, end, field, Style, compact, pretty, bracket,
  entry_key, object_text, dumps, item_texts, entry_texts, canonical_json_bytes, pretty_json_bytes,
}

-- Equal up to the order of the entries of dicts, at any depth. Entries with one key keep their order.
mutual
  pub data SameValue : Value → Value → Type 0 where
    same : (v : Value) → SameValue v v
    same_array : {xs ys : Items} → SameItems xs ys → SameValue (array xs) (array ys)
    same_object : {fs gs : Fields} → SameFields fs gs → SameValue (object fs) (object gs)

  pub data SameItems : Items → Items → Type 0 where
    same_nil : SameItems nil nil
    same_cons :
        {x y : Value} {xs ys : Items}
        → SameValue x y
        → SameItems xs ys
        → SameItems (cons x xs) (cons y ys)

  pub data SameFields : Fields → Fields → Type 0 where
    same_end : SameFields end end
    same_field :
        (k : String) {v w : Value} {fs gs : Fields}
        → SameValue v w
        → SameFields fs gs
        → SameFields (field k v fs) (field k w gs)
    swapped :
        (j k : String) (v w : Value) (fs : Fields)
        → j ≢ k
        → SameFields (field j v (field k w fs)) (field k w (field j v fs))
    chained : {fs gs hs : Fields} → SameFields fs gs → SameFields gs hs → SameFields fs hs

module _ (style : Style) where
  mutual
    unfolding dumps object_text sort_by

    dumps-SameValue :
        {v w : Value} → SameValue v w → (level : ℕ) → dumps style level v ≡ dumps style level w
    dumps-SameValue (same v) level = refl
    dumps-SameValue (same_array s) level =
        ap (λ (r : Result (List (List ℕ))). r >>= λ ts. ok (bracket style level b'[' b']' ts))
          (item_texts-SameItems s (suc level))
    dumps-SameValue (same_object s) level = rw (sort_by-SameFields s (suc level))

    item_texts-SameItems :
        {xs ys : Items}
        → SameItems xs ys
        → (level : ℕ) → item_texts style level xs ≡ item_texts style level ys
    item_texts-SameItems same_nil level = refl
    item_texts-SameItems (same_cons s t) level =
        rw (dumps-SameValue s level, item_texts-SameItems t level)

    sort_by-SameFields :
        {fs gs : Fields}
        → SameFields fs gs
        → (level : ℕ)
        → sort_by entry_key (entry_texts style level fs)
          ≡ sort_by entry_key (entry_texts style level gs)
    sort_by-SameFields same_end level = refl
    sort_by-SameFields (same_field k s t) level =
        rw (dumps-SameValue s level, sort_by-SameFields t level)
    sort_by-SameFields (swapped j k v w fs n) level = insert_by_comm entry_key _ _ _ n
    sort_by-SameFields (chained s t) level = sort_by-SameFields s level ∙ sort_by-SameFields t level

-- Dicts that were built in different orders have the same canonical bytes and the same pretty bytes.
pub json_bytes-SameValue :
    {v w : Value}
    → SameValue v w
    → (canonical_json_bytes v ≡ canonical_json_bytes w)
      × (pretty_json_bytes v ≡ pretty_json_bytes w)
unfolding canonical_json_bytes pretty_json_bytes
json_bytes-SameValue s = (rw (dumps-SameValue compact s 0), rw (dumps-SameValue pretty s 0))
