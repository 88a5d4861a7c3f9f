-- ===== src/Memory/CanonicalJson/Order.antt =====
-- The order of keys in project-memory/src/canonical-json.ts: it does not show in the output.
use oh_my_pm.Common.{
  ℕ, ◌+◌, ◌≡◌, refl, ◌∙◌, ap, ap₂, Bool, true, false, List, [], ◌∷◌, arith, if◌then◌else◌,
}
use oh_my_pm.Common.Text.{
  Text, lit, text_eq, text_eq_refl, text_lt_irrefl, text_lt_trans, text_lt_total, text_lt_negtrans,
}
use oh_my_pm.Common.Sort.{insert_sorted, sort}
use oh_my_pm.Common.Json.{Number, Json, array, object, Items, nil, cons, Fields, end, field}
use oh_my_pm.Memory.Errors.{ok, ◌>>=◌}
use oh_my_pm.Memory.CanonicalJson.{
  max_canonical_bytes, push, Entry, entry_le, encode_entries, encode_value, encode_object, encode,
  encode_items, entries_of, canonical_stringify,
}

-- Two entries with different keys can be put in their places in either order.
insert_sorted_comm :
    (a b : Entry) (xs : List Entry)
    → text_eq a.0 b.0 ≡ false
    → insert_sorted entry_le a (insert_sorted entry_le b xs)
      ≡ insert_sorted entry_le b (insert_sorted entry_le a xs)
unfolding insert_sorted
insert_sorted_comm (k, e) (j, f) [] h =
    ground (arith, text_lt_irrefl k, text_lt_trans k j k, text_lt_total k j, text_eq_refl k)
insert_sorted_comm (k, e) (j, f) ((i, g) ∷ xs) h = ground (
  arith,
  insert_sorted_comm (k, e) (j, f) xs h,
  text_lt_irrefl k,
  text_lt_trans k j k,
  text_lt_total k j,
  text_eq_refl k,
  text_lt_negtrans i k j,
  text_lt_negtrans i j k,
)

-- Values that differ at most in the order of the keys of their objects.
mutual
  pub data SameJson : Json → Json → Type 0 where
    same : {x : Json} → SameJson x x
    same_array : {xs ys : Items} → SameItems xs ys → SameJson (array xs) (array ys)
    same_object : {fs gs : Fields} → SameFields fs gs → SameJson (object fs) (object gs)

  pub data SameItems : Items → Items → Type 0 where
    same_nil : SameItems nil nil
    same_cons :
        {x y : Json} {xs ys : Items}
        → SameJson x y
        → SameItems xs ys
        → SameItems (cons x xs) (cons y ys)

  pub data SameFields : Fields → Fields → Type 0 where
    same_end : SameFields end end
    same_field :
        {v w : Json} {fs gs : Fields} (k : Text)
        → SameJson v w
        → SameFields fs gs
        → SameFields (field k v fs) (field k w gs)
    same_swap :
        {v w : Json} {fs : Fields} (k j : Text)
        → text_eq k j ≡ false
        → SameFields (field k v (field j w fs)) (field j w (field k v fs))
    same_trans : {fs gs hs : Fields} → SameFields fs gs → SameFields gs hs → SameFields fs hs

module _ (number_text : Number → Text) (string_text : Text → Text) where
  abbrev sorted : Fields → ℕ → List Entry
  sorted fs depth = sort entry_le (entries_of number_text string_text fs depth)

  mutual
    unfolding encode encode_items entries_of sort encode_object

    encode-same :
        {x y : Json}
        → SameJson x y
        → (depth : ℕ)
        → encode number_text string_text x depth ≡ encode number_text string_text y depth
    encode-same same depth = refl
    encode-same (same_array {xs} {ys} s) depth =
        ap (λ items. encode_value depth λ o. push (lit "[") o >>= λ o1. items o1 >>= push (lit "]"))
          (encode_items-same s true (depth + 1))
    encode-same (same_object {fs} {gs} s) depth =
        ap
          (λ entries. encode_value depth λ o. push (lit "{") o >>= λ o1.
            encode_entries number_text string_text true entries o1 >>= push (lit "}"))
          (sorted-same s (depth + 1))

    encode_items-same :
        {xs ys : Items}
        → SameItems xs ys
        → (first : Bool) (depth : ℕ)
        → encode_items number_text string_text xs first depth
          ≡ encode_items number_text string_text ys first depth
    encode_items-same same_nil first depth = refl
    encode_items-same (same_cons s t) first depth =
        ap₂ (λ item items o. (if first then ok o else push (lit ",") o) >>= λ o1. item o1 >>= items)
          (encode-same s depth) (encode_items-same t false depth)

    sorted-same :
        {fs gs : Fields} → SameFields fs gs → (depth : ℕ) → sorted fs depth ≡ sorted gs depth
    sorted-same same_end depth = refl
    sorted-same (same_field k s t) depth =
        ap₂ (λ e xs. insert_sorted entry_le (k, e) xs) (encode-same s depth) (sorted-same t depth)
    sorted-same (same_swap {v} {w} {fs} k j h) depth =
        insert_sorted_comm (k, encode number_text string_text v depth)
          (j, encode number_text string_text w depth) (sorted fs depth) h
    sorted-same (same_trans s t) depth = sorted-same s depth ∙ sorted-same t depth

  -- Values that differ at most in the order of the keys of their objects, at any depth, have the
  -- same canonical form, or are refused with the same error.
  pub canonical_stringify-same :
      {x y : Json}
      → SameJson x y
      → canonical_stringify number_text string_text x
        ≡ canonical_stringify number_text string_text y
  unfolding canonical_stringify
  canonical_stringify-same s =
      ap (λ e. e (record { out = []; byte_budget = max_canonical_bytes }) >>= λ o. ok o.out)
        (encode-same s 0)
