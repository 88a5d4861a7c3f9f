-- ===== src/Memory/CanonicalJson/Bounds.antt =====
-- The size of the output of project-memory/src/canonical-json.ts.
use oh_my_pm.Common.{
  ℕ, ◌+◌, ◌≤◌, inl, inr, ◌≡◌, ◌∙◌, Bool, true, false, List, [], ◌∷◌, length, length-append, All,
  arith, Bool-cases, if◌then◌else◌, ltb,
}
use oh_my_pm.Common.Text.{Text, lit}
use oh_my_pm.Common.Sort.{sort, sort-All}
use oh_my_pm.Common.Json.{
  Number, Json, null, bool, number, string, array, object, Items, nil, cons, Fields, end, field,
}
use oh_my_pm.Memory.Errors.{ok, >>=-eq-ok, ◌>>=◌}
use oh_my_pm.Memory.CanonicalJson.{
  max_depth, Output, Encoder, push, Entry, entry_le, encode_entries, encode_value, encode_object,
  encode, encode_items, entries_of, canonical_stringify,
}

abbrev total : Output → ℕ
total o = length o.out + o.byte_budget

-- What an encoder writes, it takes from the budget.
abbrev IsPaid : Encoder → Type 0
IsPaid e = (o o' : Output) → e o ≡ ok o' → total o' ≡ total o

push-IsPaid : (chunk : Text) → IsPaid (push chunk)
unfolding push
push-IsPaid chunk o o' h = elim (Bool-cases (ltb o.byte_budget (length chunk))) [
  | inl over ↦ absurd (ground arith)
  | inr fits ↦ ground (arith, length-append o.out chunk)
]

then-IsPaid : (e f : Encoder) → IsPaid e → IsPaid f → IsPaid (λ o. e o >>= f)
then-IsPaid e f pe pf o o' h =
    let (m, first, second) = >>=-eq-ok (e o) f h in pf m o' second ∙ pe o m first

skip-IsPaid : IsPaid ok
skip-IsPaid o o' h = cc

comma-IsPaid : (first : Bool) → IsPaid (λ o. if first then ok o else push (lit ",") o)
comma-IsPaid true = skip-IsPaid
comma-IsPaid false = push-IsPaid (lit ",")

-- An entry's encoder pays.
abbrev PaidEntry : Entry → Type 0
PaidEntry e = IsPaid e.1

module _ (number_text : Number → Text) (string_text : Text → Text) where
  encode_entries-IsPaid :
      (first : Bool) (entries : List Entry)
      → All PaidEntry entries
      → IsPaid (encode_entries number_text string_text first entries)
  unfolding encode_entries
  encode_entries-IsPaid first [] paid = skip-IsPaid
  encode_entries-IsPaid first ((key, child) ∷ rest) paid = then-IsPaid _ _ (comma-IsPaid first) (
      then-IsPaid _ _ (push-IsPaid (string_text key)) (
        then-IsPaid _ _ (push-IsPaid (lit ":"))
          (then-IsPaid child _ paid.0 (encode_entries-IsPaid false rest paid.1))))

  encode_object-IsPaid :
      (entries : List Entry)
      → All PaidEntry entries
      → IsPaid (encode_object number_text string_text entries)
  unfolding encode_object
  encode_object-IsPaid entries paid = then-IsPaid _ _ (push-IsPaid (lit "{")) (
      then-IsPaid _ _
        (encode_entries-IsPaid true (sort entry_le entries)
          (sort-All entry_le PaidEntry entries paid))
        (push-IsPaid (lit "}")))

  encode_value-IsPaid :
      (depth : ℕ) (body : Encoder) → IsPaid body → IsPaid (encode_value depth body)
  unfolding encode_value
  encode_value-IsPaid depth body paid o o' h = elim (Bool-cases (ltb max_depth depth)) [
    | inl deep ↦ absurd (ground arith)
    | inr flat ↦ paid o o' (ground arith)
  ]

  mutual
    unfolding encode encode_items entries_of

    encode-IsPaid : (x : Json) (depth : ℕ) → IsPaid (encode number_text string_text x depth)
    encode-IsPaid null depth = encode_value-IsPaid depth _ (push-IsPaid (lit "null"))
    encode-IsPaid (bool true) depth = encode_value-IsPaid depth _ (push-IsPaid (lit "true"))
    encode-IsPaid (bool false) depth = encode_value-IsPaid depth _ (push-IsPaid (lit "false"))
    encode-IsPaid (number n) depth = encode_value-IsPaid depth _ (push-IsPaid (number_text n))
    encode-IsPaid (string s) depth = encode_value-IsPaid depth _ (push-IsPaid (string_text s))
    encode-IsPaid (array xs) depth = encode_value-IsPaid depth _ (
        then-IsPaid _ _ (push-IsPaid (lit "["))
          (then-IsPaid _ _ (encode_items-IsPaid xs true (depth + 1)) (push-IsPaid (lit "]"))))
    encode-IsPaid (object fs) depth = encode_value-IsPaid depth _ (
        encode_object-IsPaid (entries_of number_text string_text fs (depth + 1))
          (entries_of-paid fs (depth + 1)))

    encode_items-IsPaid :
        (xs : Items) (first : Bool) (depth : ℕ)
        → IsPaid (encode_items number_text string_text xs first depth)
    encode_items-IsPaid nil first depth = skip-IsPaid
    encode_items-IsPaid (cons x xs) first depth =
        then-IsPaid _ _ (comma-IsPaid first)
          (then-IsPaid _ _ (encode-IsPaid x depth) (encode_items-IsPaid xs false depth))

    entries_of-paid :
        (fs : Fields) (depth : ℕ) → All PaidEntry (entries_of number_text string_text fs depth)
    entries_of-paid end depth = tt
    entries_of-paid (field k v fs) depth = (encode-IsPaid v depth, entries_of-paid fs depth)

  -- What the serializer returns has at most 64 * 1024 * 1024 code units.
  pub length-canonical_stringify_le :
      (value : Json) (text : Text)
      → canonical_stringify number_text string_text value ≡ ok text
      → length text ≤ 67108864
  unfolding canonical_stringify
  length-canonical_stringify_le value text h =
      let (o, encoded, rest) = >>=-eq-ok (encode number_text string_text value 0 _) _ h in
      let paid = encode-IsPaid value 0 _ o encoded in ground (arith, paid)
