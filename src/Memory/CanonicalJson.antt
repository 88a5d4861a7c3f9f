-- ===== src/Memory/CanonicalJson.antt =====
-- project-memory/src/canonical-json.ts: the serializer under the integrity hashes. `JSON.stringify`
-- of a number and of a string are parameters. A value of type `Json` holds no `undefined`,
-- function, symbol or bigint, and its numbers are finite.
pub mod Bounds
pub mod Order
use oh_my_pm.Common.{
  ℕ, zero, suc, ◌+◌, ◌-◌, ◌*◌, Bool, true, false, List, [], ◌∷◌, ◌++◌, ltb, if◌then◌else◌, length,
}
use oh_my_pm.Common.Text.{Text, lit}
use oh_my_pm.Common.Sort.{sort}
use oh_my_pm.Common.Sets.{text_le}
use oh_my_pm.Common.Json.{
  Number, Json, null, bool, number, string, array, object, Items, nil, cons, Fields, end, field,
}
use oh_my_pm.Memory.Errors.{Result, ok, err, ◌>>=◌, invalid_input_code, with_hint}

abbrev pub max_canonical_bytes : ℕ
max_canonical_bytes = 67108864

abbrev pub max_depth : ℕ
max_depth = 128

-- `out` joined, and `byteBudget`.
pub record Output : Type 0 where
  pub out : Text
  pub byte_budget : ℕ

abbrev pub Encoder : Type 0
Encoder = Output → Result Output

-- The budget is tested after the subtraction, and below 0 is an error.
unfoldable pub push : Text → Encoder
push chunk o =
    if ltb o.byte_budget (length chunk)
    then err (
        with_hint invalid_input_code "canonical JSON exceeds the bounded output size"
          "reduce record size")
    else ok (record { out = o.out ++ chunk; byte_budget = o.byte_budget - length chunk })

-- An object's entry: its key, and the encoding of its value.
abbrev pub Entry : Type 0
Entry = Text × Encoder

abbrev pub entry_le : Entry → Entry → Bool
entry_le a b = text_le a.0 b.0

abbrev pub too_deep : Encoder
too_deep o = err (
    with_hint invalid_input_code "canonical JSON exceeds the maximum nesting depth"
      "flatten the payload")

unfoldable pub encode_value : ℕ → Encoder → Encoder
encode_value depth body o = if ltb max_depth depth then too_deep o else body o

module _ (number_text : Number → Text) (string_text : Text → Text) where
  -- The loop over the sorted keys; `first` is true for the first one.
  unfoldable pub encode_entries : Bool → List Entry → Encoder
  encode_entries first [] o = ok o
  encode_entries first ((key, encode_child) ∷ rest) o = do
    separated ← (if first then ok o else push (lit ",") o)
    keyed ← push (string_text key) separated
    valued ← push (lit ":") keyed
    after ← encode_child valued
    encode_entries false rest after

  unfoldable pub encode_object : List Entry → Encoder
  encode_object entries o = do
    opened ← push (lit "{") o
    filled ← encode_entries true (sort entry_le entries) opened
    push (lit "}") filled

  unfoldable mutual
    pub encode : Json → ℕ → Encoder
    encode null depth = encode_value depth (push (lit "null"))
    encode (bool true) depth = encode_value depth (push (lit "true"))
    encode (bool false) depth = encode_value depth (push (lit "false"))
    encode (number n) depth = encode_value depth (push (number_text n))
    encode (string s) depth = encode_value depth (push (string_text s))
    encode (array xs) depth = encode_value depth λ o. do
      opened ← push (lit "[") o
      filled ← encode_items xs true (depth + 1) opened
      push (lit "]") filled
    encode (object fs) depth = encode_value depth (encode_object (entries_of fs (depth + 1)))

    pub encode_items : Items → Bool → ℕ → Encoder
    encode_items nil first depth o = ok o
    encode_items (cons x xs) first depth o = do
      separated ← (if first then ok o else push (lit ",") o)
      after ← encode x depth separated
      encode_items xs false depth after

    pub entries_of : Fields → ℕ → List Entry
    entries_of end depth = []
    entries_of (field k v fs) depth = (k, encode v depth) ∷ entries_of fs depth

  unfoldable pub canonical_stringify : Json → Result Text
  canonical_stringify value = do
    o ← encode value 0 (record { out = []; byte_budget = max_canonical_bytes })
    ok o.out
