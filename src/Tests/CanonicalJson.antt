-- ===== src/Tests/CanonicalJson.antt =====
-- Canonical forms of project-memory/src/canonical-json.ts.
use oh_my_pm.Common.{◌≡◌, ◌≤◌, refl, ◌++◌, length}
use oh_my_pm.Common.Text.{Text, lit, text_eq, text_lt}
use oh_my_pm.Common.Json.{Number, natural, Json, number, object, array, cons, nil, field, end}
use oh_my_pm.Memory.Errors.{ok}
use oh_my_pm.Common.Sort.{sort}
use oh_my_pm.Memory.CanonicalJson.{
  canonical_stringify, encode, encode_value, encode_object, push, encode_entries,
}
use oh_my_pm.Memory.CanonicalJson.Bounds.{length-canonical_stringify_le}
use oh_my_pm.Memory.CanonicalJson.Order.{
  same_array, same_object, same_nil, same_cons, same_swap, canonical_stringify-same,
}

abbrev digits : Number → Text
digits n = lit "1"

abbrev quoted : Text → Text
quoted s = lit "'" ++ s ++ lit "'"

abbrev a_then_b : Json
a_then_b = object (field (lit "a") (number (natural 1)) (field (lit "b") (number (natural 1)) end))

abbrev b_then_a : Json
b_then_a = object (field (lit "b") (number (natural 1)) (field (lit "a") (number (natural 1)) end))

stringified : canonical_stringify digits quoted b_then_a ≡ ok (lit "{'a':1,'b':1}")
unfolding canonical_stringify encode encode_value encode_object push encode_entries sort text_lt
stringified = refl

length-canonical_stringify_le_example : length (lit "{'a':1,'b':1}") ≤ 67108864
length-canonical_stringify_le_example =
    length-canonical_stringify_le digits quoted b_then_a (lit "{'a':1,'b':1}") stringified

canonical_stringify-same_example :
    canonical_stringify digits quoted (array (cons a_then_b nil))
    ≡ canonical_stringify digits quoted (array (cons b_then_a nil))
unfolding text_eq
canonical_stringify-same_example =
    canonical_stringify-same digits quoted
      (same_array (same_cons (same_object (same_swap (lit "a") (lit "b") refl)) same_nil))
