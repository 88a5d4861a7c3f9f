-- ===== src/Common/Json.antt =====
-- The values of JSON, as `JSON.parse` gives them and `JSON.stringify` takes them. A number is
-- known by what the code asks of one: an integer from 0, a negative integer, or neither. The keys
-- of an object are different, so the first field of a name is the only one.
use oh_my_pm.Common.Tests.{if◌then◌else◌, ltb, leb}
use oh_my_pm.Common.Text.{Text, text_eq}
use Prim.Native.Nat.{ℕ}
use mathlib.Core.Bool.{Bool, false}
use mathlib.Core.Option.{Option, none, some}

-- `negative n` is -(n + 1); `fraction b` is the number
-- that is no integer and has the 64 bits b.
pub data Number : Type 0 where
  natural negative fraction : ℕ → Number

mutual
  pub data Json : Type 0 where
    null : Json
    bool : Bool → Json
    number : Number → Json
    string : Text → Json
    array : Items → Json
    object : Fields → Json

  pub data Items : Type 0 where
    nil : Items
    cons : Json → Items → Items

  pub data Fields : Type 0 where
    end : Fields
    field : Text → Json → Fields → Fields

-- `Number.isSafeInteger`: at most 2^53 - 1 on either side.
abbrev pub is_safe_integer : Number → Bool
is_safe_integer (natural n) = leb n 9007199254740991
is_safe_integer (negative n) = ltb n 9007199254740991
is_safe_integer (fraction _) = false

unfoldable pub get_field : Fields → Text → Option Json
get_field end k = none
get_field (field j v fs) k = let rest = get_field fs k in if text_eq j k then some v else rest

-- `parsed[key]`; none is `undefined`, and stands for the TypeError on `null` too.
unfoldable pub property : Json → Text → Option Json
unfolding get_field
property (object fs) k = get_field fs k
property _ k = none

abbrev pub as_string : Option Json → Option Text
as_string (some (string t)) = some t
as_string _ = none

abbrev pub as_number : Option Json → Option Number
as_number (some (number n)) = some n
as_number _ = none
