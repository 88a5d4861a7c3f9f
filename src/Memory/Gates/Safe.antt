-- ===== src/Memory/Gates/Safe.antt =====
-- What an operation id of project-memory/src/store.ts can be.
use oh_my_pm.Common.{ℕ, ◌≤◌, ◌≡◌, ◌≢◌, refl, true, [], ◌∷◌, ◌++◌, length, arith, All, All-append}
use oh_my_pm.Common.Text.{Text, lit, text_eq_iff}
use oh_my_pm.Memory.Errors.{ok}
use oh_my_pm.Memory.Gates.{is_safe_unit, all_safe, assert_operation_id, temp_name}

-- No slash, no backslash, no NUL: the text is one segment of a path.
abbrev pub IsSegment : Text → Type 0
IsSegment = All (λ c. (c ≢ 47) × (c ≢ 92) × (c ≢ 0))

all_safe-IsSegment : (t : Text) → all_safe t ≡ true → IsSegment t
unfolding all_safe
all_safe-IsSegment [] h = tt
all_safe-IsSegment (c ∷ t) h =
    let unit : is_safe_unit c ≡ true = ground arith in
    (
      ((λ e. ground arith), (λ e. ground arith), λ e. ground arith),
      all_safe-IsSegment t (ground arith),
    )

append-IsSegment : (s t : Text) → IsSegment s → IsSegment t → IsSegment (s ++ t)
append-IsSegment = All-append _

temp_name-IsSegment :
    (value pid label : Text)
    → IsSegment value
    → IsSegment pid
    → IsSegment label
    → IsSegment (temp_name value pid label)
unfolding temp_name all_safe
temp_name-IsSegment value pid label v p l =
    let dash = all_safe-IsSegment (lit "-") refl in
    let named = append-IsSegment (lit ".tmp-") value (all_safe-IsSegment (lit ".tmp-") refl) v in
    let dashed = append-IsSegment (lit ".tmp-" ++ value) (lit "-") named dash in
    let numbered = append-IsSegment (lit ".tmp-" ++ value ++ lit "-") pid dashed p in
    let behind =
      append-IsSegment (lit ".tmp-" ++ value ++ lit "-" ++ pid) (lit "-") numbered dash in
    append-IsSegment (lit ".tmp-" ++ value ++ lit "-" ++ pid ++ lit "-") label behind l

-- What the validation lets through, and the temp file names made of it.
pub record IsSafe (value : Text) : Type 0 where
  pub filled : value ≢ []
  pub bounded : length value ≤ 128
  pub segment : IsSegment value
  pub no_dot : value ≢ lit "."
  pub no_dots : value ≢ lit ".."

-- An operation id that the validation lets through is not empty, has at most 128 code units and is
-- one segment of a path that does not lead up; so is every temp file name made of it, if the digits
-- of the pid and the label are without separators. A string has at least as many UTF-8 bytes as
-- code units.
pub assert_operation_id-IsSafe :
    (utf8_byte_length : Text → ℕ) (value pid label : Text)
    → ((t : Text) → length t ≤ utf8_byte_length t)
    → assert_operation_id utf8_byte_length value ≡ ok tt
    → IsSegment pid
    → IsSegment label
    → IsSafe value × IsSegment (temp_name value pid label)
unfolding assert_operation_id
assert_operation_id-IsSafe utf8_byte_length value pid label units h pid_safe label_safe =
    let segment = all_safe-IsSegment value (ground arith) in
    (
      record {
        filled = λ e. ground arith;
        bounded = ground (arith, units value);
        segment = segment;
        no_dot = λ e. ground (arith, text_eq_iff value (lit "."));
        no_dots = λ e. ground (arith, text_eq_iff value (lit ".."));
      },
      temp_name-IsSegment value pid label segment pid_safe label_safe,
    )
