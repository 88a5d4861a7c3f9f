-- ===== src/Memory/Gates.antt =====
-- The gates of project-memory/src/store.ts: what an operation id is, the names of temp files made
-- of one, and which store versions can be read. The UTF-8 length of a string is a parameter.
pub mod Safe
pub mod Version
use oh_my_pm.Common.{
  ℕ, Bool, true, false, not, ◌&&◌, ◌||◌, String, List, [], ◌∷◌, ◌++◌, ltb, leb, ◌==◌, if◌then◌else◌,
}
use oh_my_pm.Common.Text.{Text, lit, text_eq}
use oh_my_pm.Memory.Errors.{
  ProjectMemoryError, Result, ok, err, invalid_input_code, limit_exceeded_code, corruption_code,
  migration_required_code, unsupported_store_version_code, with_hint, without_hint, ◌>>=◌,
}
use oh_my_pm.Memory.Manifest.{ManifestBody, is_empty}

abbrev pub max_operation_id_bytes : ℕ
max_operation_id_bytes = 128

-- One character of `[A-Za-z0-9._-]`.
abbrev pub is_safe_unit : ℕ → Bool
is_safe_unit c =
    (leb 65 c && leb c 90)
    || (leb 97 c && leb c 122)
    || (leb 48 c && leb c 57)
    || (c == 46)
    || (c == 95)
    || (c == 45)

unfoldable pub all_safe : Text → Bool
all_safe [] = true
all_safe (c ∷ t) = let rest = all_safe t in if is_safe_unit c then rest else false

module _ (utf8_byte_length : Text → ℕ) where
  unfoldable pub assert_operation_id : Text → Result (Unit {0})
  assert_operation_id value =
      if is_empty value
      then err (without_hint invalid_input_code "operationId must be a non-empty string")
      else if ltb max_operation_id_bytes (utf8_byte_length value)
      then err (without_hint limit_exceeded_code "operationId exceeds the maximum length")
      else if not (all_safe value)
      then err (without_hint invalid_input_code "operationId must contain only [A-Za-z0-9._-]")
      else if text_eq value (lit ".") || text_eq value (lit "..")
      then err (without_hint invalid_input_code "operationId must not be a path traversal token")
      else ok tt

-- The pid is given as its decimal digits.
unfoldable pub temp_name : Text → Text → Text → Text
temp_name operation_id pid label = lit ".tmp-" ++ operation_id ++ lit "-" ++ pid ++ lit "-" ++ label

pub data StoreVersionState : Type 0 where
  no_prior_memory supported unsupported_newer migration_required incompatible_schema :
      StoreVersionState

unfoldable pub classify_version : ManifestBody → StoreVersionState
classify_version m =
    if not (m.project_brain_schema_version == 1)
    then incompatible_schema
    else if ltb 2 m.store_format_version
    then unsupported_newer
    else if ltb m.store_format_version 2
    then migration_required
    else supported

unfoldable pub assert_manifest_ownership : ManifestBody → Text → Text → Result (Unit {0})
assert_manifest_ownership m project_id project_key =
    if not (text_eq m.project_id project_id) || not (text_eq m.project_key project_key)
    then err
        (with_hint corruption_code "manifest project ownership mismatch" "the store may be corrupt")
    else ok tt

unfoldable pub assert_readable_version : ManifestBody → Result (Unit {0})
assert_readable_version m = elim (classify_version m) [
  | unsupported_newer ↦ err (
      with_hint unsupported_store_version_code "the store format is newer than this build supports"
        "upgrade OH MY PM to read this store")
  | migration_required ↦ err (
      with_hint migration_required_code "the store format is older and requires migration"
        "run an explicit migration")
  | incompatible_schema ↦ err (
      with_hint unsupported_store_version_code "the Project Brain schema version is incompatible"
        "this store was written by a different schema")
  | supported ↦ ok tt
  | no_prior_memory ↦ ok tt
]

-- What `readManifest` asks of a manifest once it is parsed and verified.
unfoldable pub assert_own_and_readable : ManifestBody → Text → Text → Result (Unit {0})
assert_own_and_readable m project_id project_key =
    assert_manifest_ownership m project_id project_key >>= λ _. assert_readable_version m
