-- ===== src/Memory/Paths.antt =====
-- project-memory/src/path-safety.ts: where the files of the store stand, and the guards that keep
-- them below the data root and apart from the project. The functions of node:path are parameters.
pub mod Confined
pub mod Separation
use oh_my_pm.Common.{
  ℕ, Bool, true, false, not, ◌&&◌, ◌||◌, String, List, [], ◌∷◌, ◌++◌, ltb, leb, ◌==◌, length,
  any_of, if◌then◌else◌,
}
use oh_my_pm.Common.Text.{Text, lit, text_eq}
use oh_my_pm.Memory.Errors.{
  ProjectMemoryErrorCode, Result, ok, err, ◌>>=◌, ◌>>◌, invalid_input_code, path_escape_code,
  with_hint, without_hint,
}
use oh_my_pm.Memory.Manifest.{is_empty}
use oh_my_pm.Memory.Gates.{all_safe}

-- The platform's path functions: `resolve` stands for `resolve(normalize(path))`.
pub record NodePath : Type 0 where
  pub is_absolute : Text → Bool
  pub resolve : Text → Text
  pub relative : Text → Text → Text
  pub join : Text → Text → Text
  pub sep : ℕ

abbrev pub refuse : {A : Type 0} → ProjectMemoryErrorCode → String → Result A
refuse code message = err (without_hint code message)

-- One character of `[0-9a-f]`.
abbrev pub is_hex_unit : ℕ → Bool
is_hex_unit c = (leb 48 c && leb c 57) || (leb 97 c && leb c 102)

unfoldable pub is_sha256_key : Text → Bool
is_sha256_key key = (length key == 64) && not (any_of (λ c. not (is_hex_unit c)) key)

unfoldable pub assert_key : Text → String → Result (Unit {0})
assert_key key message =
    if not (is_sha256_key key) then refuse invalid_input_code message else ok tt

unfoldable pub assert_operation_segment : Text → Result (Unit {0})
assert_operation_segment value =
    if is_empty value
    then refuse invalid_input_code "the operation id must be a non-empty string"
    else if not (all_safe value)
    then refuse invalid_input_code "the operation id must contain only [A-Za-z0-9._-]"
    else if text_eq value (lit ".") || text_eq value (lit "..")
    then refuse invalid_input_code "the operation id must not be a path traversal token"
    else ok tt

-- `rel.startsWith("..")`
unfoldable pub starts_with_dots : Text → Bool
starts_with_dots (a ∷ b ∷ t) = (a == 46) && (b == 46)
starts_with_dots _ = false

-- `text.split(sep)`; the segment read so far comes along.
unfoldable pub split_from : ℕ → Text → Text → List Text
split_from sep current [] = current ∷ []
split_from sep current (c ∷ t) =
    let here = split_from sep [] t in
    let further = split_from sep (current ++ c ∷ []) t in
    if c == sep then current ∷ here else further

abbrev pub split_on : ℕ → Text → List Text
split_on sep = split_from sep []

pub record StoreLayout : Type 0 where
  pub data_root : Text
  pub store_root : Text
  pub locks_dir : Text
  pub projects_dir : Text

pub data RecordDir : Type 0 where
  snapshots_dir evidence_dir : RecordDir

abbrev pub record_dirname : RecordDir → Text
record_dirname snapshots_dir = lit "snapshots"
record_dirname evidence_dir = lit "evidence"

-- The names of governed directories that hold no records.
unfoldable pub is_non_record_store_dirname : Text → Bool
is_non_record_store_dirname name =
    text_eq name (lit "staging")
    || text_eq name (lit "backups")
    || text_eq name (lit "quarantine")
    || text_eq name (lit "locks")

-- The single spelling of a record's place, with POSIX separators.
unfoldable pub record_store_relative_path : Text → RecordDir → Text → Result Text
record_store_relative_path project_key dir record_key =
    assert_key project_key "project key must be a lowercase SHA-256 key" >>= λ _.
    assert_key record_key "record key must be a lowercase SHA-256 key" >>= λ _. ok (
      lit "projects/"
      ++ project_key
      ++ lit "/"
      ++ record_dirname dir
      ++ lit "/"
      ++ record_key
      ++ lit ".json")

module _ (np : NodePath) where
  open np use {is_absolute, resolve, relative, join, sep}

  abbrev pub escapes : Result Text
  escapes = err (
      with_hint path_escape_code "managed path escapes the data root"
        "no traversal is allowed in the store")

  unfoldable pub confine : Text → Text → Result Text
  confine data_root candidate =
      let root = resolve data_root in
      let target = resolve candidate in
      let rel = relative root target in
      if text_eq target root
      then ok target
      else if is_empty rel || starts_with_dots rel || is_absolute rel
      then escapes
      else if any_of (λ segment. text_eq segment (lit "..")) (split_on sep rel)
      then err (
          with_hint path_escape_code "managed path contains traversal"
            "no traversal is allowed in the store")
      else ok target

  unfoldable pub is_same_or_inside : Text → Text → Bool
  is_same_or_inside outer inner =
      let o = resolve outer in
      let i = resolve inner in
      let rel = relative o i in
      if text_eq o i
      then true
      else not (is_empty rel) && not (starts_with_dots rel) && not (is_absolute rel)

  unfoldable pub assert_project_data_separation : Text → Text → Result (Unit {0})
  assert_project_data_separation data_root boundary =
      let data' = resolve data_root in
      let project = resolve boundary in
      if not (is_absolute boundary)
      then refuse invalid_input_code "the project root boundary must be an absolute path"
      else if text_eq data' project
      then refuse path_escape_code "the data root must not equal the project root"
      else if is_same_or_inside project data'
      then refuse path_escape_code "the data root must not be inside the project root"
      else if is_same_or_inside data' project
      then refuse path_escape_code "the project root must not be inside the data root"
      else ok tt

  unfoldable pub assert_export_destination_safe : Text → Text → Text → Result (Unit {0})
  assert_export_destination_safe data_root boundary destination =
      let dest = resolve destination in
      if not (is_absolute destination)
      then refuse invalid_input_code "the export destination must be an absolute path"
      else if is_same_or_inside (resolve boundary) dest
      then refuse path_escape_code "the export destination must not be inside the project root"
      else if is_same_or_inside (resolve data_root) dest
      then refuse path_escape_code "the export destination must not be inside the active data root"
      else ok tt

  unfoldable pub resolve_store_layout : Text → Result StoreLayout
  resolve_store_layout data_root =
      let root = resolve data_root in
      let store_root = join (join root (lit "project-brain")) (lit "v1") in
      if not (is_absolute data_root)
      then refuse invalid_input_code "the data root must be an absolute path"
      else ok (record {
        data_root = root;
        store_root = store_root;
        locks_dir = join store_root (lit "locks");
        projects_dir = join store_root (lit "projects");
      })

  module _ (layout : StoreLayout) where
    -- `confine(layout.dataRoot, join(dir, name))`
    abbrev pub below : Text → Text → Result Text
    below dir name = confine layout.data_root (join dir name)

    unfoldable pub lock_path_for : Text → Result Text
    lock_path_for project_key =
        assert_key project_key "project key must be a lowercase SHA-256 key" >>= λ _.
        below layout.locks_dir (project_key ++ lit ".lock")

    unfoldable pub project_dir_for : Text → Result Text
    project_dir_for project_key =
        assert_key project_key "project key must be a lowercase SHA-256 key" >>= λ _.
        below layout.projects_dir project_key

    unfoldable pub manifest_path_for : Text → Result Text
    manifest_path_for project_key =
        project_dir_for project_key >>= λ dir. below dir (lit "manifest.json")

    unfoldable pub record_path_for : Text → RecordDir → Text → Result Text
    record_path_for project_key record_dir record_key =
        assert_key record_key "record key must be a lowercase SHA-256 key" >>= λ _.
        project_dir_for project_key >>= λ dir.
        below (join dir (record_dirname record_dir)) (record_key ++ lit ".json")

    unfoldable pub quarantine_dir_for : Text → Result Text
    quarantine_dir_for project_key =
        project_dir_for project_key >>= λ dir. below dir (lit "quarantine")

    unfoldable pub quarantine_operation_dir_for : Text → Text → Result Text
    quarantine_operation_dir_for project_key operation_id =
        assert_operation_segment operation_id >>= λ _.
        quarantine_dir_for project_key >>= λ dir. below dir operation_id

    -- The payload and the metadata of an entry, by the file's name.
    unfoldable pub quarantine_entry_path_for : Text → Text → Text → Text → Result Text
    quarantine_entry_path_for project_key operation_id entry_key name =
        assert_key entry_key "quarantine entry key must be a lowercase SHA-256 key" >>= λ _.
        quarantine_operation_dir_for project_key operation_id >>= λ dir.
        below (join dir entry_key) name

    abbrev pub quarantine_payload_path_for : Text → Text → Text → Result Text
    quarantine_payload_path_for project_key operation_id entry_key =
        quarantine_entry_path_for project_key operation_id entry_key (lit "payload.bin")

    abbrev pub quarantine_metadata_path_for : Text → Text → Text → Result Text
    quarantine_metadata_path_for project_key operation_id entry_key =
        quarantine_entry_path_for project_key operation_id entry_key (lit "metadata.json")

    unfoldable pub repair_receipt_path_for : Text → Text → Result Text
    repair_receipt_path_for project_key operation_id =
        quarantine_operation_dir_for project_key operation_id >>= λ dir.
        below dir (lit "receipt.json")
