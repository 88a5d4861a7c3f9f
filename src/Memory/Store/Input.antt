-- ===== src/Memory/Store/Input.antt =====
-- `validateCommitInput` of project-memory/src/store.ts. The ids and times are strings by their
-- type; the snapshot and the evidence are whatever the caller hands over. What the tests have
-- seen of them is kept in a `Bundle`.
use oh_my_pm.Common.{
  ℕ, Bool, false, not, String, Option, none, some, List, [], ◌∷◌, ltb, if◌then◌else◌, length,
}
use oh_my_pm.Common.Text.{Text, lit, text_eq, includes}
use oh_my_pm.Common.Json.{Json, array, Items, nil, cons, Fields, property, as_string, as_number}
use oh_my_pm.Memory.Errors.{Result, ok, err, ◌>>=◌, limit_exceeded_code, without_hint}
use oh_my_pm.Memory.Manifest.{invalid_input, is_empty, is_natural}
use oh_my_pm.Memory.Envelope.{as_object}
use oh_my_pm.Memory.Integrity.{Platform}
use oh_my_pm.Memory.Paths.{NodePath, StoreLayout}
use oh_my_pm.Memory.Gates.{assert_operation_id}
use oh_my_pm.Memory.Privacy.{assert_no_forbidden_keys}
use oh_my_pm.Memory.Commit.{supported_project_brain_schema_version}
use oh_my_pm.Memory.FileSystem.{Contents}

-- What the store needs of JavaScript and Node, and where its files stand.
pub record Host : Type 0 where
  pub platform : Platform
  pub node_path : NodePath
  pub layout : StoreLayout
  pub to_lower_case : Text → Text
  pub date_parse : Text → Option ℕ
  pub utf8_byte_length : Text → ℕ
  -- `utf8ByteLength` of the text of a file.
  pub contents_size : Contents → ℕ

abbrev pub max_evidence_per_commit : ℕ
max_evidence_per_commit = 10000

pub record CommitSnapshotBundleInput : Type 0 where
  pub project_id : Text
  pub project_root_boundary : Text
  pub operation_id : Text
  pub occurred_at : Text
  pub snapshot : Json
  pub evidence : Json

-- A record by its id.
pub record Payload : Type 0 where
  pub record_id : Text
  pub fields : Fields

pub record Bundle : Type 0 where
  pub project_id : Text
  pub project_root_boundary : Text
  pub operation_id : Text
  pub occurred_at : Text
  pub snapshot : Payload
  pub evidence : List Payload
  pub evidence_refs : List Text

abbrev invalid : {A : Type 0} → String → Result A
invalid message = err (invalid_input message)

-- The message names the field.
unfoldable pub assert_non_empty_id : Option Json → String → Result Text
assert_non_empty_id value message = elim (as_string value) [
  | none ↦ invalid message
  | some id ↦ if is_empty id then invalid message else ok id
]

-- `value === text`, for any value.
abbrev pub is_text : Option Json → Text → Bool
is_text value t = elim (as_string value) [ none ↦ false | some s ↦ text_eq s t ]

abbrev pub is_schema_version : Option Json → Bool
is_schema_version value = elim (as_number value) [
  | none ↦ false
  | some n ↦ is_natural n supported_project_brain_schema_version
]

-- The items of an array.
unfoldable pub list_of : Items → List Json
list_of nil = []
list_of (cons x xs) = x ∷ list_of xs

unfoldable pub as_array : Option Json → Option (List Json)
as_array (some (array xs)) = some (list_of xs)
as_array _ = none

-- Each of them is a string.
unfoldable pub all_strings : List Json → Result (List Text)
all_strings [] = ok []
all_strings (x ∷ xs) = elim (as_string (some x)) [
  | none ↦ invalid "snapshot.evidenceRefs must be strings"
  | some t ↦ all_strings xs >>= λ ts. ok (t ∷ ts)
]

-- `Array.isArray(snapshot.evidenceRefs) ? snapshot.evidenceRefs : []`
unfoldable pub read_refs : Json → Result (List Text)
read_refs snapshot = elim (as_array (property snapshot (lit "evidenceRefs"))) [
  | none ↦ ok []
  | some refs ↦ all_strings refs
]

module _ (host : Host) (project_id : Text) where
  -- The body of the loop over the evidence.
  unfoldable pub check_evidence : List Text → Json → Result Payload
  check_evidence seen item = elim (as_object (some item)) [
    | none ↦ invalid "each evidence record must be an object"
    | some fields ↦
        assert_non_empty_id (property item (lit "evidenceId"))
          "evidence.evidenceId must be a non-empty string"
        >>= λ id.
            if not (is_text (property item (lit "projectId")) project_id)
            then invalid "evidence.projectId must match the commit projectId"
            else if not (is_schema_version (property item (lit "schemaVersion")))
            then invalid "evidence.schemaVersion is not supported"
            else if includes seen id
            then invalid "duplicate evidenceId in commit"
            else assert_no_forbidden_keys host.to_lower_case item >>= λ _.
                ok (record { record_id = id; fields = fields })
  ]

  unfoldable pub check_all_evidence : List Text → List Json → Result (List Payload)
  check_all_evidence seen [] = ok []
  check_all_evidence seen (x ∷ xs) = check_evidence seen x >>= λ payload.
      check_all_evidence (payload.record_id ∷ seen) xs >>= λ rest. ok (payload ∷ rest)

  unfoldable pub check_snapshot : Json → Result Payload
  check_snapshot snapshot = elim (as_object (some snapshot)) [
    | none ↦ invalid "snapshot must be an object"
    | some fields ↦
        assert_non_empty_id (property snapshot (lit "snapshotId"))
          "snapshot.snapshotId must be a non-empty string"
        >>= λ id.
            if not (is_text (property snapshot (lit "projectId")) project_id)
            then invalid "snapshot.projectId must match the commit projectId"
            else if not (is_schema_version (property snapshot (lit "schemaVersion")))
            then invalid "snapshot.schemaVersion is not supported"
            else ok (record { record_id = id; fields = fields })
  ]

  unfoldable pub check_evidence_list : Json → Result (List Payload)
  check_evidence_list evidence = elim (as_array (some evidence)) [
    | none ↦ invalid "evidence must be an array"
    | some records ↦
        if ltb max_evidence_per_commit (length records)
        then err (without_hint limit_exceeded_code "evidence per commit exceeds the maximum")
        else check_all_evidence [] records
  ]

abbrev pub assert_text : Text → String → Result (Unit {0})
assert_text t message = if is_empty t then invalid message else ok tt

unfoldable pub validate_commit_input : Host → CommitSnapshotBundleInput → Result Bundle
validate_commit_input host input =
    assert_text input.project_id "projectId must be a non-empty string" >>= λ _.
    assert_operation_id host.utf8_byte_length input.operation_id >>= λ _.
    assert_text input.occurred_at "occurredAt must be a non-empty string" >>= λ _.
    assert_text input.project_root_boundary "projectRootBoundary must be a non-empty string"
    >>= λ _. check_snapshot host input.project_id input.snapshot >>= λ snapshot.
        check_evidence_list host input.project_id input.evidence >>= λ evidence.
        assert_no_forbidden_keys host.to_lower_case input.snapshot >>= λ _.
        read_refs input.snapshot >>= λ refs. ok (record {
          project_id = input.project_id;
          project_root_boundary = input.project_root_boundary;
          operation_id = input.operation_id;
          occurred_at = input.occurred_at;
          snapshot = snapshot;
          evidence = evidence;
          evidence_refs = refs;
        })
