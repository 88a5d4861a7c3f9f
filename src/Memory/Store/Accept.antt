-- ===== src/Memory/Store/Accept.antt =====
-- What the read paths of project-memory/src/store.ts make of a file that they have read: its size,
-- its parse and its digest.
use oh_my_pm.Common.{ℕ, String, Option, none, some, List, ltb, if◌then◌else◌}
use oh_my_pm.Common.Text.{Text, lit}
use oh_my_pm.Common.Json.{Json, object, string, Fields, end, field}
use oh_my_pm.Memory.Errors.{
  Result, ok, err, ◌>>=◌, corruption_code, limit_exceeded_code, missing_referenced_record_code,
  with_hint, without_hint,
}
use oh_my_pm.Memory.Manifest.{
  ManifestBody, ProjectStoreManifest, verify_manifest, manifest_body_json, is_empty, invalid_input,
}
use oh_my_pm.Memory.Integrity.{Platform, derive_project_key, derive_record_key}
use oh_my_pm.Memory.Envelope.{
  RecordType, snapshot, evidence, record_type_text, RecordEnvelope, envelope_json,
  parse_and_verify_envelope,
}
use oh_my_pm.Memory.Paths.{
  RecordDir, snapshots_dir, evidence_dir, manifest_path_for, record_path_for,
}
use oh_my_pm.Memory.Gates.{assert_own_and_readable}
use oh_my_pm.Memory.FileSystem.{Contents, not_json, manifest_text, value_text}
use oh_my_pm.Memory.Store.Input.{Host}

abbrev pub max_manifest_bytes : ℕ
max_manifest_bytes = 4194304

abbrev pub max_record_bytes : ℕ
max_record_bytes = 16777216

-- One more field at the end of an object.
abbrev pub add_field : Fields → Text → Json → Fields
add_field end k v = field k v end
add_field (field j w fs) k v = field j w (add_field fs k v)

abbrev pub with_integrity : Json → Text → Json
with_integrity (object fs) digest = object (add_field fs (lit "integrity") (string digest))
with_integrity other digest = other

-- `JSON.parse` of the text of a file; none is a SyntaxError.
unfoldable pub as_json : Contents → Option Json
as_json not_json = none
as_json (manifest_text m) = some (with_integrity (manifest_body_json m.body) m.integrity)
as_json (value_text value) = some value

abbrev pub serialize_manifest : ProjectStoreManifest → Contents
serialize_manifest m = manifest_text m

abbrev pub serialize_envelope : RecordEnvelope → Contents
serialize_envelope e = value_text (envelope_json e)

abbrev pub manifest_corrupt : String → Result ProjectStoreManifest
manifest_corrupt message =
    err (with_hint corruption_code message "the store manifest may be corrupt")

unfoldable pub parse_and_verify_manifest : Platform → Contents → Result ProjectStoreManifest
parse_and_verify_manifest p not_json = manifest_corrupt "manifest is not valid JSON"
parse_and_verify_manifest p (value_text value) = manifest_corrupt "manifest shape is invalid"
parse_and_verify_manifest p (manifest_text m) = verify_manifest p m

abbrev pub record_dir : RecordType → RecordDir
record_dir snapshot = snapshots_dir
record_dir evidence = evidence_dir

abbrev pub record_is_missing : RecordType → String
record_is_missing snapshot = "snapshot record is missing on disk"
record_is_missing evidence = "evidence record is missing on disk"

abbrev pub record_is_too_large : RecordType → String
record_is_too_large snapshot = "snapshot record exceeds the maximum size"
record_is_too_large evidence = "evidence record exceeds the maximum size"

abbrev pub not_referenced : RecordType → String
not_referenced snapshot = "snapshot is not referenced by the manifest"
not_referenced evidence = "evidence is not referenced by the manifest"

-- The inventory of a manifest for records of a type.
abbrev pub inventory : RecordType → ManifestBody → List Text
inventory snapshot m = m.snapshot_ids
inventory evidence m = m.evidence_ids

-- The message names the id that is empty.
abbrev pub assert_id : Text → Result (Unit {0})
assert_id id = if is_empty id then err (invalid_input "an id must be a non-empty string") else ok tt

module _ (host : Host) where
  abbrev pub project_key : Text → Text
  project_key project_id = derive_project_key host.platform project_id

  abbrev pub record_key : RecordType → Text → Text
  record_key t id = derive_record_key host.platform (record_type_text t) id

  abbrev pub manifest_path : Text → Result Text
  manifest_path key = manifest_path_for host.node_path host.layout key

  abbrev pub record_path : Text → RecordType → Text → Result Text
  record_path key t id =
      record_path_for host.node_path host.layout key (record_dir t) (record_key t id)

  unfoldable pub assert_manifest_size : Contents → Result (Unit {0})
  assert_manifest_size raw =
      if ltb max_manifest_bytes (host.contents_size raw)
      then err (without_hint limit_exceeded_code "manifest exceeds the maximum size")
      else ok tt

  -- What `readManifest` makes of the file, from the size on.
  unfoldable pub accept_manifest : Text → Contents → Result ProjectStoreManifest
  accept_manifest project_id raw = assert_manifest_size raw >>= λ _.
      parse_and_verify_manifest host.platform raw >>= λ m.
      assert_own_and_readable m.body project_id (project_key project_id) >>= λ _. ok m

  -- What `readEnvelope` makes of the file.
  unfoldable pub accept_envelope :
      Text → RecordType → Text → Option Contents → Result RecordEnvelope
  accept_envelope project_id t id none =
      err (without_hint missing_referenced_record_code (record_is_missing t))
  accept_envelope project_id t id (some raw) =
      if ltb max_record_bytes (host.contents_size raw)
      then err (without_hint limit_exceeded_code (record_is_too_large t))
      else parse_and_verify_envelope host.platform (as_json raw)
          (record { record_type = t; project_id = project_id; record_id = id })
