-- ===== src/Memory/Envelope.antt =====
-- The record envelopes of project-memory/src/manifest.ts: building, storing, reading back.
pub mod Verify
use oh_my_pm.Common.{String, ℕ, Bool, true, false, Option, none, some, if◌then◌else◌, not, ◌||◌}
use oh_my_pm.Common.Text.{Text, lit, text_eq}
use oh_my_pm.Common.Json.{
  Number, natural, Json, null, number, string, array, object, Fields, end, field, property,
  as_string, as_number,
}
use oh_my_pm.Memory.Errors.{Result, ok, err, ◌>>=◌, ◌>>◌, corruption_code, with_hint}
use oh_my_pm.Memory.Integrity.{
  Platform, compute_integrity, assert_integrity, domain_record_integrity,
}

pub data RecordType : Type 0 where
  snapshot evidence : RecordType

abbrev pub record_type_text : RecordType → Text
record_type_text snapshot = lit "snapshot"
record_type_text evidence = lit "evidence"

-- `EnvelopeBody`: every field but the digest.
pub record EnvelopeBody : Type 0 where
  pub record_type : RecordType
  pub store_format_version : Number
  pub project_brain_schema_version : Number
  pub project_id : Text
  pub record_id : Text
  pub payload : Fields

pub record RecordEnvelope : Type 0 where
  pub body : EnvelopeBody
  pub integrity : Text

abbrev body_fields : EnvelopeBody → Fields → Fields
body_fields b rest = field (lit "recordType") (string (record_type_text b.record_type)) (
    field (lit "storeFormatVersion") (number b.store_format_version) (
      field (lit "projectBrainSchemaVersion") (number b.project_brain_schema_version) (
        field (lit "projectId") (string b.project_id) (
          field (lit "recordId") (string b.record_id)
            (field (lit "payload") (object b.payload) rest)))))

unfoldable pub envelope_body_json : EnvelopeBody → Json
envelope_body_json b = object (body_fields b end)

-- `{ ...body, integrity }` as the value that `serializeEnvelope` prints.
unfoldable pub envelope_json : RecordEnvelope → Json
envelope_json e = object (body_fields e.body (field (lit "integrity") (string e.integrity) end))

abbrev pub new_body : RecordType → Text → Text → Fields → EnvelopeBody
new_body record_type project_id record_id payload = record {
  record_type = record_type;
  store_format_version = natural 2;
  project_brain_schema_version = natural 1;
  project_id = project_id;
  record_id = record_id;
  payload = payload;
}

unfoldable pub build_envelope : Platform → RecordType → Text → Text → Fields → Result RecordEnvelope
build_envelope p record_type project_id record_id payload =
    let body = new_body record_type project_id record_id payload in
    compute_integrity p domain_record_integrity (envelope_body_json body) >>= λ integrity.
    ok (record { body = body; integrity = integrity })

unfoldable pub as_record_type : Option Json → Option RecordType
as_record_type (some (string t)) =
    if text_eq t (lit "snapshot")
    then some snapshot
    else if text_eq t (lit "evidence")
    then some evidence
    else none
as_record_type _ = none

-- An object that is no array.
abbrev pub as_object : Option Json → Option Fields
as_object (some (object fs)) = some fs
as_object _ = none

infixl 5 ◌then_some◌
abbrev ◌then_some◌ : {A B : Type 0} → Option A → (A → Option B) → Option B
none then_some f = none
some a then_some f = f a

-- `isEnvelopeShape`, with the fields that it tests.
unfoldable pub read_envelope : Json → Option RecordEnvelope
read_envelope value = as_record_type (property value (lit "recordType")) then_some λ record_type.
    as_number (property value (lit "storeFormatVersion")) then_some λ format.
    as_number (property value (lit "projectBrainSchemaVersion")) then_some λ schema.
    as_string (property value (lit "projectId")) then_some λ project_id.
    as_string (property value (lit "recordId")) then_some λ record_id.
    as_object (property value (lit "payload")) then_some λ payload.
    as_string (property value (lit "integrity")) then_some λ integrity. some (record {
      body = record {
        record_type = record_type;
        store_format_version = format;
        project_brain_schema_version = schema;
        project_id = project_id;
        record_id = record_id;
        payload = payload;
      };
      integrity = integrity;
    })

-- What the caller expects of a record.
pub record Expected : Type 0 where
  pub record_type : RecordType
  pub project_id : Text
  pub record_id : Text

abbrev pub record_corrupt : String → Result RecordEnvelope
record_corrupt message = err (with_hint corruption_code message "the stored record may be corrupt")

unfoldable pub check_expected : Expected → RecordEnvelope → Result RecordEnvelope
check_expected expected e =
    if not (text_eq (record_type_text e.body.record_type) (record_type_text expected.record_type))
    then record_corrupt "record type mismatch"
    else if not (text_eq e.body.project_id expected.project_id)
    then record_corrupt "record project ownership mismatch"
    else if not (text_eq e.body.record_id expected.record_id)
    then record_corrupt "record id mismatch"
    else ok e

unfoldable pub verify_envelope : Platform → Expected → RecordEnvelope → Result RecordEnvelope
unfolding check_expected
verify_envelope p expected e =
    assert_integrity p domain_record_integrity (envelope_body_json e.body) e.integrity
      "record integrity mismatch"
    >>= λ _. check_expected expected e

-- `none` stands for text that `JSON.parse` refuses.
unfoldable pub parse_and_verify_envelope : Platform → Option Json → Expected → Result RecordEnvelope
unfolding verify_envelope
parse_and_verify_envelope p none expected = record_corrupt "record is not valid JSON"
parse_and_verify_envelope p (some value) expected = elim (read_envelope value) [
  | none ↦ record_corrupt "record shape is invalid"
  | some e ↦ verify_envelope p expected e
]
