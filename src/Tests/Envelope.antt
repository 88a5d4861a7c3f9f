-- ===== src/Tests/Envelope.antt =====
-- A stored evidence record, as project-memory/src/manifest.ts writes it and reads it.
use oh_my_pm.Common.{◌≡◌, ◌↔◌, refl, some}
use oh_my_pm.Common.Text.{lit, text_lt}
use oh_my_pm.Common.Sort.{sort, insert_sorted}
use oh_my_pm.Common.Json.{string, Fields, field, end}
use oh_my_pm.Memory.CanonicalJson.{
  canonical_stringify, encode, encode_value, encode_object, push, encode_entries,
}
use oh_my_pm.Memory.Errors.{ok}
use oh_my_pm.Memory.Integrity.{compute_integrity, sha256_hex}
use oh_my_pm.Memory.Envelope.{
  evidence, RecordEnvelope, Expected, envelope_body_json, envelope_json, new_body, build_envelope,
  read_envelope, parse_and_verify_envelope,
}
use oh_my_pm.Memory.Envelope.Verify.{
  IsGenuine, parse_and_verify_envelope_iff, parse_and_verify_envelope-build_envelope,
}
use oh_my_pm.Tests.Manifest.{plain}

abbrev payload : Fields
payload = field (lit "evidenceId") (string (lit "e1")) end

abbrev stored : RecordEnvelope
stored = record {
  body = new_body evidence (lit "p") (lit "e1") payload;
  integrity = lit "sha256:0";
}

abbrev expected : Expected
expected = record { record_type = evidence; project_id = lit "p"; record_id = lit "e1" }

stored_lem : build_envelope plain evidence (lit "p") (lit "e1") payload ≡ ok stored
unfolding build_envelope compute_integrity sha256_hex envelope_body_json canonical_stringify encode
    encode_value encode_object push encode_entries sort insert_sorted text_lt
stored_lem = refl

parse_and_verify_envelope-build_envelope_example :
    parse_and_verify_envelope plain (some (envelope_json stored)) expected ≡ ok stored
parse_and_verify_envelope-build_envelope_example =
    parse_and_verify_envelope-build_envelope plain evidence (lit "p") (lit "e1") payload stored
      stored_lem

parse_and_verify_envelope_iff_example :
    (parse_and_verify_envelope plain (some (envelope_json stored)) expected ≡ ok stored)
    ↔ ((read_envelope (envelope_json stored) ≡ some stored) × IsGenuine plain expected stored)
parse_and_verify_envelope_iff_example =
    parse_and_verify_envelope_iff plain (envelope_json stored) expected stored
