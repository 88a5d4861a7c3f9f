-- ===== src/Memory/Envelope/Verify.antt =====
-- Which stored records project-memory/src/manifest.ts accepts.
use oh_my_pm.Common.{◌≡◌, ◌↔◌, inl, inr, refl, String, true, false, some, arith, Option-cases}
use oh_my_pm.Common.Text.{Text, lit, text_eq, text_eq_iff, text_eq_refl}
use oh_my_pm.Common.Json.{Json, Fields, property, get_field}
use oh_my_pm.Memory.Errors.{ok, >>=-eq-ok, Result-cases}
use oh_my_pm.Memory.Integrity.{
  Platform, compute_integrity, assert_integrity, domain_record_integrity,
}
use oh_my_pm.Memory.Envelope.{
  RecordType, snapshot, evidence, record_type_text, RecordEnvelope, envelope_body_json,
  envelope_json, new_body, build_envelope, as_record_type, read_envelope, Expected, check_expected,
  verify_envelope, parse_and_verify_envelope,
}

-- The record is the one that the caller expects, and its digest is that of its body.
pub record IsGenuine (p : Platform) (expected : Expected) (e : RecordEnvelope) : Type 0 where
  pub digest :
      compute_integrity p domain_record_integrity (envelope_body_json e.body) ≡ ok e.integrity
  pub same_type : e.body.record_type ≡ expected.record_type
  pub same_project : e.body.project_id ≡ expected.project_id
  pub same_record : e.body.record_id ≡ expected.record_id

record_type_text-injective : (a b : RecordType) → record_type_text a ≡ record_type_text b → a ≡ b
unfolding text_eq
record_type_text-injective snapshot snapshot e = refl
record_type_text-injective snapshot evidence e =
    let same : false ≡ true = (text_eq_iff (lit "snapshot") (lit "evidence")).1 e in absurd cc
record_type_text-injective evidence snapshot e =
    let same : false ≡ true = (text_eq_iff (lit "evidence") (lit "snapshot")).1 e in absurd cc
record_type_text-injective evidence evidence e = refl

check_expected_lem :
    (expected : Expected) (e r : RecordEnvelope)
    → check_expected expected e ≡ ok r
    → (e ≡ r)
      × (e.body.record_type ≡ expected.record_type)
      × (e.body.project_id ≡ expected.project_id)
      × (e.body.record_id ≡ expected.record_id)
unfolding check_expected
check_expected_lem expected e r h = (
  ground arith,
  record_type_text-injective e.body.record_type expected.record_type (
      ground (
        arith,
        text_eq_iff (record_type_text e.body.record_type) (record_type_text expected.record_type),
      )),
  ground (arith, text_eq_iff e.body.project_id expected.project_id),
  ground (arith, text_eq_iff e.body.record_id expected.record_id),
)

assert_integrity_lem :
    (p : Platform) (domain : Text) (body : Json) (expected : Text) (message : String)
    → assert_integrity p domain body expected message ≡ ok tt
    → compute_integrity p domain body ≡ ok expected
unfolding assert_integrity
assert_integrity_lem p domain body expected message h =
    elim (Result-cases (compute_integrity p domain body)) [
      | inl (actual, e) ↦ ground (arith, text_eq_iff actual expected)
      | inr (x, e) ↦ absurd (ground arith)
    ]

-- A stored value is accepted, and read as `e`, exactly when it has the shape of an envelope with
-- the fields of `e`, the digest is that of the body, and type, project and id are the expected ones.
pub parse_and_verify_envelope_iff :
    (p : Platform) (value : Json) (expected : Expected) (e : RecordEnvelope)
    → (parse_and_verify_envelope p (some value) expected ≡ ok e)
      ↔ ((read_envelope value ≡ some e) × IsGenuine p expected e)
unfolding parse_and_verify_envelope verify_envelope check_expected assert_integrity
parse_and_verify_envelope_iff p value expected e = (forth, back)
  where
    forth :
        parse_and_verify_envelope p (some value) expected ≡ ok e
        → (read_envelope value ≡ some e) × IsGenuine p expected e
    forth h = elim (Option-cases (read_envelope value)) [
      | inl no_shape ↦ absurd (ground arith)
      | inr (e', found) ↦
          (let checked : verify_envelope p expected e' ≡ ok e = ground arith in
            let (_, digest, rest) =
              >>=-eq-ok
                (assert_integrity p domain_record_integrity (envelope_body_json e'.body)
                  e'.integrity "record integrity mismatch")
                _ checked in
            let (same, t, i, j) = check_expected_lem expected e' e rest in
            rw (← same) (
              found,
              record {
                digest = assert_integrity_lem p _ _ e'.integrity _ digest;
                same_type = t;
                same_project = i;
                same_record = j;
              },
            ))
    ]

    back :
        (read_envelope value ≡ some e) × IsGenuine p expected e
        → parse_and_verify_envelope p (some value) expected ≡ ok e
    back (found, g) = ground (
      arith,
      found,
      g.digest,
      g.same_type,
      g.same_project,
      g.same_record,
      text_eq_refl e.integrity,
      text_eq_refl e.body.project_id,
      text_eq_refl e.body.record_id,
      text_eq_refl (record_type_text e.body.record_type),
    )

read_envelope-envelope_json : (e : RecordEnvelope) → read_envelope (envelope_json e) ≡ some e
unfolding read_envelope envelope_json property get_field text_eq as_record_type
read_envelope-envelope_json e = go e.body.record_type refl
  where
    go : (t : RecordType) → e.body.record_type ≡ t → read_envelope (envelope_json e) ≡ some e
    go snapshot h = ground arith
    go evidence h = ground arith

-- A record that was built is read back whole by a caller that expects it.
pub parse_and_verify_envelope-build_envelope :
    (p : Platform) (record_type : RecordType) (project_id record_id : Text) (payload : Fields)
    (e : RecordEnvelope)
    → build_envelope p record_type project_id record_id payload ≡ ok e
    → parse_and_verify_envelope p
        (some (envelope_json e))
        (record { record_type = record_type; project_id = project_id; record_id = record_id })
      ≡ ok e
unfolding build_envelope
parse_and_verify_envelope-build_envelope p record_type project_id record_id payload e h =
    let body = new_body record_type project_id record_id payload in
    let (integrity, digest, rest) =
      >>=-eq-ok (compute_integrity p domain_record_integrity (envelope_body_json body)) _ h in
    let same : record { body = body; integrity = integrity } ≡ e = cc in
    (parse_and_verify_envelope_iff p (envelope_json e) _ e).1 (
      read_envelope-envelope_json e,
      rw (← same)
          (record { digest = digest; same_type = refl; same_project = refl; same_record = refl }),
    )
