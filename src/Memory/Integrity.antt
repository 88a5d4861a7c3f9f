-- ===== src/Memory/Integrity.antt =====
-- project-memory/src/integrity.ts: domain-separated SHA-256 digests. The hash itself, from a
-- string to its lowercase hex digest, is a parameter.
use oh_my_pm.Common.{String, ◌∷◌, ◌++◌, if◌then◌else◌}
use oh_my_pm.Common.Text.{Text, lit, text_eq}
use oh_my_pm.Common.Json.{Number, Json}
use oh_my_pm.Memory.Errors.{Result, ok, err, ◌>>=◌, integrity_mismatch_code, with_hint}
use oh_my_pm.Memory.CanonicalJson.{canonical_stringify}

abbrev pub domain_manifest_integrity : Text
domain_manifest_integrity = lit "oh-my-pm:project-memory:v1:manifest-integrity"

abbrev pub domain_record_integrity : Text
domain_record_integrity = lit "oh-my-pm:project-memory:v1:record-integrity"

abbrev pub domain_project_key : Text
domain_project_key = lit "oh-my-pm:project-memory:v1:project-key"

abbrev pub domain_record_key : Text
domain_record_key = lit "oh-my-pm:project-memory:v1:record-key"

-- What the digests need of Node and of JavaScript: SHA-256, and `JSON.stringify` of numbers and
-- strings.
pub record Platform : Type 0 where
  pub sha256 : Text → Text
  pub number_text : Number → Text
  pub string_text : Text → Text

module _ (p : Platform) where
  -- The domain, a NUL and the input are hashed one after the other.
  unfoldable pub sha256_hex : Text → Text → Text
  sha256_hex domain input = p.sha256 (domain ++ 0 ∷ input)

  unfoldable pub derive_project_key : Text → Text
  unfolding sha256_hex
  derive_project_key project_id = sha256_hex domain_project_key project_id

  unfoldable pub derive_record_key : Text → Text → Text
  unfolding sha256_hex
  derive_record_key record_type record_id =
      sha256_hex domain_record_key (record_type ++ 0 ∷ record_id)

  unfoldable pub compute_integrity : Text → Json → Result Text
  unfolding sha256_hex
  compute_integrity domain body = do
    canonical ← canonical_stringify p.number_text p.string_text body
    ok (lit "sha256:" ++ sha256_hex domain canonical)

  -- The message is `what` with " integrity mismatch" behind it, written by the caller here.
  unfoldable pub assert_integrity : Text → Json → Text → String → Result (Unit {0})
  assert_integrity domain body expected message = do
    actual ← compute_integrity domain body
    if text_eq actual expected
        then ok tt
        else err (with_hint integrity_mismatch_code message "the stored data may be corrupt")
