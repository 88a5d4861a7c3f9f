-- ===== src/Tests/Manifest.antt =====
-- A manifest of one snapshot, as project-memory/src/manifest.ts writes it and reads it.
use oh_my_pm.Common.{◌≡◌, ◌↔◌, refl, some, [], ◌∷◌}
use oh_my_pm.Common.Text.{lit, text_eq, text_lt, includes}
use oh_my_pm.Common.Sort.{sort, insert_sorted}
use oh_my_pm.Common.Sets.{set_add, set_adds}
use oh_my_pm.Memory.CanonicalJson.{
  canonical_stringify, encode, encode_value, encode_object, push, encode_entries,
}
use oh_my_pm.Common.Json.{natural, property, get_field}
use oh_my_pm.Memory.Errors.{ok}
use oh_my_pm.Memory.Integrity.{Platform, compute_integrity, sha256_hex}
use oh_my_pm.Memory.Manifest.{
  SnapshotHistoryEntry, ManifestBody, ProjectStoreManifest, entry_json, assert_manifest_chronology,
  build_manifest, verify_manifest, corrupt_store, check_chronology, check_entries, check_entry,
  well_formed, has_number, check_latest, manifest_body_json,
}
use oh_my_pm.Memory.Manifest.Accepts.{HasChronology, assert_manifest_chronology_iff}
use oh_my_pm.Memory.Manifest.Verify.{verify_manifest-build_manifest}

abbrev pub first_entry : SnapshotHistoryEntry
first_entry = record {
  snapshot_id = lit "s1";
  captured_at = lit "2026-01-01";
  sequence = natural 1;
}

abbrev pub one_snapshot : ManifestBody
one_snapshot = record {
  store_format_version = 2;
  project_brain_schema_version = 1;
  project_id = lit "p";
  project_key = lit "k";
  created_at = lit "2026-01-01";
  updated_at = lit "2026-01-01";
  latest_snapshot_id = some (lit "s1");
  snapshot_ids = lit "s1" ∷ [];
  evidence_ids = [];
  snapshot_history = some (entry_json first_entry ∷ []);
  snapshot_chronology_origin = some (lit "native");
  migration_history = [];
}

-- A hash that keeps nothing of its input.
abbrev pub plain : Platform
plain = record { sha256 = λ t. lit "0"; number_text = λ n. lit "1"; string_text = λ s. lit "s" }

abbrev pub built : ProjectStoreManifest
built = record { body = one_snapshot; integrity = lit "sha256:0" }

pub built_lem : build_manifest plain one_snapshot ≡ ok built
unfolding build_manifest includes text_eq assert_manifest_chronology check_chronology set_adds
    set_add check_entries well_formed property get_field entry_json has_number check_latest
    compute_integrity canonical_stringify encode manifest_body_json encode_value insert_sorted sort
    text_lt encode_entries encode_object push sha256_hex check_entry
built_lem = refl

assert_manifest_chronology_iff_example :
    (assert_manifest_chronology corrupt_store one_snapshot ≡ ok tt) ↔ HasChronology one_snapshot
assert_manifest_chronology_iff_example = assert_manifest_chronology_iff corrupt_store one_snapshot

verify_manifest-build_manifest_example : verify_manifest plain built ≡ ok built
verify_manifest-build_manifest_example =
    verify_manifest-build_manifest plain one_snapshot built built_lem
