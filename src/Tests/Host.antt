-- ===== src/Tests/Host.antt =====
-- A host, an input and its paths, for the commits of project-memory/src/store.ts.
use oh_my_pm.Common.{◌≡◌, refl, none, [], ◌++◌, any_of}
use oh_my_pm.Common.Text.{Text, lit, text_eq, includes}
use oh_my_pm.Common.Json.{
  property, get_field, natural, number, string, array, object, nil, Fields, end, field,
}
use oh_my_pm.Memory.Errors.{ok}
use oh_my_pm.Memory.Integrity.{Platform, sha256_hex, derive_project_key, derive_record_key}
use oh_my_pm.Memory.Gates.{assert_operation_id, all_safe}
use oh_my_pm.Memory.Privacy.{assert_no_forbidden_keys, walk, normalize_key, strip}
use oh_my_pm.Memory.Envelope.{RecordType, snapshot, evidence}
use oh_my_pm.Memory.Paths.{
  StoreLayout, project_dir_for, assert_key, is_sha256_key, confine, starts_with_dots, split_from,
  manifest_path_for, record_path_for,
}
use oh_my_pm.Memory.Store.Input.{
  check_snapshot, assert_non_empty_id, check_evidence_list, as_array, list_of, check_all_evidence,
  read_refs, all_strings, Host, CommitSnapshotBundleInput, Bundle, validate_commit_input,
}
use oh_my_pm.Memory.Store.Accept.{record_path, project_key, manifest_path}
use oh_my_pm.Tests.Paths.{posix, way}

-- A hash that keeps nothing of its input.
abbrev pub zeros : Text
zeros = lit "0000000000000000000000000000000000000000000000000000000000000000"

abbrev pub blind : Platform
blind = record { sha256 = λ t. zeros; number_text = λ n. lit "1"; string_text = λ s. lit "s" }

abbrev pub layout : StoreLayout
layout = record {
  data_root = lit "/d";
  store_root = lit "/d/v1";
  locks_dir = lit "/d/v1/locks";
  projects_dir = lit "/d/v1/projects";
}

abbrev pub host : Host
host = record {
  platform = blind;
  node_path = posix;
  layout = layout;
  to_lower_case = λ t. t;
  date_parse = λ t. none;
  utf8_byte_length = λ t. 1;
  contents_size = λ c. 1;
}

abbrev pub snapshot_fields : Fields
snapshot_fields = field (lit "snapshotId") (string (lit "s1")) (
    field (lit "projectId") (string (lit "p")) (
      field (lit "schemaVersion") (number (natural 1))
        (field (lit "capturedAt") (string (lit "2026-01-01")) end)))

abbrev pub input : CommitSnapshotBundleInput
input = record {
  project_id = lit "p";
  project_root_boundary = lit "/home";
  operation_id = lit "op";
  occurred_at = lit "2026-01-02";
  snapshot = object snapshot_fields;
  evidence = array nil;
}

abbrev pub bundle : Bundle
bundle = record {
  project_id = lit "p";
  project_root_boundary = lit "/home";
  operation_id = lit "op";
  occurred_at = lit "2026-01-02";
  snapshot = record { record_id = lit "s1"; fields = snapshot_fields };
  evidence = [];
  evidence_refs = [];
}

pub valid : validate_commit_input host input ≡ ok bundle
unfolding validate_commit_input assert_operation_id all_safe text_eq check_snapshot
    assert_non_empty_id property get_field check_evidence_list as_array list_of check_all_evidence
    assert_no_forbidden_keys walk includes normalize_key strip read_refs all_strings
valid = refl

abbrev pub dir : Text
dir = lit "/d/v1/projects/" ++ zeros

abbrev pub manifest_file : Text
manifest_file = dir ++ lit "/manifest.json"

abbrev pub project : Text
project = project_key host (lit "p")

pub placed : project_dir_for posix layout project ≡ ok dir
unfolding project_dir_for assert_key is_sha256_key any_of confine text_eq way starts_with_dots
    split_from sha256_hex derive_project_key
placed = refl

pub named : manifest_path host project ≡ ok manifest_file
unfolding manifest_path_for project_dir_for assert_key is_sha256_key any_of confine text_eq way
    starts_with_dots split_from sha256_hex derive_project_key
named = refl

abbrev pub record_file : RecordType → Text
record_file snapshot = dir ++ lit "/snapshots/" ++ zeros ++ lit ".json"
record_file evidence = dir ++ lit "/evidence/" ++ zeros ++ lit ".json"

pub recorded : (t : RecordType) (id : Text) → record_path host project t id ≡ ok (record_file t)
unfolding record_path_for project_dir_for assert_key is_sha256_key any_of confine text_eq way
    starts_with_dots split_from sha256_hex derive_project_key derive_record_key
recorded snapshot id = refl
recorded evidence id = refl
