-- ===== src/Tests/Store.antt =====
-- A first commit of project-memory/src/store.ts, on an empty disk.
use oh_my_pm.Common.Sort.{sort, insert_sorted}
use oh_my_pm.Common.Sets.{set_add, set_adds}
use oh_my_pm.Memory.Manifest.{
  build_manifest, assert_manifest_chronology, check_chronology, check_entries, check_entry,
  check_latest, well_formed, has_number, entry_json, manifest_body_json,
}
use oh_my_pm.Memory.Commit.{
  build_next_manifest, next_body, next_fields, require_snapshot_captured_at, next_sequence,
}
use oh_my_pm.Memory.CanonicalJson.{
  canonical_stringify, encode, encode_value, encode_object, encode_entries, push,
}
use oh_my_pm.Memory.Store.Read.{read_manifest, manifest_of}
use oh_my_pm.Common.{
  ◌≡◌, ◌≢◌, refl, subst, true, false, Option, none, some, [], ◌++◌, arith, any_of, get_last?,
  get_last?-snoc, ap,
}
use oh_my_pm.Common.Text.{Text, lit, text_eq, text_eq_iff, includes, text_lt}
use oh_my_pm.Common.Json.{property, get_field}
use oh_my_pm.Common.Action.{returns, Ends}
use oh_my_pm.Memory.Errors.{ok}
use oh_my_pm.Memory.Integrity.{sha256_hex, derive_project_key, derive_record_key, compute_integrity}
use oh_my_pm.Memory.Gates.{assert_operation_id, all_safe}
use oh_my_pm.Memory.Privacy.{assert_no_forbidden_keys, walk, normalize_key, strip}
use oh_my_pm.Memory.Envelope.{RecordType, snapshot, evidence, build_envelope, envelope_body_json}
use oh_my_pm.Memory.Paths.{
  project_dir_for, assert_key, is_sha256_key, confine, starts_with_dots, split_from,
  manifest_path_for, record_path_for, assert_project_data_separation, is_same_or_inside,
  lock_path_for,
}
use oh_my_pm.Memory.FileSystem.{Contents, fail_point}
use oh_my_pm.Memory.Store.Input.{
  check_snapshot, assert_non_empty_id, check_evidence_list, as_array, list_of, check_all_evidence,
  read_refs, all_strings, validate_commit_input,
}
use oh_my_pm.Memory.Store.Accept.{record_path, assert_manifest_size}
use oh_my_pm.Memory.Gates.{temp_name}
use oh_my_pm.Memory.Store.Read.{read_record}
use oh_my_pm.Memory.Store.Write.CommitRead.{read_record-commit_snapshot_bundle}
use oh_my_pm.Memory.Store.Write.{
  CommitResult, child, commit_bundle, commit_locked, write_bundle, write_manifest, write_records,
  staging_of, commit_and_release, commit_snapshot_bundle, stage, stage_all, move_record, move_all,
  write_staged, build_evidence, commit_result_from, repeat_commit,
}
use oh_my_pm.Memory.Store.Write.Frame.{IsKept}
use oh_my_pm.Memory.Store.Write.Atomic.{Done, Stopped, commit_snapshot_bundle_atomic}
use oh_my_pm.Memory.Lock.{acquire_lock, acquire, release, own_record, serialize}
use oh_my_pm.Memory.Store.Reconcile.{all_known, listed_evidence, ids_of, reconcile_existing}
use oh_my_pm.Memory.Store.Reconciled.{Unchanged, BundleVerdict, reconcile_existing_lem}
use oh_my_pm.Memory.Store.Verify.{verify}
use oh_my_pm.Memory.Store.Verify.Sound.{Verdict, verify_lem}
use oh_my_pm.Tests.Manifest.{built}
use oh_my_pm.Tests.Paths.{way}
use oh_my_pm.Tests.Disk.{
  Disk, is_file, disk_system, Below, temp_next, begins_with, not_Below, disk_laws,
}
use oh_my_pm.Tests.Host.{
  zeros, host, snapshot_fields, input, bundle, valid, dir, manifest_file, project, placed, named,
  record_file, recorded,
}

different : (s t : Text) → text_eq s t ≡ false → s ≢ t
different s t h e = ground (arith, text_eq_iff s t)

pub manifest_apart : ¬ Below (staging_of dir) manifest_file
unfolding begins_with
manifest_apart = not_Below (staging_of dir) manifest_file refl

file_there : (found : Option Contents) → is_file found ≡ true → (c : Contents) × (found ≡ some c)
file_there none h = absurd (cc)
file_there (some c) h = (c, refl)

pub no_folders :
    (s : Disk) (t : RecordType) (id path : Text)
    → record_path host project t id ≡ ok path
    → (disk_system.exists path s).0 ≡ returns true
    → (c : Contents) × (s.files path ≡ some c)
no_folders s t id path found r = file_there (s.files path) (ground arith)

abbrev pub Spared : Text → Type 0
Spared =
    IsKept host disk_system (λ disk. disk.files) Below temp_next disk_laws bundle dir manifest_file

record_file_spared : (t : RecordType) → Spared (record_file t)
unfolding temp_name text_eq begins_with
record_file_spared snapshot =
    (different _ _ refl, different _ _ refl, not_Below (staging_of dir) (record_file snapshot) refl)
record_file_spared evidence =
    (different _ _ refl, different _ _ refl, not_Below (staging_of dir) (record_file evidence) refl)

pub records_apart :
    (t : RecordType) (id path : Text) → record_path host project t id ≡ ok path → Spared path
records_apart t id path found =
    let same : record_file t ≡ path = ground (arith, recorded t id) in
    subst Spared same (record_file_spared t)

abbrev pub empty_disk : Disk
empty_disk = record { files = λ p. none; locks = λ p. none }

commit_snapshot_bundle_atomic_example :
    Ends
      (Done host disk_system
        (λ disk. disk.files)
        Below
        temp_next
        disk_laws
        bundle
        dir
        manifest_file
        manifest_apart
        (λ p. none)
        no_folders
        records_apart
        named)
      (Stopped host disk_system
        (λ disk. disk.files)
        Below
        temp_next
        disk_laws
        bundle
        dir
        manifest_file
        manifest_apart
        (λ p. none)
        no_folders
        records_apart
        named)
      (commit_snapshot_bundle host disk_system input empty_disk).0
      (commit_snapshot_bundle host disk_system input empty_disk).1
commit_snapshot_bundle_atomic_example =
    commit_snapshot_bundle_atomic host disk_system (λ disk. disk.files) Below temp_next disk_laws
      bundle dir manifest_file manifest_apart (λ p. none) no_folders records_apart named placed
      input valid empty_disk (λ p. refl)

-- The disk after the commit.
abbrev committed : Disk
committed = (commit_snapshot_bundle host disk_system input empty_disk).1

reconcile_existing_lem_example :
    Ends
      (λ idempotent s.
        Unchanged host disk_system
          (λ disk. disk.files)
          Below
          temp_next
          disk_laws
          (lit "p")
          committed.files
          s
        × (all_known (listed_evidence (some built) ++ ids_of bundle.evidence) bundle.evidence_refs
            ≡ true)
        × BundleVerdict host disk_system
            (λ disk. disk.files)
            Below
            temp_next
            disk_laws
            (lit "p")
            committed.files
            (some built)
            bundle
            idempotent)
      (Unchanged host disk_system
        (λ disk. disk.files)
        Below
        temp_next
        disk_laws
        (lit "p")
        committed.files)
      (reconcile_existing host disk_system (lit "p") bundle (some built) committed).0
      (reconcile_existing host disk_system (lit "p") bundle (some built) committed).1
reconcile_existing_lem_example =
    reconcile_existing_lem host disk_system (λ disk. disk.files) Below temp_next disk_laws (lit "p")
      committed.files bundle (some built) committed (λ q. refl)

verify_lem_example :
    Ends
      (λ r s.
        Unchanged host disk_system
          (λ disk. disk.files)
          Below
          temp_next
          disk_laws
          (lit "p")
          committed.files
          s
        × Verdict host disk_system
            (λ disk. disk.files)
            Below
            temp_next
            disk_laws
            (lit "p")
            committed.files
            (committed.files manifest_file)
            r)
      (Unchanged host disk_system
        (λ disk. disk.files)
        Below
        temp_next
        disk_laws
        (lit "p")
        committed.files)
      (verify host disk_system (lit "p") committed).0
      (verify host disk_system (lit "p") committed).1
verify_lem_example =
    verify_lem host disk_system (λ disk. disk.files) Below temp_next disk_laws (lit "p")
      committed.files manifest_file named committed (λ q. refl)

abbrev first_result : CommitResult
first_result = record {
  project_id = lit "p";
  snapshot_id = lit "s1";
  committed_evidence_ids = [];
  idempotent = false;
  latest_snapshot_id = lit "s1";
  snapshot_count = 1;
  evidence_count = 0;
}

returned : (commit_snapshot_bundle host disk_system input empty_disk).0 ≡ returns first_result
unfolding commit_snapshot_bundle commit_bundle commit_and_release commit_locked write_bundle
    write_manifest write_records stage stage_all move_record move_all write_staged build_evidence
    commit_result_from repeat_commit read_manifest manifest_of assert_manifest_size
    reconcile_existing all_known acquire_lock acquire release own_record serialize fail_point
    validate_commit_input check_snapshot assert_non_empty_id check_evidence_list as_array list_of
    check_all_evidence read_refs all_strings assert_project_data_separation is_same_or_inside
    lock_path_for project_dir_for manifest_path_for record_path_for assert_key is_sha256_key confine
    starts_with_dots split_from build_envelope envelope_body_json compute_integrity sha256_hex
    derive_project_key derive_record_key canonical_stringify encode encode_value encode_object
    encode_entries push build_next_manifest next_body next_fields require_snapshot_captured_at
    next_sequence build_manifest assert_manifest_chronology check_chronology check_entries
    check_entry check_latest well_formed has_number entry_json manifest_body_json set_add set_adds
    sort insert_sorted text_eq text_lt includes assert_operation_id all_safe temp_name
    assert_no_forbidden_keys walk normalize_key strip property get_field begins_with way any_of
returned = refl

temp_apart :
    (name : Text)
    → child (staging_of dir) (lit "snapshot-" ++ zeros ++ lit ".json")
      ≢ temp_next (child (staging_of dir) name) (lit "t")
temp_apart name e =
    let last : some b'n' ≡ get_last? (child (staging_of dir) name ++ lit "~") = ap get_last? e in
    let tilde = get_last?-snoc (child (staging_of dir) name) b'~' in absurd (ground arith)

no_folder :
    (s : Disk)
    → (disk_system.exists (record_file snapshot) s).0 ≡ returns true
    → (c : Contents) × (s.files (record_file snapshot) ≡ some c)
no_folder s r = file_there (s.files (record_file snapshot)) (ground arith)

read_record-commit_snapshot_bundle_example :
    (read_record host disk_system snapshot
      (lit "p")
      (lit "s1")
      (commit_snapshot_bundle host disk_system input empty_disk).1).0
    ≡ returns snapshot_fields
unfolding derive_record_key
read_record-commit_snapshot_bundle_example =
    read_record-commit_snapshot_bundle host disk_system bundle dir (λ disk. disk.files) Below
      temp_next disk_laws manifest_file (record_file snapshot) named (recorded snapshot (lit "s1"))
      manifest_apart (record_file_spared snapshot).2 (record_file_spared snapshot).0
      (record_file_spared snapshot).1 no_folder temp_apart (λ s path. refl) refl refl placed input
      valid empty_disk refl first_result returned refl
