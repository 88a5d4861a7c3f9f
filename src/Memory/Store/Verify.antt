-- ===== src/Memory/Store/Verify.antt =====
-- `verify` of project-memory/src/store.ts: every record that the manifest lists is read back, and
-- what does not hold becomes an issue.
pub mod Times
pub mod Sound
use oh_my_pm.Common.{Bool, true, false, Option, none, some, List, [], ◌∷◌, ◌++◌, if◌then◌else◌}
use oh_my_pm.Common.Text.{Text, lit}
use oh_my_pm.Common.Json.{Json, object, property, as_string}
use oh_my_pm.Common.Action.{Outcome, returns, throws, Action, pure, ◌>>=◌, ◌>>◌}
use oh_my_pm.Memory.Errors.{
  ProjectMemoryError, ProjectMemoryErrorCode, Result, ok, err, invalid_input_code, path_escape_code,
  store_locked_code, corruption_code, integrity_mismatch_code, unsupported_store_version_code,
  migration_required_code, record_conflict_code, missing_referenced_record_code,
  limit_exceeded_code, atomic_commit_failure_code, export_conflict_code,
  delete_confirmation_mismatch_code,
}
use oh_my_pm.Memory.Manifest.{ManifestBody, ProjectStoreManifest}
use oh_my_pm.Memory.Commit.{or_default}
use oh_my_pm.Memory.Envelope.{RecordType, snapshot, evidence, record_type_text, RecordEnvelope}
use oh_my_pm.Memory.FileSystem.{Contents, Thrown, memory_error, foreign, FileSystem, of_result}
use oh_my_pm.Memory.Store.Input.{Host, is_text}
use oh_my_pm.Memory.Store.Accept.{assert_id, project_key, manifest_path, accept_manifest}
use oh_my_pm.Memory.Store.Read.{read_stored_envelope}

pub data IssueKind : Type 0 where
  abandoned_staging unreferenced_record missing_record integrity_failure unsupported_format :
      IssueKind

pub record StoreInspectionIssue : Type 0 where
  pub kind : IssueKind
  pub detail : Text

pub record StoreVerification : Type 0 where
  pub project_id : Text
  pub is_ok : Bool
  pub manifest_verified : Bool
  pub verified_snapshot_ids : List Text
  pub verified_evidence_ids : List Text
  pub issues : List StoreInspectionIssue

-- The code of an error as its text.
unfoldable pub code_text : ProjectMemoryErrorCode → Text
code_text invalid_input_code = lit "OMP-MEM-1001"
code_text path_escape_code = lit "OMP-MEM-1002"
code_text store_locked_code = lit "OMP-MEM-1003"
code_text corruption_code = lit "OMP-MEM-1004"
code_text integrity_mismatch_code = lit "OMP-MEM-1005"
code_text unsupported_store_version_code = lit "OMP-MEM-1006"
code_text migration_required_code = lit "OMP-MEM-1007"
code_text record_conflict_code = lit "OMP-MEM-1008"
code_text missing_referenced_record_code = lit "OMP-MEM-1009"
code_text limit_exceeded_code = lit "OMP-MEM-1010"
code_text atomic_commit_failure_code = lit "OMP-MEM-1011"
code_text export_conflict_code = lit "OMP-MEM-1012"
code_text delete_confirmation_mismatch_code = lit "OMP-MEM-1013"

abbrev pub describe_error : Thrown → Text
describe_error (memory_error e) = code_text e.code
describe_error (foreign _) = lit "unknown"

abbrev pub kind_of_code : ProjectMemoryErrorCode → IssueKind
kind_of_code missing_referenced_record_code = missing_record
kind_of_code _ = integrity_failure

abbrev pub classify_issue : Thrown → IssueKind
classify_issue (memory_error e) = kind_of_code e.code
classify_issue (foreign _) = integrity_failure

-- The `capturedAt` that the chronology has for a snapshot: the last entry of its id.
unfoldable pub captured_at_by_history : List Json → Text → Option Json
captured_at_by_history [] id = none
captured_at_by_history (entry ∷ rest) id = elim (captured_at_by_history rest id) [
  | some at ↦ some at
  | none ↦
      if is_text (property entry (lit "snapshotId")) id
      then property entry (lit "capturedAt")
      else none
]

-- `payloadCapturedAt !== expectedCapturedAt` fails. A chronology that was verified has strings.
abbrev pub is_same_text : Option Json → Json → Bool
is_same_text value expected = elim (as_string (some expected)) [
  | none ↦ false
  | some at ↦ is_text value at
]

unfoldable pub agrees_with_history : List Json → Text → RecordEnvelope → Bool
agrees_with_history history id e = elim (captured_at_by_history history id) [
  | none ↦ true
  | some expected ↦ is_same_text (property (object e.body.payload) (lit "capturedAt")) expected
]

-- The ids verified so far, and the issues.
pub record Findings : Type 0 where
  pub verified : List Text
  pub issues : List StoreInspectionIssue

abbrev pub nothing_found : Findings
nothing_found = record { verified = []; issues = [] }

abbrev pub with_id : Text → Findings → Findings
with_id id found = record found { verified = id ∷ found.verified }

abbrev pub with_issue : StoreInspectionIssue → Findings → Findings
with_issue issue found = record found { issues = issue ∷ found.issues }

abbrev pub captured_at_differs : StoreInspectionIssue
captured_at_differs = record {
  kind = integrity_failure;
  detail = lit "snapshot: chronology capturedAt does not match the record";
}

abbrev pub failed_read : RecordType → Thrown → StoreInspectionIssue
failed_read t e = record {
  kind = classify_issue e;
  detail = record_type_text t ++ lit ": " ++ describe_error e;
}

-- `catch`: what was thrown as a value.
abbrev pub caught : {S A : Type 0} → Action S Thrown A → Action S Thrown (Outcome Thrown A)
caught m s = let (r, s') = m s in (returns r, s')

-- What a read record adds to what the later ones give.
unfoldable pub judge :
    List Json → RecordType → Text → Outcome Thrown RecordEnvelope → Findings → Findings
judge history t id (throws e) found = with_issue (failed_read t e) found
judge history evidence id (returns e) found = with_id id found
judge history snapshot id (returns e) found =
    if agrees_with_history history id e
    then with_id id found
    else with_issue captured_at_differs found

module _ (host : Host) {S : Type 0} (fs : FileSystem S) (project_id : Text) where
  -- The loop over the snapshots or the evidence.
  unfoldable pub verify_records : List Json → RecordType → List Text → Action S Thrown Findings
  verify_records history t [] = pure nothing_found
  verify_records history t (id ∷ ids) = do
    r ← caught (read_stored_envelope host fs project_id t id)
    found ← verify_records history t ids
    pure (judge history t id r found)

  abbrev pub no_store : StoreVerification
  no_store = record {
    project_id = project_id;
    is_ok = true;
    manifest_verified = false;
    verified_snapshot_ids = [];
    verified_evidence_ids = [];
    issues = [];
  }

  abbrev pub bad_manifest : ProjectMemoryError → StoreVerification
  bad_manifest e = record {
    project_id = project_id;
    is_ok = false;
    manifest_verified = false;
    verified_snapshot_ids = [];
    verified_evidence_ids = [];
    issues = record { kind = integrity_failure; detail = describe_error (memory_error e) } ∷ [];
  }

  abbrev pub is_none_found : List StoreInspectionIssue → Bool
  is_none_found [] = true
  is_none_found (issue ∷ issues) = false

  abbrev pub verification : Findings → Findings → StoreVerification
  verification snapshots evidences = record {
    project_id = project_id;
    is_ok = is_none_found (snapshots.issues ++ evidences.issues);
    manifest_verified = true;
    verified_snapshot_ids = snapshots.verified;
    verified_evidence_ids = evidences.verified;
    issues = snapshots.issues ++ evidences.issues;
  }

  unfoldable pub verify_manifest_records : ManifestBody → Action S Thrown StoreVerification
  verify_manifest_records m = do
    let history = or_default m.snapshot_history []
    snapshots ← verify_records history snapshot m.snapshot_ids
    evidences ← verify_records history evidence m.evidence_ids
    pure (verification snapshots evidences)

  -- The manifest is checked as `readManifest` checks it.
  unfoldable pub verify_found : Result ProjectStoreManifest → Action S Thrown StoreVerification
  verify_found (err e) = pure (bad_manifest e)
  verify_found (ok m) = verify_manifest_records m.body

  unfoldable pub verify_file : Option Contents → Action S Thrown StoreVerification
  verify_file none = pure no_store
  verify_file (some raw) = verify_found (accept_manifest host project_id raw)

  unfoldable pub verify : Action S Thrown StoreVerification
  verify = do
    of_result (assert_id project_id)
    path ← of_result (manifest_path host (project_key host project_id))
    raw ← fs.read_file_if_exists path
    verify_file raw
