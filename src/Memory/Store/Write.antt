-- ===== src/Memory/Store/Write.antt =====
-- `commitSnapshotBundle` of project-memory/src/store.ts: the protocol of a commit, from the lock to
-- its release.
pub mod Frame
pub mod Records
pub mod Manifest
pub mod Atomic
pub mod Readable
pub mod Readback
pub mod RoundTrip
pub mod ReadAfter
pub mod CommitRead
use oh_my_pm.Common.{
  ℕ, Bool, true, false, Option, none, some, List, [], ◌∷◌, ◌++◌, ltb, if◌then◌else◌, length,
}
use oh_my_pm.Common.Text.{Text, lit}
use oh_my_pm.Common.Json.{object, property}
use oh_my_pm.Common.Action.{Outcome, returns, throws, Action, pure, throw, ◌>>=◌, ◌>>◌, try_finally}
use oh_my_pm.Memory.Errors.{
  ProjectMemoryError, Result, ok, err, atomic_commit_failure_code, limit_exceeded_code, with_hint,
  without_hint,
}
use oh_my_pm.Memory.Manifest.{ManifestBody, ProjectStoreManifest}
use oh_my_pm.Memory.Lock.{acquire_lock, release}
use oh_my_pm.Memory.Envelope.{
  RecordType, snapshot, evidence, record_type_text, RecordEnvelope, build_envelope,
}
use oh_my_pm.Memory.Paths.{assert_project_data_separation, lock_path_for, project_dir_for}
use oh_my_pm.Memory.Gates.{temp_name}
use oh_my_pm.Memory.Commit.{CommitInput, build_next_manifest, or_default}
use oh_my_pm.Memory.FileSystem.{
  CommitFailurePoint, after_lock, after_staging_created, after_first_record_written,
  after_records_moved, before_manifest_rename, after_manifest_rename, before_cleanup, Contents,
  Thrown, memory_error, foreign, FileSystem, of_result, refuse, fail_point,
}
use oh_my_pm.Memory.Store.Input.{
  Host, CommitSnapshotBundleInput, Payload, Bundle, validate_commit_input,
}
use oh_my_pm.Memory.Store.Accept.{
  max_record_bytes, project_key, record_key, record_path, manifest_path, assert_manifest_size,
  serialize_manifest, serialize_envelope,
}
use oh_my_pm.Memory.Store.Read.{read_manifest}
use oh_my_pm.Memory.Store.Reconcile.{ids_of, reconcile_existing}

pub record CommitResult : Type 0 where
  pub project_id : Text
  pub snapshot_id : Text
  pub committed_evidence_ids : List Text
  pub idempotent : Bool
  pub latest_snapshot_id : Text
  pub snapshot_count : ℕ
  pub evidence_count : ℕ

unfoldable pub commit_result_from : ManifestBody → Bundle → Bool → CommitResult
commit_result_from m b idempotent = record {
  project_id = b.project_id;
  snapshot_id = b.snapshot.record_id;
  committed_evidence_ids = ids_of b.evidence;
  idempotent = idempotent;
  latest_snapshot_id = or_default m.latest_snapshot_id b.snapshot.record_id;
  snapshot_count = length m.snapshot_ids;
  evidence_count = length m.evidence_ids;
}

-- What `buildNextManifest` reads of the bundle.
abbrev pub commit_input : Bundle → CommitInput
commit_input b = record {
  project_id = b.project_id;
  occurred_at = b.occurred_at;
  snapshot_id = b.snapshot.record_id;
  captured_at = property (object b.snapshot.fields) (lit "capturedAt");
  evidence_ids = ids_of b.evidence;
}

pub record StagedRecord : Type 0 where
  pub staged_path : Text
  pub final_path : Text

-- `${dir}/${name}`
abbrev pub child : Text → Text → Text
child dir name = dir ++ lit "/" ++ name

abbrev pub staging_of : Text → Text
staging_of dir = child dir (lit "staging")

abbrev pub failed_before_completion : ProjectMemoryError
failed_before_completion =
    with_hint atomic_commit_failure_code "the commit failed before completion"
      "the prior store is intact"

-- The `catch`: a controlled error goes on, anything else becomes one.
abbrev pub controlled : {A : Type 0} → Outcome Thrown A → Outcome Thrown A
controlled (returns a) = returns a
controlled (throws (memory_error e)) = throws (memory_error e)
controlled (throws (foreign _)) = throws (memory_error failed_before_completion)

abbrev pub catch_foreign : {S A : Type 0} → Action S Thrown A → Action S Thrown A
catch_foreign m s = let (r, s') = m s in (controlled r, s')

abbrev pub and_build :
    Result RecordEnvelope → Result (List RecordEnvelope) → Result (List RecordEnvelope)
and_build (err e) rest = err e
and_build (ok envelope) (err e) = err e
and_build (ok envelope) (ok envelopes) = ok (envelope ∷ envelopes)

module _ (host : Host) {S : Type 0} (fs : FileSystem S) (b : Bundle) (key dir : Text) where
  abbrev pub temp_for : Text → Text
  temp_for label = temp_name b.operation_id (host.platform.number_text fs.current_pid) label

  abbrev pub staged_path_of : RecordType → Text → Text
  staged_path_of t id =
      child (staging_of dir) (record_type_text t ++ lit "-" ++ record_key host t id ++ lit ".json")

  unfoldable pub build_evidence : List Payload → Result (List RecordEnvelope)
  build_evidence [] = ok []
  build_evidence (payload ∷ payloads) =
      and_build
        (build_envelope host.platform evidence b.project_id payload.record_id payload.fields)
        (build_evidence payloads)

  unfoldable pub write_staged : Text → Contents → Action S Thrown (Unit {0})
  write_staged path contents =
      if ltb max_record_bytes (host.contents_size contents)
      then refuse (without_hint limit_exceeded_code "record exceeds the maximum size")
      else fs.write_file_atomic path contents (temp_for (lit "staged"))

  -- A record is written to staging; where it stands, and where it goes from there.
  unfoldable pub stage : RecordEnvelope → Action S Thrown StagedRecord
  stage e = do
    let staged = staged_path_of e.body.record_type e.body.record_id
    write_staged staged (serialize_envelope e)
    final ← of_result (record_path host key e.body.record_type e.body.record_id)
    pure (record { staged_path = staged; final_path = final })

  unfoldable pub stage_all : List RecordEnvelope → Action S Thrown (List StagedRecord)
  stage_all [] = pure []
  stage_all (e ∷ es) = do item ← stage e; items ← stage_all es; pure (item ∷ items)

  unfoldable pub move_record : StagedRecord → Action S Thrown (Unit {0})
  move_record item = do
    present ← fs.exists item.final_path
    if present then pure tt else fs.move_file item.staged_path item.final_path

  unfoldable pub move_all : List StagedRecord → Action S Thrown (Unit {0})
  move_all [] = pure tt
  move_all (item ∷ items) = do move_record item; move_all items

  -- Steps 4 to 7: the records are staged and moved to their final paths.
  unfoldable pub write_records : Action S Thrown (Unit {0})
  write_records = do
    fs.mkdirp (child dir (lit "snapshots"))
    fs.mkdirp (child dir (lit "evidence"))
    fs.mkdirp (staging_of dir)
    fail_point fs after_staging_created
    first ←
        of_result (
          build_envelope host.platform snapshot b.project_id b.snapshot.record_id b.snapshot.fields)
    others ← of_result (build_evidence b.evidence)
    staged ← stage first
    fail_point fs after_first_record_written
    rest ← stage_all others
    move_all (staged ∷ rest)
    fail_point fs after_records_moved

  -- Steps 8 to 11: the rename of the manifest is the commit point.
  unfoldable pub write_manifest : Option ProjectStoreManifest → Action S Thrown ProjectStoreManifest
  write_manifest existing = do
    next ← of_result (build_next_manifest (commit_input b) existing key host.platform)
    of_result (assert_manifest_size host (serialize_manifest next))
    fail_point fs before_manifest_rename
    path ← of_result (manifest_path host key)
    fs.write_file_atomic path (serialize_manifest next) (temp_for (lit "manifest"))
    fail_point fs after_manifest_rename
    pure next

  -- Steps 4 to 13.
  unfoldable pub write_bundle : Option ProjectStoreManifest → Action S Thrown CommitResult
  write_bundle existing = do
    write_records
    next ← write_manifest existing
    fs.sync_dir dir
    fail_point fs before_cleanup
    fs.remove_dir (staging_of dir)
    pure (commit_result_from next.body b false)

  -- An identical bundle is there already. Without a manifest the cast would be of `null`.
  unfoldable pub repeat_commit : Option ProjectStoreManifest → Action S Thrown CommitResult
  repeat_commit existing = do
    fs.remove_dir (staging_of dir)
    elim existing [
      | none ↦ throw (foreign (lit "TypeError"))
      | some m ↦ pure (commit_result_from m.body b true)
    ]

  -- The body of the `try`.
  unfoldable pub commit_locked : Action S Thrown CommitResult
  commit_locked = do
    fail_point fs after_lock
    existing ← read_manifest host fs b.project_id
    idempotent ← reconcile_existing host fs b.project_id b existing
    if idempotent then repeat_commit existing else write_bundle existing

  -- Once the lock is held.
  unfoldable pub commit_and_release : Text → Action S Thrown CommitResult
  commit_and_release lock_path =
      try_finally (catch_foreign commit_locked) (release (fs.lock_calls lock_path))

-- From the validated input on.
unfoldable pub commit_bundle :
    Host → {S : Type 0} → FileSystem S → Bundle → Action S Thrown CommitResult
commit_bundle host fs b = do
  let key = project_key host b.project_id
  of_result
      (assert_project_data_separation host.node_path host.layout.data_root b.project_root_boundary)
  lock_path ← of_result (lock_path_for host.node_path host.layout key)
  fs.mkdirp host.layout.locks_dir
  acquire_lock (fs.lock_calls lock_path) host.date_parse fs.surroundings fs.current_pid key
      b.operation_id
  dir ← of_result (project_dir_for host.node_path host.layout key)
  commit_and_release host fs b key dir lock_path

unfoldable pub commit_snapshot_bundle :
    Host → {S : Type 0} → FileSystem S → CommitSnapshotBundleInput → Action S Thrown CommitResult
commit_snapshot_bundle host fs input = do
  b ← of_result (validate_commit_input host input)
  commit_bundle host fs b
