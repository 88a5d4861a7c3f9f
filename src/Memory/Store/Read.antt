-- ===== src/Memory/Store/Read.antt =====
-- The read paths of project-memory/src/store.ts: the manifest, the records and the list of
-- snapshots. They take no lock and write nothing.
use oh_my_pm.Common.{Bool, false, Option, none, some, List, [], map, if◌then◌else◌}
use oh_my_pm.Common.Text.{Text, lit, includes}
use oh_my_pm.Common.Json.{Json, Fields, property}
use oh_my_pm.Common.Action.{Action, pure, ◌>>=◌, ◌>>◌}
use oh_my_pm.Memory.Errors.{missing_referenced_record_code, without_hint}
use oh_my_pm.Memory.Manifest.{ProjectStoreManifest, corrupt_store}
use oh_my_pm.Memory.Envelope.{RecordType, RecordEnvelope}
use oh_my_pm.Memory.FileSystem.{Contents, Thrown, FileSystem, of_result, refuse}
use oh_my_pm.Memory.Store.Accept.{
  assert_id, project_key, record_path, manifest_path, accept_manifest, accept_envelope, inventory,
  not_referenced,
}
use oh_my_pm.Memory.Store.Input.{Host, is_text}

-- What `listSnapshots` gives for an entry of the chronology.
pub record StoredSnapshotSummary : Type 0 where
  pub snapshot_id : Option Json
  pub captured_at : Option Json
  pub sequence : Option Json
  pub is_latest : Bool

-- `latest === entry.snapshotId`
abbrev pub is_latest_id : Option Text → Option Json → Bool
is_latest_id none id = false
is_latest_id (some latest) id = is_text id latest

unfoldable pub summary : Option Text → Json → StoredSnapshotSummary
summary latest entry = record {
  snapshot_id = property entry (lit "snapshotId");
  captured_at = property entry (lit "capturedAt");
  sequence = property entry (lit "sequence");
  is_latest = is_latest_id latest (property entry (lit "snapshotId"));
}

module _ (host : Host) {S : Type 0} (fs : FileSystem S) where
  -- From the text of the file on.
  unfoldable pub manifest_of :
      Text → Option Contents → Action S Thrown (Option ProjectStoreManifest)
  manifest_of project_id none = pure none
  manifest_of project_id (some text) = do
    m ← of_result (accept_manifest host project_id text)
    pure (some m)

  unfoldable pub read_manifest : Text → Action S Thrown (Option ProjectStoreManifest)
  read_manifest project_id = do
    of_result (assert_id project_id)
    path ← of_result (manifest_path host (project_key host project_id))
    raw ← fs.read_file_if_exists path
    manifest_of project_id raw

  unfoldable pub read_stored_envelope : Text → RecordType → Text → Action S Thrown RecordEnvelope
  read_stored_envelope project_id t id = do
    path ← of_result (record_path host (project_key host project_id) t id)
    raw ← fs.read_file_if_exists path
    of_result (accept_envelope host project_id t id raw)

  unfoldable pub required : Option ProjectStoreManifest → Action S Thrown ProjectStoreManifest
  required none =
      refuse (without_hint missing_referenced_record_code "no store exists for this project")
  required (some m) = pure m

  unfoldable pub require_manifest : Text → Action S Thrown ProjectStoreManifest
  require_manifest project_id = do found ← read_manifest project_id; required found

  unfoldable pub list_snapshots : Text → Action S Thrown (List StoredSnapshotSummary)
  list_snapshots project_id = do
    found ← read_manifest project_id
    elim found [
      | none ↦ pure []
      | some m ↦ elim m.body.snapshot_history [
        | none ↦ refuse (corrupt_store "a readable store is missing its chronology")
        | some history ↦ pure (map (summary m.body.latest_snapshot_id) history)
      ]
    ]

  -- `readSnapshot` and `readEvidence`
  unfoldable pub read_record : RecordType → Text → Text → Action S Thrown Fields
  read_record t project_id id = do
    of_result (assert_id id)
    m ← require_manifest project_id
    if includes (inventory t m.body) id
        then (do e ← read_stored_envelope project_id t id; pure e.body.payload)
        else refuse (without_hint missing_referenced_record_code (not_referenced t))
