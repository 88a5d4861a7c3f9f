-- ===== src/Memory/Store/Reconcile.antt =====
-- `reconcileExisting` and `payloadEquals` of project-memory/src/store.ts: how a bundle stands to
-- the records that the manifest lists already.
use oh_my_pm.Common.{
  Bool, true, false, ◌&&◌, Option, none, some, List, [], ◌∷◌, ◌++◌, map, if◌then◌else◌,
}
use oh_my_pm.Common.Text.{Text, text_eq, includes}
use oh_my_pm.Common.Action.{Action, pure, ◌>>=◌}
use oh_my_pm.Memory.Errors.{
  ProjectMemoryError, missing_referenced_record_code, record_conflict_code, without_hint,
}
use oh_my_pm.Memory.Manifest.{ManifestBody, ProjectStoreManifest}
use oh_my_pm.Memory.Envelope.{RecordType, snapshot, evidence, build_envelope}
use oh_my_pm.Memory.FileSystem.{Thrown, FileSystem, of_result, refuse}
use oh_my_pm.Memory.Store.Input.{Host, Payload, Bundle}
use oh_my_pm.Memory.Store.Accept.{inventory}
use oh_my_pm.Memory.Store.Read.{read_stored_envelope}

abbrev pub unknown_evidence : ProjectMemoryError
unknown_evidence =
    without_hint missing_referenced_record_code "snapshot references unknown evidence"

abbrev pub conflict : RecordType → ProjectMemoryError
conflict snapshot =
    without_hint record_conflict_code "snapshot id already exists with a different payload"
conflict evidence =
    without_hint record_conflict_code "evidence id already exists with a different payload"

-- Every reference is known.
unfoldable pub all_known : List Text → List Text → Bool
all_known known [] = true
all_known known (ref ∷ refs) =
    let rest = all_known known refs in if includes known ref then rest else false

abbrev pub ids_of : List Payload → List Text
ids_of payloads = map (λ p. p.record_id) payloads

-- The ids that the existing manifest lists; none without a manifest.
abbrev pub listed_evidence : Option ProjectStoreManifest → List Text
listed_evidence none = []
listed_evidence (some m) = m.body.evidence_ids

module _ (host : Host) {S : Type 0} (fs : FileSystem S) (project_id : Text) where
  unfoldable pub payload_equals : RecordType → Payload → Action S Thrown Bool
  payload_equals t payload = do
    existing ← read_stored_envelope host fs project_id t payload.record_id
    rebuilt ← of_result (build_envelope host.platform t project_id payload.record_id payload.fields)
    pure (text_eq existing.integrity rebuilt.integrity)

  -- Whether a record is listed; one that is must have the same payload.
  unfoldable pub reconcile_record : ManifestBody → RecordType → Payload → Action S Thrown Bool
  reconcile_record m t payload =
      if includes (inventory t m) payload.record_id
      then (do same ← payload_equals t payload; if same then pure true else refuse (conflict t))
      else pure false

  unfoldable pub reconcile_evidence : ManifestBody → List Payload → Action S Thrown Bool
  reconcile_evidence m [] = pure true
  reconcile_evidence m (payload ∷ payloads) = do
    here ← reconcile_record m evidence payload
    rest ← reconcile_evidence m payloads
    pure (here && rest)

  unfoldable pub reconcile_existing : Bundle → Option ProjectStoreManifest → Action S Thrown Bool
  reconcile_existing b existing =
      if all_known (listed_evidence existing ++ ids_of b.evidence) b.evidence_refs
      then elim existing [
        | none ↦ pure false
        | some m ↦ (do
          snapshot_is ← reconcile_record m.body snapshot b.snapshot
          all ← reconcile_evidence m.body b.evidence
          pure (snapshot_is && all))
      ]
      else refuse unknown_evidence
