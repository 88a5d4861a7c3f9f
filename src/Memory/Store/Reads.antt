-- ===== src/Memory/Store/Reads.antt =====
-- The reads of a commit in project-memory/src/store.ts leave every file as it is, and what
-- `readManifest` gives is what stands in the manifest's file.
use oh_my_pm.Common.{
  ◌≡◌, refl, ap, subst, ◌∙◌, true, false, ◌&&◌, Option, none, some, List, [], ◌∷◌, ◌++◌,
}
use oh_my_pm.Common.Text.{Text, text_eq, includes}
use oh_my_pm.Common.Action.{Action, Ends-intro, Triple, Triple-bind, Triple-weaken}
use oh_my_pm.Memory.Errors.{ok}
use oh_my_pm.Memory.Manifest.{ManifestBody, ProjectStoreManifest}
use oh_my_pm.Memory.Envelope.{RecordType, snapshot, evidence, build_envelope}
use oh_my_pm.Memory.FileSystem.{Contents, Thrown, FileSystem}
use oh_my_pm.Memory.FileSystem.Laws.{
  FileSystemLaws, OnContents, quiet, of_result_Triple, if_Triple, returns_Triple, refuse_Triple,
  Triple-fact,
}
use oh_my_pm.Memory.Store.Input.{Host, Payload, Bundle}
use oh_my_pm.Memory.Store.Accept.{
  project_key, manifest_path, record_path, inventory, assert_id, accept_manifest, accept_envelope,
}
use oh_my_pm.Memory.Store.Read.{manifest_of, read_manifest, read_stored_envelope}
use oh_my_pm.Memory.Store.Reconcile.{
  payload_equals, reconcile_record, reconcile_evidence, reconcile_existing, all_known, ids_of,
  conflict,
}

-- What `readManifest` makes of the manifest's file, if there is one.
abbrev pub Reads : Host → Text → Option Contents → Option ProjectStoreManifest → Type 0
Reads host project_id none existing = existing ≡ none
Reads host project_id (some raw) existing =
    (found : ProjectStoreManifest) × (existing ≡ some found)
    × (accept_manifest host project_id raw ≡ ok found)

module _ (host : Host) {S : Type 0} (fs : FileSystem S) (content : S → Text → Option Contents)
    (Inside : Text → Text → Type 0) (temp_beside : Text → Text → Text)
    (laws : FileSystemLaws fs content Inside temp_beside) (P : S → Type 0)
    (stable : OnContents content P) (project_id : Text) where
  forget :
      {A F : Type 0} {m : Action S Thrown A} → Triple P m (λ _ s. P s × F) P → Triple P m (λ _. P) P
  forget t = Triple-weaken (λ s p. p) (λ _ s h. h.0) (λ s p. p) t

  read_Triple : (path : Text) → Triple P (fs.read_file_if_exists path) (λ _. P) P
  read_Triple path = quiet content stable (λ s q. laws.read_keeps s path q)

  read_stored_envelope_Triple :
      (t : RecordType) (id : Text)
      → Triple P (read_stored_envelope host fs project_id t id) (λ _. P) P
  unfolding read_stored_envelope
  read_stored_envelope_Triple t id =
      Triple-bind (of_result_Triple (record_path host (project_key host project_id) t id)) λ path.
        Triple-fact λ _. Triple-bind (read_Triple path) λ raw.
          Triple-weaken (λ s p. p) (λ _ s h. h.0) (λ s p. p)
            (of_result_Triple (accept_envelope host project_id t id raw))

  payload_equals_Triple :
      (t : RecordType) (payload : Payload)
      → Triple P (payload_equals host fs project_id t payload) (λ _. P) P
  unfolding payload_equals
  payload_equals_Triple t payload =
      Triple-bind (read_stored_envelope_Triple t payload.record_id) λ existing.
        Triple-bind
          (of_result_Triple
            (build_envelope host.platform t project_id payload.record_id payload.fields))
          λ rebuilt. returns_Triple (text_eq existing.integrity rebuilt.integrity) (λ s h. h.0)

  reconcile_record_Triple :
      (m : ManifestBody) (t : RecordType) (payload : Payload)
      → Triple P (reconcile_record host fs project_id m t payload) (λ _. P) P
  unfolding reconcile_record
  reconcile_record_Triple m t payload =
      if_Triple (includes (inventory t m) payload.record_id)
        (λ _. Triple-bind (payload_equals_Triple t payload) λ same.
          if_Triple same (λ _. returns_Triple true (λ s p. p)) (λ _. refuse_Triple (conflict t)))
        (λ _. returns_Triple false (λ s p. p))

  reconcile_evidence_Triple :
      (m : ManifestBody) (payloads : List Payload)
      → Triple P (reconcile_evidence host fs project_id m payloads) (λ _. P) P
  unfolding reconcile_evidence
  reconcile_evidence_Triple m [] = returns_Triple true (λ s p. p)
  reconcile_evidence_Triple m (payload ∷ payloads) =
      Triple-bind (reconcile_record_Triple m evidence payload) λ here.
        Triple-bind (reconcile_evidence_Triple m payloads)
          λ rest. returns_Triple (here && rest) (λ s p. p)

  pub reconcile_existing_Triple :
      (b : Bundle) (existing : Option ProjectStoreManifest)
      → Triple P (reconcile_existing host fs project_id b existing) (λ _. P) P
  unfolding reconcile_existing
  reconcile_existing_Triple b none =
      if_Triple (all_known ([] ++ ids_of b.evidence) b.evidence_refs)
        (λ _. returns_Triple false (λ s p. p)) (λ _. refuse_Triple _)
  reconcile_existing_Triple b (some m) =
      if_Triple (all_known (m.body.evidence_ids ++ ids_of b.evidence) b.evidence_refs)
        (λ _. Triple-bind (reconcile_record_Triple m.body snapshot b.snapshot) λ snapshot_is.
          Triple-bind (reconcile_evidence_Triple m.body b.evidence)
            λ all. returns_Triple (snapshot_is && all) (λ s p. p))
        (λ _. refuse_Triple _)

  module _ (path : Text) (named : manifest_path host (project_key host project_id) ≡ ok path)
      (before : Option Contents) (there : (s : S) → P s → content s path ≡ before) where
    read_tells_Triple :
        (q : Text)
        → q ≡ path
        → Triple P (fs.read_file_if_exists q) (λ raw s. P s × (raw ≡ before)) P
    read_tells_Triple q e = record {
      run = λ s p.
          let t = (fs.read_file_if_exists q s).1 in
          let still = stable s t (laws.read_keeps s q) p in
          Ends-intro (λ raw s. P s × (raw ≡ before)) P (fs.read_file_if_exists q s).0 t
            (λ raw r. (still, laws.read_tells s q raw r ∙ ap (content s) e ∙ there s p))
            (λ _ _. still);
    }

    manifest_of_Triple :
        (raw : Option Contents)
        → Triple P
            (manifest_of host fs project_id raw)
            (λ existing s. P s × Reads host project_id raw existing)
            P
    unfolding manifest_of
    manifest_of_Triple none = returns_Triple none (λ s p. (p, refl))
    manifest_of_Triple (some raw) =
        Triple-bind (of_result_Triple (accept_manifest host project_id raw))
          λ m. Triple-fact λ e. returns_Triple (some m) (λ s p. (p, (m, refl, e)))

    pub read_manifest_Triple :
        Triple P
          (read_manifest host fs project_id)
          (λ existing s. P s × Reads host project_id before existing)
          P
    unfolding read_manifest
    read_manifest_Triple = Triple-bind (of_result_Triple (assert_id project_id)) λ _.
        Triple-fact λ _.
          Triple-bind (of_result_Triple (manifest_path host (project_key host project_id))) λ found.
            Triple-fact λ e. Triple-bind (read_tells_Triple found (cc)) λ raw. Triple-fact λ same.
              subst
                (λ file.
                  Triple P (manifest_of host fs project_id raw)
                    (λ existing s. P s × Reads host project_id file existing) P)
                same (manifest_of_Triple raw)
