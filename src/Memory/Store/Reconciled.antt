-- ===== src/Memory/Store/Reconciled.antt =====
-- What the answer of `reconcileExisting` in project-memory/src/store.ts says of the records that
-- stand on the disk.
use oh_my_pm.Common.{
  ◌≡◌, subst, ◌∙◌, Bool, true, false, ◌&&◌, Option, none, some, List, [], ◌∷◌, ◌++◌, All,
}
use oh_my_pm.Common.Text.{Text, text_eq, text_eq_iff, includes}
use oh_my_pm.Common.Action.{Ends, Ends-intro, Triple, Triple-bind, Triple-weaken}
use oh_my_pm.Memory.Errors.{ok}
use oh_my_pm.Memory.Manifest.{ManifestBody, ProjectStoreManifest}
use oh_my_pm.Memory.Envelope.{RecordType, snapshot, evidence, RecordEnvelope, build_envelope}
use oh_my_pm.Memory.FileSystem.{Contents, FileSystem}
use oh_my_pm.Memory.FileSystem.Laws.{
  FileSystemLaws, of_result_Triple, if_Triple, returns_Triple, refuse_Triple, Triple-fact,
}
use oh_my_pm.Memory.Store.Input.{Host, Payload, Bundle}
use oh_my_pm.Memory.Store.Accept.{project_key, record_path, inventory, accept_envelope}
use oh_my_pm.Memory.Store.Read.{read_stored_envelope}
use oh_my_pm.Memory.Store.Reconcile.{
  payload_equals, reconcile_record, reconcile_evidence, reconcile_existing, all_known,
  listed_evidence, ids_of, conflict,
}

-- The record's file is accepted, and its digest is that of the payload.
pub record IsStored (host : Host) (project_id : Text) (before : Text → Option Contents)
    (t : RecordType) (payload : Payload) : Type 0 where
  pub path : Text
  pub envelope : RecordEnvelope
  pub rebuilt : RecordEnvelope
  pub placed : record_path host (project_key host project_id) t payload.record_id ≡ ok path
  pub accepted : accept_envelope host project_id t payload.record_id (before path) ≡ ok envelope
  pub built :
      build_envelope host.platform t project_id payload.record_id payload.fields ≡ ok rebuilt
  pub same_digest : envelope.integrity ≡ rebuilt.integrity

abbrev pub IsListed : ManifestBody → RecordType → Payload → Type 0
IsListed m t payload = includes (inventory t m) payload.record_id ≡ true

module _ (host : Host) {S : Type 0} (fs : FileSystem S) (content : S → Text → Option Contents)
    (Inside : Text → Text → Type 0) (temp_beside : Text → Text → Text)
    (laws : FileSystemLaws fs content Inside temp_beside) (project_id : Text)
    (before : Text → Option Contents) where
  abbrev pub Unchanged : S → Type 0
  Unchanged s = (q : Text) → content s q ≡ before q

  abbrev Stored : RecordType → Payload → Type 0
  Stored t payload = IsStored host project_id before t payload

  -- Of one record.
  abbrev Verdict : ManifestBody → RecordType → Payload → Bool → Type 0
  Verdict m t payload true = IsListed m t payload × Stored t payload
  Verdict m t payload false = ¬ IsListed m t payload

  abbrev EvidenceVerdict : ManifestBody → List Payload → Bool → Type 0
  EvidenceVerdict m payloads true = All (λ payload. Verdict m evidence payload true) payloads
  EvidenceVerdict m payloads false = ¬ All (λ payload. IsListed m evidence payload) payloads

  -- Of a whole bundle: all of it is listed and stored, or not all of it is listed.
  abbrev pub BundleVerdict : Option ProjectStoreManifest → Bundle → Bool → Type 0
  BundleVerdict none b true = ⊥
  BundleVerdict none b false = Unit
  BundleVerdict (some m) b true =
      Verdict m.body snapshot b.snapshot true × EvidenceVerdict m.body b.evidence true
  BundleVerdict (some m) b false = ¬ (
      IsListed m.body snapshot b.snapshot
      × All (λ payload. IsListed m.body evidence payload) b.evidence)

  pub read_Triple :
      (path : Text)
      → Triple Unchanged
          (fs.read_file_if_exists path)
          (λ raw s. Unchanged s × (raw ≡ before path))
          Unchanged
  read_Triple path = record {
    run = λ s same.
        let t = (fs.read_file_if_exists path s).1 in
        let still : Unchanged t = (λ q. laws.read_keeps s path q ∙ same q) in
        Ends-intro (λ raw s. Unchanged s × (raw ≡ before path)) Unchanged
          (fs.read_file_if_exists path s).0 t
          (λ raw r. (still, laws.read_tells s path raw r ∙ same path)) (λ _ _. still);
  }

  abbrev pub Accepted : RecordType → Text → RecordEnvelope → Type 0
  Accepted t id e =
      (path : Text) × (record_path host (project_key host project_id) t id ≡ ok path)
      × (accept_envelope host project_id t id (before path) ≡ ok e)

  pub read_stored_envelope_Triple :
      (t : RecordType) (id : Text)
      → Triple Unchanged
          (read_stored_envelope host fs project_id t id)
          (λ e s. Unchanged s × Accepted t id e)
          Unchanged
  unfolding read_stored_envelope
  read_stored_envelope_Triple t id =
      Triple-bind (of_result_Triple (record_path host (project_key host project_id) t id)) λ path.
        Triple-fact λ placed. Triple-bind (read_Triple path) λ raw. Triple-fact λ e.
          Triple-weaken (λ s p. p)
            (λ envelope s h. (
              h.0,
              (
                path,
                placed,
                subst (λ file. accept_envelope host project_id t id file ≡ ok envelope) e h.1,
              ),
            ))
            (λ s p. p) (of_result_Triple (accept_envelope host project_id t id raw))

  payload_equals_Triple :
      (t : RecordType) (payload : Payload)
      → Triple Unchanged
          (payload_equals host fs project_id t payload)
          (λ same s. Unchanged s × (same ≡ true → Stored t payload))
          Unchanged
  unfolding payload_equals
  payload_equals_Triple t payload =
      Triple-bind (read_stored_envelope_Triple t payload.record_id) λ envelope.
        Triple-fact λ (found : Accepted t payload.record_id envelope).
          Triple-bind
            (of_result_Triple
              (build_envelope host.platform t project_id payload.record_id payload.fields))
            λ rebuilt. Triple-fact λ built.
              returns_Triple (text_eq envelope.integrity rebuilt.integrity) (λ s same. (
                same,
                λ e. record {
                  path = found.0;
                  envelope = envelope;
                  rebuilt = rebuilt;
                  placed = found.1;
                  accepted = found.2;
                  built = built;
                  same_digest = (text_eq_iff envelope.integrity rebuilt.integrity).0 e;
                },
              ))

  reconcile_record_Triple :
      (m : ManifestBody) (t : RecordType) (payload : Payload)
      → Triple Unchanged
          (reconcile_record host fs project_id m t payload)
          (λ here s. Unchanged s × Verdict m t payload here)
          Unchanged
  unfolding reconcile_record
  reconcile_record_Triple m t payload =
      if_Triple (includes (inventory t m) payload.record_id)
        (λ listed. Triple-bind (payload_equals_Triple t payload) λ same.
          if_Triple same (λ yes'. returns_Triple true (λ s h. (h.0, (listed, h.1 yes'))))
            (λ _. Triple-weaken (λ s h. h.0) (λ _ s h. h) (λ s h. h) (refuse_Triple (conflict t))))
        (λ unlisted. returns_Triple false (λ s same. (same, λ listed. cc)))

  both :
      (m : ManifestBody) (payload : Payload) (payloads : List Payload) (here rest : Bool)
      → Verdict m evidence payload here
      → EvidenceVerdict m payloads rest
      → EvidenceVerdict m (payload ∷ payloads) (here && rest)
  both m payload payloads true true a b = (a, b)
  both m payload payloads true false a b = λ (one, others). b others
  both m payload payloads false rest a b = λ (one, others). a one

  reconcile_evidence_Triple :
      (m : ManifestBody) (payloads : List Payload)
      → Triple Unchanged
          (reconcile_evidence host fs project_id m payloads)
          (λ all s. Unchanged s × EvidenceVerdict m payloads all)
          Unchanged
  unfolding reconcile_evidence
  reconcile_evidence_Triple m [] = returns_Triple true (λ s same. (same, tt))
  reconcile_evidence_Triple m (payload ∷ payloads) =
      Triple-bind (reconcile_record_Triple m evidence payload) λ here. Triple-fact λ one.
        Triple-bind (reconcile_evidence_Triple m payloads) λ rest.
          returns_Triple (here && rest) (λ s h. (h.0, both m payload payloads here rest one h.1))

  whole :
      (m : ProjectStoreManifest) (b : Bundle) (here rest : Bool)
      → Verdict m.body snapshot b.snapshot here
      → EvidenceVerdict m.body b.evidence rest
      → BundleVerdict (some m) b (here && rest)
  whole m b true true a e = (a, e)
  whole m b true false a e = λ (one, others). e others
  whole m b false rest a e = λ (one, others). a one

  reconcile_existing_Triple :
      (b : Bundle) (existing : Option ProjectStoreManifest)
      → Triple Unchanged
          (reconcile_existing host fs project_id b existing)
          (λ idempotent s.
            Unchanged s
            × (all_known (listed_evidence existing ++ ids_of b.evidence) b.evidence_refs ≡ true)
            × BundleVerdict existing b idempotent)
          Unchanged
  unfolding reconcile_existing
  reconcile_existing_Triple b none =
      if_Triple (all_known ([] ++ ids_of b.evidence) b.evidence_refs)
        (λ known. returns_Triple false (λ s same. (same, known, tt))) (λ _. refuse_Triple _)
  reconcile_existing_Triple b (some m) =
      if_Triple (all_known (m.body.evidence_ids ++ ids_of b.evidence) b.evidence_refs)
        (λ known. Triple-bind (reconcile_record_Triple m.body snapshot b.snapshot) λ here.
          Triple-fact λ one. Triple-bind (reconcile_evidence_Triple m.body b.evidence) λ rest.
            returns_Triple (here && rest) (λ s h. (h.0, known, whole m b here rest one h.1)))
        (λ _. refuse_Triple _)

  -- If the reconciliation of a bundle returns, every reference of the snapshot is to evidence that
  -- is listed or submitted. It answers yes only where a manifest lists every record of the bundle
  -- and the file of each is a genuine envelope with the digest of the payload, and no only where
  -- some record is not listed. It changes no file, also where it throws.
  pub reconcile_existing_lem :
      (b : Bundle) (existing : Option ProjectStoreManifest) (s : S)
      → ((q : Text) → content s q ≡ before q)
      → Ends
          (λ idempotent s.
            Unchanged s
            × (all_known (listed_evidence existing ++ ids_of b.evidence) b.evidence_refs ≡ true)
            × BundleVerdict existing b idempotent)
          Unchanged
          (reconcile_existing host fs project_id b existing s).0
          (reconcile_existing host fs project_id b existing s).1
  reconcile_existing_lem b existing s same = (reconcile_existing_Triple b existing).run s same
