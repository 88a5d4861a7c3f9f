-- ===== src/Memory/Store/Verify/Sound.antt =====
-- What a verification of project-memory/src/store.ts says of the records on the disk.
use oh_my_pm.Common.{
  ◌≡◌, refl, ap, subst, ◌∙◌, ◌⊎◌, inl, inr, true, false, Option, none, some, List, [], ◌∷◌, ◌++◌,
  All, Bool-cases, arith,
}
use oh_my_pm.Common.Text.{Text}
use oh_my_pm.Common.Json.{Json}
use oh_my_pm.Common.Action.{Outcome, returns, throws, Ends, Triple, Triple-bind, Triple-weaken}
use oh_my_pm.Memory.Errors.{ProjectMemoryError, Result, ok, err}
use oh_my_pm.Memory.Manifest.{ManifestBody, ProjectStoreManifest}
use oh_my_pm.Memory.Commit.{or_default}
use oh_my_pm.Memory.Envelope.{RecordType, snapshot, evidence, RecordEnvelope}
use oh_my_pm.Memory.FileSystem.{Contents, Thrown, FileSystem}
use oh_my_pm.Memory.FileSystem.Laws.{FileSystemLaws, of_result_Triple, returns_Triple, Triple-fact}
use oh_my_pm.Memory.Store.Input.{Host}
use oh_my_pm.Memory.Store.Accept.{assert_id, project_key, manifest_path, accept_manifest}
use oh_my_pm.Memory.Store.Read.{read_stored_envelope}
use oh_my_pm.Memory.Store.Reconciled.{Unchanged, Accepted, read_Triple, read_stored_envelope_Triple}
use oh_my_pm.Memory.Store.Verify.Times.{HasTimeOf, agrees-HasTimeOf}
use oh_my_pm.Memory.Store.Verify.{
  StoreInspectionIssue, StoreVerification, agrees_with_history, Findings, is_none_found,
  verification, caught, judge, verify_records, verify_manifest_records, verify_found, verify_file,
  verify,
}

module _ (host : Host) {S : Type 0} (fs : FileSystem S) (content : S → Text → Option Contents)
    (Inside : Text → Text → Type 0) (temp_beside : Text → Text → Text)
    (laws : FileSystemLaws fs content Inside temp_beside) (project_id : Text)
    (before : Text → Option Contents) where
  abbrev Same : S → Type 0
  Same = Unchanged host fs content Inside temp_beside laws project_id before

  abbrev Accepts : RecordType → Text → RecordEnvelope → Type 0
  Accepts = Accepted host fs content Inside temp_beside laws project_id before

  -- The record's own time is that of the chronology; evidence has none.
  abbrev Agrees : List Json → RecordType → Text → RecordEnvelope → Type 0
  Agrees history snapshot id e = HasTimeOf history id e
  Agrees history evidence id e = Unit

  -- The record's file is accepted, and agrees with the chronology.
  abbrev pub IsVerified : List Json → RecordType → Text → Type 0
  IsVerified history t id = (e : RecordEnvelope) × Accepts t id e × Agrees history t id e

  -- Each id that counts as verified is; without an issue it is all of them.
  pub record AreSound (history : List Json) (t : RecordType) (ids : List Text) (found : Findings)
      : Type 0 where
    pub each : All (IsVerified history t) found.verified
    pub all_if_none : found.issues ≡ [] → found.verified ≡ ids

  abbrev ReadAs : RecordType → Text → Outcome Thrown RecordEnvelope → Type 0
  ReadAs t id (returns e) = Accepts t id e
  ReadAs t id (throws x) = Unit

  judge-AreSound :
      (history : List Json) (t : RecordType) (id : Text) (ids : List Text)
      (r : Outcome Thrown RecordEnvelope) (found : Findings)
      → ReadAs t id r
      → AreSound history t ids found
      → AreSound history t (id ∷ ids) (judge history t id r found)
  unfolding judge
  judge-AreSound history t id ids (throws x) found read sound = record {
    each = sound.each;
    all_if_none = λ e. absurd (ground arith);
  }
  judge-AreSound history evidence id ids (returns e) found read sound = record {
    each = ((e, read, tt), sound.each);
    all_if_none = λ none_found. ap (λ xs. id ∷ xs) (sound.all_if_none none_found);
  }
  judge-AreSound history snapshot id ids (returns e) found read sound =
      elim (Bool-cases (agrees_with_history history id e)) [
        | inl agrees ↦ rw agrees (record {
          each = ((e, read, agrees-HasTimeOf history id e agrees), sound.each);
          all_if_none = λ none_found. ap (λ xs. id ∷ xs) (sound.all_if_none none_found);
        })
        | inr differs ↦
            rw differs (record { each = sound.each; all_if_none = λ e. absurd (ground arith) })
      ]

  caught_Ends :
      (t : RecordType) (id : Text) (r : Outcome Thrown RecordEnvelope) (s : S)
      → Ends (λ e s. Same s × Accepts t id e) Same r s
      → Same s × ReadAs t id r
  caught_Ends t id (returns e) s h = h
  caught_Ends t id (throws x) s h = (h, tt)

  caught_Triple :
      (t : RecordType) (id : Text)
      → Triple Same
          (caught (read_stored_envelope host fs project_id t id))
          (λ r s. Same s × ReadAs t id r)
          Same
  caught_Triple t id = record {
    run = λ s same.
        caught_Ends t id (read_stored_envelope host fs project_id t id s).0
          (read_stored_envelope host fs project_id t id s).1
          ((read_stored_envelope_Triple host fs content Inside temp_beside laws project_id before t
              id).run
            s same);
  }

  verify_records_Triple :
      (history : List Json) (t : RecordType) (ids : List Text)
      → Triple Same
          (verify_records host fs project_id history t ids)
          (λ found s. Same s × AreSound history t ids found)
          Same
  unfolding verify_records
  verify_records_Triple history t [] =
      returns_Triple _ (λ s same. (same, record { each = tt; all_if_none = λ e. refl }))
  verify_records_Triple history t (id ∷ ids) = Triple-bind (caught_Triple t id) λ r.
      Triple-fact λ read. Triple-bind (verify_records_Triple history t ids) λ found.
        returns_Triple (judge history t id r found)
          (λ s h. (h.0, judge-AreSound history t id ids r found read h.1))

  abbrev history_of : ManifestBody → List Json
  history_of m = or_default m.snapshot_history []

  -- What the verification says of a manifest that is accepted.
  pub record IsSound (m : ManifestBody) (r : StoreVerification) : Type 0 where
    pub manifest_is_verified : r.manifest_verified ≡ true
    pub snapshots : All (IsVerified (history_of m) snapshot) r.verified_snapshot_ids
    pub evidences : All (IsVerified (history_of m) evidence) r.verified_evidence_ids
    pub all_snapshots : r.is_ok ≡ true → r.verified_snapshot_ids ≡ m.snapshot_ids
    pub all_evidence : r.is_ok ≡ true → r.verified_evidence_ids ≡ m.evidence_ids

  abbrev pub ListsNothing : StoreVerification → Type 0
  ListsNothing r = (r.verified_snapshot_ids ≡ []) × (r.verified_evidence_ids ≡ [])

  -- Of the manifest's file, whatever it is.
  abbrev pub Verdict : Option Contents → StoreVerification → Type 0
  Verdict none r = (r.is_ok ≡ true) × (r.manifest_verified ≡ false) × ListsNothing r
  Verdict (some raw) r =
      ((m : ProjectStoreManifest) × (accept_manifest host project_id raw ≡ ok m) × IsSound m.body r)
      ⊎ ((e : ProjectMemoryError) × (accept_manifest host project_id raw ≡ err e)
          × (r.is_ok ≡ false)
          × (r.manifest_verified ≡ false)
          × ListsNothing r)

  no_issues :
      (xs ys : List StoreInspectionIssue)
      → is_none_found host fs project_id (xs ++ ys) ≡ true
      → (xs ≡ []) × (ys ≡ [])
  no_issues [] [] h = (refl, refl)
  no_issues [] (y ∷ ys) h = absurd (cc)
  no_issues (x ∷ xs) ys h = absurd (cc)

  verification-IsSound :
      (m : ManifestBody) (snapshots evidences : Findings)
      → AreSound (history_of m) snapshot m.snapshot_ids snapshots
      → AreSound (history_of m) evidence m.evidence_ids evidences
      → IsSound m (verification host fs project_id snapshots evidences)
  verification-IsSound m snapshots evidences first second = record {
    manifest_is_verified = refl;
    snapshots = first.each;
    evidences = second.each;
    all_snapshots = λ h. first.all_if_none (no_issues snapshots.issues evidences.issues h).0;
    all_evidence = λ h. second.all_if_none (no_issues snapshots.issues evidences.issues h).1;
  }

  verify_manifest_records_Triple :
      (m : ManifestBody)
      → Triple Same
          (verify_manifest_records host fs project_id m)
          (λ r s. Same s × IsSound m r)
          Same
  unfolding verify_manifest_records
  verify_manifest_records_Triple m =
      Triple-bind (verify_records_Triple (history_of m) snapshot m.snapshot_ids) λ snapshots.
        Triple-fact λ first.
          Triple-bind (verify_records_Triple (history_of m) evidence m.evidence_ids) λ evidences.
            returns_Triple (verification host fs project_id snapshots evidences)
              (λ s h. (h.0, verification-IsSound m snapshots evidences first h.1))

  verify_found_Triple :
      (raw : Contents) (r : Result ProjectStoreManifest)
      → accept_manifest host project_id raw ≡ r
      → Triple Same (verify_found host fs project_id r) (λ v s. Same s × Verdict (some raw) v) Same
  unfolding verify_found
  verify_found_Triple raw (err x) e =
      returns_Triple _ (λ s same. (same, inr (x, e, refl, refl, (refl, refl))))
  verify_found_Triple raw (ok m) e =
      Triple-weaken (λ s h. h) (λ v s h. (h.0, inl (m, e, h.1))) (λ s h. h)
        (verify_manifest_records_Triple m.body)

  verify_file_Triple :
      (file : Option Contents)
      → Triple Same (verify_file host fs project_id file) (λ v s. Same s × Verdict file v) Same
  unfolding verify_file
  verify_file_Triple none = returns_Triple _ (λ s same. (same, (refl, refl, (refl, refl))))
  verify_file_Triple (some raw) = verify_found_Triple raw (accept_manifest host project_id raw) refl

  -- A verification changes no file. Of a store with no manifest it says that it is in order, that
  -- no manifest was verified, and lists no record; of one whose manifest is refused it says that it
  -- is not in order, and lists no record. Otherwise it lists as verified only records whose file is
  -- a genuine envelope, with the capture time that the last entry of the chronology for its id has
  -- if it is a snapshot, and where it says that the store is in order it lists every record of the
  -- manifest.
  pub verify_lem :
      (m : Text)
      → manifest_path host (project_key host project_id) ≡ ok m
      → (s : S) → ((q : Text) → content s q ≡ before q)
      → Ends
          (λ r s. Same s × Verdict (before m) r)
          Same
          (verify host fs project_id s).0
          (verify host fs project_id s).1
  unfolding verify
  verify_lem m named s same = verify_Triple.run s same
    where
      at_file :
          (found : Text)
          → found ≡ m
          → (raw : Option Contents) → raw ≡ before found
          → Triple Same
              (verify_file host fs project_id raw)
              (λ v s. Same s × Verdict (before m) v)
              Same
      at_file found e raw is =
          subst
            (λ file.
              Triple Same (verify_file host fs project_id raw) (λ v s. Same s × Verdict file v)
                Same)
            (is ∙ ap before e) (verify_file_Triple raw)

      verify_Triple :
          Triple Same (verify host fs project_id) (λ r s. Same s × Verdict (before m) r) Same
      verify_Triple = Triple-bind (of_result_Triple (assert_id project_id)) λ _. Triple-fact λ _.
          Triple-bind (of_result_Triple (manifest_path host (project_key host project_id))) λ found.
            Triple-fact λ e.
              Triple-bind
                (read_Triple host fs content Inside temp_beside laws project_id before found)
                λ raw. Triple-fact λ is. at_file found (cc) raw is
