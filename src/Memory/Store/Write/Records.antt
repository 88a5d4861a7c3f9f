-- ===== src/Memory/Store/Write/Records.antt =====
-- The records of a commit, project-memory/src/store.ts: once `write_records` has returned, a file
-- stands at the final path of each of them.
use oh_my_pm.Common.{◌≡◌, refl, subst, List, [], ◌∷◌, All, Option, some, arith}
use oh_my_pm.Common.Text.{Text, lit}
use oh_my_pm.Common.Json.{Fields}
use oh_my_pm.Common.Action.{returns, Triple, Triple-bind, Triple-weaken}
use oh_my_pm.Common.{true}
use oh_my_pm.Memory.Errors.{Result, ok, err, >>=-eq-ok}
use oh_my_pm.Memory.Integrity.{Platform, compute_integrity, domain_record_integrity}
use oh_my_pm.Memory.Envelope.{
  RecordType, snapshot, evidence, RecordEnvelope, envelope_body_json, new_body, build_envelope,
}
use oh_my_pm.Memory.FileSystem.{
  after_staging_created, after_first_record_written, after_records_moved, Contents, FileSystem,
}
use oh_my_pm.Memory.FileSystem.Laws.{
  FileSystemLaws, quiet, of_result_Triple, fail_point_Triple, Triple-fact,
}
use oh_my_pm.Memory.Store.Input.{Host, Payload, Bundle}
use oh_my_pm.Memory.Store.Accept.{record_path}
use oh_my_pm.Memory.Store.Reconcile.{ids_of}
use oh_my_pm.Memory.Store.Write.{
  StagedRecord, child, staging_of, and_build, build_evidence, stage, stage_all, move_all,
  write_records,
}
use oh_my_pm.Memory.Store.Write.Frame.{
  Holding, key, IsKept, Old, Old-stable, IsStaged, AllStaged, stage_Triple, stage_all_Triple,
  finals, move_all_Triple,
}

-- The record's type and id are those that it was built of.
pub build_envelope-body :
    (p : Platform) (t : RecordType) (project_id id : Text) (fields : Fields) (e : RecordEnvelope)
    → build_envelope p t project_id id fields ≡ ok e
    → e.body ≡ new_body t project_id id fields
unfolding build_envelope
build_envelope-body p t project_id id fields e h =
    let body = new_body t project_id id fields in
    let (integrity, _, rest) =
      >>=-eq-ok (compute_integrity p domain_record_integrity (envelope_body_json body)) _ h in
    cc

pub and_build-eq-ok :
    (r : Result RecordEnvelope) (rs : Result (List RecordEnvelope)) (es : List RecordEnvelope)
    → and_build r rs ≡ ok es
    → (first : RecordEnvelope) × (rest : List RecordEnvelope) × (r ≡ ok first)
      × (rs ≡ ok rest)
      × (es ≡ first ∷ rest)
and_build-eq-ok (err x) rs es h = absurd (ground arith)
and_build-eq-ok (ok first) (err x) es h = absurd (ground arith)
and_build-eq-ok (ok first) (ok rest) es h = (first, rest, refl, refl, ground arith)

module _ (host : Host) {S : Type 0} (fs : FileSystem S) (content : S → Text → Option Contents)
    (Inside : Text → Text → Type 0) (temp_beside : Text → Text → Text)
    (laws : FileSystemLaws fs content Inside temp_beside) (b : Bundle) (dir m : Text) where
  abbrev project : Text
  project = key host fs content Inside temp_beside laws b dir m

  -- A file stands at the record's path.
  abbrev pub Present : S → RecordType → Text → Type 0
  Present s t id =
      (path : Text) × (record_path host project t id ≡ ok path)
      × (c : Contents) × (content s path ≡ some c)

  -- A file stands at the path of each record of the bundle.
  abbrev pub Placed : S → Type 0
  Placed s =
      Present s snapshot b.snapshot.record_id
      × All (λ id. Present s evidence id) (ids_of b.evidence)

  module _ (manifest_apart : ¬ Inside (staging_of dir) m) (before : Text → Option Contents)
      (no_folders : (s : S) (t : RecordType) (id path : Text)
        → record_path host project t id ≡ ok path
        → (fs.exists path s).0 ≡ returns true
        → (c : Contents) × (content s path ≡ some c))
      (records_apart : (t : RecordType) (id path : Text)
        → record_path host project t id ≡ ok path
        → IsKept host fs content Inside temp_beside laws b dir m path) where
    abbrev Unwritten : S → Type 0
    Unwritten = Old host fs content Inside temp_beside laws b dir m manifest_apart before

    abbrev Stands : RecordEnvelope → StagedRecord → Type 0
    Stands = IsStaged host fs content Inside temp_beside laws b dir m manifest_apart before

    abbrev AllStand : List RecordEnvelope → List StagedRecord → Type 0
    AllStand = AllStaged host fs content Inside temp_beside laws b dir m manifest_apart before

    abbrev final_paths : List StagedRecord → List Text
    final_paths =
        finals host fs content Inside temp_beside laws b dir m manifest_apart before no_folders
          records_apart

    place :
        (s : S) (t : RecordType) (payload : Payload) (e : RecordEnvelope) (item : StagedRecord)
        → build_envelope host.platform t b.project_id payload.record_id payload.fields ≡ ok e
        → Stands e item
        → (c : Contents) × (content s item.final_path ≡ some c)
        → Present s t payload.record_id
    place s t payload e item built (found, _) there =
        let same =
          build_envelope-body host.platform t b.project_id payload.record_id payload.fields e
            built in
        (
          item.final_path,
          subst
              (λ body.
                record_path host project body.record_type body.record_id ≡ ok item.final_path)
              same found,
          there.0,
          there.1,
        )

    place_all :
        (s : S) (payloads : List Payload) (es : List RecordEnvelope) (items : List StagedRecord)
        → build_evidence host fs b project dir payloads ≡ ok es
        → AllStand es items
        → Holding content (final_paths items) s
        → All (λ id. Present s evidence id) (ids_of payloads)
    unfolding build_evidence
    place_all s [] es items built staged held = tt
    place_all s (payload ∷ payloads) es items built staged held =
        let (first, rest, here, others, e) =
          and_build-eq-ok
            (build_envelope host.platform evidence b.project_id payload.record_id payload.fields)
            (build_evidence host fs b project dir payloads) es built in
        next first rest items here others
          (λ tail files at. place_all s payloads rest tail others at files)
          (subst (λ es. AllStand es items) e staged) held
      where
        next :
            (first : RecordEnvelope) (rest : List RecordEnvelope) (items : List StagedRecord)
            → build_envelope host.platform evidence b.project_id payload.record_id payload.fields
              ≡ ok first
            → build_evidence host fs b project dir payloads ≡ ok rest
            → ((tail : List StagedRecord)
                → Holding content (final_paths tail) s
                → AllStand rest tail
                → All (λ id. Present s evidence id) (ids_of payloads))
            → AllStand (first ∷ rest) items
            → Holding content (final_paths items) s
            → All (λ id. Present s evidence id) (ids_of (payload ∷ payloads))
        next first rest [] here others all staged held = absurd staged
        next first rest (item ∷ items) here others all (at, staged) (there, held) =
            (place s evidence payload first item here at there, all items held staged)

    pub write_records_Triple :
        Triple Unwritten
          (write_records host fs b project dir)
          (λ _ s. Unwritten s × Placed s)
          Unwritten
    unfolding write_records
    write_records_Triple = Triple-bind (mkdirp_Triple (child dir (lit "snapshots"))) λ _.
        Triple-bind (mkdirp_Triple (child dir (lit "evidence"))) λ _.
          Triple-bind (mkdirp_Triple (staging_of dir)) λ _.
            Triple-bind (fail_point_Triple fs after_staging_created) λ _.
              Triple-bind (of_result_Triple first_built) λ first. Triple-fact λ here.
                Triple-bind (of_result_Triple (build_evidence host fs b project dir b.evidence))
                  λ others. Triple-fact λ there. Triple-bind (stage_one first) λ item.
                    Triple-fact λ at.
                      Triple-bind (fail_point_Triple fs after_first_record_written) λ _.
                        Triple-bind (stage_rest others) λ items. Triple-fact λ staged.
                          Triple-bind
                            (Triple-weaken (λ s old. (old, tt))
                              (λ _ s (held, files). (
                                held.0,
                                (
                                  place s snapshot b.snapshot first item here at files.0,
                                  place_all s b.evidence others items there staged files.1,
                                ),
                              ))
                              (λ s old. old) (move_both first others item items at staged))
                            λ _.
                              Triple-weaken (λ s h. h) (λ _ s h. h) (λ s h. h.0)
                                (fail_point_Triple fs after_records_moved)
      where
        mkdirp_Triple : (path : Text) → Triple Unwritten (fs.mkdirp path) (λ _. Unwritten) Unwritten
        mkdirp_Triple path =
            quiet content
              (Old-stable host fs content Inside temp_beside laws b dir m manifest_apart before)
              (λ s q. laws.mkdirp_keeps s path q)

        first_built : Result RecordEnvelope
        first_built =
            build_envelope host.platform snapshot b.project_id b.snapshot.record_id
              b.snapshot.fields

        stage_one :
            (e : RecordEnvelope)
            → Triple Unwritten
                (stage host fs b project dir e)
                (λ item s. Unwritten s × Stands e item)
                Unwritten
        stage_one =
            stage_Triple host fs content Inside temp_beside laws b dir m manifest_apart before

        stage_rest :
            (es : List RecordEnvelope)
            → Triple Unwritten
                (stage_all host fs b project dir es)
                (λ items s. Unwritten s × AllStand es items)
                Unwritten
        stage_rest =
            stage_all_Triple host fs content Inside temp_beside laws b dir m manifest_apart before

        move_both :
            (e : RecordEnvelope) (es : List RecordEnvelope) (item : StagedRecord)
            (items : List StagedRecord)
            → Stands e item
            → AllStand es items
            → Triple
                (λ s. Unwritten s × Unit {0})
                (move_all host fs b project dir (item ∷ items))
                (λ _ s. (Unwritten s × Unit {0}) × Holding content (final_paths (item ∷ items)) s)
                Unwritten
        move_both e es item items at staged =
            move_all_Triple host fs content Inside temp_beside laws b dir m manifest_apart before
              no_folders records_apart (e ∷ es) (item ∷ items) [] (at, staged) tt
