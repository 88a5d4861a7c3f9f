-- ===== src/Memory/Store/Write/ReadAfter.antt =====
-- `readSnapshot` of project-memory/src/store.ts on a disk where the manifest and the record stand.
use oh_my_pm.Common.{◌≡◌, ltb, sym, ap, subst, ◌∙◌, false, Option, none, some, arith}
use oh_my_pm.Common.Text.{Text, includes}
use oh_my_pm.Common.Action.{returns, Ends, Triple, Triple-bind}
use oh_my_pm.Memory.Errors.{Result, ok, err}
use oh_my_pm.Memory.Manifest.{ProjectStoreManifest}
use oh_my_pm.Memory.Envelope.{snapshot, RecordEnvelope, build_envelope}
use oh_my_pm.Memory.Commit.{build_next_manifest}
use oh_my_pm.Memory.FileSystem.{Contents, FileSystem, of_result}
use oh_my_pm.Memory.FileSystem.Laws.{FileSystemLaws, if_Triple, returns_Triple, Triple-fact}
use oh_my_pm.Memory.Store.Input.{Host, Bundle}
use oh_my_pm.Memory.Store.Accept.{
  max_record_bytes, project_key, record_path, manifest_path, assert_id, assert_manifest_size,
  serialize_manifest, serialize_envelope, accept_manifest, accept_envelope, inventory,
}
use oh_my_pm.Memory.Store.Read.{
  manifest_of, read_manifest, required, require_manifest, read_stored_envelope, read_record,
}
use oh_my_pm.Memory.Store.Write.{commit_input}
use oh_my_pm.Memory.Store.Write.Records.{build_envelope-body}
use oh_my_pm.Memory.Store.Write.Readable.{
  includes-next, accept_manifest-build_next_manifest, accept_envelope-build_envelope,
}

module _ (host : Host) {S : Type 0} (fs : FileSystem S) (b : Bundle)
    (content : S → Text → Option Contents) (Inside : Text → Text → Type 0)
    (temp_beside : Text → Text → Text) (laws : FileSystemLaws fs content Inside temp_beside)
    (m f : Text) (named : manifest_path host (project_key host b.project_id) ≡ ok m)
    (placed : record_path host (project_key host b.project_id) snapshot b.snapshot.record_id ≡ ok f)
    (existing : Option ProjectStoreManifest)
    (reads_return : (s : S) (path : Text)
      → (fs.read_file_if_exists path s).0 ≡ returns (content s path))
    (project_named : assert_id b.project_id ≡ ok tt)
    (snapshot_named : assert_id b.snapshot.record_id ≡ ok tt) where
  abbrev key : Text
  key = project_key host b.project_id

  abbrev Never : S → Type 0
  Never s = ⊥

  given :
      {A : Type 0} {P : S → Type 0} (r : Result A) (a : A)
      → r ≡ ok a
      → Triple P (of_result r) (λ x s. P s × (x ≡ a)) Never
  given (ok x) a e = returns_Triple x (λ s p. (p, ground arith))
  given (err x) a e = absurd (cc)

  module _ (next : ProjectStoreManifest)
      (built : build_next_manifest (commit_input b) existing key host.platform ≡ ok next)
      (fits : assert_manifest_size host (serialize_manifest next) ≡ ok tt) (e : RecordEnvelope)
      (made : build_envelope host.platform snapshot b.project_id b.snapshot.record_id
          b.snapshot.fields
        ≡ ok e)
      (record_fits : ltb max_record_bytes (host.contents_size (serialize_envelope e)) ≡ false) where
    abbrev Both : S → Type 0
    Both s =
        (content s m ≡ some (serialize_manifest next)) × (content s f ≡ some (serialize_envelope e))

    read_at :
        (path : Text) (file : Contents)
        → ((s : S) → Both s → content s path ≡ some file)
        → Triple Both (fs.read_file_if_exists path) (λ raw s. Both s × (raw ≡ some file)) Never
    read_at path file there = record {
      run = λ s both.
          let t = (fs.read_file_if_exists path s).1 in
          subst (λ r. Ends (λ raw s. Both s × (raw ≡ some file)) Never r t)
            (sym (reads_return s path))
            ((laws.read_keeps s path m ∙ both.0, laws.read_keeps s path f ∙ both.1), there s both);
    }

    manifest_of_Triple :
        (raw : Option Contents)
        → raw ≡ some (serialize_manifest next)
        → Triple Both
            (manifest_of host fs b.project_id raw)
            (λ found s. Both s × (found ≡ some next))
            Never
    unfolding manifest_of
    manifest_of_Triple none h = absurd (cc)
    manifest_of_Triple (some raw) h =
        Triple-bind (given (accept_manifest host b.project_id raw) next accepted) λ found.
          Triple-fact λ same. returns_Triple (some found) (λ s both. (both, ap (λ x. some x) same))
      where
        accepted : accept_manifest host b.project_id raw ≡ ok next
        accepted =
            let whole =
              accept_manifest-build_next_manifest host (commit_input b) existing next built fits in
            let same : raw ≡ serialize_manifest next = ground arith in rw same whole

    read_manifest_Triple :
        Triple Both
          (read_manifest host fs b.project_id)
          (λ found s. Both s × (found ≡ some next))
          Never
    unfolding read_manifest
    read_manifest_Triple = Triple-bind (given (assert_id b.project_id) tt project_named) λ _.
        Triple-fact λ _. Triple-bind (given (manifest_path host key) m named) λ path.
          Triple-fact λ e.
            Triple-bind
              (read_at path (serialize_manifest next) (λ s both. ap (content s) e ∙ both.0))
              λ raw. Triple-fact λ same. manifest_of_Triple raw same

    required_Triple :
        (found : Option ProjectStoreManifest)
        → found ≡ some next
        → Triple Both (required host fs found) (λ x s. Both s × (x ≡ next)) Never
    unfolding required
    required_Triple none h = absurd (cc)
    required_Triple (some x) h = returns_Triple x (λ s both. (both, ground arith))

    require_manifest_Triple :
        Triple Both (require_manifest host fs b.project_id) (λ x s. Both s × (x ≡ next)) Never
    unfolding require_manifest
    require_manifest_Triple =
        Triple-bind read_manifest_Triple λ found. Triple-fact λ same. required_Triple found same

    read_envelope_Triple :
        Triple Both
          (read_stored_envelope host fs b.project_id snapshot b.snapshot.record_id)
          (λ x s. Both s × (x ≡ e))
          Never
    unfolding read_stored_envelope
    read_envelope_Triple =
        Triple-bind (given (record_path host key snapshot b.snapshot.record_id) f placed) λ path.
          Triple-fact λ at.
            Triple-bind (read_at path (serialize_envelope e) (λ s both. ap (content s) at ∙ both.1))
              λ raw. Triple-fact λ same.
                given (accept_envelope host b.project_id snapshot b.snapshot.record_id raw) e (
                  ap (accept_envelope host b.project_id snapshot b.snapshot.record_id) same
                  ∙ accept_envelope-build_envelope host b.project_id snapshot b.snapshot e made
                      record_fits)

    pub read_record_Triple :
        Triple Both
          (read_record host fs snapshot b.project_id b.snapshot.record_id)
          (λ fields s. Both s × (fields ≡ b.snapshot.fields))
          Never
    unfolding read_record
    read_record_Triple = Triple-bind (given (assert_id b.snapshot.record_id) tt snapshot_named) λ _.
        Triple-fact λ _. Triple-bind require_manifest_Triple λ x. Triple-fact λ same.
          if_Triple (includes (inventory snapshot x.body) b.snapshot.record_id)
            (λ _. Triple-bind read_envelope_Triple λ y. Triple-fact λ is.
              returns_Triple y.body.payload (λ s both. (
                both,
                ap (λ e. e.body.payload) is
                    ∙ ap (λ body. body.payload)
                        (build_envelope-body host.platform snapshot b.project_id
                          b.snapshot.record_id b.snapshot.fields e made),
              )))
            (λ unlisted. absurd (not_listed x same unlisted))
      where
        not_listed :
            (x : ProjectStoreManifest)
            → x ≡ next
            → ¬ (includes (inventory snapshot x.body) b.snapshot.record_id ≡ false)
        not_listed x same unlisted =
            let listed =
              ap (λ (x : ProjectStoreManifest). includes x.body.snapshot_ids b.snapshot.record_id)
                same
              ∙ includes-next host (commit_input b) existing next built in
            cc
