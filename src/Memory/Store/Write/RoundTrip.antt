-- ===== src/Memory/Store/Write/RoundTrip.antt =====
-- A snapshot that a commit of project-memory/src/store.ts has written is read back by `readSnapshot`.
use oh_my_pm.Common.{
  ◌≡◌, ◌≢◌, sym, ap, subst, ◌∙◌, true, false, Option, none, some, List, [], ◌∷◌, All,
}
use oh_my_pm.Common.Text.{Text, lit}
use oh_my_pm.Common.Action.{returns, Action, ◌>>=◌, Ends-intro, Triple, Triple-bind, Triple-weaken}
use oh_my_pm.Memory.Errors.{ok}
use oh_my_pm.Memory.Manifest.{ProjectStoreManifest}
use oh_my_pm.Memory.Envelope.{snapshot, evidence, RecordEnvelope, build_envelope}
use oh_my_pm.Memory.Commit.{build_next_manifest}
use oh_my_pm.Memory.FileSystem.{
  after_staging_created, after_first_record_written, after_records_moved, before_manifest_rename,
  after_manifest_rename, before_cleanup, Contents, Thrown, FileSystem, fail_point,
}
use oh_my_pm.Memory.FileSystem.Laws.{
  FileSystemLaws, quiet, of_result_Triple, returns_Triple, fail_point_Triple, Triple-fact,
}
use oh_my_pm.Memory.Store.Input.{Host, Payload, Bundle}
use oh_my_pm.Memory.Store.Accept.{
  project_key, record_path, manifest_path, assert_manifest_size, serialize_manifest,
  serialize_envelope,
}
use oh_my_pm.Memory.Store.Write.{
  CommitResult, commit_result_from, commit_input, child, staging_of, temp_for, build_evidence,
  stage, stage_all, move_all, write_records, write_manifest, write_bundle,
}
use oh_my_pm.Memory.Store.Write.Records.{and_build-eq-ok, build_envelope-body}
use oh_my_pm.Memory.Store.Write.Readback.{
  first_staged, Fits, stage-snapshot_Triple, stage_others_Triple, move_all_Triple,
}

module _ (host : Host) {S : Type 0} (fs : FileSystem S) (b : Bundle) (dir : Text) where
  abbrev key : Text
  key = project_key host b.project_id

  build_evidence-evidence :
      (payloads : List Payload) (es : List RecordEnvelope)
      → build_evidence host fs b key dir payloads ≡ ok es
      → All (λ e. e.body.record_type ≡ evidence) es
  unfolding build_evidence
  build_evidence-evidence [] es h =
      subst (λ es. All (λ e. e.body.record_type ≡ evidence) es) (nothing h) tt
    where
      nothing : ok [] ≡ ok es → [] ≡ es
      nothing h = cc
  build_evidence-evidence (payload ∷ payloads) es h =
      let (first, rest, here, others, e) =
        and_build-eq-ok
          (build_envelope host.platform evidence b.project_id payload.record_id payload.fields)
          (build_evidence host fs b key dir payloads) es h in
      subst (λ es. All (λ e. e.body.record_type ≡ evidence) es) (sym e)
        (
          ap (λ body. body.record_type)
              (build_envelope-body host.platform evidence b.project_id payload.record_id
                payload.fields first here),
          build_evidence-evidence payloads rest others,
        )

  module _ (content : S → Text → Option Contents) (Inside : Text → Text → Type 0)
      (temp_beside : Text → Text → Text) (laws : FileSystemLaws fs content Inside temp_beside)
      (m f : Text) (named : manifest_path host key ≡ ok m)
      (placed : record_path host key snapshot b.snapshot.record_id ≡ ok f)
      (manifest_apart : ¬ Inside (staging_of dir) m) (record_apart : ¬ Inside (staging_of dir) f)
      (different : f ≢ m)
      (temp_different : f ≢ temp_beside m (temp_for host fs b key dir (lit "manifest")))
      (no_folder : (s : S)
        → (fs.exists f s).0 ≡ returns true
        → (c : Contents) × (content s f ≡ some c))
      (temp_apart : (name : Text)
        → first_staged host fs content Inside temp_beside laws b dir f record_apart no_folder
          ≢ temp_beside
              (child (staging_of dir) name)
              (temp_for host fs b key dir (lit "staged"))) where
    abbrev Any : S → Type 0
    Any s = Unit

    loose :
        {A : Type 0} {P X : S → Type 0} {Q : A → S → Type 0} {a : Action S Thrown A}
        → Triple P a Q X
        → Triple P a Q Any
    loose t = Triple-weaken (λ s h. h) (λ _ s h. h) (λ s h. tt) t

    abbrev Fresh : S → Type 0
    Fresh s = content s f ≡ none

    -- The file of the snapshot is that of its envelope, and not too large.
    abbrev HoldsSnapshot : S → Type 0
    HoldsSnapshot s =
        (e : RecordEnvelope) × (build_envelope host.platform snapshot b.project_id
            b.snapshot.record_id b.snapshot.fields
          ≡ ok e)
        × Fits host fs content Inside temp_beside laws b dir f record_apart no_folder
            (serialize_envelope e)
        × (content s f ≡ some (serialize_envelope e))

    mkdirp_Triple : (path : Text) → Triple Fresh (fs.mkdirp path) (λ _. Fresh) Any
    mkdirp_Triple path =
        loose (quiet content (λ s t same h. same f ∙ h) (λ s q. laws.mkdirp_keeps s path q))

    write_records_Triple : Triple Fresh (write_records host fs b key dir) (λ _. HoldsSnapshot) Any
    unfolding write_records
    write_records_Triple = Triple-bind (mkdirp_Triple (child dir (lit "snapshots"))) λ _.
        Triple-bind (mkdirp_Triple (child dir (lit "evidence"))) λ _.
          Triple-bind (mkdirp_Triple (staging_of dir)) λ _.
            Triple-bind (loose (fail_point_Triple fs after_staging_created)) λ _.
              Triple-bind
                (loose (
                  of_result_Triple (
                    build_envelope host.platform snapshot b.project_id b.snapshot.record_id
                      b.snapshot.fields)))
                λ e. Triple-fact λ built.
                  Triple-bind
                    (loose (of_result_Triple (build_evidence host fs b key dir b.evidence)))
                    λ others. Triple-fact λ made. staged e built others made
      where
        staged :
            (e : RecordEnvelope)
            → build_envelope host.platform snapshot b.project_id b.snapshot.record_id
                b.snapshot.fields
              ≡ ok e
            → (others : List RecordEnvelope)
            → build_evidence host fs b key dir b.evidence ≡ ok others
            → Triple Fresh
                (stage host fs b key dir e >>= λ item.
                  fail_point fs after_first_record_written >>= λ _.
                  stage_all host fs b key dir others >>= λ items.
                  move_all host fs b key dir (item ∷ items) >>= λ _.
                  fail_point fs after_records_moved)
                (λ _. HoldsSnapshot)
                Any
        staged e built others made =
            let body =
              build_envelope-body host.platform snapshot b.project_id b.snapshot.record_id
                b.snapshot.fields e built in
            Triple-bind
              (stage-snapshot_Triple host fs content Inside temp_beside laws b dir f record_apart
                no_folder placed e (ap (λ x. x.record_type) body) (ap (λ x. x.record_id) body))
              λ item. Triple-fact λ first.
                Triple-bind (loose (fail_point_Triple fs after_first_record_written)) λ _.
                  Triple-bind
                    (stage_others_Triple host fs content Inside temp_beside laws b dir f
                      record_apart no_folder (serialize_envelope e) temp_apart others
                      (build_evidence-evidence b.evidence others made))
                    λ items. Triple-fact λ inside.
                      Triple-bind
                        (Triple-weaken (λ s h. h) (λ _ s final. (e, built, first.2, final))
                          (λ s h. h)
                          (move_all_Triple host fs content Inside temp_beside laws b dir f
                            record_apart no_folder (serialize_envelope e) item items first inside))
                        λ _. loose (fail_point_Triple fs after_records_moved)

    module _ (existing : Option ProjectStoreManifest) where
      Builds : ProjectStoreManifest → Type 0
      Builds next = build_next_manifest (commit_input b) existing key host.platform ≡ ok next

      abbrev FitsManifest : ProjectStoreManifest → Type 0
      FitsManifest next = assert_manifest_size host (serialize_manifest next) ≡ ok tt

      -- The manifest's file is the next manifest, and the snapshot's is its envelope.
      abbrev HoldsBoth : ProjectStoreManifest → S → Type 0
      HoldsBoth next s = HoldsSnapshot s × (content s m ≡ some (serialize_manifest next))

      HoldsSnapshot-stable :
          (s t : S) → content t f ≡ content s f → HoldsSnapshot s → HoldsSnapshot t
      HoldsSnapshot-stable s t same (e, built, fits, is) = (e, built, fits, same ∙ is)

      calm :
          {A : Type 0} {a : Action S Thrown A} (next : ProjectStoreManifest)
          → ((s : S) → content (a s).1 f ≡ content s f)
          → ((s : S) → content (a s).1 m ≡ content s m)
          → Triple (HoldsBoth next) a (λ _. HoldsBoth next) Any
      calm {a} next same_f same_m = record {
        run = λ s (holds, is).
            Ends-intro (λ _. HoldsBoth next) Any (a s).0 (a s).1
              (λ _ _. (HoldsSnapshot-stable s (a s).1 (same_f s) holds, same_m s ∙ is)) (λ _ _. tt);
      }

      write_Triple :
          (next : ProjectStoreManifest) (path : Text)
          → path ≡ m
          → Triple HoldsSnapshot
              (fs.write_file_atomic path
                (serialize_manifest next)
                (temp_for host fs b key dir (lit "manifest")))
              (λ _. HoldsBoth next)
              Any
      write_Triple next path e = record {
        run = λ s holds.
            let temp = temp_for host fs b key dir (lit "manifest") in
            let a = fs.write_file_atomic path (serialize_manifest next) temp s in
            Ends-intro (λ _. HoldsBoth next) Any a.0 a.1
              (λ _ r. (
                HoldsSnapshot-stable s a.1
                    (laws.write_elsewhere s path (serialize_manifest next) temp f
                      (λ h. different (h ∙ e))
                      (λ h. temp_different (h ∙ ap (λ q. temp_beside q temp) e)))
                    holds,
                ap (content a.1) (sym e) ∙ laws.write_whole s path (serialize_manifest next) temp r,
              ))
              (λ _ _. tt);
      }

      write_manifest_Triple :
          Triple HoldsSnapshot
            (write_manifest host fs b key dir existing)
            (λ next s. HoldsBoth next s × (Builds next × FitsManifest next))
            Any
      unfolding write_manifest Builds
      write_manifest_Triple =
          Triple-bind
            (loose
              (of_result_Triple (build_next_manifest (commit_input b) existing key host.platform)))
            λ next. Triple-fact λ built.
              Triple-bind
                (loose (of_result_Triple (assert_manifest_size host (serialize_manifest next))))
                λ _. Triple-fact λ fits.
                  Triple-bind (loose (fail_point_Triple fs before_manifest_rename)) λ _.
                    Triple-bind (loose (of_result_Triple (manifest_path host key))) λ path.
                      Triple-fact λ found. Triple-bind (write_Triple next path (cc)) λ _.
                        Triple-bind (loose (fail_point_Triple fs after_manifest_rename))
                          λ _. returns_Triple next (λ s h. (h, (built, fits)))

      -- What a write of the bundle leaves, if it returns.
      abbrev pub IsReadable : CommitResult → S → Type 0
      IsReadable result s =
          (next : ProjectStoreManifest) × HoldsBoth next s
          × (build_next_manifest (commit_input b) existing key host.platform ≡ ok next)
          × FitsManifest next

      pub IsReadable-stable :
          (result : CommitResult) (s t : S)
          → ((q : Text) → content t q ≡ content s q)
          → IsReadable result s
          → IsReadable result t
      IsReadable-stable result s t same (next, (holds, is), built, fits) =
          (next, (HoldsSnapshot-stable s t (same f) holds, same m ∙ is), built, fits)

      pub write_bundle_Triple :
          Triple Fresh (write_bundle host fs b key dir existing) IsReadable Any
      unfolding write_bundle Builds
      write_bundle_Triple = Triple-bind write_records_Triple λ _.
          Triple-bind write_manifest_Triple λ next. Triple-fact λ made.
            Triple-bind (calm next (λ s. laws.sync_keeps s dir f) (λ s. laws.sync_keeps s dir m))
              λ _. Triple-bind (loose (fail_point_Triple fs before_cleanup)) λ _.
                Triple-bind
                  (calm next (λ s. laws.remove_elsewhere s (staging_of dir) f record_apart)
                    (λ s. laws.remove_elsewhere s (staging_of dir) m manifest_apart))
                  λ _.
                    returns_Triple (commit_result_from next.body b false)
                      (λ s holds. (next, holds, made.0, made.1))
