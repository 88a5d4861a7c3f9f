-- ===== src/Memory/Store/Write/Manifest.antt =====
-- The commit point of project-memory/src/store.ts: the write of the manifest and what comes after.
use oh_my_pm.Common.{
  ◌≡◌, refl, subst, ◌∙◌, ◌⊎◌, inl, inr, true, false, Option, some, List, [], ◌∷◌, All,
}
use oh_my_pm.Common.Text.{Text, lit}
use oh_my_pm.Common.Action.{
  returns, Action, pure, ◌>>=◌, Ends-intro, Triple, Triple-bind, Triple-weaken,
}
use oh_my_pm.Memory.Errors.{Result, ok}
use oh_my_pm.Memory.Manifest.{ProjectStoreManifest}
use oh_my_pm.Memory.Envelope.{RecordType, evidence, snapshot}
use oh_my_pm.Memory.Commit.{build_next_manifest}
use oh_my_pm.Memory.FileSystem.{
  CommitFailurePoint, fail_point, before_manifest_rename, after_manifest_rename, before_cleanup,
  Contents, manifest_text, Thrown, FileSystem, of_result,
}
use oh_my_pm.Memory.FileSystem.Laws.{
  FileSystemLaws, OnContents, quiet, of_result_Triple, returns_Triple, fail_point_Triple,
  Triple-fact,
}
use oh_my_pm.Memory.Store.Input.{Host, Bundle}
use oh_my_pm.Memory.Store.Accept.{
  record_path, manifest_path, assert_manifest_size, serialize_manifest,
}
use oh_my_pm.Memory.Store.Reconcile.{ids_of}
use oh_my_pm.Memory.Store.Write.{
  CommitResult, commit_result_from, commit_input, staging_of, temp_for, write_manifest,
  write_bundle,
}
use oh_my_pm.Memory.Store.Reads.{Reads}
use oh_my_pm.Memory.Store.Write.Frame.{Keeps, key, IsKept, Old}
use oh_my_pm.Memory.Store.Write.Records.{Present, Placed, write_records_Triple}

module _ (host : Host) {S : Type 0} (fs : FileSystem S) (content : S → Text → Option Contents)
    (Inside : Text → Text → Type 0) (temp_beside : Text → Text → Text)
    (laws : FileSystemLaws fs content Inside temp_beside) (b : Bundle) (dir m : Text) where
  abbrev project : Text
  project = key host fs content Inside temp_beside laws b dir m

  abbrev Spared : Text → Type 0
  Spared = IsKept host fs content Inside temp_beside laws b dir m

  -- The manifest is `next`, the files that were there are kept, and each new record has its file.
  abbrev pub New : (Text → Option Contents) → ProjectStoreManifest → S → Type 0
  New before next s =
      Keeps content Spared before s
      × (content s m ≡ some (manifest_text next))
      × Placed host fs content Inside temp_beside laws b dir m s

  -- The manifest is the next one of what was read of `before`.
  abbrev pub Written : (Text → Option Contents) → S → Type 0
  Written before s =
      (existing : Option ProjectStoreManifest) × (next : ProjectStoreManifest) × Reads host
        b.project_id (before m) existing
      × (build_next_manifest (commit_input b) existing project host.platform ≡ ok next)
      × New before next s

  Present-same :
      (s t : S) (r : RecordType) (id : Text)
      → ((path : Text) → record_path host project r id ≡ ok path → content t path ≡ content s path)
      → Present host fs content Inside temp_beside laws b dir m s r id
      → Present host fs content Inside temp_beside laws b dir m t r id
  Present-same s t r id same (path, found, c, is) = (path, found, c, same path found ∙ is)

  All-Present-same :
      (s t : S) (ids : List Text)
      → ((r : RecordType) (id path : Text)
          → record_path host project r id ≡ ok path
          → content t path ≡ content s path)
      → All (λ id. Present host fs content Inside temp_beside laws b dir m s evidence id) ids
      → All (λ id. Present host fs content Inside temp_beside laws b dir m t evidence id) ids
  All-Present-same s t [] same h = tt
  All-Present-same s t (id ∷ ids) same (here, rest) =
      (Present-same s t evidence id (same evidence id) here, All-Present-same s t ids same rest)

  Placed-same :
      (s t : S)
      → ((r : RecordType) (id path : Text)
          → record_path host project r id ≡ ok path
          → content t path ≡ content s path)
      → Placed host fs content Inside temp_beside laws b dir m s
      → Placed host fs content Inside temp_beside laws b dir m t
  Placed-same s t same (here, rest) = (
    Present-same s t snapshot b.snapshot.record_id (same snapshot b.snapshot.record_id) here,
    All-Present-same s t (ids_of b.evidence) same rest,
  )

  module _ (manifest_apart : ¬ Inside (staging_of dir) m) (before : Text → Option Contents)
      (no_folders : (s : S) (t : RecordType) (id path : Text)
        → record_path host project t id ≡ ok path
        → (fs.exists path s).0 ≡ returns true
        → (c : Contents) × (content s path ≡ some c))
      (records_apart : (t : RecordType) (id path : Text)
        → record_path host project t id ≡ ok path
        → Spared path)
      (named : manifest_path host project ≡ ok m) where
    abbrev Unwritten : S → Type 0
    Unwritten = Old host fs content Inside temp_beside laws b dir m manifest_apart before

    abbrev pub Either : S → Type 0
    Either s = Unwritten s ⊎ Written before s

    pub New-stable : (next : ProjectStoreManifest) → OnContents content (New before next)
    New-stable next s t same (kept, new, placed) = (
      λ q c k e. same q ∙ kept q c k e,
      same m ∙ new,
      Placed-same s t (λ r id path found. same path) placed,
    )

    abbrev Ready : S → Type 0
    Ready s = Unwritten s × Placed host fs content Inside temp_beside laws b dir m s

    abbrev temp : Text
    temp = temp_for host fs b project dir (lit "manifest")

    write_kept :
        (s : S) (c : Contents) (q : Text)
        → Spared q
        → content (fs.write_file_atomic m c temp s).1 q ≡ content s q
    write_kept s c q (ne, temp_ne, _) = laws.write_elsewhere s m c temp q ne temp_ne

    write_Old :
        (s : S) (c : Contents)
        → content (fs.write_file_atomic m c temp s).1 m ≡ content s m
        → Unwritten s
        → Unwritten (fs.write_file_atomic m c temp s).1
    write_Old s c same (kept, old) = (λ q x k e. write_kept s c q k ∙ kept q x k e, same ∙ old)

    write_New :
        (s : S) (next : ProjectStoreManifest)
        → content (fs.write_file_atomic m (manifest_text next) temp s).1 m
          ≡ some (manifest_text next)
        → Ready s
        → New before next (fs.write_file_atomic m (manifest_text next) temp s).1
    write_New s next new ((kept, old), placed) = (
      λ q x k e. write_kept s (manifest_text next) q k ∙ kept q x k e,
      new,
      Placed-same s (fs.write_file_atomic m (manifest_text next) temp s).1
          (λ r id path found.
            write_kept s (manifest_text next) path (records_apart r id path found))
          placed,
    )

    module _ (existing : Option ProjectStoreManifest)
        (reads : Reads host b.project_id (before m) existing) (next : ProjectStoreManifest)
        (built : build_next_manifest (commit_input b) existing project host.platform
          ≡ ok next) where
      New-Either : (s : S) → New before next s → Either s
      New-Either s new = inr (existing, next, reads, built, new)

      after_write :
          (s : S) → Ready s → Either (fs.write_file_atomic m (manifest_text next) temp s).1
      after_write s ready = elim (laws.write_old_or_new s m (manifest_text next) temp) [
        | inl same ↦ inl (write_Old s (manifest_text next) same ready.0)
        | inr new ↦ New-Either _ (write_New s next new ready)
      ]

      write_Triple :
          Triple Ready
            (fs.write_file_atomic m (manifest_text next) temp)
            (λ _. New before next)
            Either
      write_Triple = record {
        run = λ s ready.
            Ends-intro (λ _. New before next) Either
              (fs.write_file_atomic m (manifest_text next) temp s).0
              (fs.write_file_atomic m (manifest_text next) temp s).1
              (λ _ r. write_New s next (laws.write_whole s m (manifest_text next) temp r) ready)
              (λ _ _. after_write s ready);
      }

      remove_Triple :
          Triple (New before next) (fs.remove_dir (staging_of dir)) (λ _. New before next) Either
      remove_Triple = record {
        run = λ s (kept, new, placed).
            let t = (fs.remove_dir (staging_of dir) s).1 in
            let still : New before next t = (
              λ q c k e. laws.remove_elsewhere s (staging_of dir) q k.2 ∙ kept q c k e,
              laws.remove_elsewhere s (staging_of dir) m manifest_apart ∙ new,
              Placed-same s t
                  (λ r id path found.
                    laws.remove_elsewhere s (staging_of dir) path (records_apart r id path found).2)
                  placed,
            ) in
            Ends-intro (λ _. New before next) Either (fs.remove_dir (staging_of dir) s).0 t
              (λ _ _. still) (λ _ _. New-Either t still);
      }

      -- From the rename on.
      quiet_New :
          {m : Action S Thrown (Unit {0})}
          → ((s : S) (q : Text) → content (m s).1 q ≡ content s q)
          → Triple (New before next) m (λ _. New before next) Either
      quiet_New same =
          Triple-weaken (λ s h. h) (λ _ s h. h) New-Either (quiet content (New-stable next) same)

      fail_New :
          (point : CommitFailurePoint)
          → Triple (New before next) (fail_point fs point) (λ _. New before next) Either
      fail_New point = Triple-weaken (λ s h. h) (λ _ s h. h) New-Either (fail_point_Triple fs point)

    module _ (existing : Option ProjectStoreManifest)
        (reads : Reads host b.project_id (before m) existing) where
      Builds : ProjectStoreManifest → Type 0
      Builds next = build_next_manifest (commit_input b) existing project host.platform ≡ ok next

      result_Ready :
          {A : Type 0} (r : Result A)
          → Triple Ready (of_result r) (λ a s. Ready s × (r ≡ ok a)) Either
      result_Ready r = Triple-weaken (λ s h. h) (λ _ s h. h) (λ s h. inl h.0) (of_result_Triple r)

      fail_Ready :
          (point : CommitFailurePoint) → Triple Ready (fail_point fs point) (λ _. Ready) Either
      fail_Ready point =
          Triple-weaken (λ s h. h) (λ _ s h. h) (λ s h. inl h.0) (fail_point_Triple fs point)

      write_manifest_Triple :
          Triple Ready
            (write_manifest host fs b project dir existing)
            (λ next s. New before next s × Builds next)
            Either
      unfolding write_manifest Builds
      write_manifest_Triple =
          Triple-bind
            (result_Ready (build_next_manifest (commit_input b) existing project host.platform))
            λ next. Triple-fact λ built.
              Triple-bind (result_Ready (assert_manifest_size host (serialize_manifest next))) λ _.
                Triple-fact λ _. Triple-bind (fail_Ready before_manifest_rename) λ _.
                  Triple-bind (result_Ready (manifest_path host project))
                    λ path. Triple-fact λ found. at_path next built path (cc)
        where
          at_path :
              (next : ProjectStoreManifest)
              → build_next_manifest (commit_input b) existing project host.platform ≡ ok next
              → (path : Text) → m ≡ path
              → Triple Ready
                  (fs.write_file_atomic path (serialize_manifest next) temp >>= λ _.
                    fail_point fs after_manifest_rename >>= λ _. pure next)
                  (λ next s.
                    New before next s
                    × (build_next_manifest (commit_input b) existing project host.platform
                        ≡ ok next))
                  Either
          at_path next built path e =
              subst
                (λ path.
                  Triple Ready
                    (fs.write_file_atomic path (serialize_manifest next) temp >>= λ _.
                      fail_point fs after_manifest_rename >>= λ _. pure next)
                    (λ next s.
                      New before next s
                      × (build_next_manifest (commit_input b) existing project host.platform
                          ≡ ok next))
                    Either)
                e
                (Triple-bind (write_Triple existing reads next built) λ _.
                  Triple-bind (fail_New existing reads next built after_manifest_rename)
                    λ _. returns_Triple next (λ s h. (h, built)))

      -- A bundle that was written: the result is that of the next manifest.
      abbrev pub Committed : CommitResult → S → Type 0
      Committed result s =
          (next : ProjectStoreManifest) × (build_next_manifest (commit_input b) existing project
              host.platform
            ≡ ok next)
          × (result ≡ commit_result_from next.body b false)
          × New before next s

      pub write_bundle_Triple :
          Triple Unwritten (write_bundle host fs b project dir existing) Committed Either
      unfolding write_bundle Builds
      write_bundle_Triple =
          Triple-bind
            (Triple-weaken (λ s h. h) (λ _ s h. h) (λ s h. inl h)
              (write_records_Triple host fs content Inside temp_beside laws b dir m manifest_apart
                before no_folders records_apart))
            λ _. Triple-bind write_manifest_Triple λ next. Triple-fact λ built.
              Triple-bind (quiet_New existing reads next built (λ s q. laws.sync_keeps s dir q))
                λ _. Triple-bind (fail_New existing reads next built before_cleanup) λ _.
                  Triple-bind (remove_Triple existing reads next built) λ _.
                    returns_Triple (commit_result_from next.body b false)
                      (λ s new. (next, built, refl, new))
