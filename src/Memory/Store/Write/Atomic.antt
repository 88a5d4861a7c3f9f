-- ===== src/Memory/Store/Write/Atomic.antt =====
-- A whole commit of project-memory/src/store.ts, wherever it stops: the manifest is the old one or
-- the next one, and no record that was there is changed.
use oh_my_pm.Common.{◌≡◌, refl, subst, ◌∙◌, ◌⊎◌, inl, inr, true, Option, none, some}
use oh_my_pm.Common.Text.{Text}
use oh_my_pm.Common.Action.{
  Outcome, returns, throws, Action, Ends, Triple, Triple-bind, Triple-weaken, Triple-try_finally,
}
use oh_my_pm.Memory.Errors.{Result, ok}
use oh_my_pm.Memory.Manifest.{ProjectStoreManifest}
use oh_my_pm.Memory.Lock.{acquire_lock, release}
use oh_my_pm.Memory.Envelope.{RecordType}
use oh_my_pm.Memory.Paths.{assert_project_data_separation, lock_path_for, project_dir_for}
use oh_my_pm.Memory.FileSystem.{
  after_lock, Contents, Thrown, memory_error, foreign, FileSystem, of_result,
}
use oh_my_pm.Memory.FileSystem.Laws.{
  FileSystemLaws, OnContents, quiet, of_result_Triple, if_Triple, returns_Triple, fail_point_Triple,
  Triple-fact, acquire_lock_Triple, release_lock_Triple,
}
use oh_my_pm.Memory.Store.Input.{Host, CommitSnapshotBundleInput, Bundle, validate_commit_input}
use oh_my_pm.Memory.Store.Accept.{project_key, record_path, manifest_path}
use oh_my_pm.Memory.Store.Write.{
  CommitResult, commit_result_from, staging_of, controlled, catch_foreign, repeat_commit,
  commit_locked, commit_and_release, commit_bundle, commit_snapshot_bundle,
}
use oh_my_pm.Memory.Store.Reads.{Reads, read_manifest_Triple, reconcile_existing_Triple}
use oh_my_pm.Memory.Store.Write.Frame.{IsKept, Old, Old-stable, in_staging}
use oh_my_pm.Memory.Store.Write.Manifest.{New-stable, Either, Committed, write_bundle_Triple}

catch_Ends :
    {S A : Type 0} (X : S → Type 0) (Q : A → S → Type 0) (r : Outcome Thrown A) (s : S)
    → Ends Q X r s
    → Ends Q X (controlled r) s
catch_Ends X Q (returns a) s h = h
catch_Ends X Q (throws (memory_error e)) s h = h
catch_Ends X Q (throws (foreign e)) s h = h

pub catch_Triple :
    {S A : Type 0} {P X : S → Type 0} {Q : A → S → Type 0} {m : Action S Thrown A}
    → Triple P m Q X
    → Triple P (catch_foreign m) Q X
catch_Triple {X} {Q} {m} t = record { run = λ s p. catch_Ends X Q (m s).0 (m s).1 (t.run s p) }

module _ (host : Host) {S : Type 0} (fs : FileSystem S) (content : S → Text → Option Contents)
    (Inside : Text → Text → Type 0) (temp_beside : Text → Text → Text)
    (laws : FileSystemLaws fs content Inside temp_beside) (b : Bundle) (dir m : Text)
    (manifest_apart : ¬ Inside (staging_of dir) m) (before : Text → Option Contents)
    (no_folders : (s : S) (t : RecordType) (id path : Text)
      → record_path host (project_key host b.project_id) t id ≡ ok path
      → (fs.exists path s).0 ≡ returns true
      → (c : Contents) × (content s path ≡ some c))
    (records_apart : (t : RecordType) (id path : Text)
      → record_path host (project_key host b.project_id) t id ≡ ok path
      → IsKept host fs content Inside temp_beside laws b dir m path)
    (named : manifest_path host (project_key host b.project_id) ≡ ok m) where
  abbrev pub Unwritten : S → Type 0
  Unwritten = Old host fs content Inside temp_beside laws b dir m manifest_apart before

  abbrev pub Stopped : S → Type 0
  Stopped =
      Either host fs content Inside temp_beside laws b dir m manifest_apart before no_folders
        records_apart named

  -- The bundle is in the store already: nothing is written, and the result is the old manifest's.
  abbrev pub Repeated : CommitResult → S → Type 0
  Repeated result s =
      (found : ProjectStoreManifest) × Reads host b.project_id (before m) (some found)
      × (result ≡ commit_result_from found.body b true)
      × Unwritten s

  abbrev pub Done : CommitResult → S → Type 0
  Done result s =
      Repeated result s
      ⊎ ((existing : Option ProjectStoreManifest) × (reads : Reads host b.project_id (before m)
            existing)
          × Committed host fs content Inside temp_beside laws b dir m manifest_apart before
              no_folders records_apart named existing reads result s)

  old_stable : OnContents content Unwritten
  old_stable = Old-stable host fs content Inside temp_beside laws b dir m manifest_apart before

  Done-stable : (result : CommitResult) → OnContents content (Done result)
  Done-stable result s t same (inl (found, reads, is, old)) =
      inl (found, reads, is, old_stable s t same old)
  Done-stable result s t same (inr (existing, reads, (next, built, is, new))) = inr (
    existing,
    reads,
    (
      next,
      built,
      is,
      New-stable host fs content Inside temp_beside laws b dir m manifest_apart before no_folders
          records_apart named next s t same new,
    ),
  )

  Done→Stopped : (result : CommitResult) (s : S) → Done result s → Stopped s
  Done→Stopped result s (inl (found, reads, is, old)) = inl old
  Done→Stopped result s (inr (existing, reads, (next, built, is, new))) =
      inr (existing, next, reads, built, new)

  Stopped-stable : OnContents content Stopped
  Stopped-stable s t same (inl old) = inl (old_stable s t same old)
  Stopped-stable s t same (inr (existing, next, reads, built, new)) = inr (
    existing,
    next,
    reads,
    built,
    New-stable host fs content Inside temp_beside laws b dir m manifest_apart before no_folders
        records_apart named next s t same new,
  )

  remove_Triple : Triple Unwritten (fs.remove_dir (staging_of dir)) (λ _. Unwritten) Stopped
  remove_Triple =
      Triple-weaken (λ s h. h) (λ _ s h. h) (λ s h. inl h)
        (in_staging host fs content Inside temp_beside laws b dir m manifest_apart before
          (λ s q out. laws.remove_elsewhere s (staging_of dir) q out))

  repeat_Triple :
      (existing : Option ProjectStoreManifest)
      → Reads host b.project_id (before m) existing
      → Triple Unwritten
          (repeat_commit host fs b (project_key host b.project_id) dir existing)
          Done
          Stopped
  unfolding repeat_commit
  repeat_Triple none reads = Triple-bind remove_Triple λ _. record { run = λ s old. inl old }
  repeat_Triple (some found) reads = Triple-bind remove_Triple λ _.
      returns_Triple (commit_result_from found.body b true) (λ s old. inl (found, reads, refl, old))

  body_Triple :
      Triple Unwritten (commit_locked host fs b (project_key host b.project_id) dir) Done Stopped
  unfolding commit_locked
  body_Triple = Triple-bind (stopping (fail_point_Triple fs after_lock)) λ _.
      Triple-bind
        (stopping (
          read_manifest_Triple host fs content Inside temp_beside laws Unwritten old_stable
            b.project_id m named (before m) (λ s old. old.1)))
        λ existing. Triple-fact λ reads.
          Triple-bind
            (stopping (
              reconcile_existing_Triple host fs content Inside temp_beside laws Unwritten old_stable
                b.project_id b existing))
            λ idempotent.
              if_Triple idempotent (λ _. repeat_Triple existing reads)
                (λ _.
                  Triple-weaken (λ s h. h) (λ result s h. inr (existing, reads, h)) (λ s h. h)
                    (write_bundle_Triple host fs content Inside temp_beside laws b dir m
                      manifest_apart before no_folders records_apart named existing reads))
    where
      stopping :
          {A : Type 0} {Q : A → S → Type 0} {a : Action S Thrown A}
          → Triple Unwritten a Q Unwritten
          → Triple Unwritten a Q Stopped
      stopping t = Triple-weaken (λ s h. h) (λ _ s h. h) (λ s h. inl h) t

  release_Triple :
      {P : S → Type 0} (lock_path : Text)
      → OnContents content P
      → ((s : S) → P s → Stopped s)
      → Triple P (release (fs.lock_calls lock_path)) (λ _. P) Stopped
  release_Triple lock_path stable weaker =
      Triple-weaken (λ s h. h) (λ _ s h. h) weaker (release_lock_Triple laws lock_path stable)

  commit_and_release_Triple :
      (lock_path : Text)
      → Triple Unwritten
          (commit_and_release host fs b (project_key host b.project_id) dir lock_path)
          Done
          Stopped
  unfolding commit_and_release
  commit_and_release_Triple lock_path =
      Triple-try_finally {cleanup = release (fs.lock_calls lock_path)} (catch_Triple body_Triple)
        (λ result. release_Triple lock_path (Done-stable result) (Done→Stopped result))
        (release_Triple lock_path Stopped-stable (λ s h. h))

  calm :
      {A : Type 0} {a : Action S Thrown A}
      → ((s : S) (q : Text) → content (a s).1 q ≡ content s q)
      → Triple Unwritten a (λ _. Unwritten) Stopped
  calm same = Triple-weaken (λ s h. h) (λ _ s h. h) (λ s h. inl h) (quiet content old_stable same)

  result_Triple :
      {A : Type 0} (r : Result A)
      → Triple Unwritten (of_result r) (λ a s. Unwritten s × (r ≡ ok a)) Stopped
  result_Triple r = Triple-weaken (λ s h. h) (λ _ s h. h) (λ s h. inl h) (of_result_Triple r)

  taking :
      (lock_path : Text)
      → Triple Unwritten
          (acquire_lock
            (fs.lock_calls lock_path)
            host.date_parse
            fs.surroundings
            fs.current_pid
            (project_key host b.project_id)
            b.operation_id)
          (λ _. Unwritten)
          Stopped
  taking lock_path =
      Triple-weaken (λ s h. h) (λ _ s h. h) (λ s h. inl h)
        (acquire_lock_Triple laws lock_path old_stable host.date_parse fs.surroundings
          fs.current_pid (project_key host b.project_id) b.operation_id)

  module _
      (placed : project_dir_for host.node_path host.layout (project_key host b.project_id)
        ≡ ok dir) where
    commit_bundle_Triple : Triple Unwritten (commit_bundle host fs b) Done Stopped
    unfolding commit_bundle
    commit_bundle_Triple =
        Triple-bind
          (result_Triple (
            assert_project_data_separation host.node_path host.layout.data_root
              b.project_root_boundary))
          λ _. Triple-fact λ _.
            Triple-bind
              (result_Triple
                (lock_path_for host.node_path host.layout (project_key host b.project_id)))
              λ lock_path. Triple-fact λ _.
                Triple-bind
                  (calm {a = fs.mkdirp host.layout.locks_dir}
                    (λ s q. laws.mkdirp_keeps s host.layout.locks_dir q))
                  λ _. Triple-bind (taking lock_path) λ _.
                    Triple-bind
                      (result_Triple (
                        project_dir_for host.node_path host.layout (project_key host b.project_id)))
                      λ found. Triple-fact λ e.
                        subst
                          (λ dir.
                            Triple Unwritten
                              (commit_and_release host fs b (project_key host b.project_id) dir
                                lock_path)
                              Done Stopped)
                          (cc) (commit_and_release_Triple lock_path)

    -- Wherever a commit of valid input stops, no file that was there is changed, but for the
    -- manifest, its temp file and the staging directory, and the manifest is the one from before or
    -- the next one built of what was read, with a file at the path of each record of the bundle. If
    -- it returns, either the result is that of the manifest from before, and that one still stands,
    -- or it is that of the next one, and that one stands. The filesystem obeys the laws, the paths
    -- of the records are apart from those of the manifest and of the staging directory, and no
    -- directory stands where a record belongs.
    pub commit_snapshot_bundle_atomic :
        (input : CommitSnapshotBundleInput)
        → validate_commit_input host input ≡ ok b
        → (s : S) → ((q : Text) → content s q ≡ before q)
        → Ends Done Stopped
            (commit_snapshot_bundle host fs input s).0
            (commit_snapshot_bundle host fs input s).1
    unfolding commit_snapshot_bundle
    commit_snapshot_bundle_atomic input valid s same =
        rw valid (commit_bundle_Triple.run s ((λ q c k e. same q ∙ e), same m))
