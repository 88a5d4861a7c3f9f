-- ===== src/Memory/Store/Write/CommitRead.antt =====
-- A commit of project-memory/src/store.ts followed by `readSnapshot`.
use oh_my_pm.Common.{◌≡◌, ◌≢◌, refl, ap, subst, ◌∙◌, true, false, Option, none, some, arith}
use oh_my_pm.Common.Text.{Text, lit}
use oh_my_pm.Common.Action.{
  Outcome, returns, throws, Action, Ends, Ends-intro, Triple, Triple-bind, Triple-weaken,
  Triple-try_finally,
}
use oh_my_pm.Memory.Errors.{ok}
use oh_my_pm.Memory.Manifest.{ProjectStoreManifest}
use oh_my_pm.Memory.Lock.{release}
use oh_my_pm.Memory.Envelope.{snapshot}
use oh_my_pm.Memory.Paths.{assert_project_data_separation, lock_path_for, project_dir_for}
use oh_my_pm.Memory.FileSystem.{after_lock, Contents, Thrown, FileSystem}
use oh_my_pm.Memory.FileSystem.Laws.{
  FileSystemLaws, OnContents, quiet, of_result_Triple, if_Triple, returns_Triple, fail_point_Triple,
  Triple-fact, acquire_lock_Triple, release_lock_Triple,
}
use oh_my_pm.Memory.Store.Input.{Host, CommitSnapshotBundleInput, Bundle, validate_commit_input}
use oh_my_pm.Memory.Store.Accept.{project_key, record_path, manifest_path, assert_id}
use oh_my_pm.Memory.Store.Read.{read_record}
use oh_my_pm.Memory.Store.Write.{
  CommitResult, commit_result_from, child, staging_of, temp_for, repeat_commit, commit_locked,
  commit_and_release, commit_bundle, commit_snapshot_bundle,
}
use oh_my_pm.Memory.Store.Reads.{read_manifest_Triple, reconcile_existing_Triple}
use oh_my_pm.Memory.Store.Write.Atomic.{catch_Triple}
use oh_my_pm.Memory.Store.Write.Readback.{first_staged}
use oh_my_pm.Memory.Store.Write.ReadAfter.{read_record_Triple}
use oh_my_pm.Memory.Store.Write.RoundTrip.{IsReadable, IsReadable-stable, write_bundle_Triple}

-- A run that cannot throw returns what its postcondition says.
returns-Ends :
    {S A : Type 0} (P : S → Type 0) (a : A) (r : Outcome Thrown A) (s : S)
    → Ends (λ x s. P s × (x ≡ a)) (λ _. ⊥) r s
    → r ≡ returns a
returns-Ends P a (returns x) s h = ap (λ y. returns y) h.1
returns-Ends P a (throws e) s h = absurd h

anything :
    {S A : Type 0} {P : S → Type 0} (a : Action S Thrown A)
    → Triple P a (λ _ _. Unit {0}) (λ _. Unit {0})
anything a = record {
  run = λ s p. Ends-intro (λ _ _. Unit {0}) (λ _. Unit {0}) (a s).0 (a s).1 (λ _ _. tt) (λ _ _. tt);
}

not_written :
    (found : ProjectStoreManifest) (b : Bundle)
    → ¬ ((commit_result_from found.body b true).idempotent ≡ false)
unfolding commit_result_from
not_written found b h = cc

module _ (host : Host) {S : Type 0} (fs : FileSystem S) (b : Bundle) (dir : Text)
    (content : S → Text → Option Contents) (Inside : Text → Text → Type 0)
    (temp_beside : Text → Text → Text) (laws : FileSystemLaws fs content Inside temp_beside)
    (m f : Text) (named : manifest_path host (project_key host b.project_id) ≡ ok m)
    (placed : record_path host (project_key host b.project_id) snapshot b.snapshot.record_id ≡ ok f)
    (manifest_apart : ¬ Inside (staging_of dir) m) (record_apart : ¬ Inside (staging_of dir) f)
    (different : f ≢ m)
    (temp_different : f
      ≢ temp_beside m (temp_for host fs b (project_key host b.project_id) dir (lit "manifest")))
    (no_folder : (s : S)
      → (fs.exists f s).0 ≡ returns true
      → (c : Contents) × (content s f ≡ some c))
    (temp_apart : (name : Text)
      → first_staged host fs content Inside temp_beside laws b dir f record_apart no_folder
        ≢ temp_beside
            (child (staging_of dir) name)
            (temp_for host fs b (project_key host b.project_id) dir (lit "staged"))) where
  abbrev key : Text
  key = project_key host b.project_id

  abbrev Any : S → Type 0
  Any s = Unit

  loose :
      {A : Type 0} {P X : S → Type 0} {Q : A → S → Type 0} {a : Action S Thrown A}
      → Triple P a Q X
      → Triple P a Q Any
  loose t = Triple-weaken (λ s h. h) (λ _ s h. h) (λ s h. tt) t

  abbrev CanBeRead : Option ProjectStoreManifest → CommitResult → S → Type 0
  CanBeRead =
      IsReadable host fs b dir content Inside temp_beside laws m f named placed manifest_apart
        record_apart different temp_different no_folder temp_apart

  -- A commit that wrote something wrote what can be read.
  abbrev Outcomes : CommitResult → S → Type 0
  Outcomes r s =
      r.idempotent ≡ false → (existing : Option ProjectStoreManifest) × CanBeRead existing r s

  module _ (before : Option Contents) where
    -- No file stands at the record's path, and the manifest is the one from before.
    abbrev Start : S → Type 0
    Start s = (content s f ≡ none) × (content s m ≡ before)

    Start-stable : OnContents content Start
    Start-stable s t same (fresh, old) = (same f ∙ fresh, same m ∙ old)

    repeat_Triple :
        (existing : Option ProjectStoreManifest)
        → Triple Start (repeat_commit host fs b key dir existing) Outcomes Any
    unfolding repeat_commit
    repeat_Triple none =
        Triple-bind (anything (fs.remove_dir (staging_of dir))) λ _. record { run = λ s h. tt }
    repeat_Triple (some found) = Triple-bind (anything (fs.remove_dir (staging_of dir))) λ _.
        returns_Triple (commit_result_from found.body b true)
          (λ s h wrote. absurd (not_written found b wrote))

    body_Triple : Triple Start (commit_locked host fs b key dir) Outcomes Any
    unfolding commit_locked
    body_Triple = Triple-bind (loose (fail_point_Triple fs after_lock)) λ _.
        Triple-bind
          (loose (
            read_manifest_Triple host fs content Inside temp_beside laws Start Start-stable
              b.project_id m named before (λ s h. h.1)))
          λ existing. Triple-fact λ _.
            Triple-bind
              (loose (
                reconcile_existing_Triple host fs content Inside temp_beside laws Start Start-stable
                  b.project_id b existing))
              λ idempotent.
                if_Triple idempotent (λ _. repeat_Triple existing)
                  (λ _.
                    Triple-weaken (λ s h. h.0) (λ r s readable _. (existing, readable)) (λ s h. h)
                      (write_bundle_Triple host fs b dir content Inside temp_beside laws m f named
                        placed manifest_apart record_apart different temp_different no_folder
                        temp_apart existing))

    Outcomes-stable : (r : CommitResult) → OnContents content (Outcomes r)
    Outcomes-stable r s t same h wrote =
        let (existing, readable) = h wrote in
        (
          existing,
          IsReadable-stable host fs b dir content Inside temp_beside laws m f named placed
              manifest_apart record_apart different temp_different no_folder temp_apart existing r s
              t same readable,
        )

    commit_and_release_Triple :
        (lock_path : Text)
        → Triple Start (commit_and_release host fs b key dir lock_path) Outcomes Any
    unfolding commit_and_release
    commit_and_release_Triple lock_path =
        Triple-try_finally {cleanup = release (fs.lock_calls lock_path)} (catch_Triple body_Triple)
          (λ r. loose (release_lock_Triple laws lock_path (Outcomes-stable r)))
          (loose (release_lock_Triple laws lock_path (λ s t same h. tt)))

    module _
        (rooted : project_dir_for host.node_path host.layout (project_key host b.project_id)
          ≡ ok dir) where
      commit_bundle_Triple : Triple Start (commit_bundle host fs b) Outcomes Any
      unfolding commit_bundle
      commit_bundle_Triple =
          Triple-bind
            (loose (
              of_result_Triple (
                assert_project_data_separation host.node_path host.layout.data_root
                  b.project_root_boundary)))
            λ _. Triple-fact λ _.
              Triple-bind (loose (of_result_Triple (lock_path_for host.node_path host.layout key)))
                λ lock_path. Triple-fact λ _.
                  Triple-bind
                    (loose (
                      quiet {m = fs.mkdirp host.layout.locks_dir} content Start-stable
                        (λ s q. laws.mkdirp_keeps s host.layout.locks_dir q)))
                    λ _.
                      Triple-bind
                        (loose (
                          acquire_lock_Triple laws lock_path Start-stable host.date_parse
                            fs.surroundings fs.current_pid key b.operation_id))
                        λ _.
                          Triple-bind
                            (loose
                              (of_result_Triple (project_dir_for host.node_path host.layout key)))
                            λ found. Triple-fact λ e.
                              subst
                                (λ dir.
                                  Triple Start (commit_and_release host fs b key dir lock_path)
                                    Outcomes Any)
                                (cc) (commit_and_release_Triple lock_path)

      commit_Triple :
          (input : CommitSnapshotBundleInput)
          → validate_commit_input host input ≡ ok b
          → Triple Start (commit_snapshot_bundle host fs input) Outcomes Any
      unfolding commit_snapshot_bundle
      commit_Triple input valid = rw valid commit_bundle_Triple

      -- What a run that returned tells.
      of_return :
          (r : Outcome Thrown CommitResult) (s : S) (result : CommitResult)
          → Ends Outcomes Any r s
          → r ≡ returns result
          → Outcomes result s
      of_return (returns x) s result h e =
          let same : x ≡ result = ground arith in subst (λ x. Outcomes x s) same h
      of_return (throws x) s result h e = absurd (ground arith)

  -- If a commit returns a result that is no repetition, and no file stood at the path of its
  -- snapshot before, then `readSnapshot` returns exactly the fields of the snapshot that was
  -- committed. The filesystem obeys the laws and its reads return what stands there, the paths of
  -- manifest, record, staging and temp files are apart, and the two ids are not empty.
  pub read_record-commit_snapshot_bundle :
      ((s : S) (path : Text) → (fs.read_file_if_exists path s).0 ≡ returns (content s path))
      → assert_id b.project_id ≡ ok tt
      → assert_id b.snapshot.record_id ≡ ok tt
      → project_dir_for host.node_path host.layout (project_key host b.project_id) ≡ ok dir
      → (input : CommitSnapshotBundleInput) → validate_commit_input host input ≡ ok b
      → (s : S) → content s f ≡ none
      → (result : CommitResult) → (commit_snapshot_bundle host fs input s).0 ≡ returns result
      → result.idempotent ≡ false
      → (read_record host fs snapshot b.project_id b.snapshot.record_id
          (commit_snapshot_bundle host fs input s).1).0
        ≡ returns b.snapshot.fields
  read_record-commit_snapshot_bundle reads_return project_named snapshot_named rooted input valid s
        fresh result returned wrote =
      let t = (commit_snapshot_bundle host fs input s).1 in
      let (existing, (next, ((e, made, record_fits, is), whole), built, fits)) =
        of_return (content s m) rooted (commit_snapshot_bundle host fs input s).0 t result
          ((commit_Triple (content s m) rooted input valid).run s (fresh, refl)) returned wrote in
      returns-Ends _ b.snapshot.fields
        (read_record host fs snapshot b.project_id b.snapshot.record_id t).0
        (read_record host fs snapshot b.project_id b.snapshot.record_id t).1
        ((read_record_Triple host fs b content Inside temp_beside laws m f named placed existing
            reads_return project_named snapshot_named next built fits e made record_fits).run
          t (whole, is))
