-- ===== src/Memory/Store/Delete/Safe.antt =====
-- When a deletion of project-memory/src/store.ts takes a project's files away.
use oh_my_pm.Common.{◌≡◌, refl, subst, ◌∙◌, ◌⊎◌, inl, inr, true, false, Option, none}
use oh_my_pm.Common.Text.{Text, text_eq, text_eq_iff}
use oh_my_pm.Common.Action.{
  returns, throws, Action, Ends, Ends-intro, Triple, Triple-bind, Triple-weaken, Triple-try_finally,
}
use oh_my_pm.Memory.Errors.{ok}
use oh_my_pm.Memory.Lock.{release}
use oh_my_pm.Memory.Paths.{assert_project_data_separation, lock_path_for, project_dir_for}
use oh_my_pm.Memory.Gates.{assert_operation_id}
use oh_my_pm.Memory.FileSystem.{Contents, Thrown, FileSystem}
use oh_my_pm.Memory.FileSystem.Laws.{
  FileSystemLaws, OnContents, quiet, of_result_Triple, if_Triple, returns_Triple, refuse_Triple,
  Triple-fact, acquire_lock_Triple, release_lock_Triple,
}
use oh_my_pm.Memory.Store.Input.{Host}
use oh_my_pm.Memory.Store.Accept.{assert_id, project_key, manifest_path}
use oh_my_pm.Memory.Store.Verify.{StoreVerification, verify}
use oh_my_pm.Memory.Store.Verify.Sound.{Verdict, verify_lem}
use oh_my_pm.Memory.Store.Delete.{
  DeleteProjectMemoryInput, DeleteResult, check_store, tombstone_of, delete_locked, delete_present,
  delete_confirmed, delete_project, refuses_to_delete, confirmation_differs,
}

-- The rename of a directory: all of it or nothing, and nothing outside the two. A removal that
-- returns has removed every file below the directory.
pub record MoveDirLaws {S : Type 0} (fs : FileSystem S) (content : S → Text → Option Contents)
    (Inside : Text → Text → Type 0) : Type 0 where
  pub dir_elsewhere :
      (s : S) (from to q : Text)
      → (¬ Inside from q)
      → (¬ Inside to q)
      → content (fs.move_dir from to s).1 q ≡ content s q
  pub dir_fails :
      (s : S) (from to : Text) (e : Thrown) (q : Text)
      → (fs.move_dir from to s).0 ≡ throws e
      → content (fs.move_dir from to s).1 q ≡ content s q
  pub dir_clears :
      (s : S) (from to q : Text)
      → (fs.move_dir from to s).0 ≡ returns tt
      → Inside from q
      → content (fs.move_dir from to s).1 q ≡ none
  pub removal_clears :
      (s : S) (d q : Text)
      → (fs.remove_dir d s).0 ≡ returns tt
      → Inside d q
      → content (fs.remove_dir d s).1 q ≡ none

module _ (host : Host) {S : Type 0} (fs : FileSystem S) (content : S → Text → Option Contents)
    (Inside : Text → Text → Type 0) (temp_beside : Text → Text → Text)
    (laws : FileSystemLaws fs content Inside temp_beside) (dir_laws : MoveDirLaws fs content Inside)
    (input : DeleteProjectMemoryInput) (dir m : Text)
    (rooted : project_dir_for host.node_path host.layout (project_key host input.project_id)
      ≡ ok dir)
    (named : manifest_path host (project_key host input.project_id) ≡ ok m)
    (apart : (q : Text) → Inside dir q → ¬ Inside (tombstone_of host fs input dir) q)
    (before : Text → Option Contents) where
  abbrev tombstone : Text
  tombstone = tombstone_of host fs input dir

  abbrev pub Same : S → Type 0
  Same s = (q : Text) → content s q ≡ before q

  -- The deletion is forced, or the verification says that the store is in order.
  abbrev pub MayDelete : Type 0
  MayDelete =
      (input.force_corrupt_delete ≡ true)
      ⊎ ((v : StoreVerification) × (v.is_ok ≡ true)
          × Verdict host fs content Inside temp_beside laws input.project_id before (before m) v)

  -- No file of the project is left, and no other file but those of the tombstone is changed.
  abbrev pub Gone : S → Type 0
  Gone s =
      MayDelete
      × ((q : Text) → Inside dir q → content s q ≡ none)
      × ((q : Text) → (¬ Inside dir q) → (¬ Inside tombstone q) → content s q ≡ before q)

  -- And no file of the tombstone is left.
  abbrev pub Cleared : S → Type 0
  Cleared s = Gone s × ((q : Text) → Inside tombstone q → content s q ≡ none)

  abbrev pub SameOrGone : S → Type 0
  SameOrGone s = Same s ⊎ ((input.confirmation ≡ input.project_id) × Gone s)

  Same-stable : OnContents content Same
  Same-stable s t same h q = same q ∙ h q

  Gone-stable : OnContents content Gone
  Gone-stable s t same (may, gone, kept) =
      (may, λ q i. same q ∙ gone q i, λ q a b. same q ∙ kept q a b)

  Cleared-stable : OnContents content Cleared
  Cleared-stable s t same (gone, clear) = (Gone-stable s t same gone, λ q i. same q ∙ clear q i)

  check_Triple : Triple Same (check_store host fs input) (λ _ s. Same s × MayDelete) Same
  unfolding check_store
  check_Triple =
      if_Triple input.force_corrupt_delete
        (λ forced. returns_Triple tt (λ s same. (same, inl forced)))
        (λ _. Triple-bind verify_Triple λ v. Triple-fact λ verdict.
          if_Triple v.is_ok (λ good. returns_Triple tt (λ s same. (same, inr (v, good, verdict))))
            (λ _. refuse_Triple refuses_to_delete))
    where
      verify_Triple :
          Triple Same
            (verify host fs input.project_id)
            (λ v s.
              Same s
              × Verdict host fs content Inside temp_beside laws input.project_id before
                  (before m)
                  v)
            Same
      verify_Triple = record {
        run = λ s same.
            verify_lem host fs content Inside temp_beside laws input.project_id before m named s
              same;
      }

  module _ (may : MayDelete) where
    move_Triple : Triple Same (fs.move_dir dir tombstone) (λ _. Gone) Same
    move_Triple = record {
      run = λ s same.
          Ends-intro (λ _. Gone) Same (fs.move_dir dir tombstone s).0
            (fs.move_dir dir tombstone s).1
            (λ _ r. (
              may,
              λ q i. dir_laws.dir_clears s dir tombstone q r i,
              λ q a b. dir_laws.dir_elsewhere s dir tombstone q a b ∙ same q,
            ))
            (λ e r q. dir_laws.dir_fails s dir tombstone e q r ∙ same q);
    }

    remove_Triple : Triple Gone (fs.remove_dir tombstone) (λ _. Cleared) Gone
    remove_Triple = record {
      run = λ s (yes', gone, kept).
          let t = (fs.remove_dir tombstone s).1 in
          let still : Gone t = (
            yes',
            λ q i. laws.remove_elsewhere s tombstone q (apart q i) ∙ gone q i,
            λ q a b. laws.remove_elsewhere s tombstone q b ∙ kept q a b,
          ) in
          Ends-intro (λ _. Cleared) Gone (fs.remove_dir tombstone s).0 t
            (λ _ r. (still, λ q i. dir_laws.removal_clears s tombstone q r i)) (λ _ _. still);
    }

  -- Files are gone exactly where the result says so.
  abbrev pub Answers : DeleteResult → S → Type 0
  Answers r s =
      ((r.deleted ≡ true) × (input.confirmation ≡ input.project_id) × Cleared s)
      ⊎ ((r.deleted ≡ false) × Same s)

  module _ (confirmed : input.confirmation ≡ input.project_id) where
    locked_Triple : Triple Same (delete_locked host fs input dir) Answers SameOrGone
    unfolding delete_locked
    locked_Triple =
        Triple-bind (Triple-weaken (λ s h. h) (λ _ s h. h) (λ s h. inl h) check_Triple) λ _.
          Triple-fact λ may.
            Triple-bind (Triple-weaken (λ s h. h) (λ _ s h. h) (λ s h. inl h) (move_Triple may))
              λ _.
                Triple-bind
                  (Triple-weaken (λ s h. h) (λ _ s h. h) (λ s h. inr (confirmed, h))
                    (remove_Triple may))
                  λ _. returns_Triple _ (λ s gone. inl (refl, confirmed, gone))

    Answers-stable : (r : DeleteResult) → OnContents content (Answers r)
    Answers-stable r s t same (inl (d, c, gone)) = inl (d, c, Cleared-stable s t same gone)
    Answers-stable r s t same (inr (d, h)) = inr (d, Same-stable s t same h)

    SameOrGone-stable : OnContents content SameOrGone
    SameOrGone-stable s t same (inl h) = inl (Same-stable s t same h)
    SameOrGone-stable s t same (inr (c, gone)) = inr (c, Gone-stable s t same gone)

    Answers→SameOrGone : (r : DeleteResult) (s : S) → Answers r s → SameOrGone s
    Answers→SameOrGone r s (inl (d, c, gone)) = inr (c, gone.0)
    Answers→SameOrGone r s (inr (d, h)) = inl h

    release_Triple :
        {P : S → Type 0} (lock_path : Text)
        → OnContents content P
        → ((s : S) → P s → SameOrGone s)
        → Triple P (release (fs.lock_calls lock_path)) (λ _. P) SameOrGone
    release_Triple lock_path stable weaker =
        Triple-weaken (λ s h. h) (λ _ s h. h) weaker (release_lock_Triple laws lock_path stable)

    from_Same :
        {A : Type 0} {Q : A → S → Type 0} {a : Action S Thrown A}
        → Triple Same a Q Same
        → Triple Same a Q SameOrGone
    from_Same t = Triple-weaken (λ s h. h) (λ _ s h. h) (λ s h. inl h) t

    present_Triple : Triple Same (delete_present host fs input dir) Answers SameOrGone
    unfolding delete_present
    present_Triple =
        Triple-bind
          (from_Same (
            of_result_Triple
              (lock_path_for host.node_path host.layout (project_key host input.project_id))))
          λ lock_path. Triple-fact λ _.
            Triple-bind
              (from_Same (
                quiet {m = fs.mkdirp host.layout.locks_dir} content Same-stable
                  (λ s q. laws.mkdirp_keeps s host.layout.locks_dir q)))
              λ _.
                Triple-bind
                  (from_Same (
                    acquire_lock_Triple laws lock_path Same-stable host.date_parse fs.surroundings
                      fs.current_pid (project_key host input.project_id) input.operation_id))
                  λ _.
                    Triple-try_finally {cleanup = release (fs.lock_calls lock_path)} locked_Triple
                      (λ r. release_Triple lock_path (Answers-stable r) (Answers→SameOrGone r))
                      (release_Triple lock_path SameOrGone-stable (λ s h. h))

    confirmed_Triple : Triple Same (delete_confirmed host fs input) Answers SameOrGone
    unfolding delete_confirmed
    confirmed_Triple =
        Triple-bind
          (from_Same (
            of_result_Triple
              (project_dir_for host.node_path host.layout (project_key host input.project_id))))
          λ found. Triple-fact λ e.
            Triple-bind
              (from_Same (
                quiet {m = fs.exists found} content Same-stable
                  (λ s q. laws.exists_keeps s found q)))
              λ present.
                if_Triple present
                  (λ _.
                    subst (λ d. Triple Same (delete_present host fs input d) Answers SameOrGone)
                      (cc) present_Triple)
                  (λ _. returns_Triple _ (λ s h. inr (refl, h)))

  delete_Triple : Triple Same (delete_project host fs input) Answers SameOrGone
  unfolding delete_project
  delete_Triple = Triple-bind (refusing (of_result_Triple (assert_id input.project_id))) λ _.
      Triple-fact λ _.
        Triple-bind
          (refusing
            (of_result_Triple (assert_operation_id host.utf8_byte_length input.operation_id)))
          λ _. Triple-fact λ _.
            Triple-bind
              (refusing (
                of_result_Triple (
                  assert_project_data_separation host.node_path host.layout.data_root
                    input.project_root_boundary)))
              λ _. Triple-fact λ _.
                if_Triple (text_eq input.confirmation input.project_id)
                  (λ same.
                    confirmed_Triple ((text_eq_iff input.confirmation input.project_id).0 same))
                  (λ _. refusing (refuse_Triple confirmation_differs))
    where
      refusing :
          {A : Type 0} {Q : A → S → Type 0} {a : Action S Thrown A}
          → Triple Same a Q Same
          → Triple Same a Q SameOrGone
      refusing t = Triple-weaken (λ s h. h) (λ _ s h. h) (λ s h. inl h) t

  -- However a deletion ends, either no file has changed, or the confirmation is the project's id
  -- and the deletion was forced or the verification found the store in order; then no file of the
  -- project's directory is left there, and no file outside that directory and its tombstone has
  -- changed. If it returns, the result says which of the two it is, and in the second case no file
  -- of the tombstone is left either. The tombstone is apart from the project's directory, and the
  -- filesystem obeys the laws.
  pub delete_project_lem :
      (s : S)
      → ((q : Text) → content s q ≡ before q)
      → Ends Answers SameOrGone
          (delete_project host fs input s).0
          (delete_project host fs input s).1
  delete_project_lem s same = delete_Triple.run s same
