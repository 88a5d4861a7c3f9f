-- ===== src/Memory/AtomicWrite/Recovery.antt =====
-- What a reader finds after `performAtomicWrite` of project-memory/src/atomic-write.ts, whichever
-- of its calls throws.
use oh_my_pm.Common.{◌≡◌, ◌≢◌, refl, ◌∙◌, ◌⊎◌, inl, inr, Bool, true, false, Option, none, some, []}
use oh_my_pm.Common.Text.{Text}
use oh_my_pm.Common.Action.{
  Outcome, returns, throws, Action, Ends, Ends-intro, Triple, Triple-bind, Triple-try_finally,
  Triple-weaken, try_finally,
}
use oh_my_pm.Memory.AtomicWrite.{
  AtomicWritePrimitives, AtomicWriteStage, AtomicWriteHook, before_temp_create, after_temp_create,
  during_temp_write, after_temp_write, after_temp_flush, before_rename, after_rename,
  before_directory_sync, after_directory_sync, Frame, dir, tmp_path, at_stage, in_world, fill_temp,
  write_and_rename, clean_temp, commit_temp, perform_atomic_write,
}
use oh_my_pm.Memory.AtomicWrite.Laws.{PrimitiveLaws, HookLaws}

abbrev pub Hooked : {S : Type 0} → Option (AtomicWriteHook S) → (S → Text → Option Text) → Type 0
Hooked none content = Unit
Hooked (some h) content = HookLaws h content

-- No file but the temp file differs from `before`.
abbrev pub KeepsOld :
    {S : Type 0} → (S → Text → Option Text) → Text → (Text → Option Text) → S → Type 0
KeepsOld content tmp before s = (q : Text) → q ≢ tmp → content s q ≡ before q

-- The target holds the new contents, the temp file is gone, and no other file differs.
abbrev pub HoldsNew :
    {S : Type 0}
    → (S → Text → Option Text)
    → (path contents tmp : Text) → (Text → Option Text)
    → S
    → Type 0
HoldsNew content path contents tmp before s =
    (content s path ≡ some contents)
    × (content s tmp ≡ none)
    × ((q : Text) → q ≢ tmp → q ≢ path → content s q ≡ before q)

at_stage_keeps :
    {S : Type 0} (hook : Option (AtomicWriteHook S)) (content : S → Text → Option Text)
    → Hooked hook content
    → (stage : AtomicWriteStage) (s : S) (q : Text)
    → content (at_stage hook stage s).1 q ≡ content s q
unfolding at_stage
at_stage_keeps none content h stage s q = refl
at_stage_keeps (some hook) content h stage s q = h.hook_keeps s stage q

module _ {S H : Type 0} (primitives : AtomicWritePrimitives S H) (content : S → Text → Option Text)
    (path_of : H → Text) (laws : PrimitiveLaws primitives content path_of)
    (path contents tmp_name : Text) (hook : Option (AtomicWriteHook S))
    (observes : Hooked hook content) (before : Text → Option Text) where
  open primitives use {create_temp, write, flush, close, rename, sync_dir, remove_file_if_exists}

  abbrev tmp : Text
  tmp = tmp_path primitives path tmp_name

  abbrev Untouched : S → Type 0
  Untouched = KeepsOld content tmp before

  abbrev Renamed : S → Type 0
  Renamed = HoldsNew content path contents tmp before

  abbrev Filled : S → Type 0
  Filled s = Untouched s × (content s tmp ≡ some contents)

  -- A predicate on what the files hold.
  abbrev OnContents : (S → Type 0) → Type 0
  OnContents P = (s t : S) → ((q : Text) → content t q ≡ content s q) → P s → P t

  keeps_contents :
      {A : Type 0} (P : S → Type 0) (m : Action S Text A)
      → OnContents P
      → ((s : S) (q : Text) → content (m s).1 q ≡ content s q)
      → Triple P m (λ _. P) P
  keeps_contents P m stable same = record {
    run = λ s p.
        let t = (m s).1 in
        Ends-intro (λ _. P) P (m s).0 t (λ _ _. stable s t (same s) p)
          (λ _ _. stable s t (same s) p);
  }

  Untouched-stable : OnContents Untouched
  Untouched-stable s t same h q ne = same q ∙ h q ne

  Filled-stable : OnContents Filled
  Filled-stable s t same (h, e) = (Untouched-stable s t same h, same tmp ∙ e)

  Renamed-stable : OnContents Renamed
  Renamed-stable s t same (new, gone, h) =
      (same path ∙ new, same tmp ∙ gone, λ q a b. same q ∙ h q a b)

  quiet :
      {P X : S → Type 0} {m : Action S Text (Unit {0})}
      → OnContents P
      → ((s : S) → P s → X s)
      → ((s : S) (q : Text) → content (m s).1 q ≡ content s q)
      → Triple P m (λ _. P) X
  quiet {P} {m} stable weaker same =
      Triple-weaken (λ _ p. p) (λ _ _ p. p) weaker (keeps_contents P m stable same)

  at_keeps :
      (stage : AtomicWriteStage) (s : S) (q : Text)
      → content (at_stage hook stage s).1 q ≡ content s q
  at_keeps stage s q = at_stage_keeps hook content observes stage s q

  at_stage_Triple :
      {P X : S → Type 0} (stage : AtomicWriteStage)
      → OnContents P
      → ((s : S) → P s → X s)
      → Triple P (at_stage hook stage) (λ _. P) X
  at_stage_Triple stage stable weaker = quiet stable weaker (at_keeps stage)

  abbrev Created : S → Type 0
  Created s = Untouched s × (content s tmp ≡ some [])

  Created-stable : OnContents Created
  Created-stable s t same (h, e) = (Untouched-stable s t same h, same tmp ∙ e)

  module _ (handle : H) (named : path_of handle ≡ tmp) where
    write_Triple : Triple Created (write handle contents) (λ _. Filled) Untouched
    write_Triple = record {
      run = λ s (h, e).
          let t = (write handle contents s).1 in
          let same : Untouched t =
            λ q ne. laws.write_elsewhere s handle contents q (λ p. ne (p ∙ named)) ∙ h q ne in
          Ends-intro (λ _. Filled) Untouched (write handle contents s).0 t
            (λ _ ok. (same, rw named at (laws.write_whole s handle contents [] ok (rw named e))))
            (λ _ _. same);
    }

    fill_temp_Triple :
        Triple Created
          (fill_temp primitives path contents tmp_name hook handle)
          (λ _. Filled)
          Untouched
    unfolding fill_temp
    fill_temp_Triple =
        Triple-bind (at_stage_Triple after_temp_create Created-stable (λ s h. h.0)) λ _.
          Triple-bind (at_stage_Triple during_temp_write Created-stable (λ s h. h.0)) λ _.
            Triple-bind write_Triple λ _.
              Triple-bind (at_stage_Triple after_temp_write Filled-stable (λ s h. h.0)) λ _.
                Triple-bind (quiet Filled-stable (λ s h. h.0) (λ s q. laws.flush_keeps s handle q))
                  λ _. at_stage_Triple after_temp_flush Filled-stable (λ s h. h.0)

    close_Triple :
        Triple Created
          (try_finally (fill_temp primitives path contents tmp_name hook handle) (close handle))
          (λ _. Filled)
          Untouched
    close_Triple =
        Triple-try_finally {cleanup = close handle} fill_temp_Triple
          (λ _.
            quiet {m = close handle} Filled-stable (λ s h. h.0)
              (λ s q. laws.close_keeps s handle q))
          (quiet {m = close handle} Untouched-stable (λ s h. h)
            (λ s q. laws.close_keeps s handle q))

  module _ (apart : tmp ≢ path) where
    rename_Triple : Triple Filled (rename tmp path) (λ _. Renamed) Untouched
    rename_Triple = record {
      run = λ s (h, e).
          let t = (rename tmp path s).1 in
          Ends-intro (λ _. Renamed) Untouched (rename tmp path s).0 t
            (λ _ ok. (
              laws.rename_moves s tmp path ok ∙ e,
              laws.rename_clears s tmp path apart ok,
              λ q a b. laws.rename_elsewhere s tmp path q a b ∙ h q a,
            ))
            (λ error bad q ne. laws.rename_fails s tmp path error q bad ∙ h q ne);
    }

    -- The predicates on the frame: the flag tells the two sides of the rename apart.
    abbrev At : (S → Type 0) → Bool → Frame S → Type 0
    At P b f = P f.world × (f.renamed ≡ b)

    abbrev Interrupted : Frame S → Type 0
    Interrupted f = At Untouched false f ⊎ At Renamed true f

    in_world_Ends :
        (Q X : S → Type 0) (b : Bool) (f : Frame S) (r : Outcome Text (Unit {0})) (s : S)
        → ((g : Frame S) → At X b g → Interrupted g)
        → f.renamed ≡ b
        → Ends (λ _. Q) X r s
        → Ends (λ _. At Q b) Interrupted r (record f { world = s })
    in_world_Ends Q X b f (returns _) s out e h = (h, e)
    in_world_Ends Q X b f (throws _) s out e h = out (record f { world = s }) (h, e)

    in_world_Triple :
        {P X Q : S → Type 0} {m : Action S Text (Unit {0})} (b : Bool)
        → ((f : Frame S) → At X b f → Interrupted f)
        → Triple P m (λ _. Q) X
        → Triple (At P b) (in_world m) (λ _. At Q b) Interrupted
    in_world_Triple {X} {Q} {m} b out t = record {
      run = λ f (p, e). in_world_Ends Q X b f (m f.world).0 (m f.world).1 out e (t.run f.world p);
    }

    set_renamed :
        Triple {E = Text}
          (At Renamed false)
          (λ f. (returns tt, record f { renamed = true }))
          (λ _. At Renamed true)
          Interrupted
    set_renamed = record { run = λ f (h, _). (h, refl) }

    write_and_rename_Triple :
        (handle : H)
        → path_of handle ≡ tmp
        → Triple
            (At Created false)
            (write_and_rename primitives path contents tmp_name hook handle)
            (λ _. At Renamed true)
            Interrupted
    unfolding write_and_rename
    write_and_rename_Triple handle named =
        Triple-bind (in_world_Triple false (λ f h. inl h) (close_Triple handle named)) λ _.
          Triple-bind
            (in_world_Triple false (λ f h. inl h)
              (at_stage_Triple before_rename Filled-stable (λ s h. h.0)))
            λ _. Triple-bind (in_world_Triple false (λ f h. inl h) rename_Triple) λ _.
              Triple-bind set_renamed λ _.
                in_world_Triple true (λ f h. inr h)
                  (at_stage_Triple after_rename Renamed-stable (λ s h. h))

    -- After the cleanup the flag no longer matters.
    abbrev Safe : S → Type 0
    Safe s = Untouched s ⊎ Renamed s

    clean_returned :
        Triple
          (At Renamed true)
          (clean_temp primitives path contents tmp_name hook)
          (λ _ f. Renamed f.world)
          (λ f. Safe f.world)
    unfolding clean_temp
    clean_returned = record { run = λ f (h, e). rw e h }

    clean-Interrupted :
        Triple Interrupted
          (clean_temp primitives path contents tmp_name hook)
          (λ _ f. Safe f.world)
          (λ f. Safe f.world)
    unfolding clean_temp
    clean-Interrupted = record {
      run = λ f h. elim h [
        | inl (old, e) ↦ rw e (
            let t = (remove_file_if_exists tmp f.world).1 in
            let kept : Untouched t = λ q ne. laws.remove_elsewhere f.world tmp q ne ∙ old q ne in
            Ends-intro (λ _ g. Safe g.world) (λ g. Safe g.world)
              (remove_file_if_exists tmp f.world).0 (record { world = t; renamed = false })
              (λ _ _. inl kept) (λ _ _. inl kept))
        | inr (new, e) ↦ rw e (inr new)
      ];
    }

    frame_Ends :
        (r : Outcome Text (Unit {0})) (f : Frame S)
        → Ends (λ _ g. Renamed g.world) (λ g. Safe g.world) r f
        → Ends (λ _. Renamed) Safe r f.world
    frame_Ends (returns _) f h = h
    frame_Ends (throws _) f h = h

    commit_temp_Triple :
        (handle : H)
        → path_of handle ≡ tmp
        → Triple Created
            (commit_temp primitives path contents tmp_name hook handle)
            (λ _. Renamed)
            Safe
    unfolding commit_temp
    commit_temp_Triple handle named =
        let whole =
          Triple-try_finally (write_and_rename_Triple handle named) (λ _. clean_returned)
            clean-Interrupted in
        record {
          run = λ s p. frame_Ends _ _ (whole.run (record { world = s; renamed = false }) (p, refl));
        }

    create_Triple : Triple Untouched (create_temp tmp) (λ h s. Created s × (path_of h ≡ tmp)) Safe
    create_Triple = record {
      run = λ s h.
          let t = (create_temp tmp s).1 in
          let same : Untouched t = λ q ne. laws.create_elsewhere s tmp q ne ∙ h q ne in
          Ends-intro (λ handle u. Created u × (path_of handle ≡ tmp)) Safe (create_temp tmp s).0 t
            (λ handle ok.
              ((same, laws.create_empty s tmp handle ok), laws.create_path s tmp handle ok))
            (λ _ _. inl same);
    }

    perform_Triple :
        Triple Untouched
          (perform_atomic_write primitives path contents tmp_name hook)
          (λ _. Renamed)
          Safe
    unfolding perform_atomic_write
    perform_Triple =
        Triple-bind (at_stage_Triple before_temp_create Untouched-stable (λ s h. inl h)) λ _.
          Triple-bind create_Triple λ handle.
            Triple-bind (record { run = λ s (h, named). (commit_temp_Triple handle named).run s h })
              λ _.
                Triple-bind (at_stage_Triple before_directory_sync Renamed-stable (λ s h. inr h))
                  λ _.
                    Triple-bind
                      (quiet Renamed-stable (λ s h. inr h)
                        (λ s q. laws.sync_keeps s (dir primitives path tmp_name) q))
                      λ _. at_stage_Triple after_directory_sync Renamed-stable (λ s h. inr h)

-- Whichever call throws, if any: when `performAtomicWrite` returns, the target holds the new
-- contents whole, the temp file is gone and no other file changed. When it throws, either no file
-- but the temp file differs from before, or the write is as complete as that.
pub perform_atomic_write_recovery :
    {S H : Type 0} (primitives : AtomicWritePrimitives S H) (content : S → Text → Option Text)
    (path_of : H → Text) (path contents tmp_name : Text) (hook : Option (AtomicWriteHook S)) (s : S)
    → PrimitiveLaws primitives content path_of
    → Hooked hook content
    → tmp_path primitives path tmp_name ≢ path
    → (let tmp = tmp_path primitives path tmp_name in
        let (r, t) = perform_atomic_write primitives path contents tmp_name hook s in
        Ends
          (λ _ t. HoldsNew content path contents tmp (content s) t)
          (λ t.
            KeepsOld content tmp (content s) t ⊎ HoldsNew content path contents tmp (content s) t)
          r
          t)
perform_atomic_write_recovery primitives content path_of path contents tmp_name hook s laws observes
      apart =
    (perform_Triple primitives content path_of laws path contents tmp_name hook observes (content s)
        apart).run
      s (λ q _. refl)
