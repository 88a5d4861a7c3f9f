-- ===== src/Memory/AtomicWrite/Stages.antt =====
-- A crash at each named stage of project-memory/src/atomic-write.ts, over files in memory.
use oh_my_pm.Common.{
  ℕ, zero, suc, ◌+◌, ◌≡◌, ◌≢◌, none, some, List, [], ◌∷◌, arith, leb, if◌then◌else◌,
}
use oh_my_pm.Common.Text.{Text, lit, text_eq_iff, text_eq_refl}
use oh_my_pm.Common.Action.{throws}
use oh_my_pm.Memory.AtomicWrite.{
  AtomicWriteStage, atomic_write_stages, before_temp_create, tmp_path, perform_atomic_write,
}
use oh_my_pm.Memory.AtomicWrite.Files.{Disk, disk, crash_at, stage_index}

abbrev pub take : {A : Type 0} → ℕ → List A → List A
take zero xs = []
take (suc n) [] = []
take (suc n) (x ∷ xs) = x ∷ take n xs

module _ (path contents tmp_name : Text) (d : Disk) where
  abbrev tmp : Text
  tmp = tmp_path disk path tmp_name

  -- A crash at a stage is thrown on, after exactly the stages up to it. Up to the last stage before
  -- the rename the target is what it was; from the rename on it holds the new contents. No temp
  -- file is left in either case, where there was none and the temp file is not the target.
  pub crash_at_stage :
      (k : AtomicWriteStage)
      → d.files tmp ≡ none
      → tmp ≢ path
      → d.reached ≡ []
      → (let (r, t) = perform_atomic_write disk path contents tmp_name (some (crash_at k)) d in
          (r ≡ throws (lit "crash"))
          × (t.reached ≡ take (stage_index k + 1) atomic_write_stages)
          × (t.files path ≡ (if leb (stage_index k) 5 then d.files path else some contents))
          × (t.files tmp ≡ none))
  unfolding perform_atomic_write
  crash_at_stage before_temp_create free apart fresh =
      ground
        (arith, text_eq_iff tmp path, text_eq_iff path tmp, text_eq_refl tmp, text_eq_refl path)
  crash_at_stage _ free apart fresh =
      ground
        (arith, text_eq_iff tmp path, text_eq_iff path tmp, text_eq_refl tmp, text_eq_refl path)
