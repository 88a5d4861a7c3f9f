-- ===== src/Tests/AtomicWrite.antt =====
-- A write to project-memory/src/atomic-write.ts over files in memory, with a crash on the way.
use oh_my_pm.Common.{◌≡◌, ◌≢◌, ◌⊎◌, refl, none, some, [], if◌then◌else◌, arith}
use oh_my_pm.Common.Text.{Text, lit, text_eq, text_eq_iff}
use oh_my_pm.Common.Action.{throws, Ends}
use oh_my_pm.Memory.AtomicWrite.{
  tmp_path, perform_atomic_write, before_rename, after_rename, atomic_write_stages,
}
use oh_my_pm.Memory.AtomicWrite.Recovery.{KeepsOld, HoldsNew, perform_atomic_write_recovery}
use oh_my_pm.Memory.AtomicWrite.Files.{Disk, disk, crash_at, disk_laws, crash_at_laws}
use oh_my_pm.Memory.AtomicWrite.Stages.{crash_at_stage, take}

abbrev path : Text
path = lit "/store/manifest.json"

abbrev tmp_name : Text
tmp_name = lit ".tmp-1"

abbrev old_file : Disk
old_file = record { files = λ p. if text_eq p path then some (lit "old") else none; reached = [] }

apart : tmp_path disk path tmp_name ≢ path
unfolding text_eq
apart e = ground (arith, text_eq_iff (tmp_path disk path tmp_name) path)

perform_atomic_write_recovery_example :
    (let tmp = tmp_path disk path tmp_name in
      let (r, t) =
        perform_atomic_write disk path
          (lit "new")
          tmp_name
          (some (crash_at before_rename))
          old_file in
      Ends
        (λ _ t. HoldsNew (λ (d : Disk). d.files) path (lit "new") tmp old_file.files t)
        (λ t.
          KeepsOld (λ (d : Disk). d.files) tmp old_file.files t
          ⊎ HoldsNew (λ (d : Disk). d.files) path (lit "new") tmp old_file.files t)
        r
        t)
perform_atomic_write_recovery_example =
    perform_atomic_write_recovery disk (λ d. d.files) (λ p. p) path (lit "new") tmp_name
      (some (crash_at before_rename)) old_file disk_laws (crash_at_laws before_rename) apart

crash_at_stage_example :
    (let (r, t) =
        perform_atomic_write disk path
          (lit "new")
          tmp_name
          (some (crash_at after_rename))
          old_file in
      (r ≡ throws (lit "crash"))
      × (t.reached ≡ take 7 atomic_write_stages)
      × (t.files path ≡ some (lit "new"))
      × (t.files (tmp_path disk path tmp_name) ≡ none))
unfolding text_eq
crash_at_stage_example =
    crash_at_stage path (lit "new") tmp_name old_file after_rename refl apart refl
