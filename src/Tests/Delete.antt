-- ===== src/Tests/Delete.antt =====
-- A project of project-memory/src/store.ts is deleted after its first commit.
use oh_my_pm.Common.{◌≡◌, refl, ◌∙◌, sym, true, false, ◌++◌, arith, Bool-cases, inl, inr}
use oh_my_pm.Common.Text.{Text, lit, text_eq}
use oh_my_pm.Common.Action.{Ends}
use oh_my_pm.Memory.FileSystem.{FileSystem}
use oh_my_pm.Memory.FileSystem.Laws.{FileSystemLaws}
use oh_my_pm.Memory.Store.Write.{commit_snapshot_bundle}
use oh_my_pm.Memory.Store.Write.Readback.{append_cancel}
use oh_my_pm.Memory.Store.Delete.{DeleteProjectMemoryInput, tombstone_of, delete_project}
use oh_my_pm.Memory.Store.Delete.Safe.{MoveDirLaws, Answers, SameOrGone, delete_project_lem}
use oh_my_pm.Tests.Disk.{
  Disk, disk_system, Below, temp_next, folder, begins_with, begins_with-append, begins_with_tells,
  disk_with, disk_with_laws,
}
use oh_my_pm.Tests.Host.{host, input, dir, manifest_file, placed, named}
use oh_my_pm.Tests.Store.{empty_disk}

-- The project's directory is there.
abbrev project_disk : FileSystem Disk
project_disk = disk_with (λ p. text_eq p dir)

abbrev project_disk_laws : FileSystemLaws project_disk (λ disk. disk.files) Below temp_next
project_disk_laws = disk_with_laws (λ p. text_eq p dir)

outside : (d q : Text) → (¬ Below d q) → begins_with (folder d) q ≡ false
outside d q out = elim (Bool-cases (begins_with (folder d) q)) [
  | inl inside ↦ absurd (out (begins_with_tells (folder d) q inside))
  | inr e ↦ e
]

inside : (d q : Text) → Below d q → begins_with (folder d) q ≡ true
inside d q (rest, e) = rw e (begins_with-append (folder d) rest)

disk_dir_laws : MoveDirLaws project_disk (λ disk. disk.files) Below
disk_dir_laws = record {
  dir_elsewhere = λ s from to q a b. rw (outside from q a, outside to q b) refl;
  dir_fails = λ s from to e q r. absurd (ground arith);
  dir_clears = λ s from to q r i. rw (inside from q i) refl;
  removal_clears = λ s d q r i. rw (inside d q i) refl;
}

abbrev deletion : DeleteProjectMemoryInput
deletion = record {
  project_id = lit "p";
  project_root_boundary = lit "/home";
  operation_id = lit "op";
  confirmation = lit "p";
  force_corrupt_delete = false;
}

-- A name that begins with a dot is no name in the directory itself.
apart : (q : Text) → Below dir q → ¬ Below (tombstone_of host project_disk deletion dir) q
apart q (a, e) (b, h) =
    let same =
      append_cancel dir (lit "/" ++ a) (lit ".tombstone-" ++ (lit "op-1/" ++ b)) (sym e ∙ h) in
    absurd (ground arith)

abbrev committed : Disk
committed = (commit_snapshot_bundle host disk_system input empty_disk).1

delete_project_lem_example :
    Ends
      (Answers host project_disk
        (λ disk. disk.files)
        Below
        temp_next
        project_disk_laws
        disk_dir_laws
        deletion
        dir
        manifest_file
        placed
        named
        apart
        committed.files)
      (SameOrGone host project_disk
        (λ disk. disk.files)
        Below
        temp_next
        project_disk_laws
        disk_dir_laws
        deletion
        dir
        manifest_file
        placed
        named
        apart
        committed.files)
      (delete_project host project_disk deletion committed).0
      (delete_project host project_disk deletion committed).1
delete_project_lem_example =
    delete_project_lem host project_disk (λ disk. disk.files) Below temp_next project_disk_laws
      disk_dir_laws deletion dir manifest_file placed named apart committed.files committed
      (λ q. refl)
