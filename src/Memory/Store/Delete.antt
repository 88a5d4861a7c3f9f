-- ===== src/Memory/Store/Delete.antt =====
-- `deleteProject` of project-memory/src/store.ts.
pub mod Safe
use oh_my_pm.Common.{Bool, true, false, not, ◌++◌, if◌then◌else◌}
use oh_my_pm.Common.Text.{Text, lit, text_eq}
use oh_my_pm.Common.Action.{Action, pure, ◌>>=◌, ◌>>◌, try_finally}
use oh_my_pm.Memory.Errors.{
  ProjectMemoryError, corruption_code, delete_confirmation_mismatch_code, with_hint, without_hint,
}
use oh_my_pm.Memory.Lock.{acquire_lock, release}
use oh_my_pm.Memory.Paths.{assert_project_data_separation, lock_path_for, project_dir_for}
use oh_my_pm.Memory.Gates.{assert_operation_id}
use oh_my_pm.Memory.FileSystem.{Thrown, FileSystem, of_result, refuse}
use oh_my_pm.Memory.Store.Input.{Host}
use oh_my_pm.Memory.Store.Accept.{assert_id, project_key}
use oh_my_pm.Memory.Store.Verify.{StoreVerification, verify}

pub record DeleteProjectMemoryInput : Type 0 where
  pub project_id : Text
  pub project_root_boundary : Text
  pub operation_id : Text
  pub confirmation : Text
  -- `forceCorruptDelete === true`
  pub force_corrupt_delete : Bool

pub record DeleteResult : Type 0 where
  pub project_id : Text
  pub deleted : Bool

abbrev pub confirmation_differs : ProjectMemoryError
confirmation_differs =
    without_hint delete_confirmation_mismatch_code
      "delete confirmation does not match the project id"

abbrev pub refuses_to_delete : ProjectMemoryError
refuses_to_delete =
    with_hint corruption_code "the store failed verification; refusing to delete"
      "pass forceCorruptDelete to delete a corrupt store"

module _ (host : Host) {S : Type 0} (fs : FileSystem S) (input : DeleteProjectMemoryInput) where
  -- The store is in order, or the caller forces the deletion.
  unfoldable pub check_store : Action S Thrown (Unit {0})
  check_store = if input.force_corrupt_delete then pure tt else (do
    v ← verify host fs input.project_id
    if v.is_ok then pure tt else refuse refuses_to_delete)

  abbrev pub tombstone_of : Text → Text
  tombstone_of dir =
      dir
      ++ lit ".tombstone-"
      ++ input.operation_id
      ++ lit "-"
      ++ host.platform.number_text fs.current_pid

  -- Once the lock is held.
  unfoldable pub delete_locked : Text → Action S Thrown DeleteResult
  delete_locked dir = do
    check_store
    fs.move_dir dir (tombstone_of dir)
    fs.remove_dir (tombstone_of dir)
    pure (record { project_id = input.project_id; deleted = true })

  -- The project's directory is there.
  unfoldable pub delete_present : Text → Action S Thrown DeleteResult
  delete_present dir = do
    let key = project_key host input.project_id
    lock_path ← of_result (lock_path_for host.node_path host.layout key)
    fs.mkdirp host.layout.locks_dir
    acquire_lock (fs.lock_calls lock_path) host.date_parse fs.surroundings fs.current_pid key
        input.operation_id
    try_finally (delete_locked dir) (release (fs.lock_calls lock_path))

  unfoldable pub delete_confirmed : Action S Thrown DeleteResult
  delete_confirmed = do
    dir ← of_result (project_dir_for host.node_path host.layout (project_key host input.project_id))
    present ← fs.exists dir
    if present
        then delete_present dir
        else pure (record { project_id = input.project_id; deleted = false })

  unfoldable pub delete_project : Action S Thrown DeleteResult
  delete_project = do
    of_result (assert_id input.project_id)
    of_result (assert_operation_id host.utf8_byte_length input.operation_id)
    of_result (
        assert_project_data_separation host.node_path host.layout.data_root
          input.project_root_boundary)
    if text_eq input.confirmation input.project_id
        then delete_confirmed
        else refuse confirmation_differs
