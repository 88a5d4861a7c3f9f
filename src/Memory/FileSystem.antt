-- ===== src/Memory/FileSystem.antt =====
-- project-memory/src/filesystem.ts: the port that the store does its input and output through. Its
-- implementation is a parameter. A file's contents are what `JSON.parse` and the shape of a
-- manifest tell of them.
pub mod Laws
pub use oh_my_pm.Memory.Errors.{Thrown, memory_error, foreign}
use oh_my_pm.Common.{ℕ, Bool, true, false, Option, none, some, String, ◌==◌, if◌then◌else◌}
use oh_my_pm.Common.Text.{Text}
use oh_my_pm.Common.Json.{Number, Json}
use oh_my_pm.Common.Action.{Outcome, returns, throws, Action, pure, throw}
use oh_my_pm.Memory.Errors.{
  ProjectMemoryError, Result, ok, err, atomic_commit_failure_code, with_hint,
}
use oh_my_pm.Memory.Manifest.{ProjectStoreManifest}
use oh_my_pm.Memory.Lock.{LockCalls, Surroundings}

pub data CommitFailurePoint : Type 0 where
  after_lock after_staging_created after_first_record_written after_records_moved
        before_manifest_rename after_manifest_rename before_cleanup :
      CommitFailurePoint

-- A text that is no JSON, one of the shape of a manifest, or any other value.
pub data Contents : Type 0 where
  not_json : Contents
  manifest_text : ProjectStoreManifest → Contents
  value_text : Json → Contents

-- The calls that a commit, a deletion and the read paths make.
pub record FileSystem (S : Type 0) : Type 0 where
  pub read_file_if_exists : Text → Action S Thrown (Option Contents)
  pub exists : Text → Action S Thrown Bool
  pub mkdirp : Text → Action S Thrown (Unit {0})
  pub write_file_atomic : Text → Contents → Text → Action S Thrown (Unit {0})
  pub move_file : Text → Text → Action S Thrown (Unit {0})
  pub sync_dir : Text → Action S Thrown (Unit {0})
  pub remove_dir : Text → Action S Thrown (Unit {0})
  pub move_dir : Text → Text → Action S Thrown (Unit {0})
  pub lock_calls : Text → LockCalls S
  pub surroundings : Surroundings
  pub current_pid : Number
  pub fail_at : Option CommitFailurePoint

module _ {S : Type 0} where
  -- A call that changes no state.
  abbrev pub of_result : {A : Type 0} → Result A → Action S Thrown A
  of_result (ok a) = pure a
  of_result (err e) = throw (memory_error e)

  abbrev pub refuse : {A : Type 0} → ProjectMemoryError → Action S Thrown A
  refuse e = throw (memory_error e)

abbrev pub point_number : CommitFailurePoint → ℕ
point_number after_lock = 0
point_number after_staging_created = 1
point_number after_first_record_written = 2
point_number after_records_moved = 3
point_number before_manifest_rename = 4
point_number after_manifest_rename = 5
point_number before_cleanup = 6

abbrev pub injected_failure : CommitFailurePoint → String
injected_failure after_lock = "injected failure at afterLock"
injected_failure after_staging_created = "injected failure at afterStagingCreated"
injected_failure after_first_record_written = "injected failure at afterFirstRecordWritten"
injected_failure after_records_moved = "injected failure at afterRecordsMoved"
injected_failure before_manifest_rename = "injected failure at beforeManifestRename"
injected_failure after_manifest_rename = "injected failure at afterManifestRename"
injected_failure before_cleanup = "injected failure at beforeCleanup"

-- `this.fs.failAt === point`
abbrev pub is_at : Option CommitFailurePoint → CommitFailurePoint → Bool
is_at none point = false
is_at (some at) point = point_number at == point_number point

unfoldable pub fail_point :
    {S : Type 0} → FileSystem S → CommitFailurePoint → Action S Thrown (Unit {0})
fail_point fs point =
    if is_at fs.fail_at point
    then refuse (
        with_hint atomic_commit_failure_code (injected_failure point) "test-only failure injection")
    else pure tt
