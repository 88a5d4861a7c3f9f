-- ===== src/Memory/Lock.antt =====
-- project-memory/src/lock.ts: the single-writer lock of a project. The lock file is what
-- `JSON.parse` makes of its contents, or no file; the filesystem's calls are a parameter, and any of
-- them may throw.
pub mod Outcomes
pub mod Takes
pub mod Quiet
pub mod Steps
pub mod Exclusion
pub mod Race
use oh_my_pm.Common.{ℕ, ◌+◌, Bool, true, false, not, Option, none, some, ◌&&◌, ltb, if◌then◌else◌}
use oh_my_pm.Common.Text.{Text, lit}
use oh_my_pm.Common.Json.{
  Number, natural, Json, number, string, object, end, field, property, as_string, as_number,
}
use oh_my_pm.Common.Action.{Outcome, returns, throws, Action, pure, throw, ◌>>=◌, ◌>>◌}
use oh_my_pm.Memory.Errors.{Thrown, memory_error, ProjectMemoryError, store_locked_code, with_hint}

abbrev pub lock_version : Number
lock_version = natural 1

abbrev pub stale_lock_threshold_ms : ℕ
stale_lock_threshold_ms = 60000

pub record LockRecord : Type 0 where
  pub version : Number
  pub project_key : Text
  pub operation_id : Text
  pub pid : Number
  pub created_at : Text

-- The contents of a lock file: text that is no JSON, or a value.
pub data LockContents : Type 0 where
  not_json : LockContents
  json : Json → LockContents

unfoldable pub serialize : LockRecord → LockContents
serialize r = json (
    object (
      field (lit "lockVersion") (number r.version) (
        field (lit "projectKey") (string r.project_key) (
          field (lit "operationId") (string r.operation_id) (
            field (lit "pid") (number r.pid)
              (field (lit "createdAt") (string r.created_at) end))))))

abbrev pub and_then_option : {A B : Type 0} → Option A → (A → Option B) → Option B
and_then_option none f = none
and_then_option (some a) f = f a

unfoldable pub parse : LockContents → Option LockRecord
parse not_json = none
parse (json value) = and_then_option (as_number (property value (lit "lockVersion"))) λ version.
    and_then_option (as_string (property value (lit "projectKey"))) λ key.
      and_then_option (as_string (property value (lit "operationId"))) λ operation.
        and_then_option (as_number (property value (lit "pid"))) λ pid.
          and_then_option (as_string (property value (lit "createdAt"))) λ created. some (record {
            version = version;
            project_key = key;
            operation_id = operation;
            pid = pid;
            created_at = created;
          })

-- What a caller reads of its surroundings: the reference clock and the probe of processes.
pub record Surroundings : Type 0 where
  pub reference_now : Text
  pub is_process_alive : Number → Bool

-- `Date.parse` is a parameter: the time value in milliseconds, counted from the earliest one that
-- a date can have, and none for NaN.
module _ (date_parse : Text → Option ℕ) where
  -- `ageMs(now, created) > STALE_LOCK_THRESHOLD_MS`; an unparseable time is infinitely old.
  unfoldable pub is_old : Text → Text → Bool
  is_old now created = elim (date_parse now) [
    | none ↦ true
    | some n ↦ elim (date_parse created) [
      | none ↦ true
      | some c ↦ ltb (c + stale_lock_threshold_ms) n
    ]
  ]

  unfoldable pub is_stale : Surroundings → LockRecord → Bool
  unfolding is_old
  is_stale w existing =
      is_old w.reference_now existing.created_at && not (w.is_process_alive existing.pid)

-- The calls on one lock file.
pub record LockCalls (S : Type 0) : Type 0 where
  -- `{ acquired }`
  pub create_lock_exclusive : LockContents → Action S Thrown Bool
  pub read_lock : Action S Thrown (Option LockContents)
  pub remove_lock : Action S Thrown (Unit {0})

abbrev pub locked_by_another : ProjectMemoryError
locked_by_another =
    with_hint store_locked_code "the project store is locked by another writer"
      "retry after it completes"

abbrev pub lock_unreadable : ProjectMemoryError
lock_unreadable =
    with_hint store_locked_code "the project store lock is unreadable"
      "remove a confirmed-dead lock manually if needed"

-- The record of a caller.
unfoldable pub own_record : Surroundings → Number → Text → Text → LockRecord
own_record w pid project_key operation_id = record {
  version = lock_version;
  project_key = project_key;
  operation_id = operation_id;
  pid = pid;
  created_at = w.reference_now;
}

-- After a retried or reclaimed create.
unfoldable pub acquired_or_locked : {S : Type 0} → Bool → Action S Thrown (Unit {0})
acquired_or_locked true = pure tt
acquired_or_locked false = throw (memory_error locked_by_another)

module _ {S : Type 0} (calls : LockCalls S) (date_parse : Text → Option ℕ) (w : Surroundings)
    (mine : LockRecord) where
  unfoldable pub create_again : Action S Thrown (Unit {0})
  create_again = do again ← calls.create_lock_exclusive (serialize mine); acquired_or_locked again

  unfoldable pub reclaim : LockRecord → Action S Thrown (Unit {0})
  reclaim existing =
      if is_stale date_parse w existing
      then (do calls.remove_lock; create_again)
      else throw (memory_error locked_by_another)

  unfoldable pub examine : Option LockRecord → Action S Thrown (Unit {0})
  examine none = throw (memory_error lock_unreadable)
  examine (some existing) = reclaim existing

  unfoldable pub contended : Option LockContents → Action S Thrown (Unit {0})
  contended none = create_again
  contended (some raw) = examine (parse raw)

  unfoldable pub acquire : Action S Thrown (Unit {0})
  acquire = do
    attempt ← calls.create_lock_exclusive (serialize mine)
    if attempt then pure tt else (do raw ← calls.read_lock; contended raw)

-- A run that no other process cuts into. A handle is held when it returns.
unfoldable pub acquire_lock :
    {S : Type 0}
    → LockCalls S
    → (Text → Option ℕ)
    → Surroundings
    → Number
    → Text
    → Text
    → Action S Thrown (Unit {0})
acquire_lock calls date_parse w pid project_key operation_id =
    acquire calls date_parse w (own_record w pid project_key operation_id)

-- `LockHandle.release`
unfoldable pub release : {S : Type 0} → LockCalls S → Action S Thrown (Unit {0})
release calls = calls.remove_lock
