-- ===== src/Memory/Lock/Steps.antt =====
-- `acquireLock` of project-memory/src/lock.ts cut at its awaits: one step for each call of the
-- filesystem, with the code up to the next one. `turn` lets one of many processes make a step.
use oh_my_pm.Common.{ℕ, Bool, true, false, Option, none, some, ◌==◌, if◌then◌else◌}
use oh_my_pm.Common.Text.{Text}
use oh_my_pm.Memory.Errors.{Thrown, memory_error}
use oh_my_pm.Memory.Lock.{
  LockRecord, LockContents, not_json, serialize, parse, Surroundings, is_stale, locked_by_another,
  lock_unreadable,
}

-- The call that a process makes next, and how its `acquireLock` ended, or its release.
pub data Acquire : Type 0 where
  attempting reading retrying removing reclaiming holding released : Acquire
  refused : Thrown → Acquire

-- What a rejected create has left: no file, a part of one, or all of it.
pub data Leftover : Type 0 where
  nothing cut_off whole : Leftover

-- A call that throws.
pub record Rejection : Type 0 where
  pub error : Thrown
  pub leftover : Leftover

-- The exclusive create of a file: whether it was made, and the file.
abbrev pub create_file : LockContents → Option LockContents → Bool × Option LockContents
create_file contents none = (true, some contents)
create_file contents (some old) = (false, some old)

abbrev pub left_file : Leftover → LockContents → Option LockContents → Option LockContents
left_file leftover contents (some old) = some old
left_file nothing contents none = none
left_file cut_off contents none = some not_json
left_file whole contents none = some contents

module _ (date_parse : Text → Option ℕ) (w : Surroundings) (mine : LockRecord) where
  after_create : Acquire → Bool × Option LockContents → Acquire × Option LockContents
  after_create other (true, file) = (holding, file)
  after_create other (false, file) = (other, file)

  -- The synchronous code between `readLock` and the next call.
  decide_found : Option LockRecord → Acquire
  decide_found none = refused (memory_error lock_unreadable)
  decide_found (some existing) =
      if is_stale date_parse w existing then removing else refused (memory_error locked_by_another)

  decide_read : Option LockContents → Acquire
  decide_read none = retrying
  decide_read (some raw) = decide_found (parse raw)

  -- The call succeeds. A holder's step is its release.
  unfoldable pub acquire_step : Acquire → Option LockContents → Acquire × Option LockContents
  unfolding after_create decide_found decide_read
  acquire_step attempting file = after_create reading (create_file (serialize mine) file)
  acquire_step reading file = (decide_read file, file)
  acquire_step retrying file =
      after_create (refused (memory_error locked_by_another)) (create_file (serialize mine) file)
  acquire_step removing file = (reclaiming, none)
  acquire_step reclaiming file =
      after_create (refused (memory_error locked_by_another)) (create_file (serialize mine) file)
  acquire_step holding file = (released, none)
  acquire_step released file = (released, file)
  acquire_step (refused e) file = (refused e, file)

  -- The call throws, and so does `acquireLock` or the release.
  unfoldable pub rejected_step :
      Rejection → Acquire → Option LockContents → Acquire × Option LockContents
  rejected_step r attempting file = (refused r.error, left_file r.leftover (serialize mine) file)
  rejected_step r retrying file = (refused r.error, left_file r.leftover (serialize mine) file)
  rejected_step r reclaiming file = (refused r.error, left_file r.leftover (serialize mine) file)
  rejected_step r reading file = (refused r.error, file)
  rejected_step r removing file = (refused r.error, file)
  rejected_step r holding file = (refused r.error, file)
  rejected_step r released file = (released, file)
  rejected_step r (refused e) file = (refused e, file)

  abbrev pub step_with :
      Option Rejection → Acquire → Option LockContents → Acquire × Option LockContents
  step_with none = acquire_step
  step_with (some r) = rejected_step r

-- Processes are numbered; each has its own record and its place in `acquireLock`.
pub record System : Type 0 where
  pub file : Option LockContents
  pub place : ℕ → Acquire

module _ (date_parse : Text → Option ℕ) (mine : ℕ → LockRecord) where
  abbrev pub put_place : (ℕ → Acquire) → ℕ → Acquire → ℕ → Acquire
  put_place place i pc j = if i == j then pc else place j

  unfoldable pub turn : Surroundings → Option Rejection → ℕ → System → System
  turn w reject i s =
      let (pc, file) = step_with date_parse w (mine i) reject (s.place i) s.file in
      record { file = file; place = put_place s.place i pc }

  -- What any schedule reaches, with surroundings chosen anew at each step, and with any of the calls
  -- rejected.
  pub data Reach (Allowed : Surroundings → Type 0) (start : System) : System → Type 0 where
    here : Reach Allowed start start
    next :
        {s : System} (w : Surroundings) (reject : Option Rejection) (i : ℕ)
        → Allowed w
        → Reach Allowed start s
        → Reach Allowed start (turn w reject i s)
