-- ===== src/Memory/Lock/Quiet.antt =====
-- What a call of project-memory/src/lock.ts keeps that every call of the filesystem on the lock file
-- keeps.
use oh_my_pm.Common.{ℕ, Bool, true, false, Option, none, some, if◌then◌else◌, Bool-cases, inl, inr}
use oh_my_pm.Common.Text.{Text}
use oh_my_pm.Common.Json.{Number}
use oh_my_pm.Common.Action.{Action, pure, ◌>>=◌, Triple, Triple-bind}
use oh_my_pm.Memory.Errors.{Thrown}
use oh_my_pm.Memory.Lock.{
  LockRecord, LockContents, serialize, parse, Surroundings, is_stale, LockCalls, own_record,
  acquired_or_locked, create_again, reclaim, examine, contended, acquire, acquire_lock,
}

module _ {S : Type 0} (P : S → Type 0) where
  abbrev pub Keeps : {A : Type 0} → Action S Thrown A → Type 0
  Keeps m = Triple P m (λ _. P) P

  pub record CallsKeep (calls : LockCalls S) : Type 0 where
    pub create_keeps : (c : LockContents) → Keeps (calls.create_lock_exclusive c)
    pub read_keeps : Keeps calls.read_lock
    pub remove_keeps : Keeps calls.remove_lock

  module _ (calls : LockCalls S) (keep : CallsKeep calls) (date_parse : Text → Option ℕ)
      (w : Surroundings) where
    acquired_or_locked-Keeps : (b : Bool) → Keeps (acquired_or_locked b)
    unfolding acquired_or_locked
    acquired_or_locked-Keeps true = record { run = λ s p. p }
    acquired_or_locked-Keeps false = record { run = λ s p. p }

    create_again-Keeps : (mine : LockRecord) → Keeps (create_again calls date_parse w mine)
    unfolding create_again
    create_again-Keeps mine =
        Triple-bind (keep.create_keeps (serialize mine)) acquired_or_locked-Keeps

    examine-Keeps :
        (mine : LockRecord) (found : Option LockRecord)
        → Keeps (examine calls date_parse w mine found)
    unfolding examine reclaim
    examine-Keeps mine none = record { run = λ s p. p }
    examine-Keeps mine (some existing) = elim (Bool-cases (is_stale date_parse w existing)) [
      | inl old ↦ rw old (Triple-bind keep.remove_keeps (λ _. create_again-Keeps mine))
      | inr live ↦ rw live (record { run = λ s p. p })
    ]

    contended-Keeps :
        (mine : LockRecord) (raw : Option LockContents)
        → Keeps (contended calls date_parse w mine raw)
    unfolding contended
    contended-Keeps mine none = create_again-Keeps mine
    contended-Keeps mine (some raw) = examine-Keeps mine (parse raw)

    attempted-Keeps :
        (mine : LockRecord) (attempt : Bool)
        → Keeps (
            if attempt
            then pure tt
            else (do raw ← calls.read_lock; contended calls date_parse w mine raw))
    attempted-Keeps mine true = record { run = λ s p. p }
    attempted-Keeps mine false = Triple-bind keep.read_keeps (contended-Keeps mine)

    pub acquire_lock-Keeps :
        (pid : Number) (project_key operation_id : Text)
        → Keeps (acquire_lock calls date_parse w pid project_key operation_id)
    unfolding acquire_lock acquire
    acquire_lock-Keeps pid project_key operation_id =
        Triple-bind (keep.create_keeps _)
          (attempted-Keeps (own_record w pid project_key operation_id))
