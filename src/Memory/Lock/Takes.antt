-- ===== src/Memory/Lock/Takes.antt =====
-- `acquireLock` of project-memory/src/lock.ts takes every lock that is free, where no call throws.
use oh_my_pm.Common.{
  ℕ, ◌≡◌, ◌≢◌, refl, sym, subst, ◌∙◌, Bool, true, false, Option, none, some, if◌then◌else◌,
}
use oh_my_pm.Common.Text.{Text}
use oh_my_pm.Common.Json.{Number}
use oh_my_pm.Common.Action.{
  Outcome, returns, throws, pure, ◌>>=◌, Ends, Ends-intro, Triple, Triple-bind,
}
use oh_my_pm.Memory.Errors.{Thrown}
use oh_my_pm.Memory.Lock.{
  LockRecord, LockContents, serialize, parse, Surroundings, is_stale, LockCalls, own_record,
  acquired_or_locked, create_again, reclaim, examine, contended, acquire, acquire_lock,
}
use oh_my_pm.Memory.Lock.Outcomes.{LockLaws, IsFree, stale}

-- No call throws.
pub record NeverThrows {S : Type 0} (calls : LockCalls S) : Type 0 where
  pub create_returns :
      (s : S) (c : LockContents) (e : Thrown) → (calls.create_lock_exclusive c s).0 ≢ throws e
  pub read_returns : (s : S) (e : Thrown) → (calls.read_lock s).0 ≢ throws e
  pub remove_returns : (s : S) (e : Thrown) → (calls.remove_lock s).0 ≢ throws e

module _ {S : Type 0} (calls : LockCalls S) (file : S → Option LockContents)
    (laws : LockLaws calls file) (calm : NeverThrows calls) (date_parse : Text → Option ℕ)
    (w : Surroundings) (mine : LockRecord) where
  abbrev Never : S → Type 0
  Never s = ⊥

  abbrev Any : Unit {0} → S → Type 0
  Any _ s = Unit

  or_locked : (b : Bool) → Triple (λ _. b ≡ true) (acquired_or_locked b) Any Never
  unfolding acquired_or_locked
  or_locked true = record { run = λ s h. tt }
  or_locked false = record { run = λ s h. absurd (cc) }

  create_again_Triple : Triple (λ s. file s ≡ none) (create_again calls date_parse w mine) Any Never
  unfolding create_again
  create_again_Triple =
      Triple-bind
        (record {
          run = λ s gone.
              Ends-intro (λ b _. b ≡ true) Never (calls.create_lock_exclusive (serialize mine) s).0
                (calls.create_lock_exclusive (serialize mine) s).1 (made s gone)
                (λ e r. calm.create_returns s (serialize mine) e r);
        })
        or_locked
    where
      made :
          (s : S)
          → file s ≡ none
          → (b : Bool) → (calls.create_lock_exclusive (serialize mine) s).0 ≡ returns b
          → b ≡ true
      made s gone true r = refl
      made s gone false r = absurd ((laws.creates_not s (serialize mine) r).0 gone)

  reclaim_Triple :
      (existing : LockRecord)
      → is_stale date_parse w existing ≡ true
      → Triple (λ _. Unit {0}) (reclaim calls date_parse w mine existing) Any Never
  unfolding reclaim
  reclaim_Triple existing old = rw old (
      Triple-bind
        (record {
          run = λ s _.
              Ends-intro (λ _ s. file s ≡ none) Never (calls.remove_lock s).0
                (calls.remove_lock s).1 (λ _ r. laws.removes s r)
                (λ e r. calm.remove_returns s e r);
        })
        (λ _. create_again_Triple))

  examine_Triple :
      (raw : LockContents)
      → IsFree date_parse w (some raw)
      → Triple (λ _. Unit {0}) (examine calls date_parse w mine (parse raw)) Any Never
  unfolding examine
  examine_Triple raw (stale _ existing reads old) = rw reads (reclaim_Triple existing old)

  contended_Triple :
      (raw : Option LockContents)
      → IsFree date_parse w raw
      → Triple (λ s. file s ≡ raw) (contended calls date_parse w mine raw) Any Never
  unfolding contended
  contended_Triple none free = create_again_Triple
  contended_Triple (some raw) free = record { run = λ s _. (examine_Triple raw free).run s tt }

  read_Triple :
      (before : Option LockContents)
      → Triple
          (λ s. file s ≡ before)
          calls.read_lock
          (λ raw s. (file s ≡ raw) × (raw ≡ before))
          Never
  read_Triple before = record {
    run = λ s same.
        Ends-intro (λ raw s. (file s ≡ raw) × (raw ≡ before)) Never (calls.read_lock s).0
          (calls.read_lock s).1
          (λ raw r. (laws.read_keeps s ∙ sym (laws.reads s raw r), laws.reads s raw r ∙ same))
          (λ e r. calm.read_returns s e r);
  }

  attempted_Triple :
      (before : Option LockContents) (attempt : Bool)
      → IsFree date_parse w before
      → Triple
          (λ s. if attempt then Unit {0} else file s ≡ before)
          (if attempt
            then pure tt
            else (do raw ← calls.read_lock; contended calls date_parse w mine raw))
          Any
          Never
  attempted_Triple before true free = record { run = λ s h. tt }
  attempted_Triple before false free = Triple-bind (read_Triple before) λ raw. record {
    run = λ s h. (contended_Triple raw (subst (IsFree date_parse w) (sym h.1) free)).run s h.0;
  }

  create_Triple :
      (before : Option LockContents)
      → Triple
          (λ s. file s ≡ before)
          (calls.create_lock_exclusive (serialize mine))
          (λ attempt s. if attempt then Unit {0} else file s ≡ before)
          Never
  create_Triple before = record {
    run = λ s same.
        Ends-intro (λ attempt s. if attempt then Unit {0} else file s ≡ before) Never
          (calls.create_lock_exclusive (serialize mine) s).0
          (calls.create_lock_exclusive (serialize mine) s).1 (told s same)
          (λ e r. calm.create_returns s (serialize mine) e r);
  }
    where
      told :
          (s : S)
          → file s ≡ before
          → (attempt : Bool) → (calls.create_lock_exclusive (serialize mine) s).0 ≡ returns attempt
          → (if attempt
              then Unit {0}
              else file (calls.create_lock_exclusive (serialize mine) s).1 ≡ before)
      told s same true r = tt
      told s same false r = (laws.creates_not s (serialize mine) r).1 ∙ same

  acquire_Triple :
      (before : Option LockContents)
      → IsFree date_parse w before
      → Triple (λ s. file s ≡ before) (acquire calls date_parse w mine) Any Never
  unfolding acquire
  acquire_Triple before free =
      Triple-bind (create_Triple before) (λ attempt. attempted_Triple before attempt free)

returned :
    {S : Type 0} (r : Outcome Thrown (Unit {0})) (s : S)
    → Ends (λ _ _. Unit {0}) (λ _. ⊥) r s
    → r ≡ returns tt
returned (returns tt) s h = refl
returned (throws e) s h = absurd h

-- A lock that is free to take, by a missing lock file or by one whose record is old and its owner
-- dead, is taken: the call returns, if the calls obey the laws and none of them throws.
pub acquire_lock_takes :
    {S : Type 0} (calls : LockCalls S) (file : S → Option LockContents)
    → LockLaws calls file
    → NeverThrows calls
    → (date_parse : Text → Option ℕ) (w : Surroundings) (pid : Number)
    → (project_key operation_id : Text) (s : S) → IsFree date_parse w (file s)
    → (acquire_lock calls date_parse w pid project_key operation_id s).0 ≡ returns tt
unfolding acquire_lock
acquire_lock_takes calls file laws calm date_parse w pid project_key operation_id s free =
    let mine = own_record w pid project_key operation_id in
    returned (acquire calls date_parse w mine s).0 (acquire calls date_parse w mine s).1
      ((acquire_Triple calls file laws calm date_parse w mine (file s) free).run s refl)
