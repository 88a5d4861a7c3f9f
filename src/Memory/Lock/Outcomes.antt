-- ===== src/Memory/Lock/Outcomes.antt =====
-- What `acquireLock` of project-memory/src/lock.ts makes of each lock file it can meet, when no
-- other process cuts in.
use oh_my_pm.Common.{
  ℕ, ◌≡◌, ◌≢◌, refl, sym, subst, ◌∙◌, ◌⊎◌, inl, inr, Bool, true, false, Option, none, some,
  Bool-cases, if◌then◌else◌,
}
use oh_my_pm.Common.Text.{Text, text_eq}
use oh_my_pm.Common.Json.{Number, property}
use oh_my_pm.Common.Action.{returns, throws, pure, ◌>>=◌, Ends, Ends-intro, Triple, Triple-bind}
use oh_my_pm.Memory.Errors.{Thrown}
use oh_my_pm.Memory.Lock.{
  LockRecord, LockContents, serialize, parse, Surroundings, is_stale, LockCalls, own_record,
  acquired_or_locked, create_again, reclaim, examine, contended, acquire, acquire_lock,
}

-- A lock record that was written is read back whole.
pub parse-serialize : (r : LockRecord) → parse (serialize r) ≡ some r
unfolding parse serialize property text_eq
parse-serialize r = refl

-- The lock is free to take: there is no lock file, or one whose record is old and its owner dead.
pub data IsFree (date_parse : Text → Option ℕ) (w : Surroundings)
    : Option LockContents → Type 0 where
  absent : IsFree date_parse w none
  stale :
      (raw : LockContents) (existing : LockRecord)
      → parse raw ≡ some existing
      → is_stale date_parse w existing ≡ true
      → IsFree date_parse w (some raw)

-- What each call does to the lock file. Any of them may throw; a create that throws may leave a file
-- where there was none.
pub record LockLaws {S : Type 0} (calls : LockCalls S) (file : S → Option LockContents)
    : Type 0 where
  pub creates :
      (s : S) (c : LockContents)
      → (calls.create_lock_exclusive c s).0 ≡ returns true
      → (file s ≡ none) × (file (calls.create_lock_exclusive c s).1 ≡ some c)
  pub creates_not :
      (s : S) (c : LockContents)
      → (calls.create_lock_exclusive c s).0 ≡ returns false
      → (file s ≢ none) × (file (calls.create_lock_exclusive c s).1 ≡ file s)
  pub create_throws :
      (s : S) (c : LockContents) (e : Thrown)
      → (calls.create_lock_exclusive c s).0 ≡ throws e
      → (file s ≡ none) ⊎ (file (calls.create_lock_exclusive c s).1 ≡ file s)
  pub read_keeps : (s : S) → file (calls.read_lock s).1 ≡ file s
  pub reads :
      (s : S) (found : Option LockContents) → (calls.read_lock s).0 ≡ returns found → found ≡ file s
  pub removes : (s : S) → (calls.remove_lock s).0 ≡ returns tt → file (calls.remove_lock s).1 ≡ none
  pub remove_throws :
      (s : S) (e : Thrown)
      → (calls.remove_lock s).0 ≡ throws e
      → file (calls.remove_lock s).1 ≡ file s

module _ {S : Type 0} (calls : LockCalls S) (file : S → Option LockContents)
    (laws : LockLaws calls file) (date_parse : Text → Option ℕ) (w : Surroundings)
    (before : Option LockContents) where
  abbrev Same : S → Type 0
  Same s = file s ≡ before

  abbrev Free : Type 0
  Free = IsFree date_parse w before

  -- The caller has taken a free lock.
  abbrev pub Taken : LockRecord → S → Type 0
  Taken mine s = Free × (file s ≡ some (serialize mine))

  -- The lock file is as it was, or the lock was free to take.
  abbrev pub Left : S → Type 0
  Left s = Same s ⊎ Free

  free_none : before ≡ none → Free
  free_none e = subst (IsFree date_parse w) (sym e) absent

  create_Triple :
      (mine : LockRecord)
      → Triple Same
          (calls.create_lock_exclusive (serialize mine))
          (λ b s. if b then Taken mine s else Same s)
          Left
  create_Triple mine = record {
    run = λ s same.
        Ends-intro (λ b s. if b then Taken mine s else Same s) Left
          (calls.create_lock_exclusive (serialize mine) s).0
          (calls.create_lock_exclusive (serialize mine) s).1 (λ b r. created_tells s same b r)
          (λ e r. elim (laws.create_throws s (serialize mine) e r) [
            | inl gone ↦ inr (free_none (sym same ∙ gone))
            | inr kept ↦ inl (kept ∙ same)
          ]);
  }
    where
      created_tells :
          (s : S)
          → Same s
          → (b : Bool) → (calls.create_lock_exclusive (serialize mine) s).0 ≡ returns b
          → (if b
              then Taken mine (calls.create_lock_exclusive (serialize mine) s).1
              else Same (calls.create_lock_exclusive (serialize mine) s).1)
      created_tells s same true r =
          let (gone, made) = laws.creates s (serialize mine) r in
          (free_none (sym same ∙ gone), made)
      created_tells s same false r = (laws.creates_not s (serialize mine) r).1 ∙ same

  or_locked :
      (mine : LockRecord) (b : Bool)
      → Triple
          (λ s. if b then Taken mine s else Left s)
          (acquired_or_locked b)
          (λ _. Taken mine)
          Left
  unfolding acquired_or_locked
  or_locked mine true = record { run = λ s h. h }
  or_locked mine false = record { run = λ s h. h }

  -- On a lock that is known to be free, nothing is asked of what stands there by now but at the end.
  create_again_Triple :
      (mine : LockRecord)
      → Free
      → Triple (λ _. Unit {0}) (create_again calls date_parse w mine) (λ _. Taken mine) Left
  unfolding create_again
  create_again_Triple mine free =
      Triple-bind
        (record {
          run = λ s _.
              Ends-intro (λ b s. if b then Taken mine s else Left s) Left
                (calls.create_lock_exclusive (serialize mine) s).0
                (calls.create_lock_exclusive (serialize mine) s).1 (made s) (λ e r. inr free);
        })
        (or_locked mine)
    where
      made :
          (s : S) (b : Bool)
          → (calls.create_lock_exclusive (serialize mine) s).0 ≡ returns b
          → (if b
              then Taken mine (calls.create_lock_exclusive (serialize mine) s).1
              else Left (calls.create_lock_exclusive (serialize mine) s).1)
      made s true r = (free, (laws.creates s (serialize mine) r).1)
      made s false r = inr free

  reclaim_Triple :
      (mine existing : LockRecord) (raw : LockContents)
      → before ≡ some raw
      → parse raw ≡ some existing
      → Triple Same (reclaim calls date_parse w mine existing) (λ _. Taken mine) Left
  unfolding reclaim
  reclaim_Triple mine existing raw there reads =
      elim (Bool-cases (is_stale date_parse w existing)) [
        | inl old ↦
            let free : Free =
              subst (IsFree date_parse w) (sym there) (stale raw existing reads old) in
            rw old (
              Triple-bind
                (record {
                  run = λ s same.
                      Ends-intro (λ _ _. Unit {0}) Left (calls.remove_lock s).0
                        (calls.remove_lock s).1 (λ _ _. tt) (λ e r. inr free);
                })
                (λ _. create_again_Triple mine free))
        | inr live ↦ rw live (record { run = λ s same. inl same })
      ]

  examine_Triple :
      (mine : LockRecord) (raw : LockContents) (found : Option LockRecord)
      → before ≡ some raw
      → parse raw ≡ found
      → Triple Same (examine calls date_parse w mine found) (λ _. Taken mine) Left
  unfolding examine
  examine_Triple mine raw none there reads = record { run = λ s same. inl same }
  examine_Triple mine raw (some existing) there reads = reclaim_Triple mine existing raw there reads

  contended_Triple :
      (mine : LockRecord) (raw : Option LockContents)
      → Triple
          (λ s. Same s × (raw ≡ before))
          (contended calls date_parse w mine raw)
          (λ _. Taken mine)
          Left
  unfolding contended
  contended_Triple mine none = record {
    run = λ s h. (create_again_Triple mine (free_none (sym h.1))).run s tt;
  }
  contended_Triple mine (some raw) = record {
    run = λ s h. (examine_Triple mine raw (parse raw) (sym h.1) refl).run s h.0;
  }

  read_Triple : Triple Same calls.read_lock (λ raw s. Same s × (raw ≡ before)) Left
  read_Triple = record {
    run = λ s same.
        Ends-intro (λ raw s. Same s × (raw ≡ before)) Left (calls.read_lock s).0
          (calls.read_lock s).1 (λ raw r. (laws.read_keeps s ∙ same, laws.reads s raw r ∙ same))
          (λ e r. inl (laws.read_keeps s ∙ same));
  }

  attempted_Triple :
      (mine : LockRecord) (attempt : Bool)
      → Triple
          (λ s. if attempt then Taken mine s else Same s)
          (if attempt
            then pure tt
            else (do raw ← calls.read_lock; contended calls date_parse w mine raw))
          (λ _. Taken mine)
          Left
  attempted_Triple mine true = record { run = λ s h. h }
  attempted_Triple mine false = Triple-bind read_Triple (contended_Triple mine)

  -- Whichever call throws: if the lock is taken, it was free, and the lock file holds the caller's
  -- record. If it is not, the lock file is as it was, or the lock was free to take; so the file of a
  -- lock that is not free is never changed. The calls obey the laws.
  pub acquire_lock_outcome :
      (pid : Number) (project_key operation_id : Text) (s : S)
      → file s ≡ before
      → Ends
          (λ _. Taken (own_record w pid project_key operation_id))
          Left
          (acquire_lock calls date_parse w pid project_key operation_id s).0
          (acquire_lock calls date_parse w pid project_key operation_id s).1
  unfolding acquire_lock acquire
  acquire_lock_outcome pid project_key operation_id s same =
      (Triple-bind (create_Triple (own_record w pid project_key operation_id))
          (attempted_Triple (own_record w pid project_key operation_id))).run
        s same
