-- ===== src/Tests/Lock.antt =====
-- Lock files of project-memory/src/lock.ts at work.
use oh_my_pm.Common.{Bool, inl, inr, ℕ, ◌≡◌, ◌≢◌, ◌⊎◌, refl, true, false, Option, none, some, arith}
use oh_my_pm.Common.Text.{Text, lit}
use oh_my_pm.Common.Json.{natural}
use oh_my_pm.Common.Action.{Outcome, returns, throws, Ends}
use oh_my_pm.Memory.Errors.{Thrown}
use oh_my_pm.Memory.Lock.{
  LockRecord, LockContents, serialize, LockCalls, Surroundings, is_stale, is_old, own_record,
  acquire_lock,
}
use oh_my_pm.Memory.Lock.Outcomes.{
  parse-serialize, LockLaws, Taken, Left, stale, acquire_lock_outcome,
}
use oh_my_pm.Memory.Lock.Takes.{NeverThrows, acquire_lock_takes}
use oh_my_pm.Memory.Lock.Steps.{attempting, holding, acquire_step, System, turn, Reach, here, next}
use oh_my_pm.Memory.Lock.Exclusion.{acquire_lock_exclusion}
use oh_my_pm.Memory.Lock.Race.{stale_lock_race}

-- No time parses, so every lock is old.
abbrev date_parse : Text → Option ℕ
date_parse _ = none

abbrev mine : ℕ → LockRecord
mine k = record {
  version = natural 1;
  project_key = lit "key";
  operation_id = lit "op";
  pid = natural k;
  created_at = lit "now";
}

abbrev all_alive : Surroundings
all_alive = record { reference_now = lit "now"; is_process_alive = λ _. true }

abbrev all_dead : Surroundings
all_dead = record { reference_now = lit "now"; is_process_alive = λ _. false }

abbrev Living : Surroundings → Type 0
Living w = (k : ℕ) → w.is_process_alive (natural k) ≡ true

abbrev Dead : Surroundings → Type 0
Dead w = w ≡ all_dead

abbrev start_with : Option LockContents → System
start_with file = record { file = file; place = λ _. attempting }

-- The lock file is all of the state, and no call throws.
abbrev created : LockContents → Option LockContents → Outcome Thrown Bool × Option LockContents
created c none = (returns true, some c)
created c (some old) = (returns false, some old)

abbrev one_file : LockCalls (Option LockContents)
one_file = record {
  create_lock_exclusive = created;
  read_lock = λ file. (returns file, file);
  remove_lock = λ file. (returns tt, none);
}

one_file_laws : LockLaws one_file (λ file. file)
one_file_laws = record {
  creates = made;
  creates_not = not_made;
  create_throws = fails;
  read_keeps = λ s. refl;
  reads = λ s found r. ground arith;
  removes = λ s r. refl;
  remove_throws = λ s e r. absurd (ground arith);
}
  where
    made :
        (s : Option LockContents) (c : LockContents)
        → (created c s).0 ≡ returns true
        → (s ≡ none) × ((created c s).1 ≡ some c)
    made none c r = (refl, refl)
    made (some old) c r = absurd (ground arith)

    not_made :
        (s : Option LockContents) (c : LockContents)
        → (created c s).0 ≡ returns false
        → (s ≢ none) × ((created c s).1 ≡ s)
    not_made none c r = absurd (ground arith)
    not_made (some old) c r = (λ e. ground arith, refl)

    fails :
        (s : Option LockContents) (c : LockContents) (e : Thrown)
        → (created c s).0 ≡ throws e
        → (s ≡ none) ⊎ ((created c s).1 ≡ s)
    fails none c e r = inl refl
    fails (some old) c e r = inr refl

-- The lock of a dead process is taken.
acquire_lock_outcome_example :
    Ends
      (λ _.
        Taken one_file
          (λ file. file)
          one_file_laws
          date_parse
          all_dead
          (some (serialize (mine 7)))
          (own_record all_dead (natural 1) (lit "key") (lit "op")))
      (Left one_file (λ file. file) one_file_laws date_parse all_dead (some (serialize (mine 7))))
      (acquire_lock one_file date_parse all_dead
        (natural 1)
        (lit "key")
        (lit "op")
        (some (serialize (mine 7)))).0
      (acquire_lock one_file date_parse all_dead
        (natural 1)
        (lit "key")
        (lit "op")
        (some (serialize (mine 7)))).1
acquire_lock_outcome_example =
    acquire_lock_outcome one_file (λ file. file) one_file_laws date_parse all_dead
      (some (serialize (mine 7))) (natural 1) (lit "key") (lit "op") (some (serialize (mine 7)))
      refl

one_file_calm : NeverThrows one_file
one_file_calm = record {
  create_returns = never;
  read_returns = λ s e h. ground arith;
  remove_returns = λ s e h. ground arith;
}
  where
    never : (s : Option LockContents) (c : LockContents) (e : Thrown) → (created c s).0 ≢ throws e
    never none c e h = ground arith
    never (some old) c e h = ground arith

acquire_lock_takes_example :
    (acquire_lock one_file date_parse all_dead
      (natural 1)
      (lit "key")
      (lit "op")
      (some (serialize (mine 7)))).0
    ≡ returns tt
unfolding is_stale is_old
acquire_lock_takes_example =
    acquire_lock_takes one_file (λ file. file) one_file_laws one_file_calm date_parse all_dead
      (natural 1) (lit "key") (lit "op") (some (serialize (mine 7)))
      (stale (serialize (mine 7)) (mine 7) (parse-serialize (mine 7)) (ground arith))

mine-injective : (k l : ℕ) → k ≢ l → mine k ≢ mine l
mine-injective k l ne e = ground arith

-- The first process takes the lock and the second one reads it.
abbrev two_turns : System
two_turns =
    turn date_parse mine all_alive none 1 (turn date_parse mine all_alive none 0 (start_with none))

acquire_lock_exclusion_example : two_turns.place 1 ≢ holding
unfolding turn acquire_step
acquire_lock_exclusion_example =
    acquire_lock_exclusion date_parse mine Living (start_with none) {s = two_turns} 0 1
      (λ w k a. a k) mine-injective (λ k. refl) (λ w a. tt)
      (next all_alive none 1 (λ k. refl) (next all_alive none 0 (λ k. refl) here))
      (λ e. ground arith) refl

stale_lock_race_example :
    (s : System) × Reach date_parse mine Dead (start_with (some (serialize (mine 7)))) s
    × (s.place 0 ≡ holding)
    × (s.place 1 ≡ holding)
unfolding is_stale is_old
stale_lock_race_example =
    stale_lock_race date_parse mine Dead all_dead (start_with (some (serialize (mine 7)))) 0 1
      (serialize (mine 7)) (mine 7) refl (ground arith) refl (parse-serialize (mine 7)) refl refl
      refl
