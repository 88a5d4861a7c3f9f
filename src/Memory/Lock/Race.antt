-- ===== src/Memory/Lock/Race.antt =====
-- Reclaiming a stale lock in project-memory/src/lock.ts is not one step: `removeLock` removes
-- whatever file stands there by then.
use oh_my_pm.Common.{none, ℕ, ◌≡◌, ◌≢◌, refl, true, Option, some, arith, ==_iff}
use oh_my_pm.Common.Text.{Text}
use oh_my_pm.Memory.Lock.{LockRecord, LockContents, serialize, parse, Surroundings, is_stale}
use oh_my_pm.Memory.Lock.Steps.{
  Acquire, attempting, reading, removing, holding, acquire_step, System, turn, Reach, here, next,
}

module _ (date_parse : Text → Option ℕ) (mine : ℕ → LockRecord) (Allowed : Surroundings → Type 0)
    (w : Surroundings) (start : System) (i j : ℕ) (raw : LockContents) (existing : LockRecord) where
  abbrev step : ℕ → System → System
  step = turn date_parse mine w none

  -- Both read the stale lock before either removes it.
  abbrev raced : System
  raced = step j (step j (step i (step i (step j (step j (step i (step i start)))))))

  -- Where the two stand, and the lock file.
  record Looks (p q : Acquire) (file : Option LockContents) (s : System) : Type 0 where
    at_i : s.place i ≡ p
    at_j : s.place j ≡ q
    found : s.file ≡ file

  module _ (apart : i ≢ j) where
    step_i :
        {p q p' : Acquire} {f f' : Option LockContents} {s : System}
        → acquire_step date_parse w (mine i) p f ≡ (p', f')
        → Looks p q f s
        → Looks p' q f' (step i s)
    unfolding turn
    step_i e h = ground (arith, ==_iff i i, ==_iff i j)

    step_j :
        {p q q' : Acquire} {f f' : Option LockContents} {s : System}
        → acquire_step date_parse w (mine j) q f ≡ (q', f')
        → Looks p q f s
        → Looks p q' f' (step j s)
    unfolding turn
    step_j e h = ground (arith, ==_iff j j, ==_iff j i)

    reading_stale :
        (k : ℕ)
        → parse raw ≡ some existing
        → is_stale date_parse w existing ≡ true
        → acquire_step date_parse w (mine k) reading (some raw) ≡ (removing, some raw)
    unfolding acquire_step
    reading_stale k p stale = ground arith

    raced-Looks :
        parse raw ≡ some existing
        → is_stale date_parse w existing ≡ true
        → Looks attempting attempting (some raw) start
        → Looks holding holding (some (serialize (mine j))) raced
    unfolding acquire_step
    raced-Looks p stale h = step_j refl (
        step_j refl (
          step_i refl (
            step_i refl (
              step_j (reading_stale j p stale)
                (step_j refl (step_i (reading_stale i p stale) (step_i refl h)))))))

  -- Whenever two processes meet a readable lock file that is old and whose owner is dead, a schedule
  -- of their steps makes both of them hold the lock at the same time: the second removes the lock
  -- file that the first has just created.
  pub stale_lock_race :
      Allowed w
      → i ≢ j
      → start.file ≡ some raw
      → parse raw ≡ some existing
      → is_stale date_parse w existing ≡ true
      → start.place i ≡ attempting
      → start.place j ≡ attempting
      → (s : System) × Reach date_parse mine Allowed start s
        × (s.place i ≡ holding)
        × (s.place j ≡ holding)
  stale_lock_race a ne f p stale pi pj =
      let looks = raced-Looks ne p stale (record { at_i = pi; at_j = pj; found = f }) in
      (
        raced,
        next w none j a (
            next w none j a (
              next w none i a (
                next w none i a
                  (next w none j a (next w none j a (next w none i a (next w none i a here))))))),
        looks.at_i,
        looks.at_j,
      )
