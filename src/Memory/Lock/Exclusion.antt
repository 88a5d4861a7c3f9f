-- ===== src/Memory/Lock/Exclusion.antt =====
-- Mutual exclusion of the lock of project-memory/src/lock.ts, while the owner of every lock file
-- that is met is alive: no lock is then ever reclaimed.
use native.Mathlib.Decide.{ℕ_discrete}
use oh_my_pm.Common.{
  ℕ, ◌≡◌, ◌≢◌, ◌⊎◌, refl, sym, ◌∙◌, subst, true, false, Option, none, some, arith, ◌==◌, ==_iff,
  Bool-cases, Option-cases, inl, inr,
}
use oh_my_pm.Common.Text.{Text}
use oh_my_pm.Memory.Errors.{Thrown, memory_error}
use oh_my_pm.Memory.Lock.{
  LockRecord, LockContents, serialize, parse, Surroundings, is_stale, locked_by_another,
  lock_unreadable,
}
use oh_my_pm.Memory.Lock.Outcomes.{parse-serialize}
use oh_my_pm.Memory.Lock.Steps.{
  Acquire, attempting, reading, retrying, removing, reclaiming, holding, released, refused,
  Leftover, nothing, cut_off, whole, Rejection, left_file, rejected_step, step_with, acquire_step,
  System, put_place, turn, Reach, here, next,
}

-- The owner of a readable lock file is alive.
abbrev pub OwnerLives : Surroundings → Option LockContents → Type 0
OwnerLives w none = Unit
OwnerLives w (some raw) =
    (existing : LockRecord) → parse raw ≡ some existing → w.is_process_alive existing.pid ≡ true

module _ (date_parse : Text → Option ℕ) (mine : ℕ → LockRecord)
    (Allowed : Surroundings → Type 0) where
  -- Not about to take another's lock file away.
  abbrev Calm : Acquire → Type 0
  Calm removing = ⊥
  Calm reclaiming = ⊥
  Calm _ = Unit

  abbrev HoldsOwn : ℕ → Acquire → Option LockContents → Type 0
  HoldsOwn i holding file = file ≡ some (serialize (mine i))
  HoldsOwn i _ file = Unit

  pub record IsExclusive (s : System) : Type 0 where
    pub calm : (i : ℕ) → Calm (s.place i)
    pub owned : (i : ℕ) → HoldsOwn i (s.place i) s.file
    pub lives : (w : Surroundings) → Allowed w → OwnerLives w s.file

  holding-cases : (pc : Acquire) → (pc ≡ holding) ⊎ (pc ≢ holding)
  holding-cases holding = inl refl
  holding-cases attempting = inr (λ e. cc)
  holding-cases reading = inr (λ e. cc)
  holding-cases retrying = inr (λ e. cc)
  holding-cases removing = inr (λ e. cc)
  holding-cases reclaiming = inr (λ e. cc)
  holding-cases released = inr (λ e. cc)
  holding-cases (refused x) = inr (λ e. cc)

  module _
      (members_live : (w : Surroundings) (i : ℕ)
        → Allowed w
        → w.is_process_alive (mine i).pid ≡ true) where
    own_lives : (w : Surroundings) (i : ℕ) → Allowed w → OwnerLives w (some (serialize (mine i)))
    own_lives w i a existing e = ground (arith, parse-serialize (mine i), members_live w i a)

    live-not-stale :
        (w : Surroundings) (existing : LockRecord)
        → w.is_process_alive existing.pid ≡ true
        → is_stale date_parse w existing ≡ false
    unfolding is_stale
    live-not-stale w existing h = ground arith

    -- A live owner's lock file is read, and refused.
    reading_live :
        (w : Surroundings) (i : ℕ) (raw : LockContents)
        → OwnerLives w (some raw)
        → (e : Thrown) × (acquire_step date_parse w (mine i) reading (some raw)
            ≡ (refused e, some raw))
    unfolding acquire_step
    reading_live w i raw l = elim (Option-cases (parse raw)) [
      | inl none_found ↦ (memory_error lock_unreadable, ground arith)
      | inr (existing, found) ↦ (
        memory_error locked_by_another,
        ground (arith, live-not-stale w existing (l existing found)),
      )
    ]

    abbrev Keeps : ℕ → Acquire × Option LockContents → Type 0
    Keeps i r = Calm r.0 × HoldsOwn i r.0 r.1 × ((w : Surroundings) → Allowed w → OwnerLives w r.1)

    abbrev Living : Option LockContents → Type 0
    Living file = (w : Surroundings) → Allowed w → OwnerLives w file

    -- A step of a calm process keeps its own part of the invariant.
    step_Keeps :
        (w : Surroundings) (i : ℕ) (pc : Acquire) (file : Option LockContents)
        → Allowed w
        → Living file
        → Calm pc
        → Keeps i (acquire_step date_parse w (mine i) pc file)
    unfolding acquire_step
    step_Keeps w i attempting none a l c = (tt, refl, λ w' a'. own_lives w' i a')
    step_Keeps w i attempting (some raw) a l c = (tt, tt, l)
    step_Keeps w i reading none a l c = (tt, tt, l)
    step_Keeps w i reading (some raw) a l c =
        let (e, same) = reading_live w i raw (l w a) in subst (Keeps i) (sym same) (tt, tt, l)
    step_Keeps w i retrying none a l c = (tt, refl, λ w' a'. own_lives w' i a')
    step_Keeps w i retrying (some raw) a l c = (tt, tt, l)
    step_Keeps w i holding file a l c = (tt, tt, λ w' a'. tt)
    step_Keeps w i released file a l c = (tt, tt, l)
    step_Keeps w i (refused e) file a l c = (tt, tt, l)
    step_Keeps w i removing file a l c = absurd c
    step_Keeps w i reclaiming file a l c = absurd c

    left-Living :
        (i : ℕ) (l : Leftover) (file : Option LockContents)
        → Living file
        → Living (left_file l (serialize (mine i)) file)
    left-Living i l (some old) living = living
    left-Living i nothing none living = living
    left-Living i cut_off none living = λ w a existing e. absurd (unfold parse in ground arith)
    left-Living i whole none living = λ w a. own_lives w i a

    rejected_step-Keeps :
        (w : Surroundings) (i : ℕ) (r : Rejection) (pc : Acquire) (file : Option LockContents)
        → Living file
        → Calm pc
        → Keeps i (rejected_step date_parse w (mine i) r pc file)
    unfolding rejected_step
    rejected_step-Keeps w i r attempting file l c = (tt, tt, left-Living i r.leftover file l)
    rejected_step-Keeps w i r retrying file l c = (tt, tt, left-Living i r.leftover file l)
    rejected_step-Keeps w i r reading file l c = (tt, tt, l)
    rejected_step-Keeps w i r holding file l c = (tt, tt, l)
    rejected_step-Keeps w i r released file l c = (tt, tt, l)
    rejected_step-Keeps w i r (refused e) file l c = (tt, tt, l)
    rejected_step-Keeps w i r removing file l c = absurd c
    rejected_step-Keeps w i r reclaiming file l c = absurd c

    step_with-Keeps :
        (w : Surroundings) (i : ℕ) (reject : Option Rejection) (pc : Acquire)
        (file : Option LockContents)
        → Allowed w
        → Living file
        → Calm pc
        → Keeps i (step_with date_parse w (mine i) reject pc file)
    step_with-Keeps w i none pc file a l c = step_Keeps w i pc file a l c
    step_with-Keeps w i (some r) pc file a l c = rejected_step-Keeps w i r pc file l c

    -- A calm process that does not hold the lock leaves a lock file that is there.
    step_leaves :
        (w : Surroundings) (i : ℕ) (reject : Option Rejection) (pc : Acquire) (raw : LockContents)
        → Calm pc
        → pc ≢ holding
        → (step_with date_parse w (mine i) reject pc (some raw)).1 ≡ some raw
    unfolding acquire_step rejected_step
    step_leaves w i none holding raw c ne = absurd (ne refl)
    step_leaves w i (some r) holding raw c ne = absurd (ne refl)
    step_leaves w i none removing raw c ne = absurd c
    step_leaves w i (some r) removing raw c ne = absurd c
    step_leaves w i none reclaiming raw c ne = absurd c
    step_leaves w i (some r) reclaiming raw c ne = absurd c
    step_leaves w i none attempting raw c ne = refl
    step_leaves w i (some r) attempting raw c ne = refl
    step_leaves w i none reading raw c ne = refl
    step_leaves w i (some r) reading raw c ne = refl
    step_leaves w i none retrying raw c ne = refl
    step_leaves w i (some r) retrying raw c ne = refl
    step_leaves w i none released raw c ne = refl
    step_leaves w i (some r) released raw c ne = refl
    step_leaves w i none (refused e) raw c ne = refl
    step_leaves w i (some r) (refused e) raw c ne = refl

    module _ (different : (i j : ℕ) → i ≢ j → mine i ≢ mine j) where
      mine-injective : (i j : ℕ) → some (serialize (mine i)) ≡ some (serialize (mine j)) → i ≡ j
      mine-injective i j e = elim (ℕ_discrete i j) [
        | yes same ↦ same
        | no other ↦
            absurd (different i j other (cc (parse-serialize (mine i), parse-serialize (mine j))))
      ]

      keep_theirs :
          (w : Surroundings) (reject : Option Rejection) (i j : ℕ) (pc : Acquire)
          (file : Option LockContents)
          → i ≢ j
          → Calm pc
          → HoldsOwn i pc file
          → file ≡ some (serialize (mine j))
          → (step_with date_parse w (mine i) reject pc file).1 ≡ some (serialize (mine j))
      keep_theirs w reject i j pc file ne c own theirs = elim (holding-cases pc) [
        | inl e ↦
            absurd (ne (mine-injective i j (sym (subst (λ p. HoldsOwn i p file) e own) ∙ theirs)))
        | inr other ↦ rw theirs (step_leaves w i reject pc _ c other)
      ]

      -- Another process's step leaves the lock file of a holder.
      others_leave :
          (w : Surroundings) (reject : Option Rejection) (i j : ℕ) (pc pc' : Acquire)
          (file : Option LockContents)
          → i ≢ j
          → Calm pc
          → HoldsOwn i pc file
          → HoldsOwn j pc' file
          → HoldsOwn j pc' (step_with date_parse w (mine i) reject pc file).1
      others_leave w reject i j pc holding file ne c own theirs =
          keep_theirs w reject i j pc file ne c own theirs
      others_leave w reject i j pc attempting file ne c own theirs = tt
      others_leave w reject i j pc reading file ne c own theirs = tt
      others_leave w reject i j pc retrying file ne c own theirs = tt
      others_leave w reject i j pc removing file ne c own theirs = tt
      others_leave w reject i j pc reclaiming file ne c own theirs = tt
      others_leave w reject i j pc released file ne c own theirs = tt
      others_leave w reject i j pc (refused e) file ne c own theirs = tt

      -- One turn: the process that steps, and any other.
      place_own :
          (P : ℕ → Acquire → Type 0) (place : ℕ → Acquire) (i : ℕ) (pc : Acquire)
          → P i pc
          → ((j : ℕ) → i ≢ j → P j (place j))
          → (j : ℕ) → P j (put_place date_parse mine place i pc j)
      place_own P place i pc own rest j = elim (Bool-cases (i == j)) [
        | inl same ↦ rw same (subst (λ k. P k pc) ((==_iff i j).0 same) own)
        | inr other ↦ rw other (rest j (λ e. ground arith))
      ]

      turn-IsExclusive :
          (w : Surroundings) (reject : Option Rejection) (i : ℕ) (s : System)
          → Allowed w
          → IsExclusive s
          → IsExclusive (turn date_parse mine w reject i s)
      unfolding turn
      turn-IsExclusive w reject i s a h =
          let (c, own, l) = step_with-Keeps w i reject (s.place i) s.file a h.lives (h.calm i) in
          record {
            calm = place_own (λ _. Calm) s.place i _ c (λ j _. h.calm j);
            owned =
                place_own
                  (λ j pc.
                    HoldsOwn j pc (step_with date_parse w (mine i) reject (s.place i) s.file).1)
                  s.place i _ own
                  (λ j ne.
                    others_leave w reject i j (s.place i) (s.place j) s.file ne (h.calm i)
                      (h.owned i) (h.owned j));
            lives = l;
          }

      Reach-IsExclusive :
          {start s : System}
          → IsExclusive start
          → Reach date_parse mine Allowed start s
          → IsExclusive s
      Reach-IsExclusive h here = h
      Reach-IsExclusive h (next w reject i a r) =
          turn-IsExclusive w reject i _ a (Reach-IsExclusive h r)

-- Processes start with `acquireLock`, each with a record of its own, and step in any order, under
-- any surroundings in which they and the owner of a lock file found at the start are alive, and
-- with any of their calls rejected. Then no two of them ever hold the lock at once.
pub acquire_lock_exclusion :
    (date_parse : Text → Option ℕ) (mine : ℕ → LockRecord) (Allowed : Surroundings → Type 0)
    (start : System) {s : System} (i j : ℕ)
    → ((w : Surroundings) (k : ℕ) → Allowed w → w.is_process_alive (mine k).pid ≡ true)
    → ((k l : ℕ) → k ≢ l → mine k ≢ mine l)
    → ((k : ℕ) → start.place k ≡ attempting)
    → ((w : Surroundings) → Allowed w → OwnerLives w start.file)
    → Reach date_parse mine Allowed start s
    → i ≢ j
    → s.place i ≡ holding
    → s.place j ≢ holding
acquire_lock_exclusion date_parse mine Allowed start {s} i j members different fresh lives r apart
      hi hj =
    let owned = (Reach-IsExclusive date_parse mine Allowed members different begins r).owned in
    apart (
      mine-injective date_parse mine Allowed members different i j (
        sym (subst (λ pc. HoldsOwn date_parse mine Allowed i pc s.file) hi (owned i))
        ∙ subst (λ pc. HoldsOwn date_parse mine Allowed j pc s.file) hj (owned j)))
  where
    begins : IsExclusive date_parse mine Allowed start
    begins = record { calm = λ k. rw (fresh k) tt; owned = λ k. rw (fresh k) tt; lives = lives }
