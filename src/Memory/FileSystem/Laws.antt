-- ===== src/Memory/FileSystem/Laws.antt =====
-- What the store relies on of the port of project-memory/src/filesystem.ts, seen through the
-- contents of the files. Any call may throw.
use oh_my_pm.Common.{◌≡◌, ◌≢◌, refl, ◌⊎◌, Bool, true, false, if◌then◌else◌, Option, none, some}
use oh_my_pm.Common.Text.{Text, lit}
use oh_my_pm.Common.{◌++◌}
use oh_my_pm.Common.Action.{returns, Action, pure, Ends-intro, Triple}
use oh_my_pm.Memory.Errors.{ProjectMemoryError, Result, ok, err}
use oh_my_pm.Common.{ℕ}
use oh_my_pm.Common.Json.{Number}
use oh_my_pm.Memory.Lock.{LockContents, Surroundings, acquire_lock, release}
use oh_my_pm.Memory.Lock.Quiet.{CallsKeep, acquire_lock-Keeps}
use oh_my_pm.Memory.FileSystem.{
  CommitFailurePoint, Contents, Thrown, FileSystem, of_result, refuse, is_at, fail_point,
}

module _ {S : Type 0} (fs : FileSystem S) where
  open fs use {
    read_file_if_exists, exists, mkdirp, write_file_atomic, move_file, sync_dir, remove_dir,
    lock_calls,
  }

  -- `content s p` is the file at the path `p`; `Inside d p` says that `p` is below the directory
  -- `d`; `temp_beside p n` is the temp file named `n` of an atomic write to `p`.
  pub record FileSystemLaws (content : S → Text → Option Contents) (Inside : Text → Text → Type 0)
      (temp_beside : Text → Text → Text) : Type 0 where
    pub read_keeps : (s : S) (p q : Text) → content (read_file_if_exists p s).1 q ≡ content s q
    pub read_tells :
        (s : S) (p : Text) (found : Option Contents)
        → (read_file_if_exists p s).0 ≡ returns found
        → found ≡ content s p
    pub exists_keeps : (s : S) (p q : Text) → content (exists p s).1 q ≡ content s q
    -- A file that stands there is seen; that no directory does is asked where it matters.
    pub exists_not : (s : S) (p : Text) → (exists p s).0 ≡ returns false → content s p ≡ none
    pub mkdirp_keeps : (s : S) (p q : Text) → content (mkdirp p s).1 q ≡ content s q
    pub sync_keeps : (s : S) (p q : Text) → content (sync_dir p s).1 q ≡ content s q
    pub create_lock_keeps :
        (s : S) (p : Text) (c : LockContents) (q : Text)
        → content ((lock_calls p).create_lock_exclusive c s).1 q ≡ content s q
    pub read_lock_keeps :
        (s : S) (p q : Text) → content ((lock_calls p).read_lock s).1 q ≡ content s q
    pub remove_lock_keeps :
        (s : S) (p q : Text) → content ((lock_calls p).remove_lock s).1 q ≡ content s q
    -- An atomic write replaces all of the file or nothing; its temp file may stay.
    pub write_elsewhere :
        (s : S) (p : Text) (c : Contents) (n q : Text)
        → q ≢ p
        → q ≢ temp_beside p n
        → content (write_file_atomic p c n s).1 q ≡ content s q
    pub write_whole :
        (s : S) (p : Text) (c : Contents) (n : Text)
        → (write_file_atomic p c n s).0 ≡ returns tt
        → content (write_file_atomic p c n s).1 p ≡ some c
    pub write_old_or_new :
        (s : S) (p : Text) (c : Contents) (n : Text)
        → (content (write_file_atomic p c n s).1 p ≡ content s p)
          ⊎ (content (write_file_atomic p c n s).1 p ≡ some c)
    pub temp_inside : (d name n : Text) → Inside d (temp_beside (d ++ lit "/" ++ name) n)
    pub child_inside : (d name : Text) → Inside d (d ++ lit "/" ++ name)
    -- A rename is all or nothing, and what is moved was there.
    pub move_elsewhere :
        (s : S) (from to q : Text)
        → q ≢ from
        → q ≢ to
        → content (move_file from to s).1 q ≡ content s q
    pub move_moves :
        (s : S) (from to : Text)
        → (move_file from to s).0 ≡ returns tt
        → (c : Contents) × (content s from ≡ some c) × (content (move_file from to s).1 to ≡ some c)
    pub remove_elsewhere :
        (s : S) (d q : Text) → (¬ Inside d q) → content (remove_dir d s).1 q ≡ content s q

-- A predicate that depends on the contents of the files alone.
abbrev pub OnContents : {S : Type 0} → (S → Text → Option Contents) → (S → Type 0) → Type 0
OnContents {S} content P = (s t : S) → ((q : Text) → content t q ≡ content s q) → P s → P t

-- An action that changes no file.
pub quiet :
    {S A : Type 0} {P : S → Type 0} {m : Action S Thrown A} (content : S → Text → Option Contents)
    → OnContents content P
    → ((s : S) (q : Text) → content (m s).1 q ≡ content s q)
    → Triple P m (λ _. P) P
quiet {P} {m} content stable same = record {
  run = λ s p.
      Ends-intro (λ _. P) P (m s).0 (m s).1 (λ _ _. stable s (m s).1 (same s) p)
        (λ _ _. stable s (m s).1 (same s) p);
}

pub of_result_Triple :
    {S A : Type 0} {P : S → Type 0} (r : Result A)
    → Triple P (of_result r) (λ a s. P s × (r ≡ ok a)) P
of_result_Triple (ok a) = record { run = λ s p. (p, refl) }
of_result_Triple (err e) = record { run = λ s p. p }

-- Both branches of a test.
pub if_Triple :
    {S A : Type 0} {P X : S → Type 0} {Q : A → S → Type 0} {m n : Action S Thrown A} (b : Bool)
    → (b ≡ true → Triple P m Q X)
    → (b ≡ false → Triple P n Q X)
    → Triple P (if b then m else n) Q X
if_Triple true f g = f refl
if_Triple false f g = g refl

pub pure_Triple :
    {S A : Type 0} {P : S → Type 0} (a : A) → Triple {E = Thrown} P (pure a) (λ _. P) P
pure_Triple a = record { run = λ s p. p }

pub returns_Triple :
    {S A : Type 0} {P X : S → Type 0} {Q : A → S → Type 0} (a : A)
    → ((s : S) → P s → Q a s)
    → Triple {E = Thrown} P (pure a) Q X
returns_Triple a f = record { run = f }

pub refuse_Triple :
    {S A : Type 0} {P : S → Type 0} {Q : A → S → Type 0} (e : ProjectMemoryError)
    → Triple P (refuse e) Q P
refuse_Triple e = record { run = λ s p. p }

pub fail_point_Triple :
    {S : Type 0} {P : S → Type 0} (fs : FileSystem S) (point : CommitFailurePoint)
    → Triple P (fail_point fs point) (λ _. P) P
unfolding fail_point
fail_point_Triple fs point =
    if_Triple (is_at fs.fail_at point) (λ _. refuse_Triple _) (λ _. pure_Triple tt)

-- A fact that no state changes.
pub Triple-fact :
    {S A F : Type 0} {P X : S → Type 0} {Q : A → S → Type 0} {m : Action S Thrown A}
    → (F → Triple P m Q X)
    → Triple (λ s. P s × F) m Q X
Triple-fact first = record { run = λ s h. (first h.1).run s h.0 }

module _ {S : Type 0} {fs : FileSystem S} {content : S → Text → Option Contents}
    {Inside : Text → Text → Type 0} {temp_beside : Text → Text → Text}
    (laws : FileSystemLaws fs content Inside temp_beside) (path : Text) {P : S → Type 0}
    (stable : OnContents content P) where
  lock_calls-Keep : CallsKeep P (fs.lock_calls path)
  lock_calls-Keep = record {
    create_keeps = λ c. quiet content stable (λ s q. laws.create_lock_keeps s path c q);
    read_keeps = quiet content stable (λ s q. laws.read_lock_keeps s path q);
    remove_keeps = quiet content stable (λ s q. laws.remove_lock_keeps s path q);
  }

  -- Taking the lock changes no file, however it ends, and neither does releasing it.
  pub acquire_lock_Triple :
      (date_parse : Text → Option ℕ) (w : Surroundings) (pid : Number)
      (project_key operation_id : Text)
      → Triple P
          (acquire_lock (fs.lock_calls path) date_parse w pid project_key operation_id)
          (λ _. P)
          P
  acquire_lock_Triple date_parse w pid project_key operation_id =
      acquire_lock-Keeps P (fs.lock_calls path) lock_calls-Keep date_parse w pid project_key
        operation_id

  pub release_lock_Triple : Triple P (release (fs.lock_calls path)) (λ _. P) P
  unfolding release
  release_lock_Triple = quiet content stable (λ s q. laws.remove_lock_keeps s path q)
