-- ===== src/Tests/Disk.antt =====
-- A disk that is a function from paths to files, as a filesystem of project-memory/src/filesystem.ts.
use oh_my_pm.Common.{
  ◌≡◌, ◌≢◌, refl, ◌∙◌, inl, inr, Bool, true, false, ◌||◌, Option, none, some, [], ◌∷◌, ◌++◌,
  append_assoc, arith, ◌==◌, if◌then◌else◌, drop, length, Bool-cases,
}
use oh_my_pm.Common.Text.{Text, lit, text_eq, text_eq_iff, text_eq_refl}
use oh_my_pm.Common.Json.{natural}
use oh_my_pm.Common.Action.{Outcome, returns, throws}
use oh_my_pm.Memory.Lock.{LockContents, LockCalls, Surroundings}
use oh_my_pm.Memory.FileSystem.{Contents, Thrown, foreign, FileSystem}
use oh_my_pm.Memory.FileSystem.Laws.{FileSystemLaws}

-- The files and the lock files.
pub record Disk : Type 0 where
  pub files : Text → Option Contents
  pub locks : Text → Option LockContents

abbrev pub replaced : {A : Type 0} → (Text → Option A) → Text → Option A → Text → Option A
replaced f p new q = if text_eq q p then new else f q

unfoldable pub begins_with : Text → Text → Bool
begins_with [] t = true
begins_with (c ∷ p) [] = false
begins_with (c ∷ p) (d ∷ t) = let rest = begins_with p t in if c == d then rest else false

abbrev pub folder : Text → Text
folder dir = dir ++ lit "/"

abbrev pub is_file : Option Contents → Bool
is_file none = false
is_file (some c) = true

abbrev pub moved : Text → Text → Option Contents → Disk → Outcome Thrown (Unit {0}) × Disk
moved from to none disk = (throws (foreign (lit "ENOENT")), disk)
moved from to (some c) disk =
    (returns tt, record disk { files = replaced (replaced disk.files from none) to (some c) })

abbrev pub moved_dir : Text → Text → (Text → Option Contents) → Text → Option Contents
moved_dir from to files q =
    if begins_with (folder from) q
    then none
    else if begins_with (folder to) q
    then files (folder from ++ drop (length (folder to)) q)
    else files q

abbrev pub quiet_world : Surroundings
quiet_world = record { reference_now = lit "2026"; is_process_alive = λ pid. true }

abbrev pub created_lock :
    Text → LockContents → Option LockContents → Disk → Outcome Thrown Bool × Disk
created_lock p c none disk = (returns true, record disk { locks = replaced disk.locks p (some c) })
created_lock p c (some old) disk = (returns false, disk)

abbrev pub disk_lock : Text → LockCalls Disk
disk_lock p = record {
  create_lock_exclusive = λ c disk. created_lock p c (disk.locks p) disk;
  read_lock = λ disk. (returns (disk.locks p), disk);
  remove_lock = λ disk. (returns tt, record disk { locks = replaced disk.locks p none });
}

-- `is_folder` tells which paths are directories.
abbrev pub disk_with : (Text → Bool) → FileSystem Disk
disk_with is_folder = record {
  read_file_if_exists = λ p disk. (returns (disk.files p), disk);
  exists = λ p disk. (returns (is_folder p || is_file (disk.files p)), disk);
  mkdirp = λ p disk. (returns tt, disk);
  write_file_atomic =
      λ p c n disk. (returns tt, record disk { files = replaced disk.files p (some c) });
  move_file = λ from to disk. moved from to (disk.files from) disk;
  sync_dir = λ p disk. (returns tt, disk);
  remove_dir = λ d disk. (
    returns tt,
    record disk { files = λ q. if begins_with (folder d) q then none else disk.files q },
  );
  move_dir = λ from to disk. (returns tt, record disk { files = moved_dir from to disk.files });
  lock_calls = disk_lock;
  surroundings = quiet_world;
  current_pid = natural 7;
  fail_at = none;
}

abbrev pub disk_system : FileSystem Disk
disk_system = disk_with (λ p. false)

abbrev pub Below : Text → Text → Type 0
Below d q = (rest : Text) × (q ≡ folder d ++ rest)

abbrev pub temp_next : Text → Text → Text
temp_next p n = p ++ lit "~"

pub begins_with-append : (p t : Text) → begins_with p (p ++ t) ≡ true
unfolding begins_with
begins_with-append [] t = refl
begins_with-append (c ∷ p) t = ground (arith, begins_with-append p t)

pub begins_with_tells : (p t : Text) → begins_with p t ≡ true → (rest : Text) × (t ≡ p ++ rest)
unfolding begins_with
begins_with_tells [] t h = (t, refl)
begins_with_tells (c ∷ p) [] h = absurd (cc)
begins_with_tells (c ∷ p) (d ∷ t) h =
    let (rest, e) = begins_with_tells p t (ground arith) in (rest, ground arith)

pub not_Below : (d q : Text) → begins_with (folder d) q ≡ false → ¬ Below d q
not_Below d q h (rest, e) =
    let yes' : begins_with (folder d) q ≡ true = rw e (begins_with-append (folder d) rest) in cc

replaced_elsewhere :
    {A : Type 0} (f : Text → Option A) (p q : Text) (new : Option A)
    → q ≢ p
    → replaced f p new q ≡ f q
replaced_elsewhere f p q new ne = ground (arith, text_eq_iff q p)

replaced_here :
    {A : Type 0} (f : Text → Option A) (p : Text) (new : Option A) → replaced f p new p ≡ new
replaced_here f p new = rw (text_eq_refl p)

moved_away :
    (from to : Text) (found : Option Contents) (disk : Disk) (q : Text)
    → q ≢ from
    → q ≢ to
    → (moved from to found disk).1.files q ≡ disk.files q
moved_away from to none disk q a b = refl
moved_away from to (some c) disk q a b =
    replaced_elsewhere (replaced disk.files from none) to q (some c) b
    ∙ replaced_elsewhere disk.files from q none a

moved_there :
    (from to : Text) (found : Option Contents) (disk : Disk)
    → (moved from to found disk).0 ≡ returns tt
    → (c : Contents) × (found ≡ some c) × ((moved from to found disk).1.files to ≡ some c)
moved_there from to none disk h = absurd (ground arith)
moved_there from to (some c) disk h =
    (c, refl, replaced_here (replaced disk.files from none) to (some c))

removed :
    (d : Text) (files : Text → Option Contents) (q : Text)
    → (¬ Below d q)
    → (if begins_with (folder d) q then none else files q) ≡ files q
removed d files q out = elim (Bool-cases (begins_with (folder d) q)) [
  | inl inside ↦ absurd (out (begins_with_tells (folder d) q inside))
  | inr e ↦ rw e
]

created_keeps :
    (p : Text) (c : LockContents) (found : Option LockContents) (disk : Disk) (q : Text)
    → (created_lock p c found disk).1.files q ≡ disk.files q
created_keeps p c none disk q = refl
created_keeps p c (some old) disk q = refl

pub disk_with_laws :
    (is_folder : Text → Bool)
    → FileSystemLaws (disk_with is_folder) (λ disk. disk.files) Below temp_next
disk_with_laws is_folder = record {
  read_keeps = λ s p q. refl;
  read_tells = λ s p found r. ground arith;
  exists_keeps = λ s p q. refl;
  exists_not = λ s p r. no_file (is_folder p) (s.files p) (ground arith);
  mkdirp_keeps = λ s p q. refl;
  sync_keeps = λ s p q. refl;
  create_lock_keeps = λ s p c q. created_keeps p c (s.locks p) s q;
  read_lock_keeps = λ s p q. refl;
  remove_lock_keeps = λ s p q. refl;
  write_elsewhere = λ s p c n q ne temp_ne. replaced_elsewhere s.files p q (some c) ne;
  write_whole = λ s p c n r. replaced_here s.files p (some c);
  write_old_or_new = λ s p c n. inr (replaced_here s.files p (some c));
  temp_inside = λ d name n. (name ++ lit "~", append_assoc (folder d) name (lit "~"));
  child_inside = λ d name. (name, refl);
  move_elsewhere = λ s from to q a b. moved_away from to (s.files from) s q a b;
  move_moves = λ s from to r. moved_there from to (s.files from) s r;
  remove_elsewhere = λ s d q out. removed d s.files q out;
}
  where
    no_file :
        (folder_there : Bool) (found : Option Contents)
        → (folder_there || is_file found) ≡ false
        → found ≡ none
    no_file folder_there none h = refl
    no_file folder_there (some c) h = absurd (ground arith)

pub disk_laws : FileSystemLaws disk_system (λ disk. disk.files) Below temp_next
disk_laws = disk_with_laws (λ p. false)
