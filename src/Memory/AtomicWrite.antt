-- ===== src/Memory/AtomicWrite.antt =====
-- project-memory/src/atomic-write.ts: temp file, flush, rename, directory sync. The filesystem
-- primitives are an interface there and here; a thrown value is a string. The local variable
-- `renamed` is a field beside the filesystem's state.
pub mod Laws
pub mod Recovery
pub mod Files
pub mod Stages
use oh_my_pm.Common.{Bool, true, false, Option, none, some, List, [], ◌∷◌, if◌then◌else◌}
use oh_my_pm.Common.Text.{Text}
use oh_my_pm.Common.Action.{Outcome, returns, throws, Action, pure, throw, ◌>>=◌, ◌>>◌, try_finally}

pub data AtomicWriteStage : Type 0 where
  before_temp_create after_temp_create during_temp_write after_temp_write after_temp_flush
        before_rename after_rename before_directory_sync after_directory_sync :
      AtomicWriteStage

abbrev pub atomic_write_stages : List AtomicWriteStage
atomic_write_stages =
    before_temp_create ∷ after_temp_create ∷ during_temp_write ∷ after_temp_write ∷ after_temp_flush
    ∷ before_rename ∷ after_rename ∷ before_directory_sync ∷ after_directory_sync ∷ []

-- A handle `H` is what `createTemp` gives; its methods are primitives too.
pub record AtomicWritePrimitives (S H : Type 0) : Type 0 where
  pub create_temp : Text → Action S Text H
  pub write : H → Text → Action S Text (Unit {0})
  pub flush : H → Action S Text (Unit {0})
  pub close : H → Action S Text (Unit {0})
  pub rename : Text → Text → Action S Text (Unit {0})
  pub sync_dir : Text → Action S Text (Unit {0})
  pub remove_file_if_exists : Text → Action S Text (Unit {0})
  pub join_path : Text → Text → Text
  pub dir_name : Text → Text

abbrev pub AtomicWriteHook : Type 0 → Type 0
AtomicWriteHook S = AtomicWriteStage → Action S Text (Unit {0})

-- The state of the filesystem and the local `renamed`.
pub record Frame (S : Type 0) : Type 0 where
  pub world : S
  pub renamed : Bool

-- A statement that leaves `renamed` alone.
abbrev pub in_world : {S A : Type 0} → Action S Text A → Action (Frame S) Text A
in_world m f = let (r, s) = m f.world in (r, record f { world = s })

-- `at(stage)`
unfoldable pub at_stage : {S : Type 0} → Option (AtomicWriteHook S) → AtomicWriteHook S
at_stage none stage = pure tt
at_stage (some hook) stage = hook stage

module _ {S H : Type 0} (primitives : AtomicWritePrimitives S H) (path tmp_name : Text) where
  open primitives use {join_path, dir_name}

  abbrev pub dir : Text
  dir = dir_name path

  abbrev pub tmp_path : Text
  tmp_path = join_path dir tmp_name

module _ {S H : Type 0} (primitives : AtomicWritePrimitives S H) (path contents : Text)
    (tmp_name : Text) (hook : Option (AtomicWriteHook S)) where
  open primitives use {create_temp, write, flush, close, rename, sync_dir, remove_file_if_exists}

  abbrev at : AtomicWriteStage → Action S Text (Unit {0})
  at = at_stage hook

  abbrev tmp : Text
  tmp = tmp_path primitives path tmp_name

  -- The inner `try`, up to the flush.
  pub fill_temp : H → Action S Text (Unit {0})
  fill_temp handle = do
    at after_temp_create
    at during_temp_write
    write handle contents
    at after_temp_write
    flush handle
    at after_temp_flush

  -- The body of the outer `try`.
  pub write_and_rename : H → Action (Frame S) Text (Unit {0})
  write_and_rename handle = do
    in_world (try_finally (fill_temp handle) (close handle))
    in_world (at before_rename)
    in_world (rename tmp path)
    (λ f. (returns tt, record f { renamed = true }))
    in_world (at after_rename)

  -- The outer `finally`.
  pub clean_temp : Action (Frame S) Text (Unit {0})
  clean_temp f = if f.renamed then (returns tt, f) else in_world (remove_file_if_exists tmp) f

  -- The call starts with `renamed` false; the frame ends with the call.
  unfoldable pub commit_temp : H → Action S Text (Unit {0})
  unfolding write_and_rename clean_temp fill_temp at_stage
  commit_temp handle s =
      let (r, f) =
        try_finally (write_and_rename handle) clean_temp (record { world = s; renamed = false }) in
      (r, f.world)

  unfoldable pub perform_atomic_write : Action S Text (Unit {0})
  unfolding commit_temp
  perform_atomic_write = do
    at before_temp_create
    handle ← create_temp tmp
    commit_temp handle
    at before_directory_sync
    sync_dir (dir primitives path tmp_name)
    at after_directory_sync
