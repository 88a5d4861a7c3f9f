-- ===== src/Memory/AtomicWrite/Laws.antt =====
-- What the algorithm of project-memory/src/atomic-write.ts relies on: each primitive is one
-- filesystem call, seen through the contents of the files. Any of them may throw.
use oh_my_pm.Common.{◌≡◌, ◌≢◌, Option, none, some, ◌++◌, []}
use oh_my_pm.Common.Text.{Text}
use oh_my_pm.Common.Action.{returns, throws}
use oh_my_pm.Memory.AtomicWrite.{AtomicWritePrimitives, AtomicWriteStage, AtomicWriteHook}

module _ {S H : Type 0} (primitives : AtomicWritePrimitives S H) where
  open primitives use {create_temp, write, flush, close, rename, sync_dir, remove_file_if_exists}

  -- `content s p` is what stands at the path `p`; `path_of h` is the path of a handle.
  pub record PrimitiveLaws (content : S → Text → Option Text) (path_of : H → Text) : Type 0 where
    -- Creating touches its own path only, and on success gives an empty file.
    pub create_elsewhere :
        (s : S) (p q : Text) → q ≢ p → content (create_temp p s).1 q ≡ content s q
    pub create_path : (s : S) (p : Text) (h : H) → (create_temp p s).0 ≡ returns h → path_of h ≡ p
    pub create_empty :
        (s : S) (p : Text) (h : H)
        → (create_temp p s).0 ≡ returns h
        → content (create_temp p s).1 p ≡ some []
    -- A write may stop half way, but only in its own file.
    pub write_elsewhere :
        (s : S) (h : H) (chunk q : Text)
        → q ≢ path_of h
        → content (write h chunk s).1 q ≡ content s q
    pub write_whole :
        (s : S) (h : H) (chunk old : Text)
        → (write h chunk s).0 ≡ returns tt
        → content s (path_of h) ≡ some old
        → content (write h chunk s).1 (path_of h) ≡ some (old ++ chunk)
    pub flush_keeps : (s : S) (h : H) (q : Text) → content (flush h s).1 q ≡ content s q
    pub close_keeps : (s : S) (h : H) (q : Text) → content (close h s).1 q ≡ content s q
    pub sync_keeps : (s : S) (p q : Text) → content (sync_dir p s).1 q ≡ content s q
    -- A rename is atomic: all of it, or nothing.
    pub rename_moves :
        (s : S) (from to : Text)
        → (rename from to s).0 ≡ returns tt
        → content (rename from to s).1 to ≡ content s from
    pub rename_clears :
        (s : S) (from to : Text)
        → from ≢ to
        → (rename from to s).0 ≡ returns tt
        → content (rename from to s).1 from ≡ none
    pub rename_elsewhere :
        (s : S) (from to q : Text)
        → q ≢ from
        → q ≢ to
        → content (rename from to s).1 q ≡ content s q
    pub rename_fails :
        (s : S) (from to e q : Text)
        → (rename from to s).0 ≡ throws e
        → content (rename from to s).1 q ≡ content s q
    pub remove_elsewhere :
        (s : S) (p q : Text) → q ≢ p → content (remove_file_if_exists p s).1 q ≡ content s q

-- A hook observes; it may throw.
pub record HookLaws {S : Type 0} (hook : AtomicWriteHook S) (content : S → Text → Option Text)
    : Type 0 where
  pub hook_keeps :
      (s : S) (stage : AtomicWriteStage) (q : Text) → content (hook stage s).1 q ≡ content s q
