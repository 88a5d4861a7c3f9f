-- ===== src/Memory/AtomicWrite/Files.antt =====
-- Files in memory as an implementation of the primitives of project-memory/src/atomic-write.ts,
-- with a hook that notes each stage and throws at a chosen one.
use oh_my_pm.Common.{ℕ, refl, Option, none, some, List, [], ◌∷◌, ◌++◌, arith, ◌==◌, if◌then◌else◌}
use oh_my_pm.Common.Text.{Text, lit, text_eq, text_eq_iff, text_eq_refl}
use oh_my_pm.Common.Action.{returns, throws, Action}
use oh_my_pm.Memory.AtomicWrite.{
  AtomicWritePrimitives, AtomicWriteStage, AtomicWriteHook, before_temp_create, after_temp_create,
  during_temp_write, after_temp_write, after_temp_flush, before_rename, after_rename,
  before_directory_sync, after_directory_sync,
}
use oh_my_pm.Memory.AtomicWrite.Laws.{PrimitiveLaws, HookLaws}

pub record Disk : Type 0 where
  pub files : Text → Option Text
  -- The stages that the hook was called at.
  pub reached : List AtomicWriteStage

abbrev pub update : (Text → Option Text) → Text → Option Text → Text → Option Text
update f p v q = if text_eq p q then v else f q

abbrev pub old_text : Option Text → Text
old_text none = []
old_text (some t) = t

abbrev put : Disk → Text → Option Text → Disk
put d p v = record d { files = update d.files p v }

abbrev disk_create : Text → Action Disk Text Text
disk_create p d = elim (d.files p) [
  | none ↦ (returns p, put d p (some []))
  | some _ ↦ (throws (lit "EEXIST"), d)
]

abbrev disk_rename : Text → Text → Action Disk Text (Unit {0})
disk_rename from to d = elim (d.files from) [
  | none ↦ (throws (lit "ENOENT"), d)
  | some t ↦ (returns tt, put (put d from none) to (some t))
]

abbrev pub disk : AtomicWritePrimitives Disk Text
disk = record {
  create_temp = disk_create;
  write = λ p chunk d. (returns tt, put d p (some (old_text (d.files p) ++ chunk)));
  flush = λ _ d. (returns tt, d);
  close = λ _ d. (returns tt, d);
  rename = disk_rename;
  sync_dir = λ _ d. (returns tt, d);
  remove_file_if_exists = λ p d. (returns tt, put d p none);
  join_path = λ a b. a ++ lit "/" ++ b;
  dir_name = λ _. lit "/store";
}

abbrev pub stage_index : AtomicWriteStage → ℕ
stage_index before_temp_create = 0
stage_index after_temp_create = 1
stage_index during_temp_write = 2
stage_index after_temp_write = 3
stage_index after_temp_flush = 4
stage_index before_rename = 5
stage_index after_rename = 6
stage_index before_directory_sync = 7
stage_index after_directory_sync = 8

abbrev pub crash_at : AtomicWriteStage → AtomicWriteHook Disk
crash_at k stage d =
    let d' = record d { reached = d.reached ++ stage ∷ [] } in
    if stage_index k == stage_index stage then (throws (lit "crash"), d') else (returns tt, d')

pub disk_laws : PrimitiveLaws disk (λ d. d.files) (λ p. p)
disk_laws = record {
  create_elsewhere = λ s p q ne. ground (arith, text_eq_iff p q);
  create_path = λ s p h e. ground arith;
  create_empty = λ s p h e. ground (arith, text_eq_refl p);
  write_elsewhere = λ s h chunk q ne. ground (arith, text_eq_iff h q);
  write_whole = λ s h chunk old e f. ground (arith, text_eq_refl h);
  flush_keeps = λ s h q. refl;
  close_keeps = λ s h q. refl;
  sync_keeps = λ s p q. refl;
  rename_moves = λ s from to e. ground (arith, text_eq_refl to);
  rename_clears = λ s from to ne e. ground (arith, text_eq_iff to from, text_eq_refl from);
  rename_elsewhere = λ s from to q a b. ground (arith, text_eq_iff from q, text_eq_iff to q);
  rename_fails = λ s from to e q h. ground arith;
  remove_elsewhere = λ s p q ne. ground (arith, text_eq_iff p q);
}

pub crash_at_laws : (k : AtomicWriteStage) → HookLaws (crash_at k) (λ d. d.files)
crash_at_laws k = record { hook_keeps = λ s stage q. ground arith }
