-- ===== src/Tests/Commit.antt =====
-- A second snapshot is committed to a store of one, as in project-memory/src/store.ts.
use oh_my_pm.Common.{◌≡◌, inl, refl, some, List, [], ◌∷◌, ◌++◌, arith}
use oh_my_pm.Common.Text.{Text, lit, text_eq, includes}
use oh_my_pm.Common.Sort.{sort, insert_sorted}
use oh_my_pm.Common.Sets.{set_add, set_adds}
use oh_my_pm.Common.Json.{Json, string, property, get_field, as_string}
use oh_my_pm.Memory.Errors.{ok}
use oh_my_pm.Memory.Manifest.{SnapshotHistoryEntry, entry_json, well_formed}
use oh_my_pm.Memory.Manifest.Chronology.{Reads, IsChronology}
use oh_my_pm.Memory.Commit.{CommitInput, require_snapshot_captured_at, next_fields, next_body}
use oh_my_pm.Memory.Commit.Keeps.{store}
use oh_my_pm.Memory.Commit.Appends.{new_entry, next_body_appends}
use oh_my_pm.Tests.Manifest.{first_entry, built}

abbrev input : CommitInput
input = record {
  project_id = lit "p";
  occurred_at = lit "2026-01-02";
  snapshot_id = lit "s2";
  captured_at = some (string (lit "2026-01-02"));
  evidence_ids = lit "e1" ∷ [];
}

abbrev history : List Json
history = entry_json first_entry ∷ []

abbrev entry : SnapshotHistoryEntry
entry = new_entry (lit "s2") (lit "2026-01-02") (first_entry ∷ [])

reads : Reads history (first_entry ∷ [])
unfolding well_formed property get_field entry_json text_eq
reads = (refl, tt)

chronology : IsChronology (some (lit "s1")) (lit "s1" ∷ []) (lit "native") (first_entry ∷ [])
unfolding includes
chronology = record {
  origin_known = inl refl;
  size = omega arith;
  named = (((λ e. cc), λ e. cc), tt);
  inventory = (refl, tt);
  once = (refl, tt);
  known = λ a h. h;
  complete = λ a h. h;
  numbered = (refl, tt);
  latest_last = refl;
}

committed :
    next_body input (some built) (lit "k")
    ≡ ok (next_fields input (some built) (lit "k") (lit "2026-01-02"))
unfolding next_body require_snapshot_captured_at next_fields set_add set_adds includes text_eq sort
    insert_sorted
committed = refl

next_body_appends_example :
    (let body = next_fields input (some built) (lit "k") (lit "2026-01-02") in
      (at : Text) × (as_string input.captured_at ≡ some at)
      × (body.snapshot_history
          ≡ some (history ++ entry_json (new_entry (lit "s2") at (first_entry ∷ [])) ∷ []))
      × (body.snapshot_chronology_origin ≡ some (lit "native"))
      × (body.latest_snapshot_id ≡ some (lit "s2"))
      × Reads
          (history ++ entry_json (new_entry (lit "s2") at (first_entry ∷ [])) ∷ [])
          (first_entry ∷ new_entry (lit "s2") at (first_entry ∷ []) ∷ [])
      × IsChronology body.latest_snapshot_id body.snapshot_ids
          (lit "native")
          (first_entry ∷ new_entry (lit "s2") at (first_entry ∷ []) ∷ []))
unfolding includes text_eq
next_body_appends_example =
    next_body_appends input (some built) (lit "k") (lit "s1" ∷ []) (lit "native") history
      (first_entry ∷ []) (next_fields input (some built) (lit "k") (lit "2026-01-02"))
      (store built refl refl refl refl reads chronology) refl (λ e. cc) committed
