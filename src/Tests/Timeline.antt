-- ===== src/Tests/Timeline.antt =====
-- Queries of runtime/src/projectbrain/timeline.ts on a memory that counts its calls.
use oh_my_pm.Common.{ℕ, ◌+◌, ◌≡◌, ◌↔◌, none, some, List, [], ◌∷◌}
use oh_my_pm.Common.Text.{Text, lit}
use oh_my_pm.Common.Json.{natural}
use oh_my_pm.Common.Action.{returns, throws}
use oh_my_pm.Runtime.Timeline.{
  valid, TimelineProjectInput, SnapshotSummary, ChronologyEntry, read_chronology, select_window,
}
use oh_my_pm.Runtime.Timeline.Query.{Deps}
use oh_my_pm.Runtime.Timeline.Chronology.{AllExposed, Ascends, read_chronology_iff}
use oh_my_pm.Runtime.Timeline.Window.{IsWindow, select_window-IsWindow}

abbrev summary : Text → ℕ → SnapshotSummary
summary id n = record {
  snapshot_id = id;
  captured_at = some (lit "t");
  sequence = some (natural n);
}

abbrev entry : Text → ℕ → ChronologyEntry
entry id n = record { snapshot_id = id; capture_sequence = n; captured_at = lit "t" }

abbrev summaries : List SnapshotSummary
summaries = summary (lit "a") 1 ∷ summary (lit "b") 2 ∷ []

abbrev entries : List ChronologyEntry
entries = entry (lit "a") 1 ∷ entry (lit "b") 2 ∷ []

-- The manifest points to the older snapshot.
abbrev deps : Deps ℕ Text Text Text Text
deps = record {
  read_manifest = λ id n. (returns (some (some (lit "a"))), n + 1);
  list_snapshots = λ id n. (returns summaries, n + 1);
  read_snapshot = λ project id n. (returns id, n + 1);
  read_evidence = λ project id n. (returns id, n + 1);
  evidence_refs = λ snapshot. [];
  diff_project_snapshots = λ previous current at policy. returns (lit "change");
  derive_project_timeline = λ captures input. throws (lit "none");
}

abbrev input : Text → TimelineProjectInput
input request = record {
  request_id = request;
  project_id = lit "p";
  compared_at = lit "t";
  limit = some (natural 20);
  before_sequence = none;
  category = none;
  kind = none;
  staleness_policy = record {
    evidence_stale_after_seconds = natural 1;
    max_future_skew_seconds = natural 1;
  };
}

read_chronology_iff_example :
    (read_chronology summaries ≡ valid entries) ↔ (AllExposed summaries entries × Ascends entries)
read_chronology_iff_example = read_chronology_iff summaries entries

select_window-IsWindow_example :
    IsWindow (some (natural 3)) entries (select_window entries (some (natural 3)))
select_window-IsWindow_example = select_window-IsWindow entries (some (natural 3))
