-- ===== src/Runtime/Timeline/Query.antt =====
-- `loadSnapshot` and `timelineProject` of runtime/src/projectbrain/timeline.ts.
use oh_my_pm.Common.{
  ℕ, Bool, true, false, not, Option, none, some, List, [], ◌∷◌, ◌++◌, length, get_last?, ltb,
  String, if◌then◌else◌,
}
use oh_my_pm.Common.Text.{Text, text_eq, includes}
use oh_my_pm.Common.Sets.{sort_texts}
use oh_my_pm.Common.Action.{Outcome, returns, throws, Action, pure, throw, ◌>>=◌, ◌>>◌}
use oh_my_pm.Runtime.Timeline.{
  RuntimeErrorCode, ProjectBrainRuntimeError, kernel_failed_code, timeline_failed_code, Thrown,
  runtime_error, other_error, Checked, valid, refused, plain_error, stored_record_read_failed,
  StalenessPolicy, TimelineProjectInput, validate_timeline_input, SnapshotSummary, ChronologyEntry,
  read_chronology, Pair, select_window,
}

pub data TraceStatus : Type 0 where
  traced_ok traced_fail traced_skip : TraceStatus

-- A fixed word, or the code of an error.
pub data TraceDetail : Type 0 where
  noted : String → TraceDetail
  coded : RuntimeErrorCode → TraceDetail

pub record ProjectBrainTraceEntry : Type 0 where
  pub step : String
  pub status : TraceStatus
  pub detail : Option TraceDetail

pub record Capture (ChangeSet : Type 0) : Type 0 where
  pub snapshot_id : Text
  pub capture_sequence : ℕ
  pub captured_at : Text
  pub change_set : ChangeSet

pub record TimelineResult (Event : Type 0) : Type 0 where
  pub project_id : Text
  pub event_count : ℕ
  pub has_more : Bool
  pub events : List Event

pub data TimelineStatus : Type 0 where
  derived no_prior_memory failed : TimelineStatus

pub record TimelineProjectResult (Event : Type 0) : Type 0 where
  pub request_id : Text
  pub status : TimelineStatus
  pub project_id : Text
  pub result : Option (TimelineResult Event)
  pub error : Option ProjectBrainRuntimeError
  pub trace : List ProjectBrainTraceEntry

-- The memory port and the kernel. A manifest is known by its latest pointer.
pub record Deps (S Snapshot Evidence ChangeSet Event : Type 0) : Type 0 where
  pub read_manifest : Text → Action S Thrown (Option (Option Text))
  pub list_snapshots : Text → Action S Thrown (List SnapshotSummary)
  pub read_snapshot : Text → Text → Action S Thrown Snapshot
  pub read_evidence : Text → Text → Action S Thrown Evidence
  pub evidence_refs : Snapshot → List Text
  pub diff_project_snapshots :
      Snapshot × List Evidence
      → Snapshot × List Evidence
      → Text
      → StalenessPolicy
      → Outcome Text ChangeSet
  pub derive_project_timeline :
      List (Capture ChangeSet) → TimelineProjectInput → Outcome Text (TimelineResult Event)

-- What stands outside, and the trace so far.
pub record Frame (S : Type 0) : Type 0 where
  pub world : S
  pub trace : List ProjectBrainTraceEntry

abbrev pub in_world : {S A : Type 0} → Action S Thrown A → Action (Frame S) Thrown A
in_world m f = let (r, s) = m f.world in (r, record f { world = s })

abbrev pub push_trace :
    {S : Type 0} → String → TraceStatus → Option TraceDetail → Action (Frame S) Thrown (Unit {0})
push_trace step status detail f = (
  returns tt,
  record f { trace = f.trace ++ record { step = step; status = status; detail = detail } ∷ [] },
)

abbrev pub require : {S A : Type 0} → Checked A → Action S Thrown A
require (valid a) = pure a
require (refused e) = throw (runtime_error e)

-- `try { m } catch { throw storedRecordReadFailed(message) }`
abbrev pub reading : {S A : Type 0} → String → Action S Thrown A → Action S Thrown A
reading message m s =
    let (r, s') = m s in
    (
      elim r [
        | returns a ↦ returns a
        | throws _ ↦ throws (runtime_error (stored_record_read_failed message))
      ],
      s',
    )

abbrev pub kernel_failed : String → Text → ProjectBrainRuntimeError
kernel_failed message code = record {
  code = kernel_failed_code;
  message = message;
  kernel_code = code;
}

-- `if (!r.ok) throw kernelFailed(...)`
abbrev pub unwrap : {S A : Type 0} → String → Outcome Text A → Action S Thrown A
unwrap message (returns a) = pure a
unwrap message (throws code) = throw (runtime_error (kernel_failed message code))

module _ {S Snapshot Evidence ChangeSet Event : Type 0}
    (deps : Deps S Snapshot Evidence ChangeSet Event) where
  open deps use {
    read_manifest, list_snapshots, read_snapshot, read_evidence, evidence_refs,
    diff_project_snapshots, derive_project_timeline,
  }

  abbrev pub Loaded : Type 0
  Loaded = Snapshot × List Evidence

  -- The loop over the sorted references; an id that was seen is passed over.
  unfoldable pub load_evidence : Text → List Text → List Text → Action S Thrown (List Evidence)
  load_evidence project_id seen [] = pure []
  load_evidence project_id seen (id ∷ rest) =
      if includes seen id then load_evidence project_id seen rest else (do
        record_read ←
            reading "a referenced evidence record could not be read" (read_evidence project_id id)
        others ← load_evidence project_id (id ∷ seen) rest
        pure (record_read ∷ others))

  unfoldable pub load_snapshot : Text → Text → Action S Thrown Loaded
  load_snapshot project_id snapshot_id = do
    snapshot ←
        reading "a committed snapshot could not be read" (read_snapshot project_id snapshot_id)
    evidence ← load_evidence project_id [] (sort_texts (evidence_refs snapshot))
    pure (snapshot, evidence)

  -- The previous snapshot is the one carried over, if that is the one.
  unfoldable pub load_previous : Text → Option (Text × Loaded) → Text → Action S Thrown Loaded
  load_previous project_id none id = load_snapshot project_id id
  load_previous project_id (some (carried_id, loaded)) id =
      if text_eq carried_id id then pure loaded else load_snapshot project_id id

  unfoldable pub compare_pairs :
      TimelineProjectInput
      → Option (Text × Loaded)
      → List Pair
      → Action S Thrown (List (Capture ChangeSet))
  compare_pairs input carried [] = pure []
  compare_pairs input carried (pair ∷ rest) = do
    previous ← load_previous input.project_id carried pair.previous.snapshot_id
    current ← load_snapshot input.project_id pair.current.snapshot_id
    change_set ←
        unwrap "diffProjectSnapshots failed"
          (diff_project_snapshots previous current input.compared_at input.staleness_policy)
    captures ← compare_pairs input (some (pair.current.snapshot_id, current)) rest
    pure (
        record {
          snapshot_id = pair.current.snapshot_id;
          capture_sequence = pair.current.capture_sequence;
          captured_at = pair.current.captured_at;
          change_set = change_set;
        }
        ∷ captures)

  abbrev pub empty_result : Text → TimelineResult Event
  empty_result project_id = record {
    project_id = project_id;
    event_count = 0;
    has_more = false;
    events = [];
  }

  -- The newest entry is the one that the manifest points to, if there is any entry.
  unfoldable pub agrees : List ChronologyEntry → Option Text → Bool
  agrees chronology latest = elim (get_last? chronology) [
    | none ↦ true
    | some newest ↦ elim latest [ none ↦ false | some id ↦ text_eq newest.snapshot_id id ]
  ]

  -- The chronology has a pair to compare.
  unfoldable pub query_pairs :
      TimelineProjectInput
      → List ChronologyEntry
      → Action (Frame S) Thrown (TimelineStatus × TimelineResult Event)
  query_pairs input chronology = do
    let window = select_window chronology input.before_sequence
    push_trace "timeline.select" traced_ok none
    captures ← in_world (compare_pairs input none window)
    push_trace "timeline.compare" traced_ok none
    result ← unwrap "deriveProjectTimeline failed" (derive_project_timeline captures input)
    push_trace "timeline.derive" traced_ok none
    pure (derived, result)

  -- The chronology is read; its newest entry must agree with the pointer.
  unfoldable pub query_chronology :
      TimelineProjectInput
      → Option Text
      → List ChronologyEntry
      → Action (Frame S) Thrown (TimelineStatus × TimelineResult Event)
  query_chronology input latest chronology =
      if not (agrees chronology latest)
      then throw (
          runtime_error
            (stored_record_read_failed "the store chronology disagrees with the latest pointer"))
      else if ltb (length chronology) 2
      then (do
        push_trace "timeline.select" traced_skip (some (noted "insufficientHistory"))
        pure (derived, empty_result input.project_id))
      else query_pairs input chronology

  -- There is a store.
  unfoldable pub query_store :
      TimelineProjectInput
      → Option Text
      → Action (Frame S) Thrown (TimelineStatus × TimelineResult Event)
  query_store input latest = do
    summaries ← in_world (list_snapshots input.project_id)
    chronology ← require (read_chronology summaries)
    query_chronology input latest chronology

  -- The body of the `try`: the status and the result.
  unfoldable pub query :
      TimelineProjectInput → Action (Frame S) Thrown (TimelineStatus × TimelineResult Event)
  query input = do
    require (validate_timeline_input input)
    push_trace "timeline.validate" traced_ok none
    manifest ← in_world (read_manifest input.project_id)
    elim manifest [
      | none ↦ (do
        push_trace "timeline.select" traced_skip (some (noted "noPriorMemory"))
        pure (no_prior_memory, empty_result input.project_id))
      | some latest ↦ query_store input latest
    ]

  abbrev pub caught : Thrown → ProjectBrainRuntimeError
  caught (runtime_error e) = e
  caught other_error = plain_error timeline_failed_code "timeline failed"

  abbrev pub finished :
      TimelineProjectInput
      → Outcome Thrown (TimelineStatus × TimelineResult Event)
      → List ProjectBrainTraceEntry
      → TimelineProjectResult Event
  finished input (returns (status, result)) trace = record {
    request_id = input.request_id;
    status = status;
    project_id = input.project_id;
    result = some result;
    error = none;
    trace = trace;
  }
  finished input (throws e) trace = record {
    request_id = input.request_id;
    status = failed;
    project_id = input.project_id;
    result = none;
    error = some (caught e);
    trace =
        trace
        ++ record {
          step = "timeline.fail";
          status = traced_fail;
          detail = some (coded (caught e).code);
        }
          ∷ [];
  }

  unfoldable pub timeline_project : TimelineProjectInput → S → TimelineProjectResult Event × S
  timeline_project input s =
      let (r, f) = query input (record {
        world = s;
        trace = record { step = "timeline.receive"; status = traced_ok; detail = none } ∷ [];
      }) in
      (finished input r f.trace, f.world)
