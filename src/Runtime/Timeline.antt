-- ===== src/Runtime/Timeline.antt =====
-- runtime/src/projectbrain/timeline.ts: the timeline query. The memory port and the kernel are
-- parameters: the memory's calls may throw, the kernel's give a value or the code of an error.
pub mod Query
pub mod Chronology
pub mod Window
use oh_my_pm.Common.{
  ℕ, ◌-◌, Bool, true, false, not, ◌&&◌, ◌||◌, String, Option, none, some, List, [], ◌∷◌, ◌++◌,
  length, drop, ltb, leb, if◌then◌else◌,
}
use oh_my_pm.Common.Text.{Text, lit}
use oh_my_pm.Common.Json.{negative, fraction, Number, natural}

pub data RuntimeErrorCode : Type 0 where
  invalid_input_code dependency_unavailable_code kernel_failed_code required_observation_failed_code
        derivation_failed_code persistence_commit_failed_code no_prior_memory_code
        insufficient_history_code stored_record_read_failed_code compare_failed_code
        limit_exceeded_code timeline_failed_code :
      RuntimeErrorCode

-- `kernelFailed` has the kernel's code in its message: it is the last field here.
pub record ProjectBrainRuntimeError : Type 0 where
  pub code : RuntimeErrorCode
  pub message : String
  pub kernel_code : Text

-- What a call may throw.
pub data Thrown : Type 0 where
  runtime_error : ProjectBrainRuntimeError → Thrown
  other_error : Thrown

pub data Checked (A : Type 0) : Type 0 where
  valid : A → Checked A
  refused : ProjectBrainRuntimeError → Checked A

abbrev pub plain_error : RuntimeErrorCode → String → ProjectBrainRuntimeError
plain_error code message = record { code = code; message = message; kernel_code = [] }

abbrev pub stored_record_read_failed : String → ProjectBrainRuntimeError
stored_record_read_failed = plain_error stored_record_read_failed_code

abbrev pub timeline_invalid_input : String → ProjectBrainRuntimeError
timeline_invalid_input = plain_error invalid_input_code

pub record StalenessPolicy : Type 0 where
  pub evidence_stale_after_seconds : Number
  pub max_future_skew_seconds : Number

pub record TimelineProjectInput : Type 0 where
  pub request_id : Text
  pub project_id : Text
  pub compared_at : Text
  pub limit : Option Number
  pub before_sequence : Option Number
  pub category : Option Text
  pub kind : Option Text
  pub staleness_policy : StalenessPolicy

abbrev pub is_blank : Text → Bool
is_blank [] = true
is_blank (c ∷ t) = false

-- An integer from 1 to 100.
unfoldable pub is_page_size : Option Number → Bool
is_page_size none = true
is_page_size (some (natural n)) = leb 1 n && leb n 100
is_page_size (some _) = false

unfoldable pub is_bound : Option Number → Bool
is_bound none = true
is_bound (some (natural n)) = true
is_bound (some _) = false

-- The message for an empty field names it.
unfoldable pub validate_timeline_input : TimelineProjectInput → Checked (Unit {0})
validate_timeline_input input =
    if is_blank input.request_id
    then refused (timeline_invalid_input "requestId must be a non-empty string")
    else if is_blank input.project_id
    then refused (timeline_invalid_input "projectId must be a non-empty string")
    else if is_blank input.compared_at
    then refused (timeline_invalid_input "comparedAt must be a non-empty string")
    else if not (is_page_size input.limit)
    then refused (timeline_invalid_input "limit must be an integer between 1 and 100")
    else if not (is_bound input.before_sequence)
    then refused (timeline_invalid_input "beforeSequence must be a non-negative integer")
    else valid tt

-- What the memory lists of a snapshot; a field of another type counts as absent.
pub record SnapshotSummary : Type 0 where
  pub snapshot_id : Text
  pub captured_at : Option Text
  pub sequence : Option Number

pub record ChronologyEntry : Type 0 where
  pub snapshot_id : Text
  pub capture_sequence : ℕ
  pub captured_at : Text

-- A time that is not empty and an integer from 1.
unfoldable pub read_summary : SnapshotSummary → Option ChronologyEntry
read_summary summary = elim summary.captured_at [
  | none ↦ none
  | some at ↦ elim summary.sequence [
    | none ↦ none
    | some (natural n) ↦
        if is_blank at
        then none
        else if ltb n 1
        then none
        else some
            (record { snapshot_id = summary.snapshot_id; capture_sequence = n; captured_at = at })
    | some _ ↦ none
  ]
]

unfoldable pub read_summaries : List SnapshotSummary → Checked (List ChronologyEntry)
read_summaries [] = valid []
read_summaries (summary ∷ rest) = elim (read_summary summary) [
  | none ↦
      refused
        (stored_record_read_failed "the store does not expose an authoritative capture chronology")
  | some entry ↦ elim (read_summaries rest) [
    | refused e ↦ refused e
    | valid entries ↦ valid (entry ∷ entries)
  ]
]

-- Each sequence is above the one before it.
unfoldable pub is_ascending : List ChronologyEntry → Bool
is_ascending [] = true
is_ascending (a ∷ []) = true
is_ascending (a ∷ b ∷ rest) =
    let others = is_ascending (b ∷ rest) in
    if leb b.capture_sequence a.capture_sequence then false else others

unfoldable pub read_chronology : List SnapshotSummary → Checked (List ChronologyEntry)
unfolding read_summaries is_ascending
read_chronology summaries = elim (read_summaries summaries) [
  | refused e ↦ refused e
  | valid entries ↦
      if is_ascending entries
      then valid entries
      else refused (stored_record_read_failed "the store chronology is not strictly ascending")
]

pub record Pair : Type 0 where
  pub previous : ChronologyEntry
  pub current : ChronologyEntry

abbrev pub max_comparisons : ℕ
max_comparisons = 200

-- No `captureSequence >= beforeSequence`. The validation lets no bound pass that is no integer.
unfoldable pub is_before : Option Number → ChronologyEntry → Bool
is_before none e = true
is_before (some (natural b)) e = ltb e.capture_sequence b
is_before (some (negative b)) e = false
is_before (some (fraction b)) e = true

unfoldable pub eligible_pairs : Option Number → List ChronologyEntry → List Pair
eligible_pairs before [] = []
eligible_pairs before (a ∷ []) = []
eligible_pairs before (a ∷ b ∷ rest) =
    let others = eligible_pairs before (b ∷ rest) in
    if is_before before b then record { previous = a; current = b } ∷ others else others

unfoldable pub select_window : List ChronologyEntry → Option Number → List Pair
select_window chronology before =
    let pairs = eligible_pairs before chronology in
    if ltb max_comparisons (length pairs)
    then drop (length pairs - max_comparisons) pairs
    else pairs
