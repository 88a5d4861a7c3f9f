-- ===== src/Memory/Commit.antt =====
-- The next manifest of a commit, project-memory/src/store.ts: `buildNextManifest` and
-- `requireSnapshotCapturedAt`.
pub mod Keeps
pub mod Appends
use oh_my_pm.Common.{
  ℕ, zero, suc, ◌+◌, String, Bool, true, false, Option, none, some, List, [], ◌∷◌, ◌++◌, ltb,
  if◌then◌else◌, length, get_last?,
}
use oh_my_pm.Common.Text.{Text, lit}
use oh_my_pm.Common.Sets.{set_add, set_adds, set_of, sort_texts}
use oh_my_pm.Common.Json.{Number, natural, negative, fraction, Json, property, as_string, as_number}
use oh_my_pm.Memory.Errors.{
  Result, ok, err, ◌>>=◌, limit_exceeded_code, without_hint, invalid_input_code,
}
use oh_my_pm.Memory.Integrity.{Platform}
use oh_my_pm.Memory.Manifest.{
  MigrationHistoryEntry, ManifestBody, ProjectStoreManifest, entry_json, is_empty, build_manifest,
  invalid_input,
}

abbrev pub max_snapshots_per_project : ℕ
max_snapshots_per_project = 10000

abbrev pub max_evidence_per_project : ℕ
max_evidence_per_project = 100000

abbrev pub current_store_format_version : ℕ
current_store_format_version = 2

abbrev pub supported_project_brain_schema_version : ℕ
supported_project_brain_schema_version = 1

-- What a commit brings, as far as the manifest is concerned. The snapshot's own `capturedAt` is
-- whatever value stands there, if any.
pub record CommitInput : Type 0 where
  pub project_id : Text
  pub occurred_at : Text
  pub snapshot_id : Text
  pub captured_at : Option Json
  pub evidence_ids : List Text

unfoldable pub require_snapshot_captured_at : Option Json → Result Text
require_snapshot_captured_at value = elim (as_string value) [
  | none ↦ err (invalid_input "snapshot.capturedAt must be a non-empty string")
  | some at ↦
      if is_empty at
      then err (invalid_input "snapshot.capturedAt must be a non-empty string")
      else ok at
]

-- `n + 1` on the sequences of a verified manifest, which are integers from 1 to 10000: what
-- doubles do from 2 ^ 53 on, and to a fraction, does not arise and is left out.
abbrev pub successor : Number → Number
successor (natural n) = natural (n + 1)
successor (negative zero) = natural 0
successor (negative (suc n)) = negative n
successor (fraction b) = fraction b

-- An entry of a verified manifest has a number for its sequence.
unfoldable pub next_sequence : List Json → Number
next_sequence history = elim (get_last? history) [
  | none ↦ natural 1
  | some last ↦ elim (as_number (property last (lit "sequence"))) [
    | none ↦ natural (length history + 1)
    | some n ↦ successor n
  ]
]

-- `existing?.field ?? default`
abbrev pub of_existing : {A : Type 0} → Option ProjectStoreManifest → (ManifestBody → A) → A → A
of_existing none f default = default
of_existing (some m) f default = f m.body

abbrev pub or_default : {A : Type 0} → Option A → A → A
or_default none default = default
or_default (some a) default = a

module _ (input : CommitInput) (existing : Option ProjectStoreManifest) (project_key : Text) where
  abbrev pub next_snapshot_ids : List Text
  next_snapshot_ids =
      set_add (set_of (of_existing existing (λ b. b.snapshot_ids) [])) input.snapshot_id

  abbrev pub next_evidence_ids : List Text
  next_evidence_ids =
      set_adds (set_of (of_existing existing (λ b. b.evidence_ids) [])) input.evidence_ids

  abbrev pub existing_history : List Json
  existing_history = or_default (of_existing existing (λ b. b.snapshot_history) none) []

  -- The manifest's fields, for a snapshot captured at `at`.
  unfoldable pub next_fields : Text → ManifestBody
  next_fields at = record {
    store_format_version = current_store_format_version;
    project_brain_schema_version = supported_project_brain_schema_version;
    project_id = input.project_id;
    project_key = project_key;
    created_at = of_existing existing (λ b. b.created_at) input.occurred_at;
    updated_at = input.occurred_at;
    latest_snapshot_id = some input.snapshot_id;
    snapshot_ids = sort_texts next_snapshot_ids;
    evidence_ids = sort_texts next_evidence_ids;
    snapshot_history = some (
        existing_history
        ++ entry_json (record {
          snapshot_id = input.snapshot_id;
          captured_at = at;
          sequence = next_sequence existing_history;
        })
          ∷ []);
    snapshot_chronology_origin =
        some (
          or_default (of_existing existing (λ b. b.snapshot_chronology_origin) none)
            (lit "native"));
    migration_history = of_existing existing (λ b. b.migration_history) [];
  }

  -- Up to the call of `buildManifest`.
  unfoldable pub next_body : Result ManifestBody
  next_body =
      if ltb max_snapshots_per_project (length next_snapshot_ids)
      then err (without_hint limit_exceeded_code "snapshots per project exceeds the maximum")
      else if ltb max_evidence_per_project (length next_evidence_ids)
      then err (without_hint limit_exceeded_code "evidence per project exceeds the maximum")
      else require_snapshot_captured_at input.captured_at >>= λ at. ok (next_fields at)

  unfoldable pub build_next_manifest : Platform → Result ProjectStoreManifest
  build_next_manifest p = next_body >>= λ body. build_manifest p body
