-- ===== src/Memory/Manifest.antt =====
-- project-memory/src/manifest.ts: the manifest of a store and its chronology. A history entry is
-- the value that JSON gives, since the check reads entries that nothing has typed yet.
pub mod Chronology
pub mod Loop
pub mod Accepts
pub mod Verify
use oh_my_pm.Common.{
  ℕ, zero, suc, ◌+◌, String, Bool, true, false, not, ◌||◌, ◌&&◌, Option, none, some, List, [], ◌∷◌,
  map, leb, ltb, ◌==◌, if◌then◌else◌, length, get_last?,
}
use oh_my_pm.Common.Text.{Text, lit, text_eq, includes}
use oh_my_pm.Common.Sets.{set_add, set_of}
use oh_my_pm.Common.Json.{
  Number, natural, negative, fraction, Json, null, number, string, array, object, Items, nil, cons,
  Fields, end, field, property, as_string, as_number, is_safe_integer,
}
use oh_my_pm.Memory.Errors.{
  ProjectMemoryError, Result, ok, err, ◌>>=◌, ◌>>◌, invalid_input_code, corruption_code,
  without_hint, with_hint,
}
use oh_my_pm.Memory.Integrity.{
  Platform, domain_manifest_integrity, compute_integrity, assert_integrity,
}

pub record SnapshotHistoryEntry : Type 0 where
  pub snapshot_id : Text
  pub captured_at : Text
  pub sequence : Number

pub record MigrationHistoryEntry : Type 0 where
  pub from_store_format_version : ℕ
  pub to_store_format_version : ℕ
  pub migrated_at : Text
  pub operation_id : Text
  pub backup_key : Text

-- The body of a manifest: every field but the digest.
pub record ManifestBody : Type 0 where
  pub store_format_version : ℕ
  pub project_brain_schema_version : ℕ
  pub project_id : Text
  pub project_key : Text
  pub created_at : Text
  pub updated_at : Text
  pub latest_snapshot_id : Option Text
  pub snapshot_ids : List Text
  pub evidence_ids : List Text
  pub snapshot_history : Option (List Json)
  pub snapshot_chronology_origin : Option Text
  pub migration_history : List MigrationHistoryEntry

pub record ProjectStoreManifest : Type 0 where
  pub body : ManifestBody
  pub integrity : Text

-- A typed entry as the value that stands in the manifest.
unfoldable pub entry_json : SnapshotHistoryEntry → Json
entry_json e = object (
    field (lit "snapshotId") (string e.snapshot_id) (
      field (lit "capturedAt") (string e.captured_at)
        (field (lit "sequence") (number e.sequence) end)))

abbrev pub max_snapshot_history : ℕ
max_snapshot_history = 10000

-- `===` between a number and an integer from 0.
abbrev pub is_natural : Number → ℕ → Bool
is_natural (natural n) k = n == k
is_natural _ k = false

abbrev pub is_empty : Text → Bool
is_empty [] = true
is_empty (c ∷ t) = false

-- The fields of an entry that is not malformed: two non-empty strings and a safe integer.
unfoldable pub well_formed : Json → Option SnapshotHistoryEntry
well_formed entry = elim (as_string (property entry (lit "snapshotId"))) [
  | none ↦ none
  | some id ↦ elim (as_string (property entry (lit "capturedAt"))) [
    | none ↦ none
    | some at ↦ elim (as_number (property entry (lit "sequence"))) [
      | none ↦ none
      | some n ↦
          if is_empty id || is_empty at || not (is_safe_integer n)
          then none
          else some (record { snapshot_id = id; captured_at = at; sequence = n })
    ]
  ]
]

-- `new Set<number>()`: membership by `===`, for the integers that get there.
abbrev pub number_eq : Number → Number → Bool
number_eq (natural a) (natural b) = a == b
number_eq (negative a) (negative b) = a == b
number_eq (fraction a) (fraction b) = a == b
number_eq _ _ = false

unfoldable pub has_number : List Number → Number → Bool
has_number [] n = false
has_number (m ∷ ms) n = let rest = has_number ms n in if number_eq m n then true else rest

module _ (raise : String → ProjectMemoryError) where
  abbrev pub fail : {A : Type 0} → String → Result A
  fail message = err (raise message)

  -- The body of the loop, for the entry at position `i`; the new sets of ids and sequences.
  unfoldable pub check_entry :
      List Text
      → ℕ
      → List Text
      → List Number
      → SnapshotHistoryEntry
      → Result (List Text × List Number)
  check_entry inventory i seen_ids seen_sequences e =
      if includes seen_ids e.snapshot_id
      then fail "snapshotHistory contains a duplicate snapshot id"
      else if has_number seen_sequences e.sequence
      then fail "snapshotHistory contains a duplicate sequence"
      else if not (is_natural e.sequence (i + 1))
      then fail "snapshotHistory sequence is not contiguous from 1"
      else if not (includes inventory e.snapshot_id)
      then fail "a snapshotHistory entry references an id absent from the inventory"
      else ok (set_add seen_ids e.snapshot_id, e.sequence ∷ seen_sequences)

  -- The loop; the set of ids seen.
  unfoldable pub check_entries :
      List Text → ℕ → List Text → List Number → List Json → Result (List Text)
  unfolding check_entry
  check_entries inventory i seen_ids seen_sequences [] = ok seen_ids
  check_entries inventory i seen_ids seen_sequences (entry ∷ rest) = elim (well_formed entry) [
    | none ↦ fail "snapshotHistory contains a malformed entry"
    | some e ↦
        check_entry inventory i seen_ids seen_sequences e >>= λ (seen : List Text × List Number).
        check_entries inventory (i + 1) seen.0 seen.1 rest
  ]

  -- `latestSnapshotId` against the final entry; its `snapshotId` is `undefined` if it has none.
  unfoldable pub check_latest : Option Text → Option Json → Result (Unit {0})
  check_latest none none = ok tt
  check_latest (some id) none = fail "latestSnapshotId must be null when the chronology is empty"
  check_latest none (some final) = fail "latestSnapshotId must equal the final chronology entry"
  check_latest (some id) (some final) = elim (as_string (property final (lit "snapshotId"))) [
    | none ↦ fail "latestSnapshotId must equal the final chronology entry"
    | some last ↦
        if text_eq id last
        then ok tt
        else fail "latestSnapshotId must equal the final chronology entry"
  ]

  -- Both chronology fields are there.
  unfoldable pub check_chronology : Option Text → List Text → List Json → Text → Result (Unit {0})
  check_chronology latest ids history origin =
      if not (text_eq origin (lit "native") || text_eq origin (lit "recoveredV1"))
      then fail "snapshotChronologyOrigin is not a known value"
      else if ltb max_snapshot_history (length history)
      then fail "snapshotHistory exceeds the maximum size"
      else if not (length (set_of ids) == length ids)
      then fail "snapshotIds inventory contains a duplicate id"
      else check_entries (set_of ids) 0 [] [] history >>= λ (seen : List Text).
          if not (length seen == length (set_of ids))
          then fail "an inventory id is absent from the chronology"
          else check_latest latest (get_last? history)

  unfoldable pub assert_manifest_chronology : ManifestBody → Result (Unit {0})
  assert_manifest_chronology body = elim body.snapshot_history [
    | none ↦ elim body.snapshot_chronology_origin [
      | none ↦ ok tt
      | some origin ↦
          fail "a v2 manifest must carry both snapshotHistory and snapshotChronologyOrigin"
    ]
    | some history ↦ elim body.snapshot_chronology_origin [
      | none ↦ fail "a v2 manifest must carry both snapshotHistory and snapshotChronologyOrigin"
      | some origin ↦ check_chronology body.latest_snapshot_id body.snapshot_ids history origin
    ]
  ]

abbrev pub invalid_input : String → ProjectMemoryError
invalid_input message = without_hint invalid_input_code message

abbrev pub corrupt_store : String → ProjectMemoryError
corrupt_store message = with_hint corruption_code message "the store may be corrupt"

abbrev pub strings : List Text → Items
strings [] = nil
strings (x ∷ xs) = cons (string x) (strings xs)

abbrev pub items : List Json → Items
items [] = nil
items (x ∷ xs) = cons x (items xs)

abbrev pub nullable : Option Text → Json
nullable none = null
nullable (some t) = string t

abbrev pub migration_json : MigrationHistoryEntry → Json
migration_json e = object (
    field (lit "fromStoreFormatVersion") (number (natural e.from_store_format_version)) (
      field (lit "toStoreFormatVersion") (number (natural e.to_store_format_version)) (
        field (lit "migratedAt") (string e.migrated_at) (
          field (lit "operationId") (string e.operation_id)
            (field (lit "backupKey") (string e.backup_key) end)))))

-- The chronology fields stand in the body only where the manifest carries them.
abbrev pub origin_field : Option Text → Fields
origin_field none = end
origin_field (some origin) = field (lit "snapshotChronologyOrigin") (string origin) end

-- An `undefined` value is no field of the canonical form.
abbrev pub defined_field : Text → Option Json → Fields → Fields
defined_field k none fs = fs
defined_field k (some v) fs = field k v fs

-- The three fields of an entry, whatever else it has; a TypeError on `null` is not told apart.
abbrev pub history_entry_json : Json → Json
history_entry_json entry = object (
    defined_field (lit "snapshotId") (property entry (lit "snapshotId")) (
      defined_field (lit "capturedAt") (property entry (lit "capturedAt"))
        (defined_field (lit "sequence") (property entry (lit "sequence")) end)))

abbrev pub history_field : Option (List Json) → Fields → Fields
history_field none fs = fs
history_field (some history) fs =
    field (lit "snapshotHistory") (array (items (map history_entry_json history))) fs

unfoldable pub manifest_body_json : ManifestBody → Json
manifest_body_json b = object (
    field (lit "storeFormatVersion") (number (natural b.store_format_version)) (
      field (lit "projectBrainSchemaVersion") (number (natural b.project_brain_schema_version)) (
        field (lit "projectId") (string b.project_id) (
          field (lit "projectKey") (string b.project_key) (
            field (lit "createdAt") (string b.created_at) (
              field (lit "updatedAt") (string b.updated_at) (
                field (lit "latestSnapshotId") (nullable b.latest_snapshot_id) (
                  field (lit "snapshotIds") (array (strings b.snapshot_ids)) (
                    field (lit "evidenceIds") (array (strings b.evidence_ids)) (
                      field (lit "migrationHistory")
                        (array (items (map migration_json b.migration_history)))
                        (history_field b.snapshot_history
                          (origin_field b.snapshot_chronology_origin))))))))))))

-- `latestSnapshotId !== null && !snapshotIds.includes(latestSnapshotId)`
abbrev pub latest_is_missing : ManifestBody → Bool
latest_is_missing b = elim b.latest_snapshot_id [
  | none ↦ false
  | some id ↦ not (includes b.snapshot_ids id)
]

unfoldable pub build_manifest : Platform → ManifestBody → Result ProjectStoreManifest
build_manifest p body =
    if latest_is_missing body
    then err (invalid_input "latestSnapshotId must exist in snapshotIds")
    else assert_manifest_chronology invalid_input body >>= λ _.
        compute_integrity p domain_manifest_integrity (manifest_body_json body) >>= λ integrity.
        ok (record { body = body; integrity = integrity })

-- After the parse of a manifest's text and of its shape.
unfoldable pub verify_manifest : Platform → ProjectStoreManifest → Result ProjectStoreManifest
verify_manifest p manifest =
    assert_integrity p domain_manifest_integrity (manifest_body_json manifest.body)
      manifest.integrity "manifest integrity mismatch"
    >>= λ _.
        if latest_is_missing manifest.body
        then err (corrupt_store "manifest latest snapshot is not in snapshotIds")
        else assert_manifest_chronology corrupt_store manifest.body >>= λ _. ok manifest
