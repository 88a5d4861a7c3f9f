-- ===== src/Memory/Migrations.antt =====
-- project-memory/src/migrations.ts: the registry of one-version steps, the plan from a version to
-- another, and the migration of store format 1 to 2.
pub mod Plan
pub mod Chronicle
pub mod Recorded
pub mod Ordering
pub mod Recovers
use oh_my_pm.Common.{
  ℕ, zero, suc, ◌+◌, ◌-◌, String, Bool, true, false, not, Option, none, some, List, [], ◌∷◌, ◌++◌,
  map, ltb, leb, ◌==◌, if◌then◌else◌,
}
use oh_my_pm.Common.Text.{Text, lit, text_eq, text_lt, includes}
use oh_my_pm.Common.Sort.{sort}
use oh_my_pm.Common.Sets.{sort_texts}
use oh_my_pm.Common.Json.{
  Number, natural, Json, null, bool, number, string, array, object, Items, nil, cons, Fields, end,
  field, get_field, property, as_string,
}
use oh_my_pm.Memory.Errors.{
  ProjectMemoryError, Result, ok, err, ◌>>=◌, migration_required_code, invalid_input_code,
  with_hint, without_hint,
}
use oh_my_pm.Memory.Manifest.{strings, items, nullable, is_empty, invalid_input, corrupt_store}

-- The material of a migration; a target has the same parts but the version.
pub record MigrationSource : Type 0 where
  pub store_format_version : ℕ
  pub manifest : Fields
  pub snapshots : List Json
  pub evidence : List Json

pub record MigrationTarget : Type 0 where
  pub manifest : Fields
  pub snapshots : List Json
  pub evidence : List Json

pub record MigrationDefinition : Type 0 where
  pub from_version : ℕ
  pub to_version : ℕ
  pub migrate : MigrationSource → Result MigrationTarget

-- `byFrom`: the key of a definition is its source version.
abbrev pub MigrationRegistry : Type 0
MigrationRegistry = List (ℕ × MigrationDefinition)

unfoldable pub get : MigrationRegistry → ℕ → Option MigrationDefinition
get [] v = none
get ((k, d) ∷ r) v = let rest = get r v in if k == v then some d else rest

abbrev is_registered : Option MigrationDefinition → Bool
is_registered none = false
is_registered (some d) = true

-- The second message names the version at its end.
unfoldable pub register : MigrationRegistry → MigrationDefinition → Result MigrationRegistry
register r def =
    if not (def.to_version == def.from_version + 1)
    then err (invalid_input "a migration step must advance exactly one version")
    else if is_registered (get r def.from_version)
    then err (invalid_input "duplicate migration step from version")
    else ok ((def.from_version, def) ∷ r)

-- The constructor.
unfoldable pub register_all :
    MigrationRegistry → List MigrationDefinition → Result MigrationRegistry
register_all r [] = ok r
register_all r (def ∷ defs) = register r def >>= λ r'. register_all r' defs

abbrev pub no_step : ProjectMemoryError
no_step =
    with_hint migration_required_code "no migration step is registered from store format version"
      "this store format cannot be migrated without a registered step"

-- The `while` loop on fuel; none means that the fuel ran out.
unfoldable pub plan_steps :
    ℕ → MigrationRegistry → ℕ → ℕ → Option (Result (List MigrationDefinition))
plan_steps zero r current to = if ltb current to then none else some (ok [])
plan_steps (suc fuel) r current to =
    if ltb current to
    then elim (get r current) [
      | none ↦ some (err no_step)
      | some step ↦ elim (plan_steps fuel r step.to_version to) [
        | none ↦ none
        | some rest ↦ some (rest >>= λ steps. ok (step ∷ steps))
      ]
    ]
    else some (ok [])

unfoldable pub plan_migration :
    MigrationRegistry → ℕ → ℕ → Option (Result (List MigrationDefinition))
plan_migration r from to =
    if leb to from
    then some (err (invalid_input "migration source version must be below the target version"))
    else plan_steps (to - from) r from to

-- `Array.isArray(v) ? v.filter(isString) : []`
unfoldable pub string_items : Items → List Text
string_items nil = []
string_items (cons (string s) xs) = s ∷ string_items xs
string_items (cons _ xs) = string_items xs

unfoldable pub inventory_of : Option Json → List Text
unfolding string_items
inventory_of (some (array xs)) = string_items xs
inventory_of _ = []

-- `payload[key]` as a non-empty string.
unfoldable pub payload_string : Json → Text → Option Text
payload_string payload key = elim (as_string (property payload key)) [
  | none ↦ none
  | some s ↦ if is_empty s then none else some s
]

-- `capturedAtById`, the last one set first.
unfoldable pub captured_at : List (Text × Text) → Text → Option Text
captured_at [] id = none
captured_at ((k, v) ∷ m) id = let rest = captured_at m id in if text_eq k id then some v else rest

unfoldable pub index_payloads : List (Text × Text) → List Json → Result (List (Text × Text))
index_payloads m [] = ok m
index_payloads m (payload ∷ rest) = elim (payload_string payload (lit "snapshotId")) [
  | none ↦ err (
      corrupt_store
        "a v1 snapshot payload is missing a valid id/capturedAt for chronology recovery")
  | some id ↦ elim (payload_string payload (lit "capturedAt")) [
    | none ↦ err (
        corrupt_store
          "a v1 snapshot payload is missing a valid id/capturedAt for chronology recovery")
    | some at ↦ index_payloads ((id, at) ∷ m) rest
  ]
]

unfoldable pub check_inventory : List (Text × Text) → List Text → Result (Unit {0})
check_inventory m [] = ok tt
check_inventory m (id ∷ ids) = elim (captured_at m id) [
  | none ↦
      err
        (corrupt_store "a v1 inventory id has no readable snapshot payload for chronology recovery")
  | some _ ↦ check_inventory m ids
]

-- `captured_at` of an id that is known to be there.
abbrev pub time_of : List (Text × Text) → Text → Text
time_of m id = elim (captured_at m id) [ none ↦ [] | some at ↦ at ]

-- The comparator gives 0 or less: by capture time, then by id.
unfoldable pub captured_before : List (Text × Text) → Text → Text → Bool
captured_before m a b =
    if text_lt (time_of m a) (time_of m b)
    then true
    else if text_lt (time_of m b) (time_of m a)
    then false
    else not (text_lt b a)

-- `inventory.filter((id) => id !== latest)`
unfoldable pub historical : Option Text → List Text → List Text
historical latest [] = []
historical none (id ∷ ids) = id ∷ historical none ids
historical (some l) (id ∷ ids) =
    let rest = historical (some l) ids in if text_eq id l then rest else id ∷ rest

unfoldable pub ordered_ids : List (Text × Text) → Option Text → List Text → List Text
unfolding historical
ordered_ids m none ids = sort (captured_before m) (historical none ids)
ordered_ids m (some l) ids = sort (captured_before m) (historical (some l) ids) ++ l ∷ []

-- An `undefined` time is no field.
abbrev pub time_field : Option Text → Fields → Fields
time_field none fs = fs
time_field (some at) fs = field (lit "capturedAt") (string at) fs

abbrev pub recovered_entry : List (Text × Text) → ℕ → Text → Json
recovered_entry m index id = object (
    field (lit "snapshotId") (string id)
      (time_field (captured_at m id) (field (lit "sequence") (number (natural (index + 1))) end)))

unfoldable pub recovered_history : List (Text × Text) → ℕ → List Text → List Json
recovered_history m index [] = []
recovered_history m index (id ∷ ids) =
    recovered_entry m index id ∷ recovered_history m (index + 1) ids

-- `{ ...fields, key: value }`
unfoldable pub put_field : Fields → Text → Json → Fields
put_field end k v = field k v end
put_field (field j w fs) k v =
    let rest = put_field fs k v in if text_eq j k then field j v fs else field j w rest

abbrev pub migrated_fields : Fields → List Text → Option Text → List Json → Fields
migrated_fields manifest inventory latest history =
    put_field
      (put_field
        (put_field
          (put_field (put_field manifest (lit "storeFormatVersion") (number (natural 2)))
            (lit "snapshotIds") (array (strings (sort_texts inventory))))
          (lit "latestSnapshotId") (nullable latest))
        (lit "snapshotHistory") (array (items history)))
      (lit "snapshotChronologyOrigin") (string (lit "recoveredV1"))

unfoldable pub migrate_1_to_2 : MigrationSource → Result MigrationTarget
migrate_1_to_2 source =
    let inventory = inventory_of (get_field source.manifest (lit "snapshotIds")) in
    let latest = as_string (get_field source.manifest (lit "latestSnapshotId")) in
    index_payloads [] source.snapshots >>= λ m. check_inventory m inventory >>= λ _. ok (record {
      manifest =
          migrated_fields source.manifest inventory latest
            (recovered_history m 0 (ordered_ids m latest inventory));
      snapshots = source.snapshots;
      evidence = source.evidence;
    })

abbrev pub migration_1_to_2 : MigrationDefinition
migration_1_to_2 = record { from_version = 1; to_version = 2; migrate = migrate_1_to_2 }

abbrev pub default_migration_registry : Result MigrationRegistry
default_migration_registry = register_all [] (migration_1_to_2 ∷ [])
