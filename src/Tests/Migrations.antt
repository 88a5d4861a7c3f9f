-- ===== src/Tests/Migrations.antt =====
-- A store of format 1 is migrated, as in project-memory/src/migrations.ts.
use oh_my_pm.Common.{◌≡◌, refl, some, List, [], ◌∷◌, arith}
use oh_my_pm.Common.Text.{Text, lit}
use oh_my_pm.Common.Json.{Json, string, array, object, cons, nil, Fields, field, end}
use oh_my_pm.Memory.Errors.{Result}
use oh_my_pm.Memory.Migrations.{
  MigrationSource, MigrationTarget, MigrationDefinition, migration_1_to_2, register_all, register,
  get, plan_migration, migrated_fields, ordered_ids, recovered_history,
}
use oh_my_pm.Memory.Migrations.Plan.{Planned, plan_migration_total}

plan_migration_total_example :
    (x : Result (List MigrationDefinition)) × (plan_migration ((1, migration_1_to_2) ∷ []) 1 2
      ≡ some x)
    × Planned ((1, migration_1_to_2) ∷ []) 1 2 x
unfolding register_all register get
plan_migration_total_example =
    plan_migration_total (migration_1_to_2 ∷ []) ((1, migration_1_to_2) ∷ []) 1 2 refl (omega arith)

abbrev payload : Text → Text → Json
payload id at =
    object (field (lit "snapshotId") (string id) (field (lit "capturedAt") (string at) end))

abbrev payloads : List Json
payloads = payload (lit "a") (lit "2") ∷ payload (lit "b") (lit "1") ∷ []

abbrev manifest : Fields
manifest =
    field (lit "snapshotIds") (array (cons (string (lit "a")) (cons (string (lit "b")) nil)))
      (field (lit "latestSnapshotId") (string (lit "a")) end)

abbrev source : MigrationSource
source = record {
  store_format_version = 1;
  manifest = manifest;
  snapshots = payloads;
  evidence = [];
}

abbrev index : List (Text × Text)
index = (lit "b", lit "1") ∷ (lit "a", lit "2") ∷ []

abbrev target : MigrationTarget
target = record {
  manifest =
      migrated_fields manifest (lit "a" ∷ lit "b" ∷ []) (some (lit "a"))
        (recovered_history index 0 (ordered_ids index (some (lit "a")) (lit "a" ∷ lit "b" ∷ [])));
  snapshots = payloads;
  evidence = [];
}
