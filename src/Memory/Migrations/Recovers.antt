-- ===== src/Memory/Migrations/Recovers.antt =====
-- What the migration of store format 1 to 2, in project-memory/src/migrations.ts, makes of a store.
use oh_my_pm.Common.{◌≡◌, Option, some, List, All}
use oh_my_pm.Common.Text.{Text, lit}
use oh_my_pm.Common.Sets.{sort_texts}
use oh_my_pm.Common.Json.{Json, array, get_field, as_string}
use oh_my_pm.Memory.Manifest.{SnapshotHistoryEntry, items}
use oh_my_pm.Memory.Manifest.Chronology.{Reads, IsChronology}
use oh_my_pm.Memory.Migrations.{
  MigrationSource, MigrationTarget, ordered_ids, recovered_history, inventory_of, migrated_fields,
}
use oh_my_pm.Memory.Migrations.Recorded.{Records}
use oh_my_pm.Memory.Migrations.Ordering.{IsAged}

-- What the migration leaves of a store: a history that is a recovered chronology, by capture time
-- up to the latest, and the payloads untouched.
pub record IsRecovered (latest : Option Text) (ids : List Text) (source : MigrationSource)
    (target : MigrationTarget) : Type 0 where
  history : List Json
  entries : List SnapshotHistoryEntry
  written : get_field target.manifest (lit "snapshotHistory") ≡ some (array (items history))
  reads : Reads history entries
  chronology : IsChronology latest (sort_texts ids) (lit "recoveredV1") entries
  aged : IsAged entries
  recorded : All (λ e. Records source.snapshots e.snapshot_id e.captured_at) entries
  snapshots_kept : target.snapshots ≡ source.snapshots
  evidence_kept : target.evidence ≡ source.evidence

-- The inventory and the latest pointer that the source's manifest has.
abbrev pub inventory_in : MigrationSource → List Text
inventory_in source = inventory_of (get_field source.manifest (lit "snapshotIds"))

abbrev pub latest_in : MigrationSource → Option Text
latest_in source = as_string (get_field source.manifest (lit "latestSnapshotId"))

abbrev migrated : MigrationSource → Option Text → List Text → List (Text × Text) → MigrationTarget
migrated source latest ids m = record {
  manifest =
      migrated_fields source.manifest ids latest (recovered_history m 0 (ordered_ids m latest ids));
  snapshots = source.snapshots;
  evidence = source.evidence;
}
