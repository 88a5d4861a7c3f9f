-- ===== src/Memory/Manifest/Chronology.antt =====
-- What a chronology of project-memory/src/manifest.ts is meant to be, apart from how
-- `assertManifestChronology` checks it.
use oh_my_pm.Common.{
  ℕ, ◌+◌, ◌≤◌, ◌≡◌, ◌≢◌, ◌⊎◌, Option, none, some, List, [], ◌∷◌, map, length, get_last?, All,
}
use oh_my_pm.Common.Text.{Text, lit}
use oh_my_pm.Common.Sets.{Distinct, Within}
use oh_my_pm.Common.Json.{natural, Json}
use oh_my_pm.Memory.Manifest.{SnapshotHistoryEntry, well_formed, max_snapshot_history}

abbrev pub ids_of : List SnapshotHistoryEntry → List Text
ids_of = map (λ e. e.snapshot_id)

-- The sequences count from `n`.
abbrev pub CountsFrom : ℕ → List SnapshotHistoryEntry → Type 0
CountsFrom n [] = Unit
CountsFrom n (e ∷ es) = (e.sequence ≡ natural n) × CountsFrom (n + 1) es

abbrev pub last_id : List SnapshotHistoryEntry → Option Text
last_id es = elim (get_last? es) [ none ↦ none | some e ↦ some e.snapshot_id ]

-- Entries name every id of the inventory once, oldest first, numbered 1..N; the latest pointer
-- is the last of them, and null if there is none.
pub record IsChronology (latest : Option Text) (ids : List Text) (origin : Text)
    (history : List SnapshotHistoryEntry) : Type 0 where
  pub origin_known : (origin ≡ lit "native") ⊎ (origin ≡ lit "recoveredV1")
  pub size : length history ≤ max_snapshot_history
  pub named : All (λ e. (e.snapshot_id ≢ []) × (e.captured_at ≢ [])) history
  pub inventory : Distinct ids
  pub once : Distinct (ids_of history)
  pub known : Within (ids_of history) ids
  pub complete : Within ids (ids_of history)
  pub numbered : CountsFrom 1 history
  pub latest_last : latest ≡ last_id history

-- The values of a manifest's history, read as entries.
abbrev pub Reads : List Json → List SnapshotHistoryEntry → Type 0
Reads [] [] = Unit
Reads [] (e ∷ es) = ⊥
Reads (j ∷ js) [] = ⊥
Reads (j ∷ js) (e ∷ es) = (well_formed j ≡ some e) × Reads js es
