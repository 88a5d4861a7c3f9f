-- ===== src/Memory/Commit/Appends.antt =====
-- What a commit of project-memory/src/store.ts makes of the history of its store.
use oh_my_pm.Common.{
  ◌+◌, ◌≤◌, ◌≡◌, ◌≢◌, refl, false, Option, some, List, [], ◌∷◌, ◌++◌, length, length-append,
  length-map, arith, if◌then◌else◌,
}
use oh_my_pm.Common.Text.{Text, includes}
use oh_my_pm.Common.Sets.{set_add, set_of, set_of-Distinct, length-Within_le}
use oh_my_pm.Common.Json.{natural, Json, as_string}
use oh_my_pm.Memory.Errors.{ok}
use oh_my_pm.Memory.Manifest.{SnapshotHistoryEntry, ManifestBody, ProjectStoreManifest, entry_json}
use oh_my_pm.Memory.Manifest.Chronology.{Reads, IsChronology, ids_of}
use oh_my_pm.Memory.Manifest.Loop.{well_formed-entry_json}
use oh_my_pm.Memory.Commit.{CommitInput, next_fields, next_body}
use oh_my_pm.Memory.Commit.Keeps.{
  Prior, Prior-Found, next_body_ok, next_sequence_lem, Reads-snoc, IsChronology-snoc,
}

-- The new set of ids is one longer than the history.
fits_limit :
    (latest : Option Text) (ids : List Text) (origin : Text) (es : List SnapshotHistoryEntry)
    (id : Text)
    → IsChronology latest ids origin es
    → includes ids id ≡ false
    → length (set_add (set_of ids) id) ≤ 10000
    → length es + 1 ≤ 10000
unfolding set_add
fits_limit latest ids origin es id c new h =
    let same = set_of-Distinct ids c.inventory in
    let h' : length (if includes ids id then ids else ids ++ id ∷ []) ≤ 10000 = rw same at h in
    ground (
      arith,
      h',
      length-Within_le (ids_of es) ids c.once c.inventory c.known,
      length-append ids (id ∷ []),
      length-map (λ (e : SnapshotHistoryEntry). e.snapshot_id) es,
    )

abbrev pub new_entry : Text → Text → List SnapshotHistoryEntry → SnapshotHistoryEntry
new_entry id at es = record {
  snapshot_id = id;
  captured_at = at;
  sequence = natural (length es + 1);
}

-- A commit of a new snapshot, to no store or to one with a chronology: the next manifest's history
-- is the old one with one entry behind it. That entry has the snapshot's own id and capture time
-- and the next number, the origin is kept, and the whole is a chronology with the snapshot as the
-- latest.
pub next_body_appends :
    (input : CommitInput) (existing : Option ProjectStoreManifest) (project_key : Text)
    (ids : List Text) (origin : Text) (history : List Json) (es : List SnapshotHistoryEntry)
    (body : ManifestBody)
    → Prior existing ids origin history es
    → includes ids input.snapshot_id ≡ false
    → input.snapshot_id ≢ []
    → next_body input existing project_key ≡ ok body
    → (at : Text) × (as_string input.captured_at ≡ some at)
      × (body.snapshot_history
          ≡ some (history ++ entry_json (new_entry input.snapshot_id at es) ∷ []))
      × (body.snapshot_chronology_origin ≡ some origin)
      × (body.latest_snapshot_id ≡ some input.snapshot_id)
      × Reads
          (history ++ entry_json (new_entry input.snapshot_id at es) ∷ [])
          (es ++ new_entry input.snapshot_id at es ∷ [])
      × IsChronology body.latest_snapshot_id body.snapshot_ids origin
          (es ++ new_entry input.snapshot_id at es ∷ [])
unfolding next_fields
next_body_appends input existing project_key ids origin history es body prior new named h =
    let (at, captured, filled, limit, fields) = next_body_ok input existing project_key body h in
    let f = Prior-Found existing ids origin history es prior in
    let id = input.snapshot_id in
    let e = new_entry id at es in
    let number = next_sequence_lem history es f.reads f.chronology.numbered in
    let fits = fits_limit f.latest ids origin es id f.chronology new (rw f.same_ids at limit) in
    (
      at,
      captured,
      rw (fields, f.same_history, number) refl,
      rw (fields, f.same_origin) refl,
      rw fields refl,
      Reads-snoc history es (entry_json e) e f.reads
          (well_formed-entry_json e named filled (ground arith)),
      rw (fields, f.same_ids)
          (IsChronology-snoc f.latest ids origin es e f.chronology new (named, filled) refl fits),
    )
