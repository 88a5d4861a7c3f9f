-- ===== src/Memory/Manifest/Accepts.antt =====
-- `assertManifestChronology` of project-memory/src/manifest.ts accepts the chronologies and no
-- others.
use oh_my_pm.Common.{
  suc, ◌≤◌, ◌≡◌, ◌≢◌, ◌↔◌, ◌⊎◌, inl, inr, refl, ap, subst, Option, none, some, String, List, [],
  ◌∷◌, length, get_last?, arith, All,
}
use oh_my_pm.Common.Text.{Text, lit, text_eq_iff}
use oh_my_pm.Common.Sets.{
  Distinct, Within, set_of, set_of_full, set_of-Distinct, set_adds-Distinct, Within-flip,
  length-Within_le,
}
use oh_my_pm.Common.Json.{Json}
use oh_my_pm.Memory.Errors.{ProjectMemoryError, ok, Result-cases}
use oh_my_pm.Memory.Manifest.{
  SnapshotHistoryEntry, ManifestBody, well_formed, check_entries, check_latest, check_chronology,
  assert_manifest_chronology, max_snapshot_history,
}
use oh_my_pm.Memory.Manifest.Chronology.{Reads, IsChronology, ids_of}
use oh_my_pm.Memory.Manifest.Loop.{well_formed_lem, loop_passes, loop_passed}

pub Reads-length :
    (history : List Json) (es : List SnapshotHistoryEntry)
    → Reads history es
    → length history ≡ length es
Reads-length [] [] r = refl
Reads-length [] (e ∷ es) r = absurd r
Reads-length (j ∷ js) [] r = absurd r
Reads-length (j ∷ js) (e ∷ es) r = ap suc (Reads-length js es r.1)

Reads-named :
    (history : List Json) (es : List SnapshotHistoryEntry)
    → Reads history es
    → All (λ e. (e.snapshot_id ≢ []) × (e.captured_at ≢ [])) es
Reads-named [] [] r = tt
Reads-named [] (e ∷ es) r = absurd r
Reads-named (j ∷ js) [] r = tt
Reads-named (j ∷ js) (e ∷ es) r =
    let (_, id, at, _) = well_formed_lem j e r.0 in ((id, at), Reads-named js es r.1)

-- The final value reads as the final entry.
abbrev pub LastReads : Option Json → Option SnapshotHistoryEntry → Type 0
LastReads none none = Unit
LastReads none (some e) = ⊥
LastReads (some j) none = ⊥
LastReads (some j) (some e) = well_formed j ≡ some e

pub Reads-last :
    (history : List Json) (es : List SnapshotHistoryEntry)
    → Reads history es
    → LastReads (get_last? history) (get_last? es)
Reads-last [] [] r = tt
Reads-last [] (e ∷ es) r = absurd r
Reads-last (j ∷ js) [] r = absurd r
Reads-last (j ∷ []) (e ∷ []) r = r.0
Reads-last (j ∷ []) (e ∷ f ∷ es) r = absurd r.1
Reads-last (j ∷ k ∷ js) (e ∷ []) r = absurd r.1
Reads-last (j ∷ k ∷ js) (e ∷ f ∷ es) r = Reads-last (k ∷ js) (f ∷ es) r.1

module _ (raise : String → ProjectMemoryError) where
  abbrev id_of : Option SnapshotHistoryEntry → Option Text
  id_of o = elim o [ none ↦ none | some e ↦ some e.snapshot_id ]

  check_latest_iff :
      (latest : Option Text) (final : Option Json) (last : Option SnapshotHistoryEntry)
      → LastReads final last
      → (check_latest raise latest final ≡ ok tt) ↔ (latest ≡ id_of last)
  unfolding check_latest
  check_latest_iff none none none r = (λ _. refl, λ _. refl)
  check_latest_iff (some id) none none r = (λ h. cc, λ h. cc)
  check_latest_iff latest none (some e) r = absurd r
  check_latest_iff latest (some j) none r = absurd r
  check_latest_iff none (some j) (some e) r = (λ h. cc, λ h. cc)
  check_latest_iff (some id) (some j) (some e) r = (
    λ h. ground (arith, well_formed_lem j e r, text_eq_iff id e.snapshot_id),
    λ h. ground (arith, well_formed_lem j e r, text_eq_iff id e.snapshot_id),
  )

  -- A history that reads as a chronology is accepted.
  check_chronology_accepts :
      (latest : Option Text) (ids : List Text) (history : List Json) (origin : Text)
      (es : List SnapshotHistoryEntry)
      → Reads history es
      → IsChronology latest ids origin es
      → check_chronology raise latest ids history origin ≡ ok tt
  unfolding check_chronology
  check_chronology_accepts latest ids history origin es r c =
      let same = set_of-Distinct ids c.inventory in
      let loop = loop_passes raise ids 0 [] [] history es r tt c.once c.numbered c.known in
      let fits = Reads-length history es r in
      let up = length-Within_le (ids_of es) ids c.once c.inventory c.known in
      let down = length-Within_le ids (ids_of es) c.inventory c.once c.complete in
      let final =
        (check_latest_iff latest (get_last? history) (get_last? es) (Reads-last history es r)).1
          c.latest_last in
      rw (same, loop)
        (ground (
          arith,
          fits,
          up,
          down,
          final,
          c.size,
          c.origin_known,
          text_eq_iff origin (lit "native"),
          text_eq_iff origin (lit "recoveredV1"),
        ))

  -- Each test that an accepted chronology has passed.
  record Passed (latest : Option Text) (ids : List Text) (history : List Json) (origin : Text)
      (seen : List Text) : Type 0 where
    origin_known : (origin ≡ lit "native") ⊎ (origin ≡ lit "recoveredV1")
    size : length history ≤ max_snapshot_history
    full : length (set_of ids) ≡ length ids
    loop : check_entries raise (set_of ids) 0 [] [] history ≡ ok seen
    whole : length seen ≡ length (set_of ids)
    pointer : check_latest raise latest (get_last? history) ≡ ok tt

  check_chronology-Passed :
      (latest : Option Text) (ids : List Text) (history : List Json) (origin : Text)
      → check_chronology raise latest ids history origin ≡ ok tt
      → (seen : List Text) × Passed latest ids history origin seen
  unfolding check_chronology
  check_chronology-Passed latest ids history origin h =
      elim (Result-cases (check_entries raise (set_of ids) 0 [] [] history)) [
        | inl (seen, e) ↦ (
          seen,
          ground (arith, text_eq_iff origin (lit "native"), text_eq_iff origin (lit "recoveredV1")),
        )
        | inr (x, e) ↦ absurd (ground arith)
      ]

  check_chronology-Reads :
      (latest : Option Text) (ids : List Text) (history : List Json) (origin : Text)
      → check_chronology raise latest ids history origin ≡ ok tt
      → (es : List SnapshotHistoryEntry) × Reads history es × IsChronology latest ids origin es
  check_chronology-Reads latest ids history origin h =
      let (seen, p) = check_chronology-Passed latest ids history origin h in
      let same = set_of_full ids p.full in
      let inventory : Distinct ids = subst Distinct same (set_adds-Distinct [] ids tt) in
      let (es, r, counts, within, distinct, all) =
        loop_passed raise (set_of ids) 0 [] [] history seen p.loop in
      let known : Within (ids_of es) ids = subst (Within (ids_of es)) same within in
      let once : Distinct (ids_of es) = distinct tt in
      (
        es,
        r,
        record {
          origin_known = p.origin_known;
          size = omega (arith, p.size, Reads-length history es r);
          named = Reads-named history es r;
          inventory = inventory;
          once = once;
          known = known;
          complete =
              Within-flip (ids_of es) ids once inventory known
                (omega (arith, p.whole, p.full, ap length all));
          numbered = counts;
          latest_last =
              (check_latest_iff latest (get_last? history) (get_last? es)
                  (Reads-last history es r)).0
                p.pointer;
        },
      )

-- A manifest of store format 1 has neither field; one of format 2 has both, and its history reads
-- as a chronology.
abbrev pub HasChronology : ManifestBody → Type 0
HasChronology body =
    ((body.snapshot_history ≡ none) × (body.snapshot_chronology_origin ≡ none))
    ⊎ ((origin : Text) × (history : List Json) × (es : List SnapshotHistoryEntry)
        × (body.snapshot_history ≡ some history)
        × (body.snapshot_chronology_origin ≡ some origin)
        × Reads history es
        × IsChronology body.latest_snapshot_id body.snapshot_ids origin es)

-- The check accepts a manifest exactly when it has no chronology at all, or both fields and a
-- history that reads as one: a known origin, at most 10000 entries with non-empty ids and times,
-- each inventory id named exactly once, numbered 1..N, and the latest pointer at the last.
pub assert_manifest_chronology_iff :
    (raise : String → ProjectMemoryError) (body : ManifestBody)
    → (assert_manifest_chronology raise body ≡ ok tt) ↔ HasChronology body
unfolding assert_manifest_chronology
assert_manifest_chronology_iff raise body = (forth, back)
  where
    both :
        (h : Option (List Json)) (o : Option Text)
        → body.snapshot_history ≡ h
        → body.snapshot_chronology_origin ≡ o
        → assert_manifest_chronology raise body ≡ ok tt
        → HasChronology body
    both none none p q e = inl (p, q)
    both none (some o) p q e = absurd (ground arith)
    both (some h) none p q e = absurd (ground arith)
    both (some h) (some o) p q e =
        let (es, r, c) =
          check_chronology-Reads raise body.latest_snapshot_id body.snapshot_ids h o
            (ground arith) in
        inr (o, h, es, p, q, r, c)

    forth : assert_manifest_chronology raise body ≡ ok tt → HasChronology body
    forth = both body.snapshot_history body.snapshot_chronology_origin refl refl

    back : HasChronology body → assert_manifest_chronology raise body ≡ ok tt
    back (inl (p, q)) = ground arith
    back (inr (o, h, es, p, q, r, c)) =
        ground (
          arith,
          check_chronology_accepts raise body.latest_snapshot_id body.snapshot_ids h o es r c,
        )
