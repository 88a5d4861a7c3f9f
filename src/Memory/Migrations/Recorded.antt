-- ===== src/Memory/Migrations/Recorded.antt =====
-- The capture times that the migration of project-memory/src/migrations.ts takes from the payloads.
use oh_my_pm.Common.{
  ℕ, ◌+◌, ◌≡◌, refl, ◌⊎◌, inl, inr, some, List, [], ◌∷◌, All, Bool-cases, Option-cases, arith,
}
use oh_my_pm.Common.Text.{Text, lit, text_eq, text_eq_iff, text_eq_refl, includes}
use oh_my_pm.Common.Json.{Json, property, as_string}
use oh_my_pm.Memory.Errors.{ok}
use oh_my_pm.Memory.Migrations.{payload_string, captured_at, index_payloads, time_of}
use oh_my_pm.Memory.Migrations.Chronicle.{AreTimed, recovered}

abbrev pub Has : Json → Text → Text → Type 0
Has payload key value = as_string (property payload key) ≡ some value

-- The last payload of the id has the capture time.
abbrev pub Records : List Json → Text → Text → Type 0
Records [] id at = ⊥
Records (p ∷ ps) id at =
    Records ps id at
    ⊎ (Has p (lit "snapshotId") id
        × Has p (lit "capturedAt") at
        × All (λ q. ¬ Has q (lit "snapshotId") id) ps)

abbrev pub IsIndexOf : List (Text × Text) → List Json → Type 0
IsIndexOf m payloads = (id at : Text) → captured_at m id ≡ some at → Records payloads id at

payload_string_tells : (p : Json) (key s : Text) → payload_string p key ≡ some s → Has p key s
unfolding payload_string
payload_string_tells p key s h = ground arith

-- What the index has of an id is of the payloads read, or what it had and none of them names the id.
index_payloads_tells :
    (before : List (Text × Text)) (payloads : List Json) (m : List (Text × Text)) (id at : Text)
    → index_payloads before payloads ≡ ok m
    → captured_at m id ≡ some at
    → Records payloads id at
      ⊎ ((captured_at before id ≡ some at) × All (λ q. ¬ Has q (lit "snapshotId") id) payloads)
unfolding index_payloads
index_payloads_tells before [] m id at h found = let e : before ≡ m = cc in inr (rw e found, tt)
index_payloads_tells before (p ∷ ps) m id at h found =
    elim (Option-cases (payload_string p (lit "snapshotId"))) [
      | inl gone ↦ absurd (ground arith)
      | inr (k, named) ↦ elim (Option-cases (payload_string p (lit "capturedAt"))) [
        | inl gone ↦ absurd (ground arith)
        | inr (v, timed) ↦
            elim (index_payloads_tells ((k, v) ∷ before) ps m id at (ground arith) found) [
              | inl later ↦ inl (inl later)
              | inr (here, unnamed) ↦ elim (Bool-cases (text_eq k id)) [
                | inl same ↦ inl (
                    inr (
                      rw (← (text_eq_iff k id).0 same) (payload_string_tells p _ k named),
                      payload_string_tells p _ at (unfold captured_at in ground arith),
                      unnamed,
                    ))
                | inr other ↦ inr (
                  unfold captured_at in ground arith,
                  (
                    λ h. ground (arith, payload_string_tells p _ k named, text_eq_iff k id),
                    unnamed,
                  ),
                )
              ]
            ]
      ]
    ]

pub index_payloads-IsIndexOf :
    (payloads : List Json) (m : List (Text × Text))
    → index_payloads [] payloads ≡ ok m
    → IsIndexOf m payloads
unfolding captured_at
index_payloads-IsIndexOf payloads m h id at found =
    elim (index_payloads_tells [] payloads m id at h found) [
      | inl recorded ↦ recorded
      | inr (nothing, _) ↦ absurd (ground arith)
    ]

pub recovered-Records :
    (m : List (Text × Text)) (payloads : List Json)
    → IsIndexOf m payloads
    → (index : ℕ) (ids : List Text) → AreTimed m ids
    → All (λ e. Records payloads e.snapshot_id e.captured_at) (recovered m index ids)
recovered-Records m payloads indexed index [] timed = tt
recovered-Records m payloads indexed index (id ∷ ids) timed =
    let (at, found) = timed id (unfold includes in rw text_eq_refl refl) in
    let same : time_of m id ≡ at = rw (time_of, found) refl in
    (
      rw same (indexed id at found),
      recovered-Records m payloads indexed (index + 1) ids
          (λ x p. timed x (unfold includes in ground arith)),
    )
