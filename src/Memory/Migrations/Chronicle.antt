-- ===== src/Memory/Migrations/Chronicle.antt =====
-- The pieces of the recovered chronology of project-memory/src/migrations.ts.
use oh_my_pm.Common.{
  ℕ, ◌+◌, ◌≤◌, ◌≡◌, ◌≢◌, inl, inr, refl, ap, true, false, some, List, [], ◌∷◌, length, arith,
  Bool-cases, Option-cases, if◌then◌else◌,
}
use oh_my_pm.Common.Text.{
  Text, lit, text_eq, text_eq_iff, text_eq_refl, text_lt_irrefl, text_lt_trans, text_lt_total,
  text_lt_negtrans, includes,
}
use oh_my_pm.Common.Sort.{IsOrder}
use oh_my_pm.Common.Sets.{Distinct}
use oh_my_pm.Common.Json.{natural, Json, Fields, end, field, get_field, property}
use oh_my_pm.Memory.Errors.{ok}
use oh_my_pm.Memory.Manifest.{SnapshotHistoryEntry, well_formed}
use oh_my_pm.Memory.Manifest.Chronology.{Reads, ids_of, CountsFrom}
use oh_my_pm.Memory.Migrations.{
  payload_string, captured_at, index_payloads, check_inventory, time_of, captured_before,
  historical, recovered_entry, recovered_history, put_field,
}

-- The index holds non-empty ids and times only.
abbrev pub IsNamed : List (Text × Text) → Type 0
IsNamed [] = Unit
IsNamed ((k, v) ∷ m) = (k ≢ []) × (v ≢ []) × IsNamed m

payload_string-ne-nil : (j : Json) (k s : Text) → payload_string j k ≡ some s → s ≢ []
unfolding payload_string
payload_string-ne-nil j k s h = ground arith

pub index_payloads-IsNamed :
    (m : List (Text × Text)) (payloads : List Json) (r : List (Text × Text))
    → IsNamed m
    → index_payloads m payloads ≡ ok r
    → IsNamed r
unfolding index_payloads
index_payloads-IsNamed m [] r named h = let e : m ≡ r = cc in rw e at named
index_payloads-IsNamed m (p ∷ ps) r named h =
    elim (Option-cases (payload_string p (lit "snapshotId"))) [
      | inl gone ↦ absurd (ground arith)
      | inr (id, found) ↦ elim (Option-cases (payload_string p (lit "capturedAt"))) [
        | inl gone ↦ absurd (ground arith)
        | inr (at, timed) ↦
            index_payloads-IsNamed ((id, at) ∷ m) ps r
              (payload_string-ne-nil p _ id found, payload_string-ne-nil p _ at timed, named)
              (ground arith)
      ]
    ]

pub captured_at-ne-nil :
    (m : List (Text × Text)) (id at : Text)
    → IsNamed m
    → captured_at m id ≡ some at
    → (id ≢ []) × (at ≢ [])
unfolding captured_at
captured_at-ne-nil [] id at named h = absurd (ground arith)
captured_at-ne-nil ((k, v) ∷ m) id at named h = elim (Bool-cases (text_eq k id)) [
  | inl same ↦ (ground (arith, named.0, text_eq_iff k id), ground (arith, named.1))
  | inr other ↦ captured_at-ne-nil m id at named.2 (ground arith)
]

-- Every id has a time in the index.
abbrev pub AreTimed : List (Text × Text) → List Text → Type 0
AreTimed m ids = (a : Text) → includes ids a ≡ true → (at : Text) × (captured_at m a ≡ some at)

pub check_inventory-AreTimed :
    (m : List (Text × Text)) (ids : List Text) → check_inventory m ids ≡ ok tt → AreTimed m ids
unfolding check_inventory includes
check_inventory-AreTimed m [] h a p = absurd (ground arith)
check_inventory-AreTimed m (id ∷ ids) h a p = elim (Option-cases (captured_at m id)) [
  | inl gone ↦ absurd (ground arith)
  | inr (at, found) ↦ elim (Bool-cases (text_eq id a)) [
    | inl same ↦ (at, rw (← (text_eq_iff id a).0 same) found)
    | inr other ↦ check_inventory-AreTimed m ids (ground arith) a (ground arith)
  ]
]

abbrev pub recovered : List (Text × Text) → ℕ → List Text → List SnapshotHistoryEntry
recovered m index [] = []
recovered m index (id ∷ ids) =
    record { snapshot_id = id; captured_at = time_of m id; sequence = natural (index + 1) }
    ∷ recovered m (index + 1) ids

recovered_entry_lem :
    (m : List (Text × Text)) (index : ℕ) (id at : Text)
    → captured_at m id ≡ some at
    → id ≢ []
    → at ≢ []
    → index + 1 ≤ 10000
    → well_formed (recovered_entry m index id)
      ≡ some (record { snapshot_id = id; captured_at = at; sequence = natural (index + 1) })
unfolding well_formed property text_eq
recovered_entry_lem m index id at h a b fits = ground arith

pub recovered_history-Reads :
    (m : List (Text × Text)) (index : ℕ) (ids : List Text)
    → IsNamed m
    → AreTimed m ids
    → index + length ids ≤ 10000
    → Reads (recovered_history m index ids) (recovered m index ids)
unfolding recovered_history
recovered_history-Reads m index [] named timed fits = tt
recovered_history-Reads m index (id ∷ ids) named timed fits =
    let (at, found) = timed id (unfold includes in rw text_eq_refl refl) in
    let (a, b) = captured_at-ne-nil m id at named found in
    (
      ground (arith, recovered_entry_lem m index id at found a b),
      recovered_history-Reads m (index + 1) ids named
          (λ x p. timed x (unfold includes in ground arith)) (omega arith),
    )

pub recovered-CountsFrom :
    (m : List (Text × Text)) (index : ℕ) (ids : List Text)
    → CountsFrom (index + 1) (recovered m index ids)
recovered-CountsFrom m index [] = tt
recovered-CountsFrom m index (id ∷ ids) = (refl, recovered-CountsFrom m (index + 1) ids)

pub ids_of-recovered :
    (m : List (Text × Text)) (index : ℕ) (ids : List Text) → ids_of (recovered m index ids) ≡ ids
ids_of-recovered m index [] = refl
ids_of-recovered m index (id ∷ ids) = ap (λ t. id ∷ t) (ids_of-recovered m (index + 1) ids)

-- The pool without the latest.
pub includes-historical :
    (l : Text) (ids : List Text) (a : Text)
    → includes (historical (some l) ids) a ≡ (if text_eq a l then false else includes ids a)
unfolding historical includes
includes-historical l [] a = ground arith
includes-historical l (id ∷ ids) a =
    ground (arith, includes-historical l ids a, text_eq_iff id l, text_eq_iff id a, text_eq_iff a l)

pub historical-Distinct :
    (l : Text) (ids : List Text) → Distinct ids → Distinct (historical (some l) ids)
unfolding historical
historical-Distinct l [] d = tt
historical-Distinct l (id ∷ ids) d = elim (Bool-cases (text_eq id l)) [
  | inl e ↦ rw e (historical-Distinct l ids d.1)
  | inr e ↦ rw e (ground (arith, d.0, includes-historical l ids id), historical-Distinct l ids d.1)
]

-- By time, then by id, is an order.
pub captured_before-IsOrder : (m : List (Text × Text)) → IsOrder (captured_before m)
unfolding captured_before
captured_before-IsOrder m = record {
  total = λ a b h. ground (
    arith,
    text_lt_irrefl (time_of m a),
    text_lt_trans (time_of m a) (time_of m b) (time_of m a),
    text_lt_irrefl a,
    text_lt_trans a b a,
  );
  trans = λ a b c p q. ground (
    arith,
    text_lt_trans (time_of m a) (time_of m b) (time_of m c),
    text_lt_negtrans (time_of m a) (time_of m b) (time_of m c),
    text_lt_negtrans (time_of m c) (time_of m b) (time_of m a),
    text_lt_total (time_of m a) (time_of m b),
    text_lt_total (time_of m b) (time_of m c),
    text_lt_negtrans c b a,
  );
}

pub get_field-put_field :
    (fs : Fields) (k : Text) (v : Json) (j : Text)
    → get_field (put_field fs k v) j ≡ (if text_eq k j then some v else get_field fs j)
unfolding get_field put_field
get_field-put_field end k v j = refl
get_field-put_field (field i w fs) k v j =
    ground (arith, get_field-put_field fs k v j, text_eq_iff i k, text_eq_iff i j, text_eq_iff k j)
