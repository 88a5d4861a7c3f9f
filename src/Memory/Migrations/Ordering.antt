-- ===== src/Memory/Migrations/Ordering.antt =====
-- The order in which the migration of project-memory/src/migrations.ts lists the recovered
-- snapshots, and the entries that it makes of them.
use oh_my_pm.Common.{
  ℕ, suc, ◌+◌, ◌≤◌, ◌≡◌, ◌≢◌, refl, sym, ◌∙◌, ap, Bool, true, false, not, Option, none, some, List,
  [], ◌∷◌, ◌++◌, length, get_last?, get_last?-snoc, All, arith, if◌then◌else◌,
}
use oh_my_pm.Common.Text.{Text, text_eq_iff, text_eq_refl, text_lt, includes}
use oh_my_pm.Common.Sort.{sort, IsSorted, sort-IsSorted}
use oh_my_pm.Common.Sets.{Distinct, sort-Distinct, includes-sort, includes-append, Distinct-snoc}
use mathlib.Core.List.{append-nil}
use oh_my_pm.Common.Json.{natural}
use oh_my_pm.Memory.Manifest.{SnapshotHistoryEntry}
use oh_my_pm.Memory.Manifest.Chronology.{last_id}
use oh_my_pm.Memory.Migrations.{time_of, captured_before, historical, ordered_ids}
use oh_my_pm.Memory.Migrations.Chronicle.{
  IsNamed, captured_at-ne-nil, AreTimed, recovered, includes-historical, historical-Distinct,
  captured_before-IsOrder,
}

-- The pointer of a store names one of its snapshots, and is null only if there is none.
abbrev pub IsPinned : Option Text → List Text → Type 0
IsPinned none ids = ids ≡ []
IsPinned (some l) ids = includes ids l ≡ true

module _ (m : List (Text × Text)) where
  pub includes-ordered_ids :
      (latest : Option Text) (ids : List Text)
      → IsPinned latest ids
      → (a : Text) → includes (ordered_ids m latest ids) a ≡ includes ids a
  unfolding ordered_ids includes sort
  includes-ordered_ids none ids p a = rw p refl
  includes-ordered_ids (some l) ids p a = ground (
    arith,
    includes-append (sort (captured_before m) (historical (some l) ids)) (l ∷ []) a,
    includes-sort (captured_before m) (historical (some l) ids) a,
    includes-historical l ids a,
    text_eq_iff l a,
    text_eq_iff a l,
  )

  pub ordered_ids-Distinct :
      (latest : Option Text) (ids : List Text)
      → IsPinned latest ids
      → Distinct ids
      → Distinct (ordered_ids m latest ids)
  unfolding ordered_ids sort
  ordered_ids-Distinct none ids p d = rw p tt
  ordered_ids-Distinct (some l) ids p d =
      Distinct-snoc (sort (captured_before m) (historical (some l) ids)) l
        (sort-Distinct (captured_before m) _ (historical-Distinct l ids d))
        (ground (
          arith,
          includes-sort (captured_before m) (historical (some l) ids) l,
          includes-historical l ids l,
          text_eq_refl l,
        ))

  pub get_last?-ordered_ids :
      (latest : Option Text) (ids : List Text)
      → IsPinned latest ids
      → get_last? (ordered_ids m latest ids) ≡ latest
  unfolding ordered_ids sort
  get_last?-ordered_ids none ids p = rw p refl
  get_last?-ordered_ids (some l) ids p =
      get_last?-snoc (sort (captured_before m) (historical (some l) ids)) l

  pub last_id-recovered : (n : ℕ) (ids : List Text) → last_id (recovered m n ids) ≡ get_last? ids
  last_id-recovered n [] = refl
  last_id-recovered n (id ∷ []) = refl
  last_id-recovered n (id ∷ next ∷ ids) = last_id-recovered (n + 1) (next ∷ ids)

  pub length-recovered : (n : ℕ) (ids : List Text) → length (recovered m n ids) ≡ length ids
  length-recovered n [] = refl
  length-recovered n (id ∷ ids) = ap suc (length-recovered (n + 1) ids)

  pub recovered-named :
      (n : ℕ) (ids : List Text)
      → IsNamed m
      → AreTimed m ids
      → All (λ e. (e.snapshot_id ≢ []) × (e.captured_at ≢ [])) (recovered m n ids)
  recovered-named n [] named timed = tt
  recovered-named n (id ∷ ids) named timed =
      let (at, found) = timed id (unfold includes in rw text_eq_refl refl) in
      let (a, b) = captured_at-ne-nil m id at named found in
      (
        (a, rw (found, time_of) b),
        recovered-named (n + 1) ids named (λ x p. timed x (unfold includes in ground arith)),
      )

  recovered-append :
      (n : ℕ) (xs : List Text) (l : Text)
      → recovered m n (xs ++ l ∷ []) ≡ recovered m n xs ++ recovered m (n + length xs) (l ∷ [])
  recovered-append n [] l = ap (λ k. recovered m k (l ∷ [])) (omega arith)
  recovered-append n (x ∷ xs) l =
      ap (λ t. recovered m n (x ∷ []) ++ t)
        (recovered-append (n + 1) xs l
          ∙ ap (λ k. recovered m (n + 1) xs ++ recovered m k (l ∷ [])) (omega arith))

-- By capture time, then by id.
unfoldable pub entry_before : SnapshotHistoryEntry → SnapshotHistoryEntry → Bool
entry_before e f =
    if text_lt e.captured_at f.captured_at
    then true
    else if text_lt f.captured_at e.captured_at
    then false
    else not (text_lt f.snapshot_id e.snapshot_id)

-- All entries but the last stand by capture time.
abbrev pub IsAged : List SnapshotHistoryEntry → Type 0
IsAged es =
    (front : List SnapshotHistoryEntry) × (rest : List SnapshotHistoryEntry) × (es ≡ front ++ rest)
    × (length rest ≤ 1)
    × IsSorted entry_before front

module _ (m : List (Text × Text)) where
  recovered-All :
      (a : Text) (k n : ℕ) (ids : List Text)
      → All (λ b. captured_before m a b ≡ true) ids
      → All
          (λ f.
            entry_before
              (record { snapshot_id = a; captured_at = time_of m a; sequence = natural k })
              f
            ≡ true)
          (recovered m n ids)
  unfolding captured_before entry_before
  recovered-All a k n [] h = tt
  recovered-All a k n (id ∷ ids) h = (h.0, recovered-All a k (n + 1) ids h.1)

  recovered-IsSorted :
      (n : ℕ) (ids : List Text)
      → IsSorted (captured_before m) ids
      → IsSorted entry_before (recovered m n ids)
  recovered-IsSorted n [] h = tt
  recovered-IsSorted n (id ∷ ids) h =
      (recovered-All id (n + 1) (n + 1) ids h.0, recovered-IsSorted (n + 1) ids h.1)

  pub recovered-IsAged :
      (latest : Option Text) (ids : List Text) → IsAged (recovered m 0 (ordered_ids m latest ids))
  unfolding ordered_ids
  recovered-IsAged none ids =
      let xs = sort (captured_before m) (historical none ids) in
      (
        recovered m 0 xs,
        [],
        sym (append-nil (recovered m 0 xs)),
        omega arith,
        recovered-IsSorted 0 xs
            (sort-IsSorted (captured_before m) (captured_before-IsOrder m) (historical none ids)),
      )
  recovered-IsAged (some l) ids =
      let xs = sort (captured_before m) (historical (some l) ids) in
      (
        recovered m 0 xs,
        _,
        recovered-append m 0 xs l,
        omega arith,
        recovered-IsSorted 0 xs (
            sort-IsSorted (captured_before m) (captured_before-IsOrder m)
              (historical (some l) ids)),
      )
