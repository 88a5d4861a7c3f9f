-- ===== src/Memory/Manifest/Loop.antt =====
-- The loop of `assertManifestChronology` of project-memory/src/manifest.ts: what it reads, and
-- when it goes through.
use oh_my_pm.Common.{
  ℕ, ◌+◌, ◌≤◌, ◌≡◌, ◌≢◌, inl, inr, refl, sym, ◌∙◌, ap, true, false, some, String, List, [], ◌∷◌,
  ◌++◌, arith, Bool-cases, Option-cases, append-nil, append_assoc,
}
use oh_my_pm.Common.Text.{Text, lit, text_eq, text_eq_iff, text_eq_refl, includes}
use oh_my_pm.Common.Sets.{Distinct, Within, set_add, set_add-Distinct, Distinct-middle}
use oh_my_pm.Common.Json.{
  Number, natural, negative, fraction, Json, property, as_string, as_number, is_safe_integer,
}
use oh_my_pm.Memory.Errors.{ProjectMemoryError, ok, ◌>>=◌, >>=-eq-ok}
use oh_my_pm.Memory.Manifest.{
  SnapshotHistoryEntry, entry_json, well_formed, check_entry, check_entries, has_number,
}
use oh_my_pm.Memory.Manifest.Chronology.{Reads, ids_of, CountsFrom}

-- A typed entry is read back as itself, if its strings are not empty and its number is safe.
pub well_formed-entry_json :
    (e : SnapshotHistoryEntry)
    → e.snapshot_id ≢ []
    → e.captured_at ≢ []
    → is_safe_integer e.sequence ≡ true
    → well_formed (entry_json e) ≡ some e
unfolding well_formed entry_json property text_eq
well_formed-entry_json e a b c = ground arith

-- What an entry that is not malformed holds.
pub well_formed_lem :
    (j : Json) (e : SnapshotHistoryEntry)
    → well_formed j ≡ some e
    → (as_string (property j (lit "snapshotId")) ≡ some e.snapshot_id)
      × (e.snapshot_id ≢ [])
      × (e.captured_at ≢ [])
      × (as_number (property j (lit "sequence")) ≡ some e.sequence)
unfolding well_formed
well_formed_lem j e h = (ground arith, ground arith, ground arith, ground arith)

-- The sequences seen so far are at most `i`.
abbrev UpTo : ℕ → List Number → Type 0
UpTo i [] = Unit
UpTo i (natural n ∷ ns) = (n ≤ i) × UpTo i ns
UpTo i (negative n ∷ ns) = UpTo i ns
UpTo i (fraction b ∷ ns) = UpTo i ns

UpTo-fresh : (i : ℕ) (ns : List Number) → UpTo i ns → has_number ns (natural (i + 1)) ≡ false
unfolding has_number
UpTo-fresh i [] h = refl
UpTo-fresh i (natural n ∷ ns) h = ground (arith, UpTo-fresh i ns h.1)
UpTo-fresh i (negative n ∷ ns) h = ground (arith, UpTo-fresh i ns h)
UpTo-fresh i (fraction b ∷ ns) h = ground (arith, UpTo-fresh i ns h)

UpTo-more : (i : ℕ) (ns : List Number) → UpTo i ns → UpTo (i + 1) ns
UpTo-more i [] h = tt
UpTo-more i (natural n ∷ ns) h = (omega arith, UpTo-more i ns h.1)
UpTo-more i (negative n ∷ ns) h = UpTo-more i ns h
UpTo-more i (fraction b ∷ ns) h = UpTo-more i ns h

module _ (raise : String → ProjectMemoryError) (inventory : List Text) where
  -- One pass of the loop goes on exactly if the entry is new, next in number and known.
  entry_passes :
      (i : ℕ) (seen : List Text) (ns : List Number) (e : SnapshotHistoryEntry)
      → UpTo i ns
      → includes seen e.snapshot_id ≡ false
      → e.sequence ≡ natural (i + 1)
      → includes inventory e.snapshot_id ≡ true
      → check_entry raise inventory i seen ns e ≡ ok (set_add seen e.snapshot_id, e.sequence ∷ ns)
  unfolding check_entry
  entry_passes i seen ns e u new numbered known = ground (arith, UpTo-fresh i ns u)

  entry_passed :
      (i : ℕ) (seen : List Text) (ns : List Number) (e : SnapshotHistoryEntry)
      (r : List Text × List Number)
      → check_entry raise inventory i seen ns e ≡ ok r
      → (includes seen e.snapshot_id ≡ false)
        × (e.sequence ≡ natural (i + 1))
        × (includes inventory e.snapshot_id ≡ true)
        × (r.0 ≡ set_add seen e.snapshot_id)
  unfolding check_entry
  entry_passed i seen ns e r h = (ground arith, ground arith, ground arith, ground arith)

  fresh_head :
      (seen : List Text) (a : Text) (rest : List Text)
      → Distinct (seen ++ a ∷ rest)
      → set_add seen a ≡ seen ++ a ∷ []
  unfolding set_add
  fresh_head seen a rest d = rw (Distinct-middle seen a rest d) refl

  -- The loop body, for an entry that reads as `e`.
  loop_body :
      (i : ℕ) (seen : List Text) (ns : List Number) (j : Json) (js : List Json)
      (e : SnapshotHistoryEntry)
      → well_formed j ≡ some e
      → check_entries raise inventory i seen ns (j ∷ js) ≡ (
          check_entry raise inventory i seen ns e >>= λ (r : List Text × List Number).
          check_entries raise inventory (i + 1) r.0 r.1 js)
  unfolding check_entries
  loop_body i seen ns j js e h = rw (h, check_entries) refl

  pub loop_passes :
      (i : ℕ) (seen : List Text) (ns : List Number) (history : List Json)
      (es : List SnapshotHistoryEntry)
      → Reads history es
      → UpTo i ns
      → Distinct (seen ++ ids_of es)
      → CountsFrom (i + 1) es
      → Within (ids_of es) inventory
      → check_entries raise inventory i seen ns history ≡ ok (seen ++ ids_of es)
  loop_passes i seen ns [] [] r u d c w = unfold check_entries in (rw append-nil refl)
  loop_passes i seen ns [] (e ∷ es) r u d c w = absurd r
  loop_passes i seen ns (j ∷ js) [] r u d c w = absurd r
  loop_passes i seen ns (j ∷ js) (e ∷ es) r u d c w =
      let head =
        entry_passes i seen ns e u (Distinct-middle seen e.snapshot_id (ids_of es) d) c.0
          (w e.snapshot_id (unfold includes in rw text_eq_refl refl)) in
      let added = fresh_head seen e.snapshot_id (ids_of es) d in
      let moved = append_assoc seen (e.snapshot_id ∷ []) (ids_of es) in
      loop_body i seen ns j js e r.0
      ∙ rw (head, added)
          (loop_passes (i + 1) (seen ++ e.snapshot_id ∷ []) (e.sequence ∷ ns) js es r.1
              (rw c.0 (omega arith, UpTo-more i ns u)) (rw moved d) c.1
              (λ a h. w a (unfold includes in ground arith))
            ∙ ap ok moved)

  -- What the loop has read when it ends.
  abbrev pub Read : ℕ → List Text → List Json → List Text → Type 0
  Read i seen history out =
      (es : List SnapshotHistoryEntry) × Reads history es
      × CountsFrom (i + 1) es
      × Within (ids_of es) inventory
      × (Distinct seen → Distinct (seen ++ ids_of es))
      × (out ≡ seen ++ ids_of es)

  Read-cons :
      (i : ℕ) (seen : List Text) (j : Json) (js : List Json) (out : List Text)
      (e : SnapshotHistoryEntry)
      → well_formed j ≡ some e
      → includes seen e.snapshot_id ≡ false
      → e.sequence ≡ natural (i + 1)
      → includes inventory e.snapshot_id ≡ true
      → Read (i + 1) (set_add seen e.snapshot_id) js out
      → Read i seen (j ∷ js) out
  Read-cons i seen j js out e wf new number known (es, reads, counts, within, distinct, all) =
      let added : set_add seen e.snapshot_id ≡ seen ++ e.snapshot_id ∷ [] =
        unfold set_add in rw new refl in
      let moved = append_assoc seen (e.snapshot_id ∷ []) (ids_of es) in
      (
        e ∷ es,
        (wf, reads),
        (number, counts),
        λ a h. elim (Bool-cases (text_eq e.snapshot_id a)) [
          | inl same ↦ rw (← (text_eq_iff e.snapshot_id a).0 same) known
          | inr other ↦ within a (unfold includes in ground arith)
        ],
        λ d. rw (added, moved) at (distinct (set_add-Distinct seen e.snapshot_id d)),
        all ∙ (rw added moved),
      )

  pub loop_passed :
      (i : ℕ) (seen : List Text) (ns : List Number) (history : List Json) (out : List Text)
      → check_entries raise inventory i seen ns history ≡ ok out
      → Read i seen history out
  loop_passed i seen ns [] out h =
      unfold check_entries in
      ([], tt, tt, λ a p. unfold includes in cc, λ d. rw append-nil d, rw append-nil (ground arith))
  loop_passed i seen ns (j ∷ js) out h = elim (Option-cases (well_formed j)) [
    | inl bad ↦ unfold check_entries in cc
    | inr (e, wf) ↦
        (let (r, passed, rest) = >>=-eq-ok _ _ (sym (loop_body i seen ns j js e wf) ∙ h) in
          let (new, number, known, same) = entry_passed i seen ns e r passed in
          Read-cons i seen j js out e wf new number known
            (rw same at (loop_passed (i + 1) r.0 r.1 js out rest)))
  ]
