-- ===== src/Runtime/Timeline/Chronology.antt =====
-- Which chronologies runtime/src/projectbrain/timeline.ts accepts.
use oh_my_pm.Common.{
  ℕ, ◌≤◌, ◌<◌, ◌≡◌, ◌≢◌, ◌↔◌, ◌⊎◌, inl, inr, refl, true, false, some, List, [], ◌∷◌, arith,
  Option-cases,
}
use oh_my_pm.Common.Json.{natural, negative, fraction}
use oh_my_pm.Runtime.Timeline.{
  ProjectBrainRuntimeError, Checked, valid, refused, is_blank, SnapshotSummary, ChronologyEntry,
  read_summary, read_summaries, is_ascending, read_chronology,
}

-- A summary with the fields of an entry: its id, a time that is not empty, an integer from 1.
pub record Exposes (summary : SnapshotSummary) (e : ChronologyEntry) : Type 0 where
  pub same_id : summary.snapshot_id ≡ e.snapshot_id
  pub timed : summary.captured_at ≡ some e.captured_at
  pub filled : e.captured_at ≢ []
  pub numbered : summary.sequence ≡ some (natural e.capture_sequence)
  pub positive : 1 ≤ e.capture_sequence

abbrev pub AllExposed : List SnapshotSummary → List ChronologyEntry → Type 0
AllExposed [] [] = Unit
AllExposed [] (e ∷ es) = ⊥
AllExposed (x ∷ xs) [] = ⊥
AllExposed (x ∷ xs) (e ∷ es) = Exposes x e × AllExposed xs es

abbrev pub Ascends : List ChronologyEntry → Type 0
Ascends [] = Unit
Ascends (a ∷ []) = Unit
Ascends (a ∷ b ∷ rest) = (a.capture_sequence < b.capture_sequence) × Ascends (b ∷ rest)

is_blank_lem : (t : List ℕ) → is_blank t ≡ false → t ≢ []
is_blank_lem [] h = cc
is_blank_lem (c ∷ t) h = λ e. cc

not-is_blank : (t : List ℕ) → t ≢ [] → is_blank t ≡ false
not-is_blank [] h = absurd (h refl)
not-is_blank (c ∷ t) h = refl

read_summary-Exposes :
    (x : SnapshotSummary) (e : ChronologyEntry) → read_summary x ≡ some e → Exposes x e
unfolding read_summary
read_summary-Exposes x e h = elim (Option-cases x.captured_at) [
  | inl gone ↦ absurd (ground arith)
  | inr (at, timed) ↦ elim (Option-cases x.sequence) [
    | inl gone ↦ absurd (ground arith)
    | inr (natural n, numbered) ↦ record {
      same_id = ground arith;
      timed = ground arith;
      filled = ground (arith, is_blank_lem at);
      numbered = ground arith;
      positive = ground arith;
    }
    | inr (negative n, numbered) ↦ absurd (ground arith)
    | inr (fraction n, numbered) ↦ absurd (ground arith)
  ]
]

read_summary-exposed :
    (x : SnapshotSummary) (e : ChronologyEntry) → Exposes x e → read_summary x ≡ some e
unfolding read_summary
read_summary-exposed x e h =
    ground (arith, h.same_id, h.timed, h.numbered, h.positive, not-is_blank e.captured_at h.filled)

Checked-cases :
    {A : Type 0} (c : Checked A)
    → ((a : A) × (c ≡ valid a)) ⊎ ((e : ProjectBrainRuntimeError) × (c ≡ refused e))
Checked-cases (valid a) = inl (a, refl)
Checked-cases (refused e) = inr (e, refl)

read_summaries-AllExposed :
    (xs : List SnapshotSummary) (es : List ChronologyEntry)
    → read_summaries xs ≡ valid es
    → AllExposed xs es
unfolding read_summaries
read_summaries-AllExposed [] [] h = tt
read_summaries-AllExposed [] (e ∷ es) h = absurd (ground arith)
read_summaries-AllExposed (x ∷ xs) es h = elim (Option-cases (read_summary x)) [
  | inl gone ↦ absurd (ground arith)
  | inr (f, found) ↦ elim (Checked-cases (read_summaries xs)) [
    | inl (fs, others) ↦
        (let same : f ∷ fs ≡ es = ground arith in
          rw (← same) (read_summary-Exposes x f found, read_summaries-AllExposed xs fs others))
    | inr (e, failed) ↦ absurd (ground arith)
  ]
]

read_summaries-exposed :
    (xs : List SnapshotSummary) (es : List ChronologyEntry)
    → AllExposed xs es
    → read_summaries xs ≡ valid es
unfolding read_summaries
read_summaries-exposed [] [] h = refl
read_summaries-exposed [] (e ∷ es) h = absurd h
read_summaries-exposed (x ∷ xs) [] h = absurd h
read_summaries-exposed (x ∷ xs) (e ∷ es) h =
    ground (arith, read_summary-exposed x e h.0, read_summaries-exposed xs es h.1)

is_ascending_iff : (es : List ChronologyEntry) → (is_ascending es ≡ true) ↔ Ascends es
unfolding is_ascending
is_ascending_iff [] = (λ h. tt, λ h. refl)
is_ascending_iff (a ∷ []) = (λ h. tt, λ h. refl)
is_ascending_iff (a ∷ b ∷ rest) =
    let ih = is_ascending_iff (b ∷ rest) in
    (λ h. (ground arith, ih.0 (ground arith)), λ h. ground (arith, h.0, ih.1 h.1))

-- What the memory lists is read as a chronology exactly when each summary exposes its entry, with a
-- time that is not empty and an integer from 1, and the sequences ascend strictly.
pub read_chronology_iff :
    (summaries : List SnapshotSummary) (es : List ChronologyEntry)
    → (read_chronology summaries ≡ valid es) ↔ (AllExposed summaries es × Ascends es)
unfolding read_chronology
read_chronology_iff summaries es = (forth, back)
  where
    forth : read_chronology summaries ≡ valid es → AllExposed summaries es × Ascends es
    forth h = elim (Checked-cases (read_summaries summaries)) [
      | inl (fs, found) ↦
          (let same : fs ≡ es = ground arith in
            rw (← same) (
              read_summaries-AllExposed summaries fs found,
              (is_ascending_iff fs).0 (ground arith),
            ))
      | inr (e, failed) ↦ absurd (ground arith)
    ]

    back : AllExposed summaries es × Ascends es → read_chronology summaries ≡ valid es
    back (exposed, ascends) =
        ground (arith, read_summaries-exposed summaries es exposed, (is_ascending_iff es).1 ascends)
