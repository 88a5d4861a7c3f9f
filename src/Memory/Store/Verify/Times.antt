-- ===== src/Memory/Store/Verify/Times.antt =====
-- The capture times that a verification of project-memory/src/store.ts compares.
use oh_my_pm.Common.{
  ◌≡◌, ◌↔◌, refl, true, Option, none, some, List, [], ◌∷◌, ◌++◌, All, Bool-cases, Option-cases, inl,
  inr, arith,
}
use oh_my_pm.Common.Text.{Text, lit, text_eq_iff, text_eq_refl}
use oh_my_pm.Common.Json.{Json, null, bool, number, string, array, object, property, as_string}
use oh_my_pm.Memory.Envelope.{RecordEnvelope}
use oh_my_pm.Memory.Store.Input.{is_text}
use oh_my_pm.Memory.Store.Verify.{captured_at_by_history, is_same_text, agrees_with_history}

abbrev pub Names : Json → Text → Type 0
Names entry id = property entry (lit "snapshotId") ≡ some (string id)

-- The entry is the last one of the history for the id.
pub record IsLastEntry (history : List Json) (id : Text) (entry : Json) : Type 0 where
  pub earlier : List Json
  pub later : List Json
  pub parts : history ≡ earlier ++ entry ∷ later
  pub names : Names entry id
  pub none_later : All (λ other. ¬ Names other id) later

-- Where the last entry for the id has a time, it is a string, and the record has the same.
abbrev pub HasTimeOf : List Json → Text → RecordEnvelope → Type 0
HasTimeOf history id e =
    (entry at : Json)
    → IsLastEntry history id entry
    → property entry (lit "capturedAt") ≡ some at
    → (time : Text) × (at ≡ string time)
      × (property (object e.body.payload) (lit "capturedAt") ≡ some (string time))

as_string_tells :
    (value : Option Json) (t : Text) → as_string value ≡ some t → value ≡ some (string t)
as_string_tells none t h = absurd (cc)
as_string_tells (some null) t h = absurd (cc)
as_string_tells (some (bool b)) t h = absurd (cc)
as_string_tells (some (number n)) t h = absurd (cc)
as_string_tells (some (string s)) t h = cc
as_string_tells (some (array xs)) t h = absurd (cc)
as_string_tells (some (object fs)) t h = absurd (cc)

is_text_iff :
    (value : Option Json) (t : Text) → (is_text value t ≡ true) ↔ (value ≡ some (string t))
is_text_iff value t = (
  λ h. elim (Option-cases (as_string value)) [
    | inl none_there ↦ absurd (ground arith)
    | inr (s, e) ↦ as_string_tells value t (ground (arith, text_eq_iff s t))
  ],
  λ e. rw e (text_eq_refl t),
)

unnamed :
    (id : Text) (later : List Json)
    → All (λ other. ¬ Names other id) later
    → captured_at_by_history later id ≡ none
unfolding captured_at_by_history
unnamed id [] h = refl
unnamed id (e ∷ later) h = elim (Bool-cases (is_text (property e (lit "snapshotId")) id)) [
  | inl named ↦ absurd (h.0 ((is_text_iff _ id).0 named))
  | inr other ↦ ground (arith, unnamed id later h.1)
]

after_earlier :
    (earlier rest : List Json) (id : Text) (at : Json)
    → captured_at_by_history rest id ≡ some at
    → captured_at_by_history (earlier ++ rest) id ≡ some at
unfolding captured_at_by_history
after_earlier [] rest id at h = h
after_earlier (e ∷ earlier) rest id at h = ground (arith, after_earlier earlier rest id at h)

last_captured_at :
    (history : List Json) (id : Text) (entry at : Json)
    → IsLastEntry history id entry
    → property entry (lit "capturedAt") ≡ some at
    → captured_at_by_history history id ≡ some at
last_captured_at history id entry at last timed = rw last.parts (
    after_earlier last.earlier (entry ∷ last.later) id at (
      unfold captured_at_by_history in
      ground (
        arith,
        unnamed id last.later last.none_later,
        (is_text_iff (property entry (lit "snapshotId")) id).1 last.names,
      )))

pub agrees-HasTimeOf :
    (history : List Json) (id : Text) (e : RecordEnvelope)
    → agrees_with_history history id e ≡ true
    → HasTimeOf history id e
unfolding agrees_with_history
agrees-HasTimeOf history id e agrees entry at last timed =
    let found = last_captured_at history id entry at last timed in
    let same : is_same_text (property (object e.body.payload) (lit "capturedAt")) at ≡ true =
      ground arith in
    elim (Option-cases (as_string (some at))) [
      | inl no_string ↦ absurd (ground arith)
      | inr (time, text) ↦
          (time, cc (as_string_tells (some at) time text), (is_text_iff _ time).0 (ground arith))
    ]
