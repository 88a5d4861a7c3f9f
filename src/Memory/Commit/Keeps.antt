-- ===== src/Memory/Commit/Keeps.antt =====
-- A commit keeps the chronology: the next manifest of project-memory/src/store.ts has the old
-- history with one entry behind it.
use oh_my_pm.Common.{
  ℕ, ◌+◌, ◌-◌, ◌≤◌, ◌≡◌, ◌≢◌, inl, inr, refl, sym, ◌∙◌, ap, true, false, Option, none, some, List,
  [], ◌∷◌, ◌++◌, length, length-append, get_last?, get_last?-snoc, All-append, arith, Bool-cases,
  Option-cases, if◌then◌else◌,
}
use oh_my_pm.Common.Text.{Text, lit, text_eq, includes}
use oh_my_pm.Common.Sets.{
  set_add, set_of, set_of-Distinct, sort_texts, text_le, includes-append, includes-set_add,
  includes-sort, set_add-Distinct, Distinct-snoc, sort-Distinct,
}
use oh_my_pm.Common.Json.{natural, Json, as_string}
use oh_my_pm.Memory.Errors.{ok}
use oh_my_pm.Memory.Manifest.{SnapshotHistoryEntry, ManifestBody, ProjectStoreManifest, well_formed}
use oh_my_pm.Memory.Manifest.Chronology.{Reads, IsChronology, ids_of, CountsFrom, last_id}
use oh_my_pm.Memory.Manifest.Loop.{well_formed_lem}
use oh_my_pm.Memory.Manifest.Accepts.{LastReads, Reads-last}
use oh_my_pm.Memory.Commit.{
  CommitInput, of_existing, or_default, next_snapshot_ids, next_sequence, next_fields, next_body,
  require_snapshot_captured_at,
}

pub Reads-snoc :
    (history : List Json) (es : List SnapshotHistoryEntry) (j : Json) (e : SnapshotHistoryEntry)
    → Reads history es
    → well_formed j ≡ some e
    → Reads (history ++ j ∷ []) (es ++ e ∷ [])
Reads-snoc [] [] j e r h = (h, tt)
Reads-snoc [] (f ∷ es) j e r h = absurd r
Reads-snoc (k ∷ js) [] j e r h = absurd r
Reads-snoc (k ∷ js) (f ∷ es) j e r h = (r.0, Reads-snoc js es j e r.1 h)

CountsFrom-snoc :
    (n : ℕ) (es : List SnapshotHistoryEntry) (e : SnapshotHistoryEntry)
    → CountsFrom n es
    → e.sequence ≡ natural (n + length es)
    → CountsFrom n (es ++ e ∷ [])
CountsFrom-snoc n [] e c h = (h ∙ ap natural (omega arith), tt)
CountsFrom-snoc n (f ∷ es) e c h =
    (c.0, CountsFrom-snoc (n + 1) es e c.1 (h ∙ ap natural (omega arith)))

CountsFrom-last :
    (n : ℕ) (es : List SnapshotHistoryEntry) (e : SnapshotHistoryEntry)
    → CountsFrom n es
    → get_last? es ≡ some e
    → e.sequence ≡ natural (n + length es - 1)
CountsFrom-last n [] e c h = absurd (ground arith)
CountsFrom-last n (f ∷ []) e c h = ground arith
CountsFrom-last n (f ∷ g ∷ es) e c h =
    CountsFrom-last (n + 1) (g ∷ es) e c.1 h ∙ ap natural (omega arith)

ids_of-append : (es fs : List SnapshotHistoryEntry) → ids_of (es ++ fs) ≡ ids_of es ++ ids_of fs
ids_of-append [] fs = refl
ids_of-append (e ∷ es) fs = ap (λ t. e.snapshot_id ∷ t) (ids_of-append es fs)

length_of_no_last : (es : List SnapshotHistoryEntry) → get_last? es ≡ none → length es ≡ 0
length_of_no_last [] h = refl
length_of_no_last (e ∷ []) h = absurd (ground arith)
length_of_no_last (e ∷ f ∷ es) h = absurd (ground (arith, length_of_no_last (f ∷ es) h))

sequence_after :
    (history : List Json) (es : List SnapshotHistoryEntry) (final : Option Json)
    (last : Option SnapshotHistoryEntry)
    → get_last? history ≡ final
    → get_last? es ≡ last
    → LastReads final last
    → CountsFrom 1 es
    → next_sequence history ≡ natural (length es + 1)
unfolding next_sequence
sequence_after history es none none p q r c = ground (arith, length_of_no_last es q)
sequence_after history es none (some e) p q r c = absurd r
sequence_after history es (some j) none p q r c = absurd r
sequence_after history es (some j) (some e) p q r c =
    ground (arith, well_formed_lem j e r, CountsFrom-last 1 es e c q)

-- The next number is one more than the entries there are.
pub next_sequence_lem :
    (history : List Json) (es : List SnapshotHistoryEntry)
    → Reads history es
    → CountsFrom 1 es
    → next_sequence history ≡ natural (length es + 1)
next_sequence_lem history es r c =
    sequence_after history es _ _ refl refl (Reads-last history es r) c

last_id-snoc :
    (es : List SnapshotHistoryEntry) (e : SnapshotHistoryEntry)
    → last_id (es ++ e ∷ []) ≡ some e.snapshot_id
last_id-snoc es e = rw (get_last?-snoc es e, last_id) refl

-- A chronology with one more entry: new in the inventory, numbered next, and within the limit.
pub IsChronology-snoc :
    (latest : Option Text) (ids : List Text) (origin : Text) (es : List SnapshotHistoryEntry)
    (e : SnapshotHistoryEntry)
    → IsChronology latest ids origin es
    → includes ids e.snapshot_id ≡ false
    → (e.snapshot_id ≢ []) × (e.captured_at ≢ [])
    → e.sequence ≡ natural (length es + 1)
    → length es + 1 ≤ 10000
    → IsChronology
        (some e.snapshot_id)
        (sort_texts (set_add (set_of ids) e.snapshot_id))
        origin
        (es ++ e ∷ [])
IsChronology-snoc latest ids origin es e c new named number fits =
    let id = e.snapshot_id in
    let same = set_of-Distinct ids c.inventory in
    let held : (a : Text)
        → includes (sort_texts (set_add (set_of ids) id)) a
          ≡ (if text_eq id a then true else includes ids a) =
      λ a.
        includes-sort text_le (set_add (set_of ids) id) a ∙ rw same (includes-set_add ids id a) in
    let absent : includes (ids_of es) id ≡ false = elim (Bool-cases (includes (ids_of es) id)) [
      | inl there ↦ absurd (ground (arith, c.known id there))
      | inr gone ↦ gone
    ] in
    let ids_snoc = ids_of-append es (e ∷ []) in
    let listed : (a : Text)
        → includes (ids_of (es ++ e ∷ [])) a
          ≡ (if text_eq id a then true else includes (ids_of es) a) =
      λ a.
        rw ids_snoc (includes-append (ids_of es) (id ∷ []) a ∙ (unfold includes in ground arith)) in
    record {
      origin_known = c.origin_known;
      size = omega (arith, length-append es (e ∷ []));
      named = All-append _ es (e ∷ []) c.named (named, tt);
      inventory = sort-Distinct text_le _ (rw same (set_add-Distinct ids id c.inventory));
      once = rw ids_snoc (Distinct-snoc (ids_of es) id c.once absent);
      known = λ a h. ground (arith, held a, listed a, c.known a);
      complete = λ a h. ground (arith, held a, listed a, c.complete a);
      numbered = CountsFrom-snoc 1 es e c.numbered (number ∙ ap natural (omega arith));
      latest_last = sym (last_id-snoc es e);
    }

-- What a commit finds: no store, or a manifest of format 2 with a chronology.
pub data Prior (existing : Option ProjectStoreManifest) (ids : List Text) (origin : Text)
    (history : List Json) (es : List SnapshotHistoryEntry) : Type 0 where
  no_store :
      existing ≡ none
      → ids ≡ []
      → origin ≡ lit "native"
      → history ≡ []
      → es ≡ []
      → Prior existing ids origin history es
  store :
      (m : ProjectStoreManifest)
      → existing ≡ some m
      → m.body.snapshot_ids ≡ ids
      → m.body.snapshot_history ≡ some history
      → m.body.snapshot_chronology_origin ≡ some origin
      → Reads history es
      → IsChronology m.body.latest_snapshot_id ids origin es
      → Prior existing ids origin history es

nil-IsChronology : IsChronology none [] (lit "native") []
nil-IsChronology = record {
  origin_known = inl refl;
  size = omega arith;
  named = tt;
  inventory = tt;
  once = tt;
  known = λ a h. h;
  complete = λ a h. h;
  numbered = tt;
  latest_last = refl;
}

abbrev pub history_of : Option ProjectStoreManifest → List Json
history_of existing = or_default (of_existing existing (λ b. b.snapshot_history) none) []

abbrev pub origin_of : Option ProjectStoreManifest → Text
origin_of existing =
    or_default (of_existing existing (λ b. b.snapshot_chronology_origin) none) (lit "native")

-- Both cases as facts.
pub record Found (existing : Option ProjectStoreManifest) (ids : List Text) (origin : Text)
    (history : List Json) (es : List SnapshotHistoryEntry) : Type 0 where
  pub latest : Option Text
  pub chronology : IsChronology latest ids origin es
  pub reads : Reads history es
  pub same_ids : of_existing existing (λ b. b.snapshot_ids) [] ≡ ids
  pub same_history : history_of existing ≡ history
  pub same_origin : origin_of existing ≡ origin

pub Prior-Found :
    (existing : Option ProjectStoreManifest) (ids : List Text) (origin : Text) (history : List Json)
    (es : List SnapshotHistoryEntry)
    → Prior existing ids origin history es
    → Found existing ids origin history es
Prior-Found existing ids origin history es (no_store a b c d e) =
    rw (a, b, c, d, e)
      (record {
        latest = none;
        chronology = nil-IsChronology;
        reads = tt;
        same_ids = refl;
        same_history = refl;
        same_origin = refl;
      })
Prior-Found existing ids origin history es (store m a b c d r h) = record {
  latest = m.body.latest_snapshot_id;
  chronology = h;
  reads = r;
  same_ids = ground arith;
  same_history = ground arith;
  same_origin = ground arith;
}

-- What a successful computation of the next body says.
pub next_body_ok :
    (input : CommitInput) (existing : Option ProjectStoreManifest) (project_key : Text)
    (body : ManifestBody)
    → next_body input existing project_key ≡ ok body
    → (at : Text) × (as_string input.captured_at ≡ some at)
      × (at ≢ [])
      × (length (next_snapshot_ids input existing project_key) ≤ 10000)
      × (body ≡ next_fields input existing project_key at)
unfolding next_body require_snapshot_captured_at
next_body_ok input existing project_key body h = elim (Option-cases (as_string input.captured_at)) [
  | inl e ↦ absurd (ground arith)
  | inr (at, e) ↦ (at, e, ground arith, ground arith, ground arith)
]
