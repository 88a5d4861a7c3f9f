-- ===== src/Memory/Store/Write/Frame.antt =====
-- What the steps of a commit in project-memory/src/store.ts leave alone, up to the moves of the
-- records.
use oh_my_pm.Common.{
  ◌≡◌, ◌≢◌, sym, subst, ◌∙◌, Bool, true, false, Option, none, some, List, [], ◌∷◌, ◌++◌, map, All,
  ltb, if◌then◌else◌,
}
use oh_my_pm.Common.Text.{Text, lit}
use oh_my_pm.Common.Action.{returns, Action, pure, Ends-intro, Triple, Triple-bind, Triple-weaken}
use oh_my_pm.Memory.Errors.{ok}
use oh_my_pm.Memory.Envelope.{RecordType, record_type_text, RecordEnvelope}
use oh_my_pm.Memory.FileSystem.{Contents, Thrown, FileSystem}
use oh_my_pm.Memory.FileSystem.Laws.{
  FileSystemLaws, OnContents, of_result_Triple, if_Triple, returns_Triple, refuse_Triple,
  Triple-fact,
}
use oh_my_pm.Memory.Store.Input.{Host, Bundle}
use oh_my_pm.Memory.Store.Accept.{
  max_record_bytes, project_key, record_key, record_path, serialize_envelope,
}
use oh_my_pm.Memory.Store.Write.{
  StagedRecord, child, staging_of, temp_for, staged_path_of, write_staged, stage, stage_all,
  move_record, move_all,
}

module _ {S : Type 0} (content : S → Text → Option Contents) where
  -- Every file that `IsKept` names and that was there before is there with the same contents.
  abbrev pub Keeps : (Text → Type 0) → (Text → Option Contents) → S → Type 0
  Keeps IsKept before s =
      (q : Text) (c : Contents) → IsKept q → before q ≡ some c → content s q ≡ some c

  -- A file stands at each of the paths.
  abbrev pub Holding : List Text → S → Type 0
  Holding paths s = All (λ q. (c : Contents) × (content s q ≡ some c)) paths

module _ (host : Host) {S : Type 0} (fs : FileSystem S) (content : S → Text → Option Contents)
    (Inside : Text → Text → Type 0) (temp_beside : Text → Text → Text)
    (laws : FileSystemLaws fs content Inside temp_beside) (b : Bundle) (dir m : Text) where
  abbrev pub key : Text
  key = project_key host b.project_id

  -- Neither the manifest nor its temp file, and not in the staging directory.
  abbrev pub IsKept : Text → Type 0
  IsKept q =
      (q ≢ m)
      × (q ≢ temp_beside m (temp_for host fs b key dir (lit "manifest")))
      × (¬ Inside (staging_of dir) q)

  module _ (manifest_apart : ¬ Inside (staging_of dir) m) (before : Text → Option Contents) where
    abbrev pub Old : S → Type 0
    Old s = Keeps content IsKept before s × (content s m ≡ before m)

    pub Old-stable : OnContents content Old
    Old-stable s t same (kept, old) = (λ q c k e. same q ∙ kept q c k e, same m ∙ old)

    write_staged_keeps :
        (name : Text) (c : Contents) (s : S) (q : Text)
        → (¬ Inside (staging_of dir) q)
        → content
            (fs.write_file_atomic
              (child (staging_of dir) name)
              c
              (temp_for host fs b key dir (lit "staged"))
              s).1
            q
          ≡ content s q
    write_staged_keeps name c s q out =
        laws.write_elsewhere s (child (staging_of dir) name) c
          (temp_for host fs b key dir (lit "staged")) q
          (λ e.
            out (subst (Inside (staging_of dir)) (sym e) (laws.child_inside (staging_of dir) name)))
          (λ e. out (
            subst (Inside (staging_of dir)) (sym e)
              (laws.temp_inside (staging_of dir) name (temp_for host fs b key dir (lit "staged")))))

    -- An action that touches the staging directory alone.
    pub in_staging :
        {A : Type 0} {a : Action S Thrown A}
        → ((s : S) (q : Text) → (¬ Inside (staging_of dir) q) → content (a s).1 q ≡ content s q)
        → Triple Old a (λ _. Old) Old
    in_staging {a} same = record {
      run = λ s (kept, old).
          let t = (a s).1 in
          let still : Old t =
            (λ q c k e. same s q k.2 ∙ kept q c k e, same s m manifest_apart ∙ old) in
          Ends-intro (λ _. Old) Old (a s).0 t (λ _ _. still) (λ _ _. still);
    }

    -- Where a record stands, and where it goes.
    abbrev pub IsStaged : RecordEnvelope → StagedRecord → Type 0
    IsStaged e item =
        (record_path host key e.body.record_type e.body.record_id ≡ ok item.final_path)
        × Inside (staging_of dir) item.staged_path

    write_staged_Triple :
        (name : Text) (c : Contents)
        → Triple Old (write_staged host fs b key dir (child (staging_of dir) name) c) (λ _. Old) Old
    unfolding write_staged
    write_staged_Triple name c =
        if_Triple (ltb max_record_bytes (host.contents_size c)) (λ _. refuse_Triple _)
          (λ _. in_staging (write_staged_keeps name c))

    pub stage_Triple :
        (e : RecordEnvelope)
        → Triple Old (stage host fs b key dir e) (λ item s. Old s × IsStaged e item) Old
    unfolding stage
    stage_Triple e =
        Triple-bind
          (write_staged_Triple
            (record_type_text e.body.record_type
              ++ lit "-"
              ++ record_key host e.body.record_type e.body.record_id
              ++ lit ".json")
            (serialize_envelope e))
          λ _.
            Triple-bind
              (of_result_Triple (record_path host key e.body.record_type e.body.record_id))
              λ final. Triple-fact λ found.
                returns_Triple
                  (record {
                    staged_path =
                        staged_path_of host fs b key dir e.body.record_type e.body.record_id;
                    final_path = final;
                  })
                  (λ s old. (old, (found, laws.child_inside (staging_of dir) _)))

    abbrev pub AllStaged : List RecordEnvelope → List StagedRecord → Type 0
    AllStaged [] [] = Unit
    AllStaged (e ∷ es) (item ∷ items) = IsStaged e item × AllStaged es items
    AllStaged _ _ = ⊥

    pub stage_all_Triple :
        (es : List RecordEnvelope)
        → Triple Old (stage_all host fs b key dir es) (λ items s. Old s × AllStaged es items) Old
    unfolding stage_all
    stage_all_Triple [] = returns_Triple [] (λ s old. (old, tt))
    stage_all_Triple (e ∷ es) = Triple-bind (stage_Triple e) λ item. Triple-fact λ here.
        Triple-bind (stage_all_Triple es) λ items.
          Triple-fact λ others. returns_Triple (item ∷ items) (λ s old. (old, (here, others)))

    module _
        (no_folders : (s : S) (t : RecordType) (id path : Text)
          → record_path host key t id ≡ ok path
          → (fs.exists path s).0 ≡ returns true
          → (c : Contents) × (content s path ≡ some c))
        (records_apart : (t : RecordType) (id path : Text)
          → record_path host key t id ≡ ok path
          → IsKept path) where
      abbrev pub Held : List Text → S → Type 0
      Held paths s = Old s × Holding content paths s

      Holding-stable :
          (paths : List Text) (s t : S)
          → ((q : Text) → content t q ≡ content s q)
          → Holding content paths s
          → Holding content paths t
      Holding-stable [] s t same h = tt
      Holding-stable (q ∷ paths) s t same ((c, e), rest) =
          ((c, same q ∙ e), Holding-stable paths s t same rest)

      Held-stable : (paths : List Text) → OnContents content (Held paths)
      Held-stable paths s t same (old, held) =
          (Old-stable s t same old, Holding-stable paths s t same held)

      -- The paths hold files, and are kept.
      abbrev AllKept : List Text → Type 0
      AllKept paths = All IsKept paths

      module _ (e : RecordEnvelope) (item : StagedRecord) (here : IsStaged e item) where
        final-IsKept : IsKept item.final_path
        final-IsKept = records_apart e.body.record_type e.body.record_id item.final_path here.0

        moved_elsewhere :
            (s : S) (q : Text) (c : Contents)
            → content s item.final_path ≡ none
            → (¬ Inside (staging_of dir) q)
            → content s q ≡ some c
            → content (fs.move_file item.staged_path item.final_path s).1 q ≡ some c
        moved_elsewhere s q c free out is =
            laws.move_elsewhere s item.staged_path item.final_path q
              (λ e. out (subst (Inside (staging_of dir)) (sym e) here.1)) (λ e. cc)
            ∙ is

        Holding-moved :
            (paths : List Text) (s : S)
            → AllKept paths
            → content s item.final_path ≡ none
            → Holding content paths s
            → Holding content paths (fs.move_file item.staged_path item.final_path s).1
        Holding-moved [] s kept free h = tt
        Holding-moved (q ∷ paths) s kept free ((c, e), rest) =
            ((c, moved_elsewhere s q c free kept.0.2 e), Holding-moved paths s kept.1 free rest)

        Old-moved :
            (s : S)
            → content s item.final_path ≡ none
            → Old s
            → Old (fs.move_file item.staged_path item.final_path s).1
        Old-moved s free (kept, old) = (
          λ q c k e. moved_elsewhere s q c free k.2 (kept q c k e),
          laws.move_elsewhere s item.staged_path item.final_path m
                (λ e. manifest_apart (subst (Inside (staging_of dir)) (sym e) here.1))
                (λ e. final-IsKept.0 (sym e))
              ∙ old,
        )

        Seen : Bool → S → Type 0
        Seen true s = (c : Contents) × (content s item.final_path ≡ some c)
        Seen false s = content s item.final_path ≡ none

        see :
            (present : Bool) (s : S)
            → (fs.exists item.final_path s).0 ≡ returns present
            → Seen present (fs.exists item.final_path s).1
        unfolding Seen
        see true s r =
            let (c, is) =
              no_folders s e.body.record_type e.body.record_id item.final_path here.0 r in
            (c, laws.exists_keeps s item.final_path item.final_path ∙ is)
        see false s r =
            laws.exists_keeps s item.final_path item.final_path
            ∙ laws.exists_not s item.final_path r

        exists_Triple :
            (paths : List Text)
            → Triple
                (Held paths)
                (fs.exists item.final_path)
                (λ present s. Held paths s × Seen present s)
                Old
        exists_Triple paths = record {
          run = λ s held.
              let t = (fs.exists item.final_path s).1 in
              let still = Held-stable paths s t (laws.exists_keeps s item.final_path) held in
              Ends-intro (λ present s. Held paths s × Seen present s) Old
                (fs.exists item.final_path s).0 t (λ present r. (still, see present s r))
                (λ _ _. still.0);
        }

        move_file_Triple :
            (paths : List Text)
            → AllKept paths
            → Triple
                (λ s. Held paths s × (content s item.final_path ≡ none))
                (fs.move_file item.staged_path item.final_path)
                (λ _. Held (item.final_path ∷ paths))
                Old
        move_file_Triple paths kept = record {
          run = λ s (held, free).
              let t = (fs.move_file item.staged_path item.final_path s).1 in
              let old = Old-moved s free held.0 in
              Ends-intro (λ _. Held (item.final_path ∷ paths)) Old
                (fs.move_file item.staged_path item.final_path s).0 t
                (λ _ r.
                  let (c, from, to) = laws.move_moves s item.staged_path item.final_path r in
                  (old, ((c, to), Holding-moved paths s kept free held.1)))
                (λ _ _. old);
        }

        settle :
            (paths : List Text)
            → AllKept paths
            → (present : Bool)
            → Triple
                (λ s. Held paths s × Seen present s)
                (if present then pure tt else fs.move_file item.staged_path item.final_path)
                (λ _. Held (item.final_path ∷ paths))
                Old
        unfolding Seen
        settle paths kept true = returns_Triple tt (λ s (held, seen). (held.0, (seen, held.1)))
        settle paths kept false = move_file_Triple paths kept

        move_record_Triple :
            (paths : List Text)
            → AllKept paths
            → Triple
                (Held paths)
                (move_record host fs b key dir item)
                (λ _. Held (item.final_path ∷ paths))
                Old
        unfolding move_record
        move_record_Triple paths kept = Triple-bind (exists_Triple paths) (settle paths kept)

      abbrev pub finals : List StagedRecord → List Text
      finals items = map (λ item. item.final_path) items

      pub move_all_Triple :
          (es : List RecordEnvelope) (items : List StagedRecord) (paths : List Text)
          → AllStaged es items
          → AllKept paths
          → Triple
              (Held paths)
              (move_all host fs b key dir items)
              (λ _ s. Held paths s × Holding content (finals items) s)
              Old
      unfolding move_all
      move_all_Triple [] [] paths staged kept = returns_Triple tt (λ s held. (held, tt))
      move_all_Triple [] (item ∷ items) paths staged kept = absurd staged
      move_all_Triple (e ∷ es) [] paths staged kept = absurd staged
      move_all_Triple (e ∷ es) (item ∷ items) paths (here, others) kept =
          Triple-bind (move_record_Triple e item here paths kept) λ _.
            Triple-weaken (λ s h. h) (λ _ s (held, rest). ((held.0, held.1.1), (held.1.0, rest)))
              (λ s h. h)
              (move_all_Triple es items (item.final_path ∷ paths) others
                (final-IsKept e item here, kept))
