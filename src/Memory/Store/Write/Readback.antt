-- ===== src/Memory/Store/Write/Readback.antt =====
-- The snapshot of a commit in project-memory/src/store.ts on its way from staging to its final
-- path, where no file stood before.
use oh_my_pm.Common.{
  ◌≡◌, ◌≢◌, refl, sym, ap, ap₂, subst, ◌∙◌, Bool, true, false, Option, none, some, List, [], ◌∷◌,
  ◌++◌, All, ltb, arith,
}
use oh_my_pm.Common.Text.{Text, lit}
use oh_my_pm.Common.Action.{returns, Action, Ends-intro, Triple, Triple-bind, Triple-weaken}
use oh_my_pm.Memory.Errors.{ok}
use oh_my_pm.Memory.Envelope.{RecordType, snapshot, evidence, record_type_text, RecordEnvelope}
use oh_my_pm.Memory.FileSystem.{Contents, Thrown, FileSystem}
use oh_my_pm.Memory.FileSystem.Laws.{
  FileSystemLaws, of_result_Triple, if_Triple, returns_Triple, refuse_Triple, Triple-fact,
}
use oh_my_pm.Memory.Store.Input.{Host, Bundle}
use oh_my_pm.Memory.Store.Accept.{
  max_record_bytes, project_key, record_key, record_path, serialize_envelope,
}
use oh_my_pm.Memory.Store.Write.{
  StagedRecord, child, staging_of, temp_for, staged_path_of, write_staged, stage, stage_all,
  move_record, move_all,
}

pub append_cancel : (xs ys zs : Text) → xs ++ ys ≡ xs ++ zs → ys ≡ zs
append_cancel [] ys zs e = e
append_cancel (x ∷ xs) ys zs e = append_cancel xs ys zs (ground arith)

module _ (host : Host) {S : Type 0} (fs : FileSystem S) (content : S → Text → Option Contents)
    (Inside : Text → Text → Type 0) (temp_beside : Text → Text → Text)
    (laws : FileSystemLaws fs content Inside temp_beside) (b : Bundle) (dir f : Text)
    (outside : ¬ Inside (staging_of dir) f)
    (no_folder : (s : S)
      → (fs.exists f s).0 ≡ returns true
      → (c : Contents) × (content s f ≡ some c)) where
  abbrev key : Text
  key = project_key host b.project_id

  abbrev staging : Text
  staging = staging_of dir

  abbrev temp : Text
  temp = temp_for host fs b key dir (lit "staged")

  -- The name of a record's file in staging.
  abbrev pub staged_name : RecordType → Text → Text
  staged_name t id = record_type_text t ++ lit "-" ++ record_key host t id ++ lit ".json"

  abbrev pub first_staged : Text
  first_staged = child staging (staged_name snapshot b.snapshot.record_id)

  abbrev pub Any : S → Type 0
  Any s = Unit

  loose :
      {A : Type 0} {P X : S → Type 0} {Q : A → S → Type 0} {a : Action S Thrown A}
      → Triple P a Q X
      → Triple P a Q Any
  loose t = Triple-weaken (λ s h. h) (λ _ s h. h) (λ s h. tt) t

  abbrev pub Fresh : S → Type 0
  Fresh s = content s f ≡ none

  abbrev pub Waits : Contents → S → Type 0
  Waits c s = Fresh s × (content s first_staged ≡ some c)

  abbrev pub Final : Contents → S → Type 0
  Final c s = content s f ≡ some c

  abbrev pub Fits : Contents → Type 0
  Fits c = ltb max_record_bytes (host.contents_size c) ≡ false

  -- A write to staging leaves the final path alone.
  write_outside :
      (name : Text) (c : Contents) (s : S)
      → content (fs.write_file_atomic (child staging name) c temp s).1 f ≡ content s f
  write_outside name c s =
      laws.write_elsewhere s (child staging name) c temp f
        (λ e. outside (subst (Inside staging) (sym e) (laws.child_inside staging name)))
        (λ e. outside (subst (Inside staging) (sym e) (laws.temp_inside staging name temp)))

  write_first_Triple :
      (name : Text) (c : Contents)
      → child staging name ≡ first_staged
      → Triple Fresh
          (write_staged host fs b key dir (child staging name) c)
          (λ _ s. Waits c s × Fits c)
          Any
  unfolding write_staged
  write_first_Triple name c e =
      if_Triple (ltb max_record_bytes (host.contents_size c)) (λ _. loose (refuse_Triple _))
        (λ fits. record {
          run = λ s fresh.
              let t = (fs.write_file_atomic (child staging name) c temp s).1 in
              Ends-intro (λ _ s. Waits c s × Fits c) Any
                (fs.write_file_atomic (child staging name) c temp s).0 t
                (λ _ r. (
                  (
                    write_outside name c s ∙ fresh,
                    ap (content t) (sym e) ∙ laws.write_whole s (child staging name) c temp r,
                  ),
                  fits,
                ))
                (λ _ _. tt);
        })

  -- What `stage` tells of a record's place.
  abbrev pub IsFirst : Contents → StagedRecord → Type 0
  IsFirst c item = (item.staged_path ≡ first_staged) × (item.final_path ≡ f) × Fits c

  module _ (placed : record_path host key snapshot b.snapshot.record_id ≡ ok f) where
    pub stage-snapshot_Triple :
        (e : RecordEnvelope)
        → e.body.record_type ≡ snapshot
        → e.body.record_id ≡ b.snapshot.record_id
        → Triple Fresh
            (stage host fs b key dir e)
            (λ item s. Waits (serialize_envelope e) s × IsFirst (serialize_envelope e) item)
            Any
    unfolding stage
    stage-snapshot_Triple e is_snapshot same =
        Triple-bind
          (write_first_Triple (staged_name e.body.record_type e.body.record_id)
            (serialize_envelope e) here)
          λ _. Triple-fact λ fits.
            Triple-bind
              (loose (of_result_Triple (record_path host key e.body.record_type e.body.record_id)))
              λ final. Triple-fact λ found.
                returns_Triple
                  (record {
                    staged_path =
                        staged_path_of host fs b key dir e.body.record_type e.body.record_id;
                    final_path = final;
                  })
                  (λ s waits. (waits, (here, there final found, fits)))
      where
        here : child staging (staged_name e.body.record_type e.body.record_id) ≡ first_staged
        here = rw (is_snapshot, same)

        there :
            (final : Text)
            → record_path host key e.body.record_type e.body.record_id ≡ ok final
            → final ≡ f
        there final found =
            let found' : record_path host key snapshot b.snapshot.record_id ≡ ok final =
              sym (ap₂ (λ t id. record_path host key t id) is_snapshot same) ∙ found in
            cc

  module _ (c : Contents)
      (temp_apart : (name : Text) → first_staged ≢ temp_beside (child staging name) temp) where
    write_other_Triple :
        (name : Text) (other : Contents)
        → first_staged ≢ child staging name
        → Triple
            (Waits c)
            (write_staged host fs b key dir (child staging name) other)
            (λ _. Waits c)
            Any
    unfolding write_staged
    write_other_Triple name other apart =
        if_Triple (ltb max_record_bytes (host.contents_size other)) (λ _. loose (refuse_Triple _))
          (λ _. record {
            run = λ s (fresh, waits).
                let t = (fs.write_file_atomic (child staging name) other temp s).1 in
                Ends-intro (λ _. Waits c) Any
                  (fs.write_file_atomic (child staging name) other temp s).0 t
                  (λ _ _. (
                    write_outside name other s ∙ fresh,
                    laws.write_elsewhere s (child staging name) other temp first_staged apart
                          (temp_apart name)
                        ∙ waits,
                  ))
                  (λ _ _. tt);
          })

    -- The names of evidence differ from those of snapshots.
    names_apart : (id : Text) → first_staged ≢ child staging (staged_name evidence id)
    names_apart id e =
        let rest =
          append_cancel (staging ++ lit "/") (staged_name snapshot b.snapshot.record_id)
            (staged_name evidence id) e in
        absurd (ground arith)

    stage_other_Triple :
        (e : RecordEnvelope)
        → e.body.record_type ≡ evidence
        → Triple
            (Waits c)
            (stage host fs b key dir e)
            (λ item s. Waits c s × Inside staging item.staged_path)
            Any
    unfolding stage
    stage_other_Triple e is_evidence =
        Triple-bind
          (write_other_Triple (staged_name e.body.record_type e.body.record_id)
            (serialize_envelope e) apart)
          λ _.
            Triple-bind
              (loose (of_result_Triple (record_path host key e.body.record_type e.body.record_id)))
              λ final.
                returns_Triple
                  (record {
                    staged_path =
                        staged_path_of host fs b key dir e.body.record_type e.body.record_id;
                    final_path = final;
                  })
                  (λ s h. (h.0, laws.child_inside staging _))
      where
        apart : first_staged ≢ child staging (staged_name e.body.record_type e.body.record_id)
        apart = rw is_evidence (names_apart e.body.record_id)

    pub stage_others_Triple :
        (es : List RecordEnvelope)
        → All (λ e. e.body.record_type ≡ evidence) es
        → Triple
            (Waits c)
            (stage_all host fs b key dir es)
            (λ items s. Waits c s × All (λ item. Inside staging item.staged_path) items)
            Any
    unfolding stage_all
    stage_others_Triple [] are = returns_Triple [] (λ s h. (h, tt))
    stage_others_Triple (e ∷ es) (is, are) = Triple-bind (stage_other_Triple e is) λ item.
        Triple-fact λ here.
          Triple-bind (stage_others_Triple es are) λ items.
            Triple-fact λ others. returns_Triple (item ∷ items) (λ s h. (h, (here, others)))

  module _ (c : Contents) where
    -- A look at the final path before the snapshot is moved finds nothing.
    look_Triple :
        (path : Text)
        → path ≡ f
        → Triple (Waits c) (fs.exists path) (λ present s. Waits c s × (present ≡ false)) Any
    look_Triple path e = record {
      run = λ s (fresh, waits).
          let t = (fs.exists path s).1 in
          Ends-intro (λ present s. Waits c s × (present ≡ false)) Any (fs.exists path s).0 t
            (λ present r. (
              (laws.exists_keeps s path f ∙ fresh, laws.exists_keeps s path first_staged ∙ waits),
              absent present s fresh (subst (λ q. (fs.exists q s).0 ≡ returns present) e r),
            ))
            (λ _ _. tt);
    }
      where
        absent :
            (present : Bool) (s : S)
            → content s f ≡ none
            → (fs.exists f s).0 ≡ returns present
            → present ≡ false
        absent false s fresh r = refl
        absent true s fresh r = let (x, there) = no_folder s r in absurd (cc)

    first_move_Triple :
        (item : StagedRecord)
        → IsFirst c item
        → Triple (Waits c) (fs.move_file item.staged_path item.final_path) (λ _. Final c) Any
    first_move_Triple item (from, to, _) = record {
      run = λ s (fresh, waits).
          let t = (fs.move_file item.staged_path item.final_path s).1 in
          Ends-intro (λ _. Final c) Any (fs.move_file item.staged_path item.final_path s).0 t
            (λ _ r.
              let (x, was, is) = laws.move_moves s item.staged_path item.final_path r in
              let was' : content s first_staged ≡ some x = ap (content s) (sym from) ∙ was in
              let same : some x ≡ some c = sym was' ∙ waits in ap (content t) (sym to) ∙ is ∙ same)
            (λ _ _. tt);
    }

    move_first_Triple :
        (item : StagedRecord)
        → IsFirst c item
        → Triple (Waits c) (move_record host fs b key dir item) (λ _. Final c) Any
    unfolding move_record
    move_first_Triple item first = Triple-bind (look_Triple item.final_path first.1) λ present.
        Triple-fact
          λ absent. if_Triple present (λ there. absurd (cc)) (λ _. first_move_Triple item first)

    look_other_Triple :
        (path : Text)
        → Triple
            (Final c)
            (fs.exists path)
            (λ present s. Final c s × (present ≡ false → path ≢ f))
            Any
    look_other_Triple path = record {
      run = λ s final.
          let t = (fs.exists path s).1 in
          Ends-intro (λ present s. Final c s × (present ≡ false → path ≢ f)) Any
            (fs.exists path s).0 t
            (λ present r.
              (laws.exists_keeps s path f ∙ final, λ absent e. other present s final r absent e))
            (λ _ _. tt);
    }
      where
        other :
            (present : Bool) (s : S)
            → content s f ≡ some c
            → (fs.exists path s).0 ≡ returns present
            → present ≡ false
            → path ≢ f
        other present s final r absent e =
            let nothing : content s path ≡ none =
              laws.exists_not s path (r ∙ ap (λ p. returns p) absent) in
            let nothing' : content s f ≡ none = ap (content s) (sym e) ∙ nothing in cc

    other_move_Triple :
        (item : StagedRecord)
        → Inside staging item.staged_path
        → item.final_path ≢ f
        → Triple (Final c) (fs.move_file item.staged_path item.final_path) (λ _. Final c) Any
    other_move_Triple item inside apart = record {
      run = λ s final.
          Ends-intro (λ _. Final c) Any (fs.move_file item.staged_path item.final_path s).0
            (fs.move_file item.staged_path item.final_path s).1
            (λ _ _.
              laws.move_elsewhere s item.staged_path item.final_path f
                (λ e. outside (subst (Inside staging) (sym e) inside)) (λ e. apart (sym e))
              ∙ final)
            (λ _ _. tt);
    }

    move_others_Triple :
        (items : List StagedRecord)
        → All (λ item. Inside staging item.staged_path) items
        → Triple (Final c) (move_all host fs b key dir items) (λ _. Final c) Any
    unfolding move_all move_record
    move_others_Triple [] inside = returns_Triple tt (λ s h. h)
    move_others_Triple (item ∷ items) (here, inside) =
        Triple-bind (one item here) λ _. move_others_Triple items inside
      where
        one :
            (item : StagedRecord)
            → Inside staging item.staged_path
            → Triple (Final c) (move_record host fs b key dir item) (λ _. Final c) Any
        one item here = Triple-bind (look_other_Triple item.final_path) λ present.
            Triple-fact λ apart.
              if_Triple present (λ _. returns_Triple tt (λ s h. h))
                (λ absent. other_move_Triple item here (apart absent))

    pub move_all_Triple :
        (item : StagedRecord) (items : List StagedRecord)
        → IsFirst c item
        → All (λ item. Inside staging item.staged_path) items
        → Triple (Waits c) (move_all host fs b key dir (item ∷ items)) (λ _. Final c) Any
    unfolding move_all
    move_all_Triple item items first inside =
        Triple-bind (move_first_Triple item first) λ _. move_others_Triple items inside
