-- ===== src/Memory/Store/Write/Readable.antt =====
-- What a commit of project-memory/src/store.ts writes is what its read paths accept.
use oh_my_pm.Common.{◌≡◌, refl, sym, subst, ◌∙◌, true, false, Option, some, [], arith, ltb}
use oh_my_pm.Common.Text.{Text, text_eq_refl, includes}
use oh_my_pm.Common.Sets.{set_of, set_add, text_le, includes-sort, includes-set_add}
use oh_my_pm.Memory.Errors.{ok, >>=-eq-ok}
use oh_my_pm.Memory.Manifest.{ProjectStoreManifest, build_manifest}
use oh_my_pm.Memory.Manifest.Verify.{build_manifest-body, verify_manifest-build_manifest}
use oh_my_pm.Memory.Envelope.{RecordType, RecordEnvelope, build_envelope}
use oh_my_pm.Memory.Envelope.Verify.{parse_and_verify_envelope-build_envelope}
use oh_my_pm.Memory.Gates.Version.{IsReadable, assert_own_and_readable_iff}
use oh_my_pm.Memory.Commit.{CommitInput, next_fields, next_body, build_next_manifest, of_existing}
use oh_my_pm.Memory.Commit.Keeps.{next_body_ok}
use oh_my_pm.Memory.Store.Input.{Host, Payload}
use oh_my_pm.Memory.Store.Accept.{
  max_record_bytes, project_key, serialize_manifest, serialize_envelope, as_json,
  parse_and_verify_manifest, assert_manifest_size, accept_manifest, accept_envelope,
}

module _ (host : Host) (input : CommitInput) (existing : Option ProjectStoreManifest)
    (next : ProjectStoreManifest)
    (built : build_next_manifest input existing (project_key host input.project_id) host.platform
      ≡ ok next) where
  abbrev key : Text
  key = project_key host input.project_id

  -- The fields of the next manifest, and that it was built of them.
  pub next-fields :
      (at : Text) × (next.body ≡ next_fields input existing key at)
      × (build_manifest host.platform next.body ≡ ok next)
  unfolding build_next_manifest
  next-fields =
      let (body, made, whole) = >>=-eq-ok (next_body input existing key) _ built in
      let (at, _, _, _, fields) = next_body_ok input existing key body made in
      let same = build_manifest-body host.platform body next whole in
      (at, same ∙ fields, subst (λ b. build_manifest host.platform b ≡ ok next) (sym same) whole)

  next-IsReadable : IsReadable next.body input.project_id key
  unfolding next_fields
  next-IsReadable =
      let (at, fields, _) = next-fields in
      rw fields (record { own_project = refl; own_key = refl; schema = refl; format = refl })

  -- The snapshot is in the inventory.
  pub includes-next : includes next.body.snapshot_ids input.snapshot_id ≡ true
  unfolding next_fields
  includes-next =
      let (at, fields, _) = next-fields in
      let ids = set_of (of_existing existing (λ b. b.snapshot_ids) []) in
      rw fields (
        ground (
          arith,
          includes-sort text_le (set_add ids input.snapshot_id) input.snapshot_id,
          includes-set_add ids input.snapshot_id input.snapshot_id,
          text_eq_refl input.snapshot_id,
        ))

  -- A later read accepts the manifest that a commit builds, if its text is not too large.
  pub accept_manifest-build_next_manifest :
      assert_manifest_size host (serialize_manifest next) ≡ ok tt
      → accept_manifest host input.project_id (serialize_manifest next) ≡ ok next
  unfolding accept_manifest parse_and_verify_manifest
  accept_manifest-build_next_manifest size =
      let (at, fields, whole) = next-fields in
      let verified = verify_manifest-build_manifest host.platform next.body next whole in
      let gates = (assert_own_and_readable_iff next.body input.project_id key).1 next-IsReadable in
      rw (size, verified, gates) refl

pub accept_envelope-build_envelope :
    (host : Host) (project_id : Text) (t : RecordType) (payload : Payload) (e : RecordEnvelope)
    → build_envelope host.platform t project_id payload.record_id payload.fields ≡ ok e
    → ltb max_record_bytes (host.contents_size (serialize_envelope e)) ≡ false
    → accept_envelope host project_id t payload.record_id (some (serialize_envelope e)) ≡ ok e
unfolding accept_envelope as_json
accept_envelope-build_envelope host project_id t payload e built size = rw size (
    parse_and_verify_envelope-build_envelope host.platform t project_id payload.record_id
      payload.fields e built)
