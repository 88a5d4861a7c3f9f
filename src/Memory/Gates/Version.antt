-- ===== src/Memory/Gates/Version.antt =====
-- Which manifests project-memory/src/store.ts reads on.
use oh_my_pm.Common.{◌≡◌, ◌↔◌, arith}
use oh_my_pm.Common.Text.{Text, text_eq_iff}
use oh_my_pm.Memory.Errors.{ok}
use oh_my_pm.Memory.Manifest.{ManifestBody}
use oh_my_pm.Memory.Gates.{
  classify_version, assert_manifest_ownership, assert_readable_version, assert_own_and_readable,
}

-- The project's own, of the one schema and the one format that this build reads.
pub record IsReadable (m : ManifestBody) (project_id project_key : Text) : Type 0 where
  pub own_project : m.project_id ≡ project_id
  pub own_key : m.project_key ≡ project_key
  pub schema : m.project_brain_schema_version ≡ 1
  pub format : m.store_format_version ≡ 2

-- A manifest passes the gates of a read exactly when it is the project's own, by id and by key, and
-- has schema version 1 and store format 2.
pub assert_own_and_readable_iff :
    (m : ManifestBody) (project_id project_key : Text)
    → (assert_own_and_readable m project_id project_key ≡ ok tt)
      ↔ IsReadable m project_id project_key
unfolding assert_own_and_readable assert_manifest_ownership assert_readable_version classify_version
assert_own_and_readable_iff m project_id project_key = (
  λ h. record {
    own_project = ground (arith, text_eq_iff m.project_id project_id);
    own_key = ground (arith, text_eq_iff m.project_key project_key);
    schema = ground arith;
    format = ground arith;
  },
  λ r. ground (
    arith,
    r.own_project,
    r.own_key,
    r.schema,
    r.format,
    text_eq_iff m.project_id project_id,
    text_eq_iff m.project_key project_key,
  ),
)
