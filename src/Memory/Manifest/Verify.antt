-- ===== src/Memory/Manifest/Verify.antt =====
-- Building and verifying a manifest, project-memory/src/manifest.ts.
use oh_my_pm.Common.{◌≡◌, inl, inr, false, arith}
use oh_my_pm.Common.Text.{text_eq_refl}
use oh_my_pm.Memory.Errors.{ok, Result-cases}
use oh_my_pm.Memory.Integrity.{
  Platform, domain_manifest_integrity, compute_integrity, assert_integrity,
}
use oh_my_pm.Memory.Manifest.{
  ManifestBody, ProjectStoreManifest, manifest_body_json, latest_is_missing, build_manifest,
  verify_manifest, assert_manifest_chronology, invalid_input, corrupt_store,
}
use oh_my_pm.Memory.Manifest.Accepts.{assert_manifest_chronology_iff}

-- What a successful build says.
record Built (p : Platform) (body : ManifestBody) (m : ProjectStoreManifest) : Type 0 where
  here : latest_is_missing body ≡ false
  chronology : assert_manifest_chronology invalid_input body ≡ ok tt
  body_kept : m.body ≡ body
  digest : compute_integrity p domain_manifest_integrity (manifest_body_json body) ≡ ok m.integrity

build_manifest-Built :
    (p : Platform) (body : ManifestBody) (m : ProjectStoreManifest)
    → build_manifest p body ≡ ok m
    → Built p body m
unfolding build_manifest
build_manifest-Built p body m h =
    elim (Result-cases (assert_manifest_chronology invalid_input body)) [
      | inl (_, passed) ↦
          elim (Result-cases
            (compute_integrity p domain_manifest_integrity (manifest_body_json body))) [
              | inl (digest, hashed) ↦ ground arith
              | inr (e, failed) ↦ absurd (ground arith)
            ]
      | inr (e, failed) ↦ absurd (ground arith)
    ]

-- A manifest that `buildManifest` made is accepted by the reader's check, unchanged: the digest
-- matches, the latest pointer is in the inventory and the chronology is one.
pub verify_manifest-build_manifest :
    (p : Platform) (body : ManifestBody) (m : ProjectStoreManifest)
    → build_manifest p body ≡ ok m
    → verify_manifest p m ≡ ok m
unfolding verify_manifest assert_integrity
verify_manifest-build_manifest p body m h =
    let built = build_manifest-Built p body m h in
    let chronology =
      (assert_manifest_chronology_iff corrupt_store body).1
        ((assert_manifest_chronology_iff invalid_input body).0 built.chronology) in
    ground (arith, built.here, built.body_kept, built.digest, chronology, text_eq_refl m.integrity)

-- A build keeps the body.
pub build_manifest-body :
    (p : Platform) (body : ManifestBody) (m : ProjectStoreManifest)
    → build_manifest p body ≡ ok m
    → m.body ≡ body
build_manifest-body p body m h = (build_manifest-Built p body m h).body_kept
