-- ===== src/Memory/RepairPlan/Rebuilds.antt =====
-- The derived rebuilds of a plan of project-memory/src/repair-plan.ts: at most one is left.
use oh_my_pm.Common.{
  ℕ, ◌+◌, ◌≡◌, refl, ◌∙◌, ap, Bool, true, false, ◌&&◌, List, [], ◌∷◌, arith, count_if, any_of,
  if◌then◌else◌,
}
use oh_my_pm.Common.Text.{Text}
use oh_my_pm.Common.Sort.{count_if-sort}
use oh_my_pm.Memory.Errors.{ok, >>=-eq-ok}
use oh_my_pm.Memory.Integrity.{Platform}
use oh_my_pm.Memory.RepairTypes.{
  RepairActionCode, quarantine_authoritative_file, rebuild_derived_manifest, rebuild_derived_index,
  reindex_verified_orphan, remove_owned_temporary_residue, reclaim_dead_stale_lock,
  report_unsupported_schema, report_unrepairable, RepairFinding, RepairScanResult,
  RepairPlannedAction, RepairPlan,
}
use oh_my_pm.Memory.RepairPlan.{
  is_executable, is_manifest_rebuild, is_index_rebuild, first_rebuilds, without_index_rebuilds,
  dedupe_derived_rebuilds, runs_before, sort_actions, split_findings, build_repair_plan,
}
use oh_my_pm.Memory.RepairPlan.Order.{is_rebuild}
use oh_my_pm.Memory.RepairPlan.Split.{split_findings-Parted}

abbrev manifest_step : RepairPlannedAction → Bool
manifest_step a = is_manifest_rebuild a.action

abbrev index_step : RepairPlannedAction → Bool
index_step a = is_index_rebuild a.action

abbrev rebuild_step : RepairPlannedAction → Bool
rebuild_step a = is_rebuild a.action

abbrev one_if : Bool → ℕ
one_if b = if b then 1 else 0

-- No action is both.
not_both : (c : RepairActionCode) → is_manifest_rebuild c ≡ true → is_index_rebuild c ≡ false
not_both rebuild_derived_manifest h = refl
not_both rebuild_derived_index h = absurd (ground arith)
not_both quarantine_authoritative_file h = refl
not_both reindex_verified_orphan h = refl
not_both remove_owned_temporary_residue h = refl
not_both reclaim_dead_stale_lock h = refl
not_both report_unsupported_schema h = refl
not_both report_unrepairable h = refl

pub is_rebuild_lem :
    (c : RepairActionCode)
    → is_rebuild c ≡ (if is_manifest_rebuild c then true else is_index_rebuild c)
unfolding is_rebuild
is_rebuild_lem rebuild_derived_manifest = refl
is_rebuild_lem rebuild_derived_index = refl
is_rebuild_lem quarantine_authoritative_file = refl
is_rebuild_lem reindex_verified_orphan = refl
is_rebuild_lem remove_owned_temporary_residue = refl
is_rebuild_lem reclaim_dead_stale_lock = refl
is_rebuild_lem report_unsupported_schema = refl
is_rebuild_lem report_unrepairable = refl

-- What the loop leaves, given its two flags.
record Left (hm hi : Bool) (xs : List RepairPlannedAction) (r : List RepairPlannedAction × Bool)
    : Type 0 where
  manifests : count_if manifest_step r.0 ≡ (if hm then 0 else one_if (any_of manifest_step xs))
  indexes : count_if index_step r.0 ≡ (if hi then 0 else one_if (any_of index_step xs))
  flag : r.1 ≡ (if hm then true else any_of manifest_step xs)

first_rebuilds-Left :
    (hm hi : Bool) (xs : List RepairPlannedAction) → Left hm hi xs (first_rebuilds hm hi xs)
unfolding first_rebuilds count_if any_of
first_rebuilds-Left true true [] = record { manifests = refl; indexes = refl; flag = refl }
first_rebuilds-Left true false [] = record { manifests = refl; indexes = refl; flag = refl }
first_rebuilds-Left false true [] = record { manifests = refl; indexes = refl; flag = refl }
first_rebuilds-Left false false [] = record { manifests = refl; indexes = refl; flag = refl }
first_rebuilds-Left hm hi (a ∷ rest) =
    let ih =
      first_rebuilds-Left (if manifest_step a then true else hm) (if index_step a then true else hi)
        rest in
    record {
      manifests = ground (arith, ih.manifests, not_both a.action);
      indexes = ground (arith, ih.indexes, not_both a.action);
      flag = ground (arith, ih.flag);
    }

count_if-rebuild_step :
    (xs : List RepairPlannedAction)
    → count_if rebuild_step xs ≡ count_if manifest_step xs + count_if index_step xs
unfolding count_if
count_if-rebuild_step [] = omega arith
count_if-rebuild_step (a ∷ xs) =
    ground (arith, count_if-rebuild_step xs, is_rebuild_lem a.action, not_both a.action)

any_of-rebuild_step :
    (xs : List RepairPlannedAction)
    → any_of rebuild_step xs ≡ (if any_of manifest_step xs then true else any_of index_step xs)
unfolding any_of
any_of-rebuild_step [] = refl
any_of-rebuild_step (a ∷ xs) = ground (arith, any_of-rebuild_step xs, is_rebuild_lem a.action)

without_index_rebuilds-index :
    (xs : List RepairPlannedAction) → count_if index_step (without_index_rebuilds xs) ≡ 0
unfolding count_if without_index_rebuilds
without_index_rebuilds-index [] = refl
without_index_rebuilds-index (a ∷ xs) = ground (arith, without_index_rebuilds-index xs)

without_index_rebuilds-manifest :
    (xs : List RepairPlannedAction)
    → count_if manifest_step (without_index_rebuilds xs) ≡ count_if manifest_step xs
unfolding count_if without_index_rebuilds
without_index_rebuilds-manifest [] = refl
without_index_rebuilds-manifest (a ∷ xs) =
    ground (arith, without_index_rebuilds-manifest xs, not_both a.action)

dedupe_derived_rebuilds-one :
    (xs : List RepairPlannedAction)
    → count_if rebuild_step (dedupe_derived_rebuilds xs) ≡ one_if (any_of rebuild_step xs)
unfolding dedupe_derived_rebuilds
dedupe_derived_rebuilds-one xs =
    let left = first_rebuilds-Left false false xs in
    let out = (first_rebuilds false false xs).0 in
    ground (
      arith,
      left.manifests,
      left.indexes,
      left.flag,
      any_of-rebuild_step xs,
      count_if-rebuild_step out,
      count_if-rebuild_step (without_index_rebuilds out),
      without_index_rebuilds-index out,
      without_index_rebuilds-manifest out,
    )

-- An executable finding that asks for a rebuild.
abbrev pub asks_rebuild : RepairFinding → Bool
asks_rebuild f = is_executable f && is_rebuild f.action

-- A plan that was built has one derived rebuild if an executable finding asks for any, and none
-- otherwise: never two, and never an index rebuild beside a manifest rebuild.
pub build_repair_plan_rebuilds :
    (p : Platform) (scan : RepairScanResult) (operation_id generated_at : Text) (plan : RepairPlan)
    → build_repair_plan p scan operation_id generated_at ≡ ok plan
    → count_if rebuild_step plan.actions ≡ (if any_of asks_rebuild scan.findings then 1 else 0)
unfolding build_repair_plan
build_repair_plan_rebuilds p scan operation_id generated_at plan h =
    let ((actions, blocked), parted, built) = >>=-eq-ok (split_findings p scan.findings) _ h in
    let done : sort_actions (dedupe_derived_rebuilds actions) ≡ plan.actions = cc in
    let parts =
      split_findings-Parted p (λ c _. is_rebuild c) scan.findings actions blocked parted in
    rw (← done) (
      count_if-sort runs_before rebuild_step (dedupe_derived_rebuilds actions)
      ∙ dedupe_derived_rebuilds-one actions
      ∙ ap one_if parts.any_executable)
