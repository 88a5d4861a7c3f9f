-- ===== src/Memory/RepairPlan/Complete.antt =====
-- A plan of project-memory/src/repair-plan.ts drops no finding but repeated rebuilds.
use oh_my_pm.Common.{
  ◌≡◌, refl, ◌∙◌, Bool, true, false, not, ◌&&◌, List, [], ◌∷◌, arith, count_if, if◌then◌else◌,
}
use oh_my_pm.Common.Text.{Text}
use oh_my_pm.Common.Sort.{count_if-sort}
use oh_my_pm.Memory.Errors.{ok, >>=-eq-ok}
use oh_my_pm.Memory.Integrity.{Platform}
use oh_my_pm.Memory.RepairTypes.{
  RepairActionCode, RepairScanResult, RepairPlannedAction, RepairPlan,
}
use oh_my_pm.Memory.RepairPlan.{
  is_executable, is_manifest_rebuild, is_index_rebuild, first_rebuilds, without_index_rebuilds,
  dedupe_derived_rebuilds, runs_before, sort_actions, split_findings, build_repair_plan,
}
use oh_my_pm.Memory.RepairPlan.Order.{is_rebuild}
use oh_my_pm.Memory.RepairPlan.Rebuilds.{is_rebuild_lem}
use oh_my_pm.Memory.RepairPlan.Split.{passes, split_findings-Parted}

-- The test holds of no rebuild.
abbrev pub IsOther : (RepairActionCode → Text → Bool) → Type 0
IsOther test = (c : RepairActionCode) (t : Text) → is_rebuild c ≡ true → test c t ≡ false

module _ (p : Platform) (test : RepairActionCode → Text → Bool) (other : IsOther test) where
  first_rebuilds-count :
      (hm hi : Bool) (xs : List RepairPlannedAction)
      → count_if (passes p test) (first_rebuilds hm hi xs).0 ≡ count_if (passes p test) xs
  unfolding first_rebuilds count_if
  first_rebuilds-count hm hi [] = refl
  first_rebuilds-count hm hi (a ∷ rest) = ground (
    arith,
    is_rebuild_lem a.action,
    other a.action a.target,
    first_rebuilds-count (if is_manifest_rebuild a.action then true else hm)
        (if is_index_rebuild a.action then true else hi) rest,
  )

  without_index_rebuilds-count :
      (xs : List RepairPlannedAction)
      → count_if (passes p test) (without_index_rebuilds xs) ≡ count_if (passes p test) xs
  unfolding without_index_rebuilds count_if
  without_index_rebuilds-count [] = refl
  without_index_rebuilds-count (a ∷ rest) =
      ground
        (arith, is_rebuild_lem a.action, other a.action a.target, without_index_rebuilds-count rest)

  dedupe_derived_rebuilds-count :
      (xs : List RepairPlannedAction)
      → count_if (passes p test) (dedupe_derived_rebuilds xs) ≡ count_if (passes p test) xs
  unfolding dedupe_derived_rebuilds
  dedupe_derived_rebuilds-count xs = ground (
    arith,
    first_rebuilds-count false false xs,
    without_index_rebuilds-count (first_rebuilds false false xs).0,
  )

-- A plan that was built has as many steps that pass a test of the action and its target as there are
-- executable findings that do, if the test holds of no rebuild; and it has as many blocked entries
-- that pass any test at all as there are other findings that do.
pub build_repair_plan_complete :
    (p : Platform) (scan : RepairScanResult) (operation_id generated_at : Text) (plan : RepairPlan)
    (test any_test : RepairActionCode → Text → Bool)
    → IsOther test
    → build_repair_plan p scan operation_id generated_at ≡ ok plan
    → (count_if (λ a. test a.action a.target) plan.actions
        ≡ count_if (λ f. is_executable f && test f.action f.target) scan.findings)
      × (count_if (λ a. any_test a.action a.target) plan.blocked
          ≡ count_if (λ f. not (is_executable f) && any_test f.action f.target) scan.findings)
unfolding build_repair_plan
build_repair_plan_complete p scan operation_id generated_at plan test any_test other h =
    let ((actions, blocked), parted, built) = >>=-eq-ok (split_findings p scan.findings) _ h in
    let done : sort_actions (dedupe_derived_rebuilds actions) ≡ plan.actions = cc in
    let left : sort_actions blocked ≡ plan.blocked = cc in
    (
      rw (← done) (
          count_if-sort runs_before (passes p test) (dedupe_derived_rebuilds actions)
          ∙ dedupe_derived_rebuilds-count p test other actions
          ∙ (split_findings-Parted p test scan.findings actions blocked parted).executable),
      rw (← left) (
          count_if-sort runs_before (passes p any_test) blocked
          ∙ (split_findings-Parted p any_test scan.findings actions blocked parted).kept_blocked),
    )
