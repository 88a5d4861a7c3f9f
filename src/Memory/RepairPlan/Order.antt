-- ===== src/Memory/RepairPlan/Order.antt =====
-- The order of the steps of a plan of project-memory/src/repair-plan.ts.
use oh_my_pm.Common.{◌≤◌, ◌≡◌, Bool, true, false, not, ◌&&◌, List, [], ◌∷◌, All-imp, arith}
use oh_my_pm.Common.Text.{Text, text_lt_irrefl, text_lt_trans, text_lt_negtrans}
use oh_my_pm.Common.Sort.{IsOrder, IsSorted, sort-IsSorted}
use oh_my_pm.Memory.Errors.{ok, >>=-eq-ok}
use oh_my_pm.Memory.Integrity.{Platform}
use oh_my_pm.Memory.RepairTypes.{
  RepairActionCode, quarantine_authoritative_file, rebuild_derived_manifest, rebuild_derived_index,
  reindex_verified_orphan, remove_owned_temporary_residue, reclaim_dead_stale_lock,
  report_unsupported_schema, report_unrepairable, RepairScanResult, RepairPlannedAction, RepairPlan,
}
use oh_my_pm.Memory.RepairPlan.{
  rank, runs_before, sort_actions, split_findings, dedupe_derived_rebuilds, build_repair_plan,
}

pub runs_before-IsOrder : IsOrder runs_before
unfolding runs_before
runs_before-IsOrder = record {
  total =
      λ a b h. ground (arith, text_lt_irrefl a.target, text_lt_trans a.target b.target a.target);
  trans = λ a b c p q. ground (arith, text_lt_negtrans c.target b.target a.target);
}

-- Steps that derive from the records of the store, and steps that may change which ones count.
unfoldable pub is_rebuild : RepairActionCode → Bool
is_rebuild rebuild_derived_manifest = true
is_rebuild rebuild_derived_index = true
is_rebuild _ = false

unfoldable pub is_preparation : RepairActionCode → Bool
is_preparation reclaim_dead_stale_lock = true
is_preparation remove_owned_temporary_residue = true
is_preparation quarantine_authoritative_file = true
is_preparation reindex_verified_orphan = true
is_preparation _ = false

rank-is_rebuild : (c : RepairActionCode) → is_rebuild c ≡ true → 4 ≤ rank c
unfolding rank is_rebuild
rank-is_rebuild rebuild_derived_manifest h = omega arith
rank-is_rebuild rebuild_derived_index h = omega arith
rank-is_rebuild quarantine_authoritative_file h = absurd (ground arith)
rank-is_rebuild reindex_verified_orphan h = absurd (ground arith)
rank-is_rebuild remove_owned_temporary_residue h = absurd (ground arith)
rank-is_rebuild reclaim_dead_stale_lock h = absurd (ground arith)
rank-is_rebuild report_unsupported_schema h = absurd (ground arith)
rank-is_rebuild report_unrepairable h = absurd (ground arith)

rank-is_preparation : (c : RepairActionCode) → is_preparation c ≡ true → rank c ≤ 3
unfolding rank is_preparation
rank-is_preparation reclaim_dead_stale_lock h = omega arith
rank-is_preparation remove_owned_temporary_residue h = omega arith
rank-is_preparation quarantine_authoritative_file h = omega arith
rank-is_preparation reindex_verified_orphan h = omega arith
rank-is_preparation rebuild_derived_manifest h = absurd (ground arith)
rank-is_preparation rebuild_derived_index h = absurd (ground arith)
rank-is_preparation report_unsupported_schema h = absurd (ground arith)
rank-is_preparation report_unrepairable h = absurd (ground arith)

-- Not a rebuild with a preparation behind it.
abbrev pub prepares_first : RepairPlannedAction → RepairPlannedAction → Bool
prepares_first a b = not (is_rebuild a.action && is_preparation b.action)

runs_before-prepares_first :
    (a b : RepairPlannedAction) → runs_before a b ≡ true → prepares_first a b ≡ true
unfolding runs_before
runs_before-prepares_first a b h =
    ground (arith, rank-is_rebuild a.action, rank-is_preparation b.action)

IsSorted-prepares_first :
    (steps : List RepairPlannedAction) → IsSorted runs_before steps → IsSorted prepares_first steps
IsSorted-prepares_first [] h = tt
IsSorted-prepares_first (a ∷ steps) h =
    (All-imp _ steps (λ b. runs_before-prepares_first a b) h.0, IsSorted-prepares_first steps h.1)

-- The steps of a plan that was built stand in the order of their actions and then of their targets,
-- and no rebuild of derived files stands ahead of a step that reclaims a lock, removes residue,
-- quarantines a file or re-indexes an orphan. The blocked findings stand in the same order.
pub build_repair_plan_order :
    (p : Platform) (scan : RepairScanResult) (operation_id generated_at : Text) (plan : RepairPlan)
    → build_repair_plan p scan operation_id generated_at ≡ ok plan
    → IsSorted runs_before plan.actions
      × IsSorted prepares_first plan.actions
      × IsSorted runs_before plan.blocked
unfolding build_repair_plan
build_repair_plan_order p scan operation_id generated_at plan h =
    let ((actions, blocked), parted, built) = >>=-eq-ok (split_findings p scan.findings) _ h in
    let done : sort_actions (dedupe_derived_rebuilds actions) ≡ plan.actions = cc in
    let left : sort_actions blocked ≡ plan.blocked = cc in
    let sorted = sort-IsSorted runs_before runs_before-IsOrder (dedupe_derived_rebuilds actions) in
    (
      rw (← done) sorted,
      rw (← done) (IsSorted-prepares_first (sort_actions (dedupe_derived_rebuilds actions)) sorted),
      rw (← left) (sort-IsSorted runs_before runs_before-IsOrder blocked),
    )
