-- ===== src/Tests/RepairPlan.antt =====
-- A plan of project-memory/src/repair-plan.ts for four findings.
use oh_my_pm.Common.{
  ◌≡◌, refl, Bool, true, false, not, ◌&&◌, none, some, [], ◌∷◌, count_if, any_of, arith,
}
use oh_my_pm.Common.Text.{Text, lit, text_lt, text_eq}
use oh_my_pm.Common.Sort.{sort, insert_sorted, IsSorted}
use oh_my_pm.Memory.CanonicalJson.{canonical_stringify, encode, encode_value, push}
use oh_my_pm.Memory.Errors.{ok}
use oh_my_pm.Memory.Integrity.{compute_integrity, sha256_hex}
use oh_my_pm.Memory.RepairTypes.{
  RepairFindingCode, checksum_mismatch, broken_manifest, broken_derived_index, unsupported_schema,
  derived, RepairActionCode, quarantine_authoritative_file, rebuild_derived_manifest,
  rebuild_derived_index, report_unsupported_schema, RepairRepairability, repairable, is_blocked,
  RepairFinding, RepairScanResult, RepairPlan,
}
use oh_my_pm.Memory.RepairPlan.{
  rank, is_mutating, is_executable, planned_action_for, split_findings, first_rebuilds,
  without_index_rebuilds, dedupe_derived_rebuilds, runs_before, build_repair_plan, base_action,
}
use oh_my_pm.Memory.RepairPlan.Order.{is_rebuild, prepares_first, build_repair_plan_order}
use oh_my_pm.Memory.RepairPlan.Rebuilds.{build_repair_plan_rebuilds}
use oh_my_pm.Memory.RepairPlan.Complete.{build_repair_plan_complete}
use oh_my_pm.Tests.Manifest.{plain}

abbrev found : RepairFindingCode → RepairActionCode → RepairRepairability → Text → RepairFinding
found code action repairability target = record {
  code = code;
  authority = derived;
  target = target;
  repairability = repairability;
  action = action;
  blocking_reason = none;
  expected_digest = none;
  actual_digest = none;
}

abbrev index_finding : RepairFinding
index_finding = found broken_derived_index rebuild_derived_index repairable (lit "index")

abbrev manifest_finding : RepairFinding
manifest_finding = found broken_manifest rebuild_derived_manifest repairable (lit "manifest")

abbrev damaged : RepairFinding
damaged = found checksum_mismatch quarantine_authoritative_file repairable (lit "s1")

abbrev too_new : RepairFinding
too_new = found unsupported_schema report_unsupported_schema is_blocked (lit "s2")

abbrev scan : RepairScanResult
scan = record {
  project_id = lit "p";
  store_exists = true;
  store_fingerprint = lit "f";
  findings = index_finding ∷ manifest_finding ∷ damaged ∷ too_new ∷ [];
  summary = record {
    finding_count = 4;
    repairable_count = 3;
    blocked_count = 1;
    unrepairable_count = 0;
  };
}

abbrev plan : RepairPlan
plan = record {
  plan_version = 1;
  operation_id = lit "op";
  project_id = lit "p";
  store_fingerprint = lit "f";
  generated_at = lit "t";
  findings = index_finding ∷ manifest_finding ∷ damaged ∷ too_new ∷ [];
  actions = base_action damaged (some (lit "0")) ∷ base_action manifest_finding none ∷ [];
  blocked = base_action too_new none ∷ [];
  summary = record {
    finding_count = 4;
    repairable_count = 2;
    blocked_count = 1;
    unrepairable_count = 0;
  };
}

planned : build_repair_plan plain scan (lit "op") (lit "t") ≡ ok plan
unfolding build_repair_plan split_findings planned_action_for compute_integrity sha256_hex
    canonical_stringify encode encode_value push is_mutating first_rebuilds without_index_rebuilds
    dedupe_derived_rebuilds sort insert_sorted runs_before rank text_lt
planned = refl

build_repair_plan_order_example :
    IsSorted runs_before plan.actions
    × IsSorted prepares_first plan.actions
    × IsSorted runs_before plan.blocked
build_repair_plan_order_example =
    build_repair_plan_order plain scan (lit "op") (lit "t") plan planned

build_repair_plan_rebuilds_example : count_if (λ a. is_rebuild a.action) plan.actions ≡ 1
unfolding any_of is_rebuild is_mutating
build_repair_plan_rebuilds_example =
    build_repair_plan_rebuilds plain scan (lit "op") (lit "t") plan planned

-- Under the test for a quarantine of a given target.
abbrev isolates_s1 : RepairActionCode → Text → Bool
isolates_s1 quarantine_authoritative_file t = text_eq t (lit "s1")
isolates_s1 _ t = false

isolates_s1-other :
    (c : RepairActionCode) (t : Text) → is_rebuild c ≡ true → isolates_s1 c t ≡ false
unfolding is_rebuild
isolates_s1-other quarantine_authoritative_file t h = absurd (ground arith)
isolates_s1-other rebuild_derived_manifest t h = refl
isolates_s1-other rebuild_derived_index t h = refl
isolates_s1-other _ t h = ground arith

abbrev every_action : RepairActionCode → Text → Bool
every_action _ t = true

build_repair_plan_complete_example :
    (count_if (λ a. isolates_s1 a.action a.target) plan.actions
      ≡ count_if (λ f. is_executable f && isolates_s1 f.action f.target) scan.findings)
    × (count_if (λ a. every_action a.action a.target) plan.blocked
        ≡ count_if (λ f. not (is_executable f) && every_action f.action f.target) scan.findings)
build_repair_plan_complete_example =
    build_repair_plan_complete plain scan (lit "op") (lit "t") plan isolates_s1 every_action
      isolates_s1-other planned
