-- ===== src/Memory/RepairPlan.antt =====
-- project-memory/src/repair-plan.ts: from the findings of a scan to an ordered plan.
pub mod Order
pub mod Split
pub mod Rebuilds
pub mod Complete
use oh_my_pm.Common.{
  ℕ, Bool, true, false, not, Option, none, some, List, [], ◌∷◌, length, drop, ltb, if◌then◌else◌,
  ◌&&◌,
}
use oh_my_pm.Common.Text.{Text, lit, text_lt}
use oh_my_pm.Common.Sort.{sort}
use oh_my_pm.Common.Json.{string}
use oh_my_pm.Memory.Errors.{Result, ok, err, ◌>>=◌}
use oh_my_pm.Memory.Integrity.{Platform, compute_integrity}
use oh_my_pm.Memory.RepairTypes.{
  RepairActionCode, quarantine_authoritative_file, rebuild_derived_manifest, rebuild_derived_index,
  reindex_verified_orphan, remove_owned_temporary_residue, reclaim_dead_stale_lock,
  report_unsupported_schema, report_unrepairable, RepairRepairability, repairable, RepairFinding,
  RepairSummary, RepairScanResult, RepairPlannedAction, RepairPlan, repair_plan_version,
}

-- The place of an action in `ACTION_ORDER`.
unfoldable pub rank : RepairActionCode → ℕ
rank reclaim_dead_stale_lock = 0
rank remove_owned_temporary_residue = 1
rank quarantine_authoritative_file = 2
rank reindex_verified_orphan = 3
rank rebuild_derived_manifest = 4
rank rebuild_derived_index = 5
rank report_unsupported_schema = 6
rank report_unrepairable = 7

-- `MUTATING_ACTIONS.has(action)`
unfoldable pub is_mutating : RepairActionCode → Bool
is_mutating report_unsupported_schema = false
is_mutating report_unrepairable = false
is_mutating _ = true

abbrev pub is_repairable : RepairRepairability → Bool
is_repairable repairable = true
is_repairable _ = false

-- The finding becomes an executable step.
abbrev pub is_executable : RepairFinding → Bool
is_executable f = is_repairable f.repairability && is_mutating f.action

abbrev pub domain_quarantine_entry : Text
domain_quarantine_entry = lit "oh-my-pm:project-memory:v1:quarantine-entry"

-- The digest without the seven characters of `sha256:`.
abbrev pub derive_quarantine_entry_key : Platform → Text → Result Text
derive_quarantine_entry_key p target =
    compute_integrity p domain_quarantine_entry (string target) >>= λ digest. ok (drop 7 digest)

abbrev pub base_action : RepairFinding → Option Text → RepairPlannedAction
base_action f entry_key = record {
  action = f.action;
  code = f.code;
  authority = f.authority;
  target = f.target;
  entry_key = entry_key;
}

abbrev pub is_quarantine : RepairActionCode → Bool
is_quarantine quarantine_authoritative_file = true
is_quarantine _ = false

unfoldable pub planned_action_for : Platform → RepairFinding → Result RepairPlannedAction
planned_action_for p f =
    if is_quarantine f.action
    then (derive_quarantine_entry_key p f.target >>= λ key. ok (base_action f (some key)))
    else ok (base_action f none)

-- The loop over the findings: the executable actions, and the blocked ones.
unfoldable pub split_findings :
    Platform → List RepairFinding → Result (List RepairPlannedAction × List RepairPlannedAction)
split_findings p [] = ok ([], [])
split_findings p (f ∷ fs) = planned_action_for p f >>= λ planned.
    split_findings p fs >>= λ (actions, blocked).
    ok (if is_executable f then (planned ∷ actions, blocked) else (actions, planned ∷ blocked))

abbrev pub is_manifest_rebuild : RepairActionCode → Bool
is_manifest_rebuild rebuild_derived_manifest = true
is_manifest_rebuild _ = false

abbrev pub is_index_rebuild : RepairActionCode → Bool
is_index_rebuild rebuild_derived_index = true
is_index_rebuild _ = false

-- The loop, with both flags; it gives `haveManifestRebuild` at the end too.
unfoldable pub first_rebuilds :
    Bool → Bool → List RepairPlannedAction → List RepairPlannedAction × Bool
first_rebuilds have_manifest have_index [] = ([], have_manifest)
first_rebuilds have_manifest have_index (a ∷ rest) =
    let have_manifest' = (if is_manifest_rebuild a.action then true else have_manifest) in
    let have_index' = (if is_index_rebuild a.action then true else have_index) in
    let (out, have) = first_rebuilds have_manifest' have_index' rest in
    if is_manifest_rebuild a.action && have_manifest
    then (out, have)
    else if is_index_rebuild a.action && have_index
    then (out, have)
    else (a ∷ out, have)

unfoldable pub without_index_rebuilds : List RepairPlannedAction → List RepairPlannedAction
without_index_rebuilds [] = []
without_index_rebuilds (a ∷ rest) =
    let out = without_index_rebuilds rest in if is_index_rebuild a.action then out else a ∷ out

unfoldable pub dedupe_derived_rebuilds : List RepairPlannedAction → List RepairPlannedAction
dedupe_derived_rebuilds actions =
    let (out, have_manifest) = first_rebuilds false false actions in
    if have_manifest then without_index_rebuilds out else out

-- The comparator of `sortActions` gives 0 or less.
unfoldable pub runs_before : RepairPlannedAction → RepairPlannedAction → Bool
runs_before a b =
    if ltb (rank a.action) (rank b.action)
    then true
    else if ltb (rank b.action) (rank a.action)
    then false
    else not (text_lt b.target a.target)

abbrev pub sort_actions : List RepairPlannedAction → List RepairPlannedAction
sort_actions = sort runs_before

abbrev pub summarize_actions : RepairSummary → List RepairPlannedAction → RepairSummary
summarize_actions summary actions = record summary { repairable_count = length actions }

unfoldable pub build_repair_plan : Platform → RepairScanResult → Text → Text → Result RepairPlan
build_repair_plan p scan operation_id generated_at =
    split_findings p scan.findings >>= λ (actions, blocked).
    (let deduped = dedupe_derived_rebuilds actions in
      ok (record {
        plan_version = repair_plan_version;
        operation_id = operation_id;
        project_id = scan.project_id;
        store_fingerprint = scan.store_fingerprint;
        generated_at = generated_at;
        findings = scan.findings;
        actions = sort_actions deduped;
        blocked = sort_actions blocked;
        summary = summarize_actions scan.summary deduped;
      }))
