-- ===== src/Memory/RepairTypes.antt =====
-- The vocabulary of project-memory/src/repair-types.ts: findings, actions, plans.
use oh_my_pm.Common.{ℕ, Option, List, Bool}
use oh_my_pm.Common.Text.{Text}

pub data RepairFindingCode : Type 0 where
  malformed_json checksum_mismatch unsupported_schema missing_required_field duplicate_record_id
        broken_manifest broken_derived_index orphaned_record missing_referenced_record
        partial_migration stale_lock temporary_file_residue :
      RepairFindingCode

pub data RepairAuthorityClass : Type 0 where
  authoritative derived coordination residue recovery_evidence : RepairAuthorityClass

pub data RepairActionCode : Type 0 where
  quarantine_authoritative_file rebuild_derived_manifest rebuild_derived_index
        reindex_verified_orphan remove_owned_temporary_residue reclaim_dead_stale_lock
        report_unsupported_schema report_unrepairable :
      RepairActionCode

pub data RepairRepairability : Type 0 where
  repairable unrepairable is_blocked : RepairRepairability

pub record RepairFinding : Type 0 where
  pub code : RepairFindingCode
  pub authority : RepairAuthorityClass
  pub target : Text
  pub repairability : RepairRepairability
  pub action : RepairActionCode
  pub blocking_reason : Option Text
  pub expected_digest : Option Text
  pub actual_digest : Option Text

pub record RepairSummary : Type 0 where
  pub finding_count : ℕ
  pub repairable_count : ℕ
  pub blocked_count : ℕ
  pub unrepairable_count : ℕ

pub record RepairScanResult : Type 0 where
  pub project_id : Text
  pub store_exists : Bool
  pub store_fingerprint : Text
  pub findings : List RepairFinding
  pub summary : RepairSummary

pub record RepairPlannedAction : Type 0 where
  pub action : RepairActionCode
  pub code : RepairFindingCode
  pub authority : RepairAuthorityClass
  pub target : Text
  pub entry_key : Option Text

abbrev pub repair_plan_version : ℕ
repair_plan_version = 1

pub record RepairPlan : Type 0 where
  pub plan_version : ℕ
  pub operation_id : Text
  pub project_id : Text
  pub store_fingerprint : Text
  pub generated_at : Text
  pub findings : List RepairFinding
  pub actions : List RepairPlannedAction
  pub blocked : List RepairPlannedAction
  pub summary : RepairSummary
