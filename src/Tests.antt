-- ===== src/Tests.antt =====
-- The theorems at concrete inputs.
mod AtomicWrite
mod Lock
mod Manifest
mod Commit
mod Migrations
mod CanonicalJson
mod Envelope
mod RepairPlan
mod Timeline
mod Gates
mod Privacy
mod Paths
mod Disk
mod Host
mod Store
mod Delete
mod Planner
