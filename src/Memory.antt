-- ===== src/Memory.antt =====
-- The local project memory store, project-memory/src.
pub mod Errors
pub mod AtomicWrite
pub mod Lock
pub mod CanonicalJson
pub mod Integrity
pub mod Manifest
pub mod Envelope
pub mod Commit
pub mod Privacy
pub mod Paths
pub mod FileSystem
pub mod Gates
pub mod Store
pub mod Migrations
pub mod RepairTypes
pub mod RepairPlan
