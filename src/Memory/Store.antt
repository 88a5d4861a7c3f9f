-- ===== src/Memory/Store.antt =====
-- project-memory/src/store.ts: the store over the filesystem port, a module for each of its parts.
pub mod Input
pub mod Accept
pub mod Read
pub mod Reads
pub mod Reconciled
pub mod Reconcile
pub mod Verify
pub mod Write
pub mod Delete
