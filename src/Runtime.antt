-- ===== src/Runtime.antt =====
-- The read-only queries of runtime/src/projectbrain.
pub mod Timeline
