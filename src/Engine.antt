-- ===== src/Engine.antt =====
-- The run engine of internal/engine.
pub mod Hub
pub mod Approvals
pub mod Compaction
pub mod ToolBatch
