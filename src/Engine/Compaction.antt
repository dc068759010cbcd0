-- ===== src/Engine/Compaction.antt =====
-- Compaction of the model context: internal/engine/context_compaction.go.
pub mod Sections
pub mod Budget
pub mod Contents
pub mod Cut
pub mod Checkpoint
pub mod Request
mod Tests
