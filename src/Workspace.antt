-- ===== src/Workspace.antt =====
-- The tools that work on the files of a workspace: internal/workspacetools.
pub mod Text
pub mod Disk
pub mod Paths
pub mod Access
pub mod Edits
pub mod Files
pub mod Changes
pub mod Patch
pub mod Proposal
pub mod EditFile
mod Tests
