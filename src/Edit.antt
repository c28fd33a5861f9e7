-- ===== src/Edit.antt =====
-- The edit engine (src/services/edit.rs), in its parts.
pub mod Status
pub mod Matching
pub mod Lines
pub mod Model
pub mod Shape
pub mod Files
pub mod Commit
pub mod Execute
pub mod LineEdits
pub mod Diff
pub mod Rollback
mod Tests
