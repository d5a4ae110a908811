-- ===== src/Undo.antt =====
-- `UndoStackMessageTreeDatabaseObject`: the undo and redo stacks that the senior peer keeps for each
-- client.
pub mod Sequences
pub mod Trim
pub mod Travel
pub mod Move
pub mod Step
pub mod Order
pub mod Kept
pub mod Nesting
pub mod Trimming
pub mod Moving
pub mod Replay
pub mod Updated
pub mod Back
pub mod Turns
pub mod Record
pub mod Recorded
pub mod Restored
pub mod TreeTests
pub mod Tests
