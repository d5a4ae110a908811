-- ===== src/Choir.antt =====
-- The choir demo's database of who plays which notes (demos/choir/NoteAssignmentsMap.cpp).
pub mod Notes
pub mod Assignments
pub mod Running
pub mod Archive
pub mod Review
pub mod Reviewed
pub mod Updated
pub mod Playback
pub mod Sheet
pub mod Shift
pub mod Closing
mod Tests
