-- ===== src/Replica.antt =====
-- `PZGDatabaseState` (src/private/PZGDatabaseState.cpp): one replicated database on one peer.
pub mod State
pub mod Log
pub mod Senior
pub mod Junior
pub mod Rescan
pub mod Exchange
pub mod Invariant
pub mod Books
pub mod Follow
pub mod Trim
pub mod Converge
pub mod Multicast
pub mod Resend
pub mod Example
pub mod Tests
