-- ===== src/Mux.antt =====
-- `MuxTreeGateway`: many subscribers share one connection to the tree of messages.
pub mod Filters
pub mod State
pub mod Subscribe
pub mod Unsubscribe
pub mod Leftover
pub mod Rollback
pub mod Notify
pub mod Picture
pub mod Tests
