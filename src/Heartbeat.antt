-- ===== src/Heartbeat.antt =====
-- `PZGHeartbeatThreadState` and `PZGHeartbeatSession`: which peers are online, which of them is the
-- senior peer, and the clock that they share.
pub mod State
pub mod Sources
pub mod Election
pub mod Clock
pub mod Index
pub mod Online
pub mod Measured
pub mod Traffic
pub mod Frame
pub mod Send
pub mod Expiry
pub mod Kingmaker
pub mod Seniority
pub mod Members
pub mod Roster
pub mod Departed
pub mod Heard
pub mod Steady
pub mod Pulse
mod Tests
