-- ===== src/Session.antt =====
-- `ZGPeerSession` (src/ZGPeerSession.cpp): one peer, with its databases and its calls of the network.
pub mod State
pub mod Send
pub mod Requests
pub mod Reach
pub mod Beacon
pub mod Delivery
pub mod Tests
