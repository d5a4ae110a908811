-- ===== src/Network.antt =====
-- `PZGNetworkIOSession` (src/private/PZGNetworkIOSession.cpp): what goes out to the other peers, and
-- which multicast messages come in.
pub mod Receive
pub mod Unicast
pub mod Orders
pub mod Tests
