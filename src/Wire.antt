-- ===== src/Wire.antt =====
-- How the peers' data goes over the network: the `Flatten` and `Unflatten` methods.
pub mod Codec
pub mod Heartbeat
pub mod Beacon
pub mod Payload
pub mod Tests
