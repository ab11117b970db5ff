-- ===== src/Signaling.antt =====
-- packages/node/src/signaling: the relay that introduces the peers of a room to each other and
-- forwards their signals, and its stream protocol.
pub mod Protocol
pub mod Frames
pub mod Registry
pub mod Relay
