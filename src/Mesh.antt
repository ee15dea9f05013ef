-- ===== src/Mesh.antt =====
-- daemon/mesh.py: the state of a node and the handlers of the packets that it receives.
pub mod Node
pub mod Kept
pub mod Peers
pub mod Receive
pub mod Relay
pub mod Announce
pub mod Dispatch
pub mod Sending
pub mod State
