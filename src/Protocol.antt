-- ===== src/Protocol.antt =====
-- bitchat/protocol.py: packets, message payloads, identity announcements and trackers.
pub mod Types
pub mod Packet
pub mod Message
pub mod Identity
pub mod Trackers
