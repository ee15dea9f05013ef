-- ===== src/Mesh/Peers/Channels.antt =====
-- What a node holds about a channel after an announcement of it.
