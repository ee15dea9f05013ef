-- ===== src/Lib.antt =====
-- bitchat-node-daemon: a node of the BitChat mesh that speaks TCP instead of Bluetooth.
--
-- The program has a protocol library (bitchat/) and a daemon (daemon/). The transport
-- (daemon/transport.py) keeps TCP connections, frames packets with two bytes of length and hands
-- what it reads to the mesh node (daemon/mesh.py). The node parses a packet with
-- bitchat/protocol.py, dispatches on its type, keeps tables of peers, channels and waiting private
-- messages, asks the encryption service (bitchat/encryption.py) for Noise handshakes and sessions,
-- and sends, relays or acknowledges through the transport. bitchat/fragmentation.py and
-- bitchat/compression.py are helpers of the packet format. daemon/discovery.py finds the addresses
-- of other nodes, daemon/config.py reads the configuration, and bitchat/persistence.py keeps the
-- state of a node on disk. bitchat.py is a client for a terminal that speaks Bluetooth, with the
-- chat context of bitchat/terminal_ux.py.
--
-- Which file models which part:
--   Base and Base/*: Python's tests, lists, bytes, hexadecimal, UTF-8, dicts and sets, decimal
--     numbers, signed integers, words, and exceptions as values of a result type. A byte string and a text are lists of
--     natural numbers, bytes and code points.
--   Compression: compress_if_beneficial and decompress of bitchat/compression.py.
--   Protocol/Types, Protocol/Packet, Protocol/Message, Protocol/Identity, Protocol/Trackers: the
--     types, the reader and writer of packets, of chat payloads and of identity announcements, and
--     DeliveryTracker and FragmentCollector of bitchat/protocol.py. The functions keep their names;
--     the module function should_send_ack is message_wants_ack.
--   Fragmentation: fragment_payload of bitchat/fragmentation.py.
--   Transport, Transport/Stream: the class Transport of daemon/transport.py. Its table is a dict
--     from addresses to connections, what it writes, closes and reports are lists in the state.
--     _handle_client is accept and client_gone, the two halves around the read loop.
--   Encryption/Cipher, Encryption/Handshake, Encryption/Service: NoiseCipherState, NoiseSession,
--     NoiseHandshakeState and EncryptionService of bitchat/encryption.py. The ephemeral key that a
--     call generates is an argument of it. process_handshake_message is cut into the part under
--     its try (advance) and what an exception leaves (settle_handshake).
--   Encryption/Channel: the methods of EncryptionService for channels; what os.urandom returns is an
--     argument.
--   Discovery: the class Discovery of daemon/discovery.py. The calls of on_peer_found are a list in
--     the state; what happens in each second of the loop of _start_mdns is a list of events.
--   Persistence: bitchat/persistence.py. The JSON document is a record of its keys, each of which may
--     be missing.
--   Config: daemon/config.py and the options that main of daemon/__main__.py puts on top. A YAML
--     value is a tree; a function that writes into a dict returns the new one.
--   Client/Chat: ChatContext of bitchat/terminal_ux.py.
--   Client, Client/Channels, Client/Ownership, Client/People, Client/Handlers: the state of
--     BitchatClient of bitchat.py, its sending and saving, its commands /j, /leave, /pass, /transfer,
--     /name, /block and /unblock, and its handlers of channel announcements and departures. Each is a
--     function from the client to its result or exception, what it writes and stores, and the client
--     after it. What is printed is left out.
--   Mesh/State: the start of MeshNode from a saved state, what it saves, and its status.
--   Mesh/Node, Mesh/Peers, Mesh/Receive, Mesh/Sending, Mesh/Announce, Mesh/Dispatch: the class
--     MeshNode of daemon/mesh.py. A handler is a function from the node to the list of what it
--     sends, calls back or saves, and the node after it. _handle_noise_handshake_init and
--     _handle_noise_handshake_resp are handle_handshake with the kind of the reply. handle and
--     on_packet_received give the exception, if any, that ends the task, and the node it leaves.
--   Mesh/Kept, and Frame below Mesh/Peers, Mesh/Receive, Mesh/Sending and Mesh/Dispatch: proofs that go through
--     all handlers.
--
-- What comes from outside is an argument: Compression.Lz4 for lz4, Encryption.Crypto.Crypto for X25519,
-- ChaCha20-Poly1305, HMAC and SHA-256, Protocol.Packet.Moment for the clock and os.urandom, and
-- Mesh.Node.Surroundings for these together with the JSON texts, a UUID and the addresses of the
-- transport, Persistence.Vault for AES-GCM and SHA-256, Client.Outside for what the client takes,
-- PBKDF2 and str.isalnum among it, and a list of changes for zeroconf. Where a theorem relies on such code its documented behaviour is a hypothesis: Reads for
-- lz4, IsSound for the cryptography and for AES-GCM. Examples has concrete instances.
-- When the Bloom filter of pybloom is full is an argument, too (Surroundings.bloom_refuses); what it raises ends the
-- handler before the message is marked, delivered or relayed.
--
-- Bounds and fuel: the packet's lengths and times are bounded by their fields, and a value that does
-- not fit is struct.error; a nonce is bounded by eight bytes. The read loop runs on fuel, one round
-- more than the stream has bytes, where a round takes at least two of them. The chunks of a
-- payload are counted, the pieces of a packet of the client run on its length, and the number of a decimal text is its own fuel.
--
-- Not modelled: logging and debug output; the event loop, so that a handler runs to its end where its
-- task is started, a task that a callback starts runs after the handler, and sleeps take no time; sockets, so that a writer works or fails, and a failed
-- connection of the node's own sends has no effect on the node; the file of the identity key of the
-- encryption service, which the node does not use; int of texts with digits other than ASCII's;
-- JSON documents with a field of another type; daemon/api.py and the rest of daemon/__main__.py; of
-- bitchat.py the other handlers of received packets, the sending of messages, the Bluetooth connection and the
-- failures of writes to it, and its copies of the protocol functions; of bitchat/terminal_ux.py
-- what only prints; the copies of modules of bitchat/ beside it.
pub mod Base
pub mod Compression
pub mod Protocol
pub mod Fragmentation
pub mod Transport
pub mod Encryption
pub mod Discovery
pub mod Persistence
pub mod Config
pub mod Mesh
pub mod Client
pub mod Examples
