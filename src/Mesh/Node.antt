-- ===== src/Mesh/Node.antt =====
-- The state that `MeshNode` keeps, what its handlers hand on, and its helpers for sending.
use bitchat_node_daemon.Base.{
  ℕ, ◌-◌, Bool, ◌&&◌, Option, none, some, List, [], ◌∷◌, leb, if◌then◌else◌, set,
}
use bitchat_node_daemon.Base.Bytes.{Bytes, Text}
use bitchat_node_daemon.Base.Dict.{Dict, lookup, member}
use bitchat_node_daemon.Compression.{Lz4}
use bitchat_node_daemon.Protocol.Types.{BitchatMessage, DeliveryAck, truthy}
use bitchat_node_daemon.Protocol.Packet.{Moment}
use bitchat_node_daemon.Encryption.Crypto.{Crypto}
use bitchat_node_daemon.Protocol.Trackers.{DeliveryTracker, FragmentCollector}
use bitchat_node_daemon.Encryption.Service.{EncryptionService}

-- A peer is its nickname. `bloom` holds the ids that were put into the Bloom filter, which only tells when it
-- is full. A pending message is its text, the nickname of the peer and its id.
pub record MeshNode : Type 0 where
  pub my_peer_id : Text
  pub nickname : Text
  pub encryption_service : EncryptionService
  pub peers : Dict (Option Text)
  pub peer_addresses : Dict Text
  pub bloom : List Text
  pub processed_messages : List Text
  pub fragment_collector : FragmentCollector
  pub delivery_tracker : DeliveryTracker
  pub channel_keys : Dict Bytes
  pub channel_creators : Dict Text
  pub password_protected_channels : List Text
  pub channel_key_commitments : Dict Text
  pub discovered_channels : List Text
  pub blocked_peers : List Text
  pub handshake_attempt_times : Dict ℕ
  pub pending_private_messages : Dict (List (Text × Text × Text))

-- What a handler does outside the node: it gives a packet to every connection or to the one at an
-- address, calls back the API, or saves the state.
pub data Effect : Type 0 where
  broadcast : Bytes → Effect
  send : Text → Bytes → Effect
  message_received : BitchatMessage → Text → Bool → Effect
  peer_joined : Text → Text → Effect
  peer_left : Text → Text → Effect
  ack_received : DeliveryAck → Effect
  saved : Effect

-- What the handlers take from outside: the libraries, the clock and random source, the addresses
-- in the table of the transport, a fresh X25519 key and a fresh UUID, the JSON text of an
-- acknowledgement of a message id by a peer with a nickname, and what a JSON acknowledgement says.
-- `bloom_refuses ids id` says whether the Bloom filter of pybloom raises `IndexError` on one more id: it does so beyond
-- its capacity, unless it takes the id for one that it has.
-- Times are in milliseconds.
pub record Surroundings : Type 0 where
  pub crypto : Crypto
  pub lz4 : Lz4
  pub moment : Moment
  pub connections : List Text
  pub fresh_key : Bytes
  pub uuid : Text
  pub ack_json : Text → Text → Text → Bytes
  pub read_ack_json : Bytes → Option DeliveryAck
  pub bloom_refuses : List Text → Text → Bool

-- `_send_to_peer`, where `connections` are the addresses in the table of the transport.
unfoldable pub send_to_peer : List Text → Text → Bytes → MeshNode → List Effect
unfolding lookup member
send_to_peer connections peer packet node = elim (lookup peer node.peer_addresses) [
  | none ↦ []
  | some address ↦
      if truthy (some address) && member address connections then send address packet ∷ [] else []
]

-- `_relay`
unfoldable pub relay : Bytes → ℕ → List Effect
relay raw ttl = if leb ttl 1 then [] else broadcast (set raw 2 (ttl - 1)) ∷ []
