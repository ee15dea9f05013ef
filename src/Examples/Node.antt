-- ===== src/Examples/Node.antt =====
-- A node with a peer or two, and packets that reach it.
use bitchat_node_daemon.Base.{
  leb, length, ◌+◌, ℕ, ◌≤◌, ◌<◌, ◌≡◌, refl, ◌⊎◌, false, none, some, [], ◌∷◌, ◌++◌, replicate, ok,
}
use bitchat_node_daemon.Base.Bytes.{Bytes, Text, eq_text, index, slice, rstrip, unpack_u16}
use bitchat_node_daemon.Base.Dict.{lookup}
use bitchat_node_daemon.Compression.{Lz4}
use bitchat_node_daemon.Protocol.Types.{
  MessageType, message, to_message_type, BitchatPacket, BitchatMessage,
}
use bitchat_node_daemon.Protocol.Packet.{Moment, parse_bitchat_packet}
use bitchat_node_daemon.Protocol.Trackers.{new_tracker, new_collector}
use bitchat_node_daemon.Examples.Noise.{toy, service}
use bitchat_node_daemon.Base.Hex.{hex}
use bitchat_node_daemon.Mesh.Node.{MeshNode, Surroundings, broadcast, relay}
use bitchat_node_daemon.Mesh.Relay.{relay-parse}
use bitchat_node_daemon.Mesh.Receive.Duplicates.{
  Arrival, receive, receive_all, receive_message_once,
}
use bitchat_node_daemon.Mesh.Peers.{remove_peer, ChannelNews}
use bitchat_node_daemon.Mesh.Peers.Departure.{Forgets, remove_peer-Forgets}
use bitchat_node_daemon.Mesh.Dispatch.{on_packet_received}
use bitchat_node_daemon.Mesh.Dispatch.Frame.{on_packet_received_keeps}
use bitchat_node_daemon.Mesh.Sending.{send_private_message}
use bitchat_node_daemon.Mesh.Sending.Pending.{send_private_message_waits}

-- A compression library that copies.
abbrev pub copying : Lz4
copying = record { compress = λ x. x; decompress = λ x. some x }

abbrev pub moment : Moment
moment = record { now_ms = 1000000; random = λ k. replicate k 9 }

abbrev surroundings : Surroundings
surroundings = record {
  crypto = toy;
  lz4 = copying;
  moment = moment;
  connections = [];
  fresh_key = 5 ∷ [];
  uuid = b'u' ∷ [];
  ack_json = λ id me name. id;
  read_ack_json = λ x. none;
  bloom_refuses = λ ids id. leb 5000 (length ids);
}

-- Sixteen hexadecimal digits
abbrev peer_one : Text
peer_one = replicate 16 b'1'

abbrev peer_two : Text
peer_two = replicate 16 b'2'

abbrev here : Text
here = b'h' ∷ []

abbrev pub node : MeshNode
node = record {
  my_peer_id = replicate 16 b'a';
  nickname = b'n' ∷ [];
  encryption_service = service 1;
  peers = (peer_one, some (b'o' ∷ [])) ∷ (peer_two, some (b't' ∷ [])) ∷ [];
  peer_addresses = (peer_one, here) ∷ (peer_two, here) ∷ [];
  bloom = [];
  processed_messages = [];
  fragment_collector = new_collector;
  delivery_tracker = new_tracker;
  channel_keys = [];
  channel_creators = [];
  password_protected_channels = [];
  channel_key_commitments = [];
  discovered_channels = [];
  blocked_peers = [];
  handshake_attempt_times = [];
  pending_private_messages = [];
}

abbrev hello : BitchatMessage
hello = record {
  id = b'i' ∷ [];
  content = b'h' ∷ [];
  channel = none;
  is_encrypted = false;
  encrypted_content = none;
}

abbrev arrival : Text → BitchatMessage → Arrival
arrival sender said = record {
  at = surroundings;
  sender = sender;
  is_private = false;
  said = said;
  ttl = 7;
  raw = [];
}

abbrev other : BitchatMessage
other = record hello { id = b'j' ∷ [] }

receive_message_once_example :
    let later =
      receive_all (arrival peer_one other ∷ []) (receive (arrival peer_one hello) node).1 in
    receive (arrival peer_two hello) later ≡ ([], later)
receive_message_once_example =
    receive_message_once (arrival peer_one hello) (arrival peer_two hello)
      (arrival peer_one other ∷ []) node refl refl

-- A packet of a kind from peer one with a payload of thirteen bytes.
abbrev raw : ℕ → Bytes
raw kind = 1 ∷ kind ∷ 7 ∷ replicate 8 0 ++ (0 ∷ 0 ∷ 13 ∷ replicate 8 0x11 ++ replicate 13 0x41)

abbrev packet : MessageType → BitchatPacket
packet t = record {
  msg_type = t;
  sender_id = replicate 8 0x11;
  sender_id_str = peer_one;
  recipient_id = none;
  recipient_id_str = none;
  payload = replicate 13 0x41;
  ttl = 7;
}

parsed_message : parse_bitchat_packet copying (raw 0x04) ≡ ok (packet message)
unfolding parse_bitchat_packet index to_message_type unpack_u16 slice rstrip hex
parsed_message = refl

relay-parse_example :
    ((7 ≤ 1) × (relay (raw 0x04) 7 ≡ []))
    ⊎ ((xs : Bytes) × (1 < 7)
        × (relay (raw 0x04) 7 ≡ broadcast xs ∷ [])
        × (parse_bitchat_packet copying xs ≡ ok (record (packet message) { ttl = 6 }))
        × (6 + 1 ≡ 7))
relay-parse_example = relay-parse copying (raw 0x04) (packet message) parsed_message

remove_peer-Forgets_example : Forgets peer_one node (remove_peer peer_one node).1
remove_peer-Forgets_example = remove_peer-Forgets peer_one node

abbrev news : ChannelNews
news = record {
  channel = b'#' ∷ [];
  is_protected = false;
  creator_id = peer_one;
  key_commitment = [];
}

abbrev keyed : MeshNode
keyed = record node { channel_keys = (b'#' ∷ [], 3 ∷ []) ∷ [] }

-- A node with a message that waits for peer one.
abbrev queued : MeshNode
queued = record node { pending_private_messages = (peer_one, (b'y' ∷ [], [], b'j' ∷ []) ∷ []) ∷ [] }

send_private_message_waits_example :
    ((send_private_message surroundings (b'x' ∷ []) peer_one [] (some (b'i' ∷ [])) queued).0
      ≡ ok (b'i' ∷ []))
    × (lookup peer_one
          (send_private_message surroundings
            (b'x' ∷ [])
            peer_one
            []
            (some (b'i' ∷ []))
            queued).2.pending_private_messages
        ≡ some ((b'y' ∷ [], [], b'j' ∷ []) ∷ (b'x' ∷ [], [], b'i' ∷ []) ∷ []))
unfolding lookup eq_text
send_private_message_waits_example =
    send_private_message_waits surroundings (b'x' ∷ []) peer_one [] peer_one b'i' [] queued refl

-- A fragment, which ends in a `NameError`.
on_packet_received_keeps_example :
    let after = (on_packet_received (λ i. surroundings) here (raw 0x05) node).1 in
    (after.my_peer_id ≡ node.my_peer_id)
    × (after.nickname ≡ node.nickname)
    × (after.blocked_peers ≡ node.blocked_peers)
    × (after.fragment_collector ≡ node.fragment_collector)
on_packet_received_keeps_example = on_packet_received_keeps (λ i. surroundings) here (raw 0x05) node
