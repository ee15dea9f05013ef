-- ===== src/Mesh/Receive.antt =====
-- The handlers of chat messages: decryption, the check for duplicates, the call of the API, the
-- acknowledgement and the relay.
pub mod Duplicates
pub mod Frame
use bitchat_node_daemon.Base.{
  ℕ, Bool, true, false, ◌&&◌, Option, none, some, List, ◌∷◌, ◌++◌, ◌==◌, if◌then◌else◌, length, set,
  Result, ok, err, index_error, ◌>>=◌, [],
}
use bitchat_node_daemon.Base.Bytes.{Bytes, Text, eq_text}
use bitchat_node_daemon.Base.Dict.{member, add}
use bitchat_node_daemon.Protocol.Types.{
  MessageType, message, delivery_ack, BitchatPacket, BitchatMessage, broadcast_recipient, truthy,
}
use bitchat_node_daemon.Protocol.Packet.{parse_bitchat_packet, create_bitchat_packet_with_recipient}
use bitchat_node_daemon.Protocol.Message.{parse_bitchat_message_payload}
use bitchat_node_daemon.Protocol.Trackers.{should_send_ack, message_wants_ack, unpad_message}
use bitchat_node_daemon.Encryption.Crypto.{Crypto}
use bitchat_node_daemon.Encryption.Service.{get_peer_fingerprint, encrypt, decrypt_from_peer}
use bitchat_node_daemon.Mesh.Node.{
  MeshNode, Effect, message_received, Surroundings, send_to_peer, relay,
}

abbrev pub is_blocked : Crypto → Text → MeshNode → Bool
is_blocked c sender node =
    blocked_fingerprint (get_peer_fingerprint c sender node.encryption_service)
  where
    blocked_fingerprint : Option Text → Bool
    blocked_fingerprint none = false
    blocked_fingerprint (some fingerprint) =
        truthy (some fingerprint) && member fingerprint node.blocked_peers

-- `packet.recipient_id == BROADCAST_RECIPIENT if packet.recipient_id else True`
abbrev pub is_broadcast : Option Bytes → Bool
is_broadcast none = true
is_broadcast (some []) = true
is_broadcast (some (x ∷ xs)) = eq_text (x ∷ xs) broadcast_recipient

abbrev pub is_addressed : Text → Option Text → Bool
is_addressed me none = false
is_addressed me (some peer) = eq_text peer me

module _ (w : Surroundings) where
  -- The payload of a private acknowledgement is encrypted, where that does not raise.
  unfoldable pub ack_payload : Text → Text → Bool → MeshNode → Bytes × MeshNode
  unfolding encrypt
  ack_payload message_id sender_id is_private node =
      let plain = w.ack_json message_id node.my_peer_id node.nickname in
      let (r, notices, service) = encrypt w.crypto plain sender_id node.encryption_service in
      if is_private
      then (elim r [ ok x ↦ x | err e ↦ plain ], record node { encryption_service = service })
      else (plain, node)

  -- `_send_delivery_ack`
  unfoldable pub send_delivery_ack : Text → Text → Bool → MeshNode → Result (List Effect) × MeshNode
  unfolding should_send_ack ack_payload send_to_peer create_bitchat_packet_with_recipient
  send_delivery_ack message_id sender_id is_private node =
      let ack_id = message_id ++ 45 ∷ node.my_peer_id in
      let (wanted, tracker) = should_send_ack ack_id node.delivery_tracker in
      let node' = record node { delivery_tracker = tracker } in
      let (payload, node'') = ack_payload message_id sender_id is_private node' in
      if wanted
      then (
        create_bitchat_packet_with_recipient w.moment node.my_peer_id (some sender_id) delivery_ack
              payload none
            >>= λ packet. ok (send_to_peer w.connections sender_id (set packet 2 3) node''),
        node'',
      )
      else (ok [], node)

  -- The id is put into the Bloom filter, which may raise, and then into the set.
  unfoldable pub mark_processed : Text → MeshNode → Result MeshNode
  unfolding add
  mark_processed id node =
      if w.bloom_refuses node.bloom id
      then err index_error
      else ok (record node {
        bloom = add id node.bloom;
        processed_messages = add id node.processed_messages;
      })

  -- What went out before the acknowledgement and what follows it; an exception on the way ends the handler.
  abbrev pub finish :
      List Effect → List Effect → Result (List Effect) × MeshNode → List Effect × MeshNode
  finish before after (ok effects, node) = (before ++ effects ++ after, node)
  finish before after (err e, node) = (before, node)

  -- A message of which the id was marked is delivered, acknowledged and relayed.
  unfoldable pub deliver_message :
      Text → Bool → BitchatMessage → ℕ → Bytes → Result MeshNode → MeshNode → List Effect × MeshNode
  unfolding message_wants_ack send_delivery_ack relay
  deliver_message sender is_private m ttl raw (err e) node = ([], node)
  deliver_message sender is_private m ttl raw (ok node') node =
      let acked =
        (if message_wants_ack is_private m.channel none node'.nickname (length node'.peers)
          then send_delivery_ack m.id sender is_private node'
          else (ok [], node')) in
      finish (message_received m sender is_private ∷ []) (relay raw ttl) acked

  -- Only a message that was not seen before is taken.
  unfoldable pub receive_message :
      Text → Bool → BitchatMessage → ℕ → Bytes → MeshNode → List Effect × MeshNode
  unfolding member mark_processed deliver_message
  receive_message sender is_private m ttl raw node =
      if member m.id node.processed_messages
      then ([], node)
      else deliver_message sender is_private m ttl raw (mark_processed m.id node) node

  unfoldable pub receive_payload :
      Text → Bool → Bytes → ℕ → Bytes → MeshNode → List Effect × MeshNode
  unfolding parse_bitchat_message_payload receive_message
  receive_payload sender is_private payload ttl raw node =
      elim (parse_bitchat_message_payload payload) [
        | err e ↦ ([], node)
        | ok m ↦ receive_message sender is_private m ttl raw node
      ]

  -- What the private branch parses: an empty plain text leaves the payload as it came.
  abbrev plain_or_payload : Bytes → Bytes → Bytes
  plain_or_payload [] payload = payload
  plain_or_payload (x ∷ xs) payload = unpad_message (x ∷ xs)

  unfoldable pub handle_private : BitchatPacket → Bytes → MeshNode → List Effect × MeshNode
  unfolding decrypt_from_peer unpad_message receive_payload
  handle_private packet raw node =
      let (r, service) =
        decrypt_from_peer w.crypto packet.sender_id_str packet.payload node.encryption_service in
      let node' = record node { encryption_service = service } in
      elim r [
        | err e ↦ ([], node')
        | ok plain ↦
            receive_payload packet.sender_id_str true (plain_or_payload plain packet.payload)
              packet.ttl raw node'
      ]

  -- `_handle_message`
  unfoldable pub handle_message : BitchatPacket → Bytes → MeshNode → List Effect × MeshNode
  unfolding get_peer_fingerprint handle_private receive_payload relay
  handle_message packet raw node =
      let everyone = is_broadcast packet.recipient_id in
      if is_blocked w.crypto packet.sender_id_str node
      then ([], node)
      else if everyone
      then receive_payload packet.sender_id_str false packet.payload packet.ttl raw node
      else if is_addressed node.my_peer_id packet.recipient_id_str
      then handle_private packet raw node
      else (relay raw packet.ttl, node)

  unfoldable pub deliver_inner :
      Text → BitchatMessage → Result MeshNode → MeshNode → List Effect × MeshNode
  unfolding send_delivery_ack
  deliver_inner sender m (err e) node = ([], node)
  deliver_inner sender m (ok node') node =
      finish (message_received m sender true ∷ []) [] (send_delivery_ack m.id sender true node')

  -- The inner packet of an encrypted one: only a chat message that is new is delivered, and it is
  -- acknowledged whatever its kind.
  unfoldable pub receive_inner : Text → Bytes → MeshNode → List Effect × MeshNode
  unfolding parse_bitchat_packet parse_bitchat_message_payload member mark_processed deliver_inner
  receive_inner sender plain node = elim (inner_message plain) [
    | err e ↦ ([], node)
    | ok none ↦ ([], node)
    | ok (some m) ↦
        if member m.id node.processed_messages
        then ([], node)
        else deliver_inner sender m (mark_processed m.id node) node
  ]
    where
      message_of : MessageType → Bytes → Result (Option BitchatMessage)
      message_of message payload = do m ← parse_bitchat_message_payload payload; ok (some m)
      message_of _ payload = ok none

      inner_message : Bytes → Result (Option BitchatMessage)
      inner_message xs = do
        packet ← parse_bitchat_packet w.lz4 xs
        message_of packet.msg_type packet.payload

  -- `len(decrypted) > 0 and decrypted[0] == 1`
  abbrev starts_with_one : Bytes → Bool
  starts_with_one [] = false
  starts_with_one (x ∷ xs) = x == 1

  -- `_handle_noise_encrypted`
  unfoldable pub handle_noise_encrypted : BitchatPacket → MeshNode → List Effect × MeshNode
  unfolding get_peer_fingerprint decrypt_from_peer receive_inner
  handle_noise_encrypted packet node =
      let (r, service) =
        decrypt_from_peer w.crypto packet.sender_id_str packet.payload node.encryption_service in
      let node' = record node { encryption_service = service } in
      if is_blocked w.crypto packet.sender_id_str node then ([], node) else elim r [
        | err e ↦ ([], node')
        | ok plain ↦
            if starts_with_one plain
            then receive_inner packet.sender_id_str plain node'
            else ([], node')
      ]
