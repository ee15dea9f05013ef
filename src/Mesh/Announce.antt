-- ===== src/Mesh/Announce.antt =====
-- The packets that a node sends to all peers: its identity, its nickname, channels and public messages.
pub mod Channel
use bitchat_node_daemon.Base.{
  Bool, false, Option, none, some, List, ◌∷◌, ◌++◌, if◌then◌else◌, is_some, set, Result, ok, err,
  ◌>>=◌, [],
}
use bitchat_node_daemon.Base.Bytes.{Bytes, Text}
use bitchat_node_daemon.Base.Utf8.{encode}
use bitchat_node_daemon.Base.Dict.{lookup}
use bitchat_node_daemon.Base.Decimal
use bitchat_node_daemon.Protocol.Types.{
  MessageType, announce, leave, message, channel_announce, noise_identity_announce,
}
use bitchat_node_daemon.Protocol.Packet.{
  create_bitchat_packet, create_bitchat_packet_with_signature,
}
use bitchat_node_daemon.Protocol.Identity.Write.{encode_noise_identity_announcement_binary}
use bitchat_node_daemon.Protocol.Message.{Draft, create_bitchat_message_payload_full}
use bitchat_node_daemon.Protocol.Trackers.{track_message}
use bitchat_node_daemon.Encryption.Service.{get_public_key_bytes, sign_data}
use bitchat_node_daemon.Encryption.Channel.{encrypt_for_channel}
use bitchat_node_daemon.Mesh.Node.{MeshNode, Effect, broadcast, Surroundings}

-- The answers of a call that makes one packet for all peers.
abbrev to_all : Result Bytes → Result (List Effect)
to_all packet = packet >>= λ x. ok (broadcast x ∷ [])

module _ (w : Surroundings) where
  -- `send_identity_announce`: the signature is over the peer id, the key and the time, and stands both in
  -- the payload and behind it.
  unfoldable pub send_identity_announce : MeshNode → Result (List Effect)
  unfolding encode Decimal.decimal sign_data encode_noise_identity_announcement_binary
      create_bitchat_packet_with_signature
  send_identity_announce node = do
    let key = get_public_key_bytes w.crypto node.encryption_service
    id_bytes ← encode node.my_peer_id
    time_bytes ← encode (Decimal.decimal w.moment.now_ms)
    let signature = sign_data w.crypto (id_bytes ++ key ++ time_bytes) node.encryption_service
    payload ←
        encode_noise_identity_announcement_binary node.my_peer_id key key node.nickname
          w.moment.now_ms signature none
    to_all (
        create_bitchat_packet_with_signature w.moment node.my_peer_id noise_identity_announce
          payload (some signature))

  -- A packet whose payload is a text in UTF-8.
  abbrev send_text : MessageType → Text → MeshNode → Result Bytes
  send_text kind text node =
      encode text >>= λ x. create_bitchat_packet w.moment node.my_peer_id kind x

  -- `send_announce`
  unfoldable pub send_announce : MeshNode → Result (List Effect)
  unfolding encode create_bitchat_packet
  send_announce node = to_all (send_text announce node.nickname node)

  -- `send_leave`
  unfoldable pub send_leave : MeshNode → Result (List Effect)
  unfolding encode create_bitchat_packet
  send_leave node = to_all (send_text leave node.nickname node)

  abbrev pub text_or_empty : Option Text → Text
  text_or_empty none = []
  text_or_empty (some t) = t

  -- f"{channel}|{'1' if is_protected else '0'}|{self.my_peer_id}|{key_commitment or ''}"
  abbrev pub channel_text : Text → Bool → Option Text → MeshNode → Text
  channel_text channel is_protected commitment node =
      channel
      ++ (124
          ∷ (if is_protected then 49 else 48)
          ∷ 124
          ∷ (node.my_peer_id ++ (124 ∷ text_or_empty commitment)))

  -- `send_channel_announce`, with a TTL of 5
  unfoldable pub send_channel_announce : Text → Bool → Option Text → MeshNode → Result (List Effect)
  unfolding encode create_bitchat_packet
  send_channel_announce channel is_protected commitment node = to_all (
      send_text channel_announce (channel_text channel is_protected commitment node) node
      >>= λ packet. ok (set packet 2 5))

  -- The key of a channel, where the channel is named and its key is known.
  abbrev channel_key : Option Text → MeshNode → Option Bytes
  channel_key none node = none
  channel_key (some []) node = none
  channel_key (some (x ∷ xs)) node = lookup (x ∷ xs) node.channel_keys

  abbrev public_draft : Text → Option Text → Option Bytes → MeshNode → Draft
  public_draft content channel encrypted node = record {
    sender = node.nickname;
    content = content;
    channel = channel;
    is_private = false;
    sender_peer_id = node.my_peer_id;
    is_encrypted = is_some encrypted;
    encrypted_content = encrypted;
  }

  abbrev content_of : Text → Option Bytes → Result (Option Bytes)
  content_of content none = ok none
  content_of content (some key) =
      encrypt_for_channel w.crypto (w.moment.random 12) content key >>= λ x. ok (some x)

  -- The message is tracked before its packet is made.
  abbrev send_tracked :
      Text → Result (Bytes × Text) → MeshNode → Result Text × List Effect × MeshNode
  send_tracked content (err x) node = (err x, [], node)
  send_tracked content (ok (payload, id)) node =
      let node' = record node {
        delivery_tracker = track_message w.moment.now_ms id content false node.delivery_tracker;
      } in
      elim (to_all (create_bitchat_packet w.moment node.my_peer_id message payload)) [
        | err x ↦ (err x, [], node')
        | ok effects ↦ (ok id, effects, node')
      ]

  -- `send_public_message`
  unfoldable pub send_public_message :
      Text → Option Text → MeshNode → Result Text × List Effect × MeshNode
  unfolding lookup encrypt_for_channel create_bitchat_message_payload_full track_message
      create_bitchat_packet
  send_public_message content channel node =
      send_tracked content
        (do
          encrypted ← content_of content (channel_key channel node)
          create_bitchat_message_payload_full w.moment.now_ms w.uuid
              (public_draft content channel encrypted node))
        node
