-- ===== src/Mesh/Dispatch.antt =====
-- The entry of a packet into the node, and the handlers of handshakes, identities, fragments and
-- acknowledgements.
pub mod Frame
use bitchat_node_daemon.Base.{
  ◌||◌, ℕ, ◌+◌, Bool, true, false, not, ◌&&◌, Option, none, some, List, ◌∷◌, ◌++◌, ltb, leb, ◌==◌,
  if◌then◌else◌, length, Result, ok, err, name_error, [], ◌>>=◌,
}
use bitchat_node_daemon.Base.Bytes.{Bytes, Text, eq_text}
use bitchat_node_daemon.Base.Dict.{lookup, insert, remove}
use bitchat_node_daemon.Protocol.Types
use bitchat_node_daemon.Protocol.Types.{BitchatPacket, DeliveryAck, truthy}
use bitchat_node_daemon.Protocol.Packet.{parse_bitchat_packet, create_bitchat_packet}
use bitchat_node_daemon.Protocol.Identity.Read.{parse_noise_identity_announcement_binary}
use bitchat_node_daemon.Protocol.Trackers.{mark_delivered}
use bitchat_node_daemon.Encryption.Service.{
  EncryptionService, Notice, authenticated, handshake_required, has_established_session,
  process_handshake_message, clear_handshake_state, decrypt_from_peer,
}
use bitchat_node_daemon.Mesh.Node.{
  MeshNode, Effect, ack_received, Surroundings, send_to_peer, relay,
}
use bitchat_node_daemon.Mesh.Peers.{
  learn_peer, handle_announce, handle_leave, handle_channel_announce,
}
use bitchat_node_daemon.Mesh.Receive.{is_addressed, handle_message, handle_noise_encrypted}
use bitchat_node_daemon.Mesh.Sending.{with_service, handshake_packet, start_handshake, send_pending}

-- `str < str`, by code points
unfoldable pub text_lt : Text → Text → Bool
text_lt [] [] = false
text_lt [] (y ∷ ys) = true
text_lt (x ∷ xs) [] = false
text_lt (x ∷ xs) (y ∷ ys) = ltb x y || x == y && text_lt xs ys

-- `packet.recipient_id_str and packet.recipient_id_str != self.my_peer_id`
abbrev pub for_another : Text → Option Text → Bool
for_another me recipient = truthy recipient && not (is_addressed me recipient)

-- `w i` is what the outside gives to call `i` of a handler; call 0 is the handler's own, and a
-- message that waited is sent with the next ones.
module _ (w : ℕ → Surroundings) where
  -- After a handshake message was read: a session ends the wait.
  abbrev pub after_handshake : Text → List Effect → MeshNode → List Effect × MeshNode
  after_handshake peer effects node =
      if has_established_session peer node.encryption_service
      then (let (more, node') =
            send_pending (λ i. w (i + 1)) peer
              (record node {
                handshake_attempt_times = remove peer node.handshake_attempt_times;
              }) in
          (effects ++ more, node'))
      else (effects, node)

  abbrev give_up : Text → MeshNode → List Effect × MeshNode
  give_up peer node = ([], with_service (clear_handshake_state peer node.encryption_service) node)

  -- What the callbacks of the encryption service start: `_on_peer_authenticated` sends what waited, in a task
  -- that runs when the handler has ended.
  unfoldable pub run_notices : List Notice → List Effect × MeshNode → List Effect × MeshNode
  unfolding send_pending
  run_notices [] done = done
  run_notices (handshake_required peer ∷ notices) done = run_notices notices done
  run_notices (authenticated peer fingerprint ∷ notices) (effects, node) =
      let (more, node') = send_pending (λ i. w (i + 1)) peer node in
      run_notices notices (effects ++ more, node')

  -- The response, if any, is sent as a packet of the kind `reply`.
  abbrev pub answer_handshake :
      Types.MessageType
      → Text
      → Result (Option Bytes) × List Notice × EncryptionService
      → MeshNode
      → List Effect × MeshNode
  answer_handshake reply peer (err x, notices, v) node = give_up peer (with_service v node)
  answer_handshake reply peer (ok none, notices, v) node =
      after_handshake peer [] (with_service v node)
  answer_handshake reply peer (ok (some []), notices, v) node =
      after_handshake peer [] (with_service v node)
  answer_handshake reply peer (ok (some (x ∷ xs)), notices, v) node =
      let node' = with_service v node in
      elim (handshake_packet (w 0) reply peer (x ∷ xs) node') [
        | err e ↦ give_up peer node'
        | ok effects ↦ after_handshake peer effects node'
      ]

  -- `_handle_noise_handshake_init` and `_handle_noise_handshake_resp` differ in the kind of the reply.
  unfoldable pub handle_handshake :
      Types.MessageType → BitchatPacket → MeshNode → List Effect × MeshNode
  unfolding process_handshake_message clear_handshake_state handshake_packet send_pending remove
      lookup run_notices
  handle_handshake reply packet node =
      let peer = packet.sender_id_str in
      let processed =
        process_handshake_message (w 0).crypto (w 0).fresh_key (w 0).moment.now_ms peer
          packet.payload node.encryption_service in
      if for_another node.my_peer_id packet.recipient_id_str
      then ([], node)
      else run_notices processed.1 (answer_handshake reply peer processed node)

  -- `_handle_key_exchange`: what is raised is only logged.
  unfoldable pub handle_key_exchange : BitchatPacket → MeshNode → List Effect × MeshNode
  unfolding process_handshake_message create_bitchat_packet send_to_peer run_notices
  handle_key_exchange packet node =
      let peer = packet.sender_id_str in
      let (r, notices, v) =
        process_handshake_message (w 0).crypto (w 0).fresh_key (w 0).moment.now_ms peer
          packet.payload node.encryption_service in
      let node' = with_service v node in
      let sent = (do
        response ← r
        m ←
            create_bitchat_packet (w 0).moment node.my_peer_id Types.key_exchange
              (elim response [ none ↦ [] | some x ↦ x ])
        ok (if truthy response then send_to_peer (w 0).connections peer m node' else [])) in
      run_notices notices (elim sent [ err x ↦ [] | ok effects ↦ effects ], node')

  -- The peer with the lower id starts the handshake.
  unfoldable pub greet : Text → Text → MeshNode → List Effect × MeshNode
  unfolding learn_peer start_handshake text_lt lookup
  greet peer nickname node =
      let (joined, node') = learn_peer peer nickname node in
      let (effects, node'') = start_handshake (w 0) peer node' in
      if text_lt node.my_peer_id peer && not (has_established_session peer node.encryption_service)
      then (joined ++ effects, node'')
      else (joined, node')

  -- `_handle_noise_identity_announce`. The parser answers `None` where it fails and never raises, so that
  -- the branch for JSON is not reached.
  unfoldable pub handle_noise_identity_announce : BitchatPacket → MeshNode → List Effect × MeshNode
  unfolding parse_noise_identity_announcement_binary greet
  handle_noise_identity_announce packet node =
      if eq_text packet.sender_id_str node.my_peer_id
      then ([], node)
      else elim (parse_noise_identity_announcement_binary packet.payload) [
        | none ↦ ([], node)
        | some a ↦ greet a.peer_id a.nickname node
      ]

  -- `_handle_fragment`: `struct` is not imported, so that a payload of 13 bytes or more raises `NameError`
  -- before it is looked at.
  unfoldable pub handle_fragment :
      BitchatPacket → Bytes → MeshNode → Result (List Effect) × MeshNode
  unfolding relay
  handle_fragment packet raw node =
      (if leb 13 (length packet.payload) then err name_error else ok (relay raw packet.ttl), node)

  -- What an acknowledgement decrypts to; what is raised leaves the payload as it came.
  unfoldable pub open_ack : BitchatPacket → MeshNode → Bytes × MeshNode
  unfolding decrypt_from_peer lookup
  open_ack packet node =
      let (r, v) =
        decrypt_from_peer (w 0).crypto packet.sender_id_str packet.payload
          node.encryption_service in
      if packet.ttl == 3 && has_established_session packet.sender_id_str node.encryption_service
      then (elim r [ ok x ↦ x | err e ↦ packet.payload ], with_service v node)
      else (packet.payload, node)

  unfoldable pub note_ack : Option DeliveryAck → MeshNode → List Effect × MeshNode
  unfolding mark_delivered
  note_ack none node = ([], node)
  note_ack (some ack) node =
      let (known, tracker) = mark_delivered ack.original_message_id node.delivery_tracker in
      ((if known then ack_received ack ∷ [] else []), record node { delivery_tracker = tracker })

  -- `_handle_delivery_ack`
  unfoldable pub handle_delivery_ack : BitchatPacket → Bytes → MeshNode → List Effect × MeshNode
  unfolding open_ack note_ack relay
  handle_delivery_ack packet raw node =
      let (payload, node') = open_ack packet node in
      if truthy packet.recipient_id_str && is_addressed node.my_peer_id packet.recipient_id_str
      then note_ack ((w 0).read_ack_json payload) node'
      else (relay raw packet.ttl, node)

  -- A handler that does not raise.
  abbrev pub ended : List Effect × MeshNode → Result (List Effect) × MeshNode
  ended (effects, node) = (ok effects, node)

  -- The table of handlers, as the task runs them.
  unfoldable pub handle :
      Types.MessageType → BitchatPacket → Bytes → MeshNode → Result (List Effect) × MeshNode
  unfolding handle_announce handle_message handle_fragment handle_key_exchange handle_handshake
      handle_noise_encrypted handle_leave handle_channel_announce handle_noise_identity_announce
      handle_delivery_ack
  handle Types.announce packet raw node = ended (handle_announce packet node)
  handle Types.message packet raw node = ended (handle_message (w 0) packet raw node)
  handle Types.fragment_start packet raw node = handle_fragment packet raw node
  handle Types.fragment_continue packet raw node = handle_fragment packet raw node
  handle Types.fragment_end packet raw node = handle_fragment packet raw node
  handle Types.key_exchange packet raw node = ended (handle_key_exchange packet node)
  handle Types.noise_handshake_init packet raw node =
      ended (handle_handshake Types.noise_handshake_resp packet node)
  handle Types.noise_handshake_resp packet raw node =
      ended (handle_handshake Types.noise_handshake_init packet node)
  handle Types.noise_encrypted packet raw node = ended (handle_noise_encrypted (w 0) packet node)
  handle Types.leave packet raw node = ended (handle_leave packet raw node)
  handle Types.channel_announce packet raw node = ended (handle_channel_announce packet node)
  handle Types.noise_identity_announce packet raw node =
      ended (handle_noise_identity_announce packet node)
  handle Types.delivery_ack packet raw node = ended (handle_delivery_ack packet raw node)
  handle _ packet raw node = (ok [], node)

  -- What `_on_packet_received` does before it starts the task of the handler: `none` where it
  -- returns early.
  unfoldable pub admit : Text → Bytes → MeshNode → Option (BitchatPacket × MeshNode)
  unfolding parse_bitchat_packet insert
  admit address raw node = elim (parse_bitchat_packet (w 0).lz4 raw) [
    | err x ↦ none
    | ok packet ↦
        if eq_text packet.sender_id_str node.my_peer_id
        then none
        else some (
          packet,
          record node { peer_addresses = insert packet.sender_id_str address node.peer_addresses },
        )
  ]

  -- `_on_packet_received` and the task it starts, with nothing between the two.
  unfoldable pub on_packet_received : Text → Bytes → MeshNode → Result (List Effect) × MeshNode
  unfolding admit handle
  on_packet_received address raw node = elim (admit address raw node) [
    | none ↦ (ok [], node)
    | some (packet, node') ↦ handle packet.msg_type packet raw node'
  ]
