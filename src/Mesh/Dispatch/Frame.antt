-- ===== src/Mesh/Dispatch/Frame.antt =====
-- The dispatch of daemon/mesh.py, handler by handler, and the part of the node that it leaves as it was.
use bitchat_node_daemon.Base.{
  ℕ, ◌+◌, ◌≡◌, refl, ap, ◌∙◌, inl, inr, not, ◌&&◌, Option, none, some, List, [], ◌∷◌, Bool-cases,
  Result, ok, err, Result-cases,
}
use bitchat_node_daemon.Base.Bytes.{Bytes, Text, eq_text}
use bitchat_node_daemon.Protocol.Types
use bitchat_node_daemon.Protocol.Types.{BitchatPacket, DeliveryAck}
use bitchat_node_daemon.Encryption.Service.{
  Notice, authenticated, handshake_required, EncryptionService, has_established_session,
}
use bitchat_node_daemon.Mesh.Node.{MeshNode, Effect, Surroundings}
use bitchat_node_daemon.Encryption.Service.{process_handshake_message}
use bitchat_node_daemon.Protocol.Packet.{parse_bitchat_packet}
use bitchat_node_daemon.Protocol.Identity.Read.{parse_noise_identity_announcement_binary}
use bitchat_node_daemon.Mesh.Dispatch.{
  for_another, run_notices, after_handshake, answer_handshake, handle_handshake,
  handle_key_exchange, greet, text_lt, handle_noise_identity_announce, handle_fragment, open_ack,
  note_ack, handle_delivery_ack, handle, admit, on_packet_received,
}
use bitchat_node_daemon.Mesh.Sending.{handshake_packet}
use bitchat_node_daemon.Mesh.Kept.{
  kept, service_keeps, tracker_keeps, on_result, on_option, on_if, times_keeps, addresses_keeps,
}
use bitchat_node_daemon.Mesh.Peers.Frame.{
  learn_peer_keeps, handle_announce_keeps, handle_leave_keeps, handle_channel_announce_keeps,
}
use bitchat_node_daemon.Mesh.Receive.Frame.{handle_message_keeps, handle_noise_encrypted_keeps}
use bitchat_node_daemon.Mesh.Sending.Frame.{start_handshake_keeps, send_pending_keeps}

module _ (w : ℕ → Surroundings) where
  run_notices_keeps :
      (notices : List Notice) (done : List Effect × MeshNode)
      → kept (run_notices w notices done).1 ≡ kept done.1
  unfolding run_notices
  run_notices_keeps [] done = refl
  run_notices_keeps (handshake_required peer ∷ notices) done = run_notices_keeps notices done
  run_notices_keeps (authenticated peer fingerprint ∷ notices) (effects, node) =
      run_notices_keeps notices _ ∙ send_pending_keeps (λ i. w (i + 1)) peer node

  after_handshake_keeps :
      (peer : Text) (effects : List Effect) (node : MeshNode)
      → kept (after_handshake w peer effects node).1 ≡ kept node
  after_handshake_keeps peer effects node =
      on_if (has_established_session peer node.encryption_service) _ (effects, node) node
        (send_pending_keeps (λ i. w (i + 1)) peer _ ∙ times_keeps _ node) refl

  answer_handshake_keeps :
      (reply : Types.MessageType) (peer : Text)
      (r : Result (Option Bytes) × List Notice × EncryptionService) (node : MeshNode)
      → kept (answer_handshake w reply peer r node).1 ≡ kept node
  answer_handshake_keeps reply peer (err x, notices, v) node =
      service_keeps _ _ ∙ service_keeps v node
  answer_handshake_keeps reply peer (ok none, notices, v) node =
      after_handshake_keeps peer [] _ ∙ service_keeps v node
  answer_handshake_keeps reply peer (ok (some []), notices, v) node =
      after_handshake_keeps peer [] _ ∙ service_keeps v node
  answer_handshake_keeps reply peer (ok (some (x ∷ xs)), notices, v) node =
      on_result
        (handshake_packet (w 0) reply peer (x ∷ xs) (record node { encryption_service = v })) _ _
        (record node { encryption_service = v }) (λ e. service_keeps _ _)
        (λ effects. after_handshake_keeps peer effects _)
      ∙ service_keeps v node

  handle_handshake_keeps :
      (reply : Types.MessageType) (packet : BitchatPacket) (node : MeshNode)
      → kept (handle_handshake w reply packet node).1 ≡ kept node
  unfolding handle_handshake
  handle_handshake_keeps reply packet node =
      let processed =
        process_handshake_message (w 0).crypto (w 0).fresh_key (w 0).moment.now_ms
          packet.sender_id_str packet.payload node.encryption_service in
      on_if (for_another node.my_peer_id packet.recipient_id_str) ([], node) _ node refl
        (run_notices_keeps processed.1
            (answer_handshake w reply packet.sender_id_str processed node)
          ∙ answer_handshake_keeps reply packet.sender_id_str processed node)

  handle_key_exchange_keeps :
      (packet : BitchatPacket) (node : MeshNode)
      → kept (handle_key_exchange w packet node).1 ≡ kept node
  unfolding handle_key_exchange
  handle_key_exchange_keeps packet node =
      let processed =
        process_handshake_message (w 0).crypto (w 0).fresh_key (w 0).moment.now_ms
          packet.sender_id_str packet.payload node.encryption_service in
      run_notices_keeps processed.1 _ ∙ service_keeps processed.2 node

  greet_keeps :
      (peer nickname : Text) (node : MeshNode) → kept (greet w peer nickname node).1 ≡ kept node
  unfolding greet
  greet_keeps peer nickname node =
      on_if
        (text_lt node.my_peer_id peer && not (has_established_session peer node.encryption_service))
        _ _ node (start_handshake_keeps (w 0) peer _ ∙ learn_peer_keeps peer nickname node)
        (learn_peer_keeps peer nickname node)

  handle_identity_keeps :
      (packet : BitchatPacket) (node : MeshNode)
      → kept (handle_noise_identity_announce w packet node).1 ≡ kept node
  unfolding handle_noise_identity_announce
  handle_identity_keeps packet node =
      on_if (eq_text packet.sender_id_str node.my_peer_id) ([], node) _ node refl
        (on_option (parse_noise_identity_announcement_binary packet.payload) _ _ node refl
          (λ a. greet_keeps a.peer_id a.nickname node))

  open_ack_keeps :
      (packet : BitchatPacket) (node : MeshNode) → kept (open_ack w packet node).1 ≡ kept node
  unfolding open_ack
  open_ack_keeps packet node = on_if _ _ _ node (service_keeps _ node) refl

  note_ack_keeps :
      (ack : Option DeliveryAck) (node : MeshNode) → kept (note_ack w ack node).1 ≡ kept node
  unfolding note_ack
  note_ack_keeps none node = refl
  note_ack_keeps (some ack) node = tracker_keeps _ node

  handle_delivery_ack_keeps :
      (packet : BitchatPacket) (raw : Bytes) (node : MeshNode)
      → kept (handle_delivery_ack w packet raw node).1 ≡ kept node
  unfolding handle_delivery_ack
  handle_delivery_ack_keeps packet raw node =
      on_if _ _ _ node (note_ack_keeps _ _ ∙ open_ack_keeps packet node) refl

  handle_fragment_keeps :
      (packet : BitchatPacket) (raw : Bytes) (node : MeshNode)
      → kept (handle_fragment w packet raw node).1 ≡ kept node
  unfolding handle_fragment
  handle_fragment_keeps packet raw node = refl

  handle_keeps :
      (t : Types.MessageType) (packet : BitchatPacket) (raw : Bytes) (node : MeshNode)
      → kept (handle w t packet raw node).1 ≡ kept node
  unfolding handle
  handle_keeps Types.announce packet raw node = handle_announce_keeps packet node
  handle_keeps Types.message packet raw node = handle_message_keeps (w 0) packet raw node
  handle_keeps Types.fragment_start packet raw node = handle_fragment_keeps packet raw node
  handle_keeps Types.fragment_continue packet raw node = handle_fragment_keeps packet raw node
  handle_keeps Types.fragment_end packet raw node = handle_fragment_keeps packet raw node
  handle_keeps Types.key_exchange packet raw node = handle_key_exchange_keeps packet node
  handle_keeps Types.noise_handshake_init packet raw node =
      handle_handshake_keeps Types.noise_handshake_resp packet node
  handle_keeps Types.noise_handshake_resp packet raw node =
      handle_handshake_keeps Types.noise_handshake_init packet node
  handle_keeps Types.noise_encrypted packet raw node =
      handle_noise_encrypted_keeps (w 0) packet node
  handle_keeps Types.leave packet raw node = handle_leave_keeps packet raw node
  handle_keeps Types.channel_announce packet raw node = handle_channel_announce_keeps packet node
  handle_keeps Types.noise_identity_announce packet raw node = handle_identity_keeps packet node
  handle_keeps Types.delivery_ack packet raw node = handle_delivery_ack_keeps packet raw node
  handle_keeps _ packet raw node = refl

  dispatch_keeps :
      (address : Text) (raw : Bytes) (node : MeshNode)
      → kept (on_packet_received w address raw node).1 ≡ kept node
  unfolding on_packet_received admit
  dispatch_keeps address raw node = elim (Result-cases (parse_bitchat_packet (w 0).lz4 raw)) [
    | inr (raised, failed) ↦ rw (failed, admit, on_packet_received) refl
    | inl (p, read) ↦ elim (Bool-cases (eq_text p.sender_id_str node.my_peer_id)) [
      | inl own ↦ rw (read, own, admit, on_packet_received) refl
      | inr other ↦
          rw (read, other, admit, on_packet_received)
            (handle_keeps p.msg_type p raw _ ∙ addresses_keeps _ node)
    ]
  ]

  -- Whatever a connection delivers, packets or not and of any kind and sender, the node keeps its id, its
  -- nickname and the peers that it blocks; and it collects no fragment, since what it has collected
  -- stays as it was, too.
  pub on_packet_received_keeps :
      (address : Text) (raw : Bytes) (node : MeshNode)
      → ((on_packet_received w address raw node).1.my_peer_id ≡ node.my_peer_id)
        × ((on_packet_received w address raw node).1.nickname ≡ node.nickname)
        × ((on_packet_received w address raw node).1.blocked_peers ≡ node.blocked_peers)
        × ((on_packet_received w address raw node).1.fragment_collector ≡ node.fragment_collector)
  unfolding kept
  on_packet_received_keeps address raw node =
      let same = dispatch_keeps address raw node in
      (ap (λ k. k.0) same, ap (λ k. k.1) same, ap (λ k. k.2) same, ap (λ k. k.3) same)
