-- ===== src/Mesh/Sending.antt =====
-- What a node sends: handshakes, private messages, those that wait for a session, and public ones.
pub mod Pending
pub mod Frame
use bitchat_node_daemon.Base.{
  ℕ, ◌+◌, ◌-◌, Bool, true, false, Option, none, some, List, ◌∷◌, ◌++◌, ltb, if◌then◌else◌, set,
  Result, ok, err, ◌>>=◌, [],
}
use bitchat_node_daemon.Base.Bytes.{Bytes, Text}
use bitchat_node_daemon.Base.Dict.{lookup, insert, remove}
use bitchat_node_daemon.Protocol.Types.{MessageType, message, noise_encrypted, noise_handshake_init}
use bitchat_node_daemon.Protocol.Packet.{create_bitchat_packet_with_recipient}
use bitchat_node_daemon.Protocol.Message.{Draft, create_bitchat_message_payload_full}
use bitchat_node_daemon.Protocol.Trackers.{track_message}
use bitchat_node_daemon.Encryption.Service.{
  EncryptionService, has_established_session, initiate_handshake, encrypt,
}
use bitchat_node_daemon.Mesh.Node.{MeshNode, Effect, Surroundings, send_to_peer}

-- What a call sends, what it returns or raises, and the node after it.
abbrev pub Sent : Type 0 → Type 0
Sent A = Result A × List Effect × MeshNode

abbrev pub with_service : EncryptionService → MeshNode → MeshNode
with_service v node = record node { encryption_service = v }

module _ (w : Surroundings) where
  -- A handshake message goes to the peer with a TTL of 3.
  unfoldable pub handshake_packet : MessageType → Text → Bytes → MeshNode → Result (List Effect)
  unfolding create_bitchat_packet_with_recipient send_to_peer
  handshake_packet kind peer m node =
      create_bitchat_packet_with_recipient w.moment node.my_peer_id (some peer) kind m none
      >>= λ packet. ok (send_to_peer w.connections peer (set packet 2 3) node)

  -- `_initiate_handshake`: what is raised is only logged.
  unfoldable pub start_handshake : Text → MeshNode → List Effect × MeshNode
  unfolding initiate_handshake handshake_packet
  start_handshake peer node =
      let (m, v) = initiate_handshake w.crypto w.fresh_key peer node.encryption_service in
      let node' = with_service v node in
      (
        elim (m >>= λ x. handshake_packet noise_handshake_init peer x node') [
          | ok effects ↦ effects
          | err x ↦ []
        ],
        node',
      )

  -- The packet around an encrypted one.
  abbrev pub send_outer : Text → Text → Result Bytes → MeshNode → Sent Text
  send_outer target id (err x) node = (err x, [], node)
  send_outer target id (ok packet) node =
      (ok id, send_to_peer w.connections target packet node, node)

  -- The packet that is encrypted has a TTL of 7.
  abbrev pub send_inner : Text → Text → Result Bytes → MeshNode → Sent Text
  send_inner target id (err x) node = (err x, [], node)
  send_inner target id (ok inner) node =
      let (r, notices, v) = encrypt w.crypto (set inner 2 7) target node.encryption_service in
      let outer =
        (r >>= λ x.
        create_bitchat_packet_with_recipient w.moment node.my_peer_id (some target) noise_encrypted
          x none) in
      send_outer target id outer (with_service v node)

  abbrev private_draft : Text → MeshNode → Draft
  private_draft content node = record {
    sender = node.nickname;
    content = content;
    channel = none;
    is_private = true;
    sender_peer_id = node.my_peer_id;
    is_encrypted = false;
    encrypted_content = none;
  }

  abbrev pub send_payload : Text → Text → Result (Bytes × Text) → MeshNode → Sent Text
  send_payload content target (err x) node = (err x, [], node)
  send_payload content target (ok (payload, id)) node =
      let node' = record node {
        delivery_tracker = track_message w.moment.now_ms id content true node.delivery_tracker;
      } in
      send_inner target id
        (create_bitchat_packet_with_recipient w.moment node.my_peer_id (some target) message payload
          none)
        node'

  -- The branch of `send_private_message` for a peer with a session; the id of the message is a new one.
  unfoldable pub send_established : Text → Text → MeshNode → Sent Text
  unfolding create_bitchat_message_payload_full track_message encrypt send_to_peer
      create_bitchat_packet_with_recipient
  send_established content target node =
      send_payload content target
        (create_bitchat_message_payload_full w.moment.now_ms w.uuid (private_draft content node))
        node

  -- `message_id or str(uuid.uuid4())`
  abbrev id_or_new : Option Text → Text
  id_or_new none = w.uuid
  id_or_new (some []) = w.uuid
  id_or_new (some (x ∷ xs)) = x ∷ xs

  abbrev pub waiting : Text → MeshNode → List (Text × Text × Text)
  waiting target node = elim (lookup target node.pending_private_messages) [
    | none ↦ []
    | some ms ↦ ms
  ]

  abbrev handshake_timeout : ℕ
  handshake_timeout = 5000

  abbrev pub tried_recently : Text → MeshNode → Bool
  tried_recently target node = elim (lookup target node.handshake_attempt_times) [
    | none ↦ false
    | some last ↦ ltb (w.moment.now_ms - last) handshake_timeout
  ]

  -- The branch for a peer without a session: the message waits, and a handshake is started unless
  -- one was started less than five seconds ago.
  unfoldable pub queue_message : Text → Text → Text → Option Text → MeshNode → Sent Text
  unfolding lookup insert start_handshake
  queue_message content target target_nickname message_id node =
      let id = id_or_new message_id in
      let node₁ = record node {
        pending_private_messages =
            insert target (waiting target node ++ (content, target_nickname, id) ∷ [])
              node.pending_private_messages;
      } in
      let node₂ = record node₁ {
        handshake_attempt_times = insert target w.moment.now_ms node.handshake_attempt_times;
      } in
      let (effects, node₃) = start_handshake target node₂ in
      if tried_recently target node then (ok id, [], node₁) else (ok id, effects, node₃)

  unfoldable pub send_private_message : Text → Text → Text → Option Text → MeshNode → Sent Text
  unfolding lookup send_established queue_message
  send_private_message content target target_nickname message_id node =
      if has_established_session target node.encryption_service
      then send_established content target node
      else queue_message content target target_nickname message_id node

-- The loop of `_send_pending_private_messages`: what is raised is only logged. Round `i` has the
-- surroundings `w i`.
unfoldable pub send_waiting :
    (ℕ → Surroundings) → ℕ → Text → List (Text × Text × Text) → MeshNode → List Effect × MeshNode
unfolding send_private_message
send_waiting w i peer [] node = ([], node)
send_waiting w i peer ((content, nickname, id) ∷ ms) node =
    let (r, effects, node') = send_private_message (w i) content peer nickname (some id) node in
    let (more, node'') = send_waiting w (i + 1) peer ms node' in (effects ++ more, node'')

-- `_send_pending_private_messages`
unfoldable pub send_pending : (ℕ → Surroundings) → Text → MeshNode → List Effect × MeshNode
unfolding lookup remove send_waiting
send_pending w peer node = elim (lookup peer node.pending_private_messages) [
  | none ↦ ([], node)
  | some ms ↦
      send_waiting w 0 peer ms
        (record node { pending_private_messages = remove peer node.pending_private_messages })
]
