-- ===== src/Mesh/Receive/Frame.antt =====
-- What the handlers of chat messages of daemon/mesh.py leave as it was.
use bitchat_node_daemon.Base.{
  ℕ, ◌≡◌, refl, ◌∙◌, inl, inr, Bool, true, false, none, List, [], Bool-cases, length, Error, Result,
  ok, err, index_error,
}
use bitchat_node_daemon.Base.Bytes.{Bytes, Text}
use bitchat_node_daemon.Base.Dict.{member}
use bitchat_node_daemon.Protocol.Types.{BitchatPacket, BitchatMessage}
use bitchat_node_daemon.Protocol.Trackers.{message_wants_ack}
use bitchat_node_daemon.Mesh.Node.{MeshNode, Effect, Surroundings, relay}
use bitchat_node_daemon.Mesh.Receive.{
  is_blocked, is_broadcast, is_addressed, ack_payload, send_delivery_ack, mark_processed, finish,
  deliver_message, receive_message, receive_payload, handle_private, handle_message, deliver_inner,
  receive_inner, handle_noise_encrypted,
}
use bitchat_node_daemon.Protocol.Message.{parse_bitchat_message_payload}
use bitchat_node_daemon.Encryption.Service.{decrypt_from_peer}
use bitchat_node_daemon.Mesh.Kept.{
  kept, service_keeps, tracker_keeps, marked_keeps, on_result, on_option, on_if,
}

module _ (w : Surroundings) where
  ack_payload_keeps_id :
      (id sender : Text) (p : Bool) (node : MeshNode)
      → kept (ack_payload w id sender p node).1 ≡ kept node
  unfolding ack_payload
  ack_payload_keeps_id id sender p node = on_if p _ _ node (service_keeps _ node) refl

  send_delivery_ack_keeps_id :
      (id sender : Text) (p : Bool) (node : MeshNode)
      → kept (send_delivery_ack w id sender p node).1 ≡ kept node
  unfolding send_delivery_ack
  send_delivery_ack_keeps_id id sender p node =
      on_if _ _ _ node (ack_payload_keeps_id id sender p _ ∙ tracker_keeps _ node) refl

  finish_keeps :
      (before after : List Effect) (r : Result (List Effect) × MeshNode)
      → kept (finish w before after r).1 ≡ kept r.1
  finish_keeps before after (ok effects, node) = refl
  finish_keeps before after (err x, node) = refl

  -- What is done with a node that was marked.
  after_mark :
      (f : Result MeshNode → MeshNode → List Effect × MeshNode) (id : Text) (node : MeshNode)
      → ((e : Error) → kept (f (err e) node).1 ≡ kept node)
      → ((n : MeshNode) → kept (f (ok n) node).1 ≡ kept n)
      → kept (f (mark_processed w id node) node).1 ≡ kept node
  unfolding mark_processed
  after_mark f id node h h' = elim (Bool-cases (w.bloom_refuses node.bloom id)) [
    | inl full ↦ rw full (h index_error)
    | inr free ↦ rw free (h' _ ∙ marked_keeps _ _ node)
  ]

  receive_message_keeps :
      (sender : Text) (p : Bool) (m : BitchatMessage) (ttl : ℕ) (raw : Bytes) (node : MeshNode)
      → kept (receive_message w sender p m ttl raw node).1 ≡ kept node
  unfolding receive_message deliver_message
  receive_message_keeps sender p m ttl raw node =
      on_if (member m.id node.processed_messages) _ _ node refl (
        after_mark (deliver_message w sender p m ttl raw) m.id node (λ e. refl)
          (λ n.
            finish_keeps _ _ _
            ∙ on_if (message_wants_ack p m.channel none n.nickname (length n.peers)) _ _ n
                (send_delivery_ack_keeps_id m.id sender p n) refl))

  receive_payload_keeps :
      (sender : Text) (p : Bool) (payload : Bytes) (ttl : ℕ) (raw : Bytes) (node : MeshNode)
      → kept (receive_payload w sender p payload ttl raw node).1 ≡ kept node
  unfolding receive_payload
  receive_payload_keeps sender p payload ttl raw node =
      on_result (parse_bitchat_message_payload payload) _ _ node (λ e. refl)
        (λ m. receive_message_keeps sender p m ttl raw node)

  handle_private_keeps :
      (packet : BitchatPacket) (raw : Bytes) (node : MeshNode)
      → kept (handle_private w packet raw node).1 ≡ kept node
  unfolding handle_private
  handle_private_keeps packet raw node =
      on_result
        (decrypt_from_peer w.crypto packet.sender_id_str packet.payload node.encryption_service).0 _
        _ node (λ e. service_keeps _ node)
        (λ x.
          receive_payload_keeps packet.sender_id_str true _ packet.ttl raw _ ∙ service_keeps _ node)

  pub handle_message_keeps :
      (packet : BitchatPacket) (raw : Bytes) (node : MeshNode)
      → kept (handle_message w packet raw node).1 ≡ kept node
  unfolding handle_message
  handle_message_keeps packet raw node =
      let private =
        on_if (is_addressed node.my_peer_id packet.recipient_id_str)
          (handle_private w packet raw node) (relay raw packet.ttl, node) node
          (handle_private_keeps packet raw node) refl in
      let to_us =
        on_if (is_broadcast packet.recipient_id)
          (receive_payload w packet.sender_id_str false packet.payload packet.ttl raw node) _ node
          (receive_payload_keeps packet.sender_id_str false packet.payload packet.ttl raw node)
          private in
      on_if (is_blocked w.crypto packet.sender_id_str node) ([], node) _ node refl to_us

  receive_inner_keeps :
      (sender : Text) (plain : Bytes) (node : MeshNode)
      → kept (receive_inner w sender plain node).1 ≡ kept node
  unfolding receive_inner deliver_inner
  receive_inner_keeps sender plain node =
      on_result _ _ _ node (λ e. refl)
        (λ o. on_option o _ _ node refl (λ m.
          on_if (member m.id node.processed_messages) _ _ node refl (
            after_mark (deliver_inner w sender m) m.id node (λ e. refl)
              (λ n. finish_keeps _ _ _ ∙ send_delivery_ack_keeps_id m.id sender true n))))

  pub handle_noise_encrypted_keeps :
      (packet : BitchatPacket) (node : MeshNode)
      → kept (handle_noise_encrypted w packet node).1 ≡ kept node
  unfolding handle_noise_encrypted
  handle_noise_encrypted_keeps packet node = on_if _ _ _ node refl (
      on_result
        (decrypt_from_peer w.crypto packet.sender_id_str packet.payload node.encryption_service).0 _
        _ node (λ e. service_keeps _ node)
        (λ x.
          on_if _ _ _ node (receive_inner_keeps packet.sender_id_str x _ ∙ service_keeps _ node)
            (service_keeps _ node)))
