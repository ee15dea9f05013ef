-- ===== src/Mesh/Sending/Frame.antt =====
-- What the sending of handshakes and private messages of daemon/mesh.py leaves as it was.
use bitchat_node_daemon.Base.{
  ℕ, ◌+◌, ◌≡◌, refl, ◌∙◌, Bool, true, false, Option, some, List, [], ◌∷◌, if◌then◌else◌, Result, ok,
  err,
}
use bitchat_node_daemon.Base.Bytes.{Bytes, Text}
use bitchat_node_daemon.Base.Dict.{lookup}
use bitchat_node_daemon.Encryption.Service.{has_established_session}
use bitchat_node_daemon.Mesh.Node.{MeshNode, Surroundings}
use bitchat_node_daemon.Mesh.Sending.{
  send_outer, send_inner, send_payload, tried_recently, Sent, start_handshake, send_established,
  queue_message, send_private_message, send_waiting, send_pending,
}
use bitchat_node_daemon.Mesh.Kept.{
  kept, service_keeps, tracker_keeps, on_option, pending_keeps, tried_keeps,
}

module _ (w : Surroundings) where
  pub start_handshake_keeps :
      (peer : Text) (node : MeshNode) → kept (start_handshake w peer node).1 ≡ kept node
  unfolding start_handshake kept
  start_handshake_keeps peer node = refl

  sent_if :
      (b : Bool) (x y : Sent Text) (node : MeshNode)
      → kept x.2 ≡ kept node
      → kept y.2 ≡ kept node
      → kept (if b then x else y).2 ≡ kept node
  sent_if true x y node h h' = h
  sent_if false x y node h h' = h'

  send_outer_keeps :
      (target id : Text) (r : Result Bytes) (node : MeshNode)
      → kept (send_outer w target id r node).2 ≡ kept node
  send_outer_keeps target id (err x) node = refl
  send_outer_keeps target id (ok packet) node = refl

  send_inner_keeps :
      (target id : Text) (r : Result Bytes) (node : MeshNode)
      → kept (send_inner w target id r node).2 ≡ kept node
  send_inner_keeps target id (err x) node = refl
  send_inner_keeps target id (ok inner) node = send_outer_keeps target id _ _ ∙ service_keeps _ node

  send_payload_keeps :
      (content target : Text) (r : Result (Bytes × Text)) (node : MeshNode)
      → kept (send_payload w content target r node).2 ≡ kept node
  send_payload_keeps content target (err x) node = refl
  send_payload_keeps content target (ok (payload, id)) node =
      send_inner_keeps target id _ _ ∙ tracker_keeps _ node

  queue_message_keeps :
      (content target nickname : Text) (id : Option Text) (node : MeshNode)
      → kept (queue_message w content target nickname id node).2 ≡ kept node
  unfolding queue_message
  queue_message_keeps content target nickname id node =
      sent_if (tried_recently w target node) _ _ node (pending_keeps _ node)
        (start_handshake_keeps target _ ∙ tried_keeps _ _ node)

  send_private_message_keeps :
      (content target nickname : Text) (id : Option Text) (node : MeshNode)
      → kept (send_private_message w content target nickname id node).2 ≡ kept node
  unfolding send_private_message send_established
  send_private_message_keeps content target nickname id node =
      sent_if (has_established_session target node.encryption_service) _ _ node
        (send_payload_keeps content target _ node)
        (queue_message_keeps content target nickname id node)

send_waiting_keeps :
    (w : ℕ → Surroundings) (i : ℕ) (peer : Text) (ms : List (Text × Text × Text)) (node : MeshNode)
    → kept (send_waiting w i peer ms node).1 ≡ kept node
unfolding send_waiting
send_waiting_keeps w i peer [] node = refl
send_waiting_keeps w i peer ((content, nickname, id) ∷ ms) node =
    send_waiting_keeps w (i + 1) peer ms _
    ∙ send_private_message_keeps (w i) content peer nickname (some id) node

pub send_pending_keeps :
    (w : ℕ → Surroundings) (peer : Text) (node : MeshNode)
    → kept (send_pending w peer node).1 ≡ kept node
unfolding send_pending
send_pending_keeps w peer node =
    on_option (lookup peer node.pending_private_messages) _ _ node refl
      (λ ms. send_waiting_keeps w 0 peer ms _ ∙ pending_keeps _ node)
