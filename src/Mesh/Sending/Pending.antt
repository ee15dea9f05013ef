-- ===== src/Mesh/Sending/Pending.antt =====
-- Private messages that wait for a session.
use bitchat_node_daemon.Base.{
  ℕ, ◌≡◌, refl, Bool, true, false, Option, none, some, List, [], ◌∷◌, ◌++◌, if◌then◌else◌, Result,
  ok,
}
use bitchat_node_daemon.Base.Bytes.{Text, eq_text}
use bitchat_node_daemon.Base.Dict.{Dict, lookup, insert, lookup-insert}
use bitchat_node_daemon.Encryption.Service.{has_established_session}
use bitchat_node_daemon.Mesh.Node.{MeshNode, Effect, Surroundings}
use bitchat_node_daemon.Mesh.Sending.{
  Sent, waiting, tried_recently, queue_message, start_handshake, send_private_message,
}

-- A queue with one more behind those that were there, if any.
abbrev pub behind :
    Option (List (Text × Text × Text)) → Text × Text × Text → List (Text × Text × Text)
behind none m = m ∷ []
behind (some ms) m = ms ++ m ∷ []

or_empty-behind :
    (o : Option (List (Text × Text × Text))) (m : Text × Text × Text)
    → (elim o [ none ↦ [] | some ms ↦ ms ]) ++ m ∷ [] ≡ behind o m
or_empty-behind none m = refl
or_empty-behind (some ms) m = refl

module _ (w : Surroundings) where
  waiting-behind :
      (target : Text) (node : MeshNode) (m : Text × Text × Text)
      → waiting w target node ++ m ∷ [] ≡ behind (lookup target node.pending_private_messages) m
  waiting-behind target node m = or_empty-behind (lookup target node.pending_private_messages) m

  start_keeps :
      (peer : Text) (node : MeshNode)
      → (start_handshake w peer node).1.pending_private_messages ≡ node.pending_private_messages
  unfolding start_handshake
  start_keeps peer node = refl

  if_sent :
      (b : Bool) (r : Result Text) (effects : List Effect) (n n' : MeshNode)
      (d : Dict (List (Text × Text × Text)))
      → n.pending_private_messages ≡ d
      → n'.pending_private_messages ≡ d
      → ((if◌then◌else◌ {A = Sent Text} b (r, [], n) (r, effects, n')).0 ≡ r)
        × ((if◌then◌else◌ {A = Sent Text} b (r, [], n) (r, effects, n')).2.pending_private_messages
            ≡ d)
  if_sent true r effects n n' d h h' = (refl, h)
  if_sent false r effects n n' d h h' = (refl, h')

  queue_lem :
      (content target nickname : Text) (x : ℕ) (id : Text) (node : MeshNode)
      → ((queue_message w content target nickname (some (x ∷ id)) node).0 ≡ ok (x ∷ id))
        × ((queue_message w content target nickname (some (x ∷ id)) node).2.pending_private_messages
            ≡ insert target
                (waiting w target node ++ (content, nickname, x ∷ id) ∷ [])
                node.pending_private_messages)
  unfolding queue_message
  queue_lem content target nickname x id node =
      let d =
        insert target (waiting w target node ++ (content, nickname, x ∷ id) ∷ [])
          node.pending_private_messages in
      let tried : MeshNode = record node {
        pending_private_messages = d;
        handshake_attempt_times = insert target w.moment.now_ms node.handshake_attempt_times;
      } in
      if_sent (tried_recently w target node) _ _ _ _ d refl (start_keeps target tried)

  -- A private message to a peer without a session waits behind the messages that waited for the peer, which
  -- stay, under the id that was given, which the caller gets; the queues of other peers stay as they were.
  pub send_private_message_waits :
      (content target nickname other : Text) (x : ℕ) (id : Text) (node : MeshNode)
      → has_established_session target node.encryption_service ≡ false
      → ((send_private_message w content target nickname (some (x ∷ id)) node).0 ≡ ok (x ∷ id))
        × (lookup other
              (send_private_message w content target nickname
                (some (x ∷ id))
                node).2.pending_private_messages
            ≡ (if eq_text target other
                then some (
                    behind
                      (lookup target node.pending_private_messages)
                      (content, nickname, x ∷ id))
                else lookup other node.pending_private_messages))
  unfolding send_private_message
  send_private_message_waits content target nickname other x id node without =
      let (returned, queued) = queue_lem content target nickname x id node in
      rw (without, send_private_message)
        (
          returned,
          rw
              (
                queued,
                lookup-insert target other _ node.pending_private_messages,
                waiting-behind target node (content, nickname, x ∷ id),
              )
              refl,
        )
