-- ===== src/Mesh/Receive/Duplicates.antt =====
-- The set of processed ids of daemon/mesh.py and what it decides.
use bitchat_node_daemon.Base.{
  ℕ, ◌≡◌, refl, ap, ◌∙◌, Bool, true, false, ◌||◌, none, List, [], ◌∷◌, arith, if◌then◌else◌, inl,
  inr, Bool-cases, length, Result, ok, err,
}
use bitchat_node_daemon.Base.Bytes.{Bytes, Text, eq_text, eq_text_refl}
use bitchat_node_daemon.Base.Dict.{member, member-add}
use bitchat_node_daemon.Protocol.Types.{BitchatMessage}
use bitchat_node_daemon.Protocol.Trackers.{message_wants_ack}
use bitchat_node_daemon.Mesh.Node.{MeshNode, Effect, Surroundings}
use bitchat_node_daemon.Mesh.Receive.{
  ack_payload, send_delivery_ack, deliver_message, receive_message, finish, mark_processed,
}

-- A message that reaches the node, with what the outside gives to its handler.
pub record Arrival : Type 0 where
  pub at : Surroundings
  pub sender : Text
  pub is_private : Bool
  pub said : BitchatMessage
  pub ttl : ℕ
  pub raw : Bytes

abbrev pub receive : Arrival → MeshNode → List Effect × MeshNode
receive a node = receive_message a.at a.sender a.is_private a.said a.ttl a.raw node

-- The node after messages that arrive one after the other.
pub receive_all : List Arrival → MeshNode → MeshNode
receive_all [] node = node
receive_all (a ∷ arrivals) node = receive_all arrivals (receive a node).1

module _ (w : Surroundings) where
  ack_payload_keeps :
      (id sender : Text) (is_private : Bool) (node : MeshNode)
      → (ack_payload w id sender is_private node).1.processed_messages ≡ node.processed_messages
  unfolding ack_payload
  ack_payload_keeps id sender true node = refl
  ack_payload_keeps id sender false node = refl

  if_keeps :
      (b : Bool) (x y : Result (List Effect) × MeshNode) (ids : List Text)
      → x.1.processed_messages ≡ ids
      → y.1.processed_messages ≡ ids
      → (if b then x else y).1.processed_messages ≡ ids
  if_keeps true x y ids h h' = h
  if_keeps false x y ids h h' = h'

  send_delivery_ack_keeps :
      (id sender : Text) (is_private : Bool) (node : MeshNode)
      → (send_delivery_ack w id sender is_private node).1.processed_messages
        ≡ node.processed_messages
  unfolding send_delivery_ack
  send_delivery_ack_keeps id sender is_private node =
      if_keeps _ _ _ node.processed_messages (ack_payload_keeps id sender is_private _) refl

  finish_node :
      (before after : List Effect) (r : Result (List Effect) × MeshNode)
      → (finish w before after r).1 ≡ r.1
  finish_node before after (ok effects, node) = refl
  finish_node before after (err x, node) = refl

  -- The set after a delivery is the one of the node that was marked.
  deliver_keeps :
      (sender : Text) (p : Bool) (m : BitchatMessage) (ttl : ℕ) (raw : Bytes)
      (node' node : MeshNode)
      → (deliver_message w sender p m ttl raw (ok node') node).1.processed_messages
        ≡ node'.processed_messages
  unfolding deliver_message
  deliver_keeps sender p m ttl raw node' node =
      ap (λ (n : MeshNode). n.processed_messages) (finish_node _ _ _)
      ∙ if_keeps (message_wants_ack p m.channel none node'.nickname (length node'.peers))
          (send_delivery_ack w m.id sender p node') (ok [], node') node'.processed_messages
          (send_delivery_ack_keeps m.id sender p node') refl

  -- What the set has after the delivery of a message: its id, where the filter took it, and what it had.
  delivered :
      (id sender : Text) (p : Bool) (m : BitchatMessage) (ttl : ℕ) (raw : Bytes) (node : MeshNode)
      → member id
          (deliver_message w sender p m ttl raw
            (mark_processed w m.id node)
            node).1.processed_messages
        ≡ (if w.bloom_refuses node.bloom m.id
            then member id node.processed_messages
            else member id node.processed_messages || eq_text m.id id)
  unfolding mark_processed
  delivered id sender p m ttl raw node = elim (Bool-cases (w.bloom_refuses node.bloom m.id)) [
    | inl full ↦ rw full (unfold deliver_message in refl)
    | inr free ↦ rw free (
        ap (member id) (deliver_keeps sender p m ttl raw _ node)
        ∙ member-add m.id id node.processed_messages)
  ]

  duplicate_lem :
      (sender : Text) (p : Bool) (m : BitchatMessage) (ttl : ℕ) (raw : Bytes) (node : MeshNode)
      → member m.id node.processed_messages ≡ true
      → receive_message w sender p m ttl raw node ≡ ([], node)
  unfolding receive_message
  duplicate_lem sender p m ttl raw node seen = rw (seen, receive_message) refl

  fresh_lem :
      (sender : Text) (p : Bool) (m : BitchatMessage) (ttl : ℕ) (raw : Bytes) (node : MeshNode)
      → member m.id node.processed_messages ≡ false
      → receive_message w sender p m ttl raw node
        ≡ deliver_message w sender p m ttl raw (mark_processed w m.id node) node
  unfolding receive_message
  fresh_lem sender p m ttl raw node new = rw (new, receive_message) refl

-- An id stays in the set.
receive_keeps :
    (id : Text) (a : Arrival) (node : MeshNode)
    → member id node.processed_messages ≡ true
    → member id (receive a node).1.processed_messages ≡ true
receive_keeps id a node h = elim (Bool-cases (member a.said.id node.processed_messages)) [
  | inl seen ↦ rw (duplicate_lem a.at a.sender a.is_private a.said a.ttl a.raw node seen) h
  | inr new ↦
      rw (fresh_lem a.at a.sender a.is_private a.said a.ttl a.raw node new)
        (delivered a.at id a.sender a.is_private a.said a.ttl a.raw node ∙ ground (arith, h))
]

receive_marks :
    (a : Arrival) (node : MeshNode)
    → a.at.bloom_refuses node.bloom a.said.id ≡ false
    → member a.said.id (receive a node).1.processed_messages ≡ true
receive_marks a node free = elim (Bool-cases (member a.said.id node.processed_messages)) [
  | inl seen ↦ receive_keeps a.said.id a node seen
  | inr new ↦ rw (fresh_lem a.at a.sender a.is_private a.said a.ttl a.raw node new) (
      delivered a.at a.said.id a.sender a.is_private a.said a.ttl a.raw node
      ∙ rw (free, eq_text_refl a.said.id) (ground arith))
]

receive_all_keeps :
    (id : Text) (arrivals : List Arrival) (node : MeshNode)
    → member id node.processed_messages ≡ true
    → member id (receive_all arrivals node).processed_messages ≡ true
unfolding receive_all
receive_all_keeps id [] node h = h
receive_all_keeps id (a ∷ arrivals) node h =
    receive_all_keeps id arrivals (receive a node).1 (receive_keeps id a node h)

-- After a message was received of which the Bloom filter took the id, and any messages after it, a message
-- with the same id has no effect and changes nothing, whoever sends it and whatever else it says.
pub receive_message_once :
    (first again : Arrival) (between : List Arrival) (node : MeshNode)
    → first.at.bloom_refuses node.bloom first.said.id ≡ false
    → again.said.id ≡ first.said.id
    → receive again (receive_all between (receive first node).1)
      ≡ ([], receive_all between (receive first node).1)
receive_message_once first again between node free same =
    duplicate_lem again.at again.sender again.is_private again.said again.ttl again.raw _ (
      rw same (
        receive_all_keeps first.said.id between (receive first node).1
          (receive_marks first node free)))
