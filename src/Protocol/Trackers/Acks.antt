-- ===== src/Protocol/Trackers/Acks.antt =====
-- The answers of `DeliveryTracker` of bitchat/protocol.py.
use bitchat_node_daemon.Base.{ℕ, ◌≡◌, Bool, not, ◌&&◌, ◌||◌, arith}
use bitchat_node_daemon.Base.Bytes.{Text, eq_text, eq_text_iff}
use bitchat_node_daemon.Base.Dict.{insert, lookup-insert, lookup-remove, member, member-add}
use bitchat_node_daemon.Protocol.Trackers.{
  DeliveryTracker, track_message, mark_delivered, should_send_ack,
}

-- An acknowledgement is to be sent exactly if its id was not seen; afterwards that id, and no
-- other, is seen as well.
pub should_send_ack_once :
    (a b : Text) (t : DeliveryTracker)
    → ((should_send_ack a t).0 ≡ not (member a t.sent_acks))
      × ((should_send_ack b (should_send_ack a t).1).0 ≡ not (eq_text a b || member b t.sent_acks))
unfolding should_send_ack
should_send_ack_once a b t = ground (arith, member-add a b t.sent_acks, eq_text_iff a b)

-- Whether a message is reported as delivered after it was tracked and another one was delivered:
-- it is the tracked one or was pending before, and it is not the delivered one.
pub mark_delivered-track :
    (now : ℕ) (a b k content : Text) (is_private : Bool) (t : DeliveryTracker)
    → (mark_delivered k (mark_delivered b (track_message now a content is_private t)).1).0
      ≡ not (eq_text b k) && (eq_text a k || (mark_delivered k t).0)
unfolding mark_delivered track_message
mark_delivered-track now a b k content is_private t = ground (
  arith,
  lookup-remove b k (insert a (content, now, is_private) t.pending_messages),
  lookup-insert a k (content, now, is_private) t.pending_messages,
)
