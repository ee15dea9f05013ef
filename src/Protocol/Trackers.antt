-- ===== src/Protocol/Trackers.antt =====
-- The delivery tracker and the fragment collector of bitchat/protocol.py, and its last utilities.
pub mod Acks
use bitchat_node_daemon.Base.{
  ◌||◌, ℕ, zero, suc, ◌+◌, ◌-◌, Bool, true, false, Option, none, some, List, ◌∷◌, ◌++◌, ltb, ◌==◌,
  if◌then◌else◌, length, take, [],
}
use bitchat_node_daemon.Base.Bytes.{Bytes, Text, index}
use bitchat_node_daemon.Base.Hex.{hex}
use bitchat_node_daemon.Base.Dict.{Dict, lookup, has_key, insert, remove, member, add}
use bitchat_node_daemon.Protocol.Types.{truthy}
use bitchat_node_daemon.Protocol.Packet.{last_byte}

-- A tracked message: its text, the time, and whether it is private.
pub record DeliveryTracker : Type 0 where
  pub pending_messages : Dict (Text × ℕ × Bool)
  pub sent_acks : List Text

abbrev pub new_tracker : DeliveryTracker
new_tracker = record { pending_messages = []; sent_acks = [] }

unfoldable pub track_message : ℕ → Text → Text → Bool → DeliveryTracker → DeliveryTracker
track_message now message_id content is_private t = record t {
  pending_messages = insert message_id (content, now, is_private) t.pending_messages;
}

unfoldable pub mark_delivered : Text → DeliveryTracker → Bool × DeliveryTracker
mark_delivered message_id t = (
  has_key message_id t.pending_messages,
  record t { pending_messages = remove message_id t.pending_messages },
)

unfoldable pub should_send_ack : Text → DeliveryTracker → Bool × DeliveryTracker
should_send_ack ack_id t =
    if member ack_id t.sent_acks
    then (false, t)
    else (true, record t { sent_acks = add ack_id t.sent_acks })

-- The `dict` from a fragment's index to its data, in the order of insertion.
abbrev pub FragmentMap : Type 0
FragmentMap = List (ℕ × Bytes)

unfoldable pub get_fragment : ℕ → FragmentMap → Option Bytes
get_fragment i [] = none
get_fragment i ((j, d) ∷ m) = if j == i then some d else get_fragment i m

unfoldable pub put_fragment : ℕ → Bytes → FragmentMap → FragmentMap
put_fragment i d [] = (i, d) ∷ []
put_fragment i d ((j, e) ∷ m) = if j == i then (j, d) ∷ m else (j, e) ∷ put_fragment i d m

-- The total, the original type and the sender that the first fragment named.
pub record FragmentCollector : Type 0 where
  pub fragments : Dict FragmentMap
  pub metadata : Dict (ℕ × ℕ × Text)

abbrev pub new_collector : FragmentCollector
new_collector = record { fragments = []; metadata = [] }

-- `for i in range(total)`: `count` rounds from `i` on; `none` where a fragment is missing.
unfoldable pub join_fragments : ℕ → ℕ → FragmentMap → Option Bytes
join_fragments zero i m = some []
join_fragments (suc count) i m = elim (get_fragment i m) [
  | none ↦ none
  | some d ↦ elim (join_fragments count (i + 1) m) [ none ↦ none | some rest ↦ some (d ++ rest) ]
]

abbrev pub unknown : Text
unknown = b'U' ∷ b'n' ∷ b'k' ∷ b'n' ∷ b'o' ∷ b'w' ∷ b'n' ∷ []

-- `if fragment_id_hex not in self.fragments`: a new collection.
unfoldable pub open_collection : Text → ℕ → ℕ → Text → FragmentCollector → FragmentCollector
open_collection key total original_type sender_id c =
    if has_key key c.fragments then c else record c {
      fragments = insert key [] c.fragments;
      metadata = insert key (total, original_type, sender_id) c.metadata;
    }

unfoldable pub close_collection : Text → FragmentCollector → FragmentCollector
close_collection key c = record c {
  fragments = remove key c.fragments;
  metadata = remove key c.metadata;
}

unfoldable pub map_at : Text → FragmentCollector → FragmentMap
map_at key c = elim (lookup key c.fragments) [ none ↦ [] | some m ↦ m ]

unfoldable pub sender_at : Text → FragmentCollector → Text
sender_at key c = elim (lookup key c.metadata) [ none ↦ unknown | some (_, _, s) ↦ s ]

-- With all fragments there: join them, and forget the collection if none is missing.
unfoldable pub settle :
    Text → ℕ → FragmentMap → FragmentCollector → Option (Bytes × Text) × FragmentCollector
settle key total m c =
    if length m == total
    then elim (join_fragments total 0 m) [
      | none ↦ (none, c)
      | some whole ↦ (some (whole, sender_at key c), close_collection key c)
    ]
    else (none, c)

abbrev pub store_map : Text → FragmentMap → FragmentCollector → FragmentCollector
store_map key m c = record c { fragments = insert key m c.fragments }

-- `fragment_map[index] = data` and what follows, in a collection that is there.
unfoldable pub store_fragment :
    Text → ℕ → ℕ → Bytes → FragmentCollector → Option (Bytes × Text) × FragmentCollector
store_fragment key index total piece c =
    let m = put_fragment index piece (map_at key c) in settle key total m (store_map key m c)

unfoldable pub add_fragment :
    Bytes → ℕ → ℕ → ℕ → Bytes → Text → FragmentCollector → Option (Bytes × Text) × FragmentCollector
add_fragment fragment_id index total original_type piece sender_id c =
    let key = hex fragment_id in
    store_fragment key index total piece (open_collection key total original_type sender_id c)

unfoldable pub unpad_message : Bytes → Bytes
unpad_message xs = elim (last_byte xs) [
  | none ↦ xs
  | some n ↦ if n == 0 || ltb (length xs) n || ltb 255 n then xs else take (length xs - n) xs
]

-- `should_send_ack` of the module, for a message that was received.
unfoldable pub message_wants_ack : Bool → Option Text → Option (List Text) → Text → ℕ → Bool
message_wants_ack is_private channel mentions my_nickname active_peer_count =
    if is_private
    then true
    else if truthy channel
    then ltb active_peer_count 10
      || elim mentions [ none ↦ false | some names ↦ member my_nickname names ]
    else false
