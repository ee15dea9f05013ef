-- ===== src/Mesh/Peers.antt =====
-- The handlers that keep the tables of peers and of channels: announcements, departures, lost
-- connections and channel announcements.
use bitchat_node_daemon.Base.{
  Bool, true, false, Option, none, some, List, ◌∷◌, ◌++◌, ◌==◌, if◌then◌else◌, ok, err, [],
}
use bitchat_node_daemon.Base.Bytes.{Bytes, Text, eq_text}
use bitchat_node_daemon.Base.Utf8.{ignore, decode}
use bitchat_node_daemon.Base.Texts.{strip, split}
use bitchat_node_daemon.Base.Dict.{Dict, lookup, has_key, insert, remove, add, discard}
use bitchat_node_daemon.Protocol.Types.{BitchatPacket}
use bitchat_node_daemon.Encryption.Service.{remove_session}
use bitchat_node_daemon.Mesh.Node.{MeshNode, Effect, peer_joined, peer_left, saved, relay}
pub mod Departure
pub mod Frame
pub mod Channels

-- A nickname is set for a peer that is known or new.
unfoldable pub learn_peer : Text → Text → MeshNode → List Effect × MeshNode
unfolding lookup insert
learn_peer peer nickname node = (
  (if has_key peer node.peers then [] else peer_joined peer nickname ∷ []),
  record node { peers = insert peer (some nickname) node.peers },
)

-- `_handle_announce`
unfoldable pub handle_announce : BitchatPacket → MeshNode → List Effect × MeshNode
unfolding decode strip learn_peer
handle_announce packet node = elim (decode ignore packet.payload) [
  | err x ↦ ([], node)
  | ok text ↦ learn_peer packet.sender_id_str (strip text) node
]

-- The API hears of a peer that had a nickname.
abbrev pub farewell : Text → Option (Option Text) → List Effect
farewell peer (some (some (x ∷ nickname))) = peer_left peer (x ∷ nickname) ∷ []
farewell peer (some (some [])) = []
farewell peer (some none) = []
farewell peer none = []

-- `_remove_peer`
unfoldable pub remove_peer : Text → MeshNode → List Effect × MeshNode
unfolding lookup remove remove_session
remove_peer peer node = (
  farewell peer (lookup peer node.peers),
  record node {
    peers = remove peer node.peers;
    peer_addresses = remove peer node.peer_addresses;
    pending_private_messages = remove peer node.pending_private_messages;
    encryption_service = remove_session peer node.encryption_service;
  },
)

-- The first peer, in the order in which the addresses were learnt, that is at an address.
unfoldable pub find_peer : Text → Dict Text → Option Text
find_peer address [] = none
find_peer address ((peer, a) ∷ d) = if eq_text a address then some peer else find_peer address d

-- `_on_peer_disconnected`; `if peer_id:` passes over an empty id.
unfoldable pub on_peer_disconnected : Text → MeshNode → List Effect × MeshNode
unfolding find_peer remove_peer
on_peer_disconnected address node = elim (find_peer address node.peer_addresses) [
  | none ↦ ([], node)
  | some [] ↦ ([], node)
  | some (x ∷ peer) ↦ remove_peer (x ∷ peer) node
]

starts_with_hash : Text → Bool
starts_with_hash [] = false
starts_with_hash (x ∷ xs) = x == 35

-- `_handle_leave`: a text that begins with '#' names a channel, and nothing is done about it.
unfoldable pub handle_leave : BitchatPacket → Bytes → MeshNode → List Effect × MeshNode
unfolding decode strip starts_with_hash remove_peer relay
handle_leave packet raw node = elim (decode ignore packet.payload) [
  | err x ↦ ([], node)
  | ok text ↦
      let (effects, node') =
        (if starts_with_hash (strip text)
          then ([], node)
          else remove_peer packet.sender_id_str node) in
      (effects ++ relay raw packet.ttl, node')
]

-- What a channel announcement says.
pub record ChannelNews : Type 0 where
  pub channel : Text
  pub is_protected : Bool
  pub creator_id : Text
  pub key_commitment : Text

unfoldable pub read_channel_news : List Text → Option ChannelNews
read_channel_news (channel ∷ protected ∷ creator ∷ []) = some (record {
  channel = channel;
  is_protected = eq_text protected (49 ∷ []);
  creator_id = creator;
  key_commitment = [];
})
read_channel_news (channel ∷ protected ∷ creator ∷ commitment ∷ rest) = some (record {
  channel = channel;
  is_protected = eq_text protected (49 ∷ []);
  creator_id = creator;
  key_commitment = commitment;
})
read_channel_news _ = none

-- `if x: d[k] = x`
abbrev insert_unless_empty : Text → Text → Dict Text → Dict Text
insert_unless_empty k [] d = d
insert_unless_empty k (x ∷ xs) d = insert k (x ∷ xs) d

-- The branches on `is_protected`.
unfoldable pub protect_channel : Bool → ChannelNews → MeshNode → MeshNode
unfolding insert remove add discard
protect_channel true news node = record node {
  password_protected_channels = add news.channel node.password_protected_channels;
  channel_key_commitments =
      insert_unless_empty news.channel news.key_commitment node.channel_key_commitments;
}
protect_channel false news node = record node {
  password_protected_channels = discard news.channel node.password_protected_channels;
  channel_keys = remove news.channel node.channel_keys;
  channel_key_commitments = remove news.channel node.channel_key_commitments;
}

unfoldable pub note_channel : ChannelNews → MeshNode → MeshNode
unfolding insert add protect_channel
note_channel news node =
    let node' = record node {
      channel_creators = insert_unless_empty news.channel news.creator_id node.channel_creators;
    } in
    let node'' = protect_channel news.is_protected news node' in
    record node'' { discovered_channels = add news.channel node''.discovered_channels }

-- `_handle_channel_announce`
unfoldable pub handle_channel_announce : BitchatPacket → MeshNode → List Effect × MeshNode
unfolding decode split read_channel_news note_channel
handle_channel_announce packet node = elim (decode ignore packet.payload) [
  | err x ↦ ([], node)
  | ok text ↦ elim (read_channel_news (split 124 text)) [
    | none ↦ ([], node)
    | some news ↦ (saved ∷ [], note_channel news node)
  ]
]
