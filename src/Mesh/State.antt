-- ===== src/Mesh/State.antt =====
-- The start of a node from what is on disk, what it saves, and its status.
use bitchat_node_daemon.Base.{
  ℕ, Option, none, some, List, [], ◌∷◌, ◌++◌, map, length, Result, ok, err, ◌>>=◌,
}
use bitchat_node_daemon.Base.Bytes.{Bytes, Text}
use bitchat_node_daemon.Base.Dict.{Dict, lookup, insert}
use bitchat_node_daemon.Base.Texts.{codes}
use bitchat_node_daemon.Protocol.Trackers.{new_collector, new_tracker}
use bitchat_node_daemon.Transport.{PeerConnection}
use bitchat_node_daemon.Encryption.Channel.{derive_channel_key}
use bitchat_node_daemon.Encryption.Service.{get_session_count}
use bitchat_node_daemon.Persistence.{AppState, EncryptedPassword, Vault, decrypt_password}
use bitchat_node_daemon.Mesh.Node.{MeshNode, Effect, Surroundings}
use bitchat_node_daemon.Mesh.Announce.{send_identity_announce, send_announce}
pub mod Restart

-- `save_state` up to the writing of the file.
unfoldable pub keep : MeshNode → AppState → AppState
keep node app_state = record app_state {
  nickname = some node.nickname;
  blocked_peers = node.blocked_peers;
  channel_creators = node.channel_creators;
  password_protected_channels = node.password_protected_channels;
  channel_key_commitments = node.channel_key_commitments;
}

-- `config["node"]["nickname"]` goes before the saved nickname.
unfoldable pub choose_nickname : Option Text → Option Text → Text
choose_nickname (some (x ∷ cli)) saved = x ∷ cli
choose_nickname cli (some (x ∷ saved)) = x ∷ saved
choose_nickname none saved = codes "anon-daemon"
choose_nickname (some []) saved = []

-- `if key := ...: self.channel_keys[channel] = key`, where an exception leaves them as they are.
put_key : Text → Result Bytes → Dict Bytes → Dict Bytes
put_key channel (err raised) keys = keys
put_key channel (ok key) keys = insert channel key keys

module _ (v : Vault) (pbkdf2 : Bytes → Bytes → Bytes) where
  unfoldable pub channel_key : List ℕ → Text → EncryptedPassword → Result Bytes
  channel_key identity_key channel encrypted =
      decrypt_password v encrypted identity_key >>= λ password.
      derive_channel_key pbkdf2 password channel

  restore_keys : List ℕ → Dict EncryptedPassword → Dict Bytes → Dict Bytes
  unfolding put_key
  restore_keys identity_key [] keys = keys
  restore_keys identity_key ((channel, encrypted) ∷ rest) keys =
      restore_keys identity_key rest
        (put_key channel (channel_key identity_key channel encrypted) keys)

  restore_with : Option (List ℕ) → Dict EncryptedPassword → Dict Bytes
  unfolding restore_keys
  restore_with none passwords = []
  restore_with (some []) passwords = []
  restore_with (some (x ∷ key)) passwords = restore_keys (x ∷ key) passwords []

  -- `_restore_channel_keys`
  unfoldable pub restore_channel_keys : AppState → Dict Bytes
  unfolding restore_with
  restore_channel_keys app_state =
      restore_with app_state.identity_key app_state.encrypted_channel_passwords

  -- `__init__`, with the random id, the new static key, and the nickname of the configuration.
  unfoldable pub new_node : Text → Bytes → Option Text → AppState → MeshNode
  unfolding choose_nickname restore_channel_keys
  new_node my_peer_id static_key cli app_state = record {
    my_peer_id = my_peer_id;
    nickname = choose_nickname cli app_state.nickname;
    encryption_service = record {
      static_identity_key = static_key;
      sessions = [];
      handshake_states = [];
    };
    peers = [];
    peer_addresses = [];
    bloom = [];
    processed_messages = [];
    fragment_collector = new_collector;
    delivery_tracker = new_tracker;
    channel_keys = restore_channel_keys app_state;
    channel_creators = app_state.channel_creators;
    password_protected_channels = app_state.password_protected_channels;
    channel_key_commitments = app_state.channel_key_commitments;
    discovered_channels = [];
    blocked_peers = app_state.blocked_peers;
    handshake_attempt_times = [];
    pending_private_messages = [];
  }

-- `_get_conn_for_peer`, in the table of the transport.
unfoldable pub get_conn_for_peer : Text → Dict PeerConnection → MeshNode → Option PeerConnection
get_conn_for_peer peer connections node = elim (lookup peer node.peer_addresses) [
  | none ↦ none
  | some [] ↦ none
  | some (x ∷ addr) ↦ lookup (x ∷ addr) connections
]

-- `on_connect_transport`: the node may change while the call sleeps before each of its two sends,
-- and an exception of one of them is logged.
unfoldable pub on_connect_transport : Surroundings → MeshNode → MeshNode → List Effect
on_connect_transport w node later = elim (send_identity_announce w node) [
  | err raised ↦ []
  | ok sent ↦ elim (send_announce w later) [ err raised ↦ sent | ok sent' ↦ sent ++ sent' ]
]

pub record PeerStatus : Type 0 where
  pub peer_id : Text
  pub nickname : Option Text
  pub address : Text

pub record Status : Type 0 where
  pub peer_id : Text
  pub nickname : Text
  pub peers_count : ℕ
  pub connections_count : ℕ
  pub session_count : ℕ
  pub peers : List PeerStatus
  pub channels : List Text

or_empty : Option Text → Text
or_empty none = []
or_empty (some t) = t

unfoldable pub peer_status : MeshNode → Text × Option Text → PeerStatus
unfolding or_empty
peer_status node (pid, nickname) = record {
  peer_id = pid;
  nickname = nickname;
  address = or_empty (lookup pid node.peer_addresses);
}

-- `get_status`, with the connections of the transport.
unfoldable pub get_status : Dict PeerConnection → MeshNode → Status
unfolding peer_status
get_status connections node = record {
  peer_id = node.my_peer_id;
  nickname = node.nickname;
  peers_count = length node.peers;
  connections_count = length connections;
  session_count = get_session_count node.encryption_service;
  peers = map (peer_status node) node.peers;
  channels = node.discovered_channels;
}
