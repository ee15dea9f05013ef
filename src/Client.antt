-- ===== src/Client.antt =====
-- bitchat.py, the Bluetooth client: its state, and how it sends packets and saves its state.
use bitchat_node_daemon.Base.{
  ℕ, zero, suc, ◌+◌, ◌-◌, Bool, true, false, Option, none, some, List, [], ◌∷◌, ◌++◌, ltb, ◌==◌,
  if◌then◌else◌, length, set, take, drop, Result, ok, err, ◌>>=◌,
}
use bitchat_node_daemon.Base.Bytes.{Bytes, Text, index, pack_u16}
use bitchat_node_daemon.Base.Dict.{Dict}
use bitchat_node_daemon.Base.Utf8.{encode}
use bitchat_node_daemon.Protocol.Types.{
  MessageType, value, message, fragment_start, fragment_continue, fragment_end, channel_announce,
}
use bitchat_node_daemon.Protocol.Packet.{Moment, create_bitchat_packet, should_fragment}
use bitchat_node_daemon.Encryption.Crypto.{Crypto}
use bitchat_node_daemon.Encryption.Service.{EncryptionService}
use bitchat_node_daemon.Persistence.{AppState, Document, Vault, save_state}
use bitchat_node_daemon.Client.Chat.{ChatMode, public, channel, private_dm, ChatContext}
pub mod Chat
pub mod Sending
pub mod Channels
pub mod Ownership
pub mod People
pub mod Handlers

-- `link` is `none` without a Bluetooth client and its characteristic, and otherwise says whether the
-- client is connected. A peer is its nickname; a pending message is its text, the nickname of the
-- peer and its id.
pub record Client : Type 0 where
  pub my_peer_id : Text
  pub nickname : Text
  pub peers : Dict (Option Text)
  pub chat_context : ChatContext
  pub channel_keys : Dict Bytes
  pub app_state : AppState
  pub blocked_peers : List Text
  pub channel_creators : Dict Text
  pub password_protected_channels : List Text
  pub channel_key_commitments : Dict Text
  pub discovered_channels : List Text
  pub encryption_service : EncryptionService
  pub link : Option Bool
  pub pending_private_messages : Dict (List (Text × Text × Text))

-- What goes out: a write to the characteristic, which may ask for a response, and a document for
-- the file of the state.
pub data Output : Type 0 where
  written : Bytes → Bool → Output
  stored : Document → Output

-- What the client takes from outside: the libraries, the clock and random source, the UUIDs and the
-- nonces of 12 bytes in the order in which a command draws them, PBKDF2 with SHA-256 and 100,000 rounds, and `str.isalnum` of one character.
pub record Outside : Type 0 where
  pub crypto : Crypto
  pub vault : Vault
  pub moment : Moment
  pub uuid : ℕ → Text
  pub nonce : ℕ → Bytes
  pub pbkdf2 : Bytes → Bytes → Bytes
  pub is_alnum : ℕ → Bool

-- What a command returns or raises, what goes out, and the client after it.
abbrev pub Done : Type 0
Done = Result (Unit {0}) × List Output × Client

abbrev leave_dm : ChatMode → ChatMode
leave_dm public = public
leave_dm (channel name) = channel name
leave_dm (private_dm nickname peer_id) = public

-- `handle_disconnect`, without the restart of the scanner.
unfoldable pub handle_disconnect : Client → Client
handle_disconnect c = record c {
  link = none;
  peers = [];
  chat_context = record c.chat_context {
    active_dms = [];
    current_mode = leave_dm c.chat_context.current_mode;
  };
  encryption_service = record c.encryption_service { sessions = []; handshake_states = [] };
  pending_private_messages = [];
}

-- `[packet[i:i+150] for i in range(0, len(packet), 150)]`, where a round takes at least one byte.
unfoldable pub pieces : ℕ → Bytes → List Bytes
pieces zero packet = []
pieces (suc fuel) [] = []
pieces (suc fuel) (x ∷ packet) = take 150 (x ∷ packet) ∷ pieces fuel (drop 150 (x ∷ packet))

unfoldable pub piece_type : ℕ → ℕ → MessageType
piece_type index total =
    if index == 0
    then fragment_start
    else if index == total - 1
    then fragment_end
    else fragment_continue

module _ (w : Outside) where
  unfoldable pub piece_packet : Text → Bytes → ℕ → ℕ → Bytes → Result Bytes
  unfolding piece_type
  piece_packet my_peer_id fragment_id index total chunk = do
    index_field ← pack_u16 index
    total_field ← pack_u16 total
    create_bitchat_packet w.moment my_peer_id (piece_type index total)
        (fragment_id ++ (index_field ++ (total_field ++ (value message ∷ chunk))))

  unfoldable pub send_pieces : Text → Bytes → ℕ → ℕ → List Bytes → Result (Unit {0}) × List Output
  unfolding piece_packet
  send_pieces my_peer_id fragment_id index total [] = (ok tt, [])
  send_pieces my_peer_id fragment_id index total (chunk ∷ chunks) =
      let (r, rest) = send_pieces my_peer_id fragment_id (index + 1) total chunks in
      elim (piece_packet my_peer_id fragment_id index total chunk) [
        | err raised ↦ (err raised, [])
        | ok packet ↦ (r, written packet false ∷ rest)
      ]

  -- `send_packet_with_fragmentation`, over a link that is connected.
  unfoldable pub send_fragments : Bytes → Client → Done
  unfolding pieces send_pieces
  send_fragments packet c =
      let chunks = pieces (length packet) packet in
      let (r, out) = send_pieces c.my_peer_id (w.moment.random 8) 0 (length chunks) chunks in
      (r, out, c)

  -- `send_packet`, where every write works.
  send_over : Option Bool → Bytes → Client → Done
  unfolding handle_disconnect send_fragments
  send_over none packet c = (ok tt, [], c)
  send_over (some false) packet c = (ok tt, [], handle_disconnect c)
  send_over (some true) packet c =
      let fragments = send_fragments packet c in
      if should_fragment packet
      then fragments
      else (ok tt, written packet (ltb 512 (length packet)) ∷ [], c)

  unfoldable pub send_packet : Bytes → Client → Done
  unfolding send_over
  send_packet packet c = send_over c.link packet c

  -- A packet with another TTL, if it could be made.
  abbrev pub send_with_ttl : Option ℕ → Result Bytes → Client → Done
  send_with_ttl ttl (err raised) c = (err raised, [], c)
  send_with_ttl none (ok packet) c = send_packet packet c
  send_with_ttl (some ttl) (ok packet) c = send_packet (set packet 2 ttl) c

  abbrev or_empty : Option Text → Text
  or_empty none = []
  or_empty (some t) = t

  unfoldable pub announcement : Text → Bool → Option Text → Text → Text
  announcement name is_protected key_commitment my_peer_id =
      name
      ++ (b'|'
          ∷ (if is_protected then b'1' else b'0')
          ∷ b'|'
          ∷ (my_peer_id ++ (b'|' ∷ or_empty key_commitment)))

  unfoldable pub send_channel_announce : Text → Bool → Option Text → Client → Done
  unfolding announcement send_packet
  send_channel_announce name is_protected key_commitment c =
      send_with_ttl (some 5)
        (encode (announcement name is_protected key_commitment c.my_peer_id) >>= λ payload.
          create_bitchat_packet w.moment c.my_peer_id channel_announce payload)
        c

-- `save_app_state`
unfoldable pub updated_state : Client → AppState
updated_state c = record c.app_state {
  nickname = some c.nickname;
  blocked_peers = c.blocked_peers;
  channel_creators = c.channel_creators;
  joined_channels = c.chat_context.active_channels;
  password_protected_channels = c.password_protected_channels;
  channel_key_commitments = c.channel_key_commitments;
}

unfoldable pub save_app_state : Client → List Output × Client
unfolding updated_state
save_app_state c =
    (stored (save_state (updated_state c)) ∷ [], record c { app_state = updated_state c })

-- One command after another: what the first raises ends both.
abbrev pub then_do : Done → (Client → Done) → Done
then_do (err raised, out, c) next = (err raised, out, c)
then_do (ok done, out, c) next = let (r, out', c') = next c in (r, out ++ out', c')
