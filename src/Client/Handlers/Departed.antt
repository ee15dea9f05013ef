-- ===== src/Client/Handlers/Departed.antt =====
-- What a client of bitchat.py has of a peer that left.
use bitchat_node_daemon.Base.{ℕ, ◌≡◌, refl, Bool, false, some, [], ◌∷◌, if◌then◌else◌, ok}
use bitchat_node_daemon.Base.Bytes.{Bytes, Text, eq_text}
use bitchat_node_daemon.Base.Dict.{without, lookup, remove, lookup-remove}
use bitchat_node_daemon.Base.Utf8.{ignore, decode}
use bitchat_node_daemon.Base.Texts.{strip, starts_with}
use bitchat_node_daemon.Encryption.Service.{remove_session}
use bitchat_node_daemon.Client.{Client}
use bitchat_node_daemon.Client.Chat.{ChatMode, public, channel, private_dm}
use bitchat_node_daemon.Client.Sending.{after}
use bitchat_node_daemon.Client.Handlers.{
  mode_without, forget_nickname, drop_peer, left_text, handle_leave,
}

-- Whether the mode is a direct message with a peer.
abbrev pub is_dm_with : Text → ChatMode → Bool
is_dm_with peer public = false
is_dm_with peer (channel name) = false
is_dm_with peer (private_dm nickname peer_id) = eq_text peer_id peer

-- The tables of a client by key, after the peer left.
pub record HasLost (peer nickname : Text) (c c' : Client) : Type 0 where
  pub peers : (q : Text) → lookup q c'.peers ≡ without peer c.peers q
  pub active_dms :
      (q : Text)
      → lookup q c'.chat_context.active_dms ≡ without nickname c.chat_context.active_dms q
  pub pending :
      (q : Text) → lookup q c'.pending_private_messages ≡ without peer c.pending_private_messages q
  pub sessions :
      (q : Text)
      → lookup q c'.encryption_service.sessions ≡ without peer c.encryption_service.sessions q
  pub handshakes :
      (q : Text)
      → lookup q c'.encryption_service.handshake_states
        ≡ without peer c.encryption_service.handshake_states q
  pub mode : c'.chat_context.current_mode ≡ (
      if is_dm_with peer c.chat_context.current_mode then public else c.chat_context.current_mode)

mode_without-closes :
    (peer : Text) (m : ChatMode) → mode_without peer m ≡ (if is_dm_with peer m then public else m)
unfolding mode_without
mode_without-closes peer public = refl
mode_without-closes peer (channel name) = refl
mode_without-closes peer (private_dm nickname peer_id) = refl

forget_nickname-loses :
    (peer nickname : Text) (x : ℕ) (c : Client)
    → HasLost peer (x ∷ nickname) c (
        forget_nickname peer
          (some (some (x ∷ nickname)))
          (record c { peers = remove peer c.peers }))
unfolding forget_nickname remove_session
forget_nickname-loses peer nickname x c = record {
  peers = λ q. lookup-remove peer q c.peers;
  active_dms = λ q. lookup-remove (x ∷ nickname) q c.chat_context.active_dms;
  pending = λ q. lookup-remove peer q c.pending_private_messages;
  sessions = λ q. lookup-remove peer q c.encryption_service.sessions;
  handshakes = λ q. lookup-remove peer q c.encryption_service.handshake_states;
  mode = mode_without-closes peer c.chat_context.current_mode;
}

-- When a peer with a nickname leaves, by a text that does not start with #, the client loses the peer,
-- the entry of its nickname among the direct messages, the messages that wait for it, and its session
-- and handshake. Every other entry of these tables stays. An open direct message with the peer gives
-- way to the public chat; any other mode stays.
pub handle_leave-HasLost :
    (peer nickname said : Text) (x : ℕ) (payload : Bytes) (c : Client)
    → decode ignore payload ≡ ok said
    → starts_with (b'#' ∷ []) (strip said) ≡ false
    → lookup peer c.peers ≡ some (some (x ∷ nickname))
    → HasLost peer (x ∷ nickname) c (after (handle_leave peer payload c))
unfolding handle_leave left_text drop_peer
handle_leave-HasLost peer nickname said x payload c read alone known =
    rw (read, alone, known) (forget_nickname-loses peer nickname x c)
