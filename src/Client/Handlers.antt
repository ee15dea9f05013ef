-- ===== src/Client/Handlers.antt =====
-- Handlers of bitchat.py for received packets: channel announcements and departures.
use bitchat_node_daemon.Base.{
  Bool, true, false, Option, none, some, [], ◌∷◌, if◌then◌else◌, Result, ok, err,
}
use bitchat_node_daemon.Base.Bytes.{Bytes, Text, eq_text}
use bitchat_node_daemon.Base.Dict.{Dict, lookup, insert, remove, add, discard}
use bitchat_node_daemon.Base.Utf8.{ignore, decode}
use bitchat_node_daemon.Base.Texts.{strip, split, starts_with}
use bitchat_node_daemon.Encryption.Service.{remove_session}
use bitchat_node_daemon.Mesh.Peers.{ChannelNews, read_channel_news}
use bitchat_node_daemon.Client.{Client, Done, save_app_state}
use bitchat_node_daemon.Client.Chat.{ChatMode, public, channel, private_dm, add_channel}
use bitchat_node_daemon.Client.Channels.{nothing, silently}
pub mod Announced
pub mod Departed

-- `if x: d[k] = x`
unfoldable pub put_unless_empty : Text → Text → Dict Text → Dict Text
put_unless_empty k [] d = d
put_unless_empty k (x ∷ t) d = insert k (x ∷ t) d

-- The tables of a channel that is protected, and of one that is not.
unfoldable pub mark_channel : Bool → ChannelNews → Client → Client
unfolding put_unless_empty
mark_channel true news c = record c {
  password_protected_channels = add news.channel c.password_protected_channels;
  channel_key_commitments =
      put_unless_empty news.channel news.key_commitment c.channel_key_commitments;
}
mark_channel false news c = record c {
  password_protected_channels = discard news.channel c.password_protected_channels;
  channel_keys = remove news.channel c.channel_keys;
  channel_key_commitments = remove news.channel c.channel_key_commitments;
}

unfoldable pub note_news : ChannelNews → Client → Client
unfolding put_unless_empty
note_news news c =
    let c' : Client = record c {
      channel_creators = put_unless_empty news.channel news.creator_id c.channel_creators;
    } in
    let c'' = mark_channel news.is_protected news c' in
    record c'' { chat_context = add_channel news.channel c''.chat_context }

unfoldable pub heard_news : Option ChannelNews → Client → Done
heard_news none c = nothing c
heard_news (some news) c = silently (save_app_state (note_news news c))

unfoldable pub heard_text : Result Text → Client → Done
heard_text (err raised) c = (err raised, [], c)
heard_text (ok said) c = heard_news (read_channel_news (split b'|' said)) c

-- `handle_channel_announce`, of the payload of its packet
unfoldable pub handle_channel_announce : Bytes → Client → Done
handle_channel_announce payload c = heard_text (decode ignore payload) c

-- The mode after the peer left: a direct message with its id is closed.
unfoldable pub mode_without : Text → ChatMode → ChatMode
mode_without peer public = public
mode_without peer (channel name) = channel name
mode_without peer (private_dm nickname peer_id) =
    if eq_text peer_id peer then public else private_dm nickname peer_id

unfoldable pub forget_nickname : Text → Option (Option Text) → Client → Client
forget_nickname peer none c = c
forget_nickname peer (some none) c = c
forget_nickname peer (some (some [])) c = c
forget_nickname peer (some (some (x ∷ nickname))) c = record c {
  chat_context = record c.chat_context {
    active_dms = remove (x ∷ nickname) c.chat_context.active_dms;
    current_mode = mode_without peer c.chat_context.current_mode;
  };
  pending_private_messages = remove peer c.pending_private_messages;
  encryption_service = remove_session peer c.encryption_service;
}

unfoldable pub drop_peer : Text → Client → Client
drop_peer peer c =
    forget_nickname peer (lookup peer c.peers) (record c { peers = remove peer c.peers })

unfoldable pub left_text : Text → Result Text → Client → Done
left_text peer (err raised) c = (err raised, [], c)
left_text peer (ok said) c =
    if starts_with (b'#' ∷ []) (strip said) then nothing c else nothing (drop_peer peer c)

-- `handle_leave`, of the sender and the payload of its packet: a channel that is left is only printed.
unfoldable pub handle_leave : Text → Bytes → Client → Done
handle_leave peer payload c = left_text peer (decode ignore payload) c
