-- ===== src/Client/Channels.antt =====
-- The commands of bitchat.py about channels: /j, /leave, /pass and /transfer.
use bitchat_node_daemon.Base.{
  ℕ, suc, Bool, true, false, ◌&&◌, ◌||◌, Option, none, some, List, [], ◌∷◌, ◌++◌, ltb, leb, ◌==◌,
  if◌then◌else◌, length, Result, ok, err, ◌>>=◌, value_error,
}
use bitchat_node_daemon.Base.Bytes.{Bytes, Text, eq_text}
use bitchat_node_daemon.Base.Dict.{Dict, lookup, has_key, insert, remove, member, add, discard}
use bitchat_node_daemon.Base.Utf8.{encode}
use bitchat_node_daemon.Base.Hex.{hex}
use bitchat_node_daemon.Base.Texts.{words}
use bitchat_node_daemon.Protocol.Types.{leave}
use bitchat_node_daemon.Protocol.Packet.{create_bitchat_packet}
use bitchat_node_daemon.Encryption.Channel.{derive_channel_key}
use bitchat_node_daemon.Persistence.{AppState, EncryptedPassword, encrypt_password}
use bitchat_node_daemon.Client.{
  Client, Output, Outside, Done, send_with_ttl, send_channel_announce, save_app_state, then_do,
}
use bitchat_node_daemon.Client.Chat.{
  ChatMode, public, channel, private_dm, switch_to_channel, switch_to_public, remove_channel,
}
pub mod Password
pub mod Leaving

-- A command that only prints.
abbrev pub nothing : Client → Done
nothing c = (ok tt, [], c)

abbrev pub silently : List Output × Client → Done
silently (out, c) = (ok tt, out, c)

-- The first peer with a nickname; the loops of /dm, /block, /unblock and /transfer.
unfoldable pub find_nickname : Text → Dict (Option Text) → Option Text
find_nickname nickname [] = none
find_nickname nickname ((peer_id, none) ∷ peers) = find_nickname nickname peers
find_nickname nickname ((peer_id, some name) ∷ peers) =
    if eq_text name nickname then some peer_id else find_nickname nickname peers

module _ (w : Outside) where
  unfoldable pub commitment : Bytes → Text
  commitment key = hex (w.crypto.sha256 key)

  unfoldable pub name_chars : Text → Bool
  name_chars [] = true
  name_chars (x ∷ xs) = (w.is_alnum x || x == b'-' || x == b'_') && name_chars xs

  -- The three checks of the name of a channel.
  unfoldable pub is_channel_name : Text → Bool
  unfolding name_chars
  is_channel_name [] = false
  is_channel_name (x ∷ name) = x == b'#' && leb (suc (length name)) 25 && name_chars name

  -- A password is kept where the state has an identity key and the encryption does not raise.
  keep_encrypted : Text → Result EncryptedPassword → AppState → AppState
  keep_encrypted name (err raised) state = state
  keep_encrypted name (ok encrypted) state = record state {
    encrypted_channel_passwords = insert name encrypted state.encrypted_channel_passwords;
  }

  encrypted_for : Text → Option (List ℕ) → Result EncryptedPassword
  encrypted_for password none = err value_error
  encrypted_for password (some []) = err value_error
  encrypted_for password (some (x ∷ key)) = encrypt_password w.vault (w.nonce 0) password (x ∷ key)

  unfoldable pub remember_password : Text → Text → Client → Client
  unfolding keep_encrypted encrypted_for
  remember_password name password c = record c {
    app_state = keep_encrypted name (encrypted_for password c.app_state.identity_key) c.app_state;
  }

  abbrev is_kept : Result EncryptedPassword → Bool
  is_kept (err raised) = false
  is_kept (ok encrypted) = true

  -- Where a password was kept the state is saved.
  unfoldable pub store_password : Text → Text → Client → List Output × Client
  unfolding encrypted_for
  store_password name password c =
      let saved = save_app_state (remember_password name password c) in
      if is_kept (encrypted_for password c.app_state.identity_key) then saved else ([], c)

  -- The creator of a channel is known: the channel is announced as protected.
  unfoldable pub announce_known : Text → Bytes → Client → Done
  announce_known name key c =
      let sent = send_channel_announce w name true (some (commitment key)) c in
      if has_key name c.channel_creators then sent else nothing c

  unfoldable pub with_key : Text → Bytes → Client → Client
  with_key name key c = record c {
    channel_keys = insert name key c.channel_keys;
    discovered_channels = add name c.discovered_channels;
  }

  unfoldable pub open_channel : Text → Client → Client
  unfolding switch_to_channel
  open_channel name c = record c { chat_context = switch_to_channel name c.chat_context }

  -- `if channel_name in self.channel_key_commitments`: the commitment is the one that is known.
  unfoldable pub fits : Text → Option Text → Bool
  fits made none = true
  fits made (some known) = eq_text made known

  unfoldable pub is_committed : Text → Bytes → Client → Bool
  unfolding fits
  is_committed name key c = fits (commitment key) (lookup name c.channel_key_commitments)

  enter_protected : Text → Text → Result Bytes → Client → Done
  enter_protected name password (err raised) c = (err raised, [], c)
  enter_protected name password (ok key) c =
      let (out, c') = store_password name password (with_key name key c) in
      let (r, out', c'') = announce_known name key (open_channel name c') in
      if is_committed name key c then (r, out ++ out', c'') else nothing c

  -- A channel that is known to have a password, of which no key is known.
  unfoldable pub join_locked : Text → Text → Client → Done
  unfolding enter_protected
  join_locked name password c =
      let entered = enter_protected name password (derive_channel_key w.pbkdf2 password name) c in
      if ltb (length password) 4 then nothing c else entered

  enter_open : Text → Result Bytes → Client → Done
  enter_open name (err raised) c = (err raised, [], c)
  enter_open name (ok key) c = announce_known name key (open_channel name (with_key name key c))

  -- A channel that is not known to have a password.
  unfoldable pub join_open : Text → Text → Client → Done
  unfolding enter_open
  join_open name [] c = nothing (
      open_channel name (record c {
        discovered_channels = add name c.discovered_channels;
        channel_keys = remove name c.channel_keys;
      }))
  join_open name (x ∷ password) c =
      enter_open name (derive_channel_key w.pbkdf2 (x ∷ password) name) c

  -- `handle_join_channel` for a name that passed the checks; no password is an empty one.
  unfoldable pub join_channel : Text → Text → Client → Done
  join_channel name password c =
      let known =
        nothing
          (open_channel name (record c { discovered_channels = add name c.discovered_channels })) in
      let locked = join_locked name password c in
      let opened = join_open name password c in
      if member name c.password_protected_channels
      then (if has_key name c.channel_keys then known else locked)
      else opened

  join_parts : List Text → Client → Done
  join_parts (command ∷ name ∷ []) c =
      let joined = join_channel name [] c in if is_channel_name name then joined else nothing c
  join_parts (command ∷ name ∷ password ∷ more) c =
      let joined = join_channel name password c in
      if is_channel_name name then joined else nothing c
  join_parts _ c = nothing c

  -- `handle_join_channel`
  unfoldable pub handle_join_channel : Text → Client → Done
  unfolding words join_parts
  handle_join_channel line c = join_parts (words line) c

  -- What /leave forgets of a channel.
  unfoldable pub forget_channel : Text → Client → Client
  unfolding remove_channel switch_to_public
  forget_channel name c = record c {
    channel_keys = remove name c.channel_keys;
    password_protected_channels = discard name c.password_protected_channels;
    channel_creators = remove name c.channel_creators;
    channel_key_commitments = remove name c.channel_key_commitments;
    app_state = record c.app_state {
      encrypted_channel_passwords = remove name c.app_state.encrypted_channel_passwords;
    };
    chat_context = switch_to_public (remove_channel name c.chat_context);
  }

  leave_mode : ChatMode → Client → Done
  leave_mode public c = nothing c
  leave_mode (private_dm nickname peer_id) c = nothing c
  leave_mode (channel name) c =
      then_do
        (send_with_ttl w (some 3)
          (encode name >>= λ payload. create_bitchat_packet w.moment c.my_peer_id leave payload) c)
        (λ c'. silently (save_app_state (forget_channel name c')))

  -- `handle_leave_command`
  unfoldable pub handle_leave_command : Client → Done
  unfolding leave_mode
  handle_leave_command c = leave_mode c.chat_context.current_mode c
