-- ===== src/Client/Ownership.antt =====
-- The commands of bitchat.py that only the owner of a channel may use: /pass and /transfer.
use bitchat_node_daemon.Base.{
  ℕ, Bool, true, false, not, ◌||◌, Option, none, some, List, [], ◌∷◌, ◌++◌, ltb, if◌then◌else◌,
  length, Result, ok, err, ◌>>=◌,
}
use bitchat_node_daemon.Base.Bytes.{Bytes, Text, eq_text}
use bitchat_node_daemon.Base.Dict.{lookup, insert, member, add}
use bitchat_node_daemon.Base.Utf8.{encode}
use bitchat_node_daemon.Base.Hex.{hex}
use bitchat_node_daemon.Base.Texts.{codes, words, split_max, lstrip_at}
use bitchat_node_daemon.Protocol.Types.{message, truthy}
use bitchat_node_daemon.Protocol.Packet.{create_bitchat_packet}
use bitchat_node_daemon.Protocol.Message.{create_encrypted_channel_message_payload}
use bitchat_node_daemon.Encryption.Channel.{encrypt_with_key, derive_channel_key}
use bitchat_node_daemon.Client.{
  Client, Outside, Done, send_with_ttl, send_channel_announce, save_app_state, then_do,
}
use bitchat_node_daemon.Client.Chat.{ChatMode, public, channel, private_dm}
use bitchat_node_daemon.Client.Channels.{
  nothing, silently, find_nickname, commitment, remember_password,
}
pub mod Owner

module _ (w : Outside) where
  -- `owner and owner != self.my_peer_id`
  unfoldable pub is_other : Option Text → Text → Bool
  is_other none me = false
  is_other (some []) me = false
  is_other (some (x ∷ owner)) me = not (eq_text (x ∷ owner) me)

  unfoldable pub claim : Text → Client → Client
  claim name c =
      if truthy (lookup name c.channel_creators)
      then c
      else record c { channel_creators = insert name c.my_peer_id c.channel_creators }

  -- A message to the channel under a key, as the n-th message of the command.
  unfoldable pub channel_message : ℕ → Text → Text → Bytes → Client → Result Bytes
  unfolding encrypt_with_key
  channel_message n name content key c =
      create_encrypted_channel_message_payload (encrypt_with_key w.crypto (w.nonce n))
        w.moment.now_ms (w.uuid n) c.nickname content name key c.my_peer_id
      >>= λ (payload, id). create_bitchat_packet w.moment c.my_peer_id message payload

  notice : Text
  notice = codes "🔐 Password changed by channel owner. Please update your password."

  -- What is raised on the way is dropped.
  tried : Done → Done
  tried (r, out, c) = (ok tt, out, c)

  -- The members that hold the old key are told.
  unfoldable pub notify_members : Text → Option Bytes → Client → Done
  unfolding channel_message notice tried
  notify_members name none c = nothing c
  notify_members name (some []) c = nothing c
  notify_members name (some (x ∷ key)) c =
      tried (send_with_ttl w none (channel_message 2 name notice (x ∷ key) c) c)

  -- f"🔑 Password {...} | Channel {channel} password {...} by {self.nickname} | Metadata: {...}"
  unfoldable pub init_message : Text → Bool → Bytes → Client → Text
  init_message name had_key id_bytes c =
      codes "🔑 Password "
      ++ ((if had_key then codes "changed" else codes "set")
          ++ (codes " | Channel "
              ++ (name
                  ++ (codes " password "
                      ++ ((if had_key then codes "updated" else codes "protected")
                          ++ (codes " by "
                              ++ (c.nickname ++ (codes " | Metadata: " ++ hex id_bytes))))))))

  unfoldable pub send_init : Text → Bool → Bytes → Client → Done
  unfolding channel_message init_message
  send_init name had_key key c =
      send_with_ttl w none
        (encode c.my_peer_id >>= λ id_bytes.
          channel_message 3 name (init_message name had_key id_bytes c) key c)
        c

  -- The tables after a new password.
  unfoldable pub protect : Text → Text → Bytes → Client → Client
  protect name password key c =
      let c' : Client = record c {
        channel_keys = insert name key c.channel_keys;
        password_protected_channels = add name c.password_protected_channels;
      } in
      let c'' = remember_password w name password c' in
      record c'' {
        channel_key_commitments = insert name (commitment w key) c''.channel_key_commitments;
      }

  set_key : Text → Text → Option Bytes → Result Bytes → Client → Done
  set_key name password old_key (err raised) c = (err raised, [], c)
  set_key name password old_key (ok key) c =
      then_do (notify_members name old_key (protect name password key c)) (λ c1.
        then_do (send_channel_announce w name true (some (commitment w key)) c1) (λ c2.
          then_do (send_init name (truthy old_key) key c2) (λ c3. silently (save_app_state c3))))

  -- /pass with a password in an open channel; the name is claimed before the key is derived.
  unfoldable pub set_password : Text → Text → Client → Done
  unfolding set_key
  set_password name password c =
      let changed =
        set_key name password (lookup name c.channel_keys)
          (derive_channel_key w.pbkdf2 password name) (claim name c) in
      if ltb (length password) 4 || is_other (lookup name c.channel_creators) c.my_peer_id
      then nothing c
      else changed

  pass_parts : Text → List Text → Client → Done
  pass_parts name (command ∷ password ∷ more) c = set_password name password c
  pass_parts name _ c = nothing c

  pass_mode : Text → ChatMode → Client → Done
  unfolding pass_parts
  pass_mode line public c = nothing c
  pass_mode line (private_dm nickname peer_id) c = nothing c
  pass_mode line (channel name) c = pass_parts name (split_max 1 line) c

  -- `handle_pass_command`
  unfoldable pub handle_pass_command : Text → Client → Done
  unfolding pass_mode
  handle_pass_command line c = pass_mode line c.chat_context.current_mode c

  known_commitment : Option Bytes → Option Text
  known_commitment none = none
  known_commitment (some key) = some (commitment w key)

  give_to : Text → Option Text → Client → Done
  unfolding known_commitment
  give_to name none c = nothing c
  give_to name (some []) c = nothing c
  give_to name (some (x ∷ new_owner_id)) c =
      let c' : Client = record c {
        channel_creators = insert name (x ∷ new_owner_id) c.channel_creators;
      } in
      let is_protected = member name c.password_protected_channels in
      let key = if is_protected then lookup name c.channel_keys else none in
      then_do (silently (save_app_state c'))
        (send_channel_announce w name is_protected (known_commitment key))

  -- `owner_id != self.my_peer_id`, turned round
  unfoldable pub is_mine : Option Text → Text → Bool
  is_mine none me = false
  is_mine (some owner) me = eq_text owner me

  -- /transfer to a nickname in an open channel
  unfoldable pub transfer : Text → Text → Client → Done
  unfolding give_to known_commitment
  transfer name target c =
      let given = give_to name (find_nickname (lstrip_at target) c.peers) c in
      if is_mine (lookup name c.channel_creators) c.my_peer_id then given else nothing c

  transfer_parts : Text → List Text → Client → Done
  transfer_parts name (command ∷ target ∷ []) c = transfer name target c
  transfer_parts name _ c = nothing c

  transfer_mode : Text → ChatMode → Client → Done
  unfolding transfer_parts
  transfer_mode line public c = nothing c
  transfer_mode line (private_dm nickname peer_id) c = nothing c
  transfer_mode line (channel name) c = transfer_parts name (words line) c

  -- `handle_transfer_command`
  unfoldable pub handle_transfer_command : Text → Client → Done
  unfolding transfer_mode
  handle_transfer_command line c = transfer_mode line c.chat_context.current_mode c
