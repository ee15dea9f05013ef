-- ===== src/Client/People.antt =====
-- The commands of bitchat.py about people: /name, /block and /unblock.
use bitchat_node_daemon.Base.{
  Bool, not, ◌&&◌, Option, none, some, List, [], ◌∷◌, ltb, leb, if◌then◌else◌, length, drop, ◌>>=◌,
}
use bitchat_node_daemon.Base.Bytes.{Text}
use bitchat_node_daemon.Base.Dict.{member, add, discard}
use bitchat_node_daemon.Base.Utf8.{encode}
use bitchat_node_daemon.Base.Texts.{codes, words, strip, lstrip_at}
use bitchat_node_daemon.Protocol.Types.{announce}
use bitchat_node_daemon.Protocol.Packet.{create_bitchat_packet}
use bitchat_node_daemon.Encryption.Service.{EncryptionService, get_peer_fingerprint}
use bitchat_node_daemon.Client.{Client, Outside, Done, send_with_ttl, save_app_state, then_do}
use bitchat_node_daemon.Client.Channels.{nothing, silently, find_nickname, name_chars}
pub mod Blocking
pub mod Names

module _ (w : Outside) where
  -- The four checks of a nickname.
  unfoldable pub is_nickname : Text → Bool
  unfolding name_chars
  is_nickname name =
      ltb 0 (length name)
      && leb (length name) 20
      && name_chars w name
      && not (member name (codes "system" ∷ codes "all" ∷ []))

  unfoldable pub set_name : Text → Client → Done
  set_name name c =
      let c' : Client = record c { nickname = name } in
      let packet =
        encode name >>= λ payload. create_bitchat_packet w.moment c.my_peer_id announce payload in
      let renamed =
        then_do (send_with_ttl w none packet c') (λ c''. silently (save_app_state c'')) in
      if is_nickname name then renamed else nothing c

  -- The branch of `handle_user_input` for lines that begin with "/name ".
  unfoldable pub handle_name : Text → Client → Done
  handle_name line c = set_name (strip (drop 6 line)) c

  -- The fingerprint of the first peer with a nickname, where the peer has a session.
  fingerprint_of : Option Text → EncryptionService → Option Text
  fingerprint_of none v = none
  fingerprint_of (some []) v = none
  fingerprint_of (some (x ∷ peer_id)) v = get_peer_fingerprint w.crypto (x ∷ peer_id) v

  unfoldable pub fingerprint_named : Text → Client → Option Text
  unfolding fingerprint_of
  fingerprint_named target c =
      fingerprint_of (find_nickname (lstrip_at target) c.peers) c.encryption_service

  block_fingerprint : Option Text → Client → Done
  block_fingerprint none c = nothing c
  block_fingerprint (some []) c = nothing c
  block_fingerprint (some (x ∷ fp)) c =
      let blocked =
        silently (save_app_state (record c { blocked_peers = add (x ∷ fp) c.blocked_peers })) in
      if member (x ∷ fp) c.blocked_peers then nothing c else blocked

  unblock_fingerprint : Option Text → Client → Done
  unblock_fingerprint none c = nothing c
  unblock_fingerprint (some []) c = nothing c
  unblock_fingerprint (some (x ∷ fp)) c =
      let unblocked =
        silently (save_app_state (record c { blocked_peers = discard (x ∷ fp) c.blocked_peers })) in
      if member (x ∷ fp) c.blocked_peers then unblocked else nothing c

  unfoldable pub block : Text → Client → Done
  unfolding block_fingerprint
  block target c = block_fingerprint (fingerprint_named target c) c

  unfoldable pub unblock : Text → Client → Done
  unfolding unblock_fingerprint
  unblock target c = unblock_fingerprint (fingerprint_named target c) c

  block_parts : List Text → Client → Done
  block_parts (command ∷ target ∷ []) c = block target c
  block_parts _ c = nothing c

  unblock_parts : List Text → Client → Done
  unblock_parts (command ∷ target ∷ []) c = unblock target c
  unblock_parts _ c = nothing c

  -- `handle_block_command`, which without a name prints the blocked peers.
  unfoldable pub handle_block_command : Text → Client → Done
  unfolding block_parts
  handle_block_command line c = block_parts (words line) c

  -- `handle_unblock_command`
  unfoldable pub handle_unblock_command : Text → Client → Done
  unfolding unblock_parts
  handle_unblock_command line c = unblock_parts (words line) c
