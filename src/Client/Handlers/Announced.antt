-- ===== src/Client/Handlers/Announced.antt =====
-- A channel announcement from the owner of a channel, heard by a client that then joins it.
use bitchat_node_daemon.Base.{
  ℕ, ◌≤◌, ◌<◌, ◌≡◌, refl, sym, ap, ◌∙◌, subst, true, false, ◌&&◌, none, some, [], ◌∷◌, arith, leb,
  if◌then◌else◌, length, All, ok,
}
use bitchat_node_daemon.Base.Bytes.{Bytes, Text, IsByte, eq_text, eq_text_refl}
use bitchat_node_daemon.Base.Hex.{hex, hex-Lacks}
use bitchat_node_daemon.Base.Dict.{lookup, lookup-insert, member, member-add}
use bitchat_node_daemon.Base.Utf8.{encode, ignore, decode-encode}
use bitchat_node_daemon.Mesh.Peers.{ChannelNews}
use bitchat_node_daemon.Mesh.Announce.Channel.{Plain, read-news_text}
use bitchat_node_daemon.Encryption.Channel.{derive_channel_key}
use bitchat_node_daemon.Client.{Client, Outside, announcement, save_app_state}
use bitchat_node_daemon.Client.Sending.{after}
use bitchat_node_daemon.Client.Channels.{silently, commitment, join_locked, join_channel}
use bitchat_node_daemon.Client.Ownership.{is_other, set_password}
use bitchat_node_daemon.Client.Ownership.Owner.{set_password-secrets, set_password_join}
use bitchat_node_daemon.Client.Handlers.{
  note_news, handle_channel_announce, heard_text, heard_news, mark_channel, put_unless_empty,
}

-- What an announcement says.
abbrev news : Text → Text → Text → ChannelNews
news name owner said = record {
  channel = name;
  is_protected = true;
  creator_id = owner;
  key_commitment = said;
}

-- A client with a commitment and a protected channel, and the keys of the one before.
abbrev HasNoted : Text → Text → Client → Client → Type 0
HasNoted name said c c' =
    (lookup name c'.channel_key_commitments ≡ some said)
    × (c'.channel_keys ≡ c.channel_keys)
    × (member name c'.password_protected_channels ≡ true)

noted :
    (name owner said : Text) (x : ℕ) (c : Client)
    → HasNoted name
        (x ∷ said)
        c
        (after (silently (save_app_state (note_news (news name owner (x ∷ said)) c))))
unfolding note_news mark_channel save_app_state put_unless_empty
noted name owner said x c = (
  lookup-insert name name (x ∷ said) c.channel_key_commitments ∙ rw (eq_text_refl name) refl,
  refl,
  member-add name name c.password_protected_channels ∙ rw (eq_text_refl name) (ground arith),
)

noted_hex :
    (name owner : Text) (hash : Bytes) (c : Client)
    → 0 < length hash
    → HasNoted name
        (hex hash)
        c
        (after (silently (save_app_state (note_news (news name owner (hex hash)) c))))
noted_hex name owner [] c h = absurd (omega arith)
noted_hex name owner (b ∷ hash) c h = unfold hex in noted name owner _ _ c

module _ (w : Outside) where
  heard :
      (name owner said : Text) (payload : Bytes) (c : Client)
      → encode (announcement w name true (some said) owner) ≡ ok payload
      → Plain name
      → Plain owner
      → Plain said
      → handle_channel_announce payload c
        ≡ silently (save_app_state (note_news (news name owner said) c))
  unfolding handle_channel_announce announcement heard_news
  heard name owner said payload c sent h h' h'' =
      ap (λ r. heard_text r c)
        (decode-encode ignore (announcement w name true (some said) owner) payload sent)
      ∙ (unfold heard_text in
          ap (λ r. heard_news r c) (read-news_text name true owner said h h' h''))

  -- The tables of a client that heard the announcement with a commitment.
  told_tables :
      (name owner : Text) (key payload : Bytes) (c : Client)
      → encode (announcement w name true (some (commitment w key)) owner) ≡ ok payload
      → All IsByte (w.crypto.sha256 key)
      → 0 < length (w.crypto.sha256 key)
      → Plain name
      → Plain owner
      → HasNoted name (commitment w key) c (after (handle_channel_announce payload c))
  unfolding commitment
  told_tables name owner key payload c sent bytes some_byte h h' =
      let said = hex (w.crypto.sha256 key) in
      subst (λ d. HasNoted name said c (after d))
        (sym (heard name owner said payload c sent h h' (hex-Lacks (w.crypto.sha256 key) bytes)))
        (noted_hex name owner (w.crypto.sha256 key) c some_byte)

  -- In a channel that is known to be protected, without a key, a join is a join with a password.
  join_channel-locked :
      (name password : Text) (c : Client)
      → member name c.password_protected_channels ≡ true
      → lookup name c.channel_keys ≡ none
      → join_channel w name password c ≡ join_locked w name password c
  unfolding join_channel
  join_channel-locked name password c e none_yet = rw (e, none_yet) refl

  -- The owner of a channel sets a password, and a client without a key of the channel hears the announcement with
  -- the commitment that the owner then has. The client gets a key by a password of at least four characters exactly
  -- if that password's key has this commitment, and by the owner's password it gets the key that the
  -- owner has. The name and the owner's id have no bar, and a hash is some bytes.
  pub announced_join :
      (name password other : Text) (key key' payload : Bytes) (owner joiner : Client)
      → derive_channel_key w.pbkdf2 password name ≡ ok key
      → derive_channel_key w.pbkdf2 other name ≡ ok key'
      → 4 ≤ length password
      → is_other w (lookup name owner.channel_creators) owner.my_peer_id ≡ false
      → lookup name joiner.channel_keys ≡ none
      → encode (
          announcement w name true
            (lookup name (after (set_password w name password owner)).channel_key_commitments)
            owner.my_peer_id)
        ≡ ok payload
      → All IsByte (w.crypto.sha256 key)
      → 0 < length (w.crypto.sha256 key)
      → Plain name
      → Plain owner.my_peer_id
      → let told = after (handle_channel_announce payload joiner) in
        (lookup name (after (join_channel w name other told)).channel_keys ≡ (
          if leb 4 (length other) && eq_text (commitment w key') (commitment w key)
          then some key'
          else none))
        × (lookup name (after (join_channel w name password told)).channel_keys
            ≡ lookup name (after (set_password w name password owner)).channel_keys)
  announced_join name password other key key' payload owner joiner d d' long mine none_yet sent
        bytes some_byte h h' =
      let both = set_password-secrets w name password key owner d long mine in
      let held : lookup name (after (set_password w name password owner)).channel_key_commitments
          ≡ some (commitment w key) =
        ap (λ s. s.1) both in
      let (known, keys, locked) =
        told_tables name owner.my_peer_id key payload joiner
          (ap (λ o. encode (announcement w name true o owner.my_peer_id)) (sym held) ∙ sent) bytes
          some_byte h h' in
      let told = after (handle_channel_announce payload joiner) in
      let keyless : lookup name told.channel_keys ≡ none = ap (lookup name) keys ∙ none_yet in
      let (kept, by_other, by_same) =
        set_password_join w name password other key key' owner told d d' long mine keyless
          (known ∙ sym held) in
      let with_keys : (p : Text)
          → (after (join_channel w name p told)).channel_keys
            ≡ (after (join_locked w name p told)).channel_keys =
        λ p.
          ap (λ done. (after done).channel_keys) (join_channel-locked name p told locked keyless) in
      (
        ap (lookup name) (with_keys other) ∙ by_other,
        ap (lookup name) (with_keys password) ∙ by_same ∙ sym kept,
      )
