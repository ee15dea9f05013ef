-- ===== src/Client/Channels/Password.antt =====
-- Joining a channel of bitchat.py with a password.
use bitchat_node_daemon.Base.{
  ◌≡◌, refl, ap, ◌∙◌, inl, inr, true, false, ◌&&◌, none, some, List, [], arith, ltb, leb,
  if◌then◌else◌, if_both, Bool-cases, length, ok,
}
use bitchat_node_daemon.Base.Bytes.{Bytes, Text, eq_text_refl}
use bitchat_node_daemon.Base.Dict.{lookup, has_key, insert, lookup-insert}
use bitchat_node_daemon.Encryption.Channel.{derive_channel_key}
use bitchat_node_daemon.Client.{Client, Output, Outside, save_app_state}
use bitchat_node_daemon.Client.Sending.{after, send_channel_announce-held}
use bitchat_node_daemon.Client.Channels.{
  nothing, commitment, encrypted_for, is_kept, remember_password, store_password, announce_known,
  with_key, open_channel, is_committed, enter_protected, join_locked,
}

module _ (w : Outside) where
  announce_known-keys :
      (name : Text) (key : Bytes) (c : Client)
      → (after (announce_known w name key c)).channel_keys ≡ c.channel_keys
  unfolding announce_known
  announce_known-keys name key c =
      if_both (has_key name c.channel_creators) (λ d. (after d).channel_keys) _ (nothing c)
        (ap (λ h. h.channel_keys)
          (send_channel_announce-held w name true (some (commitment w key)) c))
        refl

  store_password-keys :
      (name password : Text) (c : Client)
      → (store_password w name password c).1.channel_keys ≡ c.channel_keys
  unfolding store_password save_app_state remember_password
  store_password-keys name password c =
      if_both (is_kept w (encrypted_for w password c.app_state.identity_key))
        (λ (d : List Output × Client). d.1.channel_keys) _ ([], c) refl refl

  opened-keys : (name : Text) (c : Client) → (open_channel w name c).channel_keys ≡ c.channel_keys
  unfolding open_channel
  opened-keys name c = refl

  with_key-keys :
      (name : Text) (key : Bytes) (c : Client)
      → (with_key w name key c).channel_keys ≡ insert name key c.channel_keys
  unfolding with_key
  with_key-keys name key c = refl

  -- What a client holds after the password for a channel was given, in each of the two cases.
  entered :
      (name password : Text) (key : Bytes) (c : Client)
      → lookup name (after (enter_protected w name password (ok key) c)).channel_keys
        ≡ (if is_committed w name key c then some key else lookup name c.channel_keys)
  unfolding enter_protected
  entered name password key c =
      let stored = (store_password w name password (with_key w name key c)).1 in
      let kept : (after (announce_known w name key (open_channel w name stored))).channel_keys
          ≡ insert name key c.channel_keys =
        announce_known-keys name key (open_channel w name stored)
        ∙ opened-keys name stored
        ∙ store_password-keys name password (with_key w name key c)
        ∙ with_key-keys name key c in
      elim (Bool-cases (is_committed w name key c)) [
        | inr e ↦ rw e refl
        | inl e ↦
            rw (e, kept) (lookup-insert name name key c.channel_keys ∙ rw (eq_text_refl name) refl)
      ]

  -- Of a protected channel without a key, a password of at least four characters gives the key that is derived
  -- from it and the name, if the key fits the commitment that is known of the channel or none is known;
  -- any other password leaves the client without a key.
  pub join_locked_key :
      (name password : Text) (key : Bytes) (c : Client)
      → derive_channel_key w.pbkdf2 password name ≡ ok key
      → lookup name c.channel_keys ≡ none
      → lookup name (after (join_locked w name password c)).channel_keys
        ≡ (if leb 4 (length password) && is_committed w name key c then some key else none)
  unfolding join_locked
  join_locked_key name password key c d none_yet = elim (Bool-cases (ltb (length password) 4)) [
    | inl short ↦ let e : leb 4 (length password) ≡ false = ground arith in rw (short, e) none_yet
    | inr long ↦
        let e : leb 4 (length password) ≡ true = ground arith in
        rw (long, e, d) (entered name password key c ∙ rw none_yet refl)
  ]
