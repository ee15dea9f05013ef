-- ===== src/Client/Ownership/Owner.antt =====
-- What the owner of a channel and the other clients of bitchat.py have after a new password.
use bitchat_node_daemon.Base.{
  ℕ, ◌≤◌, ◌≡◌, refl, ap, ap₂, ◌∙◌, Bool, true, false, ◌&&◌, ◌||◌, Option, none, some, List, [], ◌∷◌,
  arith, ltb, leb, if◌then◌else◌, length, ok,
}
use bitchat_node_daemon.Base.Bytes.{Bytes, Text, eq_text, eq_text_refl}
use bitchat_node_daemon.Base.Dict.{lookup, lookup-insert}
use bitchat_node_daemon.Base.Texts.{words, split_max}
use bitchat_node_daemon.Protocol.Types.{truthy}
use bitchat_node_daemon.Encryption.Channel.{derive_channel_key}
use bitchat_node_daemon.Client.{Client, Outside, save_app_state, send_channel_announce}
use bitchat_node_daemon.Client.Chat.{channel}
use bitchat_node_daemon.Client.Sending.{
  after, Held, held, send_channel_announce-held, send_with_ttl-held, then_do-keeps,
}
use bitchat_node_daemon.Client.Channels.{
  nothing, silently, commitment, remember_password, fits, is_committed, join_locked,
}
use bitchat_node_daemon.Client.Channels.Password.{join_locked_key}
use bitchat_node_daemon.Client.Ownership.{
  is_other, is_mine, claim, tried, notify_members, send_init, protect, set_key, set_password,
  pass_parts, pass_mode, handle_pass_command, transfer, transfer_parts, transfer_mode,
  handle_transfer_command,
}

-- The key and the commitment that a client has of a channel.
abbrev pub secrets_of : Text → Held → Option Bytes × Option Text
secrets_of name h = (lookup name h.channel_keys, lookup name h.channel_key_commitments)

abbrev pub secrets : Text → Client → Option Bytes × Option Text
secrets name c = secrets_of name (held c)

module _ (w : Outside) where
  notify_members-secrets :
      (name : Text) (old : Option Bytes) (c : Client)
      → secrets name (after (notify_members w name old c)) ≡ secrets name c
  unfolding notify_members tried
  notify_members-secrets name none c = refl
  notify_members-secrets name (some []) c = refl
  notify_members-secrets name (some (x ∷ key)) c =
      ap (secrets_of name) (send_with_ttl-held w none _ c)

  protect-secrets :
      (name password : Text) (key : Bytes) (c : Client)
      → secrets name (protect w name password key c) ≡ (some key, some (commitment w key))
  unfolding protect remember_password
  protect-secrets name password key c =
      ap₂ (λ a b. (a, b)) (lookup-insert name name key c.channel_keys ∙ rw (eq_text_refl name) refl)
        (lookup-insert name name (commitment w key) c.channel_key_commitments
          ∙ rw (eq_text_refl name) refl)

  send_init-secrets :
      (name : Text) (had_key : Bool) (key : Bytes) (c : Client)
      → secrets name (after (send_init w name had_key key c)) ≡ secrets name c
  unfolding send_init
  send_init-secrets name had_key key c = ap (secrets_of name) (send_with_ttl-held w none _ c)

  saved-secrets :
      (name : Text) (c : Client)
      → secrets name (after (silently (save_app_state c))) ≡ secrets name c
  unfolding save_app_state
  saved-secrets name c = refl

  set_key-secrets :
      (name password : Text) (old : Option Bytes) (key : Bytes) (c : Client)
      → secrets name (after (set_key w name password old (ok key) c))
        ≡ (some key, some (commitment w key))
  unfolding set_key
  set_key-secrets name password old key c =
      let f : Client → Option Bytes × Option Text = secrets name in
      then_do-keeps f (notify_members w name old (protect w name password key c)) _ (λ c1.
        then_do-keeps f (send_channel_announce w name true (some (commitment w key)) c1) _ (λ c2.
          then_do-keeps f (send_init w name (truthy old) key c2) _ (saved-secrets name)
          ∙ send_init-secrets name (truthy old) key c2)
        ∙ ap (secrets_of name)
            (send_channel_announce-held w name true (some (commitment w key)) c1))
      ∙ notify_members-secrets name old (protect w name password key c)
      ∙ protect-secrets name password key c

  pub set_password-secrets :
      (name password : Text) (key : Bytes) (c : Client)
      → derive_channel_key w.pbkdf2 password name ≡ ok key
      → 4 ≤ length password
      → is_other w (lookup name c.channel_creators) c.my_peer_id ≡ false
      → secrets name (after (set_password w name password c)) ≡ (some key, some (commitment w key))
  unfolding set_password
  set_password-secrets name password key c d long mine =
      let e : (ltb (length password) 4) ≡ false = ground arith in
      rw (e, mine, d)
        (set_key-secrets name password (lookup name c.channel_keys) key (claim w name c))

  -- After the owner of a channel has set a password, a client that knows the owner's commitment, and
  -- has no key yet, gets a key by a password of at least four characters exactly if that password's key has
  -- this commitment; by the same password it gets the key that the owner holds.
  pub set_password_join :
      (name password other : Text) (key key' : Bytes) (owner joiner : Client)
      → derive_channel_key w.pbkdf2 password name ≡ ok key
      → derive_channel_key w.pbkdf2 other name ≡ ok key'
      → 4 ≤ length password
      → is_other w (lookup name owner.channel_creators) owner.my_peer_id ≡ false
      → lookup name joiner.channel_keys ≡ none
      → lookup name joiner.channel_key_commitments
        ≡ lookup name (after (set_password w name password owner)).channel_key_commitments
      → (lookup name (after (set_password w name password owner)).channel_keys ≡ some key)
        × (lookup name (after (join_locked w name other joiner)).channel_keys ≡ (
            if leb 4 (length other) && eq_text (commitment w key') (commitment w key)
            then some key'
            else none))
        × (lookup name (after (join_locked w name password joiner)).channel_keys ≡ some key)
  set_password_join name password other key key' owner joiner d d' long mine none_yet known =
      let both = set_password-secrets name password key owner d long mine in
      let told : lookup name joiner.channel_key_commitments ≡ some (commitment w key) =
        known ∙ ap (λ s. s.1) both in
      let agrees : is_committed w name key joiner ≡ true =
        unfold is_committed in
        unfold fits in ap (fits w (commitment w key)) told ∙ eq_text_refl (commitment w key) in
      let agrees' : is_committed w name key' joiner
          ≡ eq_text (commitment w key') (commitment w key) =
        unfold is_committed in unfold fits in ap (fits w (commitment w key')) told in
      let e : leb 4 (length password) ≡ true = ground arith in
      (
        ap (λ s. s.0) both,
        join_locked_key w name other key' joiner d' none_yet ∙ rw agrees' refl,
        join_locked_key w name password key joiner d none_yet ∙ rw (agrees, e) refl,
      )

  refused :
      (name owner password : Text) (x : ℕ) (c : Client)
      → lookup name c.channel_creators ≡ some (x ∷ owner)
      → eq_text (x ∷ owner) c.my_peer_id ≡ false
      → set_password w name password c ≡ nothing c
  unfolding set_password is_other
  refused name owner password x c e ne =
      let other : is_other w (lookup name c.channel_creators) c.my_peer_id ≡ true =
        rw (e, ne) refl in
      let no : (ltb (length password) 4 || is_other w (lookup name c.channel_creators) c.my_peer_id)
          ≡ true =
        ground arith in
      rw no refl

  not_given :
      (name owner target : Text) (x : ℕ) (c : Client)
      → lookup name c.channel_creators ≡ some (x ∷ owner)
      → eq_text (x ∷ owner) c.my_peer_id ≡ false
      → transfer w name target c ≡ nothing c
  unfolding transfer
  not_given name owner target x c e ne =
      let no : is_mine w (lookup name c.channel_creators) c.my_peer_id ≡ false =
        ap (λ o. is_mine w o c.my_peer_id) e ∙ (unfold is_mine in ne) in
      rw no refl

  pass_parts-refused :
      (name : Text) (parts : List Text) (c : Client)
      → ((password : Text) → set_password w name password c ≡ nothing c)
      → pass_parts w name parts c ≡ nothing c
  unfolding pass_parts
  pass_parts-refused name [] c h = refl
  pass_parts-refused name (a ∷ []) c h = refl
  pass_parts-refused name (a ∷ b ∷ more) c h = h b

  transfer_parts-refused :
      (name : Text) (parts : List Text) (c : Client)
      → ((target : Text) → transfer w name target c ≡ nothing c)
      → transfer_parts w name parts c ≡ nothing c
  unfolding transfer_parts
  transfer_parts-refused name [] c h = refl
  transfer_parts-refused name (a ∷ []) c h = refl
  transfer_parts-refused name (a ∷ b ∷ []) c h = h b
  transfer_parts-refused name (a ∷ b ∷ d ∷ more) c h = refl

  -- In a channel that another peer id owns, whatever is typed behind /pass and /transfer sends nothing
  -- and changes nothing. A client draws a new peer id at each start, so that this holds also of the
  -- channels that it owned in an earlier run.
  pub only_owner :
      (name owner line : Text) (x : ℕ) (c : Client)
      → c.chat_context.current_mode ≡ channel name
      → lookup name c.channel_creators ≡ some (x ∷ owner)
      → eq_text (x ∷ owner) c.my_peer_id ≡ false
      → (handle_pass_command w line c ≡ nothing c) × (handle_transfer_command w line c ≡ nothing c)
  unfolding handle_pass_command handle_transfer_command pass_mode transfer_mode
  only_owner name owner line x c mode e ne = (
    ap (λ m. pass_mode w line m c) mode
        ∙ pass_parts-refused name (split_max 1 line) c (λ p. refused name owner p x c e ne),
    ap (λ m. transfer_mode w line m c) mode
        ∙ transfer_parts-refused name (words line) c (λ t. not_given name owner t x c e ne),
  )
