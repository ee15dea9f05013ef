-- ===== src/Client/Channels/Leaving.antt =====
-- What a client of bitchat.py has of a channel after /leave.
use bitchat_node_daemon.Base.{
  List, ◌≡◌, refl, sym, ap, ◌∙◌, subst, false, none, some, ok, err, ◌>>=◌,
}
use bitchat_node_daemon.Base.Bytes.{Text, eq_text_refl}
use bitchat_node_daemon.Base.Dict.{
  Dict, lookup, remove, lookup-remove, member, member-discard, Distinct,
}
use bitchat_node_daemon.Base.Utf8.{encode}
use bitchat_node_daemon.Protocol.Types.{leave}
use bitchat_node_daemon.Protocol.Packet.{create_bitchat_packet}
use bitchat_node_daemon.Client.{
  Client, Outside, Done, save_app_state, updated_state, send_with_ttl, then_do,
}
use bitchat_node_daemon.Client.Chat.{public, channel, switch_to_public, remove_channel}
use bitchat_node_daemon.Client.Chat.Listed.{remove_first-gone}
use bitchat_node_daemon.Client.Sending.{after, send_with_ttl-held}
use bitchat_node_daemon.Client.Channels.{silently, forget_channel, leave_mode, handle_leave_command}

-- A channel that a client has left; that it was discovered is remembered.
pub record HasForgotten (name : Text) (discovered : List Text) (c : Client) : Type 0 where
  pub in_public : c.chat_context.current_mode ≡ public
  pub not_listed : member name c.chat_context.active_channels ≡ false
  pub no_key : lookup name c.channel_keys ≡ none
  pub not_protected : member name c.password_protected_channels ≡ false
  pub no_creator : lookup name c.channel_creators ≡ none
  pub no_commitment : lookup name c.channel_key_commitments ≡ none
  pub no_password : lookup name c.app_state.encrypted_channel_passwords ≡ none
  pub still_discovered : c.discovered_channels ≡ discovered

missing {ℓ} : {V : Type ℓ} (name : Text) (d : Dict V) → lookup name (remove name d) ≡ none
missing name d = rw (lookup-remove name name d, eq_text_refl name) refl

then_do-ok :
    (d : Done) (next : Client → Done)
    → (then_do d next).0 ≡ ok tt
    → after (then_do d next) ≡ after (next (after d))
then_do-ok (err raised, out, c) next e = cc
then_do-ok (ok done, out, c) next e = refl

module _ (w : Outside) where
  forgotten :
      (name : Text) (c : Client)
      → Distinct c.chat_context.active_channels
      → HasForgotten name c.discovered_channels
          (after (silently (save_app_state (forget_channel w name c))))
  unfolding save_app_state updated_state forget_channel switch_to_public remove_channel
  forgotten name c d = record {
    in_public = refl;
    not_listed = remove_first-gone name c.chat_context.active_channels d;
    no_key = missing name c.channel_keys;
    not_protected =
        member-discard name name c.password_protected_channels ∙ rw (eq_text_refl name) refl;
    no_creator = missing name c.channel_creators;
    no_commitment = missing name c.channel_key_commitments;
    no_password = missing name c.app_state.encrypted_channel_passwords;
    still_discovered = refl;
  }

  leave_mode-forgets :
      (name : Text) (c : Client)
      → Distinct c.chat_context.active_channels
      → (leave_mode w (channel name) c).0 ≡ ok tt
      → HasForgotten name c.discovered_channels (after (leave_mode w (channel name) c))
  unfolding leave_mode
  leave_mode-forgets name c d e =
      let sent =
        send_with_ttl w (some 3)
          (encode name >>= λ payload. create_bitchat_packet w.moment c.my_peer_id leave payload)
          c in
      let kept =
        ap (λ h. h.active_channels)
          (send_with_ttl-held w (some 3)
            (encode name >>= λ payload. create_bitchat_packet w.moment c.my_peer_id leave payload)
            c) in
      let discovered =
        ap (λ h. h.discovered_channels)
          (send_with_ttl-held w (some 3)
            (encode name >>= λ payload. create_bitchat_packet w.moment c.my_peer_id leave payload)
            c) in
      subst (HasForgotten name c.discovered_channels) (sym (then_do-ok sent _ e)) (
        subst
          (λ s.
            HasForgotten name s
              (after (silently (save_app_state (forget_channel w name (after sent))))))
          discovered (forgotten name (after sent) (subst Distinct (sym kept) d)))

  -- Where /leave in a channel does not raise, the client is back in the public chat and has no entry of the
  -- channel in its list, and no key, protection, creator, commitment or password of it. The set of discovered
  -- channels stays as it was.
  pub handle_leave_command-HasForgotten :
      (name : Text) (c : Client)
      → c.chat_context.current_mode ≡ channel name
      → Distinct c.chat_context.active_channels
      → (handle_leave_command w c).0 ≡ ok tt
      → HasForgotten name c.discovered_channels (after (handle_leave_command w c))
  unfolding handle_leave_command
  handle_leave_command-HasForgotten name c mode d e =
      let same : leave_mode w c.chat_context.current_mode c ≡ leave_mode w (channel name) c =
        ap (λ m. leave_mode w m c) mode in
      rw same (leave_mode-forgets name c d (rw same at e))
