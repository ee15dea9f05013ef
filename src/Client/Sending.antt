-- ===== src/Client/Sending.antt =====
-- What the sending of packets by bitchat.py leaves as it is.
use bitchat_node_daemon.Base.{
  ℕ, ◌≡◌, refl, Bool, true, false, Option, none, some, List, [], ◌∷◌, ltb, if_both, length, set,
  Result, ok, err,
}
use bitchat_node_daemon.Base.Bytes.{Bytes, Text}
use bitchat_node_daemon.Base.Dict.{Dict}
use bitchat_node_daemon.Protocol.Packet.{should_fragment}
use bitchat_node_daemon.Persistence.{AppState}
use bitchat_node_daemon.Client.{
  Client, Outside, Done, written, handle_disconnect, send_fragments, send_over, send_packet,
  send_with_ttl, send_channel_announce, then_do,
}

abbrev pub after : Done → Client
after (r, out, c) = c

-- What does not depend on the connection.
pub record Held : Type 0 where
  pub my_peer_id : Text
  pub nickname : Text
  pub active_channels : List Text
  pub channel_keys : Dict Bytes
  pub app_state : AppState
  pub blocked_peers : List Text
  pub channel_creators : Dict Text
  pub password_protected_channels : List Text
  pub channel_key_commitments : Dict Text
  pub discovered_channels : List Text

abbrev pub held : Client → Held
held c = record {
  my_peer_id = c.my_peer_id;
  nickname = c.nickname;
  active_channels = c.chat_context.active_channels;
  channel_keys = c.channel_keys;
  app_state = c.app_state;
  blocked_peers = c.blocked_peers;
  channel_creators = c.channel_creators;
  password_protected_channels = c.password_protected_channels;
  channel_key_commitments = c.channel_key_commitments;
  discovered_channels = c.discovered_channels;
}

module _ (w : Outside) where
  send_over-held :
      (link : Option Bool) (packet : Bytes) (c : Client)
      → held (after (send_over w link packet c)) ≡ held c
  unfolding send_over
  send_over-held none packet c = refl
  send_over-held (some false) packet c = unfold handle_disconnect in refl
  send_over-held (some true) packet c =
      if_both (should_fragment packet) (λ d. held (after d)) (send_fragments w packet c)
        (ok tt, written packet (ltb 512 (length packet)) ∷ [], c) (unfold send_fragments in refl)
        refl

  pub send_with_ttl-held :
      (ttl : Option ℕ) (packet : Result Bytes) (c : Client)
      → held (after (send_with_ttl w ttl packet c)) ≡ held c
  unfolding send_packet
  send_with_ttl-held ttl (err raised) c = refl
  send_with_ttl-held none (ok packet) c = send_over-held c.link packet c
  send_with_ttl-held (some ttl) (ok packet) c = send_over-held c.link (set packet 2 ttl) c

  pub send_channel_announce-held :
      (name : Text) (is_protected : Bool) (commitment : Option Text) (c : Client)
      → held (after (send_channel_announce w name is_protected commitment c)) ≡ held c
  unfolding send_channel_announce
  send_channel_announce-held name is_protected commitment c = send_with_ttl-held (some 5) _ c

-- Where the second of two commands keeps something, so does the pair of them.
pub then_do-keeps {ℓ} :
    {A : Type ℓ} (f : Client → A) (d : Done) (next : Client → Done)
    → ((c : Client) → f (after (next c)) ≡ f c)
    → f (after (then_do d next)) ≡ f (after d)
then_do-keeps f (err raised, out, c) next h = refl
then_do-keeps f (ok done, out, c) next h = h c
