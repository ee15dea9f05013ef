-- ===== src/Examples/Talk.antt =====
-- A client with a channel, its owner and a member.
use bitchat_node_daemon.Base.{
  ℕ, zero, suc, false, ◌==◌, some, ◌≤◌, ◌<◌, ◌≡◌, refl, ap, true, none, [], ◌∷◌, ◌++◌, arith, leb,
  length, replicate, ok,
}
use bitchat_node_daemon.Base.Bytes.{Bytes, Text, eq_text, pack_u16, pack_u64}
use bitchat_node_daemon.Base.Dict.{lookup, member}
use bitchat_node_daemon.Base.Utf8.{encode, decode}
use bitchat_node_daemon.Base.Texts.{codes, strip, starts_with}
use bitchat_node_daemon.Encryption.Channel.{derive_channel_key}
use bitchat_node_daemon.Base.Hex.{hex, from_hex}
use bitchat_node_daemon.Protocol.Packet.{create_bitchat_packet, has_recipient_flag, recipient_field}
use bitchat_node_daemon.Protocol.Types.{is_fragment}
use bitchat_node_daemon.Examples.Noise.{toy, service}
use bitchat_node_daemon.Examples.Node.{moment}
use bitchat_node_daemon.Examples.Start.{plain_vault, saved}
use bitchat_node_daemon.Client.{Client, Outside, announcement, send_packet}
use bitchat_node_daemon.Client.Chat.{
  channel, private_dm, ChatContext, new_context, get_status_line, join_spaces, switch_to_number,
  switch_to_channel, add_dm,
}
use bitchat_node_daemon.Client.Chat.Numbers.{conversations, numbered, switch_to_number_lem}
use bitchat_node_daemon.Client.Chat.Listed.{IsListed, here, next, joined, dm_noted, Reach-IsListed}
use bitchat_node_daemon.Client.Sending.{after}
use bitchat_node_daemon.Client.Channels.{nothing, commitment, join_channel, handle_leave_command}
use bitchat_node_daemon.Client.Channels.Leaving.{HasForgotten, handle_leave_command-HasForgotten}
use bitchat_node_daemon.Client.Ownership.{
  is_other, set_password, handle_pass_command, handle_transfer_command,
}
use bitchat_node_daemon.Client.Ownership.Owner.{set_password-secrets, only_owner}
use bitchat_node_daemon.Mesh.Announce.Channel.{Plain}
use bitchat_node_daemon.Client.Handlers.{handle_channel_announce, handle_leave}
use bitchat_node_daemon.Client.Handlers.Departed.{HasLost, handle_leave-HasLost}
use bitchat_node_daemon.Client.Handlers.Announced.{announced_join}
use bitchat_node_daemon.Client.People.{is_nickname, handle_name}
use bitchat_node_daemon.Client.People.Names.{handle_name_bounds}

abbrev outside : Outside
outside = record {
  crypto = toy;
  vault = plain_vault;
  moment = moment;
  uuid = λ n. b'u' ∷ [];
  nonce = λ n. replicate 12 9;
  pbkdf2 = λ password salt. password ++ salt;
  is_alnum = λ c. leb b'a' c;
}

abbrev room : Text
room = codes "#c"

abbrev context : ChatContext
context = record new_context {
  current_mode = channel room;
  active_channels = room ∷ [];
  active_dms = (codes "n", codes "p") ∷ [];
}

-- A client without a connection, in a channel.
abbrev client : Client
client = record {
  my_peer_id = replicate 16 b'a';
  nickname = codes "n";
  peers = [];
  chat_context = context;
  channel_keys = [];
  app_state = saved;
  blocked_peers = [];
  channel_creators = [];
  password_protected_channels = [];
  channel_key_commitments = [];
  discovered_channels = [];
  encryption_service = service 1;
  link = none;
  pending_private_messages = [];
}

switch_to_number_lem_example :
    (get_status_line context ≡ codes "Active: " ++ join_spaces (numbered 1 (conversations context)))
    × (switch_to_number 3 context
        ≡ ok (true, record context { current_mode = private_dm (codes "n") (codes "p") }))
switch_to_number_lem_example = switch_to_number_lem 2 context

Reach-IsListed_example :
    IsListed (add_dm (codes "n") (codes "p") (switch_to_channel room new_context))
Reach-IsListed_example =
    Reach-IsListed (next (next here (joined room)) (dm_noted (codes "n") (codes "p")))

-- The key of the room by a password.
abbrev key : Bytes
key = codes "word#c"

-- A client that is in the room without a password, and what the owner announces.
abbrev member_client : Client
member_client = record client { my_peer_id = replicate 16 b'b' }

abbrev payload : Bytes
payload = codes "#c|1|aaaaaaaaaaaaaaaa|" ++ commitment outside key

replicate-Plain : (n x : ℕ) → (x == 124) ≡ false → Plain (replicate n x)
replicate-Plain zero x h = tt
replicate-Plain (suc n) x h = (h, replicate-Plain n x h)

announced_join_example :
    let told = after (handle_channel_announce payload member_client) in
    (lookup room (after (join_channel outside room (codes "other") told)).channel_keys ≡ none)
    × (lookup room (after (join_channel outside room (codes "word") told)).channel_keys
        ≡ lookup room (after (set_password outside room (codes "word") client)).channel_keys)
unfolding derive_channel_key encode is_other lookup eq_text commitment hex announcement
announced_join_example =
    announced_join outside room (codes "word") (codes "other") key (codes "other#c") payload client
      member_client refl refl (omega arith) refl refl
      (ap (λ s. encode (announcement outside room true s.1 client.my_peer_id))
        (set_password-secrets outside room (codes "word") key client refl (omega arith) refl))
      (ground arith) (omega arith) (refl, (refl, tt)) (replicate-Plain 16 b'a' refl)

only_owner_example :
    let guest : Client = record client { channel_creators = (room, codes "b") ∷ [] } in
    (handle_pass_command outside (codes "/pass word") guest ≡ nothing guest)
    × (handle_transfer_command outside (codes "/pass word") guest ≡ nothing guest)
unfolding lookup eq_text
only_owner_example =
    only_owner outside room [] (codes "/pass word") b'b'
      (record client { channel_creators = (room, codes "b") ∷ [] }) refl refl refl

handle_leave_command-HasForgotten_example :
    HasForgotten room [] (after (handle_leave_command outside client))
unfolding member handle_leave_command encode create_bitchat_packet pack_u64 pack_u16 from_hex
    has_recipient_flag is_fragment recipient_field send_packet
handle_leave_command-HasForgotten_example =
    handle_leave_command-HasForgotten outside room client refl (refl, tt) refl

handle_name_bounds_example :
    let c = after (handle_name outside (codes "/name bob ") client) in
    (0 < length c.nickname)
    × (length c.nickname ≤ 20)
    × (is_nickname outside c.nickname ≡ true)
    × (c.nickname ≡ codes "bob")
unfolding is_nickname member eq_text strip
handle_name_bounds_example = handle_name_bounds outside (codes "/name bob ") client refl

-- A peer that the client writes with.
abbrev talking : Client
talking = record client {
  peers = (codes "p", some (codes "n")) ∷ [];
  chat_context = record context { current_mode = private_dm (codes "n") (codes "p") };
}

handle_leave-HasLost_example :
    HasLost (codes "p") (codes "n") talking (after (handle_leave (codes "p") (codes "bye") talking))
unfolding decode strip starts_with lookup eq_text
handle_leave-HasLost_example =
    handle_leave-HasLost (codes "p") [] (codes "bye") b'n' (codes "bye") talking refl refl refl
