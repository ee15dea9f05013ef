-- ===== src/Protocol/Message.antt =====
-- The chat message payload of bitchat/protocol.py: writer and reader.
pub mod RoundTrip
use bitchat_node_daemon.Base.{
  ℕ, ◌+◌, bit_or, Bool, true, false, ◌&&◌, Option, none, some, ◌∷◌, ◌++◌, if◌then◌else◌, length,
  Result, ok, [], ◌>>=◌,
}
use bitchat_node_daemon.Base.Bytes.{
  Bytes, Text, index, slice, pack_u16, pack_u64, unpack_u16, byte, read_prefixed,
}
use bitchat_node_daemon.Base.Utf8.{encode, strict, ignore, decode}
use bitchat_node_daemon.Protocol.Types.{BitchatMessage, truthy}
use bitchat_node_daemon.Protocol.Packet.{has_flag}

abbrev pub msg_flag_is_private : ℕ
msg_flag_is_private = 0x02

abbrev pub msg_flag_has_sender_peer_id : ℕ
msg_flag_has_sender_peer_id = 0x10

abbrev pub msg_flag_has_channel : ℕ
msg_flag_has_channel = 0x40

abbrev pub msg_flag_is_encrypted : ℕ
msg_flag_is_encrypted = 0x80

-- The arguments of the writer.
pub record Draft : Type 0 where
  pub sender : Text
  pub content : Text
  pub channel : Option Text
  pub is_private : Bool
  pub sender_peer_id : Text
  pub is_encrypted : Bool
  pub encrypted_content : Option Bytes

unfoldable pub message_flags : Bool → Bool → Bool → Bool → ℕ
message_flags is_private has_sender_peer_id has_channel is_encrypted =
    let a : ℕ = if is_private then msg_flag_is_private else 0 in
    let b : ℕ = if has_sender_peer_id then bit_or a msg_flag_has_sender_peer_id else a in
    let c : ℕ = if has_channel then bit_or b msg_flag_has_channel else b in
    if is_encrypted then bit_or c msg_flag_is_encrypted else c

-- `data.append(len(field)); data.extend(field)`
unfoldable pub write_prefixed : Text → Result Bytes
write_prefixed t = do b ← encode t; n ← byte (length b); ok (n ++ b)

-- `if field:` before such a write
unfoldable pub write_optional : Option Text → Result Bytes
write_optional none = ok []
write_optional (some []) = ok []
write_optional (some (c ∷ cs)) = write_prefixed (c ∷ cs)

-- `encrypted_content if is_encrypted and encrypted_content else content.encode('utf-8')`
unfoldable pub payload_bytes : Draft → Result Bytes
payload_bytes d =
    if d.is_encrypted && truthy d.encrypted_content
    then elim d.encrypted_content [ none ↦ ok [] | some b ↦ ok b ]
    else encode d.content

-- `message_id` is the fresh `uuid4` text, which the source returns beside the bytes.
unfoldable pub create_bitchat_message_payload_full : ℕ → Text → Draft → Result (Bytes × Text)
create_bitchat_message_payload_full now_ms message_id d = do
  let flags =
      message_flags d.is_private (truthy (some d.sender_peer_id)) (truthy d.channel) d.is_encrypted
  timestamp ← pack_u64 now_ms
  id_field ← write_prefixed message_id
  sender_field ← write_prefixed d.sender
  content_bytes ← payload_bytes d
  content_len ← pack_u16 (length content_bytes)
  peer_field ← write_optional (some d.sender_peer_id)
  channel_field ← write_optional d.channel
  ok (
    flags ∷ timestamp
        ++ (id_field
            ++ (sender_field ++ (content_len ++ (content_bytes ++ (peer_field ++ channel_field))))),
    message_id,
  )

-- `encryption_service.encrypt_with_key` is an argument.
unfoldable pub create_encrypted_channel_message_payload :
    (Bytes → Bytes → Result Bytes)
    → ℕ
    → Text
    → Text
    → Text
    → Text
    → Bytes
    → Text
    → Result (Bytes × Text)
create_encrypted_channel_message_payload encrypt_with_key now_ms message_id sender content channel
      key sender_peer_id =
    do
      plain ← encode content
      encrypted ← encrypt_with_key plain key
      create_bitchat_message_payload_full now_ms message_id (record {
        sender = sender;
        content = content;
        channel = some channel;
        is_private = false;
        sender_peer_id = sender_peer_id;
        is_encrypted = true;
        encrypted_content = some encrypted;
      })

-- 6. the sender's peer id is skipped: the offset behind it
unfoldable pub skip_peer_id : Bool → Bytes → ℕ → Result ℕ
skip_peer_id false xs offset = ok offset
skip_peer_id true xs offset = do n ← index xs offset; ok (offset + 1 + n)

-- 7. the channel
unfoldable pub read_channel : Bool → Bytes → ℕ → Result (Option Text)
read_channel false xs offset = ok none
read_channel true xs offset = do
  (field, _) ← read_prefixed xs offset
  t ← decode strict field
  ok (some t)

unfoldable pub parse_bitchat_message_payload : Bytes → Result BitchatMessage
parse_bitchat_message_payload xs = do
  flags ← index xs 0
  let is_encrypted = has_flag flags msg_flag_is_encrypted
  (id_bytes, offset) ← read_prefixed xs 9
  id_str ← decode strict id_bytes
  (sender_bytes, offset') ← read_prefixed xs offset
  sender ← decode strict sender_bytes
  content_len ← unpack_u16 (slice xs offset' (offset' + 2))
  let content_bytes = slice xs (offset' + 2) (offset' + 2 + content_len)
  content ← if is_encrypted then ok [] else decode ignore content_bytes
  after_peer ←
      skip_peer_id (has_flag flags msg_flag_has_sender_peer_id) xs (offset' + 2 + content_len)
  channel ← read_channel (has_flag flags msg_flag_has_channel) xs after_peer
  ok (record {
    id = id_str;
    content = content;
    channel = channel;
    is_encrypted = is_encrypted;
    encrypted_content = if is_encrypted then some content_bytes else none;
  })
