-- ===== src/Protocol/Message/RoundTrip.antt =====
-- The writer and the reader of message payloads of bitchat/protocol.py together.
use bitchat_node_daemon.Base.{
  ℕ, ◌+◌, ◌/◌, ◌%◌, ◌^◌, ◌<◌, ◌≡◌, refl, sym, ◌∙◌, inl, inr, Bool, true, false, Option, none, some,
  [], ◌∷◌, ◌++◌, append-nil, if◌then◌else◌, Bool-cases, length, drop, ok,
}
use bitchat_node_daemon.Base.Bytes.{
  Bytes, Text, index, bytes_u64, byte_lem, read_prefixed-drop, drop_prefixed, pack_u16_lem,
  pack_u64_lem, unpack-pack_u16, index-drop, slice-drop, drop_skip,
}
use bitchat_node_daemon.Base.Utf8.{encode, strict, ignore, decode, decode-encode}
use bitchat_node_daemon.Protocol.Types.{BitchatMessage, truthy}
use bitchat_node_daemon.Protocol.Packet.{has_flag}
use bitchat_node_daemon.Protocol.Message.{
  Draft, message_flags, write_prefixed, write_optional, payload_bytes, msg_flag_has_sender_peer_id,
  msg_flag_has_channel, msg_flag_is_encrypted, create_bitchat_message_payload_full, skip_peer_id,
  read_channel, parse_bitchat_message_payload,
}

flags_read :
    (p s c e : Bool)
    → (has_flag (message_flags p s c e) msg_flag_has_sender_peer_id ≡ s)
      × (has_flag (message_flags p s c e) msg_flag_has_channel ≡ c)
      × (has_flag (message_flags p s c e) msg_flag_is_encrypted ≡ e)
unfolding message_flags
flags_read true true true true = (refl, refl, refl)
flags_read true true true false = (refl, refl, refl)
flags_read true true false true = (refl, refl, refl)
flags_read true true false false = (refl, refl, refl)
flags_read true false true true = (refl, refl, refl)
flags_read true false true false = (refl, refl, refl)
flags_read true false false true = (refl, refl, refl)
flags_read true false false false = (refl, refl, refl)
flags_read false true true true = (refl, refl, refl)
flags_read false true true false = (refl, refl, refl)
flags_read false true false true = (refl, refl, refl)
flags_read false true false false = (refl, refl, refl)
flags_read false false true true = (refl, refl, refl)
flags_read false false true false = (refl, refl, refl)
flags_read false false false true = (refl, refl, refl)
flags_read false false false false = (refl, refl, refl)

-- A prefixed text is its length and its encoding.
write_prefixed_lem :
    (t : Text) (b : Bytes) → encode t ≡ ok b → length b < 256 → write_prefixed t ≡ ok (length b ∷ b)
unfolding write_prefixed
write_prefixed_lem t b e h = rw (e, byte_lem (length b) h)

abbrev pub text_or_empty : Option Text → Text
text_or_empty none = []
text_or_empty (some t) = t

abbrev optional_field : Bool → Bytes → Bytes
optional_field b xs = if b then length xs ∷ xs else []

write_optional_lem :
    (o : Option Text) (b : Bytes)
    → encode (text_or_empty o) ≡ ok b
    → length b < 256
    → write_optional o ≡ ok (optional_field (truthy o) b)
unfolding write_optional
write_optional_lem none b e h = refl
write_optional_lem (some []) b e h = refl
write_optional_lem (some (c ∷ cs)) b e h = write_prefixed_lem (c ∷ cs) b e h

skip_peer_id-drop :
    (s : Bool) (xs : Bytes) (o : ℕ) (b r : Bytes)
    → drop o xs ≡ optional_field s b ++ r
    → (o' : ℕ) × (skip_peer_id s xs o ≡ ok o') × (drop o' xs ≡ r)
unfolding skip_peer_id
skip_peer_id-drop true xs o b r h =
    (o + 1 + length b, rw (index-drop xs o h), drop_prefixed xs o b r h)
skip_peer_id-drop false xs o b r h = (o, refl, h)

read_channel-drop :
    (c : Bool) (xs : Bytes) (o : ℕ) (t : Text) (b r : Bytes)
    → encode t ≡ ok b
    → drop o xs ≡ optional_field c b ++ r
    → read_channel c xs o ≡ ok (if c then some t else none)
unfolding read_channel
read_channel-drop true xs o t b r e h =
    rw (read_prefixed-drop xs o b r h, decode-encode strict t b e)
read_channel-drop false xs o t b r e h = refl

payload_bytes-plain : (d : Draft) → d.is_encrypted ≡ false → payload_bytes d ≡ encode d.content
unfolding payload_bytes
payload_bytes-plain d e = rw e

-- What the reader finds in a payload written from `d`.
abbrev pub message_read : Text → Draft → Bytes → BitchatMessage
message_read message_id d content_bytes = record {
  id = message_id;
  content = if d.is_encrypted then [] else d.content;
  channel = if truthy d.channel then some (text_or_empty d.channel) else none;
  is_encrypted = d.is_encrypted;
  encrypted_content = if d.is_encrypted then some content_bytes else none;
}

module _ (now_ms : ℕ) (message_id : Text) (d : Draft)
    (id_b sender_b content_b peer_b channel_b : Bytes) (id_enc : encode message_id ≡ ok id_b)
    (id_fits : length id_b < 256) (sender_enc : encode d.sender ≡ ok sender_b)
    (sender_fits : length sender_b < 256) (content_enc : payload_bytes d ≡ ok content_b)
    (content_fits : length content_b < 2 ^ 16) (peer_enc : encode d.sender_peer_id ≡ ok peer_b)
    (peer_fits : length peer_b < 256)
    (channel_enc : encode (text_or_empty d.channel) ≡ ok channel_b)
    (channel_fits : length channel_b < 256) (in_time : now_ms < 2 ^ 64) where
  abbrev has_peer : Bool
  has_peer = truthy (some d.sender_peer_id)

  abbrev flags : ℕ
  flags = message_flags d.is_private has_peer (truthy d.channel) d.is_encrypted

  abbrev tail : Bytes
  tail = optional_field has_peer peer_b ++ (optional_field (truthy d.channel) channel_b ++ [])

  abbrev after_sender : Bytes
  after_sender = length content_b / 256 ∷ length content_b % 256 ∷ (content_b ++ tail)

  abbrev whole : Bytes
  whole =
      flags ∷ bytes_u64 now_ms
      ++ (length id_b ∷ (id_b ++ (length sender_b ∷ (sender_b ++ after_sender))))

  create_lem : create_bitchat_message_payload_full now_ms message_id d ≡ ok (whole, message_id)
  unfolding create_bitchat_message_payload_full
  create_lem =
      rw
        (
          pack_u64_lem now_ms in_time,
          write_prefixed_lem message_id id_b id_enc id_fits,
          write_prefixed_lem d.sender sender_b sender_enc sender_fits,
          content_enc,
          pack_u16_lem (length content_b) content_fits,
          write_optional_lem (some d.sender_peer_id) peer_b peer_enc peer_fits,
          write_optional_lem d.channel channel_b channel_enc channel_fits,
        )
        (simp append-nil)

  abbrev o₁ : ℕ
  o₁ = 9 + 1 + length id_b

  abbrev o₂ : ℕ
  o₂ = o₁ + 1 + length sender_b

  at_sender : drop o₁ whole ≡ length sender_b ∷ (sender_b ++ after_sender)
  at_sender = drop_prefixed whole 9 id_b _ refl

  at_content : drop o₂ whole ≡ after_sender
  at_content = drop_prefixed whole o₁ sender_b _ at_sender

  abbrev len_field : Bytes
  len_field = length content_b / 256 ∷ length content_b % 256 ∷ []

  at_body : drop (o₂ + 2) whole ≡ content_b ++ tail
  at_body = drop_skip whole o₂ 2 len_field (content_b ++ tail) at_content refl

  content_read :
      (if d.is_encrypted then ok [] else decode ignore content_b)
      ≡ ok (if d.is_encrypted then [] else d.content)
  content_read = elim (Bool-cases d.is_encrypted) [
    | inl e ↦ rw e
    | inr e ↦
        rw e
          (decode-encode ignore d.content content_b (sym (payload_bytes-plain d e) ∙ content_enc))
  ]

  parse_lem : parse_bitchat_message_payload whole ≡ ok (message_read message_id d content_b)
  unfolding parse_bitchat_message_payload index
  parse_lem =
      let (f_peer, f_channel, f_encrypted) =
        flags_read d.is_private has_peer (truthy d.channel) d.is_encrypted in
      let (o, skipped, at_channel) =
        skip_peer_id-drop has_peer whole (o₂ + 2 + length content_b) peer_b _
          (drop_skip whole (o₂ + 2) (length content_b) content_b tail at_body refl) in
      rw (
        read_prefixed-drop whole 9 id_b _ refl,
        decode-encode strict message_id id_b id_enc,
        read_prefixed-drop whole o₁ sender_b _ at_sender,
        decode-encode strict d.sender sender_b sender_enc,
        slice-drop whole o₂ 2 len_field _ at_content refl,
        unpack-pack_u16 (length content_b) content_fits,
        slice-drop whole (o₂ + 2) (length content_b) content_b tail at_body refl,
        f_encrypted,
        content_read,
        f_peer,
        skipped,
        f_channel,
        read_channel-drop (truthy d.channel) whole o (text_or_empty d.channel) channel_b []
            channel_enc at_channel,
      )

  -- Given texts that have an encoding, each below 256 bytes, a content below 64 KiB and a time that
  -- fits eight bytes, the writer makes a payload with the message id, and the reader gets from it
  -- the id, the content or the encrypted content, and the channel, if it is not empty.
  pub parse-create_bitchat_message_payload :
      (payload : Bytes) × (create_bitchat_message_payload_full now_ms message_id d
        ≡ ok (payload, message_id))
      × (parse_bitchat_message_payload payload ≡ ok (message_read message_id d content_b))
  parse-create_bitchat_message_payload = (whole, create_lem, parse_lem)
