-- ===== src/Protocol/Packet/RoundTrip.antt =====
-- The writer and the reader of packets of bitchat/protocol.py together.
use bitchat_node_daemon.Base.{
  ℕ, ◌+◌, ◌-◌, ◌/◌, ◌%◌, ◌^◌, ◌<◌, ◌≡◌, refl, inl, inr, Bool, true, false, Option, none, some, [],
  ◌∷◌, ◌++◌, append_assoc, arith, leb, if◌then◌else◌, le→leb, Bool-cases, length, take, drop,
  replicate, length-append, length-take, length-replicate, ok, >>=-eq-ok,
}
use bitchat_node_daemon.Base.Bytes.{
  Bytes, Text, index, slice, rstrip, rstrip-append, bytes_u64, unpack_u16, pack_u16_lem,
  pack_u64_lem, unpack-pack_u16, slice-drop, drop_skip,
}
use bitchat_node_daemon.Base.Hex.{hex, from_hex}
use bitchat_node_daemon.Protocol.Types.{
  MessageType, value, to_message_type-value, BitchatPacket, truthy,
}
use bitchat_node_daemon.Compression.{Lz4}
use bitchat_node_daemon.Protocol.Packet.{
  parse_bitchat_packet, create_bitchat_packet_with_recipient, eight_bytes, recipient_field, padding,
  has_recipient_flag, packet_flags, bytes_or_empty, Moment,
}

rstrip-eight_bytes : (xs : Bytes) → rstrip (eight_bytes xs) ≡ rstrip (take 8 xs)
rstrip-eight_bytes xs = rstrip-append (take 8 xs) (8 - length xs)

length-eight_bytes : (xs : Bytes) → length (eight_bytes xs) ≡ 8
length-eight_bytes xs = omega (
  arith,
  length-append (take 8 xs) (replicate (8 - length xs) 0),
  length-take 8 xs,
  length-replicate {A = ℕ} (8 - length xs) 0,
)

length-recipient_field :
    (recipient_id : Option Text) (r : Bytes) → recipient_field recipient_id ≡ ok r → length r ≡ 8
unfolding recipient_field
length-recipient_field none r h = ground arith
length-recipient_field (some []) r h = ground arith
length-recipient_field (some (c ∷ cs)) r h =
    let (xs, _, e) = >>=-eq-ok (from_hex (c ∷ cs)) _ h in
    let e' : eight_bytes xs ≡ r = cc in rw (← e') (length-eight_bytes xs)

-- The fields that the reader finds in a packet for `sender` and `recipient`, eight bytes each.
abbrev pub packet_read : MessageType → Bytes → Option Bytes → Bytes → BitchatPacket
packet_read msg_type sender recipient payload = record {
  msg_type = msg_type;
  sender_id = rstrip sender;
  sender_id_str = hex (rstrip sender);
  recipient_id = elim recipient [ none ↦ none | some r ↦ some (rstrip r) ];
  recipient_id_str = elim recipient [ none ↦ none | some r ↦ some (hex (rstrip r)) ];
  payload = payload;
  ttl = 7;
}

-- A packet with its parts in place: `r` is the recipient field or nothing.
abbrev layout : ℕ → MessageType → ℕ → ℕ → Bytes → Bytes → Bytes
layout now msg_type flags n sender rest =
    1 ∷ value msg_type ∷ 7 ∷ bytes_u64 now ++ (flags ∷ n / 256 ∷ n % 256 ∷ (sender ++ rest))

module _ (lz4 : Lz4) (now : ℕ) (msg_type : MessageType) (sender payload rest : Bytes)
    (sized : length sender ≡ 8) (fits : length payload < 2 ^ 16) where
  abbrev whole : ℕ → Bytes → Bytes
  whole flags r = layout now msg_type flags (length payload) sender (r ++ (payload ++ rest))

  long_enough : (flags : ℕ) (r : Bytes) → leb 21 (length (whole flags r)) ≡ true
  long_enough flags r = le→leb 21 _ (omega (arith, length-append sender (r ++ (payload ++ rest))))

  sender_slice : (flags : ℕ) (r : Bytes) → slice (whole flags r) 14 22 ≡ sender
  sender_slice flags r = slice-drop (whole flags r) 14 8 sender (r ++ (payload ++ rest)) refl sized

  after_sender : (flags : ℕ) (r : Bytes) → drop 22 (whole flags r) ≡ r ++ (payload ++ rest)
  after_sender flags r = drop_skip (whole flags r) 14 8 sender (r ++ (payload ++ rest)) refl sized

  length_field :
      (flags : ℕ) (r : Bytes) → unpack_u16 (slice (whole flags r) 12 14) ≡ ok (length payload)
  unfolding slice
  length_field flags r = unpack-pack_u16 (length payload) fits

  parse-layout_none :
      (s : Bool)
      → parse_bitchat_packet lz4 (whole (packet_flags false s) [])
        ≡ ok (packet_read msg_type sender none payload)
  unfolding parse_bitchat_packet index packet_flags
  parse-layout_none s =
      let body = λ (f : ℕ).
        slice-drop (whole f []) 22 (length payload) payload rest (after_sender f []) refl in
      elim (Bool-cases s) [
        | inl e ↦ rw (
          e,
          long_enough _ [],
          to_message_type-value msg_type,
          length_field _ [],
          sender_slice _ [],
          body 2,
        )
        | inr e ↦ rw (
          e,
          long_enough _ [],
          to_message_type-value msg_type,
          length_field _ [],
          sender_slice _ [],
          body 0,
        )
      ]

  module _ (r : Bytes) (sized_r : length r ≡ 8) where
    recipient_slice : (flags : ℕ) → slice (whole flags r) 22 30 ≡ r
    recipient_slice flags =
        slice-drop (whole flags r) 22 8 r (payload ++ rest) (after_sender flags r) sized_r

    body_slice : (flags : ℕ) → slice (whole flags r) 30 (30 + length payload) ≡ payload
    body_slice flags =
        slice-drop (whole flags r) 30 (length payload) payload rest
          (drop_skip (whole flags r) 22 8 r (payload ++ rest) (after_sender flags r) sized_r) refl

    parse-layout_some :
        (s : Bool)
        → parse_bitchat_packet lz4 (whole (packet_flags true s) r)
          ≡ ok (packet_read msg_type sender (some r) payload)
    unfolding parse_bitchat_packet index packet_flags
    parse-layout_some s = elim (Bool-cases s) [
      | inl e ↦ rw (
        e,
        long_enough _ r,
        to_message_type-value msg_type,
        length_field _ r,
        sender_slice _ r,
        recipient_slice _,
        body_slice 3,
      )
      | inr e ↦ rw (
        e,
        long_enough _ r,
        to_message_type-value msg_type,
        length_field _ r,
        sender_slice _ r,
        recipient_slice _,
        body_slice 1,
      )
    ]

layout-append :
    (now : ℕ) (t : MessageType) (flags n : ℕ) (sender r payload sig pad : Bytes)
    → layout now t flags n sender (r ++ (payload ++ sig)) ++ pad
      ≡ layout now t flags n sender (r ++ (payload ++ (sig ++ pad)))
layout-append now t flags n sender r payload sig pad = simp append_assoc

module _ (lz4 : Lz4) (m : Moment) (sender_id : Text) (recipient_id : Option Text)
    (msg_type : MessageType) (payload : Bytes) (signature : Option Bytes) (sender recipient : Bytes)
    (is_sender : from_hex sender_id ≡ ok sender)
    (is_recipient : recipient_field recipient_id ≡ ok recipient) (fits : length payload < 2 ^ 16)
    (in_time : m.now_ms < 2 ^ 64) where
  abbrev sent_recipient : Option Bytes
  sent_recipient = if has_recipient_flag recipient_id msg_type then some recipient else none

  abbrev recipient_part : Bytes
  recipient_part = if has_recipient_flag recipient_id msg_type then recipient else []

  abbrev flags : ℕ
  flags = packet_flags (has_recipient_flag recipient_id msg_type) (truthy signature)

  abbrev written : Bytes
  written =
      layout m.now_ms msg_type flags (length payload) (eight_bytes sender)
        (recipient_part ++ (payload ++ bytes_or_empty signature))

  abbrev rest : Bytes
  rest = bytes_or_empty signature ++ padding m.random (length written)

  create_lem :
      create_bitchat_packet_with_recipient m sender_id recipient_id msg_type payload signature
      ≡ ok (written ++ padding m.random (length written))
  unfolding create_bitchat_packet_with_recipient
  create_lem = elim (Bool-cases (has_recipient_flag recipient_id msg_type)) [
    | inl e ↦ rw (
      pack_u64_lem m.now_ms in_time,
      pack_u16_lem (length payload) fits,
      is_sender,
      e,
      is_recipient,
    )
    | inr e ↦ rw (pack_u64_lem m.now_ms in_time, pack_u16_lem (length payload) fits, is_sender, e)
  ]

  parse_lem :
      parse_bitchat_packet lz4 (written ++ padding m.random (length written))
      ≡ ok (packet_read msg_type (eight_bytes sender) sent_recipient payload)
  parse_lem =
      rw
        (layout-append m.now_ms msg_type flags (length payload) (eight_bytes sender) recipient_part
          payload (bytes_or_empty signature) (padding m.random (length written)))
        (elim (Bool-cases (has_recipient_flag recipient_id msg_type)) [
          | inl e ↦ rw e (
              parse-layout_some lz4 m.now_ms msg_type (eight_bytes sender) payload _
                (length-eight_bytes sender) fits recipient
                (length-recipient_field recipient_id recipient is_recipient) (truthy signature))
          | inr e ↦ rw e (
              parse-layout_none lz4 m.now_ms msg_type (eight_bytes sender) payload _
                (length-eight_bytes sender) fits (truthy signature))
        ])

  -- Given hexadecimal sender and recipient, a payload below 64 KiB and a time that fits eight
  -- bytes, the writer makes a packet, whatever the signature and the random padding are, and the
  -- reader gets from it the type, the payload, the TTL 7 and the addresses without their trailing
  -- zeros; there is no recipient exactly if the packet is a fragment and none was given.
  pub parse-create_bitchat_packet :
      (packet : Bytes) × (create_bitchat_packet_with_recipient m sender_id recipient_id msg_type
          payload signature
        ≡ ok packet)
      × (parse_bitchat_packet lz4 packet
          ≡ ok (packet_read msg_type (eight_bytes sender) sent_recipient payload))
  parse-create_bitchat_packet =
      (written ++ padding m.random (length written), create_lem, parse_lem)
