-- ===== src/Protocol/Packet.antt =====
-- The packet reader and the packet writer of bitchat/protocol.py.
pub mod RoundTrip
pub mod Relayed
pub mod Padding
use bitchat_node_daemon.Base.{
  ℕ, ◌+◌, ◌-◌, ◌≡◌, Bool, true, false, not, ◌&&◌, ◌||◌, Option, none, some, List, [], ◌∷◌, ◌++◌,
  map, Result, ok, err, ◌>>=◌, ◌>>◌, guard, value_error, length, take, replicate, ltb, leb, ◌==◌,
  if◌then◌else◌, bit_and, bit_or, is_some,
}
use bitchat_node_daemon.Base.Bytes.{
  Bytes, Text, index, slice, rstrip, pack_u16, pack_u64, unpack_u16,
}
use bitchat_node_daemon.Base.Hex.{hex, from_hex}
use bitchat_node_daemon.Compression.{Lz4, decompress}
use bitchat_node_daemon.Protocol.Types.{
  MessageType, value, to_message_type, is_fragment, flag_has_recipient, flag_has_signature,
  flag_is_compressed, broadcast_recipient, BitchatPacket, truthy,
}

abbrev pub header_size : ℕ
header_size = 13

abbrev pub sender_id_size : ℕ
sender_id_size = 8

abbrev pub recipient_id_size : ℕ
recipient_id_size = 8

-- `(flags & mask) != 0`
abbrev pub has_flag : ℕ → ℕ → Bool
has_flag flags mask = not (bit_and flags mask == 0)

-- `data[-1]`, where there is one
abbrev pub last_byte : Bytes → Option ℕ
last_byte [] = none
last_byte (x ∷ []) = some x
last_byte (x ∷ y ∷ ys) = last_byte (y ∷ ys)

unfoldable pub unpad_packet : Bytes → Bytes
unpad_packet xs = elim (last_byte xs) [
  | none ↦ xs
  | some n ↦ if n == 0 || ltb (length xs) n then xs else take (length xs - n) xs
]

-- The offsets are those of the running `offset`: version 0, type 1, TTL 2, time 3 to 10, flags 11,
-- payload length 12 and 13, sender 14 to 21. The signature is read and dropped, so it is left out.
unfoldable pub parse_bitchat_packet : Lz4 → Bytes → Result BitchatPacket
parse_bitchat_packet lz4 xs = do
  guard (leb (header_size + sender_id_size) (length xs)) value_error
  version ← index xs 0
  guard (version == 1) value_error
  type_byte ← index xs 1
  msg_type ← to_message_type type_byte
  ttl ← index xs 2
  flags ← index xs 11
  payload_len ← unpack_u16 (slice xs 12 14)
  let sender_id = rstrip (slice xs 14 22)
  let has_recipient = has_flag flags flag_has_recipient
  let recipient_id = if has_recipient then some (rstrip (slice xs 22 30)) else none
  let offset : ℕ = if has_recipient then 30 else 22
  let raw_payload = slice xs offset (offset + payload_len)
  payload ← if has_flag flags flag_is_compressed then decompress lz4 raw_payload else ok raw_payload
  ok (record {
    msg_type = msg_type;
    sender_id = sender_id;
    sender_id_str = hex sender_id;
    recipient_id = recipient_id;
    recipient_id_str = elim recipient_id [ none ↦ none | some r ↦ some (hex r) ];
    payload = payload;
    ttl = ttl;
  })

-- A field of exactly eight bytes: cut, or filled up with zeros.
abbrev pub eight_bytes : Bytes → Bytes
eight_bytes xs = take 8 xs ++ replicate (8 - length xs) 0

-- `if recipient_id:` takes an empty text for the broadcast address, too.
unfoldable pub recipient_field : Option Text → Result Bytes
recipient_field none = ok broadcast_recipient
recipient_field (some []) = ok broadcast_recipient
recipient_field (some (c ∷ cs)) = do r ← from_hex (c ∷ cs); ok (eight_bytes r)

abbrev pub block_sizes : List ℕ
block_sizes = 256 ∷ 512 ∷ 1024 ∷ 2048 ∷ []

-- The first block that holds `total_size`, or else `otherwise`.
unfoldable pub target_size : ℕ → ℕ → List ℕ → ℕ
target_size otherwise total_size [] = otherwise
target_size otherwise total_size (b ∷ bs) =
    if leb total_size b then b else target_size otherwise total_size bs

unfoldable pub padding_needed : ℕ → ℕ
unfolding target_size
padding_needed n = target_size n (n + 16) block_sizes - n

-- `random k` is what `os.urandom(k)` returns.
unfoldable pub padding : (ℕ → Bytes) → ℕ → Bytes
padding random n =
    let needed = padding_needed n in
    if ltb 0 needed && leb needed 255 then random (needed - 1) ++ needed ∷ [] else []

unfoldable pub has_recipient_flag : Option Text → MessageType → Bool
has_recipient_flag recipient_id msg_type = is_some recipient_id || not (is_fragment msg_type)

unfoldable pub packet_flags : Bool → Bool → ℕ
packet_flags has_recipient has_signature =
    bit_or (if has_recipient then flag_has_recipient else 0)
      (if has_signature then flag_has_signature else 0)

abbrev pub bytes_or_empty : Option Bytes → Bytes
bytes_or_empty none = []
bytes_or_empty (some xs) = xs

-- What the clock and the random source of the machine give to one call.
pub record Moment : Type 0 where
  pub now_ms : ℕ
  pub random : ℕ → Bytes

unfoldable pub create_bitchat_packet_with_recipient :
    Moment → Text → Option Text → MessageType → Bytes → Option Bytes → Result Bytes
create_bitchat_packet_with_recipient m sender_id recipient_id msg_type payload signature = do
  timestamp ← pack_u64 m.now_ms
  let has_recipient = has_recipient_flag recipient_id msg_type
  let flags = packet_flags has_recipient (truthy signature)
  payload_len ← pack_u16 (length payload)
  sender_bytes ← from_hex sender_id
  recipient ← if has_recipient then recipient_field recipient_id else ok []
  let packet =
      1 ∷ value msg_type ∷ 7 ∷ timestamp
      ++ (flags ∷ payload_len
          ++ (eight_bytes sender_bytes ++ (recipient ++ (payload ++ bytes_or_empty signature))))
  ok (packet ++ padding m.random (length packet))

unfoldable pub create_bitchat_packet : Moment → Text → MessageType → Bytes → Result Bytes
unfolding create_bitchat_packet_with_recipient
create_bitchat_packet m sender_id msg_type payload =
    create_bitchat_packet_with_recipient m sender_id none msg_type payload none

unfoldable pub create_bitchat_packet_with_signature :
    Moment → Text → MessageType → Bytes → Option Bytes → Result Bytes
unfolding create_bitchat_packet_with_recipient
create_bitchat_packet_with_signature m sender_id msg_type payload signature =
    create_bitchat_packet_with_recipient m sender_id none msg_type payload signature

unfoldable pub create_bitchat_packet_with_recipient_and_signature :
    Moment → Text → Text → MessageType → Bytes → Option Bytes → Result Bytes
unfolding create_bitchat_packet_with_recipient
create_bitchat_packet_with_recipient_and_signature m sender_id recipient_id msg_type payload
      signature =
    create_bitchat_packet_with_recipient m sender_id (some recipient_id) msg_type payload signature

unfoldable pub should_fragment : Bytes → Bool
should_fragment packet = ltb 500 (length packet)
