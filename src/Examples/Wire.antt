-- ===== src/Examples/Wire.antt =====
-- Packets, payloads and fragments.
use bitchat_node_daemon.Base.{
  ℕ, ◌-◌, ◌≤◌, ◌≡◌, refl, false, none, some, [], ◌∷◌, ◌++◌, arith, if◌then◌else◌, length, replicate,
  length-replicate, ok,
}
use bitchat_node_daemon.Base.Bytes.{eq_text, Bytes, Text}
use bitchat_node_daemon.Base.Dict.{lookup}
use bitchat_node_daemon.Base.Hex.{hex, from_hex}
use bitchat_node_daemon.Base.Utf8.{encode}
use bitchat_node_daemon.Examples.Node.{copying, moment}
use bitchat_node_daemon.Compression.{compress_if_beneficial, decompress}
use bitchat_node_daemon.Compression.Laws.{decompress-compress_if_beneficial}
use bitchat_node_daemon.Protocol.Types.{message, broadcast_recipient, is_fragment}
use bitchat_node_daemon.Protocol.Packet.{
  parse_bitchat_packet, create_bitchat_packet_with_recipient, padding, eight_bytes, recipient_field,
  has_recipient_flag,
}
use bitchat_node_daemon.Protocol.Packet.RoundTrip.{packet_read, parse-create_bitchat_packet}
use bitchat_node_daemon.Protocol.Packet.Padding.{padded_size, length-append_padding}
use bitchat_node_daemon.Protocol.Message.{
  Draft, payload_bytes, create_bitchat_message_payload_full, parse_bitchat_message_payload,
}
use bitchat_node_daemon.Protocol.Message.RoundTrip.{
  message_read, parse-create_bitchat_message_payload,
}
use bitchat_node_daemon.Protocol.Trackers.{new_collector}
use mathlib.Core.List.Permᴰ
use bitchat_node_daemon.Fragmentation.{chunk_count, fragment_payload}
use bitchat_node_daemon.Fragmentation.Reassembly.{deliver, deliver-fragment_payload}

abbrev sevens : Bytes
sevens = replicate 100 7

decompress-compress_if_beneficial_example :
    (length (compress_if_beneficial copying sevens).0 ≤ length sevens)
    × ((if (compress_if_beneficial copying sevens).1
          then decompress copying (compress_if_beneficial copying sevens).0
          else ok (compress_if_beneficial copying sevens).0)
        ≡ ok sevens)
decompress-compress_if_beneficial_example =
    decompress-compress_if_beneficial copying sevens (λ x. refl)

abbrev nines : ℕ → Bytes
nines k = replicate k 9

length-nines : (k : ℕ) → length (nines k) ≡ k
length-nines k = length-replicate {A = ℕ} k 9

length-append_padding_example :
    length (sevens ++ padding nines (length sevens)) ≡ padded_size (length sevens)
length-append_padding_example = length-append_padding nines sevens length-nines (omega arith)

abbrev sender_hex : Text
sender_hex = replicate 16 b'1'

abbrev sender : Bytes
sender = replicate 8 0x11

parse-create_bitchat_packet_example :
    (packet : Bytes) × (create_bitchat_packet_with_recipient moment sender_hex none message
        (7 ∷ [])
        none
      ≡ ok packet)
    × (parse_bitchat_packet copying packet
        ≡ ok (packet_read message (eight_bytes sender) (some broadcast_recipient) (7 ∷ [])))
unfolding from_hex recipient_field has_recipient_flag is_fragment
parse-create_bitchat_packet_example =
    parse-create_bitchat_packet copying moment sender_hex none message (7 ∷ []) none sender
      broadcast_recipient refl refl (omega arith) (omega arith)

abbrev draft : Draft
draft = record {
  sender = b'n' ∷ [];
  content = b'h' ∷ b'i' ∷ [];
  channel = some (b'#' ∷ []);
  is_private = false;
  sender_peer_id = b'p' ∷ [];
  is_encrypted = false;
  encrypted_content = none;
}

parse-create_bitchat_message_payload_example :
    (payload : Bytes) × (create_bitchat_message_payload_full 1000 (b'u' ∷ []) draft
      ≡ ok (payload, b'u' ∷ []))
    × (parse_bitchat_message_payload payload
        ≡ ok (message_read (b'u' ∷ []) draft (b'h' ∷ b'i' ∷ [])))
unfolding encode payload_bytes
parse-create_bitchat_message_payload_example =
    parse-create_bitchat_message_payload 1000 (b'u' ∷ []) draft (b'u' ∷ []) (b'n' ∷ [])
      (b'h' ∷ b'i' ∷ []) (b'p' ∷ []) (b'#' ∷ []) refl (omega arith) refl (omega arith) refl
      (omega arith) refl (omega arith) refl (omega arith) (omega arith)

-- Six hundred bytes make two fragments.
abbrev large : Bytes
large = replicate 600 7

length-large : length large ≡ 600
length-large = length-replicate {A = ℕ} 600 7

deliver-fragment_payload_example :
    ((deliver sender_hex (fragment_payload nines large 4) new_collector).0
      ≡ replicate (chunk_count (length large) - 1) none ++ some (large, sender_hex) ∷ [])
    × ((k : Text)
        → lookup k (deliver sender_hex (fragment_payload nines large 4) new_collector).1.fragments
          ≡ (if eq_text (hex (nines 8)) k then none else lookup k new_collector.fragments))
    × ((k : Text)
        → lookup k (deliver sender_hex (fragment_payload nines large 4) new_collector).1.metadata
          ≡ (if eq_text (hex (nines 8)) k then none else lookup k new_collector.metadata))
unfolding lookup
deliver-fragment_payload_example =
    deliver-fragment_payload nines large 4 sender_hex (fragment_payload nines large 4) new_collector
      (rw length-large omega arith) refl (Permᴰ.refl _)
