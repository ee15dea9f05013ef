-- ===== src/Transport/Stream.antt =====
-- `_read_loop` of daemon/transport.py over what a stream still holds.
use bitchat_node_daemon.Base.{
  ℕ, zero, suc, List, [], ◌∷◌, ltb, if◌then◌else◌, length, take, drop, Result, ok, err,
  incomplete_read,
}
use bitchat_node_daemon.Base.Bytes.{Bytes, unpack_u16}
use bitchat_node_daemon.Transport.{max_packet_size}

-- `reader.readexactly(n)` on a stream that ends after `xs`: the bytes and what is left, or
-- `IncompleteReadError`.
unfoldable pub readexactly : ℕ → Bytes → Result (Bytes × Bytes)
readexactly n xs = if ltb (length xs) n then err incomplete_read else ok (take n xs, drop n xs)

-- How the loop ended: at a header, at a packet that is cut off, or at a length that is refused.
-- `stuck` is no outcome of the source: the rounds ran out.
pub data Ending : Type 0 where
  at_header in_packet too_large stuck : Ending

-- One round: the packet and what is left, or the end.
pub data Round : Type 0 where
  delivered : Bytes → Bytes → Round
  ended : Ending → Round

unfoldable pub read_packet : ℕ → Bytes → Round
read_packet n xs =
    if ltb max_packet_size n
    then ended too_large
    else elim (readexactly n xs) [ err e ↦ ended in_packet | ok (raw, rest) ↦ delivered raw rest ]

unfoldable pub read_round : Bytes → Round
unfolding read_packet readexactly
read_round xs = elim (readexactly 2 xs) [
  | err e ↦ ended at_header
  | ok (header, rest) ↦ elim (unpack_u16 header) [
    | err e ↦ ended at_header
    | ok n ↦ read_packet n rest
  ]
]

-- The packets that the loop hands to `on_packet`, and how it ended. A round takes two bytes at
-- least, so one round more than there are bytes is enough.
unfoldable pub read_rounds : ℕ → Bytes → List Bytes × Ending
read_rounds zero xs = ([], stuck)
read_rounds (suc fuel) xs = elim (read_round xs) [
  | ended e ↦ ([], e)
  | delivered raw rest ↦ let (packets, e) = read_rounds fuel rest in (raw ∷ packets, e)
]

unfoldable pub read_loop : Bytes → List Bytes × Ending
unfolding read_rounds read_round
read_loop xs = read_rounds (suc (length xs)) xs
