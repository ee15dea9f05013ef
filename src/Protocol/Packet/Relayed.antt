-- ===== src/Protocol/Packet/Relayed.antt =====
-- The packet reader of bitchat/protocol.py on a packet whose TTL byte was overwritten.
use bitchat_node_daemon.Base.{ℕ, ◌≡◌, [], ◌∷◌, arith, set, ok}
use bitchat_node_daemon.Base.Bytes.{Bytes, index, slice}
use bitchat_node_daemon.Protocol.Types.{BitchatPacket}
use bitchat_node_daemon.Compression.{Lz4}
use bitchat_node_daemon.Protocol.Packet.{parse_bitchat_packet}

-- For every input that the reader accepts, writing `t` to byte 2 changes the TTL that is read to
-- `t`, and no other field.
pub parse-set_ttl :
    (lz4 : Lz4) (xs : Bytes) (t : ℕ) (p : BitchatPacket)
    → parse_bitchat_packet lz4 xs ≡ ok p
    → parse_bitchat_packet lz4 (set xs 2 t) ≡ ok (record p { ttl = t })
unfolding parse_bitchat_packet index slice
parse-set_ttl lz4 [] t p h = cc
parse-set_ttl lz4 (a ∷ []) t p h = cc
parse-set_ttl lz4 (a ∷ b ∷ []) t p h = cc
parse-set_ttl lz4 (a ∷ b ∷ c ∷ xs) t p h = ground arith
