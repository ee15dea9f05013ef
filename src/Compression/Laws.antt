-- ===== src/Compression/Laws.antt =====
-- compress_if_beneficial and decompress of bitchat/compression.py together.
use bitchat_node_daemon.Base.{◌≡◌, ◌≤◌, ok, length, arith, if◌then◌else◌}
use bitchat_node_daemon.Base.Bytes.{Bytes}
use bitchat_node_daemon.Compression.{Lz4, Reads, compress_if_beneficial, decompress}

-- The result is at most as long as the data, and reading it back by its flag gives the data, given
-- that the library reads what it writes.
pub decompress-compress_if_beneficial :
    (lz4 : Lz4) (xs : Bytes)
    → Reads lz4
    → (length (compress_if_beneficial lz4 xs).0 ≤ length xs)
      × ((if (compress_if_beneficial lz4 xs).1
            then decompress lz4 (compress_if_beneficial lz4 xs).0
            else ok (compress_if_beneficial lz4 xs).0)
          ≡ ok xs)
unfolding compress_if_beneficial decompress
decompress-compress_if_beneficial lz4 xs reads = ground (arith, reads xs)
