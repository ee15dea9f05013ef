-- ===== src/Compression.antt =====
-- bitchat/compression.py, over the LZ4 library, which is not part of the repository.
pub mod Laws
use bitchat_node_daemon.Base.{
  ℕ, ◌≡◌, Bool, true, false, Option, none, some, Result, ok, err, value_error, length, ltb,
  if◌then◌else◌,
}
use bitchat_node_daemon.Base.Bytes.{Bytes}

-- `lz4.frame`: `decompress` is `none` where the library raises.
pub record Lz4 : Type 0 where
  pub compress : Bytes → Bytes
  pub decompress : Bytes → Option Bytes

-- What the library documents: a frame that `compress` wrote is read back.
abbrev pub Reads : Lz4 → Type 0
Reads lz4 = (data_ : Bytes) → lz4.decompress (lz4.compress data_) ≡ some data_

abbrev pub compression_threshold : ℕ
compression_threshold = 100

module _ (lz4 : Lz4) where
  unfoldable pub compress_if_beneficial : Bytes → Bytes × Bool
  compress_if_beneficial xs =
      if ltb (length xs) compression_threshold
      then (xs, false)
      else (let compressed = lz4.compress xs in
          if ltb (length compressed) (length xs) then (compressed, true) else (xs, false))

  -- Whatever the library raises becomes a `ValueError`.
  unfoldable pub decompress : Bytes → Result Bytes
  decompress xs = elim (lz4.decompress xs) [ none ↦ err value_error | some ys ↦ ok ys ]
