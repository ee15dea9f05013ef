-- ===== src/Protocol/Identity/Write.antt =====
-- The writer of identity announcements.
use bitchat_node_daemon.Base.{
  ℕ, ◌-◌, ◌*◌, Option, none, some, [], ◌∷◌, ◌++◌, if◌then◌else◌, length, take, replicate, Result,
  ok, ◌>>=◌,
}
use bitchat_node_daemon.Base.Bytes.{Bytes, Text, bytes_u64, byte}
use bitchat_node_daemon.Base.Hex.{from_hex}
use bitchat_node_daemon.Base.Utf8.{encode}
use bitchat_node_daemon.Protocol.Types.{truthy}

-- `bytes.fromhex(peer_id.ljust(16, '0')[:16])`
unfoldable pub peer_data : Text → Result Bytes
peer_data t = from_hex (take 16 (t ++ replicate (16 - length t) b'0'))

-- `data.append(len(field)); data.extend(field)`
unfoldable pub write_field : Bytes → Result Bytes
write_field xs = do n ← byte (length xs); ok (n ++ xs)

unfoldable pub write_previous : Option Text → Result Bytes
write_previous none = ok []
write_previous (some []) = ok []
write_previous (some (c ∷ cs)) = peer_data (c ∷ cs)

-- The loop over `(timestamp_ms >> ((7 - i) * 8)) & 0xFF` keeps the low 64 bits.
unfoldable pub encode_noise_identity_announcement_binary :
    Text → Bytes → Bytes → Text → ℕ → Bytes → Option Text → Result Bytes
encode_noise_identity_announcement_binary peer_id public_key signing_public_key nickname timestamp
      signature previous =
    do
      let flags : ℕ = if truthy previous then 1 else 0
      peer ← peer_data peer_id
      key_field ← write_field public_key
      signing_field ← write_field signing_public_key
      nickname_bytes ← encode nickname
      nickname_field ← write_field nickname_bytes
      let timestamp_ms = timestamp * 1000
      previous_field ← write_previous previous
      signature_field ← write_field signature
      ok (
          flags
          ∷ (peer
              ++ (key_field
                  ++ (signing_field
                      ++ (nickname_field
                          ++ (bytes_u64 timestamp_ms ++ (previous_field ++ signature_field)))))))
