-- ===== src/Protocol/Identity/RoundTrip.antt =====
-- The writer and the reader of identity announcements of bitchat/protocol.py together.
use bitchat_node_daemon.Base.{
  ℕ, ◌+◌, ◌*◌, ◌^◌, ◌<◌, ◌≡◌, Option, none, some, [], ◌∷◌, ◌++◌, if◌then◌else◌, length, ok,
}
use bitchat_node_daemon.Base.Bytes.{Bytes, Text, bytes_u64}
use bitchat_node_daemon.Base.Hex.{hex}
use bitchat_node_daemon.Base.Utf8.{encode}
use bitchat_node_daemon.Protocol.Types.{truthy}
use bitchat_node_daemon.Protocol.Identity.{Announcement}
use bitchat_node_daemon.Protocol.Identity.Write.{peer_data, write_previous}

module _ (peer_id : Text) (public_key signing_public_key : Bytes) (nickname : Text) (timestamp : ℕ)
    (signature : Bytes) (previous : Option Text) (peer nickname_b previous_b : Bytes)
    (peer_enc : peer_data peer_id ≡ ok peer) (peer_len : length peer ≡ 8)
    (key_fits : length public_key < 256) (signing_fits : length signing_public_key < 256)
    (nickname_enc : encode nickname ≡ ok nickname_b) (nickname_fits : length nickname_b < 256)
    (in_time : timestamp * 1000 < 2 ^ 64) (previous_enc : write_previous previous ≡ ok previous_b)
    (previous_len : length previous_b ≡ (if truthy previous then 8 else 0))
    (signature_fits : length signature < 256) where
  abbrev signature_field : Bytes
  signature_field = length signature ∷ (signature ++ [])

  abbrev after_nickname : Bytes
  after_nickname = bytes_u64 (timestamp * 1000) ++ (previous_b ++ signature_field)

  abbrev after_signing : Bytes
  after_signing = length nickname_b ∷ (nickname_b ++ after_nickname)

  abbrev after_key : Bytes
  after_key = length signing_public_key ∷ (signing_public_key ++ after_signing)

  abbrev whole : Bytes
  whole =
      (if truthy previous then 1 else 0) ∷ (peer ++ (length public_key ∷ (public_key ++ after_key)))

  abbrev o₁ : ℕ
  o₁ = 9 + 1 + length public_key

  abbrev o₂ : ℕ
  o₂ = o₁ + 1 + length signing_public_key

  abbrev o₃ : ℕ
  o₃ = o₂ + 1 + length nickname_b

  abbrev announced : Announcement
  announced = record {
    peer_id = hex peer;
    public_key = hex public_key;
    signing_public_key = hex signing_public_key;
    nickname = nickname;
    timestamp = record { whole = timestamp; thousandths = 0 };
    signature = hex signature;
    previous_peer_id = if truthy previous then some (hex previous_b) else none;
  }
