-- ===== src/Encryption/Channel.antt =====
-- The channel methods of `EncryptionService`: a nonce of 12 bytes, then the sealed text.
-- `ChaCha20Poly1305(key)` raises ValueError where the key has not 32 bytes.
use bitchat_node_daemon.Base.{
  ap, true, ◌==◌, inl, inr, Bool-cases, Error, ◌≡◌, refl, sym, ◌∙◌, false, Option, none, some, [],
  ◌++◌, arith, ltb, if◌then◌else◌, ge→ltb, length, take, drop, length-append, take-append,
  drop-append, Result, ok, err, ◌>>=◌, ok-injective, value_error, invalid_tag,
}
use bitchat_node_daemon.Base.Bytes.{Bytes, Text}
use bitchat_node_daemon.Base.Utf8.{encode, strict, decode, decode-encode}
use bitchat_node_daemon.Encryption.Crypto.{Crypto, IsSound}

module _ (c : Crypto) where
  -- `nonce` is the result of `os.urandom(12)`.
  seal_with : Bytes → Bytes → Bytes → Bytes
  seal_with nonce plain key = nonce ++ c.seal key nonce plain []

  unfoldable pub encrypt_with_key : Bytes → Bytes → Bytes → Result Bytes
  unfolding seal_with
  encrypt_with_key nonce plain key =
      if length key == 32 then ok (seal_with nonce plain key) else err value_error

  unfoldable pub encrypt_for_channel : Bytes → Text → Bytes → Result Bytes
  unfolding seal_with
  encrypt_for_channel nonce text key =
      if length key == 32
      then (encode text >>= λ plain. ok (seal_with nonce plain key))
      else err value_error

  open_sealed : Option Bytes → Result Text
  open_sealed none = err invalid_tag
  open_sealed (some plain) = decode strict plain

  unfoldable pub decrypt_from_channel : Bytes → Bytes → Result Text
  unfolding open_sealed
  decrypt_from_channel sealed key =
      if ltb (length sealed) 12
      then err value_error
      else if length key == 32
      then open_sealed (c.unseal key (take 12 sealed) (drop 12 sealed) [])
      else err value_error

-- `derive_channel_key`, where `pbkdf2 password salt` is PBKDF2 with SHA-256, 100,000 rounds and 32
-- bytes of output.
unfoldable pub derive_channel_key : (Bytes → Bytes → Bytes) → Text → Text → Result Bytes
derive_channel_key pbkdf2 password channel = do
  salt ← encode channel
  secret ← encode password
  ok (pbkdf2 secret salt)

err-ok : {x : Bytes} {e : Error} → err e ≡ ok x → ⊥
err-ok h = cc

module _ (c : Crypto) (sound : IsSound c) where
  decrypt-seal_with :
      (nonce plain key : Bytes)
      → length nonce ≡ 12
      → (length key == 32) ≡ true
      → decrypt_from_channel c (seal_with c nonce plain key) key ≡ decode strict plain
  unfolding decrypt_from_channel seal_with open_sealed
  decrypt-seal_with nonce plain key len fits =
      let box = c.seal key nonce plain [] in
      let long : ltb (length (nonce ++ box)) 12 ≡ false =
        ge→ltb (length (nonce ++ box)) 12 (omega (arith, length-append nonce box)) in
      rw
        (
          long,
          fits,
          take-append 12 nonce box len,
          drop-append 12 nonce box len,
          sound.unseal-seal key nonce plain [],
        )
        refl

  -- What was encrypted for a channel had a key of 32 bytes and is the sealed text.
  encrypt_for_channel-ok :
      (nonce : Bytes) (text : Text) (key plain sealed : Bytes)
      → encode text ≡ ok plain
      → encrypt_for_channel c nonce text key ≡ ok sealed
      → ((length key == 32) ≡ true) × (seal_with c nonce plain key ≡ sealed)
  unfolding encrypt_for_channel
  encrypt_for_channel-ok nonce text key plain sealed e h = elim (Bool-cases (length key == 32)) [
    | inl fits ↦ (fits, ok-injective (rw (fits, e) at h))
    | inr wrong ↦ absurd (err-ok (rw wrong at h))
  ]

  -- Under a nonce of 12 bytes a message that was encrypted for a channel is decrypted with the key of the
  -- channel, and a UTF-8 text that is encrypted with the key alone is decrypted in the same way.
  pub decrypt-encrypt_for_channel :
      (nonce : Bytes) (text : Text) (key plain sealed : Bytes)
      → length nonce ≡ 12
      → encode text ≡ ok plain
      → encrypt_for_channel c nonce text key ≡ ok sealed
      → (decrypt_from_channel c sealed key ≡ ok text)
        × ((encrypt_with_key c nonce plain key >>= λ s. decrypt_from_channel c s key) ≡ ok text)
  unfolding encrypt_with_key
  decrypt-encrypt_for_channel nonce text key plain sealed len e h =
      let (fits, same) = encrypt_for_channel-ok nonce text key plain sealed e h in
      let opened : decrypt_from_channel c (seal_with c nonce plain key) key ≡ ok text =
        decrypt-seal_with nonce plain key len fits ∙ decode-encode strict text plain e in
      (ap (λ s. decrypt_from_channel c s key) (sym same) ∙ opened, rw fits opened)
