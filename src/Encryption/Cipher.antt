-- ===== src/Encryption/Cipher.antt =====
-- `NoiseCipherState` and `NoiseSession`: a key and a counter that is the nonce.
pub mod Sequence
use bitchat_node_daemon.Base.{
  ℕ, ◌+◌, ◌/◌, ◌%◌, ◌^◌, Bool, Option, none, some, ◌∷◌, ltb, if◌then◌else◌, is_some, Result, ok,
  err, noise_error, invalid_tag, overflow_error, [],
}
use bitchat_node_daemon.Base.Bytes.{Bytes, Text}
use bitchat_node_daemon.Encryption.Crypto.{Crypto}

pub record CipherState : Type 0 where
  pub key : Option Bytes
  pub nonce : ℕ

abbrev pub no_cipher : CipherState
no_cipher = record { key = none; nonce = 0 }

abbrev pub initialize_key : Bytes → CipherState
initialize_key k = record { key = some k; nonce = 0 }

abbrev pub has_key : CipherState → Bool
has_key s = is_some s.key

-- Four zero bytes and `nonce.to_bytes(8, byteorder='little')`
unfoldable pub nonce_bytes : ℕ → Result Bytes
nonce_bytes n =
    if ltb n (2 ^ 64)
    then ok (
        0
        ∷ 0
        ∷ 0
        ∷ 0
        ∷ n % 256
        ∷ n / 2 ^ 8 % 256
        ∷ n / 2 ^ 16 % 256
        ∷ n / 2 ^ 24 % 256
        ∷ n / 2 ^ 32 % 256
        ∷ n / 2 ^ 40 % 256
        ∷ n / 2 ^ 48 % 256
        ∷ n / 2 ^ 56 % 256
        ∷ [])
    else err overflow_error

abbrev pub tick : CipherState → CipherState
tick s = record s { nonce = s.nonce + 1 }

module _ (c : Crypto) where
  unfoldable pub cipher_encrypt : Bytes → Bytes → CipherState → Result Bytes × CipherState
  cipher_encrypt plaintext associated_data s = elim s.key [
    | none ↦ (err noise_error, s)
    | some k ↦ elim (nonce_bytes s.nonce) [
      | err e ↦ (err e, s)
      | ok n ↦ (ok (c.seal k n plaintext associated_data), tick s)
    ]
  ]

  -- The counter goes on after a failure, too.
  unfoldable pub cipher_decrypt : Bytes → Bytes → CipherState → Result Bytes × CipherState
  cipher_decrypt ciphertext associated_data s = elim s.key [
    | none ↦ (err noise_error, s)
    | some k ↦ elim (nonce_bytes s.nonce) [
      | err e ↦ (err e, s)
      | ok n ↦ elim (c.unseal k n ciphertext associated_data) [
        | none ↦ (err invalid_tag, tick s)
        | some p ↦ (ok p, tick s)
      ]
    ]
  ]

pub record NoiseSession : Type 0 where
  pub peer_id : Text
  pub send_cipher : CipherState
  pub receive_cipher : CipherState
  pub remote_static_key : Bytes
  pub established_time : ℕ

module _ (c : Crypto) where
  unfoldable pub session_encrypt : Bytes → NoiseSession → Result Bytes × NoiseSession
  unfolding cipher_encrypt
  session_encrypt plaintext s =
      let (r, cipher) = cipher_encrypt c plaintext [] s.send_cipher in
      (r, record s { send_cipher = cipher })

  unfoldable pub session_decrypt : Bytes → NoiseSession → Result Bytes × NoiseSession
  unfolding cipher_decrypt
  session_decrypt ciphertext s =
      let (r, cipher) = cipher_decrypt c ciphertext [] s.receive_cipher in
      (r, record s { receive_cipher = cipher })
