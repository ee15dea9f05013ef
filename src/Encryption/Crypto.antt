-- ===== src/Encryption/Crypto.antt =====
-- What bitchat/encryption.py takes from the `cryptography` package and from `hashlib`.
use bitchat_node_daemon.Base.{◌+◌, ◌≡◌, Option, some, length}
use bitchat_node_daemon.Base.Bytes.{Bytes}

-- Keys are their raw bytes. `dh private public` is `none` where the exchange raises; `unseal` is
-- `none` where the tag does not fit.
pub record Crypto : Type 0 where
  pub public_key : Bytes → Bytes
  pub dh : Bytes → Bytes → Option Bytes
  pub hmac : Bytes → Bytes → Bytes
  pub sha256 : Bytes → Bytes
  pub seal : Bytes → Bytes → Bytes → Bytes → Bytes
  pub unseal : Bytes → Bytes → Bytes → Bytes → Option Bytes

-- What X25519 and ChaCha20-Poly1305 promise: a public key has 32 bytes, a Diffie-Hellman exchange
-- gives both sides one secret, a sealed text has a tag of 16 bytes and is opened under the same
-- key, nonce and associated data.
pub record IsSound (c : Crypto) : Type 0 where
  pub length_public_key : (k : Bytes) → length (c.public_key k) ≡ 32
  pub exchange :
      (a b : Bytes)
      → (s : Bytes) × (c.dh a (c.public_key b) ≡ some s) × (c.dh b (c.public_key a) ≡ some s)
  pub length_seal : (k n p ad : Bytes) → length (c.seal k n p ad) ≡ length p + 16
  pub unseal-seal : (k n p ad : Bytes) → c.unseal k n (c.seal k n p ad) ad ≡ some p
