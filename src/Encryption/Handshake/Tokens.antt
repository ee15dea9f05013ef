-- ===== src/Encryption/Handshake/Tokens.antt =====
-- What is encrypted under the key of a handshake and read back, and the tokens that carry a key.
use bitchat_node_daemon.Base.{
  ℕ, ◌+◌, ◌≡◌, refl, ap, true, false, some, ◌++◌, arith, ltb, ◌==◌, ge→ltb, length, take, drop,
  length-append, take-append, drop-append, ok,
}
use bitchat_node_daemon.Base.Bytes.{Bytes}
use bitchat_node_daemon.Encryption.Crypto.{Crypto, IsSound}
use bitchat_node_daemon.Encryption.Cipher.{
  no_cipher, has_key, nonce_bytes, cipher_encrypt, cipher_decrypt,
}
use bitchat_node_daemon.Encryption.Cipher.Sequence.{cipher_decrypt_lem}
use bitchat_node_daemon.Encryption.Handshake

module _ (c : Crypto) (sound : IsSound c) where
  -- A text that is encrypted under a key derived just before, and read back from the front of a buffer.
  pub keyed_encrypt :
      (t : Handshake.SymmetricState) (k p n : Bytes) (m : ℕ)
      → t.cipher_state ≡ record { key = some k; nonce = m }
      → nonce_bytes m ≡ ok n
      → Handshake.encrypt_and_hash c p t
        ≡ ok (
          c.seal k n p t.hash_state,
          record t {
            hash_state = c.sha256 (t.hash_state ++ c.seal k n p t.hash_state);
            cipher_state = record { key = some k; nonce = m + 1 };
          },
        )
  unfolding Handshake.encrypt_and_hash cipher_encrypt
  keyed_encrypt t k p n m h h' = simp (h, h', Handshake.encrypt_and_hash, cipher_encrypt)

  pub keyed_decrypt :
      (t : Handshake.SymmetricState) (k p n : Bytes) (m : ℕ)
      → t.cipher_state ≡ record { key = some k; nonce = m }
      → nonce_bytes m ≡ ok n
      → Handshake.decrypt_and_hash c (c.seal k n p t.hash_state) t
        ≡ ok (
          p,
          record t {
            hash_state = c.sha256 (t.hash_state ++ c.seal k n p t.hash_state);
            cipher_state = record { key = some k; nonce = m + 1 };
          },
        )
  unfolding Handshake.decrypt_and_hash cipher_decrypt
  keyed_decrypt t k p n m h h' =
      simp (h, h', sound.unseal-seal, Handshake.decrypt_and_hash, cipher_decrypt)

  abbrev pub sealed :
      Bytes → Bytes → ℕ → Bytes → Handshake.SymmetricState → Handshake.SymmetricState
  sealed k n m p t = record t {
    hash_state = c.sha256 (t.hash_state ++ c.seal k n p t.hash_state);
    cipher_state = record { key = some k; nonce = m + 1 };
  }

  pub plain_encrypt :
      (t : Handshake.SymmetricState) (p : Bytes)
      → t.cipher_state ≡ no_cipher
      → Handshake.encrypt_and_hash c p t ≡ ok (p, Handshake.mix_hash c p t)
  unfolding Handshake.encrypt_and_hash
  plain_encrypt t p h = simp (h, Handshake.encrypt_and_hash)

  pub plain_decrypt :
      (t : Handshake.SymmetricState) (p : Bytes)
      → t.cipher_state ≡ no_cipher
      → Handshake.decrypt_and_hash c p t ≡ ok (p, Handshake.mix_hash c p t)
  unfolding Handshake.decrypt_and_hash
  plain_decrypt t p h = simp (h, Handshake.decrypt_and_hash)

  pub read_ephemeral :
      (p rest : Bytes) (h : Handshake.HandshakeState)
      → length p ≡ 32
      → Handshake.read_token c Handshake.e (p ++ rest) h
        ≡ ok (
          rest,
          record h { remote_ephemeral = some p; symmetric = Handshake.mix_hash c p h.symmetric },
        )
  unfolding Handshake.read_token
  read_ephemeral p rest h l =
      let t : take 32 (p ++ rest) ≡ p = take-append 32 p rest l in
      let d : drop 32 (p ++ rest) ≡ rest = drop-append 32 p rest l in
      let big : ltb (length (p ++ rest)) 32 ≡ false =
        ge→ltb _ _ (rw (length-append p rest, l) omega arith) in
      let same : (length p == 32) ≡ true = rw l refl in
      rw (big, t, d, same, Handshake.read_token) refl

  pub read_static :
      (k n x rest : Bytes) (m : ℕ) (h : Handshake.HandshakeState)
      → h.symmetric.cipher_state ≡ record { key = some k; nonce = m }
      → nonce_bytes m ≡ ok n
      → length x ≡ 32
      → Handshake.read_token c Handshake.s (c.seal k n x h.symmetric.hash_state ++ rest) h
        ≡ ok (rest, record h { remote_static = some x; symmetric = sealed k n m x h.symmetric })
  unfolding Handshake.read_token
  read_static k n x rest m h keyed counted l =
      let z : Bytes = c.seal k n x h.symmetric.hash_state in
      let lz : length z ≡ 48 = rw (sound.length_seal k n x h.symmetric.hash_state, l) refl in
      let t : take 48 (z ++ rest) ≡ z = take-append 48 z rest lz in
      let d : drop 48 (z ++ rest) ≡ rest = drop-append 48 z rest lz in
      let big : ltb (length (z ++ rest)) 48 ≡ false =
        ge→ltb _ _ (rw (length-append z rest, lz) omega arith) in
      let same : (length x == 32) ≡ true = rw l refl in
      let has : has_key h.symmetric.cipher_state ≡ true = rw keyed refl in
      let dec =
        cipher_decrypt_lem c h.symmetric.cipher_state (ap (λ r. r.key) keyed) (rw keyed counted) x
          h.symmetric.hash_state z (sound.unseal-seal k n x h.symmetric.hash_state) in
      rw (has, big, t, d, dec, same, keyed, Handshake.read_token) refl
