-- ===== src/Persistence/Passwords.antt =====
-- The passwords of bitchat/persistence.py, encrypted and read back.
use bitchat_node_daemon.Base.{
  ℕ, ◌≡◌, refl, ◌∙◌, true, List, [], ◌∷◌, lt→ltb, length, All, ok, >>=-eq-ok, ok-injective,
}
use bitchat_node_daemon.Base.Bytes.{Bytes, Text, IsByte}
use bitchat_node_daemon.Base.Utf8.{encode, strict, decode, decode-encode, encode-IsByte}
use bitchat_node_daemon.Persistence.{
  EncryptedPassword, Vault, IsSound, all_bytes, to_bytes, derive_encryption_key, encrypt_password,
  decrypt_password,
}

all_bytes_lem : (xs : List ℕ) → All IsByte xs → all_bytes xs ≡ true
unfolding all_bytes
all_bytes_lem [] h = refl
all_bytes_lem (x ∷ xs) (h, hs) = rw (lt→ltb x 256 h) (all_bytes_lem xs hs)

to_bytes_lem : (xs : List ℕ) → All IsByte xs → to_bytes xs ≡ ok xs
unfolding to_bytes
to_bytes_lem xs h = rw (all_bytes_lem xs h) refl

module _ (v : Vault) (sound : IsSound v) where
  opened :
      (encrypted : EncryptedPassword) (identity_key : List ℕ) (key : Bytes) (plaintext : Bytes)
      → to_bytes identity_key ≡ ok key
      → All IsByte encrypted.nonce
      → All IsByte encrypted.ciphertext
      → v.unseal (derive_encryption_key v key) encrypted.nonce encrypted.ciphertext ≡ ok plaintext
      → decrypt_password v encrypted identity_key ≡ decode strict plaintext
  unfolding decrypt_password
  opened encrypted identity_key key plaintext k n c u =
      rw (k, to_bytes_lem encrypted.nonce n, to_bytes_lem encrypted.ciphertext c, u) refl

  -- Under a nonce of 12 bytes, a password that was encrypted is decrypted with the same identity
  -- key.
  pub decrypt-encrypt_password :
      (nonce : Bytes) (password : Text) (identity_key : List ℕ) (encrypted : EncryptedPassword)
      → length nonce ≡ 12
      → All IsByte nonce
      → encrypt_password v nonce password identity_key ≡ ok encrypted
      → decrypt_password v encrypted identity_key ≡ ok password
  unfolding encrypt_password
  decrypt-encrypt_password nonce password identity_key encrypted len bytes e =
      let (key, k, e1) = >>=-eq-ok (to_bytes identity_key) _ e in
      let (plaintext, p, e2) = >>=-eq-ok (encode password) _ e1 in
      let box : Bytes = v.seal (derive_encryption_key v key) nonce plaintext in
      let made : EncryptedPassword = record { nonce = nonce; ciphertext = box } in
      let e3 : made ≡ encrypted = ok-injective e2 in
      rw⁻¹ e3 (
        opened made identity_key key plaintext k bytes
          (sound.seal-IsByte (derive_encryption_key v key) nonce plaintext
            (encode-IsByte password plaintext p))
          (sound.unseal-seal (derive_encryption_key v key) nonce plaintext len)
        ∙ decode-encode strict password plaintext p)
