-- ===== src/Encryption/Handshake.antt =====
-- `NoiseHandshakeState`: the three messages of the Noise XX pattern. An exception leaves no state:
-- the service deletes a handshake that raised.
pub mod Tokens
pub mod Messages
use bitchat_node_daemon.Base.{
  ℕ, ◌+◌, ◌-◌, Bool, not, Option, none, some, List, ◌∷◌, ◌++◌, ltb, leb, ◌==◌, if◌then◌else◌,
  length, get_elem?, take, drop, replicate, Result, ok, err, ◌>>=◌, guard, value_error, noise_error,
  [], ◌>>◌,
}
use bitchat_node_daemon.Base.Bytes.{Bytes}
use bitchat_node_daemon.Encryption.Crypto.{Crypto}
use bitchat_node_daemon.Encryption.Cipher.{
  CipherState, no_cipher, initialize_key, has_key, cipher_encrypt, cipher_decrypt,
}

pub data Role : Type 0 where
  initiator responder : Role

-- The tokens 'e', 's', 'ee', 'es' and 'se'.
pub data Token : Type 0 where
  e s ee es se : Token

-- `_get_xx_patterns`
abbrev pub message_patterns : List (List Token)
message_patterns = (e ∷ []) ∷ (e ∷ ee ∷ s ∷ es ∷ []) ∷ (s ∷ se ∷ []) ∷ []

pub record SymmetricState : Type 0 where
  pub chaining_key : Bytes
  pub hash_state : Bytes
  pub cipher_state : CipherState

pub record HandshakeState : Type 0 where
  pub role : Role
  pub local_static : Bytes
  pub remote_static : Option Bytes
  pub local_ephemeral : Option Bytes
  pub remote_ephemeral : Option Bytes
  pub symmetric : SymmetricState
  pub current_pattern : ℕ

-- "Noise_XX_25519_ChaChaPoly_SHA256", which has 32 bytes
abbrev noise_protocol_name : Bytes
noise_protocol_name =
    78 ∷ 111 ∷ 105 ∷ 115 ∷ 101 ∷ 95 ∷ 88 ∷ 88 ∷ 95 ∷ 50 ∷ 53 ∷ 53 ∷ 49 ∷ 57 ∷ 95 ∷ 67 ∷ 104 ∷ 97
    ∷ 67 ∷ 104 ∷ 97 ∷ 80 ∷ 111 ∷ 108 ∷ 121 ∷ 95 ∷ 83 ∷ 72 ∷ 65 ∷ 50 ∷ 53 ∷ 54 ∷ []

module _ (c : Crypto) where
  -- `_initialize_symmetric_state`
  unfoldable pub initialize_symmetric_state : SymmetricState
  initialize_symmetric_state =
      let h : Bytes =
        if leb (length noise_protocol_name) 32
        then noise_protocol_name ++ replicate (32 - length noise_protocol_name) 0
        else c.sha256 noise_protocol_name in
      record { chaining_key = h; hash_state = h; cipher_state = no_cipher }

  abbrev pub new_handshake : Role → Bytes → HandshakeState
  new_handshake r k = record {
    role = r;
    local_static = k;
    remote_static = none;
    local_ephemeral = none;
    remote_ephemeral = none;
    symmetric = initialize_symmetric_state;
    current_pattern = 0;
  }

  -- The two outputs that `_mix_key` and `get_transport_ciphers` derive.
  unfoldable pub derive : Bytes → Bytes → Bytes × Bytes
  derive chaining_key input =
      let temp_key = c.hmac chaining_key input in
      let output1 = c.hmac temp_key (1 ∷ []) in (output1, c.hmac temp_key (output1 ++ 2 ∷ []))

  abbrev pub mix_key : Bytes → SymmetricState → SymmetricState
  mix_key input t =
      let (output1, output2) = derive t.chaining_key input in
      record t { chaining_key = output1; cipher_state = initialize_key output2 }

  abbrev pub mix_hash : Bytes → SymmetricState → SymmetricState
  mix_hash x t = record t { hash_state = c.sha256 (t.hash_state ++ x) }

  unfoldable pub mix_key_and_hash : Bytes → SymmetricState → SymmetricState
  mix_key_and_hash input t =
      let temp_key = c.hmac t.chaining_key input in
      let output1 = c.hmac temp_key (1 ∷ []) in
      let output2 = c.hmac temp_key (output1 ++ 2 ∷ []) in
      let output3 = c.hmac temp_key (output2 ++ 3 ∷ []) in
      record (mix_hash output2 (record t { chaining_key = output1 })) {
        cipher_state = initialize_key output3;
      }

  unfoldable pub encrypt_and_hash : Bytes → SymmetricState → Result (Bytes × SymmetricState)
  unfolding cipher_encrypt
  encrypt_and_hash plaintext t =
      if has_key t.cipher_state
      then (let (r, cipher) = cipher_encrypt c plaintext t.hash_state t.cipher_state in
          r >>= λ x. ok (x, mix_hash x (record t { cipher_state = cipher })))
      else ok (plaintext, mix_hash plaintext t)

  unfoldable pub decrypt_and_hash : Bytes → SymmetricState → Result (Bytes × SymmetricState)
  unfolding cipher_decrypt
  decrypt_and_hash ciphertext t =
      if has_key t.cipher_state
      then (let (r, cipher) = cipher_decrypt c ciphertext t.hash_state t.cipher_state in
          r >>= λ p. ok (p, mix_hash ciphertext (record t { cipher_state = cipher })))
      else ok (ciphertext, mix_hash ciphertext t)

  -- `_dh` with the check for missing keys before it.
  unfoldable pub exchange_keys : Option Bytes → Option Bytes → Result Bytes
  exchange_keys none public = err noise_error
  exchange_keys (some k) none = err noise_error
  exchange_keys (some k) (some p) = elim (c.dh k p) [ none ↦ err value_error | some x ↦ ok x ]

  -- The secrets of 'es' and 'se' depend on the role.
  unfoldable pub es_secret : Role → HandshakeState → Result Bytes
  unfolding exchange_keys
  es_secret initiator h = exchange_keys h.local_ephemeral h.remote_static
  es_secret responder h = exchange_keys (some h.local_static) h.remote_ephemeral

  unfoldable pub se_secret : Role → HandshakeState → Result Bytes
  unfolding exchange_keys
  se_secret initiator h = exchange_keys (some h.local_static) h.remote_ephemeral
  se_secret responder h = exchange_keys h.local_ephemeral h.remote_static

  abbrev pub mix_secret : Result Bytes → HandshakeState → Result HandshakeState
  mix_secret shared h = shared >>= λ x. ok (record h { symmetric = mix_key x h.symmetric })

  -- One token of `write_message`: what it sends, and the state after it; `fresh` is the private
  -- key that `X25519PrivateKey.generate` returns.
  unfoldable pub write_token : Bytes → Token → HandshakeState → Result (Bytes × HandshakeState)
  unfolding encrypt_and_hash es_secret se_secret exchange_keys
  write_token fresh e h =
      let public = c.public_key fresh in
      ok
        (public, record h { local_ephemeral = some fresh; symmetric = mix_hash public h.symmetric })
  write_token fresh s h = do
    (x, t) ← encrypt_and_hash (c.public_key h.local_static) h.symmetric
    ok (x, record h { symmetric = t })
  write_token fresh ee h = do
    h' ← mix_secret (exchange_keys h.local_ephemeral h.remote_ephemeral) h
    ok ([], h')
  write_token fresh es h = do h' ← mix_secret (es_secret h.role h) h; ok ([], h')
  write_token fresh se h = do h' ← mix_secret (se_secret h.role h) h; ok ([], h')

  -- The loop over the tokens of a message.
  unfoldable pub write_tokens :
      Bytes → List Token → HandshakeState → Result (Bytes × HandshakeState)
  unfolding write_token
  write_tokens fresh [] h = ok ([], h)
  write_tokens fresh (t ∷ ts) h = do
    (x, h') ← write_token fresh t h
    (y, h'') ← write_tokens fresh ts h'
    ok (x ++ y, h'')

  unfoldable pub write_message : Bytes → Bytes → HandshakeState → Result (Bytes × HandshakeState)
  unfolding write_tokens encrypt_and_hash
  write_message fresh payload h = elim (get_elem? message_patterns h.current_pattern) [
    | none ↦ err noise_error
    | some ts ↦ do
      (x, h') ← write_tokens fresh ts h
      (y, t) ← encrypt_and_hash payload h'.symmetric
      ok (x ++ y, record h' { symmetric = t; current_pattern = h'.current_pattern + 1 })
  ]

  -- `X25519PublicKey.from_public_bytes`
  abbrev from_public_bytes : Bytes → Result Bytes
  from_public_bytes x = if length x == 32 then ok x else err value_error

  -- One token of `read_message`: the rest of the buffer, and the state after it.
  unfoldable pub read_token : Token → Bytes → HandshakeState → Result (Bytes × HandshakeState)
  unfolding decrypt_and_hash es_secret se_secret exchange_keys
  read_token e buffer h = do
    guard (not (ltb (length buffer) 32)) noise_error
    public ← from_public_bytes (take 32 buffer)
    ok (
      drop 32 buffer,
      record h {
        remote_ephemeral = some public;
        symmetric = mix_hash (take 32 buffer) h.symmetric;
      },
    )
  read_token s buffer h = do
    let key_length : ℕ = if has_key h.symmetric.cipher_state then 48 else 32
    guard (not (ltb (length buffer) key_length)) noise_error
    (x, t) ← decrypt_and_hash (take key_length buffer) h.symmetric
    public ← from_public_bytes x
    ok (drop key_length buffer, record h { remote_static = some public; symmetric = t })
  read_token ee buffer h = do
    h' ← mix_secret (exchange_keys h.local_ephemeral h.remote_ephemeral) h
    ok (buffer, h')
  read_token es buffer h = do h' ← mix_secret (es_secret h.role h) h; ok (buffer, h')
  read_token se buffer h = do h' ← mix_secret (se_secret h.role h) h; ok (buffer, h')

  unfoldable pub read_tokens : List Token → Bytes → HandshakeState → Result (Bytes × HandshakeState)
  unfolding read_token
  read_tokens [] buffer h = ok (buffer, h)
  read_tokens (t ∷ ts) buffer h = do (rest, h') ← read_token t buffer h; read_tokens ts rest h'

  unfoldable pub read_message : Bytes → HandshakeState → Result (Bytes × HandshakeState)
  unfolding read_tokens decrypt_and_hash
  read_message message h = elim (get_elem? message_patterns h.current_pattern) [
    | none ↦ err noise_error
    | some ts ↦ do
      (rest, h') ← read_tokens ts message h
      (payload, t) ← decrypt_and_hash rest h'.symmetric
      ok (payload, record h' { symmetric = t; current_pattern = h'.current_pattern + 1 })
  ]

  abbrev pub is_handshake_complete : HandshakeState → Bool
  is_handshake_complete h = leb (length message_patterns) h.current_pattern

  abbrev directed : Role → CipherState → CipherState → CipherState × CipherState
  directed initiator c1 c2 = (c1, c2)
  directed responder c1 c2 = (c2, c1)

  -- The ciphers to send with and to receive with.
  unfoldable pub get_transport_ciphers : HandshakeState → Result (CipherState × CipherState)
  unfolding derive
  get_transport_ciphers h =
      if is_handshake_complete h
      then (let (key1, key2) = derive h.symmetric.chaining_key [] in
          ok (directed h.role (initialize_key key1) (initialize_key key2)))
      else err noise_error
