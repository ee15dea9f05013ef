-- ===== src/Encryption/Handshake/Messages.antt =====
-- What each message of a handshake does to the state of the end that writes it and of the end that
-- reads it.
use bitchat_node_daemon.Base.{
  ℕ, ◌≡◌, refl, subst, Option, none, some, [], ◌∷◌, ◌++◌, append_assoc, append-nil, length,
  replicate, ok,
}
use bitchat_node_daemon.Base.Bytes.{Bytes}
use bitchat_node_daemon.Encryption.Crypto.{Crypto, IsSound}
use bitchat_node_daemon.Encryption.Cipher.{no_cipher, nonce_bytes}
use bitchat_node_daemon.Encryption.Handshake
use bitchat_node_daemon.Encryption.Handshake.Tokens.{
  keyed_encrypt, keyed_decrypt, plain_encrypt, plain_decrypt, read_ephemeral, read_static, sealed,
}

module _ (c : Crypto) (sound : IsSound c) where
  abbrev zero_nonce : Bytes
  zero_nonce = replicate 12 0

  abbrev one_nonce : Bytes
  one_nonce = replicate 4 0 ++ 1 ∷ replicate 7 0

  zero_counted : nonce_bytes 0 ≡ ok zero_nonce
  unfolding nonce_bytes
  zero_counted = refl

  one_counted : nonce_bytes 1 ≡ ok one_nonce
  unfolding nonce_bytes
  one_counted = refl

  abbrev pub derived : Bytes → Handshake.SymmetricState → Bytes
  derived x t = (Handshake.derive c t.chaining_key x).1

  -- The symmetric state after each message, from the one before it.
  abbrev pub first : Bytes → Handshake.SymmetricState → Handshake.SymmetricState
  first public t = Handshake.mix_hash c [] (Handshake.mix_hash c public t)

  abbrev pub second_static :
      Bytes → Bytes → Bytes → Handshake.SymmetricState → Handshake.SymmetricState
  second_static public static x t =
      let t' = Handshake.mix_key c x (Handshake.mix_hash c public t) in
      sealed c sound (derived x t) zero_nonce 0 static t'

  abbrev pub second_message : Bytes → Bytes → Bytes → Bytes → Handshake.SymmetricState → Bytes
  second_message public static x y t =
      let t' = Handshake.mix_key c x (Handshake.mix_hash c public t) in
      let t'' = second_static public static x t in
      public
      ++ (c.seal (derived x t) zero_nonce static t'.hash_state
          ++ c.seal (derived y t'') zero_nonce [] t''.hash_state)

  abbrev pub second :
      Bytes → Bytes → Bytes → Bytes → Handshake.SymmetricState → Handshake.SymmetricState
  second public static x y t =
      let t'' = second_static public static x t in
      sealed c sound (derived y t'') zero_nonce 0 [] (Handshake.mix_key c y t'')

  abbrev pub state :
      Handshake.Role
      → Bytes
      → Option Bytes
      → Option Bytes
      → Option Bytes
      → Handshake.SymmetricState
      → ℕ
      → Handshake.HandshakeState
  state r k rs le re t n = record {
    role = r;
    local_static = k;
    remote_static = rs;
    local_ephemeral = le;
    remote_ephemeral = re;
    symmetric = t;
    current_pattern = n;
  }

  pub write_first :
      (a ea : Bytes) (t : Handshake.SymmetricState)
      → t.cipher_state ≡ no_cipher
      → Handshake.write_message c ea [] (state Handshake.initiator a none none none t 0)
        ≡ ok (
          c.public_key ea,
          state Handshake.initiator a none (some ea) none (first (c.public_key ea) t) 1,
        )
  unfolding Handshake.write_message Handshake.write_tokens Handshake.write_token
  write_first a ea t h =
      let p = c.public_key ea in
      rw (plain_encrypt c sound (Handshake.mix_hash c p t) [] h, append-nil (p ++ []), append-nil p)
        refl

  pub read_first :
      (b p : Bytes) (t : Handshake.SymmetricState)
      → length p ≡ 32
      → t.cipher_state ≡ no_cipher
      → Handshake.read_message c p (state Handshake.responder b none none none t 0)
        ≡ ok ([], state Handshake.responder b none none (some p) (first p t) 1)
  unfolding Handshake.read_message Handshake.read_tokens
  read_first b p t l h =
      let st = state Handshake.responder b none none none t 0 in
      let r : Handshake.read_token c Handshake.e p st
          ≡ ok ([], record st { remote_ephemeral = some p; symmetric = Handshake.mix_hash c p t }) =
        subst
          (λ q.
            Handshake.read_token c Handshake.e q st
            ≡ ok
                ([], record st { remote_ephemeral = some p; symmetric = Handshake.mix_hash c p t }))
          (append-nil p) (read_ephemeral c sound p [] st l) in
      rw (r, plain_decrypt c sound (Handshake.mix_hash c p t) [] h) refl

  pub write_second :
      (b eb p x y : Bytes) (t : Handshake.SymmetricState)
      → c.dh eb p ≡ some x
      → c.dh b p ≡ some y
      → Handshake.write_message c eb [] (state Handshake.responder b none none (some p) t 1)
        ≡ ok (
          second_message (c.public_key eb) (c.public_key b) x y t,
          state Handshake.responder b none
              (some eb)
              (some p)
              (second (c.public_key eb) (c.public_key b) x y t)
              2,
        )
  unfolding Handshake.write_message Handshake.write_tokens Handshake.write_token
      Handshake.exchange_keys Handshake.es_secret
  write_second b eb p x y t d d' =
      let q = c.public_key eb in
      let t' = Handshake.mix_key c x (Handshake.mix_hash c q t) in
      let t'' = Handshake.mix_key c y (second_static q (c.public_key b) x t) in
      let one =
        keyed_encrypt c sound t' (derived x t) (c.public_key b) zero_nonce 0 refl zero_counted in
      let two =
        keyed_encrypt c sound t'' (derived y (second_static q (c.public_key b) x t)) [] zero_nonce 0
          refl zero_counted in
      rw (d, one, d', two, append-nil, append_assoc) refl

  pub read_second :
      (a ea q s₂ x y : Bytes) (t : Handshake.SymmetricState)
      → length q ≡ 32
      → length s₂ ≡ 32
      → c.dh ea q ≡ some x
      → c.dh ea s₂ ≡ some y
      → Handshake.read_message c
          (second_message q s₂ x y t)
          (state Handshake.initiator a none (some ea) none t 1)
        ≡ ok ([], state Handshake.initiator a (some s₂) (some ea) (some q) (second q s₂ x y t) 2)
  unfolding Handshake.read_message Handshake.read_tokens Handshake.read_token
      Handshake.exchange_keys Handshake.es_secret
  read_second a ea q s₂ x y t l l' d d' =
      let t' = Handshake.mix_key c x (Handshake.mix_hash c q t) in
      let u = second_static q s₂ x t in
      let t'' = Handshake.mix_key c y u in
      let z = c.seal (derived x t) zero_nonce s₂ t'.hash_state in
      let w = c.seal (derived y u) zero_nonce [] t''.hash_state in
      let one =
        read_ephemeral c sound q (z ++ w) (state Handshake.initiator a none (some ea) none t 1) l in
      let two =
        read_static c sound (derived x t) zero_nonce s₂ w 0
          (state Handshake.initiator a none (some ea) (some q) t' 1) refl zero_counted l' in
      let three = keyed_decrypt c sound t'' (derived y u) [] zero_nonce 0 refl zero_counted in
      rw (one, d, two, d', three) refl

  -- In the third message the key of the second one is still there, and its counter is at 1.
  abbrev third_static : Bytes → Bytes → Handshake.SymmetricState → Handshake.SymmetricState
  third_static k static t = sealed c sound k one_nonce 1 static t

  abbrev pub third_message : Bytes → Bytes → Bytes → Handshake.SymmetricState → Bytes
  third_message k static x t =
      let u = third_static k static t in
      c.seal k one_nonce static t.hash_state ++ c.seal (derived x u) zero_nonce [] u.hash_state

  abbrev pub third : Bytes → Bytes → Bytes → Handshake.SymmetricState → Handshake.SymmetricState
  third k static x t =
      let u = third_static k static t in
      sealed c sound (derived x u) zero_nonce 0 [] (Handshake.mix_key c x u)

  pub write_third :
      (a ea q s₂ k x : Bytes) (t : Handshake.SymmetricState)
      → t.cipher_state ≡ record { key = some k; nonce = 1 }
      → c.dh a q ≡ some x
      → Handshake.write_message c [] []
          (state Handshake.initiator a (some s₂) (some ea) (some q) t 2)
        ≡ ok (
          third_message k (c.public_key a) x t,
          state Handshake.initiator a (some s₂) (some ea) (some q) (third k (c.public_key a) x t) 3,
        )
  unfolding Handshake.write_message Handshake.write_tokens Handshake.write_token
      Handshake.exchange_keys Handshake.se_secret
  write_third a ea q s₂ k x t keyed d =
      let u = third_static k (c.public_key a) t in
      let one = keyed_encrypt c sound t k (c.public_key a) one_nonce 1 keyed one_counted in
      let two =
        keyed_encrypt c sound (Handshake.mix_key c x u) (derived x u) [] zero_nonce 0 refl
          zero_counted in
      rw (one, d, two, append-nil) refl

  pub read_third :
      (b eb p s₁ k x : Bytes) (t : Handshake.SymmetricState)
      → t.cipher_state ≡ record { key = some k; nonce = 1 }
      → length s₁ ≡ 32
      → c.dh eb s₁ ≡ some x
      → Handshake.read_message c
          (third_message k s₁ x t)
          (state Handshake.responder b none (some eb) (some p) t 2)
        ≡ ok ([], state Handshake.responder b (some s₁) (some eb) (some p) (third k s₁ x t) 3)
  unfolding Handshake.read_message Handshake.read_tokens Handshake.read_token
      Handshake.exchange_keys Handshake.se_secret
  read_third b eb p s₁ k x t keyed l d =
      let u = third_static k s₁ t in
      let w = c.seal (derived x u) zero_nonce [] u.hash_state in
      let one =
        read_static c sound k one_nonce s₁ w 1
          (state Handshake.responder b none (some eb) (some p) t 2) keyed one_counted l in
      let two =
        keyed_decrypt c sound (Handshake.mix_key c x u) (derived x u) [] zero_nonce 0 refl
          zero_counted in
      rw (one, d, two) refl
