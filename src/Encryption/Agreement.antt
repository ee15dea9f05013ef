-- ===== src/Encryption/Agreement.antt =====
-- The three messages of a handshake, run between two honest ends.
use bitchat_node_daemon.Base.{◌≡◌, refl, some, [], Result, ok, ◌>>=◌}
use bitchat_node_daemon.Base.Bytes.{Bytes}
use bitchat_node_daemon.Encryption.Crypto.{Crypto, IsSound}
use bitchat_node_daemon.Encryption.Cipher.{CipherState, no_cipher, initialize_key}
use bitchat_node_daemon.Encryption.Handshake
use bitchat_node_daemon.Encryption.Handshake.Messages

module _ (c : Crypto) where
  -- The initiator has the static key `a` and draws `ea`; the responder has `b` and draws `eb`.
  -- Every payload is empty, as the service leaves it. The states of the two ends after the last
  -- message.
  unfoldable pub run_handshake :
      Bytes → Bytes → Bytes → Bytes → Result (Handshake.HandshakeState × Handshake.HandshakeState)
  unfolding Handshake.write_message Handshake.read_message
  run_handshake a b ea eb = do
    (m₁, i₁) ← Handshake.write_message c ea [] (Handshake.new_handshake c Handshake.initiator a)
    (p₁, r₁) ← Handshake.read_message c m₁ (Handshake.new_handshake c Handshake.responder b)
    (m₂, r₂) ← Handshake.write_message c eb [] r₁
    (p₂, i₂) ← Handshake.read_message c m₂ i₁
    (m₃, i₃) ← Handshake.write_message c [] [] i₂
    (p₃, r₃) ← Handshake.read_message c m₃ r₂
    ok (i₃, r₃)

module _ (c : Crypto) (sound : IsSound c) where
  abbrev start : Handshake.SymmetricState
  start = Handshake.initialize_symmetric_state c

  start_unkeyed : start.cipher_state ≡ no_cipher
  unfolding Handshake.initialize_symmetric_state
  start_unkeyed = refl

  -- For any static and ephemeral keys the handshake succeeds: both ends are complete, each knows the
  -- static public key of the other, and the cipher that one end sends with is the one that the
  -- other end receives with.
  pub run_handshake_agrees :
      (a b ea eb : Bytes)
      → (i : Handshake.HandshakeState) × (r : Handshake.HandshakeState) × (k₁ : CipherState)
        × (k₂ : CipherState) × (run_handshake c a b ea eb ≡ ok (i, r))
        × (Handshake.get_transport_ciphers c i ≡ ok (k₁, k₂))
        × (Handshake.get_transport_ciphers c r ≡ ok (k₂, k₁))
        × (i.remote_static ≡ some (c.public_key b))
        × (r.remote_static ≡ some (c.public_key a))
  unfolding run_handshake Handshake.get_transport_ciphers
  run_handshake_agrees a b ea eb =
      let (x, d₁, d₂) = sound.exchange ea eb in
      let (y, d₃, d₄) = sound.exchange ea b in
      let (z, d₅, d₆) = sound.exchange a eb in
      let p = c.public_key ea in
      let q = c.public_key eb in
      let s₁ = c.public_key a in
      let s₂ = c.public_key b in
      let t₁ = Messages.first c sound p start in
      let t₂ = Messages.second c sound q s₂ x y t₁ in
      let k = Messages.derived c sound y (Messages.second_static c sound q s₂ x t₁) in
      let w₁ = Messages.write_first c sound a ea start start_unkeyed in
      let r₁ = Messages.read_first c sound b p start (sound.length_public_key ea) start_unkeyed in
      let w₂ = Messages.write_second c sound b eb p x y t₁ d₂ d₄ in
      let r₂ =
        Messages.read_second c sound a ea q s₂ x y t₁ (sound.length_public_key eb)
          (sound.length_public_key b) d₁ d₃ in
      let w₃ = Messages.write_third c sound a ea q s₂ k z t₂ refl d₅ in
      let r₃ = Messages.read_third c sound b eb p s₁ k z t₂ refl (sound.length_public_key a) d₆ in
      let t₃ = Messages.third c sound k s₁ z t₂ in
      let keys = Handshake.derive c t₃.chaining_key [] in
      (
        Messages.state c sound Handshake.initiator a (some s₂) (some ea) (some q) t₃ 3,
        Messages.state c sound Handshake.responder b (some s₁) (some eb) (some p) t₃ 3,
        initialize_key keys.0,
        initialize_key keys.1,
        rw (w₁, r₁, w₂, r₂, w₃, r₃) refl,
        refl,
        refl,
        refl,
        refl,
      )
