-- ===== src/Encryption/Service/Establish.antt =====
-- The three handshake messages between two instances of `EncryptionService`.
use bitchat_node_daemon.Base.{
  ℕ, ◌≡◌, refl, ap, Option, none, some, List, [], ◌∷◌, arith, length-append, Result, ok, err, ◌>>=◌,
  attribute_error,
}
use bitchat_node_daemon.Base.Bytes.{Bytes, Text, eq_text_refl}
use bitchat_node_daemon.Base.Dict.{lookup, insert, remove, lookup-insert}
use bitchat_node_daemon.Encryption.Crypto.{Crypto, IsSound}
use bitchat_node_daemon.Encryption.Cipher.{NoiseSession, no_cipher, initialize_key}
use bitchat_node_daemon.Encryption.Handshake
use bitchat_node_daemon.Encryption.Handshake.Messages
use bitchat_node_daemon.Encryption.Service.Steps.{
  process_lem, session_of, advance_middle, establish_complete, advance_last_written,
  advance_last_read, current_found, initiate_lem,
}
use bitchat_node_daemon.Encryption.Service.{
  EncryptionService, Notice, authenticated, initiate_handshake, process_handshake_message,
  remove_session, get_fingerprint, or_new,
}

-- A response that the other end expects.
abbrev expected : Option Bytes → Result Bytes
expected none = err attribute_error
expected (some m) = ok m

module _ (c : Crypto) where
  -- The service `v` calls its peer `peer_v` and starts the handshake; the service `w` knows it as
  -- `peer_w`. The third message answers the second one, and is not answered.
  unfoldable pub introduce :
      Bytes
      → Bytes
      → ℕ
      → Text
      → Text
      → EncryptionService
      → EncryptionService
      → Result (EncryptionService × EncryptionService)
  introduce ea eb now peer_v peer_w v w =
      let (first, v₁) = initiate_handshake c ea peer_v v in
      first >>= λ m₁.
      let (second, n₁, w₁) = process_handshake_message c eb now peer_w m₁ w in
      second >>= expected >>= λ m₂.
      let (third, n₂, v₂) = process_handshake_message c [] now peer_v m₂ v₁ in
      third >>= expected >>= λ m₃.
      let (last, n₃, w₂) = process_handshake_message c [] now peer_w m₃ w₁ in
      last >>= λ r. ok (v₂, w₂)

  introduce_lem :
      (ea eb : Bytes) (now : ℕ) (peer_v peer_w : Text) (v w v₁ w₁ v₂ w₂ : EncryptionService)
      (m₁ m₂ m₃ : Bytes) (n₁ n₂ n₃ : List Notice) (r : Option Bytes)
      → initiate_handshake c ea peer_v v ≡ (ok m₁, v₁)
      → process_handshake_message c eb now peer_w m₁ w ≡ (ok (some m₂), n₁, w₁)
      → process_handshake_message c [] now peer_v m₂ v₁ ≡ (ok (some m₃), n₂, v₂)
      → process_handshake_message c [] now peer_w m₃ w₁ ≡ (ok r, n₃, w₂)
      → introduce ea eb now peer_v peer_w v w ≡ ok (v₂, w₂)
  unfolding introduce
  introduce_lem ea eb now peer_v peer_w v w v₁ w₁ v₂ w₂ m₁ m₂ m₃ n₁ n₂ n₃ r one two three four =
      rw (one, two) (rw (three, four) refl)

module _ (c : Crypto) (sound : IsSound c) where
  start_unkeyed : (Handshake.initialize_symmetric_state c).cipher_state ≡ no_cipher
  unfolding Handshake.initialize_symmetric_state
  start_unkeyed = refl

  -- Where `w` has no handshake with `v` in progress, the three messages give each of the two a
  -- session with the other, under the other's public key; the cipher that one sends with is the
  -- one that the other receives with.
  pub introduce_establishes :
      (ea eb : Bytes) (now : ℕ) (peer_v peer_w : Text) (v w : EncryptionService)
      → lookup peer_w w.handshake_states ≡ none
      → (v' : EncryptionService) × (w' : EncryptionService) × (s : NoiseSession)
        × (s' : NoiseSession) × (introduce c ea eb now peer_v peer_w v w ≡ ok (v', w'))
        × (lookup peer_v v'.sessions ≡ some s)
        × (lookup peer_w w'.sessions ≡ some s')
        × (s.send_cipher ≡ s'.receive_cipher)
        × (s.receive_cipher ≡ s'.send_cipher)
        × (s.remote_static_key ≡ c.public_key w.static_identity_key)
        × (s'.remote_static_key ≡ c.public_key v.static_identity_key)
  unfolding Handshake.get_transport_ciphers
  introduce_establishes ea eb now peer_v peer_w v w absent =
      let a = v.static_identity_key in
      let b = w.static_identity_key in
      let start = Handshake.initialize_symmetric_state c in
      let (x, d₁, d₂) = sound.exchange ea eb in
      let (y, d₃, d₄) = sound.exchange ea b in
      let (z, d₅, d₆) = sound.exchange a eb in
      let p = c.public_key ea in
      let q = c.public_key eb in
      let s₁ = c.public_key a in
      let s₂ = c.public_key b in
      let t₁ = Messages.first c sound p start in
      let t₂ = Messages.second c sound q s₂ x y t₁ in
      let k = Messages.derived c sound y (Messages.second_static c sound q s₂ x t₁) in
      let t₃ = Messages.third c sound k s₁ z t₂ in
      let keys = Handshake.derive c t₃.chaining_key [] in
      let k₁ = initialize_key keys.0 in
      let k₂ = initialize_key keys.1 in
      let i₁ = Messages.state c sound Handshake.initiator a none (some ea) none t₁ 1 in
      let i₂ = Messages.state c sound Handshake.initiator a (some s₂) (some ea) (some q) t₂ 2 in
      let i₃ = Messages.state c sound Handshake.initiator a (some s₂) (some ea) (some q) t₃ 3 in
      let r₁ = Messages.state c sound Handshake.responder b none none (some p) t₁ 1 in
      let r₂ = Messages.state c sound Handshake.responder b none (some eb) (some p) t₂ 2 in
      let r₃ = Messages.state c sound Handshake.responder b (some s₁) (some eb) (some p) t₃ 3 in
      let m₂ = Messages.second_message c sound q s₂ x y t₁ in
      let m₃ = Messages.third_message c sound k s₁ z t₂ in
      let v₁ = record (remove_session peer_v v) {
        handshake_states = insert peer_v i₁ (remove_session peer_v v).handshake_states;
      } in
      let w₁ = record w { handshake_states = insert peer_w r₂ w.handshake_states } in
      let sv = session_of now peer_v i₃ k₁ k₂ s₂ in
      let sw = session_of now peer_w r₃ k₂ k₁ s₁ in
      let one =
        initiate_lem c ea peer_v v p i₁ (Messages.write_first c sound a ea start start_unkeyed) in
      let two =
        process_lem c eb now peer_w p (Handshake.new_handshake c Handshake.responder b) w w₁
          (some m₂) [] (rw (sound.length_public_key ea) omega arith) (ap (or_new c w) absent) refl
          (advance_middle c eb now peer_w p m₂ [] (Handshake.new_handshake c Handshake.responder b)
            r₁ r₂ w
            (Messages.read_first c sound b p start (sound.length_public_key ea) start_unkeyed) refl
            (Messages.write_second c sound b eb p x y t₁ d₂ d₄) refl) in
      let v₂ = record v₁ {
        sessions = insert peer_v sv v₁.sessions;
        handshake_states = remove peer_v v₁.handshake_states;
      } in
      let three =
        process_lem c [] now peer_v m₂ i₁ v₁ v₂ (some m₃)
          (authenticated peer_v (get_fingerprint c sv) ∷ [])
          (rw (length-append q _, sound.length_public_key eb) omega arith)
          (current_found c peer_v i₁ (remove_session peer_v v).handshake_states v₁ refl) refl
          (advance_last_written c [] now peer_v m₂ m₃ [] i₁ i₂ i₃ v₁ v₂
            (authenticated peer_v (get_fingerprint c sv) ∷ [])
            (Messages.read_second c sound a ea q s₂ x y t₁ (sound.length_public_key eb)
              (sound.length_public_key b) d₁ d₃)
            refl (Messages.write_third c sound a ea q s₂ k z t₂ refl d₅)
            (establish_complete c now peer_v i₃ k₁ k₂ s₂ v₁ refl refl refl)) in
      let w₂ = record w₁ {
        sessions = insert peer_w sw w₁.sessions;
        handshake_states = remove peer_w w₁.handshake_states;
      } in
      let four =
        process_lem c [] now peer_w m₃ r₂ w₁ w₂ none
          (authenticated peer_w (get_fingerprint c sw) ∷ [])
          (rw (length-append _ _, sound.length_seal, sound.length_public_key a) omega arith)
          (current_found c peer_w r₂ w.handshake_states w₁ refl) refl
          (advance_last_read c [] now peer_w m₃ [] r₂ r₃ w₁ w₂
            (authenticated peer_w (get_fingerprint c sw) ∷ [])
            (Messages.read_third c sound b eb p s₁ k z t₂ refl (sound.length_public_key a) d₆) refl
            (establish_complete c now peer_w r₃ k₂ k₁ s₁ w₁ refl refl refl)) in
      (
        v₂,
        w₂,
        sv,
        sw,
        introduce_lem c ea eb now peer_v peer_w v w v₁ w₁ v₂ w₂ p m₂ m₃ _ _ _ none one two three
            four,
        rw (lookup-insert peer_v peer_v sv v₁.sessions, eq_text_refl peer_v) refl,
        rw (lookup-insert peer_w peer_w sw w₁.sessions, eq_text_refl peer_w) refl,
        refl,
        refl,
        refl,
        refl,
      )
