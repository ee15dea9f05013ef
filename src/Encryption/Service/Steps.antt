-- ===== src/Encryption/Service/Steps.antt =====
-- One step of a handshake in a service, given what the handshake itself does.
use bitchat_node_daemon.Base.{
  ℕ, ◌≤◌, ◌≡◌, refl, ap, true, false, Option, none, some, List, [], ◌∷◌, ge→ltb, length, ok,
}
use bitchat_node_daemon.Base.Bytes.{Bytes, Text, eq_text_refl}
use bitchat_node_daemon.Base.Dict.{Dict, lookup, insert, remove, lookup-insert}
use bitchat_node_daemon.Encryption.Crypto.{Crypto}
use bitchat_node_daemon.Encryption.Cipher.{CipherState, NoiseSession}
use bitchat_node_daemon.Encryption.Handshake
use bitchat_node_daemon.Encryption.Service.{
  EncryptionService, Notice, authenticated, initiate_handshake, process_handshake_message, advance,
  respond, establish, open_session, remove_session, get_fingerprint, current_handshake, or_new,
}

abbrev pub session_of :
    ℕ → Text → Handshake.HandshakeState → CipherState → CipherState → Bytes → NoiseSession
session_of now peer h k₁ k₂ key = record {
  peer_id = peer;
  send_cipher = k₁;
  receive_cipher = k₂;
  remote_static_key = key;
  established_time = now;
}

module _ (c : Crypto) where
  pub process_lem :
      (fresh : Bytes) (now : ℕ) (peer : Text) (m : Bytes) (h : Handshake.HandshakeState)
      (v v' : EncryptionService) (r : Option Bytes) (n : List Notice)
      → 32 ≤ length m
      → current_handshake c peer v ≡ h
      → Handshake.is_handshake_complete c h ≡ false
      → advance c fresh now peer m h v ≡ ok (r, n, v')
      → process_handshake_message c fresh now peer m v ≡ (ok r, n, v')
  unfolding process_handshake_message
  process_lem fresh now peer m h v v' r n long current unfinished done =
      simp (ge→ltb (length m) 32 long, current, unfinished, done, process_handshake_message)

  pub advance_middle :
      (fresh : Bytes) (now : ℕ) (peer : Text) (m m' p : Bytes) (h h₁ h₂ : Handshake.HandshakeState)
      (v : EncryptionService)
      → Handshake.read_message c m h ≡ ok (p, h₁)
      → Handshake.is_handshake_complete c h₁ ≡ false
      → Handshake.write_message c fresh [] h₁ ≡ ok (m', h₂)
      → Handshake.is_handshake_complete c h₂ ≡ false
      → advance c fresh now peer m h v
        ≡ ok (some m', [], record v { handshake_states = insert peer h₂ v.handshake_states })
  unfolding advance respond establish
  advance_middle fresh now peer m m' p h h₁ h₂ v e₁ e₂ e₃ e₄ =
      simp (e₁, e₂, e₃, e₄, advance, respond, establish)

  pub establish_complete :
      (now : ℕ) (peer : Text) (h : Handshake.HandshakeState) (k₁ k₂ : CipherState) (key : Bytes)
      (v : EncryptionService)
      → Handshake.is_handshake_complete c h ≡ true
      → Handshake.get_transport_ciphers c h ≡ ok (k₁, k₂)
      → h.remote_static ≡ some key
      → establish c now peer h v
        ≡ ok (
          authenticated peer (get_fingerprint c (session_of now peer h k₁ k₂ key)) ∷ [],
          record v {
            sessions = insert peer (session_of now peer h k₁ k₂ key) v.sessions;
            handshake_states = remove peer v.handshake_states;
          },
        )
  unfolding establish open_session
  establish_complete now peer h k₁ k₂ key v e₁ e₂ e₃ = rw (e₂, e₁, e₃, establish) refl

  pub advance_last_written :
      (fresh : Bytes) (now : ℕ) (peer : Text) (m m' p : Bytes) (h h₁ h₂ : Handshake.HandshakeState)
      (v v' : EncryptionService) (n : List Notice)
      → Handshake.read_message c m h ≡ ok (p, h₁)
      → Handshake.is_handshake_complete c h₁ ≡ false
      → Handshake.write_message c fresh [] h₁ ≡ ok (m', h₂)
      → establish c now peer h₂ v ≡ ok (n, v')
      → advance c fresh now peer m h v ≡ ok (some m', n, v')
  unfolding advance respond
  advance_last_written fresh now peer m m' p h h₁ h₂ v v' n e₁ e₂ e₃ e₄ =
      simp (e₁, e₂, e₃, e₄, advance, respond)

  respond_complete :
      (fresh : Bytes) (h : Handshake.HandshakeState)
      → Handshake.is_handshake_complete c h ≡ true
      → respond c fresh h ≡ ok (none, h)
  unfolding respond
  respond_complete fresh h e₁ = rw (e₁, respond) refl

  pub advance_last_read :
      (fresh : Bytes) (now : ℕ) (peer : Text) (m p : Bytes) (h h₁ : Handshake.HandshakeState)
      (v v' : EncryptionService) (n : List Notice)
      → Handshake.read_message c m h ≡ ok (p, h₁)
      → Handshake.is_handshake_complete c h₁ ≡ true
      → establish c now peer h₁ v ≡ ok (n, v')
      → advance c fresh now peer m h v ≡ ok (none, n, v')
  unfolding advance
  advance_last_read fresh now peer m p h h₁ v v' n e₁ e₂ e₃ =
      rw (e₁, respond_complete fresh h₁ e₂, e₃) refl

  pub current_found :
      (peer : Text) (h : Handshake.HandshakeState) (d : Dict Handshake.HandshakeState)
      (v : EncryptionService)
      → v.handshake_states ≡ insert peer h d
      → current_handshake c peer v ≡ h
  current_found peer h d v same =
      let found : lookup peer (insert peer h d) ≡ some h =
        rw (lookup-insert peer peer h d, eq_text_refl peer) refl in
      rw same (ap (or_new c v) found)

  pub initiate_lem :
      (ea : Bytes) (peer : Text) (v : EncryptionService) (m : Bytes) (h : Handshake.HandshakeState)
      → Handshake.write_message c ea []
          (Handshake.new_handshake c Handshake.initiator v.static_identity_key)
        ≡ ok (m, h)
      → initiate_handshake c ea peer v ≡ (
        ok m,
        record (remove_session peer v) {
          handshake_states = insert peer h (remove_session peer v).handshake_states;
        },
      )
  unfolding initiate_handshake
  initiate_lem ea peer v m h done = rw (done, initiate_handshake) refl
