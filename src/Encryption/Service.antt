-- ===== src/Encryption/Service.antt =====
-- `EncryptionService`: the sessions and the handshakes in progress, by peer id.
pub mod Steps
pub mod Establish
pub mod Exchange
pub mod Peers
use bitchat_node_daemon.Base.{
  ℕ, ◌-◌, Bool, Option, none, some, List, ◌∷◌, ◌++◌, map, ltb, if◌then◌else◌, length, Result, ok,
  err, ◌>>=◌, noise_error, [],
}
use bitchat_node_daemon.Base.Bytes.{Bytes, Text}
use bitchat_node_daemon.Base.Hex.{hex}
use bitchat_node_daemon.Base.Dict.{Dict, lookup, insert, remove}
use bitchat_node_daemon.Base.Dict
use bitchat_node_daemon.Encryption.Crypto.{Crypto}
use bitchat_node_daemon.Encryption.Cipher.{
  CipherState, NoiseSession, session_encrypt, session_decrypt,
}
use bitchat_node_daemon.Encryption.Handshake.{
  initiator, responder, HandshakeState, new_handshake, write_message, read_message,
  is_handshake_complete, get_transport_ciphers,
}

pub record EncryptionService : Type 0 where
  pub static_identity_key : Bytes
  pub sessions : Dict NoiseSession
  pub handshake_states : Dict HandshakeState

-- What a step hands to the callbacks: `on_peer_authenticated(peer, fingerprint)` and
-- `on_handshake_required(peer)`.
pub data Notice : Type 0 where
  authenticated : Text → Text → Notice
  handshake_required : Text → Notice

abbrev pub has_established_session : Text → EncryptionService → Bool
has_established_session peer v = Dict.has_key peer v.sessions

-- `remove_session`
unfoldable pub remove_session : Text → EncryptionService → EncryptionService
unfolding remove
remove_session peer v = record v {
  sessions = remove peer v.sessions;
  handshake_states = remove peer v.handshake_states;
}

unfoldable pub clear_handshake_state : Text → EncryptionService → EncryptionService
unfolding remove
clear_handshake_state peer v = record v { handshake_states = remove peer v.handshake_states }

module _ (c : Crypto) where
  abbrev pub get_public_key_bytes : EncryptionService → Bytes
  get_public_key_bytes v = c.public_key v.static_identity_key

  unfoldable pub get_identity_fingerprint : EncryptionService → Text
  unfolding hex
  get_identity_fingerprint v = hex (c.sha256 (get_public_key_bytes v))

  unfoldable pub sign_data : Bytes → EncryptionService → Bytes
  sign_data x v = c.sha256 (x ++ get_public_key_bytes v)

  unfoldable pub get_fingerprint : NoiseSession → Text
  unfolding hex
  get_fingerprint s = hex (c.sha256 s.remote_static_key)

  unfoldable pub get_peer_fingerprint : Text → EncryptionService → Option Text
  unfolding lookup get_fingerprint
  get_peer_fingerprint peer v = elim (lookup peer v.sessions) [
    | none ↦ none
    | some s ↦ some (get_fingerprint s)
  ]

  -- An earlier handshake and an earlier session with the peer are forgotten.
  unfoldable pub initiate_handshake :
      Bytes → Text → EncryptionService → Result Bytes × EncryptionService
  unfolding insert remove_session write_message
  initiate_handshake fresh peer v =
      let v' = remove_session peer v in
      let h = new_handshake c initiator v.static_identity_key in
      elim (write_message c fresh [] h) [
        | err x ↦ (err x, record v' { handshake_states = insert peer h v'.handshake_states })
        | ok (m, h') ↦ (ok m, record v' { handshake_states = insert peer h' v'.handshake_states })
      ]

  -- The answer to a message that was read: the next message, where there is one.
  unfoldable pub respond : Bytes → HandshakeState → Result (Option Bytes × HandshakeState)
  unfolding write_message
  respond fresh h =
      if is_handshake_complete c h
      then ok (none, h)
      else (write_message c fresh [] h >>= λ r. ok (some r.0, r.1))

  -- A complete handshake becomes a session where the static key of the peer is known.
  unfoldable pub open_session :
      ℕ
      → Text
      → HandshakeState
      → CipherState × CipherState
      → Option Bytes
      → EncryptionService
      → List Notice × EncryptionService
  unfolding insert remove get_fingerprint
  open_session now peer h k none v =
      ([], record v { handshake_states = insert peer h v.handshake_states })
  open_session now peer h k (some key) v =
      let s : NoiseSession = record {
        peer_id = peer;
        send_cipher = k.0;
        receive_cipher = k.1;
        remote_static_key = key;
        established_time = now;
      } in
      (
        authenticated peer (get_fingerprint s) ∷ [],
        record v {
          sessions = insert peer s v.sessions;
          handshake_states = remove peer v.handshake_states;
        },
      )

  unfoldable pub establish :
      ℕ → Text → HandshakeState → EncryptionService → Result (List Notice × EncryptionService)
  unfolding insert get_transport_ciphers open_session
  establish now peer h v =
      if is_handshake_complete c h
      then (get_transport_ciphers c h >>= λ k. ok (open_session now peer h k h.remote_static v))
      else ok ([], record v { handshake_states = insert peer h v.handshake_states })

  -- Where there is no handshake with the peer, this end is the responder of a new one.
  abbrev pub or_new : EncryptionService → Option HandshakeState → HandshakeState
  or_new v (some h) = h
  or_new v none = new_handshake c responder v.static_identity_key

  abbrev pub current_handshake : Text → EncryptionService → HandshakeState
  current_handshake peer v = or_new v (lookup peer v.handshake_states)

  -- The body of the `try`.
  unfoldable pub advance :
      Bytes
      → ℕ
      → Text
      → Bytes
      → HandshakeState
      → EncryptionService
      → Result (Option Bytes × List Notice × EncryptionService)
  unfolding read_message respond establish
  advance fresh now peer message h v = do
    (payload, h₁) ← read_message c message h
    (response, h₂) ← respond fresh h₁
    (notices, v') ← establish now peer h₂ v
    ok (response, notices, v')

  -- What is raised in the `try` ends the handshake.
  abbrev pub settle_handshake :
      Text
      → EncryptionService
      → Result (Option Bytes × List Notice × EncryptionService)
      → Result (Option Bytes) × List Notice × EncryptionService
  settle_handshake peer v (ok (response, notices, v')) = (ok response, notices, v')
  settle_handshake peer v (err x) = (err noise_error, [], clear_handshake_state peer v)

  unfoldable pub process_handshake_message :
      Bytes
      → ℕ
      → Text
      → Bytes
      → EncryptionService
      → Result (Option Bytes) × List Notice × EncryptionService
  unfolding insert lookup clear_handshake_state advance
  process_handshake_message fresh now peer message v =
      let h = current_handshake peer v in
      if ltb (length message) 32
      then (err noise_error, [], v)
      else if is_handshake_complete c h
      then (ok none, [], record v { handshake_states = insert peer h v.handshake_states })
      else settle_handshake peer v (advance fresh now peer message h v)

  unfoldable pub encrypt :
      Bytes → Text → EncryptionService → Result Bytes × List Notice × EncryptionService
  unfolding lookup insert session_encrypt
  encrypt x peer v = elim (lookup peer v.sessions) [
    | none ↦ (err noise_error, handshake_required peer ∷ [], v)
    | some s ↦
        let (r, s') = session_encrypt c x s in
        (r, [], record v { sessions = insert peer s' v.sessions })
  ]

  unfoldable pub decrypt_from_peer :
      Text → Bytes → EncryptionService → Result Bytes × EncryptionService
  unfolding lookup insert session_decrypt
  decrypt_from_peer peer x v = elim (lookup peer v.sessions) [
    | none ↦ (err noise_error, v)
    | some s ↦
        let (r, s') = session_decrypt c x s in
        (r, record v { sessions = insert peer s' v.sessions })
  ]

-- `cleanup_old_sessions`: sessions older than `max_age` go.
unfoldable pub drop_expired : ℕ → ℕ → Dict NoiseSession → Dict NoiseSession
drop_expired now max_age [] = []
drop_expired now max_age ((p, s) ∷ d) =
    let rest = drop_expired now max_age d in
    if ltb max_age (now - s.established_time) then rest else (p, s) ∷ rest

unfoldable pub cleanup_old_sessions : ℕ → ℕ → EncryptionService → EncryptionService
unfolding drop_expired
cleanup_old_sessions now max_age v = record v { sessions = drop_expired now max_age v.sessions }

abbrev pub get_session_count : EncryptionService → ℕ
get_session_count v = length v.sessions

-- `get_active_peers`
abbrev pub get_active_peers : EncryptionService → List Text
get_active_peers v = map (λ r. r.0) v.sessions
