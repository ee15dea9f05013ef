-- ===== src/Encryption/Service/Exchange.antt =====
-- Texts between two services that have a session with each other.
use bitchat_node_daemon.Base.{◌≡◌, refl, none, some, [], ◌∷◌, ok, err, noise_error}
use bitchat_node_daemon.Base.Bytes.{Bytes, Text, eq_text_refl}
use bitchat_node_daemon.Base.Dict.{Dict, lookup, insert, lookup-insert}
use bitchat_node_daemon.Encryption.Crypto.{Crypto, IsSound}
use bitchat_node_daemon.Encryption.Cipher.{NoiseSession, session_encrypt, session_decrypt}
use bitchat_node_daemon.Encryption.Cipher.Sequence.{decrypt_step}
use bitchat_node_daemon.Encryption.Service.{
  EncryptionService, handshake_required, encrypt, decrypt_from_peer,
}

-- `v` has a session with `peer_v` and `w` has one with `peer_w`, and the cipher that the first one
-- sends with is the one that the second one receives with.
pub record AreLinked (peer_v peer_w : Text) (v w : EncryptionService) : Type 0 where
  pub session_v : NoiseSession
  pub session_w : NoiseSession
  pub found_v : lookup peer_v v.sessions ≡ some session_v
  pub found_w : lookup peer_w w.sessions ≡ some session_w
  pub agree : session_v.send_cipher ≡ session_w.receive_cipher

module _ (c : Crypto) where
  encrypt_found :
      (x : Bytes) (peer : Text) (v : EncryptionService) (s : NoiseSession)
      → lookup peer v.sessions ≡ some s
      → encrypt c x peer v ≡ (
        (session_encrypt c x s).0,
        [],
        record v { sessions = insert peer (session_encrypt c x s).1 v.sessions },
      )
  unfolding encrypt
  encrypt_found x peer v s found = rw (found, encrypt) refl

  decrypt_found :
      (peer : Text) (x : Bytes) (v : EncryptionService) (s : NoiseSession)
      → lookup peer v.sessions ≡ some s
      → decrypt_from_peer c peer x v ≡ (
        (session_decrypt c x s).0,
        record v { sessions = insert peer (session_decrypt c x s).1 v.sessions },
      )
  unfolding decrypt_from_peer
  decrypt_found peer x v s found = rw (found, decrypt_from_peer) refl

  lookup-insert_self :
      (peer : Text) (s : NoiseSession) (d : Dict NoiseSession)
      → lookup peer (insert peer s d) ≡ some s
  lookup-insert_self peer s d = rw (lookup-insert peer peer s d, eq_text_refl peer) refl

module _ (c : Crypto) (sound : IsSound c) where
  -- What one service encrypts for a peer, the peer's service decrypts to the same text; after that
  -- the two are linked again.
  pub decrypt_from_peer-encrypt :
      (x y : Bytes) (peer_v peer_w : Text) (v w : EncryptionService)
      → AreLinked peer_v peer_w v w
      → (encrypt c x peer_v v).0 ≡ ok y
      → ((decrypt_from_peer c peer_w y w).0 ≡ ok x)
        × AreLinked peer_v peer_w (encrypt c x peer_v v).2 (decrypt_from_peer c peer_w y w).1
  decrypt_from_peer-encrypt x y peer_v peer_w v w link sent =
      let s = link.session_v in
      let s' = link.session_w in
      let e = encrypt_found c x peer_v v s link.found_v in
      let d = decrypt_found c peer_w y w s' link.found_w in
      let step = decrypt_step c sound x y s s' link.agree (rw e at sent) in
      rw (e, d, step)
        (
          refl,
          record {
            session_v = (session_encrypt c x s).1;
            session_w = record s' { receive_cipher = (session_encrypt c x s).1.send_cipher };
            found_v = lookup-insert_self c peer_v (session_encrypt c x s).1 v.sessions;
            found_w = lookup-insert_self c peer_w _ w.sessions;
            agree = refl;
          },
        )

  -- Without a session nothing is encrypted: the caller is told that a handshake is required, and
  -- nothing changes.
  pub encrypt_without_session :
      (x : Bytes) (peer : Text) (v : EncryptionService)
      → lookup peer v.sessions ≡ none
      → encrypt c x peer v ≡ (err noise_error, handshake_required peer ∷ [], v)
  unfolding encrypt
  encrypt_without_session x peer v absent = rw (absent, encrypt) refl
