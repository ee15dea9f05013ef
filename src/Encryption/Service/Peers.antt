-- ===== src/Encryption/Service/Peers.antt =====
-- What a step of the service for one peer leaves as it was.
use bitchat_node_daemon.Base.{
  ℕ, ◌≡◌, refl, subst, inl, inr, Bool, true, false, Option, none, some, List, [], arith, ltb,
  if◌then◌else◌, Bool-cases, length, Result, ok, err, ◌>>=◌,
}
use bitchat_node_daemon.Base.Bytes.{Bytes, Text, eq_text}
use bitchat_node_daemon.Base.Dict.{Dict, lookup, insert, remove, lookup-insert, lookup-remove}
use bitchat_node_daemon.Encryption.Crypto.{Crypto}
use bitchat_node_daemon.Encryption.Handshake.{
  HandshakeState, is_handshake_complete, get_transport_ciphers, read_message,
}
use bitchat_node_daemon.Encryption.Cipher.{CipherState}
use bitchat_node_daemon.Encryption.Service.{
  EncryptionService, Notice, clear_handshake_state, respond, establish, open_session,
  settle_handshake, advance, process_handshake_message, current_handshake,
}

-- Two states of the service hold the same for a peer.
pub record SameFor (peer : Text) (v w : EncryptionService) : Type 0 where
  pub same_session : lookup peer v.sessions ≡ lookup peer w.sessions
  pub same_handshake : lookup peer v.handshake_states ≡ lookup peer w.handshake_states

lookup-insert_other {ℓ} :
    {V : Type ℓ} (k j : Text) (x : V) (d : Dict V)
    → eq_text k j ≡ false
    → lookup j (insert k x d) ≡ lookup j d
lookup-insert_other k j x d other = rw (lookup-insert k j x d, other) refl

lookup-remove_other {ℓ} :
    {V : Type ℓ} (k j : Text) (d : Dict V)
    → eq_text k j ≡ false
    → lookup j (remove k d) ≡ lookup j d
lookup-remove_other k j d other = rw (lookup-remove k j d, other) refl

module _ (c : Crypto) (peer other : Text) (apart : eq_text peer other ≡ false) where
  kept_lem :
      (h : HandshakeState) (v : EncryptionService)
      → SameFor other (record v { handshake_states = insert peer h v.handshake_states }) v
  kept_lem h v = record {
    same_session = refl;
    same_handshake = lookup-insert_other peer other h v.handshake_states apart;
  }

  clear_lem : (v : EncryptionService) → SameFor other (clear_handshake_state peer v) v
  unfolding clear_handshake_state
  clear_lem v = record {
    same_session = refl;
    same_handshake = lookup-remove_other peer other v.handshake_states apart;
  }

  open_session_keeps :
      (now : ℕ) (h : HandshakeState) (k : CipherState × CipherState) (key : Option Bytes)
      (v : EncryptionService)
      → SameFor other (open_session c now peer h k key v).1 v
  unfolding open_session
  open_session_keeps now h k none v = kept_lem h v
  open_session_keeps now h k (some key) v = record {
    same_session = lookup-insert_other peer other _ v.sessions apart;
    same_handshake = lookup-remove_other peer other v.handshake_states apart;
  }

  opened_keeps :
      (now : ℕ) (h : HandshakeState) (v v' : EncryptionService) (n : List Notice) (complete : Bool)
      (r : Result (CipherState × CipherState))
      → (if complete
          then (r >>= λ k. ok (open_session c now peer h k h.remote_static v))
          else ok ([], record v { handshake_states = insert peer h v.handshake_states }))
        ≡ ok (n, v')
      → SameFor other v' v
  opened_keeps now h v v' n true (ok k) done =
      let same : (open_session c now peer h k h.remote_static v).1 ≡ v' = ground (arith, done) in
      subst (λ u. SameFor other u v) same (open_session_keeps now h k h.remote_static v)
  opened_keeps now h v v' n true (err x) done = cc
  opened_keeps now h v v' n false r done =
      let same : record v { handshake_states = insert peer h v.handshake_states } ≡ v' =
        ground (arith, done) in
      subst (λ u. SameFor other u v) same (kept_lem h v)

  establish_keeps :
      (now : ℕ) (h : HandshakeState) (v v' : EncryptionService) (n : List Notice)
      → establish c now peer h v ≡ ok (n, v')
      → SameFor other v' v
  unfolding establish
  establish_keeps now h v v' n done =
      opened_keeps now h v v' n (is_handshake_complete c h) (get_transport_ciphers c h) done

  established_keeps :
      (r : Option Bytes) (v : EncryptionService) (x : Result (List Notice × EncryptionService))
      → ((n : List Notice) (v' : EncryptionService) → x ≡ ok (n, v') → SameFor other v' v)
      → SameFor other (settle_handshake c peer v (x >>= λ y. ok (r, y.0, y.1))).2 v
  established_keeps r v (ok (n, v')) keeps = keeps n v' refl
  established_keeps r v (err x) keeps = clear_lem v

  responded_keeps :
      (now : ℕ) (v : EncryptionService) (x : Result (Option Bytes × HandshakeState))
      → SameFor other
          (settle_handshake c peer v
            (x >>= λ y. establish c now peer y.1 v >>= λ z. ok (y.0, z.0, z.1))).2
          v
  responded_keeps now v (ok (r, h)) =
      established_keeps r v (establish c now peer h v) (λ n v'. establish_keeps now h v v' n)
  responded_keeps now v (err x) = clear_lem v

  read_keeps :
      (fresh : Bytes) (now : ℕ) (v : EncryptionService) (x : Result (Bytes × HandshakeState))
      → SameFor other
          (settle_handshake c peer v (
            x >>= λ u.
            respond c fresh u.1 >>= λ y. establish c now peer y.1 v >>= λ z. ok (y.0, z.0, z.1))).2
          v
  read_keeps fresh now v (ok (p, h)) = responded_keeps now v (respond c fresh h)
  read_keeps fresh now v (err x) = clear_lem v

  advance_keeps :
      (fresh : Bytes) (now : ℕ) (m : Bytes) (h : HandshakeState) (v : EncryptionService)
      → SameFor other (settle_handshake c peer v (advance c fresh now peer m h v)).2 v
  unfolding advance
  advance_keeps fresh now m h v = read_keeps fresh now v (read_message c m h)

  -- A handshake message from one peer changes neither the session nor the handshake of another.
  pub process_handshake_message_keeps :
      (fresh : Bytes) (now : ℕ) (m : Bytes) (v : EncryptionService)
      → SameFor other (process_handshake_message c fresh now peer m v).2 v
  unfolding process_handshake_message
  process_handshake_message_keeps fresh now m v = elim (Bool-cases (ltb (length m) 32)) [
    | inl short ↦
        rw (short, process_handshake_message) record { same_session = refl; same_handshake = refl }
    | inr long ↦ elim (Bool-cases (is_handshake_complete c (current_handshake c peer v))) [
      | inl complete ↦
          rw (long, complete, process_handshake_message) (kept_lem (current_handshake c peer v) v)
      | inr going ↦
          rw (long, going, process_handshake_message)
            (advance_keeps fresh now m (current_handshake c peer v) v)
    ]
  ]
