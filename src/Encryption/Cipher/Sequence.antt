-- ===== src/Encryption/Cipher/Sequence.antt =====
-- Messages that two sessions of bitchat/encryption.py exchange, one after the other.
use bitchat_node_daemon.Base.{
  ◌≡◌, refl, subst, inl, inr, Option, none, some, List, [], ◌∷◌, arith, Option-cases, Error, Result,
  ok, err, Result-cases, noise_error,
}
use bitchat_node_daemon.Base.Bytes.{Bytes}
use bitchat_node_daemon.Encryption.Crypto.{Crypto, IsSound}
use bitchat_node_daemon.Encryption.Cipher.{
  CipherState, nonce_bytes, tick, cipher_encrypt, cipher_decrypt, NoiseSession, session_encrypt,
  session_decrypt,
}

module _ (c : Crypto) (s : CipherState) {k n : Bytes} (keyed : s.key ≡ some k)
    (counted : nonce_bytes s.nonce ≡ ok n) where
  pub cipher_encrypt_lem : (p ad : Bytes) → cipher_encrypt c p ad s ≡ (ok (c.seal k n p ad), tick s)
  unfolding cipher_encrypt
  cipher_encrypt_lem p ad = simp (keyed, counted, cipher_encrypt)

  pub cipher_decrypt_lem :
      (p ad x : Bytes) → c.unseal k n x ad ≡ some p → cipher_decrypt c x ad s ≡ (ok p, tick s)
  unfolding cipher_decrypt
  cipher_decrypt_lem p ad x h = simp (keyed, counted, h, cipher_decrypt)

cipher_encrypt-eq-ok :
    (c : Crypto) (p ad x : Bytes) (s : CipherState)
    → (cipher_encrypt c p ad s).0 ≡ ok x
    → (k : Bytes) × (n : Bytes) × (s.key ≡ some k) × (nonce_bytes s.nonce ≡ ok n)
cipher_encrypt-eq-ok c p ad x s h = elim (Option-cases s.key) [
  | inl e ↦ ground (arith, no_key e)
  | inr (k, e) ↦ elim (Result-cases (nonce_bytes s.nonce)) [
    | inl (n, e') ↦ (k, n, e, e')
    | inr (x', e') ↦ ground (arith, no_nonce k e x' e')
  ]
]
  where
    no_key : s.key ≡ none → cipher_encrypt c p ad s ≡ (err noise_error, s)
    no_key e = unfold cipher_encrypt in simp (e, cipher_encrypt)

    no_nonce :
        (k : Bytes)
        → s.key ≡ some k
        → (x' : Error) → nonce_bytes s.nonce ≡ err x'
        → cipher_encrypt c p ad s ≡ (err x', s)
    no_nonce k e x' e' = unfold cipher_encrypt in simp (e, e', cipher_encrypt)

module _ (c : Crypto) (sound : IsSound c) where
  -- One message: what was encrypted in a state is decrypted in that state, to the same next state.
  pub decrypt-encrypt :
      (p ad x : Bytes) (s : CipherState)
      → (cipher_encrypt c p ad s).0 ≡ ok x
      → cipher_decrypt c x ad s ≡ (ok p, (cipher_encrypt c p ad s).1)
  decrypt-encrypt p ad x s h =
      let (k, n, e, e') = cipher_encrypt-eq-ok c p ad x s h in
      let enc = cipher_encrypt_lem c s e e' p ad in
      let same : c.seal k n p ad ≡ x = ground (arith, enc) in
      rw enc (cipher_decrypt_lem c s e e' p ad x (rw (← same) (sound.unseal-seal k n p ad)))

-- The results of a list of calls, where all of them return.
abbrev pub collect :
    Result Bytes → Option (List Bytes × NoiseSession) → Option (List Bytes × NoiseSession)
collect (ok x) (some (xs, s)) = some (x ∷ xs, s)
collect (ok x) none = none
collect (err e) o = none

collect-eq-some :
    (r : Result Bytes) (o : Option (List Bytes × NoiseSession)) (xs : List Bytes) (s : NoiseSession)
    → collect r o ≡ some (xs, s)
    → (x : Bytes) × (xs' : List Bytes) × (r ≡ ok x) × (o ≡ some (xs', s)) × (xs ≡ x ∷ xs')
collect-eq-some (ok x) (some (xs', s')) xs s h = (x, xs', refl, ground arith, ground arith)
collect-eq-some (ok x) none xs s h = cc
collect-eq-some (err e) o xs s h = cc

module _ (c : Crypto) where
  -- One end of a session encrypts texts, one after the other; the other end decrypts.
  abbrev pub send_all : List Bytes → NoiseSession → Option (List Bytes × NoiseSession)
  send_all [] s = some ([], s)
  send_all (p ∷ ps) s = collect (session_encrypt c p s).0 (send_all ps (session_encrypt c p s).1)

  abbrev pub receive_all : List Bytes → NoiseSession → Option (List Bytes × NoiseSession)
  receive_all [] s = some ([], s)
  receive_all (x ∷ xs) s =
      collect (session_decrypt c x s).0 (receive_all xs (session_decrypt c x s).1)

module _ (c : Crypto) (sound : IsSound c) where
  pub decrypt_step :
      (p x : Bytes) (a b : NoiseSession)
      → a.send_cipher ≡ b.receive_cipher
      → (session_encrypt c p a).0 ≡ ok x
      → session_decrypt c x b
        ≡ (ok p, record b { receive_cipher = (session_encrypt c p a).1.send_cipher })
  unfolding session_encrypt session_decrypt
  decrypt_step p x a b same h =
      let d : cipher_decrypt c x [] b.receive_cipher
          ≡ (ok p, (cipher_encrypt c p [] a.send_cipher).1) =
        subst (λ r. cipher_decrypt c x [] r ≡ (ok p, (cipher_encrypt c p [] a.send_cipher).1)) same
          (decrypt-encrypt c sound p [] x a.send_cipher h) in
      simp d

  -- Where the sending cipher of one session is the receiving cipher of another, whatever texts the
  -- first one encrypts are decrypted by the second one, in order, and the ciphers agree again.
  pub receive_all-send_all :
      (ps xs : List Bytes) (a a' b : NoiseSession)
      → a.send_cipher ≡ b.receive_cipher
      → send_all c ps a ≡ some (xs, a')
      → receive_all c xs b ≡ some (ps, record b { receive_cipher = a'.send_cipher })
  receive_all-send_all [] xs a a' b same h = ground arith
  receive_all-send_all (p ∷ ps) xs a a' b same h =
      let (x, xs', first, rest, e) =
        collect-eq-some (session_encrypt c p a).0 (send_all c ps (session_encrypt c p a).1) xs a'
          h in
      let b' : NoiseSession = record b { receive_cipher = (session_encrypt c p a).1.send_cipher } in
      rw (
        e,
        decrypt_step p x a b same first,
        receive_all-send_all ps xs' (session_encrypt c p a).1 a' b' refl rest,
      )
