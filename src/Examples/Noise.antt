-- ===== src/Examples/Noise.antt =====
-- A handshake and texts between two services, with toy cryptography.
use bitchat_node_daemon.Base.{
  ◌>>=◌, ℕ, ◌+◌, ◌-◌, ◌≡◌, refl, ap, some, [], ◌∷◌, ◌++◌, arith, length, take, replicate,
  length-append, take-append, ok,
}
use bitchat_node_daemon.Base.Bytes.{Bytes, Text, eq_text}
use bitchat_node_daemon.Base.Dict.{lookup}
use bitchat_node_daemon.Encryption.Crypto.{Crypto, IsSound}
use bitchat_node_daemon.Encryption.Cipher.{
  CipherState, NoiseSession, initialize_key, tick, cipher_encrypt, session_encrypt, nonce_bytes,
}
use bitchat_node_daemon.Encryption.Cipher.Sequence.{receive_all, receive_all-send_all}
use bitchat_node_daemon.Encryption.Handshake.{HandshakeState, get_transport_ciphers}
use bitchat_node_daemon.Encryption.Agreement.{run_handshake, run_handshake_agrees}
use bitchat_node_daemon.Encryption.Service.{
  EncryptionService, encrypt, decrypt_from_peer, process_handshake_message,
}
use bitchat_node_daemon.Encryption.Service.Establish.{introduce, introduce_establishes}
use bitchat_node_daemon.Encryption.Service.Exchange.{AreLinked, decrypt_from_peer-encrypt}
use bitchat_node_daemon.Encryption.Service.Peers.{SameFor, process_handshake_message_keeps}
use bitchat_node_daemon.Encryption.Channel.{
  encrypt_for_channel, decrypt_from_channel, encrypt_with_key, decrypt-encrypt_for_channel,
}
use bitchat_node_daemon.Base.Utf8.{encode}

abbrev number : Bytes → ℕ
number [] = 0
number (x ∷ xs) = x

abbrev tag : Bytes
tag = replicate 16 0

-- A public key is the number of the private one, a secret is the sum of two numbers, and a tag is zeros.
abbrev pub toy : Crypto
toy = record {
  public_key = λ k. number k ∷ replicate 31 0;
  dh = λ k p. some ((number k + number p) ∷ []);
  hmac = λ k x. k ++ x;
  sha256 = λ x. x;
  seal = λ k n p ad. p ++ tag;
  unseal = λ k n x ad. some (take (length x - 16) x);
}

toy_exchange : (a b : ℕ) → a + b ≡ b + a
toy_exchange a b = omega arith

toy_unseal : (p : Bytes) → some (take (length (p ++ tag) - 16) (p ++ tag)) ≡ some p
toy_unseal p =
    let l : length (p ++ tag) - 16 ≡ length p = rw (length-append p tag) omega arith in
    rw l (ap some (take-append (length p) p tag refl))

toy-IsSound : IsSound toy
toy-IsSound = record {
  length_public_key = λ k. refl;
  exchange = λ a b. (
    (number a + number b) ∷ [],
    refl,
    ap (λ n. some (n ∷ [])) (toy_exchange (number b) (number a)),
  );
  length_seal = λ k n p ad. length-append p tag;
  unseal-seal = λ k n p ad. toy_unseal p;
}

abbrev alice : Text
alice = b'a' ∷ []

abbrev pub bob : Text
bob = b'b' ∷ []

abbrev pub service : ℕ → EncryptionService
service n = record { static_identity_key = n ∷ []; sessions = []; handshake_states = [] }

run_handshake_agrees_example :
    (i : HandshakeState) × (r : HandshakeState) × (k₁ : CipherState) × (k₂ : CipherState)
    × (run_handshake toy (1 ∷ []) (2 ∷ []) (3 ∷ []) (4 ∷ []) ≡ ok (i, r))
    × (get_transport_ciphers toy i ≡ ok (k₁, k₂))
    × (get_transport_ciphers toy r ≡ ok (k₂, k₁))
    × (i.remote_static ≡ some (toy.public_key (2 ∷ [])))
    × (r.remote_static ≡ some (toy.public_key (1 ∷ [])))
run_handshake_agrees_example =
    run_handshake_agrees toy toy-IsSound (1 ∷ []) (2 ∷ []) (3 ∷ []) (4 ∷ [])

introduce_establishes_example :
    (v : EncryptionService) × (w : EncryptionService) × (s : NoiseSession) × (s' : NoiseSession)
    × (introduce toy (3 ∷ []) (4 ∷ []) 1000 bob alice (service 1) (service 2) ≡ ok (v, w))
    × (lookup bob v.sessions ≡ some s)
    × (lookup alice w.sessions ≡ some s')
    × (s.send_cipher ≡ s'.receive_cipher)
    × (s.receive_cipher ≡ s'.send_cipher)
    × (s.remote_static_key ≡ toy.public_key (2 ∷ []))
    × (s'.remote_static_key ≡ toy.public_key (1 ∷ []))
unfolding lookup
introduce_establishes_example =
    introduce_establishes toy toy-IsSound (3 ∷ []) (4 ∷ []) 1000 bob alice (service 1) (service 2)
      refl

abbrev pub session : Text → NoiseSession
session peer = record {
  peer_id = peer;
  send_cipher = initialize_key (7 ∷ []);
  receive_cipher = initialize_key (7 ∷ []);
  remote_static_key = [];
  established_time = 0;
}

abbrev pub linked_service : Text → EncryptionService
linked_service peer = record (service 1) { sessions = (peer, session peer) ∷ [] }

linked : AreLinked bob alice (linked_service bob) (linked_service alice)
unfolding lookup eq_text
linked = record {
  session_v = session bob;
  session_w = session alice;
  found_v = refl;
  found_w = refl;
  agree = refl;
}

abbrev greeting : Bytes
greeting = 104 ∷ 105 ∷ []

decrypt_from_peer-encrypt_example :
    ((decrypt_from_peer toy alice (greeting ++ tag) (linked_service alice)).0 ≡ ok greeting)
    × AreLinked bob alice
        (encrypt toy greeting bob (linked_service bob)).2
        (decrypt_from_peer toy alice (greeting ++ tag) (linked_service alice)).1
unfolding encrypt lookup eq_text session_encrypt nonce_bytes cipher_encrypt
decrypt_from_peer-encrypt_example =
    decrypt_from_peer-encrypt toy toy-IsSound greeting (greeting ++ tag) bob alice
      (linked_service bob) (linked_service alice) linked refl

receive_all-send_all_example :
    receive_all toy ((greeting ++ tag) ∷ tag ∷ []) (session alice)
    ≡ some (
      greeting ∷ [] ∷ [],
      record (session alice) { receive_cipher = tick (tick (initialize_key (7 ∷ []))) },
    )
unfolding session_encrypt nonce_bytes cipher_encrypt
receive_all-send_all_example =
    receive_all-send_all toy toy-IsSound (greeting ∷ [] ∷ []) ((greeting ++ tag) ∷ tag ∷ [])
      (session bob) (record (session bob) { send_cipher = tick (tick (initialize_key (7 ∷ []))) })
      (session alice) refl refl

process_handshake_message_keeps_example :
    SameFor bob
      (process_handshake_message toy (4 ∷ []) 1000 alice (replicate 32 1) (linked_service bob)).2
      (linked_service bob)
unfolding eq_text
process_handshake_message_keeps_example =
    process_handshake_message_keeps toy alice bob refl (4 ∷ []) 1000 (replicate 32 1)
      (linked_service bob)

decrypt-encrypt_for_channel_example :
    (decrypt_from_channel toy (replicate 12 9 ++ (104 ∷ []) ++ tag) (replicate 32 7)
      ≡ ok (104 ∷ []))
    × ((encrypt_with_key toy (replicate 12 9) (104 ∷ []) (replicate 32 7) >>= λ s.
          decrypt_from_channel toy s (replicate 32 7))
        ≡ ok (104 ∷ []))
unfolding encrypt_for_channel encode
decrypt-encrypt_for_channel_example =
    decrypt-encrypt_for_channel toy toy-IsSound (replicate 12 9) (104 ∷ []) (replicate 32 7)
      (104 ∷ []) (replicate 12 9 ++ (104 ∷ []) ++ tag) refl refl refl
