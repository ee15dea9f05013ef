-- ===== src/Persistence.antt =====
-- bitchat/persistence.py: the state that outlives a run, its JSON document and the encryption of
-- channel passwords.
use bitchat_node_daemon.Base.{
  ℕ, ◌≡◌, Bool, true, false, not, ◌&&◌, Option, none, some, List, [], ◌∷◌, ◌++◌, map, ltb,
  if◌then◌else◌, length, All, Result, ok, err, ◌>>=◌, ◌>>◌, guard, value_error, key_error,
  type_error,
}
use bitchat_node_daemon.Base.Bytes.{Bytes, Text, IsByte}
use bitchat_node_daemon.Base.Dict.{Dict, to_set}
use bitchat_node_daemon.Base.Utf8.{encode, strict, decode}
use bitchat_node_daemon.Base.Texts.{codes}
pub mod Saving
pub mod Passwords

pub record EncryptedPassword : Type 0 where
  pub nonce : List ℕ
  pub ciphertext : List ℕ

pub record AppState : Type 0 where
  pub nickname : Option Text
  pub blocked_peers : List Text
  pub channel_creators : Dict Text
  pub joined_channels : List Text
  pub password_protected_channels : List Text
  pub channel_key_commitments : Dict Text
  pub favorites : List Text
  pub identity_key : Option (List ℕ)
  pub encrypted_channel_passwords : Dict EncryptedPassword

unfoldable pub new_state : AppState
new_state = record {
  nickname = none;
  blocked_peers = [];
  channel_creators = [];
  joined_channels = [];
  password_protected_channels = [];
  channel_key_commitments = [];
  favorites = [];
  identity_key = none;
  encrypted_channel_passwords = [];
}

-- The JSON form of a password, each of whose two keys may be missing in a file.
pub record PasswordData : Type 0 where
  pub nonce : Option (List ℕ)
  pub ciphertext : Option (List ℕ)

-- A JSON object with the keys of the state, each of which may be missing; `has_other_keys` says
-- whether it has any further key.
pub record Document : Type 0 where
  pub nickname : Option (Option Text)
  pub blocked_peers : Option (List Text)
  pub channel_creators : Option (Dict Text)
  pub joined_channels : Option (List Text)
  pub password_protected_channels : Option (List Text)
  pub channel_key_commitments : Option (Dict Text)
  pub favorites : Option (List Text)
  pub identity_key : Option (Option (List ℕ))
  pub encrypted_channel_passwords : Option (Dict PasswordData)
  pub has_other_keys : Bool

-- What stands at the path of the state: nothing, a text that is not JSON, or an object.
pub data File : Type 0 where
  missing unreadable : File
  holds : Document → File

-- `data.get(key, default)`
abbrev pub or_else {ℓ} : {A : Type ℓ} → Option A → A → A
or_else none d = d
or_else (some a) d = a

-- `enc_data['nonce']`
abbrev field {ℓ} : {A : Type ℓ} → Option A → Result A
field none = err key_error
field (some a) = ok a

unfoldable pub read_password : PasswordData → Result EncryptedPassword
read_password written = do
  nonce ← field written.nonce
  ciphertext ← field written.ciphertext
  ok (record { nonce = nonce; ciphertext = ciphertext })

unfoldable pub read_passwords : Dict PasswordData → Result (Dict EncryptedPassword)
unfolding read_password
read_passwords [] = ok []
read_passwords ((channel, written) ∷ rest) = do
  password ← read_password written
  passwords ← read_passwords rest
  ok ((channel, password) ∷ passwords)

-- The part of `load_state` under its `try`; a further key is an argument that `AppState` does not
-- take.
unfoldable pub read_document : Document → Result AppState
read_document written = do
  passwords ← read_passwords (or_else written.encrypted_channel_passwords [])
  guard (not written.has_other_keys) type_error
  ok (record {
    nickname = or_else written.nickname none;
    blocked_peers = to_set (or_else written.blocked_peers []);
    channel_creators = or_else written.channel_creators [];
    joined_channels = or_else written.joined_channels [];
    password_protected_channels = to_set (or_else written.password_protected_channels []);
    channel_key_commitments = or_else written.channel_key_commitments [];
    favorites = to_set (or_else written.favorites []);
    identity_key = or_else written.identity_key none;
    encrypted_channel_passwords = passwords;
  })

unfoldable pub write_password : EncryptedPassword → PasswordData
write_password ep = record { nonce = some ep.nonce; ciphertext = some ep.ciphertext }

-- The document that `save_state` writes.
unfoldable pub save_state : AppState → Document
unfolding write_password
save_state state = record {
  nickname = some state.nickname;
  blocked_peers = some state.blocked_peers;
  channel_creators = some state.channel_creators;
  joined_channels = some state.joined_channels;
  password_protected_channels = some state.password_protected_channels;
  channel_key_commitments = some state.channel_key_commitments;
  favorites = some state.favorites;
  identity_key = some state.identity_key;
  encrypted_channel_passwords =
      some (map (λ (channel, ep). (channel, write_password ep)) state.encrypted_channel_passwords);
  has_other_keys = false;
}

or_new_state : Result AppState → AppState
or_new_state (err raised) = new_state
or_new_state (ok state) = state

unfoldable pub read_file : File → AppState
unfolding or_new_state new_state
read_file missing = new_state
read_file unreadable = new_state
read_file (holds written) = or_new_state (read_document written)

with_identity : List ℕ → Option (List ℕ) → AppState → File → AppState × File
unfolding save_state
with_identity fresh (some key) state file = (state, file)
with_identity fresh none state file =
    let state' : AppState = record state { identity_key = some fresh } in
    (state', holds (save_state state'))

-- `load_state`, with the key that is generated where the state has none: the state, and what then
-- stands at its path.
unfoldable pub load_state : List ℕ → File → AppState × File
unfolding read_file with_identity
load_state fresh file =
    let state = read_file file in with_identity fresh state.identity_key state file

-- What is taken from `hashlib` and from AES-GCM of the `cryptography` package.
pub record Vault : Type 0 where
  pub sha256 : Bytes → Bytes
  pub seal : Bytes → Bytes → Bytes → Bytes
  pub unseal : Bytes → Bytes → Bytes → Result Bytes

-- AES-GCM seals bytes into bytes, and opens them under the same key and nonce of 12 bytes.
pub record IsSound (v : Vault) : Type 0 where
  pub seal-IsByte : (k n p : Bytes) → All IsByte p → All IsByte (v.seal k n p)
  pub unseal-seal : (k n p : Bytes) → length n ≡ 12 → v.unseal k n (v.seal k n p) ≡ ok p

all_bytes : List ℕ → Bool
all_bytes [] = true
all_bytes (x ∷ xs) = ltb x 256 && all_bytes xs

-- `bytes(numbers)`
unfoldable pub to_bytes : List ℕ → Result Bytes
unfolding all_bytes
to_bytes xs = if all_bytes xs then ok xs else err value_error

module _ (v : Vault) where
  unfoldable pub derive_encryption_key : Bytes → Bytes
  derive_encryption_key identity_key =
      v.sha256 (codes "bitchat-password-encryption" ++ identity_key)

  -- `nonce` is the result of `os.urandom(12)`.
  unfoldable pub encrypt_password : Bytes → Text → List ℕ → Result EncryptedPassword
  encrypt_password nonce password identity_key = do
    key ← to_bytes identity_key
    plaintext ← encode password
    ok (record { nonce = nonce; ciphertext = v.seal (derive_encryption_key key) nonce plaintext })

  unfoldable pub decrypt_password : EncryptedPassword → List ℕ → Result Text
  decrypt_password encrypted identity_key = do
    key ← to_bytes identity_key
    nonce ← to_bytes encrypted.nonce
    ciphertext ← to_bytes encrypted.ciphertext
    plaintext ← v.unseal (derive_encryption_key key) nonce ciphertext
    decode strict plaintext
