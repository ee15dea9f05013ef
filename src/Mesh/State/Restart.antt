-- ===== src/Mesh/State/Restart.antt =====
-- What a node of daemon/mesh.py has after its state was saved and loaded by bitchat/persistence.py.
use bitchat_node_daemon.Base.{
  ℕ, ◌≡◌, refl, ◌∙◌, subst, inl, inr, false, ◌||◌, Option, some, List, [], ◌∷◌, map, arith,
  if◌then◌else◌, Bool-cases, some-injective, length, All, Result, ok, err,
}
use bitchat_node_daemon.Base.Bytes.{Bytes, Text, IsByte, eq_text, eq_text_iff}
use bitchat_node_daemon.Base.Dict.{Dict, lookup, lookup-insert, member, Distinct}
use bitchat_node_daemon.Encryption.Channel.{derive_channel_key}
use bitchat_node_daemon.Persistence.{
  AppState, EncryptedPassword, Vault, IsSound, encrypt_password, holds, save_state, load_state,
}
use bitchat_node_daemon.Persistence.Saving.{HasSets, load-save_state}
use bitchat_node_daemon.Persistence.Passwords.{decrypt-encrypt_password}
use bitchat_node_daemon.Mesh.Node.{MeshNode}
use bitchat_node_daemon.Mesh.State.{
  keep, put_key, channel_key, restore_keys, restore_with, restore_channel_keys, new_node,
}

-- The tables that a node keeps over a restart.
abbrev pub tables : MeshNode → List Text × Dict Text × List Text × Dict Text
tables node = (
  node.blocked_peers, node.channel_creators, node.password_protected_channels,
  node.channel_key_commitments,
)

module _ (v : Vault) (pbkdf2 : Bytes → Bytes → Bytes) where
  -- After a save, a load and a start a node has its blocked peers and its three tables of channels back,
  -- whatever its new id and key. Where the configuration gives a nickname, as the defaults do, that one
  -- is taken, and the saved one is not.
  pub restart :
      (node : MeshNode) (app_state : AppState) (identity fresh : List ℕ) (id : Text)
      (static_key : Bytes) (x : ℕ) (cli : Text)
      → app_state.identity_key ≡ some identity
      → HasSets (keep node app_state)
      → (tables (
            new_node v pbkdf2 id static_key
              (some (x ∷ cli))
              (load_state fresh (holds (save_state (keep node app_state)))).0)
          ≡ tables node)
        × ((new_node v pbkdf2 id static_key
              (some (x ∷ cli))
              (load_state fresh (holds (save_state (keep node app_state)))).0).nickname
            ≡ x ∷ cli)
  restart node app_state identity fresh id static_key x cli k h =
      let kept : (keep node app_state).identity_key ≡ some identity = unfold keep in k in
      rw (load-save_state (keep node app_state) identity fresh h kept)
        (unfold new_node in unfold keep in (refl, refl))

  put_key-other :
      (c channel : Text) (r : Result Bytes) (keys : Dict Bytes)
      → eq_text c channel ≡ false
      → lookup channel (put_key c r keys) ≡ lookup channel keys
  unfolding put_key
  put_key-other c channel (err raised) keys e = refl
  put_key-other c channel (ok key) keys e = lookup-insert c channel key keys ∙ rw e refl

  -- A channel without a password keeps its key.
  absent :
      (identity_key : List ℕ) (channel : Text) (ps : Dict EncryptedPassword) (keys : Dict Bytes)
      → member channel (map (λ e. e.0) ps) ≡ false
      → lookup channel (restore_keys v pbkdf2 identity_key ps keys) ≡ lookup channel keys
  unfolding restore_keys
  absent identity_key channel [] keys e = refl
  absent identity_key channel ((c, p) ∷ ps) keys e =
      let e' : (eq_text c channel || member channel (map (λ e. e.0) ps)) ≡ false =
        unfold member in e in
      let key = channel_key v pbkdf2 identity_key c p in
      absent identity_key channel ps (put_key c key keys) (ground arith)
      ∙ put_key-other c channel key keys (ground arith)

  restored :
      (identity_key : List ℕ) (channel : Text) (ps : Dict EncryptedPassword) (keys : Dict Bytes)
      (p : EncryptedPassword) (key : Bytes)
      → Distinct (map (λ e. e.0) ps)
      → lookup channel ps ≡ some p
      → channel_key v pbkdf2 identity_key channel p ≡ ok key
      → lookup channel (restore_keys v pbkdf2 identity_key ps keys) ≡ some key
  unfolding restore_keys
  restored identity_key channel [] keys p key d e k = unfold lookup in cc
  restored identity_key channel ((c, q) ∷ ps) keys p key (d, ds) e k =
      let found : (if eq_text c channel then some q else lookup channel ps) ≡ some p =
        unfold lookup in e in
      elim (Bool-cases (eq_text c channel)) [
        | inr other ↦
            restored identity_key channel ps
              (put_key c (channel_key v pbkdf2 identity_key c q) keys) p key ds (rw other at found)
              k
        | inl same ↦
            let c≡ = (eq_text_iff c channel).0 same in
            let q≡ : some q ≡ some p = rw same at found in
            let k' : channel_key v pbkdf2 identity_key c q ≡ ok key =
              rw (c≡, some-injective q≡) k in
            let gone = subst (λ t. member t (map (λ e. e.0) ps) ≡ false) c≡ d in
            absent identity_key channel ps (put_key c (channel_key v pbkdf2 identity_key c q) keys)
              gone
            ∙ rw k' (unfold put_key in lookup-insert c channel key keys ∙ rw same refl)
      ]

  -- A password that was encrypted for a channel under the identity key of the state, with a nonce
  -- of 12 bytes, gives at the next start the key that is derived from it and the name of the channel, and
  -- the texts of the other channels have no part in it.
  pub restored_key :
      (app_state : AppState) (x : ℕ) (identity : List ℕ) (channel password : Text)
      (nonce key : Bytes) (encrypted : EncryptedPassword) (id : Text) (static_key : Bytes)
      (cli : Option Text)
      → IsSound v
      → app_state.identity_key ≡ some (x ∷ identity)
      → Distinct (map (λ e. e.0) app_state.encrypted_channel_passwords)
      → length nonce ≡ 12
      → All IsByte nonce
      → encrypt_password v nonce password (x ∷ identity) ≡ ok encrypted
      → lookup channel app_state.encrypted_channel_passwords ≡ some encrypted
      → derive_channel_key pbkdf2 password channel ≡ ok key
      → lookup channel (new_node v pbkdf2 id static_key cli app_state).channel_keys ≡ some key
  unfolding new_node restore_channel_keys
  restored_key app_state x identity channel password nonce key encrypted id static_key cli sound i d
        len bytes e l k =
      let opened : channel_key v pbkdf2 (x ∷ identity) channel encrypted ≡ ok key =
        unfold channel_key in
        rw (decrypt-encrypt_password v sound nonce password (x ∷ identity) encrypted len bytes e)
          k in
      rw i (
        unfold restore_with in
        restored (x ∷ identity) channel app_state.encrypted_channel_passwords [] encrypted key d l
          opened)
