-- ===== src/Examples/Start.antt =====
-- The start of a daemon: its configuration, its saved state and the addresses that it finds.
use bitchat_node_daemon.Base.{
  ℕ, zero, suc, ◌≡◌, refl, inr, true, none, some, List, [], ◌∷◌, ◌++◌, map, arith, is_some,
  replicate, All, ok,
}
use bitchat_node_daemon.Base.Bytes.{Bytes, Text, IsByte, eq_text}
use bitchat_node_daemon.Base.Dict.{lookup, member, Distinct}
use bitchat_node_daemon.Base.Utf8.{encode}
use bitchat_node_daemon.Base.Texts.{codes}
use bitchat_node_daemon.Base.Integers.{pos}
use bitchat_node_daemon.Discovery.{
  new_discovery, read_entry, connect_all, Event, added, stopped, happen_all, start,
}
use bitchat_node_daemon.Discovery.Known.{address, told, asked, wired, reports_once}
use bitchat_node_daemon.Discovery.Running.{start_returns}
use bitchat_node_daemon.Persistence.{
  AppState, EncryptedPassword, Vault, IsSound, holds, save_state, load_state, to_bytes,
  encrypt_password,
}
use bitchat_node_daemon.Encryption.Channel.{derive_channel_key}
use bitchat_node_daemon.Examples.Node.{node}
use bitchat_node_daemon.Mesh.State.{keep, new_node}
use bitchat_node_daemon.Mesh.State.Restart.{tables, restart, restored_key}
use bitchat_node_daemon.Config.{number, text, fields, Fields, end, field, get, deep_merge}
use bitchat_node_daemon.Config.Trees.{AreTrees}
use bitchat_node_daemon.Config.Merge.{value_at, deep_merge_lem}

-- One entry that names an address, one that names none, and the same address once more.
abbrev nodes : List Text
nodes = codes "h:1" ∷ codes "h" ∷ []

abbrev seconds : List (List Event)
seconds = (added (codes "h") (pos 1) ∷ []) ∷ (stopped ∷ []) ∷ []

reports_once_example :
    Distinct (
      map address
        (happen_all (added (codes "h") (pos 1) ∷ []) (connect_all nodes (wired true nodes))).found)
    × (member (codes "h:1") (
          map address
            (happen_all
              (added (codes "h") (pos 1) ∷ [])
              (connect_all nodes (wired true nodes))).found)
        ≡ asked (codes "h:1") (map read_entry nodes ++ map told (added (codes "h") (pos 1) ∷ [])))
reports_once_example = reports_once true nodes (added (codes "h") (pos 1) ∷ []) (codes "h:1")

start_returns_example : is_some (start true seconds (wired true nodes)) ≡ true
unfolding new_discovery
start_returns_example = start_returns true seconds (wired true nodes)

-- A cipher that shows its text.
abbrev pub plain_vault : Vault
plain_vault = record { sha256 = λ x. x; seal = λ k n p. p; unseal = λ k n x. ok x }

plain_vault-IsSound : IsSound plain_vault
plain_vault-IsSound = record { seal-IsByte = λ k n p h. h; unseal-seal = λ k n p h. refl }

abbrev channel : Text
channel = codes "#c"

abbrev encrypted : EncryptedPassword
encrypted = record { nonce = replicate 12 9; ciphertext = codes "pw" }

abbrev pub saved : AppState
saved = record {
  nickname = none;
  blocked_peers = [];
  channel_creators = [];
  joined_channels = [];
  password_protected_channels = [];
  channel_key_commitments = [];
  favorites = [];
  identity_key = some (7 ∷ []);
  encrypted_channel_passwords = (channel, encrypted) ∷ [];
}

abbrev pub joined : Bytes → Bytes → Bytes
joined password salt = password ++ salt

restart_example :
    (tables (
        new_node plain_vault joined
          (b'i' ∷ [])
          (5 ∷ [])
          (some (b'c' ∷ []))
          (load_state [] (holds (save_state (keep node saved)))).0)
      ≡ tables node)
    × ((new_node plain_vault joined
          (b'i' ∷ [])
          (5 ∷ [])
          (some (b'c' ∷ []))
          (load_state [] (holds (save_state (keep node saved)))).0).nickname
        ≡ b'c' ∷ [])
unfolding keep
restart_example =
    restart plain_vault joined node saved (7 ∷ []) [] (b'i' ∷ []) (5 ∷ []) b'c' [] refl
      (record { blocked = tt; protected = tt; favorite = tt })

nines-IsByte : (k : ℕ) → All IsByte (replicate k 9)
nines-IsByte zero = tt
nines-IsByte (suc k) = (omega arith, nines-IsByte k)

restored_key_example :
    lookup channel (new_node plain_vault joined (b'i' ∷ []) (5 ∷ []) none saved).channel_keys
    ≡ some (codes "pw#c")
unfolding encrypt_password derive_channel_key to_bytes encode lookup member eq_text
restored_key_example =
    restored_key plain_vault joined saved 7 [] channel (codes "pw") (replicate 12 9) (codes "pw#c")
      encrypted (b'i' ∷ []) (5 ∷ []) none plain_vault-IsSound refl (refl, tt) refl (nines-IsByte 12)
      refl refl refl

-- A file that names a port, and leaves the nickname of the node to the defaults.
abbrev user : Fields
user = field (codes "node") (fields (field (codes "port") (number (pos 9)) end)) end

abbrev defaults : Fields
defaults =
    field (codes "node")
      (fields
        (field (codes "port") (number (pos 8)) (field (codes "nickname") (text (codes "n")) end)))
      end

deep_merge_lem_example :
    value_at (codes "node" ∷ codes "nickname" ∷ []) (some (fields (deep_merge user defaults)))
    ≡ some (text (codes "n"))
unfolding get AreTrees eq_text
deep_merge_lem_example =
    deep_merge_lem (codes "node" ∷ codes "nickname" ∷ []) user defaults (text (codes "n"))
      (refl, (refl, tt, tt), tt) (inr (refl, refl))
