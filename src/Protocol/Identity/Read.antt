-- ===== src/Protocol/Identity/Read.antt =====
-- The reader of identity announcements.
use bitchat_node_daemon.Base.{
  ℕ, ◌+◌, ◌/◌, ◌%◌, Bool, true, false, Option, none, some, [], ltb, if◌then◌else◌, length,
  get_elem?, ok, err,
}
use bitchat_node_daemon.Base.Bytes.{Bytes, Text, slice, from_bytes}
use bitchat_node_daemon.Base.Hex.{hex}
use bitchat_node_daemon.Base.Utf8.{strict, decode}
use bitchat_node_daemon.Protocol.Packet.{has_flag}
use bitchat_node_daemon.Protocol.Identity.{Announcement, Seconds}

-- The reader returns `None` where data is missing, and where it catches an exception.
infixl 5 ◌>>=◌
abbrev pub ◌>>=◌ {ℓ κ} : {A : Type ℓ} {B : Type κ} → Option A → (A → Option B) → Option B
none >>= f = none
some a >>= f = f a

-- `if offset + n > len(data): return None`, then `data[offset:offset + n]`
unfoldable pub read_exactly : Bytes → ℕ → ℕ → Option Bytes
read_exactly xs offset n =
    if ltb (length xs) (offset + n) then none else some (slice xs offset (offset + n))

-- A length byte and a field of that length: the field, and the offset behind it.
unfoldable pub read_field : Bytes → ℕ → Option (Bytes × ℕ)
read_field xs offset = do
  n ← get_elem? xs offset
  field ← read_exactly xs (offset + 1) n
  some (field, offset + 1 + n)

unfoldable pub decode_or_none : Bytes → Option Text
decode_or_none xs = elim (decode strict xs) [ ok t ↦ some t | err e ↦ none ]

unfoldable pub nickname_field : Bytes → ℕ → ℕ → Option (Text × ℕ)
nickname_field xs offset n = do
  field ← read_exactly xs offset n
  t ← decode_or_none field
  some (t, offset + n)

-- An empty nickname is not checked and not decoded.
unfoldable pub read_nickname : Bytes → ℕ → Option (Text × ℕ)
unfolding nickname_field
read_nickname xs offset = do
  n ← get_elem? xs offset
  if ltb 0 n then nickname_field xs (offset + 1) n else some ([], offset + 1)

unfoldable pub read_previous : Bool → Bytes → ℕ → Option (Option Text × ℕ)
read_previous false xs offset = some (none, offset)
read_previous true xs offset = do
  field ← read_exactly xs offset 8
  some (some (hex field), offset + 8)

-- `timestamp_ms / 1000.0`
unfoldable pub seconds : ℕ → Seconds
seconds timestamp_ms = record { whole = timestamp_ms / 1000; thousandths = timestamp_ms % 1000 }

unfoldable pub parse_noise_identity_announcement_binary : Bytes → Option Announcement
parse_noise_identity_announcement_binary xs = do
  flags ← get_elem? xs 0
  peer ← read_exactly xs 1 8
  (public_key, o₁) ← read_field xs 9
  (signing_key, o₂) ← read_field xs o₁
  (nickname, o₃) ← read_nickname xs o₂
  time ← read_exactly xs o₃ 8
  (previous, o₄) ← read_previous (has_flag flags 1) xs (o₃ + 8)
  (signature, _) ← read_field xs o₄
  some (record {
    peer_id = hex peer;
    public_key = hex public_key;
    signing_public_key = hex signing_key;
    nickname = nickname;
    timestamp = seconds (from_bytes 0 time);
    signature = hex signature;
    previous_peer_id = previous;
  })
