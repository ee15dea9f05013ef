-- ===== src/Protocol/Types.antt =====
-- The enumeration, the constants and the data classes of bitchat/protocol.py.
use bitchat_node_daemon.Base.{
  ℕ, ◌≡◌, refl, Bool, true, false, Option, none, some, List, [], ◌∷◌, Result, ok, err, value_error,
  replicate, ◌==◌, if◌then◌else◌,
}
use bitchat_node_daemon.Base.Bytes.{Bytes, Text}

pub data MessageType : Type 0 where
  announce key_exchange leave message : MessageType
  fragment_start fragment_continue fragment_end : MessageType
  channel_announce channel_retention : MessageType
  delivery_ack delivery_status_request read_receipt : MessageType
  noise_handshake_init noise_handshake_resp noise_encrypted noise_identity_announce : MessageType
  channel_key_verify_request channel_key_verify_response : MessageType
  channel_password_update channel_metadata : MessageType
  version_hello version_ack : MessageType

-- `msg_type.value`
unfoldable pub value : MessageType → ℕ
value announce = 0x01
value key_exchange = 0x02
value leave = 0x03
value message = 0x04
value fragment_start = 0x05
value fragment_continue = 0x06
value fragment_end = 0x07
value channel_announce = 0x08
value channel_retention = 0x09
value delivery_ack = 0x0a
value delivery_status_request = 0x0b
value read_receipt = 0x0c
value noise_handshake_init = 0x10
value noise_handshake_resp = 0x11
value noise_encrypted = 0x12
value noise_identity_announce = 0x13
value channel_key_verify_request = 0x14
value channel_key_verify_response = 0x15
value channel_password_update = 0x16
value channel_metadata = 0x17
value version_hello = 0x20
value version_ack = 0x21

abbrev pub all_types : List MessageType
all_types =
    announce ∷ key_exchange ∷ leave ∷ message ∷ fragment_start ∷ fragment_continue ∷ fragment_end
    ∷ channel_announce ∷ channel_retention ∷ delivery_ack ∷ delivery_status_request ∷ read_receipt
    ∷ noise_handshake_init ∷ noise_handshake_resp ∷ noise_encrypted ∷ noise_identity_announce
    ∷ channel_key_verify_request ∷ channel_key_verify_response ∷ channel_password_update
    ∷ channel_metadata ∷ version_hello ∷ version_ack ∷ []

find_type : ℕ → List MessageType → Result MessageType
find_type n [] = err value_error
find_type n (t ∷ ts) = if value t == n then ok t else find_type n ts

-- `MessageType(n)`: the member with that value, or `ValueError`.
unfoldable pub to_message_type : ℕ → Result MessageType
unfolding find_type value
to_message_type n = find_type n all_types

pub to_message_type-value : (t : MessageType) → to_message_type (value t) ≡ ok t
unfolding to_message_type
to_message_type-value announce = refl
to_message_type-value _ = refl

-- `exclude_recipient_types` of the packet writer
unfoldable pub is_fragment : MessageType → Bool
is_fragment fragment_start = true
is_fragment fragment_continue = true
is_fragment fragment_end = true
is_fragment _ = false

abbrev pub flag_has_recipient : ℕ
flag_has_recipient = 0x01

abbrev pub flag_has_signature : ℕ
flag_has_signature = 0x02

abbrev pub flag_is_compressed : ℕ
flag_is_compressed = 0x04

abbrev pub broadcast_recipient : Bytes
broadcast_recipient = replicate 8 0xff

pub record BitchatPacket : Type 0 where
  pub msg_type : MessageType
  pub sender_id : Bytes
  pub sender_id_str : Text
  pub recipient_id : Option Bytes
  pub recipient_id_str : Option Text
  pub payload : Bytes
  pub ttl : ℕ

pub record BitchatMessage : Type 0 where
  pub id : Text
  pub content : Text
  pub channel : Option Text
  pub is_encrypted : Bool
  pub encrypted_content : Option Bytes

pub record DeliveryAck : Type 0 where
  pub original_message_id : Text
  pub ack_id : Text
  pub recipient_id : Text
  pub recipient_nickname : Text
  pub timestamp : ℕ
  pub hop_count : ℕ

-- `if x:` on an optional text or byte string: there, and not empty.
abbrev pub truthy : Option (List ℕ) → Bool
truthy none = false
truthy (some []) = false
truthy (some (x ∷ xs)) = true
