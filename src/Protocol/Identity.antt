-- ===== src/Protocol/Identity.antt =====
-- The binary identity announcement of bitchat/protocol.py.
pub mod Read
pub mod Write
pub mod RoundTrip
use bitchat_node_daemon.Base.{ℕ, Option}
use bitchat_node_daemon.Base.Bytes.{Text}

-- A number of seconds, its whole part and its thousandths.
pub record Seconds : Type 0 where
  pub whole : ℕ
  pub thousandths : ℕ

-- The dictionary that the reader returns. `timestamp` is the exact value of which the source has the
-- nearest float; `'truncated'` is always `False` and left out.
pub record Announcement : Type 0 where
  pub peer_id : Text
  pub public_key : Text
  pub signing_public_key : Text
  pub nickname : Text
  pub timestamp : Seconds
  pub signature : Text
  pub previous_peer_id : Option Text
