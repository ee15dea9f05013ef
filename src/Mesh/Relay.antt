-- ===== src/Mesh/Relay.antt =====
-- What a relayed packet is to the next node.
use bitchat_node_daemon.Base.{
  ◌+◌, ◌-◌, ◌≤◌, ◌<◌, ◌≡◌, refl, ◌⊎◌, inl, inr, [], ◌∷◌, arith, leb, Bool-cases, set, ok,
}
use bitchat_node_daemon.Base.Bytes.{Bytes}
use bitchat_node_daemon.Compression.{Lz4}
use bitchat_node_daemon.Protocol.Types.{BitchatPacket}
use bitchat_node_daemon.Protocol.Packet.{parse_bitchat_packet}
use bitchat_node_daemon.Protocol.Packet.Relayed.{parse-set_ttl}
use bitchat_node_daemon.Mesh.Node.{broadcast, relay}

-- A packet that was read from `raw` with a TTL above 1 is sent on once, as a packet that reads the same but
-- for a TTL that is one lower; with a TTL of at most 1 nothing is sent.
pub relay-parse :
    (lz4 : Lz4) (raw : Bytes) (p : BitchatPacket)
    → parse_bitchat_packet lz4 raw ≡ ok p
    → ((p.ttl ≤ 1) × (relay raw p.ttl ≡ []))
      ⊎ ((xs : Bytes) × (1 < p.ttl)
          × (relay raw p.ttl ≡ broadcast xs ∷ [])
          × (parse_bitchat_packet lz4 xs ≡ ok (record p { ttl = p.ttl - 1 }))
          × (p.ttl - 1 + 1 ≡ p.ttl))
unfolding relay
relay-parse lz4 raw p h = elim (Bool-cases (leb p.ttl 1)) [
  | inl small ↦ inl (ground arith, rw (small, relay) refl)
  | inr big ↦ inr (
    set raw 2 (p.ttl - 1),
    ground arith,
    rw (big, relay) refl,
    parse-set_ttl lz4 raw (p.ttl - 1) p h,
    ground arith,
  )
]
