-- ===== src/Transport/Broadcast.antt =====
-- Whom a broadcast reaches, and what it leaves behind.
use bitchat_node_daemon.Base.{
  ℕ, ◌^◌, ◌≤◌, ◌<◌, ◌≡◌, refl, ◌∙◌, ◌≢◌, inl, inr, Bool, true, false, not, ◌&&◌, some, List, [],
  ◌∷◌, ◌++◌, map, append_assoc, append-nil, arith, ltb, if◌then◌else◌, ge→ltb, Bool-cases, length,
  ok, err, struct_error, connection_error,
}
use bitchat_node_daemon.Base.Bytes.{Bytes, Text, pack_u16}
use bitchat_node_daemon.Base.Dict.{Dict, remove, member}
use bitchat_node_daemon.Transport.{
  max_packet_size, PeerConnection, address, Event, disconnected, Transport, on_read_done, frame,
  send_packet, broadcast_loop, broadcast_packet,
}

-- The connections of a table that are not excluded and whose writer works, or does not.
abbrev pub targets : (PeerConnection → Bool) → List Text → Dict PeerConnection → List PeerConnection
targets chosen exclude [] = []
targets chosen exclude ((addr, conn) ∷ rest) =
    if not (member addr exclude) && chosen conn
    then conn ∷ targets chosen exclude rest
    else targets chosen exclude rest

abbrev pub remove_all : List PeerConnection → Dict PeerConnection → Dict PeerConnection
remove_all [] d = d
remove_all (c ∷ cs) d = remove_all cs (remove (address c) d)

abbrev pub gone : PeerConnection → Event
gone conn = disconnected (some conn)

abbrev pub written : Bytes → PeerConnection → ℕ × Bytes
written f conn = (conn.handle, f)

module _ (works : ℕ → Bool) (xs f : Bytes) (framed : frame xs ≡ ok f)
    (small : length xs < 2 ^ 16) where
  abbrev reached : PeerConnection → Bool
  reached conn = works conn.handle

  abbrev failed : PeerConnection → Bool
  failed conn = not (works conn.handle)

  abbrev expected : List Text → Dict PeerConnection → Transport → Transport
  expected exclude d t = record t {
    connections = remove_all (targets failed exclude d) t.connections;
    sent = t.sent ++ map (written f) (targets reached exclude d);
    closed = t.closed ++ map (λ c. c.handle) (targets failed exclude d);
    fired = t.fired ++ map gone (targets failed exclude d);
  }

  send_works :
      (conn : PeerConnection) (t : Transport)
      → works conn.handle ≡ true
      → send_packet works conn xs t ≡ (ok tt, record t { sent = t.sent ++ written f conn ∷ [] })
  unfolding send_packet
  send_works conn t w =
      let fits : ltb max_packet_size (length xs) ≡ false = ge→ltb _ _ (omega arith) in
      rw (fits, framed, w)

  send_fails :
      (conn : PeerConnection) (t : Transport)
      → works conn.handle ≡ false
      → send_packet works conn xs t ≡ (err connection_error, on_read_done conn t)
  unfolding send_packet
  send_fails conn t w =
      let fits : ltb max_packet_size (length xs) ≡ false = ge→ltb _ _ (omega arith) in
      rw (fits, framed, w)

  broadcast_loop_lem :
      (exclude : List Text) (d : Dict PeerConnection) (t : Transport)
      → broadcast_loop works xs exclude d t ≡ (ok tt, expected exclude d t)
  unfolding broadcast_loop
  broadcast_loop_lem exclude [] t = simp append-nil
  broadcast_loop_lem exclude ((addr, conn) ∷ rest) t = elim (Bool-cases (member addr exclude)) [
    | inl e ↦ rw e (broadcast_loop_lem exclude rest t)
    | inr e ↦ elim (Bool-cases (works conn.handle)) [
      | inl w ↦
          rw (e, send_works conn t w, w)
            (broadcast_loop_lem exclude rest (record t { sent = t.sent ++ written f conn ∷ [] })
              ∙ simp append_assoc)
      | inr w ↦
          rw (e, send_fails conn t w, w)
            (broadcast_loop_lem exclude rest (on_read_done conn t)
              ∙ unfold on_read_done in simp append_assoc)
    ]
  ]

  -- Given a packet below 64 KiB, a broadcast never raises. It writes the framed packet, in the order
  -- of the table, to each connection that is not excluded and whose writer works; each connection
  -- that is not excluded and whose writer fails is taken out of the table, closed and reported once
  -- as disconnected. Nothing else changes.
  pub broadcast_packet_lem :
      (exclude : List Text) (t : Transport)
      → broadcast_packet works xs exclude t ≡ (
        ok tt,
        record t {
          connections = remove_all (targets failed exclude t.connections) t.connections;
          sent = t.sent ++ map (written f) (targets reached exclude t.connections);
          closed = t.closed ++ map (λ c. c.handle) (targets failed exclude t.connections);
          fired = t.fired ++ map gone (targets failed exclude t.connections);
        },
      )
  unfolding broadcast_packet
  broadcast_packet_lem exclude t = broadcast_loop_lem exclude t.connections t

module _ (works : ℕ → Bool) (xs : Bytes) (exclude : List Text) (t : Transport)
    (long : 2 ^ 16 ≤ length xs) (short : length xs ≤ max_packet_size) where
  send_too_large : (conn : PeerConnection) → send_packet works conn xs t ≡ (err struct_error, t)
  unfolding send_packet frame pack_u16
  send_too_large conn = rw (ge→ltb _ _ short, ge→ltb _ _ long)

  loop_too_large :
      (d : Dict PeerConnection)
      → targets (λ c. true) exclude d ≢ []
      → broadcast_loop works xs exclude d t ≡ (err struct_error, t)
  unfolding broadcast_loop
  loop_too_large [] h = absurd (h refl)
  loop_too_large ((addr, conn) ∷ rest) h = elim (Bool-cases (member addr exclude)) [
    | inl e ↦ rw e (loop_too_large rest (rw e at h))
    | inr e ↦ rw (e, send_too_large conn)
  ]

  -- A packet of 64 KiB or more, up to the limit of 10 MB, is sent to nobody: as soon as one
  -- connection is not excluded, the broadcast raises `struct.error`, and nothing changes.
  pub broadcast_too_large :
      targets (λ c. true) exclude t.connections ≢ []
      → broadcast_packet works xs exclude t ≡ (err struct_error, t)
  unfolding broadcast_packet
  broadcast_too_large h = loop_too_large t.connections h
