-- ===== src/Transport/Table.antt =====
-- The table of connections of daemon/transport.py over the events of the life of a connection.
use bitchat_node_daemon.Base.{
  ℕ, ◌≡◌, refl, ap, false, inl, inr, none, some, [], ◌∷◌, ◌++◌, append_assoc, arith, Bool-cases,
  Option-cases, All, Result, ok, err,
}
use bitchat_node_daemon.Base.Bytes.{Text, eq_text, eq_text_refl, eq_text_iff}
use bitchat_node_daemon.Base.Dict.{Dict, lookup, insert, remove, lookup-insert, lookup-remove}
use bitchat_node_daemon.Transport.{
  PeerConnection, join_address, address, disconnected, Transport, new_transport, fire, close,
  accept, client_gone, connect_new, new_connection, connect, disconnect, on_read_done,
}

-- Every entry stands under the address of its connection.
abbrev pub IsKeyed : Dict PeerConnection → Type 0
IsKeyed = All (λ p. p.0 ≡ address p.1)

insert-IsKeyed :
    (conn : PeerConnection) (d : Dict PeerConnection)
    → IsKeyed d
    → IsKeyed (insert (address conn) conn d)
unfolding insert
insert-IsKeyed conn [] h = (refl, tt)
insert-IsKeyed conn ((k, c) ∷ d) h = elim (Bool-cases (eq_text k (address conn))) [
  | inl e ↦ rw e ((eq_text_iff k (address conn)).0 e, h.1)
  | inr e ↦ rw e (h.0, insert-IsKeyed conn d h.1)
]

remove-IsKeyed : (k : Text) (d : Dict PeerConnection) → IsKeyed d → IsKeyed (remove k d)
unfolding remove
remove-IsKeyed k [] h = tt
remove-IsKeyed k ((j, c) ∷ d) h = elim (Bool-cases (eq_text j k)) [
  | inl e ↦ rw e (remove-IsKeyed k d h.1)
  | inr e ↦ rw e (h.0, remove-IsKeyed k d h.1)
]

-- What the operating system and the users of the transport may do next.
pub data Step (t : Transport) : Transport → Type 0 where
  accepts : (conn : PeerConnection) → Step t (accept conn t)
  client_ends : (conn : PeerConnection) → Step t (client_gone conn t)
  connects : (host : Text) (port : ℕ) (outcome : Result ℕ) → Step t (connect host port outcome t).1
  disconnects : (addr : Text) → Step t (disconnect addr t)
  read_ends : (conn : PeerConnection) → Step t (on_read_done conn t)

pub data Reach : Transport → Type 0 where
  here : Reach new_transport
  next : {t u : Transport} → Reach t → Step t u → Reach u

module _ (host : Text) (port : ℕ) (outcome : Result ℕ) (t : Transport) where
  connect-found :
      (conn : PeerConnection)
      → lookup (join_address host port) t.connections ≡ some conn
      → connect host port outcome t ≡ (ok conn, t)
  unfolding connect
  connect-found conn e = rw (e, connect)

  connect-absent :
      lookup (join_address host port) t.connections ≡ none
      → connect host port outcome t ≡ connect_new host port outcome t
  unfolding connect
  connect-absent e = rw (e, connect)

module _ (addr : Text) (t : Transport) where
  abbrev dropped : Transport
  dropped = record t { connections = remove addr t.connections }

  disconnect-found :
      (conn : PeerConnection)
      → lookup addr t.connections ≡ some conn
      → disconnect addr t ≡ fire (disconnected (some conn)) (close conn dropped)
  unfolding disconnect
  disconnect-found conn e = rw (e, disconnect)

  disconnect-absent :
      lookup addr t.connections ≡ none → disconnect addr t ≡ fire (disconnected none) dropped
  unfolding disconnect
  disconnect-absent e = rw (e, disconnect)

  missing : lookup addr (remove addr t.connections) ≡ none
  missing = rw (lookup-remove addr addr t.connections, eq_text_refl addr)

connect_new-IsKeyed :
    (host : Text) (port : ℕ) (o : Result ℕ) (t : Transport)
    → IsKeyed t.connections
    → IsKeyed (connect_new host port o t).1.connections
unfolding connect_new
connect_new-IsKeyed host port (err e) t h = h
connect_new-IsKeyed host port (ok handle) t h =
    insert-IsKeyed (new_connection host port handle) t.connections h

connect-IsKeyed :
    (host : Text) (port : ℕ) (outcome : Result ℕ) (t : Transport)
    → IsKeyed t.connections
    → IsKeyed (connect host port outcome t).1.connections
connect-IsKeyed host port outcome t h =
    elim (Option-cases (lookup (join_address host port) t.connections)) [
      | inr (conn, e) ↦ rw (connect-found host port outcome t conn e) h
      | inl e ↦
          rw (connect-absent host port outcome t e) (connect_new-IsKeyed host port outcome t h)
    ]

disconnect-IsKeyed :
    (addr : Text) (t : Transport) → IsKeyed t.connections → IsKeyed (disconnect addr t).connections
unfolding fire close
disconnect-IsKeyed addr t h = elim (Option-cases (lookup addr t.connections)) [
  | inl e ↦ rw (disconnect-absent addr t e) (remove-IsKeyed addr t.connections h)
  | inr (conn, e) ↦ rw (disconnect-found addr t conn e) (remove-IsKeyed addr t.connections h)
]

Step-IsKeyed : {t u : Transport} → Step t u → IsKeyed t.connections → IsKeyed u.connections
Step-IsKeyed {t} (accepts conn) h = unfold accept in insert-IsKeyed conn t.connections h
Step-IsKeyed {t} (client_ends conn) h =
    unfold client_gone in remove-IsKeyed (address conn) t.connections h
Step-IsKeyed {t} (connects host port outcome) h = connect-IsKeyed host port outcome t h
Step-IsKeyed {t} (disconnects addr) h = disconnect-IsKeyed addr t h
Step-IsKeyed {t} (read_ends conn) h =
    unfold on_read_done in remove-IsKeyed (address conn) t.connections h

-- Whatever connections come, go and are asked for, in any order, every entry of the table stands
-- under the address of its connection.
pub Reach-IsKeyed : {t : Transport} → Reach t → IsKeyed t.connections
Reach-IsKeyed here = tt
Reach-IsKeyed (next r s) = Step-IsKeyed s (Reach-IsKeyed r)

connect_new_found :
    (host : Text) (port : ℕ) (o : Result ℕ) (t : Transport) (conn : PeerConnection)
    → (connect_new host port o t).0 ≡ ok conn
    → lookup (join_address host port) (connect_new host port o t).1.connections ≡ some conn
unfolding connect_new
connect_new_found host port (err e) t conn h = cc
connect_new_found host port (ok handle) t conn h =
    let same : new_connection host port handle ≡ conn = ground arith in
    let addr = join_address host port in
    rw (lookup-insert addr addr (new_connection host port handle) t.connections, eq_text_refl addr)
      (ap some same)

-- After a successful `connect` the connection is found under the address, it is the one that the
-- call returned, and a second `connect` returns it again and changes nothing, whatever the network
-- would have answered.
pub connect_twice :
    (host : Text) (port : ℕ) (first second : Result ℕ) (t : Transport) (conn : PeerConnection)
    → (connect host port first t).0 ≡ ok conn
    → (lookup (join_address host port) (connect host port first t).1.connections ≡ some conn)
      × (connect host port second (connect host port first t).1
          ≡ (ok conn, (connect host port first t).1))
connect_twice host port first second t conn h =
    elim (Option-cases (lookup (join_address host port) t.connections)) [
      | inr (old, e) ↦
          let c = connect-found host port first t old e in
          let same : old ≡ conn = ground (arith, c) in
          rw c (rw same at e, connect-found host port second t conn (rw same at e))
      | inl e ↦
          let c = connect-absent host port first t e in
          let found = connect_new_found host port first t conn (rw c at h) in
          rw c (found, connect-found host port second _ conn found)
    ]

-- What is left without a key has no connection of that address.
remove-lacks :
    (k : Text) (d : Dict PeerConnection)
    → IsKeyed d
    → All (λ e. eq_text (address e.1) k ≡ false) (remove k d)
unfolding remove
remove-lacks k [] h = tt
remove-lacks k ((j, c) ∷ d) (h, hs) = elim (Bool-cases (eq_text j k)) [
  | inl e ↦ rw e (remove-lacks k d hs)
  | inr e ↦ rw e (rw (← h) e, remove-lacks k d hs)
]

-- The table is asked for an address only. If a connection was replaced by a newer one to the same address in a
-- table whose entries stand under their addresses, the end of the old one's read loop closes the old one
-- only and leaves no connection of that address in the table, so that the newer one is not in it either.
pub stale_read_done :
    (old new : PeerConnection) (t : Transport)
    → IsKeyed t.connections
    → address old ≡ address new
    → (lookup (address new) (accept new t).connections ≡ some new)
      × All
          (λ e. eq_text (address e.1) (address new) ≡ false)
          (on_read_done old (accept new t)).connections
      × ((on_read_done old (accept new t)).closed ≡ t.closed ++ old.handle ∷ [])
unfolding accept on_read_done
stale_read_done old new t keyed e = (
  rw (lookup-insert (address new) (address new) new t.connections, eq_text_refl (address new)),
  rw e (
      remove-lacks (address new) (insert (address new) new t.connections)
        (insert-IsKeyed new t.connections keyed)),
  refl,
)

-- An asked-for disconnect reports the connection as lost, and the end of its read loop, which
-- follows, reports it a second time; an address without an entry is reported, too, with no connection, and
-- nothing is closed then.
pub disconnect_reports :
    (conn : PeerConnection) (t : Transport) (addr unknown : Text)
    → lookup addr t.connections ≡ some conn
    → lookup unknown t.connections ≡ none
    → ((on_read_done conn (disconnect addr t)).fired
        ≡ t.fired ++ disconnected (some conn) ∷ disconnected (some conn) ∷ [])
      × (lookup addr (disconnect addr t).connections ≡ none)
      × ((disconnect addr (disconnect addr t)).fired
          ≡ t.fired ++ disconnected (some conn) ∷ disconnected none ∷ [])
      × ((disconnect unknown t).fired ≡ t.fired ++ disconnected none ∷ [])
      × ((disconnect unknown t).closed ≡ t.closed)
unfolding on_read_done
disconnect_reports conn t addr unknown h absent =
    let again =
      disconnect-absent addr (fire (disconnected (some conn)) (close conn (dropped addr t)))
        (unfold fire close in missing addr t) in
    rw (disconnect-found addr t conn h, again, disconnect-absent unknown t absent)
      (unfold fire close in (simp append_assoc, missing addr t, simp append_assoc, refl, refl))
