-- ===== src/Transport.antt =====
-- daemon/transport.py: the table of connections, framing, and the callbacks, which are recorded.
pub mod Stream
pub mod Framing
pub mod Broadcast
pub mod Table
use bitchat_node_daemon.Base.{
  ℕ, ◌*◌, Bool, true, false, Option, none, some, List, ◌∷◌, ◌++◌, ltb, if◌then◌else◌, length, Error,
  Result, ok, err, value_error, connection_error, os_error, [], ◌>>=◌,
}
use bitchat_node_daemon.Base.Bytes.{Bytes, Text, pack_u16}
use bitchat_node_daemon.Base.Dict.{Dict, lookup, insert, remove, member}
use bitchat_node_daemon.Base.Decimal.{decimal}

abbrev pub max_packet_size : ℕ
max_packet_size = 10 * 1024 * 1024

-- `handle` stands for the pair of a reader and a writer, which tells two connections to one
-- address apart.
pub record PeerConnection : Type 0 where
  pub host : Text
  pub port : ℕ
  pub handle : ℕ
  pub is_outgoing : Bool

-- `f"{host}:{port}"`
unfoldable pub join_address : Text → ℕ → Text
join_address host port = host ++ b':' ∷ decimal port

abbrev pub address : PeerConnection → Text
address conn = join_address conn.host conn.port

-- A call of one of the three callbacks.
pub data Event : Type 0 where
  connected : PeerConnection → Event
  disconnected : Option PeerConnection → Event
  packet : PeerConnection → Bytes → Event

-- `sent` is what was written to each writer, in order; `closed` the writers that were closed.
pub record Transport : Type 0 where
  pub connections : Dict PeerConnection
  pub sent : List (ℕ × Bytes)
  pub closed : List ℕ
  pub fired : List Event
  pub serving : Bool

abbrev pub new_transport : Transport
new_transport = record { connections = []; sent = []; closed = []; fired = []; serving = false }

unfoldable pub fire : Event → Transport → Transport
fire e t = record t { fired = t.fired ++ e ∷ [] }

unfoldable pub close : PeerConnection → Transport → Transport
close conn t = record t { closed = t.closed ++ conn.handle ∷ [] }

unfoldable pub start_server : Transport → Transport
start_server t = record t { serving = true }

unfoldable pub stop_server : Transport → Transport
stop_server t = record t { serving = false }

-- `_handle_client` up to its read loop, and its `finally` block.
unfoldable pub accept : PeerConnection → Transport → Transport
unfolding fire
accept conn t =
    fire (connected conn) (record t { connections = insert (address conn) conn t.connections })

unfoldable pub client_gone : PeerConnection → Transport → Transport
unfolding fire close
client_gone conn t =
    fire (disconnected (some conn))
      (close conn (record t { connections = remove (address conn) t.connections }))

abbrev pub new_connection : Text → ℕ → ℕ → PeerConnection
new_connection host port handle = record {
  host = host;
  port = port;
  handle = handle;
  is_outgoing = true;
}

-- `outcome` is what `asyncio.open_connection` gives: a fresh handle, or the error it raises.
unfoldable pub connect_new : Text → ℕ → Result ℕ → Transport → Result PeerConnection × Transport
unfolding fire
connect_new host port (err e) t = (err e, t)
connect_new host port (ok handle) t =
    let conn : PeerConnection = new_connection host port handle in
    (
      ok conn,
      fire (connected conn) (record t { connections = insert (address conn) conn t.connections }),
    )

unfoldable pub connect : Text → ℕ → Result ℕ → Transport → Result PeerConnection × Transport
unfolding connect_new
connect host port outcome t = elim (lookup (join_address host port) t.connections) [
  | some conn ↦ (ok conn, t)
  | none ↦ connect_new host port outcome t
]

unfoldable pub disconnect : Text → Transport → Transport
unfolding fire close
disconnect addr t =
    let t' : Transport = record t { connections = remove addr t.connections } in
    elim (lookup addr t.connections) [
      | none ↦ fire (disconnected none) t'
      | some conn ↦ fire (disconnected (some conn)) (close conn t')
    ]

-- `_on_read_done`: the read loop of `conn` has ended. The table is asked for its address only.
unfoldable pub on_read_done : PeerConnection → Transport → Transport
unfolding fire close
on_read_done conn t =
    fire (disconnected (some conn))
      (close conn (record t { connections = remove (address conn) t.connections }))

-- The two bytes of length and the packet.
unfoldable pub frame : Bytes → Result Bytes
frame xs = do header ← pack_u16 (length xs); ok (header ++ xs)

-- `works handle` says whether a write to that writer goes through or raises `ConnectionError`.
unfoldable pub send_packet :
    (ℕ → Bool) → PeerConnection → Bytes → Transport → Result (Unit {0}) × Transport
unfolding frame on_read_done
send_packet works conn xs t =
    if ltb max_packet_size (length xs) then (err value_error, t) else elim (frame xs) [
      | err e ↦ (err e, t)
      | ok framed ↦
          if works conn.handle
          then (ok tt, record t { sent = t.sent ++ (conn.handle, framed) ∷ [] })
          else (err connection_error, on_read_done conn t)
    ]

-- `except (ConnectionError, OSError)`
abbrev pub caught_on_send : Error → Bool
caught_on_send connection_error = true
caught_on_send os_error = true
caught_on_send _ = false

abbrev pub after_send :
    Result (Unit {0})
    → Transport
    → (Transport → Result (Unit {0}) × Transport)
    → Result (Unit {0}) × Transport
after_send (ok u) t k = k t
after_send (err e) t k = if caught_on_send e then k t else (err e, t)

-- A caught error does not end the loop; any other does.
unfoldable pub broadcast_loop :
    (ℕ → Bool) → Bytes → List Text → Dict PeerConnection → Transport → Result (Unit {0}) × Transport
broadcast_loop works xs exclude [] t = (ok tt, t)
broadcast_loop works xs exclude ((addr, conn) ∷ rest) t =
    let skip = broadcast_loop works xs exclude rest t in
    let (r, t') = send_packet works conn xs t in
    if member addr exclude then skip else after_send r t' (broadcast_loop works xs exclude rest)

-- The loop runs over a copy of the table.
unfoldable pub broadcast_packet :
    (ℕ → Bool) → Bytes → List Text → Transport → Result (Unit {0}) × Transport
unfolding broadcast_loop
broadcast_packet works xs exclude t = broadcast_loop works xs exclude t.connections t

unfoldable pub get_connection_count : Transport → ℕ
get_connection_count t = length t.connections

unfoldable pub close_all : Dict PeerConnection → Transport → Transport
close_all [] t = t
close_all ((_, conn) ∷ rest) t = close_all rest (close conn t)

unfoldable pub stop : Transport → Transport
unfolding close_all close stop_server
stop t = let t' = close_all t.connections t in stop_server (record t' { connections = [] })
