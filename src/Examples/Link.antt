-- ===== src/Examples/Link.antt =====
-- A transport with a connection or two.
use bitchat_node_daemon.Base.{
  ℕ, ◌^◌, ◌≡◌, refl, ◌≢◌, Bool, true, false, not, none, some, [], ◌∷◌, ◌++◌, map, arith, ◌==◌,
  length, replicate, All, length-replicate, ok, err, struct_error,
}
use bitchat_node_daemon.Base.Bytes.{Bytes, IsByte, eq_text, pack_u16}
use bitchat_node_daemon.Base.Dict.{Dict, lookup, member}
use bitchat_node_daemon.Base.Decimal.{decimal}
use bitchat_node_daemon.Transport.{
  PeerConnection, address, join_address, disconnected, Transport, new_transport, accept, disconnect,
  on_read_done, frame, broadcast_packet,
}
use bitchat_node_daemon.Transport.Stream.{stuck, too_large, read_loop}
use bitchat_node_daemon.Transport.Framing.{frame_all, read_loop_ends, read_loop-frame_all}
use bitchat_node_daemon.Transport.Broadcast.{
  targets, remove_all, written, gone, broadcast_packet_lem, broadcast_too_large,
}
use bitchat_node_daemon.Transport.Table.{
  IsKeyed, here, next, accepts, Reach-IsKeyed, stale_read_done, disconnect_reports,
}

abbrev near : PeerConnection
near = record { host = b'h' ∷ []; port = 1; handle = 10; is_outgoing = true }

abbrev newer : PeerConnection
newer = record near { handle = 11 }

abbrev far : PeerConnection
far = record { host = b'f' ∷ []; port = 2; handle = 20; is_outgoing = false }

abbrev table : Dict PeerConnection
table = (address near, near) ∷ (address far, far) ∷ []

abbrev two_connections : Transport
two_connections = record new_transport { connections = table }

read_loop_ends_example :
    ((read_loop (0 ∷ 1 ∷ 7 ∷ 9 ∷ [])).1 ≢ stuck)
    × (All IsByte (0 ∷ 1 ∷ 7 ∷ 9 ∷ []) → (read_loop (0 ∷ 1 ∷ 7 ∷ 9 ∷ [])).1 ≢ too_large)
read_loop_ends_example = read_loop_ends (0 ∷ 1 ∷ 7 ∷ 9 ∷ [])

read_loop-frame_all_example :
    read_loop ((0 ∷ 1 ∷ 7 ∷ 0 ∷ 0 ∷ []) ++ 9 ∷ [])
    ≡ ((7 ∷ []) ∷ [] ∷ [] ++ (read_loop (9 ∷ [])).0, (read_loop (9 ∷ [])).1)
unfolding frame_all frame pack_u16
read_loop-frame_all_example =
    read_loop-frame_all ((7 ∷ []) ∷ [] ∷ []) (0 ∷ 1 ∷ 7 ∷ 0 ∷ 0 ∷ []) (9 ∷ []) refl

abbrev near_works : ℕ → Bool
near_works handle = handle == 10

broadcast_packet_lem_example : broadcast_packet near_works (7 ∷ []) [] two_connections ≡ (
  ok tt,
  record two_connections {
    connections = remove_all (targets (λ c. not (near_works c.handle)) [] table) table;
    sent = [] ++ map (written (0 ∷ 1 ∷ 7 ∷ [])) (targets (λ c. near_works c.handle) [] table);
    closed = [] ++ map (λ c. c.handle) (targets (λ c. not (near_works c.handle)) [] table);
    fired = [] ++ map gone (targets (λ c. not (near_works c.handle)) [] table);
  },
)
unfolding frame pack_u16
broadcast_packet_lem_example =
    broadcast_packet_lem near_works (7 ∷ []) (0 ∷ 1 ∷ 7 ∷ []) refl (omega arith) [] two_connections

abbrev long : Bytes
long = replicate (2 ^ 16) 0

length-long : length long ≡ 2 ^ 16
length-long = length-replicate {A = ℕ} (2 ^ 16) 0

some_target : targets (λ c. true) [] table ≢ []
unfolding member
some_target h = cc

broadcast_too_large_example :
    broadcast_packet (λ h. true) long [] two_connections ≡ (err struct_error, two_connections)
broadcast_too_large_example =
    broadcast_too_large (λ h. true) long [] two_connections (rw length-long omega arith)
      (rw length-long omega arith) some_target

Reach-IsKeyed_example : IsKeyed (accept far (accept near new_transport)).connections
Reach-IsKeyed_example = Reach-IsKeyed (next (next here (accepts near)) (accepts far))

stale_read_done_example :
    (lookup (address newer) (accept newer two_connections).connections ≡ some newer)
    × All
        (λ e. eq_text (address e.1) (address newer) ≡ false)
        (on_read_done near (accept newer two_connections)).connections
    × ((on_read_done near (accept newer two_connections)).closed ≡ [] ++ 10 ∷ [])
stale_read_done_example = stale_read_done near newer two_connections (refl, (refl, tt)) refl

disconnect_reports_example :
    ((on_read_done near (disconnect (address near) two_connections)).fired
      ≡ [] ++ disconnected (some near) ∷ disconnected (some near) ∷ [])
    × (lookup (address near) (disconnect (address near) two_connections).connections ≡ none)
    × ((disconnect (address near) (disconnect (address near) two_connections)).fired
        ≡ [] ++ disconnected (some near) ∷ disconnected none ∷ [])
    × ((disconnect [] two_connections).fired ≡ [] ++ disconnected none ∷ [])
    × ((disconnect [] two_connections).closed ≡ [])
unfolding lookup eq_text join_address decimal
disconnect_reports_example = disconnect_reports near two_connections (address near) [] refl refl
