-- ===== src/Mesh/Peers/Departure.antt =====
-- What is left of a peer that has gone, and what of the others.
use bitchat_node_daemon.Base.{◌≡◌, refl, false, All}
use bitchat_node_daemon.Base.Bytes.{Text, eq_text}
use bitchat_node_daemon.Base.Dict.{Dict, lookup, lookup-remove, without}
use bitchat_node_daemon.Encryption.Service.{remove_session}
use bitchat_node_daemon.Mesh.Node.{MeshNode}
use bitchat_node_daemon.Mesh.Peers.{remove_peer}

-- Five tables by key after a peer was removed, and the times of its handshakes.
pub record Forgets (peer : Text) (node node' : MeshNode) : Type 0 where
  pub peers : (q : Text) → lookup q node'.peers ≡ without peer node.peers q
  pub addresses : (q : Text) → lookup q node'.peer_addresses ≡ without peer node.peer_addresses q
  pub pending :
      (q : Text)
      → lookup q node'.pending_private_messages ≡ without peer node.pending_private_messages q
  pub sessions :
      (q : Text)
      → lookup q node'.encryption_service.sessions ≡ without peer node.encryption_service.sessions q
  pub handshakes :
      (q : Text)
      → lookup q node'.encryption_service.handshake_states
        ≡ without peer node.encryption_service.handshake_states q
  pub attempts : node'.handshake_attempt_times ≡ node.handshake_attempt_times

-- A peer that is removed has no entry in the tables of peers, addresses, waiting messages, sessions and
-- handshakes any more; every other entry of these stays, and so does the time of the last handshake that
-- was started with the peer.
pub remove_peer-Forgets :
    (peer : Text) (node : MeshNode) → Forgets peer node (remove_peer peer node).1
unfolding remove_peer remove_session
remove_peer-Forgets peer node = record {
  peers = λ q. lookup-remove peer q node.peers;
  addresses = λ q. lookup-remove peer q node.peer_addresses;
  pending = λ q. lookup-remove peer q node.pending_private_messages;
  sessions = λ q. lookup-remove peer q node.encryption_service.sessions;
  handshakes = λ q. lookup-remove peer q node.encryption_service.handshake_states;
  attempts = refl;
}

-- No entry has the address.
abbrev pub IsElsewhere : Text → Dict Text → Type 0
IsElsewhere address = All (λ e. eq_text e.1 address ≡ false)
