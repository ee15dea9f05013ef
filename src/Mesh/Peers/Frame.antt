-- ===== src/Mesh/Peers/Frame.antt =====
-- What the handlers of peers and channels of daemon/mesh.py leave as it was.
use bitchat_node_daemon.Base.{◌≡◌, refl, arith}
use bitchat_node_daemon.Base.Bytes.{Bytes, Text}
use bitchat_node_daemon.Base.Utf8.{ignore, decode}
use bitchat_node_daemon.Base.Texts.{split}
use bitchat_node_daemon.Protocol.Types.{BitchatPacket}
use bitchat_node_daemon.Mesh.Node.{MeshNode}
use bitchat_node_daemon.Mesh.Peers.{
  learn_peer, handle_announce, remove_peer, handle_leave, ChannelNews, protect_channel,
  note_channel, handle_channel_announce, read_channel_news,
}
use bitchat_node_daemon.Mesh.Kept.{kept, on_result, on_option}

pub learn_peer_keeps :
    (peer nickname : Text) (node : MeshNode) → kept (learn_peer peer nickname node).1 ≡ kept node
unfolding learn_peer kept
learn_peer_keeps peer nickname node = refl

pub handle_announce_keeps :
    (packet : BitchatPacket) (node : MeshNode) → kept (handle_announce packet node).1 ≡ kept node
unfolding handle_announce learn_peer kept
handle_announce_keeps packet node = ground arith

remove_peer_keeps : (peer : Text) (node : MeshNode) → kept (remove_peer peer node).1 ≡ kept node
unfolding remove_peer kept
remove_peer_keeps peer node = refl

pub handle_leave_keeps :
    (packet : BitchatPacket) (raw : Bytes) (node : MeshNode)
    → kept (handle_leave packet raw node).1 ≡ kept node
unfolding handle_leave remove_peer kept
handle_leave_keeps packet raw node = ground arith

note_channel_keeps :
    (news : ChannelNews) (node : MeshNode) → kept (note_channel news node) ≡ kept node
unfolding note_channel protect_channel kept
note_channel_keeps news node = ground arith

pub handle_channel_announce_keeps :
    (packet : BitchatPacket) (node : MeshNode)
    → kept (handle_channel_announce packet node).1 ≡ kept node
unfolding handle_channel_announce
handle_channel_announce_keeps packet node =
    on_result (decode ignore packet.payload) _ _ node (λ e. refl)
      (λ t.
        on_option (read_channel_news (split 124 t)) _ _ node refl (λ n. note_channel_keeps n node))
