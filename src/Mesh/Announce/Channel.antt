-- ===== src/Mesh/Announce/Channel.antt =====
-- The text of a channel announcement, read back.
use bitchat_node_daemon.Base.{
  ◌≡◌, refl, ap, ◌∙◌, Bool, true, false, Option, some, [], ◌∷◌, ◌++◌, if◌then◌else◌,
}
use bitchat_node_daemon.Base.Bytes.{Text, eq_text}
use bitchat_node_daemon.Mesh.Node.{MeshNode, Surroundings}
use bitchat_node_daemon.Base.Texts.{split, Lacks, split-append, split-Lacks}
use bitchat_node_daemon.Mesh.Peers.{read_channel_news}
use bitchat_node_daemon.Mesh.Announce.{channel_text, text_or_empty}

-- A text without a bar.
abbrev pub Plain : Text → Type 0
Plain t = Lacks 124 t

flag_lem :
    (b : Bool) (rest : Text)
    → split 124 ((if b then 49 else 48) ∷ 124 ∷ rest)
      ≡ ((if b then 49 else 48) ∷ []) ∷ split 124 rest
unfolding split
flag_lem true rest = refl
flag_lem false rest = refl

flag_read : (b : Bool) → eq_text ((if b then 49 else 48) ∷ []) (49 ∷ []) ≡ b
unfolding eq_text
flag_read true = refl
flag_read false = refl

-- A channel, its protection, its creator and a commitment, with bars between them, are read back.
pub read-news_text :
    (channel : Text) (is_protected : Bool) (me said : Text)
    → Plain channel
    → Plain me
    → Plain said
    → read_channel_news (
        split 124
          (channel ++ (124 ∷ (if is_protected then 49 else 48) ∷ 124 ∷ (me ++ (124 ∷ said)))))
      ≡ some (record {
        channel = channel;
        is_protected = is_protected;
        creator_id = me;
        key_commitment = said;
      })
unfolding read_channel_news
read-news_text channel is_protected me said h h' h'' =
    let last = split-append 124 me said h' ∙ ap (λ r. me ∷ r) (split-Lacks 124 said h'') in
    let flag : Text = (if is_protected then 49 else 48) ∷ [] in
    let middle = flag_lem is_protected (me ++ 124 ∷ said) ∙ ap (λ r. flag ∷ r) last in
    let parts : split 124
          (channel ++ (124 ∷ (if is_protected then 49 else 48) ∷ 124 ∷ (me ++ (124 ∷ said))))
        ≡ channel ∷ flag ∷ me ∷ said ∷ [] =
      split-append 124 channel ((if is_protected then 49 else 48) ∷ 124 ∷ (me ++ 124 ∷ said)) h
      ∙ ap (λ r. channel ∷ r) middle in
    rw (parts, flag_read is_protected) refl

module _ (w : Surroundings) where
  -- Where the name of the channel, the id of the node and the commitment have no bar, the text that
  -- announces a channel is read as that channel, its protection, the node as its creator, and the commitment.
  pub read-channel_text :
      (channel : Text) (is_protected : Bool) (commitment : Option Text) (node : MeshNode)
      → Plain channel
      → Plain node.my_peer_id
      → Plain (text_or_empty w commitment)
      → read_channel_news (split 124 (channel_text w channel is_protected commitment node))
        ≡ some (record {
          channel = channel;
          is_protected = is_protected;
          creator_id = node.my_peer_id;
          key_commitment = text_or_empty w commitment;
        })
  read-channel_text channel is_protected commitment node =
      read-news_text channel is_protected node.my_peer_id (text_or_empty w commitment)
