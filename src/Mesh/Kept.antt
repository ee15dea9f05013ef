-- ===== src/Mesh/Kept.antt =====
-- The part of a node of daemon/mesh.py that packets leave as it was, and lemmas on the branches of handlers.
use bitchat_node_daemon.Base.{
  ℕ, ◌≡◌, refl, Bool, true, false, Option, none, some, List, if◌then◌else◌, Error, Result, ok, err,
}
use bitchat_node_daemon.Base.Bytes.{Text}
use bitchat_node_daemon.Base.Dict.{Dict}
use bitchat_node_daemon.Protocol.Trackers.{FragmentCollector, DeliveryTracker}
use bitchat_node_daemon.Encryption.Service.{EncryptionService}
use bitchat_node_daemon.Mesh.Node.{MeshNode}

-- The id of the node, its nickname, the peers that it blocks, and the fragments that it has collected.
unfoldable pub kept : MeshNode → Text × Text × List Text × FragmentCollector
kept node = (node.my_peer_id, node.nickname, node.blocked_peers, node.fragment_collector)

pub service_keeps :
    (v : EncryptionService) (node : MeshNode)
    → kept (record node { encryption_service = v }) ≡ kept node
unfolding kept
service_keeps v node = refl

pub tracker_keeps :
    (t : DeliveryTracker) (node : MeshNode)
    → kept (record node { delivery_tracker = t }) ≡ kept node
unfolding kept
tracker_keeps t node = refl

pub marked_keeps :
    (bloom ids : List Text) (node : MeshNode)
    → kept (record node { bloom = bloom; processed_messages = ids }) ≡ kept node
unfolding kept
marked_keeps bloom ids node = refl

pub on_result {ℓ κ} :
    {A : Type ℓ} {B : Type κ} (r : Result A) (f : Error → B × MeshNode) (g : A → B × MeshNode)
    (node : MeshNode)
    → ((e : Error) → kept (f e).1 ≡ kept node)
    → ((x : A) → kept (g x).1 ≡ kept node)
    → kept (elim r as (λ _. B × MeshNode) [ err e ↦ f e | ok x ↦ g x ]).1 ≡ kept node
on_result (err e) f g node h h' = h e
on_result (ok x) f g node h h' = h' x

pub on_option {ℓ κ} :
    {A : Type ℓ} {B : Type κ} (o : Option A) (f : B × MeshNode) (g : A → B × MeshNode)
    (node : MeshNode)
    → kept f.1 ≡ kept node
    → ((x : A) → kept (g x).1 ≡ kept node)
    → kept (elim o as (λ _. B × MeshNode) [ none ↦ f | some x ↦ g x ]).1 ≡ kept node
on_option none f g node h h' = h
on_option (some x) f g node h h' = h' x

pub on_if {κ} :
    {B : Type κ} (b : Bool) (x y : B × MeshNode) (node : MeshNode)
    → kept x.1 ≡ kept node
    → kept y.1 ≡ kept node
    → kept (if b then x else y).1 ≡ kept node
on_if true x y node h h' = h
on_if false x y node h h' = h'

pub pending_keeps :
    (p : Dict (List (Text × Text × Text))) (node : MeshNode)
    → kept (record node { pending_private_messages = p }) ≡ kept node
unfolding kept
pending_keeps p node = refl

pub tried_keeps :
    (p : Dict (List (Text × Text × Text))) (times : Dict ℕ) (node : MeshNode)
    → kept (record node { pending_private_messages = p; handshake_attempt_times = times })
      ≡ kept node
unfolding kept
tried_keeps p times node = refl

pub times_keeps :
    (times : Dict ℕ) (node : MeshNode)
    → kept (record node { handshake_attempt_times = times }) ≡ kept node
unfolding kept
times_keeps times node = refl

pub addresses_keeps :
    (addresses : Dict Text) (node : MeshNode)
    → kept (record node { peer_addresses = addresses }) ≡ kept node
unfolding kept
addresses_keeps addresses node = refl
