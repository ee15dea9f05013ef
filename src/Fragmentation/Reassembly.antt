-- ===== src/Fragmentation/Reassembly.antt =====
-- The fragments of bitchat/fragmentation.py in the collector of bitchat/protocol.py.
use bitchat_node_daemon.Base.{
  ℕ, ◌+◌, ◌-◌, ◌<◌, ◌≡◌, refl, sym, ap, ◌∙◌, subst, Option, none, some, List, [], ◌∷◌, ◌++◌, map,
  arith, if◌then◌else◌, gt→leb, length, replicate, All,
}
use bitchat_node_daemon.Base.Bytes.{Bytes, Text, eq_text}
use bitchat_node_daemon.Base.Hex.{hex}
use bitchat_node_daemon.Base.Dict.{lookup}
use mathlib.Core.List.{Permᴰ}
use mathlib.Core.List.Permᴰ
use bitchat_node_daemon.Protocol.Trackers.{FragmentCollector, join_fragments, add_fragment}
use bitchat_node_daemon.Fragmentation.{
  Fragment, chunks, chunk_count, fragments_from, fragment_payload,
}
use bitchat_node_daemon.Fragmentation.Chunks.{concat-chunks, length-chunks}
use bitchat_node_daemon.Fragmentation.Lookup.{
  numbered, Distinct-numbered, perm_agree, join_fragments-numbered, perm-length, length-numbered,
}
use bitchat_node_daemon.Fragmentation.Collect.{feed, feed_all}

-- Handing fragments to the collector one after the other: the answers, and the last state.
pub deliver :
    Text → List Fragment → FragmentCollector → List (Option (Bytes × Text)) × FragmentCollector
deliver sender [] c = ([], c)
deliver sender (f ∷ fs) c =
    let (r, c') = add_fragment f.fragment_id f.index f.total f.original_type f.content sender c in
    let (rs, c'') = deliver sender fs c' in (r ∷ rs, c'')

-- Number and data of a fragment.
abbrev piece : Fragment → ℕ × Bytes
piece f = (f.index, f.content)

record Shared (id : Bytes) (total original_type : ℕ) (f : Fragment) : Type 0 where
  same_id : f.fragment_id ≡ id
  same_total : f.total ≡ total
  same_type : f.original_type ≡ original_type

module _ (id : Bytes) (total original_type : ℕ) where
  Shared-fragments_from :
      (i : ℕ) (cs : List Bytes)
      → All (Shared id total original_type) (fragments_from id total original_type i cs)
  unfolding fragments_from
  Shared-fragments_from i [] = tt
  Shared-fragments_from i (c ∷ cs) = (
    record { same_id = refl; same_total = refl; same_type = refl },
    Shared-fragments_from (i + 1) cs,
  )

  map-piece :
      (i : ℕ) (cs : List Bytes)
      → map piece (fragments_from id total original_type i cs) ≡ numbered i cs
  unfolding fragments_from
  map-piece i [] = refl
  map-piece i (c ∷ cs) = ap (λ l. (i, c) ∷ l) (map-piece (i + 1) cs)

  deliver-feed :
      (sender : Text) (fs : List Fragment) (c : FragmentCollector)
      → All (Shared id total original_type) fs
      → deliver sender fs c ≡ feed id total original_type sender (map piece fs) c
  unfolding deliver feed
  deliver-feed sender [] c h = refl
  deliver-feed sender (f ∷ fs) c h =
      let ih =
        deliver-feed sender fs (add_fragment id f.index total original_type f.content sender c).1
          h.1 in
      simp (h.0.same_id, h.0.same_total, h.0.same_type) (rw ih)

perm-All {ℓ κ} : {A : Type ℓ} (P : A → Type κ) {xs ys : List A} → Permᴰ xs ys → All P xs → All P ys
perm-All P Permᴰ.nil h = tt
perm-All P (Permᴰ.cons e p) h = (subst P e h.0, perm-All P p h.1)
perm-All P (Permᴰ.swap e f) h = (subst P f h.1.0, (subst P e h.0, h.1.1))
perm-All P (Permᴰ.trans p q) h = perm-All P q (perm-All P p h)

module _ (random : ℕ → Bytes) (payload : Bytes) (original_type : ℕ) (sender : Text)
    (fs : List Fragment) (c : FragmentCollector) (large : 500 < length payload)
    (absent : lookup (hex (random 8)) c.fragments ≡ none)
    (arrived : Permᴰ (fragment_payload random payload original_type) fs) where
  abbrev n : ℕ
  n = length (chunks payload)

  abbrev sent : List Fragment
  sent = fragments_from (random 8) n original_type 0 (chunks payload)

  sent_lem : fragment_payload random payload original_type ≡ sent
  unfolding fragment_payload
  sent_lem = rw (gt→leb (length payload) 500 large)

  arrived_perm : Permᴰ sent fs
  arrived_perm = rw sent_lem at arrived

  pieces_perm : Permᴰ (numbered 0 (chunks payload)) (map piece fs)
  pieces_perm =
      rw (map-piece (random 8) n original_type 0 (chunks payload)) at (Permᴰ.map piece arrived_perm)

  joined : join_fragments n 0 (map piece fs) ≡ some payload
  joined =
      let same = perm_agree pieces_perm (Distinct-numbered 0 (chunks payload)) in
      join_fragments-numbered (chunks payload) 0 (map piece fs) (λ j _. sym (same.1 j))
      ∙ ap some (concat-chunks payload)

  all_of_them : length (map piece fs) ≡ n
  all_of_them = sym (perm-length pieces_perm) ∙ length-numbered 0 (chunks payload)

  -- The fragments of a payload of more than 500 bytes, handed to a collector that holds none of
  -- their id, in any order: every answer is `None` but the last, which is the payload with the
  -- sender; then the collector holds neither fragments nor metadata of that id, and those of other ids are
  -- as they were.
  pub deliver-fragment_payload :
      ((deliver sender fs c).0
        ≡ replicate (chunk_count (length payload) - 1) none ++ some (payload, sender) ∷ [])
      × ((k : Text)
          → lookup k (deliver sender fs c).1.fragments
            ≡ (if eq_text (hex (random 8)) k then none else lookup k c.fragments))
      × ((k : Text)
          → lookup k (deliver sender fs c).1.metadata
            ≡ (if eq_text (hex (random 8)) k then none else lookup k c.metadata))
  deliver-fragment_payload =
      let some_chunk : 0 < n = omega (arith, length-chunks payload) in
      let shared =
        perm-All (Shared (random 8) n original_type) arrived_perm
          (Shared-fragments_from (random 8) n original_type 0 (chunks payload)) in
      let distinct = (perm_agree pieces_perm (Distinct-numbered 0 (chunks payload))).0 in
      let (rs, closed) =
        feed_all (random 8) n original_type sender (map piece fs) c payload absent distinct
          all_of_them some_chunk joined in
      rw (deliver-feed (random 8) n original_type sender fs c shared, ← length-chunks payload)
        (rs, closed.found, closed.named)
