-- ===== src/Fragmentation/Chunks.antt =====
-- The chunks that bitchat/fragmentation.py cuts a payload into: their number, sizes and order.
use bitchat_node_daemon.Base.{
  ℕ, zero, suc, ◌+◌, ◌-◌, ◌*◌, ◌≤◌, min, ◌≡◌, refl, sym, some, List, [], ◌∷◌, ◌++◌, arith, length,
  get_elem?, take, drop, length-take, length-drop, take-append-drop, drop-all, drop-drop,
}
use bitchat_node_daemon.Base.Bytes.{Bytes, slice}
use bitchat_node_daemon.Fragmentation.{chunk_count, chunks_from, chunks}

abbrev pub concat : List Bytes → Bytes
concat [] = []
concat (x ∷ xs) = x ++ concat xs

concat-chunks_from :
    (payload : Bytes) (k count : ℕ)
    → length payload ≤ 500 * (k + count)
    → concat (chunks_from payload k count) ≡ drop (500 * k) payload
unfolding chunks_from slice
concat-chunks_from payload k zero h = sym (drop-all (500 * k) payload (omega arith))
concat-chunks_from payload k (suc count) h =
    let width : 500 * k + 500 - 500 * k ≡ 500 = omega arith in
    let next : 500 * (k + 1) ≡ 500 * k + 500 = omega arith in
    rw
      (
        width,
        concat-chunks_from payload (k + 1) count (omega arith),
        next,
        ← drop-drop (500 * k) 500 payload,
      )
      (take-append-drop 500 (drop (500 * k) payload))

pub concat-chunks : (payload : Bytes) → concat (chunks payload) ≡ payload
unfolding chunks
concat-chunks payload = concat-chunks_from payload 0 (chunk_count (length payload)) (omega arith)

pub length-chunks_from :
    (payload : Bytes) (k count : ℕ) → length (chunks_from payload k count) ≡ count
unfolding chunks_from
length-chunks_from payload k zero = refl
length-chunks_from payload k (suc count) = omega (arith, length-chunks_from payload (k + 1) count)

pub length-chunks : (payload : Bytes) → length (chunks payload) ≡ chunk_count (length payload)
unfolding chunks
length-chunks payload = length-chunks_from payload 0 (chunk_count (length payload))

-- Every chunk from the k-th on holds 500 bytes, but that the last one ends with the payload.
pub chunks_from_sizes :
    (payload : Bytes) (k count i : ℕ) (c : Bytes)
    → get_elem? (chunks_from payload k count) i ≡ some c
    → length c ≡ min 500 (length payload - 500 * (k + i))
unfolding chunks_from slice
chunks_from_sizes payload k zero i c h = cc
chunks_from_sizes payload k (suc count) zero c h =
    let e : take (500 * k + 500 - 500 * k) (drop (500 * k) payload) ≡ c = cc in
    rw (← e) (
      omega (
        arith,
        length-take (500 * k + 500 - 500 * k) (drop (500 * k) payload),
        length-drop (500 * k) payload,
      ))
chunks_from_sizes payload k (suc count) (suc i) c h =
    let e : k + 1 + i ≡ k + suc i = omega arith in
    rw (← e) (chunks_from_sizes payload (k + 1) count i c h)
