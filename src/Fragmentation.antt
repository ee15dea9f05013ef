-- ===== src/Fragmentation.antt =====
-- bitchat/fragmentation.py: cutting a large payload into fragments.
pub mod Chunks
pub mod Lookup
pub mod Collect
pub mod Reassembly
use bitchat_node_daemon.Base.{
  ℕ, zero, suc, ◌+◌, ◌-◌, ◌*◌, ◌/◌, List, ◌∷◌, leb, ◌==◌, if◌then◌else◌, length, [],
}
use bitchat_node_daemon.Base.Bytes.{Bytes, index, slice}

abbrev pub max_fragment_size : ℕ
max_fragment_size = 500

pub data FragmentType : Type 0 where
  start continue end : FragmentType

pub record Fragment : Type 0 where
  pub fragment_id : Bytes
  pub fragment_type : FragmentType
  pub index : ℕ
  pub total : ℕ
  pub original_type : ℕ
  pub content : Bytes

-- `len(range(0, n, 500))`
abbrev pub chunk_count : ℕ → ℕ
chunk_count n = (n + 499) / 500

-- `[payload[i:i+500] for i in range(0, len(payload), 500)]`: `count` chunks, the first at 500 * k.
unfoldable pub chunks_from : Bytes → ℕ → ℕ → List Bytes
chunks_from payload k zero = []
chunks_from payload k (suc count) =
    slice payload (500 * k) (500 * k + max_fragment_size) ∷ chunks_from payload (k + 1) count

unfoldable pub chunks : Bytes → List Bytes
unfolding chunks_from
chunks payload = chunks_from payload 0 (chunk_count (length payload))

unfoldable pub type_at : ℕ → ℕ → FragmentType
type_at total i = if i == 0 then start else if i == total - 1 then end else continue

unfoldable pub fragments_from : Bytes → ℕ → ℕ → ℕ → List Bytes → List Fragment
unfolding type_at
fragments_from fragment_id total original_type i [] = []
fragments_from fragment_id total original_type i (chunk ∷ rest) =
    record {
      fragment_id = fragment_id;
      fragment_type = type_at total i;
      index = i;
      total = total;
      original_type = original_type;
      content = chunk;
    }
    ∷ fragments_from fragment_id total original_type (i + 1) rest

-- `random 8` is what `os.urandom(8)` returns.
unfoldable pub fragment_payload : (ℕ → Bytes) → Bytes → ℕ → List Fragment
unfolding chunks fragments_from
fragment_payload random payload original_msg_type =
    if leb (length payload) max_fragment_size
    then []
    else fragments_from (random 8) (length (chunks payload)) original_msg_type 0 (chunks payload)
