-- ===== src/Protocol/Packet/Padding.antt =====
-- The block padding of the packet writer, and how it is taken off.
use bitchat_node_daemon.Base.{
  ℕ, ◌+◌, ◌-◌, ◌<◌, ◌≡◌, refl, ◌≢◌, inl, inr, false, ◌&&◌, ◌||◌, some, [], ◌∷◌, ◌++◌, append_assoc,
  arith, ltb, leb, ◌==◌, if◌then◌else◌, Bool-cases, length, length-append, take-append,
}
use bitchat_node_daemon.Base.Bytes.{Bytes}
use bitchat_node_daemon.Protocol.Packet.{padding, padding_needed, unpad_packet, last_byte}

-- The length of a packet of `n` bytes after padding, as a table.
abbrev pub padded_size : ℕ → ℕ
padded_size n =
    if leb n 240
    then 256
    else if leb n 256
    then n
    else if leb n 496
    then 512
    else if leb n 768
    then n
    else if leb n 1008
    then 1024
    else if leb n 1792
    then n
    else if leb n 2032
    then 2048
    else n

padding_needed_lem :
    (n : ℕ)
    → 0 < n
    → n + (if ltb 0 (padding_needed n) && leb (padding_needed n) 255 then padding_needed n else 0)
      ≡ padded_size n
unfolding padding_needed
padding_needed_lem n h = ground arith

length-padding :
    (random : ℕ → Bytes) (n : ℕ)
    → ((k : ℕ) → length (random k) ≡ k)
    → length (padding random n)
      ≡ (if ltb 0 (padding_needed n) && leb (padding_needed n) 255 then padding_needed n else 0)
unfolding padding
length-padding random n h =
    let k = padding_needed n in ground (arith, length-append (random (k - 1)) (k ∷ []), h (k - 1))

-- A packet of at least one byte grows to 256, 512, 1024 or 2048 bytes where at most 255 bytes are
-- missing after room for 16 more is left, and keeps its length in every other case.
pub length-append_padding :
    (random : ℕ → Bytes) (packet : Bytes)
    → ((k : ℕ) → length (random k) ≡ k)
    → 0 < length packet
    → length (packet ++ padding random (length packet)) ≡ padded_size (length packet)
length-append_padding random packet h pos = omega (
  arith,
  length-append packet (padding random (length packet)),
  length-padding random (length packet) h,
  padding_needed_lem (length packet) pos,
)

last_byte-append : (xs : Bytes) (x : ℕ) → last_byte (xs ++ x ∷ []) ≡ some x
last_byte-append [] x = refl
last_byte-append (y ∷ []) x = refl
last_byte-append (y ∷ z ∷ ys) x = last_byte-append (z ∷ ys) x

unpad_packet-append :
    (packet r : Bytes) (k : ℕ) → length r + 1 ≡ k → unpad_packet (packet ++ (r ++ k ∷ [])) ≡ packet
unfolding unpad_packet
unpad_packet-append packet r k h =
    let total : length (packet ++ (r ++ k ∷ [])) ≡ length packet + k =
      omega (arith, length-append packet (r ++ k ∷ []), length-append r (k ∷ [])) in
    let last : last_byte (packet ++ (r ++ k ∷ [])) ≡ some k =
      rw (← append_assoc packet r (k ∷ [])) (last_byte-append (packet ++ r) k) in
    let kept : length packet + k - k ≡ length packet = omega arith in
    let test : (k == 0 || ltb (length packet + k) k) ≡ false = ground arith in
    rw (last, total, test, kept, unpad_packet)
      (take-append (length packet) packet (r ++ k ∷ []) refl)

-- Where the writer padded a packet, `unpad_packet` takes exactly the padding off again, whatever
-- the random bytes are.
pub unpad_packet-padding :
    (random : ℕ → Bytes) (packet : Bytes)
    → ((k : ℕ) → length (random k) ≡ k)
    → padding random (length packet) ≢ []
    → unpad_packet (packet ++ padding random (length packet)) ≡ packet
unpad_packet-padding random packet h ne =
    let k = padding_needed (length packet) in
    elim (Bool-cases (ltb 0 k && leb k 255)) [
      | inl e ↦
          let p : padding random (length packet) ≡ random (k - 1) ++ k ∷ [] =
            unfold padding in rw e in
          rw p (unpad_packet-append packet (random (k - 1)) k (ground (arith, h (k - 1))))
      | inr e ↦ absurd (ne (unfold padding in rw e))
    ]
