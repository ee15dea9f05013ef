-- ===== src/Transport/Framing.antt =====
-- The framing of `send_packet` and the read loop of daemon/transport.py together.
use bitchat_node_daemon.Base.{
  ℕ, zero, suc, ◌+◌, ◌*◌, ◌/◌, ◌%◌, ◌^◌, ◌≤◌, ◌<◌, ◌≡◌, refl, ap, ◌∙◌, ◌≢◌, ◌⊎◌, inl, inr, false,
  List, [], ◌∷◌, ◌++◌, append_assoc, arith, ltb, ge→ltb, length, drop, All, length-append,
  length-drop, take-append, drop-append, All-drop, Result, ok, ◌>>=◌, >>=-eq-ok,
}
use bitchat_node_daemon.Base.Bytes.{Bytes, IsByte, pack_u16, unpack_u16}
use bitchat_node_daemon.Transport.{max_packet_size, frame}
use bitchat_node_daemon.Transport.Stream.{
  readexactly, Ending, too_large, stuck, Round, delivered, ended, read_packet, read_round,
  read_rounds, read_loop,
}

read_packet_shorter :
    (n : ℕ) (xs raw rest : Bytes) → read_packet n xs ≡ delivered raw rest → length rest ≤ length xs
unfolding read_packet readexactly
read_packet_shorter n xs raw rest h = ground (arith, length-drop n xs)

read_round_two : (a b : ℕ) (xs : Bytes) → read_round (a ∷ b ∷ xs) ≡ read_packet (a * 256 + b) xs
unfolding read_round readexactly unpack_u16
read_round_two a b xs =
    let long : ltb (suc (suc (length xs))) 2 ≡ false = ground arith in rw (long, read_round)

read_round_shorter :
    (xs raw rest : Bytes) → read_round xs ≡ delivered raw rest → length rest < length xs
read_round_shorter [] raw rest h = unfold read_round in cc
read_round_shorter (a ∷ []) raw rest h = unfold read_round in cc
read_round_shorter (a ∷ b ∷ xs) raw rest h =
    let h' = rw read_round_two at h in
    omega (arith, read_packet_shorter (a * 256 + b) xs raw rest h')

module _ (f : ℕ) (xs : Bytes) where
  read_rounds-ended : (e : Ending) → read_round xs ≡ ended e → read_rounds (suc f) xs ≡ ([], e)
  unfolding read_rounds
  read_rounds-ended e h = rw (h, read_rounds)

  read_rounds-delivered :
      (raw rest : Bytes)
      → read_round xs ≡ delivered raw rest
      → read_rounds (suc f) xs ≡ (raw ∷ (read_rounds f rest).0, (read_rounds f rest).1)
  unfolding read_rounds
  read_rounds-delivered raw rest h = rw (h, read_rounds)

Round-cases :
    (r : Round)
    → ((e : Ending) × (r ≡ ended e)) ⊎ ((raw : Bytes) × (rest : Bytes) × (r ≡ delivered raw rest))
Round-cases (ended e) = inl (e, refl)
Round-cases (delivered raw rest) = inr (raw, rest, refl)

read_round-ne-stuck : (xs : Bytes) → read_round xs ≢ ended stuck
unfolding read_round
read_round-ne-stuck xs h = ground arith

-- With rounds to spare, how many there are does not matter, and the loop is not stuck.
read_rounds_enough :
    (f g : ℕ) (xs : Bytes)
    → length xs < f
    → length xs < g
    → (read_rounds f xs ≡ read_rounds g xs) × ((read_rounds f xs).1 ≢ stuck)
read_rounds_enough zero g xs hf hg = absurd (omega arith)
read_rounds_enough (suc f) zero xs hf hg = absurd (omega arith)
read_rounds_enough (suc f) (suc g) xs hf hg = elim (Round-cases (read_round xs)) [
  | inl (e, h) ↦
      rw (read_rounds-ended f xs e h, read_rounds-ended g xs e h)
        (refl, λ s. read_round-ne-stuck xs (h ∙ ap ended s))
  | inr (raw, rest, h) ↦
      let less = read_round_shorter xs raw rest h in
      let (same, goes_on) = read_rounds_enough f g rest (omega arith) (omega arith) in
      rw (read_rounds-delivered f xs raw rest h, read_rounds-delivered g xs raw rest h, same)
        (refl, rw same at goes_on)
]

read_round-too_large : (xs : Bytes) → All IsByte xs → read_round xs ≢ ended too_large
read_round-too_large [] h e = unfold read_round in cc
read_round-too_large (a ∷ []) h e = unfold read_round in cc
read_round-too_large (a ∷ b ∷ xs) (ha, (hb, hs)) e =
    let e' = rw read_round_two at e in unfold read_packet in ground arith

-- The packets are frames of bytes, so what is left consists of bytes again.
read_round-IsByte :
    (xs raw rest : Bytes) → All IsByte xs → read_round xs ≡ delivered raw rest → All IsByte rest
read_round-IsByte [] raw rest h e = unfold read_round in cc
read_round-IsByte (a ∷ []) raw rest h e = unfold read_round in cc
read_round-IsByte (a ∷ b ∷ xs) raw rest h e =
    let e' : read_packet (a * 256 + b) xs ≡ delivered raw rest = rw read_round_two at e in
    let tail : drop (a * 256 + b) xs ≡ rest = unfold read_packet readexactly in ground arith in
    rw (← tail) (All-drop IsByte (a * 256 + b) xs h.1.1)

read_rounds-too_large : (f : ℕ) (xs : Bytes) → All IsByte xs → (read_rounds f xs).1 ≢ too_large
read_rounds-too_large zero xs h = unfold read_rounds in λ e. cc
read_rounds-too_large (suc f) xs h = elim (Round-cases (read_round xs)) [
  | inl (e, r) ↦ rw (read_rounds-ended f xs e r) (λ s. read_round-too_large xs h (r ∙ ap ended s))
  | inr (raw, rest, r) ↦
      rw (read_rounds-delivered f xs raw rest r)
        (read_rounds-too_large f rest (read_round-IsByte xs raw rest h r))
]

-- On every input the read loop comes to an end that the source has, and on a stream of bytes it
-- never refuses a length: two bytes cannot name a packet above the limit of 10 MB.
pub read_loop_ends :
    (xs : Bytes) → ((read_loop xs).1 ≢ stuck) × (All IsByte xs → (read_loop xs).1 ≢ too_large)
unfolding read_loop
read_loop_ends xs = (
  (read_rounds_enough (suc (length xs)) (suc (length xs)) xs (omega arith) (omega arith)).1,
  λ h. read_rounds-too_large (suc (length xs)) xs h,
)

-- All packets framed, one after the other.
unfoldable pub frame_all : List Bytes → Result Bytes
frame_all [] = ok []
frame_all (p ∷ ps) = do f ← frame p; fs ← frame_all ps; ok (f ++ fs)

pub frame-eq-ok :
    (p f : Bytes) → frame p ≡ ok f → (length p < 2 ^ 16) × (f ≡ length p / 256 ∷ length p % 256 ∷ p)
unfolding frame pack_u16
frame-eq-ok p f h = ground arith

read_round-frame :
    (p rest : Bytes)
    → length p < 2 ^ 16
    → read_round (length p / 256 ∷ length p % 256 ∷ (p ++ rest)) ≡ delivered p rest
unfolding read_packet readexactly
read_round-frame p rest h =
    let whole : length p / 256 * 256 + length p % 256 ≡ length p = omega arith in
    let small : ltb max_packet_size (length p) ≡ false = ge→ltb _ _ (omega arith) in
    let there : ltb (length (p ++ rest)) (length p) ≡ false =
      ge→ltb _ _ (omega (arith, length-append p rest)) in
    rw (
      read_round_two,
      whole,
      small,
      there,
      take-append (length p) p rest refl,
      drop-append (length p) p rest refl,
    )

read_loop-frame :
    (p f rest : Bytes)
    → frame p ≡ ok f
    → read_loop (f ++ rest) ≡ (p ∷ (read_loop rest).0, (read_loop rest).1)
unfolding read_loop
read_loop-frame p f rest h =
    let (fits, e) = frame-eq-ok p f h in
    let n = length (f ++ rest) in
    let first : read_round (f ++ rest) ≡ delivered p rest = rw e (read_round-frame p rest fits) in
    let same =
      (read_rounds_enough n (suc (length rest)) rest
        (omega (arith, read_round_shorter _ p rest first)) (omega arith)).0 in
    read_rounds-delivered n (f ++ rest) p rest first ∙ rw same

-- Whatever follows the frames, the loop delivers the framed packets in order, and then what it
-- would deliver from the rest.
pub read_loop-frame_all :
    (ps : List Bytes) (bs rest : Bytes)
    → frame_all ps ≡ ok bs
    → read_loop (bs ++ rest) ≡ (ps ++ (read_loop rest).0, (read_loop rest).1)
unfolding frame_all
read_loop-frame_all [] bs rest h = let e : [] ≡ bs = cc in rw (← e)
read_loop-frame_all (p ∷ ps) bs rest h =
    let (f, hf, h') = >>=-eq-ok (frame p) _ h in
    let (fs, hfs, h'') = >>=-eq-ok (frame_all ps) _ h' in
    let e : f ++ fs ≡ bs = cc in
    rw (← e, append_assoc f fs rest)
      (read_loop-frame p f (fs ++ rest) hf ∙ rw (read_loop-frame_all ps fs rest hfs))
