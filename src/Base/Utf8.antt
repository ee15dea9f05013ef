-- ===== src/Base/Utf8.antt =====
-- `str.encode('utf-8')` and `bytes.decode('utf-8')`, strict and with `errors='ignore'`.
use bitchat_node_daemon.Base.Tests.{ltb, leb, ◌==◌, if◌then◌else◌, Bool-cases}
use bitchat_node_daemon.Base.Errors.{Result, ok, err, ◌>>=◌, unicode_error, >>=-eq-ok, ok-injective}
use bitchat_node_daemon.Base.Lists.{All, All-append}
use bitchat_node_daemon.Base.Bytes.{Bytes, Text, IsByte}
use Prim.Native.Nat.{ℕ, zero, suc, ◌+◌, ◌-◌, ◌*◌, ◌/◌, ◌%◌, ◌≤◌, ◌<◌}
use mathlib.Core.Path.{◌≡◌, refl, subst, ◌∙◌}
use mathlib.Core.Logic.{inl, inr}
use mathlib.Core.Bool.{false, ◌&&◌}
use mathlib.Core.Option.{Option, none, some}
use mathlib.Core.List.{[], ◌∷◌, ◌++◌}
use native.Mathlib.Omega.{arith}

-- A surrogate, or a number past the last code point, has no encoding.
encode_char : ℕ → Result Bytes
encode_char c =
    if ltb c 0x80
    then ok (c ∷ [])
    else if ltb c 0x800
    then ok ((0xc0 + c / 64) ∷ (0x80 + c % 64) ∷ [])
    else if leb 0xd800 c && ltb c 0xe000
    then err unicode_error
    else if ltb c 0x1_0000
    then ok ((0xe0 + c / 4096) ∷ (0x80 + c / 64 % 64) ∷ (0x80 + c % 64) ∷ [])
    else if ltb c 0x11_0000
    then ok
        ((0xf0 + c / 262144) ∷ (0x80 + c / 4096 % 64) ∷ (0x80 + c / 64 % 64) ∷ (0x80 + c % 64) ∷ [])
    else err unicode_error

unfoldable pub encode : Text → Result Bytes
unfolding encode_char
encode [] = ok []
encode (c ∷ cs) = do b ← encode_char c; rest ← encode cs; ok (b ++ rest)

pub data Errors : Type 0 where
  strict ignore : Errors

-- What a decoder has read of a character: the bytes still to come, the bits so far, and the range
-- of the next byte.
pub data State : Type 0 where
  start : State
  inside : ℕ → ℕ → ℕ → ℕ → State

-- The character that a byte ends, if any, and the next state; `none` is an invalid byte.
lead_byte : ℕ → Option (Option ℕ × State)
lead_byte b =
    if ltb b 0x80
    then some (some b, start)
    else if leb 0xc2 b && ltb b 0xe0
    then some (none, inside 0 (b - 0xc0) 0x80 0xbf)
    else if leb 0xe0 b && ltb b 0xf0
    then some (
      none,
      inside 1 (b - 0xe0) (if b == 0xe0 then 0xa0 else 0x80) (if b == 0xed then 0x9f else 0xbf),
    )
    else if leb 0xf0 b && ltb b 0xf5
    then some (
      none,
      inside 2 (b - 0xf0) (if b == 0xf0 then 0x90 else 0x80) (if b == 0xf4 then 0x8f else 0xbf),
    )
    else none

-- An invalid byte is dropped under `ignore`; after an unfinished character it is read once more.
or_skip : Errors → Option (Option ℕ × State) → Option (Option ℕ × State)
or_skip strict r = r
or_skip ignore none = some (none, start)
or_skip ignore (some r) = some r

advance : Errors → State → ℕ → Option (Option ℕ × State)
unfolding lead_byte or_skip
advance e start b = or_skip e (lead_byte b)
advance e (inside zero acc lo hi) b =
    if leb lo b && leb b hi
    then some (some (acc * 64 + (b - 0x80)), start)
    else elim e [ strict ↦ none | ignore ↦ or_skip ignore (lead_byte b) ]
advance e (inside (suc n) acc lo hi) b =
    if leb lo b && leb b hi
    then some (none, inside n (acc * 64 + (b - 0x80)) 0x80 0xbf)
    else elim e [ strict ↦ none | ignore ↦ or_skip ignore (lead_byte b) ]

abbrev prepend : Option ℕ → Text → Text
prepend none t = t
prepend (some c) t = c ∷ t

finish : Errors → State → Result Text
finish e start = ok []
finish strict (inside n acc lo hi) = err unicode_error
finish ignore (inside n acc lo hi) = ok []

decode_from : Errors → State → Bytes → Result Text
unfolding finish
decode_from e s [] = finish e s
decode_from e s (b ∷ bs) = elim (advance e s b) [
  | none ↦ err unicode_error
  | some (c, s') ↦ do t ← decode_from e s' bs; ok (prepend c t)
]

unfoldable pub decode : Errors → Bytes → Result Text
unfolding decode_from advance
decode e bs = decode_from e start bs

-- The three steps over a character of three bytes.
three_steps :
    (e : Errors) (c : ℕ)
    → 0x800 ≤ c
    → c < 0x1_0000
    → leb 0xd800 c && ltb c 0xe000 ≡ false
    → let lo : ℕ = (if c / 4096 == 0 then 0xa0 else 0x80) in
      let hi : ℕ = (if c / 4096 == 13 then 0x9f else 0xbf) in
      (advance e start (0xe0 + c / 4096) ≡ some (none, inside 1 (c / 4096) lo hi))
      × (advance e (inside 1 (c / 4096) lo hi) (0x80 + c / 64 % 64)
            ≡ some (none, inside 0 (c / 64) 0x80 0xbf)
          × (advance e (inside 0 (c / 64) 0x80 0xbf) (0x80 + c % 64) ≡ some (some c, start)))
unfolding advance
three_steps e c lo hi s = (ground arith, (ground arith, ground arith))

-- The four steps over a character of four bytes.
four_steps :
    (e : Errors) (c : ℕ)
    → 0x1_0000 ≤ c
    → c < 0x11_0000
    → let lo : ℕ = (if c / 262144 == 0 then 0x90 else 0x80) in
      let hi : ℕ = (if c / 262144 == 4 then 0x8f else 0xbf) in
      (advance e start (0xf0 + c / 262144) ≡ some (none, inside 2 (c / 262144) lo hi))
      × (advance e (inside 2 (c / 262144) lo hi) (0x80 + c / 4096 % 64)
            ≡ some (none, inside 1 (c / 4096) 0x80 0xbf)
          × (advance e (inside 1 (c / 4096) 0x80 0xbf) (0x80 + c / 64 % 64)
                ≡ some (none, inside 0 (c / 64) 0x80 0xbf)
              × (advance e (inside 0 (c / 64) 0x80 0xbf) (0x80 + c % 64) ≡ some (some c, start))))
unfolding advance
four_steps e c lo hi = (ground arith, (ground arith, (ground arith, ground arith)))

module _ (e : Errors) (bs : Bytes) where
  abbrev after : ℕ → Result Text
  after c = decode_from e start bs >>= λ t. ok (c ∷ t)

  decode_from-one : (c : ℕ) → c < 0x80 → decode_from e start (c ∷ bs) ≡ after c
  unfolding decode_from advance
  decode_from-one c h = ground arith

  decode_from-two :
      (c : ℕ)
      → 0x80 ≤ c
      → c < 0x800
      → decode_from e start ((0xc0 + c / 64) ∷ (0x80 + c % 64) ∷ bs) ≡ after c
  unfolding decode_from advance
  decode_from-two c lo hi = ground arith

  decode_from-three :
      (c : ℕ)
      → 0x800 ≤ c
      → c < 0x1_0000
      → leb 0xd800 c && ltb c 0xe000 ≡ false
      → decode_from e start ((0xe0 + c / 4096) ∷ (0x80 + c / 64 % 64) ∷ (0x80 + c % 64) ∷ bs)
        ≡ after c
  decode_from-three c lo hi s =
      let (a, (b, d)) = three_steps e c lo hi s in unfold decode_from in ground arith

  decode_from-four :
      (c : ℕ)
      → 0x1_0000 ≤ c
      → c < 0x11_0000
      → decode_from e start (
          (0xf0 + c / 262144)
          ∷ (0x80 + c / 4096 % 64)
          ∷ (0x80 + c / 64 % 64)
          ∷ (0x80 + c % 64)
          ∷ bs)
        ≡ after c
  decode_from-four c lo hi =
      let (a, (b, (d, f))) = four_steps e c lo hi in unfold decode_from in ground arith

  decode_from-char :
      (c : ℕ) (b : Bytes) → encode_char c ≡ ok b → decode_from e start (b ++ bs) ≡ after c
  unfolding encode_char
  decode_from-char c b h =
      ground (arith, decode_from-one c, decode_from-two c, decode_from-three c, decode_from-four c)

-- What `encode` wrote, `decode` reads back, in both modes.
decode_from-encode :
    (e : Errors) (t : Text) (bs : Bytes) → encode t ≡ ok bs → decode_from e start bs ≡ ok t
unfolding encode
decode_from-encode e [] bs h = unfold decode_from in ground arith
decode_from-encode e (c ∷ cs) bs h =
    let (b, hb, h') = >>=-eq-ok (encode_char c) _ h in
    let (r, hr, h'') = >>=-eq-ok (encode cs) _ h' in
    let eq : b ++ r ≡ bs = cc in
    rw (← eq) (decode_from-char e r c b hb ∙ rw (decode_from-encode e cs r hr))

pub decode-encode : (e : Errors) (t : Text) (bs : Bytes) → encode t ≡ ok bs → decode e bs ≡ ok t
unfolding decode
decode-encode e t bs h = decode_from-encode e t bs h

pub decode-nil : (e : Errors) → decode e [] ≡ ok []
unfolding decode
decode-nil e = refl

-- A result of bytes, where it is one.
abbrev HasBytes : Result Bytes → Type 0
HasBytes (err raised) = Unit
HasBytes (ok bs) = All IsByte bs

encode_char-HasBytes : (c : ℕ) → HasBytes (encode_char c)
unfolding encode_char
encode_char-HasBytes c = elim (Bool-cases (ltb c 0x80)) [
  | inl a ↦ rw a (ground arith, tt)
  | inr a ↦ elim (Bool-cases (ltb c 0x800)) [
    | inl b ↦ rw (a, b) (ground arith, (ground arith, tt))
    | inr b ↦ elim (Bool-cases (leb 0xd800 c && ltb c 0xe000)) [
      | inl s ↦ rw (a, b, s) tt
      | inr s ↦ elim (Bool-cases (ltb c 0x1_0000)) [
        | inl d ↦ rw (a, b, s, d) (ground arith, (ground arith, (ground arith, tt)))
        | inr d ↦ elim (Bool-cases (ltb c 0x11_0000)) [
          | inl f ↦
              rw (a, b, s, d, f) (ground arith, (ground arith, (ground arith, (ground arith, tt))))
          | inr f ↦ rw (a, b, s, d, f) tt
        ]
      ]
    ]
  ]
]

-- UTF-8 is written in bytes.
pub encode-IsByte : (t : Text) (bs : Bytes) → encode t ≡ ok bs → All IsByte bs
unfolding encode
encode-IsByte [] bs h = subst (All IsByte) (ok-injective h) tt
encode-IsByte (c ∷ t) bs h =
    let (b, e, h1) = >>=-eq-ok (encode_char c) _ h in
    let (rest, e1, h2) = >>=-eq-ok (encode t) _ h1 in
    let first : All IsByte b = subst HasBytes e (encode_char-HasBytes c) in
    subst (All IsByte) (ok-injective h2) (All-append IsByte b rest first (encode-IsByte t rest e1))
