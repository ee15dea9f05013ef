-- ===== src/Base/Bytes.antt =====
-- Python's `bytes` and `str` as lists of numbers: indexing, slices, `rstrip`, the big-endian
-- formats of `struct`, and the reading of a buffer at a growing offset.
use bitchat_node_daemon.Base.Tests.{ltb, ◌==◌, if◌then◌else◌, lt→ltb}
use bitchat_node_daemon.Base.Lists.{
  length, get_elem?, take, drop, replicate, length-take, take-append, drop-append, drop-drop,
}
use bitchat_node_daemon.Base.Errors.{Result, ok, err, ◌>>=◌, index_error, struct_error, value_error}
use Prim.Native.Nat.{ℕ, zero, suc, ◌+◌, ◌-◌, ◌*◌, ◌/◌, ◌%◌, ◌^◌, ◌≤◌, ◌<◌}
use mathlib.Core.Path.{◌≡◌, refl, ap, sym, ◌∙◌}
use mathlib.Core.Logic.{◌↔◌, ◌≢◌}
use mathlib.Core.Bool.{Bool, true, false, ◌&&◌}
use mathlib.Core.Option.{none, some}
use mathlib.Core.List.{List, [], ◌∷◌, ◌++◌}
use native.Mathlib.Omega.{arith}

-- A byte string, and a text as its code points.
abbrev pub Bytes : Type 0
Bytes = List ℕ

abbrev pub Text : Type 0
Text = List ℕ

abbrev pub IsByte : ℕ → Type 0
IsByte b = b < 256

-- `a == b` on byte strings and on texts.
unfoldable pub eq_text : Text → Text → Bool
eq_text [] [] = true
eq_text [] (y ∷ ys) = false
eq_text (x ∷ xs) [] = false
eq_text (x ∷ xs) (y ∷ ys) = x == y && eq_text xs ys

pub eq_text_refl : (xs : Text) → eq_text xs xs ≡ true
unfolding eq_text
eq_text_refl [] = refl
eq_text_refl (x ∷ xs) = ground (arith, eq_text_refl xs)

eq_text_sound : (xs ys : Text) → eq_text xs ys ≡ true → xs ≡ ys
unfolding eq_text
eq_text_sound [] [] h = refl
eq_text_sound [] (y ∷ ys) h = cc
eq_text_sound (x ∷ xs) [] h = cc
eq_text_sound (x ∷ xs) (y ∷ ys) h = ground (arith, eq_text_sound xs ys)

pub eq_text_iff : (xs ys : Text) → (eq_text xs ys ≡ true) ↔ (xs ≡ ys)
eq_text_iff xs ys = (eq_text_sound xs ys, λ e. rw e (eq_text_refl ys))

-- `data[i]`
unfoldable pub index : Bytes → ℕ → Result ℕ
index xs i = elim (get_elem? xs i) [ none ↦ err index_error | some b ↦ ok b ]

-- `data[a:b]` with `a` at most `b`; Python cuts both ends to the length.
unfoldable pub slice : Bytes → ℕ → ℕ → Bytes
slice xs a b = take (b - a) (drop a xs)

keep_last : ℕ → Bytes → Bytes
keep_last x [] = if x == 0 then [] else x ∷ []
keep_last x (y ∷ ys) = x ∷ y ∷ ys

-- `data.rstrip(b'\x00')`
unfoldable pub rstrip : Bytes → Bytes
unfolding keep_last
rstrip [] = []
rstrip (x ∷ xs) = keep_last x (rstrip xs)

pub rstrip-replicate : (n : ℕ) → rstrip (replicate n 0) ≡ []
unfolding rstrip
rstrip-replicate zero = refl
rstrip-replicate (suc n) = rw (rstrip-replicate n)

pub rstrip-append : (xs : Bytes) (n : ℕ) → rstrip (xs ++ replicate n 0) ≡ rstrip xs
unfolding rstrip
rstrip-append [] n = rstrip-replicate n
rstrip-append (x ∷ xs) n = rw (rstrip-append xs n)

-- Whether the last byte is there and is not zero.
abbrev pub ends_nonzero : Bytes → Bool
ends_nonzero [] = false
ends_nonzero (x ∷ []) = ltb 0 x
ends_nonzero (x ∷ y ∷ ys) = ends_nonzero (y ∷ ys)

pub rstrip_id : (xs : Bytes) → ends_nonzero xs ≡ true → rstrip xs ≡ xs
unfolding rstrip
rstrip_id [] h = refl
rstrip_id (x ∷ []) h = ground arith
rstrip_id (x ∷ y ∷ ys) h = rw (rstrip_id (y ∷ ys) h)

length-keep_last : (x : ℕ) (r : Bytes) → length (keep_last x r) ≤ suc (length r)
unfolding keep_last
length-keep_last x [] = ground arith
length-keep_last x (y ∷ ys) = omega arith

pub length-rstrip : (xs : Bytes) → length (rstrip xs) ≤ length xs
unfolding rstrip
length-rstrip [] = omega arith
length-rstrip (x ∷ xs) = omega (arith, length-rstrip xs, length-keep_last x (rstrip xs))

-- A string that ends in a zero byte is made shorter.
pub rstrip_shortens :
    (xs : Bytes) → ends_nonzero xs ≡ false → xs ≢ [] → length (rstrip xs) < length xs
unfolding rstrip
rstrip_shortens [] h ne = absurd (ne refl)
rstrip_shortens (x ∷ []) h ne = ground arith
rstrip_shortens (x ∷ y ∷ ys) h ne =
    omega (arith, rstrip_shortens (y ∷ ys) h (λ e. cc), length-keep_last x (rstrip (y ∷ ys)))

-- `struct.pack('>H', n)` and `struct.pack('>Q', n)`
unfoldable pub pack_u16 : ℕ → Result Bytes
pack_u16 n = if ltb n (2 ^ 16) then ok (n / 256 ∷ n % 256 ∷ []) else err struct_error

abbrev pub bytes_u64 : ℕ → Bytes
bytes_u64 n =
    n / 2 ^ 56 % 256
    ∷ n / 2 ^ 48 % 256
    ∷ n / 2 ^ 40 % 256
    ∷ n / 2 ^ 32 % 256
    ∷ n / 2 ^ 24 % 256
    ∷ n / 2 ^ 16 % 256
    ∷ n / 2 ^ 8 % 256
    ∷ n % 256
    ∷ []

unfoldable pub pack_u64 : ℕ → Result Bytes
pack_u64 n = if ltb n (2 ^ 64) then ok (bytes_u64 n) else err struct_error

-- `struct.unpack('>H', data)[0]`
unfoldable pub unpack_u16 : Bytes → Result ℕ
unpack_u16 (a ∷ b ∷ []) = ok (a * 256 + b)
unpack_u16 _ = err struct_error

-- `int.from_bytes(data, byteorder='big')`
unfoldable pub from_bytes : ℕ → Bytes → ℕ
from_bytes acc [] = acc
from_bytes acc (b ∷ bs) = from_bytes (acc * 256 + b) bs

pub pack_u16_lem : (n : ℕ) → n < 2 ^ 16 → pack_u16 n ≡ ok (n / 256 ∷ n % 256 ∷ [])
unfolding pack_u16
pack_u16_lem n h = ground arith

pub pack_u64_lem : (n : ℕ) → n < 2 ^ 64 → pack_u64 n ≡ ok (bytes_u64 n)
unfolding pack_u64
pack_u64_lem n h = rw (lt→ltb n (2 ^ 64) h)

pub unpack-pack_u16 : (n : ℕ) → n < 2 ^ 16 → unpack_u16 (n / 256 ∷ n % 256 ∷ []) ≡ ok n
unfolding unpack_u16
unpack-pack_u16 n h = ground arith

pub from_bytes-u64 : (n : ℕ) → n < 2 ^ 64 → from_bytes 0 (bytes_u64 n) ≡ n
unfolding from_bytes
from_bytes-u64 n h = omega arith

-- Reading at a growing offset: `drop o xs` is what is left to read at offset `o`.
pub index-drop : (xs : Bytes) (o : ℕ) {x : ℕ} {r : Bytes} → drop o xs ≡ x ∷ r → index xs o ≡ ok x
unfolding index
index-drop [] zero h = cc
index-drop [] (suc o) h = cc
index-drop (y ∷ ys) zero h = cc
index-drop (y ∷ ys) (suc o) h = index-drop ys o h

pub drop_next : (xs : Bytes) (o : ℕ) {x : ℕ} {r : Bytes} → drop o xs ≡ x ∷ r → drop (o + 1) xs ≡ r
drop_next xs o h = sym (drop-drop o 1 xs) ∙ ap (drop 1) h

pub slice-drop :
    (xs : Bytes) (o n : ℕ) (ys r : Bytes)
    → drop o xs ≡ ys ++ r
    → length ys ≡ n
    → slice xs o (o + n) ≡ ys
unfolding slice
slice-drop xs o n ys r h len =
    let e : o + n - o ≡ n = omega arith in rw (e, h) (take-append n ys r len)

pub drop_skip :
    (xs : Bytes) (o n : ℕ) (ys r : Bytes)
    → drop o xs ≡ ys ++ r
    → length ys ≡ n
    → drop (o + n) xs ≡ r
drop_skip xs o n ys r h len = sym (drop-drop o n xs) ∙ ap (drop n) h ∙ drop-append n ys r len

pub length-slice : (xs : Bytes) (a b : ℕ) → length (slice xs a b) ≤ b - a
unfolding slice
length-slice xs a b = omega (arith, length-take (b - a) (drop a xs))

-- `data.append(n)`
unfoldable pub byte : ℕ → Result Bytes
byte n = if ltb n 256 then ok (n ∷ []) else err value_error

pub byte_lem : (n : ℕ) → n < 256 → byte n ≡ ok (n ∷ [])
unfolding byte
byte_lem n h = ground arith

-- `n = data[o]; o += 1; field = data[o:o + n]; o += n`: the field and the next offset.
unfoldable pub read_prefixed : Bytes → ℕ → Result (Bytes × ℕ)
read_prefixed xs o = do n ← index xs o; ok (slice xs (o + 1) (o + 1 + n), o + 1 + n)

pub read_prefixed-drop :
    (xs : Bytes) (o : ℕ) (ys r : Bytes)
    → drop o xs ≡ length ys ∷ (ys ++ r)
    → read_prefixed xs o ≡ ok (ys, o + 1 + length ys)
unfolding read_prefixed
read_prefixed-drop xs o ys r h =
    rw (index-drop xs o h, slice-drop xs (o + 1) (length ys) ys r (drop_next xs o h) refl)

pub drop_prefixed :
    (xs : Bytes) (o : ℕ) (ys r : Bytes)
    → drop o xs ≡ length ys ∷ (ys ++ r)
    → drop (o + 1 + length ys) xs ≡ r
drop_prefixed xs o ys r h = drop_skip xs (o + 1) (length ys) ys r (drop_next xs o h) refl
