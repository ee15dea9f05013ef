-- ===== src/Base/Integers.antt =====
-- Python's `int` with its sign: what `str` writes and `int(text)` reads.
use bitchat_node_daemon.Base.Tests.{leb, ◌==◌, if◌then◌else◌}
use bitchat_node_daemon.Base.Lists.{All}
use bitchat_node_daemon.Base.Errors.{Result, ok, err, ◌>>=◌, value_error}
use bitchat_node_daemon.Base.Bytes.{Text}
use bitchat_node_daemon.Base.Decimal.{
  decimal, parse_int, digits_from, parse_int-decimal, IsDigit, decimal-IsDigit,
}
use bitchat_node_daemon.Base.Texts.{is_white, strip, IsInk, Lacks, strip-Ink}
use Prim.Native.Nat.{ℕ, zero, suc, ◌+◌, ◌-◌, ◌*◌, ◌<◌}
use mathlib.Core.Path.{◌≡◌, refl, ◌∙◌}
use mathlib.Core.Bool.{Bool, true, false, ◌&&◌, not}
use mathlib.Core.List.{[], ◌∷◌}
use native.Mathlib.Omega.{arith}

pub data ℤ : Type 0 where
  pos negsuc : ℕ → ℤ

abbrev negate : ℕ → ℤ
negate zero = pos zero
negate (suc n) = negsuc n

-- `str(n)`
unfoldable pub write_integer : ℤ → Text
write_integer (pos n) = decimal n
write_integer (negsuc n) = b'-' ∷ decimal (suc n)

is_digit : ℕ → Bool
is_digit c = leb 48 c && leb c 57

-- Single underscores may stand between digits; `needs` says that a digit has to come.
read_digits : Bool → ℕ → Text → Result ℕ
unfolding is_digit
read_digits true acc [] = err value_error
read_digits false acc [] = ok acc
read_digits needs acc (c ∷ cs) = elim (is_digit c) [
  | true ↦ read_digits false (acc * 10 + (c - 48)) cs
  | false ↦ elim (c == b'_' && not needs) [
    | true ↦ read_digits true acc cs
    | false ↦ err value_error
  ]
]

read_signed : Text → Result ℤ
unfolding read_digits
read_signed [] = err value_error
read_signed (c ∷ cs) =
    if c == b'-'
    then (do n ← read_digits true 0 cs; ok (negate n))
    else if c == b'+'
    then (do n ← read_digits true 0 cs; ok (pos n))
    else (do n ← read_digits true 0 (c ∷ cs); ok (pos n))

-- `int(text)`, where the digits are those of ASCII: Python also takes other scripts' digits.
unfoldable pub read_integer : Text → Result ℤ
unfolding read_signed
read_integer t = read_signed (strip t)

read_digits_lem :
    (needs : Bool) (acc c : ℕ) (cs : Text)
    → IsDigit c
    → read_digits needs acc (c ∷ cs) ≡ read_digits false (acc * 10 + (c - 48)) cs
unfolding read_digits is_digit
read_digits_lem true acc c cs h = rw (h, read_digits) refl
read_digits_lem false acc c cs h = rw (h, read_digits) refl

digits_from_lem :
    (acc c : ℕ) (cs : Text)
    → IsDigit c
    → digits_from acc (c ∷ cs) ≡ digits_from (acc * 10 + (c - 48)) cs
unfolding digits_from
digits_from_lem acc c cs h = rw (h, digits_from) refl

read_digits-digits_from :
    (acc : ℕ) (t : Text) → All IsDigit t → read_digits false acc t ≡ digits_from acc t
read_digits-digits_from acc [] h = unfold read_digits digits_from in refl
read_digits-digits_from acc (c ∷ cs) (h, hs) =
    rw (read_digits_lem false acc c cs h, digits_from_lem acc c cs h)
      (read_digits-digits_from (acc * 10 + (c - 48)) cs hs)

read_digits_needed :
    (t : Text) (n : ℕ) → All IsDigit t → parse_int t ≡ ok n → read_digits true 0 t ≡ ok n
unfolding parse_int
read_digits_needed [] n h e = cc
read_digits_needed (c ∷ cs) n (h, hs) e =
    read_digits_lem true 0 c cs h
    ∙ read_digits-digits_from (0 * 10 + (c - 48)) cs hs
    ∙ rw (digits_from_lem 0 c cs h) at e

IsDigit-IsInk : (t : Text) → All IsDigit t → All IsInk t
unfolding is_white
IsDigit-IsInk [] h = tt
IsDigit-IsInk (c ∷ cs) (h, hs) = (ground arith, IsDigit-IsInk cs hs)

pub IsDigit-Lacks : (x : ℕ) (t : Text) → 57 < x → All IsDigit t → Lacks x t
IsDigit-Lacks x [] big h = tt
IsDigit-Lacks x (c ∷ cs) big (h, hs) = (ground arith, IsDigit-Lacks x cs big hs)

read_signed-digits :
    (t : Text) (n : ℕ) → All IsDigit t → read_digits true 0 t ≡ ok n → read_signed t ≡ ok (pos n)
unfolding read_signed read_digits
read_signed-digits [] n h e = cc
read_signed-digits (c ∷ cs) n (h, hs) e =
    let minus : (c == b'-') ≡ false = ground arith in
    let plus : (c == b'+') ≡ false = ground arith in rw (minus, plus, e) refl

read_signed-minus :
    (t : Text) (n : ℕ) → read_digits true 0 t ≡ ok n → read_signed (b'-' ∷ t) ≡ ok (negate n)
unfolding read_signed
read_signed-minus t n e = rw e refl

-- What `str` wrote, `int` reads back.
pub read-write_integer : (z : ℤ) → read_integer (write_integer z) ≡ ok z
unfolding read_integer write_integer
read-write_integer (pos n) =
    let digits = decimal-IsDigit n in
    rw (strip-Ink (decimal n) (IsDigit-IsInk (decimal n) digits)) (
      read_signed-digits (decimal n) n digits
        (read_digits_needed (decimal n) n digits (parse_int-decimal n)))
read-write_integer (negsuc n) =
    let digits = decimal-IsDigit (suc n) in
    let ink : All IsInk (b'-' ∷ decimal (suc n)) =
      (unfold is_white in refl, IsDigit-IsInk (decimal (suc n)) digits) in
    rw (strip-Ink (b'-' ∷ decimal (suc n)) ink) (
      read_signed-minus (decimal (suc n)) (suc n)
        (read_digits_needed (decimal (suc n)) (suc n) digits (parse_int-decimal (suc n))))

pub write_integer-Lacks : (x : ℕ) (z : ℤ) → 57 < x → Lacks x (write_integer z)
unfolding write_integer
write_integer-Lacks x (pos n) big = IsDigit-Lacks x (decimal n) big (decimal-IsDigit n)
write_integer-Lacks x (negsuc n) big =
    (ground arith, IsDigit-Lacks x (decimal (suc n)) big (decimal-IsDigit (suc n)))
