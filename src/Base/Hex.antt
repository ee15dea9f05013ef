-- ===== src/Base/Hex.antt =====
-- `bytes.hex()` and `bytes.fromhex`.
use bitchat_node_daemon.Base.Tests.{ltb, leb, ◌==◌, if◌then◌else◌}
use bitchat_node_daemon.Base.Lists.{length, All}
use bitchat_node_daemon.Base.Errors.{Result, ok, err, ◌>>=◌, value_error, ok-injective}
use bitchat_node_daemon.Base.Bytes.{Bytes, Text, IsByte}
use Prim.Native.Nat.{ℕ, ◌+◌, ◌-◌, ◌*◌, ◌/◌, ◌%◌, ◌<◌}
use mathlib.Core.Path.{◌≡◌, refl, ap, sym, ◌∙◌}
use mathlib.Core.Bool.{Bool, false, ◌&&◌, ◌||◌}
use mathlib.Core.List.{[], ◌∷◌}
use native.Mathlib.Omega.{arith}

hex_digit : ℕ → ℕ
hex_digit n = if ltb n 10 then 48 + n else 87 + n

unfoldable pub hex : Bytes → Text
unfolding hex_digit
hex [] = []
hex (b ∷ bs) = hex_digit (b / 16) ∷ hex_digit (b % 16) ∷ hex bs

is_space : ℕ → Bool
is_space c = c == 32 || leb 9 c && leb c 13

digit_value : ℕ → Result ℕ
digit_value c =
    if leb 48 c && leb c 57
    then ok (c - 48)
    else if leb 97 c && leb c 102
    then ok (c - 87)
    else if leb 65 c && leb c 70
    then ok (c - 55)
    else err value_error

-- White space may stand between two bytes.
unfoldable pub from_hex : Text → Result Bytes
unfolding is_space digit_value
from_hex [] = ok []
from_hex (c ∷ []) = if is_space c then ok [] else err value_error
from_hex (c ∷ d ∷ cs) =
    let skip = from_hex (d ∷ cs) in
    let pair = (do
      h ← digit_value c
      l ← digit_value d
      rest ← from_hex cs
      ok ((h * 16 + l) ∷ rest)) in
    if is_space c then skip else pair

hex_digit_lem :
    (n : ℕ) → n < 16 → (is_space (hex_digit n) ≡ false) × (digit_value (hex_digit n) ≡ ok n)
unfolding hex_digit is_space digit_value
hex_digit_lem n h = ground arith

from_hex-pair :
    (b : ℕ) (cs : Text)
    → b < 256
    → from_hex (hex_digit (b / 16) ∷ hex_digit (b % 16) ∷ cs)
      ≡ (from_hex cs >>= λ rest. ok (b ∷ rest))
from_hex-pair b cs h =
    let (s, d) = hex_digit_lem (b / 16) (omega arith) in
    let (_, d') = hex_digit_lem (b % 16) (omega arith) in
    let e : b / 16 * 16 + b % 16 ≡ b = omega arith in unfold from_hex in rw (s, d, d', e)

pub from_hex-hex : (bs : Bytes) → All IsByte bs → from_hex (hex bs) ≡ ok bs
unfolding hex
from_hex-hex [] h = unfold from_hex in refl
from_hex-hex (b ∷ bs) h = from_hex-pair b (hex bs) h.0 ∙ rw (from_hex-hex bs h.1)

pub length-hex : (bs : Bytes) → length (hex bs) ≡ 2 * length bs
unfolding hex
length-hex [] = refl
length-hex (b ∷ bs) = omega (arith, length-hex bs)

pub hex-injective : (xs ys : Bytes) → All IsByte xs → All IsByte ys → hex xs ≡ hex ys → xs ≡ ys
hex-injective xs ys hx hy e =
    ok-injective (sym (from_hex-hex xs hx) ∙ ap from_hex e ∙ from_hex-hex ys hy)

digit_lacks : (n : ℕ) → n < 16 → (hex_digit n == 124) ≡ false
unfolding hex_digit
digit_lacks n h = ground arith

-- No digit is a bar.
pub hex-Lacks : (bs : Bytes) → All IsByte bs → All (λ x. (x == 124) ≡ false) (hex bs)
unfolding hex
hex-Lacks [] h = tt
hex-Lacks (b ∷ bs) (h, hs) =
    (digit_lacks (b / 16) (omega arith), (digit_lacks (b % 16) (omega arith), hex-Lacks bs hs))
