-- ===== src/Base/Decimal.antt =====
-- `str(n)` of a number and `int(text)` of a text of digits.
use bitchat_node_daemon.Base.{
  ℕ, zero, suc, ◌+◌, ◌-◌, ◌*◌, ◌/◌, ◌%◌, ◌<◌, ◌≡◌, refl, ap, ◌∙◌, inl, inr, true, false, ◌&&◌, [],
  All, All-append, ◌∷◌, ◌++◌, arith, ltb, leb, if◌then◌else◌, Bool-cases, Result, ok, err,
  value_error,
}
use bitchat_node_daemon.Base.Bytes.{Text}

decimal_from : ℕ → ℕ → Text
decimal_from zero n = []
decimal_from (suc fuel) n =
    let rest = decimal_from fuel (n / 10) in
    if ltb n 10 then (48 + n) ∷ [] else rest ++ (48 + n % 10) ∷ []

-- One digit goes in a round, so `n + 1` rounds are enough.
unfoldable pub decimal : ℕ → Text
unfolding decimal_from
decimal n = decimal_from (suc n) n

unfoldable pub digits_from : ℕ → Text → Result ℕ
digits_from acc [] = ok acc
digits_from acc (c ∷ cs) = elim (leb 48 c && leb c 57) [
  | true ↦ digits_from (acc * 10 + (c - 48)) cs
  | false ↦ err value_error
]

-- `int(text)` without the spaces, signs and underscores that Python also takes.
unfoldable pub parse_int : Text → Result ℕ
unfolding digits_from
parse_int [] = err value_error
parse_int (c ∷ cs) = digits_from 0 (c ∷ cs)

digits_from-append :
    (acc d : ℕ) (t : Text) (n : ℕ)
    → d < 10
    → digits_from acc t ≡ ok n
    → digits_from acc (t ++ (48 + d) ∷ []) ≡ ok (n * 10 + d)
unfolding digits_from
digits_from-append acc d [] n h e = ground arith
digits_from-append acc d (c ∷ cs) n h e =
    ground (arith, digits_from-append (acc * 10 + (c - 48)) d cs n)

digits_from-decimal : (fuel n : ℕ) → n < fuel → digits_from 0 (decimal_from fuel n) ≡ ok n
unfolding decimal_from
digits_from-decimal zero n h = absurd (omega arith)
digits_from-decimal (suc fuel) n h = elim (Bool-cases (ltb n 10)) [
  | inl e ↦ rw e (unfold digits_from in ground arith)
  | inr e ↦
      let small : n / 10 < fuel = ground arith in
      let back : n / 10 * 10 + n % 10 ≡ n = omega arith in
      rw e (
        digits_from-append 0 (n % 10) (decimal_from fuel (n / 10)) (n / 10) (omega arith)
          (digits_from-decimal fuel (n / 10) small)
        ∙ ap ok back)
]

parse_int-append : (t : Text) (c : ℕ) → parse_int (t ++ c ∷ []) ≡ digits_from 0 (t ++ c ∷ [])
unfolding parse_int
parse_int-append [] c = refl
parse_int-append (d ∷ t) c = refl

-- What `str` wrote, `int` reads back.
pub parse_int-decimal : (n : ℕ) → parse_int (decimal n) ≡ ok n
unfolding decimal
parse_int-decimal n = elim (Bool-cases (ltb n 10)) [
  | inl e ↦ rw e (unfold parse_int in ground arith)
  | inr e ↦
      let whole = digits_from-decimal (suc n) n (omega arith) in
      rw e (parse_int-append (decimal_from n (n / 10)) (48 + n % 10) ∙ rw e at whole)
]

abbrev pub IsDigit : ℕ → Type 0
IsDigit c = (leb 48 c && leb c 57) ≡ true

decimal_from-IsDigit : (fuel n : ℕ) → All IsDigit (decimal_from fuel n)
unfolding decimal_from
decimal_from-IsDigit zero n = tt
decimal_from-IsDigit (suc fuel) n = elim (Bool-cases (ltb n 10)) [
  | inl e ↦ rw e (ground arith, tt)
  | inr e ↦ rw e (
      All-append IsDigit (decimal_from fuel (n / 10)) ((48 + n % 10) ∷ [])
        (decimal_from-IsDigit fuel (n / 10)) (ground arith, tt))
]

pub decimal-IsDigit : (n : ℕ) → All IsDigit (decimal n)
unfolding decimal
decimal-IsDigit n = decimal_from-IsDigit (suc n) n

pub parse_int_digits : (t : Text) (n : ℕ) → parse_int t ≡ ok n → digits_from 0 t ≡ ok n
unfolding parse_int
parse_int_digits [] n h = cc
parse_int_digits (c ∷ cs) n h = h
