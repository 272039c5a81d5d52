-- ===== src/Prelude/Integers/Decimal.antt =====
-- A printed number parses back.
use lala_search.Prelude.{
  ℕ, zero, suc, ◌+◌, ◌/◌, ◌%◌, ◌^◌, ◌≤◌, ◌<◌, ◌≡◌, refl, ◌∙◌, true, some, [], ◌∷◌, arith, subst,
  false, ◌==◌,
}
use native.Mathlib.Decide.{dec_lt}
use mathlib.Core.Option
use lala_search.Prelude.Text.{Text}
use lala_search.Prelude.Integers.{
  ℤ, pos, negsuc, in_i64, i64_max, digits, decimal, int_to_string, push_digit, parse_digits,
  parse_magnitude, negative, parse_i64,
}

==-of_lt : (a b : ℕ) → b < a → (a == b) ≡ false
==-of_lt a b lt = ground arith

push_digit_lem : (limit n : ℕ) → n ≤ limit → push_digit limit (n / 10) (b'0' + n % 10) ≡ some n
unfolding push_digit
push_digit_lem limit n le = ground arith

push_digit_small : (limit n : ℕ) → n ≤ limit → n < 10 → push_digit limit 0 (b'0' + n) ≡ some n
unfolding push_digit
push_digit_small limit n le lt = ground arith

module _ (fuel n : ℕ) (rest : Text) where
  digits_of_small : n < 10 → digits (suc fuel) n rest ≡ (b'0' + n) ∷ rest
  unfolding digits
  digits_of_small lt = ground (arith)

  digits_of_large :
      10 ≤ n → digits (suc fuel) n rest ≡ digits fuel (n / 10) ((b'0' + n % 10) ∷ rest)
  unfolding digits
  digits_of_large le = ground (arith)

parse_digits_step :
    (limit n : ℕ) (c : ℕ) (s : Text)
    → parse_digits limit (some n) (c ∷ s) ≡ parse_digits limit (push_digit limit n c) s
unfolding parse_digits
parse_digits_step limit n c s = refl

parse_digits_none : (limit n : ℕ) → parse_digits limit (some n) [] ≡ some n
unfolding parse_digits
parse_digits_none limit n = refl

-- The digits of `n` are read as `n`, whatever follows.
parse_digits-digits :
    (limit fuel n : ℕ) (rest : Text)
    → n < fuel
    → n ≤ limit
    → parse_digits limit (some 0) (digits fuel n rest) ≡ parse_digits limit (some n) rest
parse_digits-digits limit zero n rest lt le = absurd (omega arith)
parse_digits-digits limit (suc fuel) n rest lt le = elim (dec_lt n 10) [
  | yes small ↦
      rw
        (
          digits_of_small fuel n rest small,
          parse_digits_step limit 0 (b'0' + n) rest,
          push_digit_small limit n le small,
        )
        refl
  | no large ↦
      rw
        (
          digits_of_large fuel n rest (omega arith),
          parse_digits-digits limit fuel (n / 10) ((b'0' + n % 10) ∷ rest) (omega arith)
              (omega arith),
          parse_digits_step limit (n / 10) (b'0' + n % 10) rest,
          push_digit_lem limit n le,
        )
        refl
]

-- A printed number starts with a digit.
digits-head :
    (fuel n : ℕ) (rest : Text)
    → n < fuel
    → (c : ℕ) × (s : Text) × (digits fuel n rest ≡ c ∷ s) × (b'0' ≤ c)
digits-head zero n rest lt = absurd (omega arith)
digits-head (suc fuel) n rest lt = elim (dec_lt n 10) [
  | yes small ↦ (b'0' + n, rest, digits_of_small fuel n rest small, omega arith)
  | no large ↦
      let (c, s, e, le) = digits-head fuel (n / 10) ((b'0' + n % 10) ∷ rest) (omega arith) in
      (c, s, digits_of_large fuel n rest (omega arith) ∙ e, le)
]

decimal-head : (n : ℕ) → (c : ℕ) × (s : Text) × (decimal n ≡ c ∷ s) × (b'0' ≤ c)
unfolding decimal
decimal-head n = digits-head (suc n) n [] (omega arith)

parse_digits-decimal : (limit n : ℕ) → n ≤ limit → parse_digits limit (some 0) (decimal n) ≡ some n
unfolding decimal
parse_digits-decimal limit n le =
    parse_digits-digits limit (suc n) n [] (omega arith) le ∙ parse_digits_none limit n

parse_i64_of_minus :
    (s : Text) (n : ℕ)
    → parse_magnitude (2 ^ 63) s ≡ some (suc n)
    → parse_i64 (b'-' ∷ s) ≡ some (negsuc n)
unfolding parse_i64 negative
parse_i64_of_minus s n h = rw h refl

parse_magnitude-decimal : (limit n : ℕ) → n ≤ limit → parse_magnitude limit (decimal n) ≡ some n
unfolding parse_magnitude
parse_magnitude-decimal limit n le =
    let (c, s, e, _) = decimal-head n in
    let read = parse_digits-decimal limit n le in
    rw e (subst (λ (t : Text). parse_digits limit (some 0) t ≡ some n) e read)

parse_i64_of_digit :
    (s : Text) (c : ℕ) (rest : Text)
    → s ≡ c ∷ rest
    → b'0' ≤ c
    → parse_i64 s ≡ Option.map pos (parse_magnitude i64_max s)
unfolding parse_i64
parse_i64_of_digit s c rest e le =
    rw (e, ==-of_lt c b'-' (omega arith), ==-of_lt c b'+' (omega arith)) refl

-- `parse` after `to_string`: every `i64` comes back as it was printed.
pub parse_i64-int_to_string : (z : ℤ) → in_i64 z ≡ true → parse_i64 (int_to_string z) ≡ some z
unfolding int_to_string
parse_i64-int_to_string (pos n) h =
    let (c, s, e, le) = decimal-head n in
    parse_i64_of_digit (decimal n) c s e le
    ∙ (rw (parse_magnitude-decimal i64_max n (ground (arith, h))) refl)
parse_i64-int_to_string (negsuc n) h =
    parse_i64_of_minus (decimal (suc n)) n
      (parse_magnitude-decimal (2 ^ 63) (suc n) (ground (arith, h)))
