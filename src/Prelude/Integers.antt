-- ===== src/Prelude/Integers.antt =====
-- Rust's signed integers over the native numbers: `i64` as it is printed and parsed, and `i32` where
-- it wraps around.
pub mod Decimal
use Prim.Native.Nat.{ℕ, zero, suc, ◌+◌, ◌-◌, ◌*◌, ◌/◌, ◌%◌, ◌^◌, ◌≤◌, ◌<◌}
use mathlib.Core.Path.{◌≡◌, refl, ◌∙◌}
use mathlib.Core.Bool.{Bool, true, false, ◌&&◌}
use mathlib.Core.Option.{Option, none, some}
use mathlib.Core.Option
use mathlib.Core.List.{List, [], ◌∷◌, ◌++◌}
use native.Mathlib.Omega.{arith}
use lala_search.Prelude.Tests.{ltb, leb, ◌==◌, if◌then◌else◌}
use lala_search.Prelude.Text.{Text}

-- `pos n` is n and `negsuc n` is -(n + 1).
pub data ℤ : Type 0 where
  pos negsuc : ℕ → ℤ

unfoldable pub minus : ℕ → ℕ → ℤ
minus a b = if leb b a then pos (a - b) else negsuc (b - a - 1)

infixl 40 ◌+ℤ◌
unfoldable pub ◌+ℤ◌ : ℤ → ℤ → ℤ
unfolding minus
pos a +ℤ pos b = pos (a + b)
pos a +ℤ negsuc b = minus a (suc b)
negsuc a +ℤ pos b = minus b (suc a)
negsuc a +ℤ negsuc b = negsuc (suc (a + b))

abbrev pub leb_ℤ : ℤ → ℤ → Bool
leb_ℤ (pos a) (pos b) = leb a b
leb_ℤ (pos a) (negsuc b) = false
leb_ℤ (negsuc a) (pos b) = true
leb_ℤ (negsuc a) (negsuc b) = leb b a

abbrev pub ltb_ℤ : ℤ → ℤ → Bool
ltb_ℤ (pos a) (pos b) = ltb a b
ltb_ℤ (pos a) (negsuc b) = false
ltb_ℤ (negsuc a) (pos b) = true
ltb_ℤ (negsuc a) (negsuc b) = ltb b a

abbrev pub is_positive : ℤ → Bool
is_positive (pos zero) = false
is_positive (pos (suc n)) = true
is_positive (negsuc n) = false

-- The largest `i64`
abbrev pub i64_max : ℕ
i64_max = 2 ^ 63 - 1

-- Whether the number is an `i64`
abbrev pub in_i64 : ℤ → Bool
in_i64 (pos n) = leb n i64_max
in_i64 (negsuc n) = leb n i64_max

-- `n as i32`
unfoldable pub as_i32 : ℕ → ℤ
as_i32 n = let m = n % 2 ^ 32 in if ltb m (2 ^ 31) then pos m else negsuc (2 ^ 32 - 1 - m)

-- `n + 1` of an `i32`, which wraps around
unfoldable pub succ_i32 : ℤ → ℤ
succ_i32 (pos n) = if ltb (suc n) (2 ^ 31) then pos (suc n) else negsuc (2 ^ 31 - 1)
succ_i32 (negsuc zero) = pos 0
succ_i32 (negsuc (suc n)) = negsuc n

-- The digits of `n` before `rest`; `fuel` bounds their number.
unfoldable pub digits : ℕ → ℕ → Text → Text
digits zero n rest = rest
digits (suc fuel) n rest =
    let more = digits fuel (n / 10) ((b'0' + n % 10) ∷ rest) in
    if ltb n 10 then (b'0' + n) ∷ rest else more

-- `n.to_string()`
unfoldable pub decimal : ℕ → Text
unfolding digits
decimal n = digits (suc n) n []

unfoldable pub int_to_string : ℤ → Text
unfolding decimal
int_to_string (pos n) = decimal n
int_to_string (negsuc n) = b'-' ∷ decimal (suc n)

-- One more digit of a number that may not exceed `limit`
unfoldable pub push_digit : ℕ → ℕ → ℕ → Option ℕ
push_digit limit n c =
    if leb b'0' c && leb c b'9' && leb (n * 10 + (c - b'0')) limit
    then some (n * 10 + (c - b'0'))
    else none

unfoldable pub parse_digits : ℕ → Option ℕ → Text → Option ℕ
unfolding push_digit
parse_digits limit none s = none
parse_digits limit (some n) [] = some n
parse_digits limit (some n) (c ∷ s) = parse_digits limit (push_digit limit n c) s

-- At least one digit
unfoldable pub parse_magnitude : ℕ → Text → Option ℕ
unfolding parse_digits
parse_magnitude limit [] = none
parse_magnitude limit (c ∷ s) = parse_digits limit (some 0) (c ∷ s)

unfoldable pub negative : ℕ → ℤ
negative zero = pos 0
negative (suc n) = negsuc n

-- `str::parse::<i64>`: a sign at most, and digits of a number that fits
unfoldable pub parse_i64 : Text → Option ℤ
unfolding parse_magnitude negative
parse_i64 [] = none
parse_i64 (c ∷ s) =
    if c == b'-'
    then Option.map negative (parse_magnitude (2 ^ 63) s)
    else if c == b'+'
    then Option.map pos (parse_magnitude i64_max s)
    else Option.map pos (parse_magnitude i64_max (c ∷ s))
