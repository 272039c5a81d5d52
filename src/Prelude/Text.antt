-- ===== src/Prelude/Text.antt =====
-- Rust's `str` and `String` as lists of code points, with the functions of `std` that the
-- program calls.
use Prim.Native.Char.{code}
use Prim.Native.String.{String}
use Prim.Native.Nat.{ℕ, zero, suc, ◌+◌}
use mathlib.Core.Path.{◌≡◌, refl}
use mathlib.Core.Logic.{◌↔◌}
use mathlib.Core.Bool.{Bool, true, false, ◌&&◌, ◌||◌}
use mathlib.Core.Option.{Option, none, some}
use mathlib.Core.Option
use mathlib.Core.List.{List, [], ◌∷◌, ◌++◌, reverse}
use native.Mathlib.Omega.{arith}
use lala_search.Prelude.Tests.{ltb, leb, ◌==◌, if◌then◌else◌}

abbrev pub Text : Type 0
Text = List ℕ

-- The code points of a literal.
abbrev pub codes : String → Text
codes String.[] = []
codes (String.◌∷◌ c s) = code c ∷ codes s

-- `s.is_empty()`
abbrev pub is_empty_text : Text → Bool
is_empty_text [] = true
is_empty_text (c ∷ s) = false

-- `a == b`
unfoldable pub text_eq : Text → Text → Bool
text_eq [] [] = true
text_eq [] (d ∷ t) = false
text_eq (c ∷ s) [] = false
text_eq (c ∷ s) (d ∷ t) = c == d && text_eq s t

pub text_eq_iff : (s t : Text) → (text_eq s t ≡ true) ↔ (s ≡ t)
unfolding text_eq
text_eq_iff [] [] = ground arith
text_eq_iff [] (d ∷ t) = ground arith
text_eq_iff (c ∷ s) [] = ground arith
text_eq_iff (c ∷ s) (d ∷ t) = ground (arith, text_eq_iff s t)

pub text_eq_refl : (s : Text) → text_eq s s ≡ true
text_eq_refl s = (text_eq_iff s s).1 refl

-- `char::to_ascii_lowercase`
unfoldable pub lower_char : ℕ → ℕ
lower_char c = if leb b'A' c && leb c b'Z' then c + 32 else c

-- `str::to_ascii_lowercase`
unfoldable pub to_ascii_lowercase : Text → Text
unfolding lower_char
to_ascii_lowercase [] = []
to_ascii_lowercase (c ∷ s) = lower_char c ∷ to_ascii_lowercase s

-- `str::eq_ignore_ascii_case`
unfoldable pub eq_ignore_ascii_case : Text → Text → Bool
unfolding to_ascii_lowercase text_eq
eq_ignore_ascii_case s t = text_eq (to_ascii_lowercase s) (to_ascii_lowercase t)

-- `char::is_whitespace`: Unicode's White_Space
unfoldable pub is_whitespace : ℕ → Bool
is_whitespace c =
    (leb 9 c && leb c 13)
    || c == 32
    || c == 0x85
    || c == 0xa0
    || c == 0x1680
    || (leb 0x2000 c && leb c 0x200a)
    || c == 0x2028
    || c == 0x2029
    || c == 0x202f
    || c == 0x205f
    || c == 0x3000

-- `str::trim_start`
unfoldable pub trim_start : Text → Text
unfolding is_whitespace
trim_start [] = []
trim_start (c ∷ s) = if is_whitespace c then trim_start s else c ∷ s

-- `str::trim`
unfoldable pub trim : Text → Text
unfolding trim_start
trim s = reverse (trim_start (reverse (trim_start s)))

-- `s.split(c).next_back()`: what follows the last `c`, or the whole text
last_piece_from : ℕ → Text → Text → Text
last_piece_from sep found [] = found
last_piece_from sep found (c ∷ s) = last_piece_from sep (if c == sep then s else found) s

unfoldable pub last_piece : ℕ → Text → Text
unfolding last_piece_from
last_piece sep s = last_piece_from sep s s

-- `str::strip_prefix`
unfoldable pub strip_prefix : Text → Text → Option Text
strip_prefix [] s = some s
strip_prefix (c ∷ prefix) [] = none
strip_prefix (c ∷ prefix) (d ∷ s) =
    let rest = strip_prefix prefix s in if c == d then rest else none

-- `s.split(c)`, with the piece that is being read
unfoldable pub split_from : ℕ → Text → Text → List Text
split_from sep piece [] = reverse piece ∷ []
split_from sep piece (c ∷ s) =
    let ended = split_from sep [] s in
    let longer = split_from sep (c ∷ piece) s in if c == sep then reverse piece ∷ ended else longer

-- `s.split(c).collect()`
unfoldable pub split : ℕ → Text → List Text
unfolding split_from
split sep s = split_from sep [] s

-- The bytes of a code point in UTF-8
unfoldable pub utf8_width : ℕ → ℕ
utf8_width c = if ltb c 0x80 then 1 else if ltb c 0x800 then 2 else if ltb c 0x10000 then 3 else 4

-- `s.len()`, in bytes
unfoldable pub byte_len : Text → ℕ
unfolding utf8_width
byte_len [] = 0
byte_len (c ∷ s) = utf8_width c + byte_len s

unfoldable pub starts_with : Text → Text → Bool
starts_with [] s = true
starts_with (c ∷ prefix) [] = false
starts_with (c ∷ prefix) (d ∷ s) = c == d && starts_with prefix s

-- `s.contains(needle)`
unfoldable pub contains : Text → Text → Bool
unfolding starts_with
contains needle [] = starts_with needle []
contains needle (c ∷ s) = starts_with needle (c ∷ s) || contains needle s

-- `str::to_lowercase` as far as letters of ASCII come out of it: from those of ASCII, from U+0130
-- and from the sign for kelvin. Any other character stays as it is.
unfoldable pub to_lowercase : Text → Text
unfolding lower_char
to_lowercase [] = []
to_lowercase (c ∷ s) =
    let rest = to_lowercase s in
    if c == 0x130
    then b'i' ∷ 0x307 ∷ rest
    else if c == 0x212a
    then b'k' ∷ rest
    else lower_char c ∷ rest

-- The words of `s`, each followed by the words that come after it; `word` is being read, backwards.
unfoldable pub words_from : Text → Text → List Text
unfolding is_whitespace
words_from word [] = if is_empty_text word then [] else reverse word ∷ []
words_from word (c ∷ s) =
    let ended = words_from [] s in
    let longer = words_from (c ∷ word) s in
    if is_whitespace c then if is_empty_text word then ended else reverse word ∷ ended else longer

-- `words.join(" ")`
unfoldable pub join_words : List Text → Text
join_words [] = []
join_words (word ∷ []) = word
join_words (word ∷ more ∷ words) = word ++ b' ' ∷ join_words (more ∷ words)

-- `s.split_whitespace().collect::<Vec<_>>().join(" ")`
unfoldable pub squeeze : Text → Text
unfolding words_from join_words
squeeze s = join_words (words_from [] s)

-- The first `n` characters, and the rest
unfoldable pub split_at : ℕ → Text → Text × Text
split_at zero s = ([], s)
split_at (suc n) [] = ([], [])
split_at (suc n) (c ∷ s) = let (front, back) = split_at n s in (c ∷ front, back)

-- `a < b` of texts: UTF-8 keeps the order of the code points.
unfoldable pub text_ltb : Text → Text → Bool
text_ltb [] [] = false
text_ltb (c ∷ s) [] = false
text_ltb [] (d ∷ t) = true
text_ltb (c ∷ s) (d ∷ t) = ltb c d || ((c == d) && text_ltb s t)

-- `s.split_once(c)`: what comes before the first `c`, and what comes after it
unfoldable pub split_once : ℕ → Text → Option (Text × Text)
split_once sep [] = none
split_once sep (c ∷ s) =
    let rest = split_once sep s in
    if c == sep then some ([], s) else Option.map (λ p. (c ∷ p.0, p.1)) rest
