-- ===== src/Chutil/Utf8.antt =====
-- The encoding of 16-bit code points: chutil/include/chutil/utf8.h and chutil/src/utf8.c. A stream
-- is the list of bytes that are left in it, or that were put into it. A mask of low bits is a
-- remainder, a shift a product or a quotient, and an `or` of disjoint bits a sum.
pub mod RoundTrip
mod Tests
use chlibs.Common.{
  ℕ, suc, ◌+◌, ◌-◌, ◌*◌, ◌/◌, ◌%◌, ◌&&◌, ◌||◌, not, Bool, Option, none, some, List, [], ◌∷◌, ltb,
  leb, ◌==◌, if◌then◌else◌,
}

-- the value of a hexadecimal digit, 0 for another character
unfoldable pub hex_digit : ℕ → ℕ
hex_digit c =
    if leb 48 c && leb c 57
    then c - 48
    else if leb 97 c && leb c 102
    then c - 97 + 10
    else if leb 65 c && leb c 70
    then c - 65 + 10
    else 0

-- the loop over the digits; `res` is 16 bits wide
unfoldable pub add_digits : ℕ → List ℕ → ℕ
unfolding hex_digit
add_digits res [] = res
add_digits res (c ∷ cs) = add_digits (res * 16 % 65536 + hex_digit c) cs

unfoldable pub unicode_from_cstr : ℕ → ℕ → ℕ → ℕ → ℕ
unfolding add_digits
unicode_from_cstr a b c d = add_digits 0 (a ∷ b ∷ c ∷ d ∷ [])

-- the bytes that are put, in order, to a stream that takes them
unfoldable pub unicode_to_utf8 : ℕ → List ℕ
unicode_to_utf8 uc =
    let p0 = uc % 16 in
    let p1 = uc / 16 % 16 in
    let p2 = uc / 256 % 16 in
    let p3 = uc / 4096 % 16 in
    if ltb uc 0x80
    then (p1 * 16 + p0) ∷ []
    else if ltb uc 0x800
    then (0xC0 + (p2 * 4 + p1 / 4)) ∷ (0x80 + (p1 % 4 * 16 + p0)) ∷ []
    else (0xE0 + p3) ∷ (0x80 + (p2 * 4 + p1 / 4)) ∷ (0x80 + (p1 % 4 * 16 + p0)) ∷ []

-- the space that stands for a code point that cannot be read
abbrev pub bad_unicode : ℕ
bad_unicode = 0x20

-- The rest of a sequence of two bytes that begins with `b0`.
unfoldable pub second_of_two : ℕ → List ℕ → Option (ℕ × List ℕ)
second_of_two b0 [] = none
second_of_two b0 (b1 ∷ rest) =
    if not (b1 / 64 == 2) then some (bad_unicode, rest) else some (b1 % 64 + b0 % 32 * 64, rest)

-- The rest of a sequence of three bytes that begins with `b0`.
unfoldable pub last_of_three : ℕ → List ℕ → Option (ℕ × List ℕ)
last_of_three b0 [] = none
last_of_three b0 (b1 ∷ []) = none
last_of_three b0 (b1 ∷ b2 ∷ rest) =
    if not (b1 / 64 == 2) || not (b2 / 64 == 2)
    then some (bad_unicode, rest)
    else some (b2 % 64 + b1 % 64 * 64 + b0 % 16 * 4096, rest)

-- The code point and the bytes that are left, or `none` if the stream ends.
unfoldable pub unicode_from_utf8 : List ℕ → Option (ℕ × List ℕ)
unfolding second_of_two last_of_three
unicode_from_utf8 [] = none
unicode_from_utf8 (b0 ∷ rest) =
    if b0 / 128 == 0
    then some (b0, rest)
    else if b0 / 32 == 6
    then second_of_two b0 rest
    else if b0 / 16 == 14
    then last_of_three b0 rest
    else some (bad_unicode, rest)
