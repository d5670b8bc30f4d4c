-- ===== src/Chutil/Utf8/RoundTrip.antt =====
-- A code point that was written is read back.
use chlibs.Common.{
  ℕ, ◌+◌, ◌*◌, ◌/◌, ◌%◌, ◌<◌, ◌≡◌, refl, some, List, ◌++◌, ltb, Bool-cases, inl, inr, ltb→lt,
  not-ltb, eq→==, arith,
}
use chlibs.Chutil.Utf8.{unicode_to_utf8, unicode_from_utf8, hex_digit, unicode_from_cstr}

-- A 16-bit code point that was written as UTF-8 is read back, whatever bytes follow, and those are
-- left.
pub unicode_from_utf8-to_utf8 :
    (uc : ℕ) (rest : List ℕ)
    → uc < 65536
    → unicode_from_utf8 (unicode_to_utf8 uc ++ rest) ≡ some (uc, rest)
unfolding unicode_to_utf8 unicode_from_utf8
unicode_from_utf8-to_utf8 uc rest small = elim (Bool-cases (ltb uc 0x80)) [
  | inl short ↦
      let lt = ltb→lt _ _ short in
      let b : uc / 16 % 16 * 16 + uc % 16 ≡ uc = omega arith in
      rw (short, b, eq→== (uc / 128) 0 (omega arith)) refl
  | inr more ↦ elim (Bool-cases (ltb uc 0x800)) [
    | inl two ↦
        let lt = ltb→lt _ _ two in
        let ge = not-ltb _ _ more in
        let b0 : (0xC0 + (uc / 256 % 16 * 4 + uc / 16 % 16 / 4)) / 128 ≡ 1 = omega arith in
        let b1 : (0xC0 + (uc / 256 % 16 * 4 + uc / 16 % 16 / 4)) / 32 ≡ 6 = omega arith in
        let b2 : (0x80 + (uc / 16 % 16 % 4 * 16 + uc % 16)) / 64 ≡ 2 = omega arith in
        let v : (0x80 + (uc / 16 % 16 % 4 * 16 + uc % 16)) % 64
              + (0xC0 + (uc / 256 % 16 * 4 + uc / 16 % 16 / 4)) % 32 * 64
            ≡ uc =
          omega arith in
        rw (more, two, b0, b1, b2, v) refl
    | inr three ↦
        let ge = not-ltb _ _ three in
        let b0 : (0xE0 + uc / 4096 % 16) / 128 ≡ 1 = omega arith in
        let b1 : (0xE0 + uc / 4096 % 16) / 32 ≡ 7 = omega arith in
        let b2 : (0xE0 + uc / 4096 % 16) / 16 ≡ 14 = omega arith in
        let b3 : (0x80 + (uc / 256 % 16 * 4 + uc / 16 % 16 / 4)) / 64 ≡ 2 = omega arith in
        let b4 : (0x80 + (uc / 16 % 16 % 4 * 16 + uc % 16)) / 64 ≡ 2 = omega arith in
        let v : (0x80 + (uc / 16 % 16 % 4 * 16 + uc % 16)) % 64
              + (0x80 + (uc / 256 % 16 * 4 + uc / 16 % 16 / 4)) % 64 * 64
              + (0xE0 + uc / 4096 % 16) % 16 * 4096
            ≡ uc =
          omega arith in
        rw (more, three, b0, b1, b2, b3, b4, v) refl
  ]
]

hex_digit-lt : (c : ℕ) → hex_digit c < 16
unfolding hex_digit
hex_digit-lt c = ground arith

-- Four hexadecimal digits give the number that they write, which fits 16 bits; another character
-- counts as 0.
pub unicode_from_cstr-eq :
    (a b c d : ℕ)
    → (unicode_from_cstr a b c d
        ≡ hex_digit a * 4096 + hex_digit b * 256 + hex_digit c * 16 + hex_digit d)
      × (unicode_from_cstr a b c d < 65536)
unfolding unicode_from_cstr
unicode_from_cstr-eq a b c d =
    let ha = hex_digit-lt a in
    let hb = hex_digit-lt b in
    let hc = hex_digit-lt c in let hd = hex_digit-lt d in (omega arith, omega arith)
