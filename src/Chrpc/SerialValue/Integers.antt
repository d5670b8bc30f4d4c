-- ===== src/Chrpc/SerialValue/Integers.antt =====
-- The types and the bytes of the values that the constructors of integers make:
-- chrpc/src/serial_value.c.
use chlibs.Common.{
  ap₂, ◌^◌, mul-suc, length-append, ℕ, zero, suc, ◌+◌, ◌*◌, ◌/◌, ◌%◌, ◌<◌, ◌≡◌, refl, sym, ap, ◌∙◌,
  List, [], ◌∷◌, ◌++◌, length, arith, mod-lt, mod-eq_of_lt,
}
use native.Mathlib.Nat.{mul_assoc, div-add-mod, add-mul-mod_self_left}
use chlibs.Chrpc.SerialType.{Prim, prim, array, byte, int16, int32, int64, uint16, uint32, uint64}
use chlibs.Chrpc.SerialValue.{num, num_arr, Value}
use chlibs.Chrpc.SerialValue.Encoding.{AllBytes}
use chlibs.Chrpc.SerialValue.RoundTrip.{IsProper}
use chlibs.Chrpc.SerialValue.Numbers.{
  le_bytes, va_populate, new_chrpc_b8_value, new_chrpc_i16_value, new_chrpc_i32_value,
  new_chrpc_i64_value, new_chrpc_u16_value, new_chrpc_u32_value, new_chrpc_u64_value,
  new_chrpc_b8_array_value_va, new_chrpc_i16_array_value_va, new_chrpc_i32_array_value_va,
  new_chrpc_i64_array_value_va, new_chrpc_u16_array_value_va, new_chrpc_u32_array_value_va,
  new_chrpc_u64_array_value_va,
}

length-le_bytes : (w n : ℕ) → length (le_bytes w n) ≡ w
unfolding le_bytes
length-le_bytes zero n = refl
length-le_bytes (suc w) n = ap suc (length-le_bytes w (n / 256))

length-va_populate : (w : ℕ) (ns : List ℕ) → length (va_populate w ns) ≡ w * length ns
unfolding va_populate
length-va_populate w [] = omega arith
length-va_populate w (n ∷ ns) =
    length-append (le_bytes w n) (va_populate w ns)
    ∙ ap₂ (λ a b. a + b) (length-le_bytes w n) (length-va_populate w ns)
    ∙ omega (arith, mul-suc w (length ns))

-- The constructors of integers and of arrays of integers make proper values of the seven integer
-- types, if the arguments are fewer than 2 ^ 32.
integer_values-IsProper :
    (n : ℕ) (args : List ℕ)
    → length args < 2 ^ 32
    → IsProper (new_chrpc_b8_value n)
      × IsProper (new_chrpc_b8_array_value_va args)
      × IsProper (new_chrpc_i16_value n)
      × IsProper (new_chrpc_i16_array_value_va args)
      × IsProper (new_chrpc_i32_value n)
      × IsProper (new_chrpc_i32_array_value_va args)
      × IsProper (new_chrpc_i64_value n)
      × IsProper (new_chrpc_i64_array_value_va args)
      × IsProper (new_chrpc_u16_value n)
      × IsProper (new_chrpc_u16_array_value_va args)
      × IsProper (new_chrpc_u32_value n)
      × IsProper (new_chrpc_u32_array_value_va args)
      × IsProper (new_chrpc_u64_value n)
      × IsProper (new_chrpc_u64_array_value_va args)
unfolding new_chrpc_b8_value new_chrpc_i16_value new_chrpc_i32_value new_chrpc_i64_value
    new_chrpc_u16_value new_chrpc_u32_value new_chrpc_u64_value new_chrpc_b8_array_value_va
    new_chrpc_i16_array_value_va new_chrpc_i32_array_value_va new_chrpc_i64_array_value_va
    new_chrpc_u16_array_value_va new_chrpc_u32_array_value_va new_chrpc_u64_array_value_va
integer_values-IsProper n args h = (
  (tt, (refl, length-le_bytes 1 n), tt),
  (tt, (refl, h, length-va_populate 1 args), tt),
  (tt, (refl, length-le_bytes 2 n), tt),
  (tt, (refl, h, length-va_populate 2 args), tt),
  (tt, (refl, length-le_bytes 4 n), tt),
  (tt, (refl, h, length-va_populate 4 args), tt),
  (tt, (refl, length-le_bytes 8 n), tt),
  (tt, (refl, h, length-va_populate 8 args), tt),
  (tt, (refl, length-le_bytes 2 n), tt),
  (tt, (refl, h, length-va_populate 2 args), tt),
  (tt, (refl, length-le_bytes 4 n), tt),
  (tt, (refl, h, length-va_populate 4 args), tt),
  (tt, (refl, length-le_bytes 8 n), tt),
  (tt, (refl, h, length-va_populate 8 args), tt),
)

-- the number that bytes stand for, the lowest first
abbrev pub le_value : List ℕ → ℕ
le_value [] = 0
le_value (b ∷ bs) = b + 256 * le_value bs

-- the number of values of `w` bytes
abbrev pub cell_mod : ℕ → ℕ
cell_mod zero = 1
cell_mod (suc w) = 256 * cell_mod w

-- The `w` bytes of a number, cut to them.
pub record Cell (w n : ℕ) (b : List ℕ) : Type 0 where
  pub wide : length b ≡ w
  pub bytes : AllBytes b
  pub low : le_value b ≡ n % cell_mod w

abbrev pub Cells : ℕ → List ℕ → List ℕ → Type 0
Cells w [] bs = bs ≡ []
Cells w (n ∷ ns) bs =
    (b : List ℕ) × (rest : List ℕ) × (bs ≡ b ++ rest) × Cell w n b × Cells w ns rest

-- A value of a type of integers, of `w` bytes.
abbrev pub Number : Prim → ℕ → ℕ → Value → Type 0
Number p w n v = (v.type ≡ prim p) × ((b : List ℕ) × (v.value ≡ num b) × Cell w n b)

-- An array of integers of `w` bytes.
abbrev pub Numbers : Prim → ℕ → List ℕ → Value → Type 0
Numbers p w ns v =
    (v.type ≡ array (prim p)) × ((bs : List ℕ) × (v.value ≡ num_arr (length ns) bs) × Cells w ns bs)

bytes_below : (w n : ℕ) → AllBytes (le_bytes w n)
unfolding le_bytes
bytes_below zero n = tt
bytes_below (suc w) n = (mod-lt n (omega arith), bytes_below w (n / 256))

-- what is left of a number above its low bytes
abbrev above : ℕ → ℕ → ℕ
above zero n = n
above (suc w) n = above w (n / 256)

low_and_above : (w n : ℕ) → le_value (le_bytes w n) + cell_mod w * above w n ≡ n
unfolding le_bytes
low_and_above zero n = omega arith
low_and_above (suc w) n =
    let rest = low_and_above w (n / 256) in
    let assoc : 256 * cell_mod w * above w (n / 256) ≡ 256 * (cell_mod w * above w (n / 256)) =
      mul_assoc 256 (cell_mod w) (above w (n / 256)) in
    omega (arith, rest, assoc, div-add-mod n 256)

low_small : (w n : ℕ) → le_value (le_bytes w n) < cell_mod w
unfolding le_bytes
low_small zero n = omega arith
low_small (suc w) n =
    let digit : n % 256 < 256 = mod-lt n (omega arith) in
    omega (arith, low_small w (n / 256), digit)

le_bytes-Cell : (w n : ℕ) → Cell w n (le_bytes w n)
le_bytes-Cell w n = record {
  wide = length-le_bytes w n;
  bytes = bytes_below w n;
  low = sym (
      ap (λ m. m % cell_mod w) (sym (low_and_above w n))
      ∙ add-mul-mod_self_left (le_value (le_bytes w n)) (cell_mod w) (above w n)
      ∙ mod-eq_of_lt (low_small w n));
}

va_populate-Cells : (w : ℕ) (ns : List ℕ) → Cells w ns (va_populate w ns)
unfolding va_populate
va_populate-Cells w [] = refl
va_populate-Cells w (n ∷ ns) =
    (le_bytes w n, va_populate w ns, refl, le_bytes-Cell w n, va_populate-Cells w ns)

-- The constructors of integers and of arrays of integers make values of the type that they name,
-- of 1, 2, 4 or 8 bytes, lowest first, that stand for the argument cut to so many bytes; an array
-- counts its arguments and has the bytes of each in order.
pub integer_values-Numbers :
    (n : ℕ) (args : List ℕ)
    → Number byte 1 n (new_chrpc_b8_value n)
      × Numbers byte 1 args (new_chrpc_b8_array_value_va args)
      × Number int16 2 n (new_chrpc_i16_value n)
      × Numbers int16 2 args (new_chrpc_i16_array_value_va args)
      × Number int32 4 n (new_chrpc_i32_value n)
      × Numbers int32 4 args (new_chrpc_i32_array_value_va args)
      × Number int64 8 n (new_chrpc_i64_value n)
      × Numbers int64 8 args (new_chrpc_i64_array_value_va args)
      × Number uint16 2 n (new_chrpc_u16_value n)
      × Numbers uint16 2 args (new_chrpc_u16_array_value_va args)
      × Number uint32 4 n (new_chrpc_u32_value n)
      × Numbers uint32 4 args (new_chrpc_u32_array_value_va args)
      × Number uint64 8 n (new_chrpc_u64_value n)
      × Numbers uint64 8 args (new_chrpc_u64_array_value_va args)
unfolding new_chrpc_b8_value new_chrpc_i16_value new_chrpc_i32_value new_chrpc_i64_value
    new_chrpc_u16_value new_chrpc_u32_value new_chrpc_u64_value new_chrpc_b8_array_value_va
    new_chrpc_i16_array_value_va new_chrpc_i32_array_value_va new_chrpc_i64_array_value_va
    new_chrpc_u16_array_value_va new_chrpc_u32_array_value_va new_chrpc_u64_array_value_va
integer_values-Numbers n args =
    let one : (w : ℕ) → (b : List ℕ) × (num (le_bytes w n) ≡ num b) × Cell w n b =
      λ w. (le_bytes w n, refl, le_bytes-Cell w n) in
    let all : (w : ℕ)
        → (bs : List ℕ) × (num_arr (length args) (va_populate w args) ≡ num_arr (length args) bs)
          × Cells w args bs =
      λ w. (va_populate w args, refl, va_populate-Cells w args) in
    (
      (refl, one 1),
      (refl, all 1),
      (refl, one 2),
      (refl, all 2),
      (refl, one 4),
      (refl, all 4),
      (refl, one 8),
      (refl, all 8),
      (refl, one 2),
      (refl, all 2),
      (refl, one 4),
      (refl, all 4),
      (refl, one 8),
      (refl, all 8),
    )
