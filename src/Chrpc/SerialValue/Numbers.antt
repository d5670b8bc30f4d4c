-- ===== src/Chrpc/SerialValue/Numbers.antt =====
-- The constructors of values: chrpc/src/serial_value.c, from `new_chrpc_b8_value` to
-- `_new_chrpc_struct_value_va`. An integer argument is given by its bits as a natural number, a
-- floating point argument by the bytes of its representation, and an array argument by the bytes
-- of its block. The arguments of a variadic function are a list; what `NULL` ends is the list
-- without it. The pairs and lists that the constructors free are not modelled.
use chlibs.Common.{ℕ, zero, suc, ◌/◌, ◌%◌, List, [], ◌∷◌, ◌++◌, length}
use chlibs.Chrpc.SerialType.{
  Prim, byte, int16, int32, int64, uint16, uint32, uint64, float32, float64, prim, array,
}
use chlibs.Chrpc.SerialValue.{num, num_arr, Value}

-- the low `w` bytes of a number, the lowest first
unfoldable pub le_bytes : ℕ → ℕ → List ℕ
le_bytes zero n = []
le_bytes (suc w) n = n % 256 ∷ le_bytes w (n / 256)

-- `VA_POPULATE`: each argument is cast to a cell of `w` bytes
unfoldable pub va_populate : ℕ → List ℕ → List ℕ
unfolding le_bytes
va_populate w [] = []
va_populate w (n ∷ ns) = le_bytes w n ++ va_populate w ns

-- `VA_POPULATE_FP`: each argument, a double, is cast to a cell by `cast`
unfoldable pub va_populate_fp : (cast : List ℕ → List ℕ) → List (List ℕ) → List ℕ
va_populate_fp cast [] = []
va_populate_fp cast (x ∷ xs) = cast x ++ va_populate_fp cast xs

unfoldable pub new_chrpc_b8_value : ℕ → Value
unfolding le_bytes
new_chrpc_b8_value b8_val = record { type = prim byte; value = num (le_bytes 1 b8_val) }

unfoldable pub new_chrpc_b8_array_value : List ℕ → ℕ → Value
new_chrpc_b8_array_value b8_array_val array_len = record {
  type = array (prim byte);
  value = num_arr array_len b8_array_val;
}

unfoldable pub new_chrpc_b8_array_value_va : List ℕ → Value
unfolding va_populate new_chrpc_b8_array_value
new_chrpc_b8_array_value_va args = new_chrpc_b8_array_value (va_populate 1 args) (length args)

unfoldable pub new_chrpc_i16_value : ℕ → Value
unfolding le_bytes
new_chrpc_i16_value i16_val = record { type = prim int16; value = num (le_bytes 2 i16_val) }

unfoldable pub new_chrpc_i16_array_value : List ℕ → ℕ → Value
new_chrpc_i16_array_value i16_array_val array_len = record {
  type = array (prim int16);
  value = num_arr array_len i16_array_val;
}

unfoldable pub new_chrpc_i16_array_value_va : List ℕ → Value
unfolding va_populate new_chrpc_i16_array_value
new_chrpc_i16_array_value_va args = new_chrpc_i16_array_value (va_populate 2 args) (length args)

unfoldable pub new_chrpc_i32_value : ℕ → Value
unfolding le_bytes
new_chrpc_i32_value i32_val = record { type = prim int32; value = num (le_bytes 4 i32_val) }

unfoldable pub new_chrpc_i32_array_value : List ℕ → ℕ → Value
new_chrpc_i32_array_value i32_array_val array_len = record {
  type = array (prim int32);
  value = num_arr array_len i32_array_val;
}

unfoldable pub new_chrpc_i32_array_value_va : List ℕ → Value
unfolding va_populate new_chrpc_i32_array_value
new_chrpc_i32_array_value_va args = new_chrpc_i32_array_value (va_populate 4 args) (length args)

unfoldable pub new_chrpc_i64_value : ℕ → Value
unfolding le_bytes
new_chrpc_i64_value i64_val = record { type = prim int64; value = num (le_bytes 8 i64_val) }

unfoldable pub new_chrpc_i64_array_value : List ℕ → ℕ → Value
new_chrpc_i64_array_value i64_array_val array_len = record {
  type = array (prim int64);
  value = num_arr array_len i64_array_val;
}

unfoldable pub new_chrpc_i64_array_value_va : List ℕ → Value
unfolding va_populate new_chrpc_i64_array_value
new_chrpc_i64_array_value_va args = new_chrpc_i64_array_value (va_populate 8 args) (length args)

unfoldable pub new_chrpc_u16_value : ℕ → Value
unfolding le_bytes
new_chrpc_u16_value u16_val = record { type = prim uint16; value = num (le_bytes 2 u16_val) }

unfoldable pub new_chrpc_u16_array_value : List ℕ → ℕ → Value
new_chrpc_u16_array_value u16_array_val array_len = record {
  type = array (prim uint16);
  value = num_arr array_len u16_array_val;
}

unfoldable pub new_chrpc_u16_array_value_va : List ℕ → Value
unfolding va_populate new_chrpc_u16_array_value
new_chrpc_u16_array_value_va args = new_chrpc_u16_array_value (va_populate 2 args) (length args)

unfoldable pub new_chrpc_u32_value : ℕ → Value
unfolding le_bytes
new_chrpc_u32_value u32_val = record { type = prim uint32; value = num (le_bytes 4 u32_val) }

unfoldable pub new_chrpc_u32_array_value : List ℕ → ℕ → Value
new_chrpc_u32_array_value u32_array_val array_len = record {
  type = array (prim uint32);
  value = num_arr array_len u32_array_val;
}

unfoldable pub new_chrpc_u32_array_value_va : List ℕ → Value
unfolding va_populate new_chrpc_u32_array_value
new_chrpc_u32_array_value_va args = new_chrpc_u32_array_value (va_populate 4 args) (length args)

unfoldable pub new_chrpc_u64_value : ℕ → Value
unfolding le_bytes
new_chrpc_u64_value u64_val = record { type = prim uint64; value = num (le_bytes 8 u64_val) }

unfoldable pub new_chrpc_u64_array_value : List ℕ → ℕ → Value
new_chrpc_u64_array_value u64_array_val array_len = record {
  type = array (prim uint64);
  value = num_arr array_len u64_array_val;
}

unfoldable pub new_chrpc_u64_array_value_va : List ℕ → Value
unfolding va_populate new_chrpc_u64_array_value
new_chrpc_u64_array_value_va args = new_chrpc_u64_array_value (va_populate 8 args) (length args)

unfoldable pub new_chrpc_f32_value : List ℕ → Value
new_chrpc_f32_value f32_val = record { type = prim float32; value = num f32_val }

unfoldable pub new_chrpc_f32_array_value : List ℕ → ℕ → Value
new_chrpc_f32_array_value f32_array_val array_len = record {
  type = array (prim float32);
  value = num_arr array_len f32_array_val;
}

-- `cast` is the conversion of a double to a float.
unfoldable pub new_chrpc_f32_array_value_va : (cast : List ℕ → List ℕ) → List (List ℕ) → Value
unfolding va_populate_fp new_chrpc_f32_array_value
new_chrpc_f32_array_value_va cast args =
    new_chrpc_f32_array_value (va_populate_fp cast args) (length args)

unfoldable pub new_chrpc_f64_value : List ℕ → Value
new_chrpc_f64_value f64_val = record { type = prim float64; value = num f64_val }

unfoldable pub new_chrpc_f64_array_value : List ℕ → ℕ → Value
new_chrpc_f64_array_value f64_array_val array_len = record {
  type = array (prim float64);
  value = num_arr array_len f64_array_val;
}

-- A double needs no conversion.
unfoldable pub new_chrpc_f64_array_value_va : List (List ℕ) → Value
unfolding va_populate_fp new_chrpc_f64_array_value
new_chrpc_f64_array_value_va args =
    new_chrpc_f64_array_value (va_populate_fp (λ x. x) args) (length args)
