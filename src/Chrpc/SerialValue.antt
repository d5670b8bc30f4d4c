-- ===== src/Chrpc/SerialValue.antt =====
-- Serialised values: chrpc/include/chrpc/serial_value.h and chrpc/src/serial_value.c. The members of
-- the union are the constructors of `InnerValue`: the bytes of a number, a dense array of numbers
-- with its `array_len`, the block that a string pointer names, the blocks of an array of strings,
-- and the pointers of an array of composites and of a struct. The type says which member is meant,
-- as in the program; a member that the type does not mean reads as an empty one.
pub mod Reading
pub mod Comparing
pub mod Numbers
pub mod Making
pub mod Made
pub mod Integers
pub mod Blocks
pub mod Encoding
pub mod Writes
pub mod Reads
pub mod Begins
pub mod Exact
pub mod Total
pub mod RoundTrip
pub mod Equality
mod Tests
use chlibs.Common.{
  ℕ, zero, suc, ◌+◌, ◌-◌, ◌*◌, ◌%◌, ◌^◌, Bool, true, false, not, ◌&&◌, ◌||◌, Option, none, some,
  List, [], ◌∷◌, ◌++◌, length, take, ltb, ◌==◌, if◌then◌else◌,
}
use chlibs.Chrpc.SerialType.{
  Status, success, buffer_too_small, Prim, byte, int16, int32, int64, uint16, uint32, uint64,
  float32, float64, str, ChrpcType, FieldTypes, prim, struct, array, no_fields, field, prim_tid,
  ToBuffer, stored_or_zero, then_write, chrpc_type_to_buffer,
}
use chlibs.Chrpc.ChannelFd.{u32_bytes}

mutual
  pub data InnerValue : Type 0 where
    num : List ℕ → InnerValue
    num_arr : ℕ → List ℕ → InnerValue
    text : List ℕ → InnerValue
    text_arr : List (List ℕ) → InnerValue
    array_entries : Entries → InnerValue
    struct_entries : Entries → InnerValue

  pub data Entries : Type 0 where
    no_entries : Entries
    entry : InnerValue → Entries → Entries

pub record Value : Type 0 where
  pub type : ChrpcType
  pub value : InnerValue

abbrev pub count : Entries → ℕ
count no_entries = 0
count (entry v es) = suc (count es)

-- The members as a type reads them.
abbrev pub strs_of : InnerValue → List (List ℕ)
strs_of (text_arr ss) = ss
strs_of _ = []

abbrev pub entries_of : InnerValue → Entries
entries_of (array_entries es) = es
entries_of (struct_entries es) = es
entries_of _ = no_entries

-- the bytes of a string in front of its first NUL
unfoldable pub c_str : List ℕ → List ℕ
c_str [] = []
c_str (c ∷ cs) = let rest = c_str cs in if c == 0 then [] else c ∷ rest

unfoldable pub strlen : List ℕ → ℕ
unfolding c_str
strlen b = length (c_str b)

-- a primitive type that is not CHRPC_STRING_TID
abbrev pub is_numeric : Prim → Bool
is_numeric str = false
is_numeric _ = true

unfoldable pub chrpc_type_is_blockable : ChrpcType → Bool
chrpc_type_is_blockable (prim p) = true
chrpc_type_is_blockable (array (prim p)) = is_numeric p
chrpc_type_is_blockable _ = false

abbrev pub prim_size : Prim → ℕ
prim_size byte = 1
prim_size int16 = 2
prim_size int32 = 4
prim_size int64 = 8
prim_size uint16 = 2
prim_size uint32 = 4
prim_size uint64 = 8
prim_size float32 = 4
prim_size float64 = 8
prim_size str = 1

unfoldable pub chrpc_blockable_type_cell_size : ChrpcType → ℕ
chrpc_blockable_type_cell_size (prim p) = prim_size p
chrpc_blockable_type_cell_size (array (prim p)) = if is_numeric p then prim_size p else 0
chrpc_blockable_type_cell_size _ = 0

pub record BlockValue : Type 0 where
  pub block : List ℕ
  pub cell_size : ℕ
  pub num_cells : ℕ

abbrev pub null_block : BlockValue
null_block = record { block = []; cell_size = 0; num_cells = 0 }

unfoldable pub chrpc_inner_array_value_to_block_value : ChrpcType → InnerValue → BlockValue
chrpc_inner_array_value_to_block_value (prim p) (num_arr n b) =
    if is_numeric p
    then record { block = b; cell_size = prim_size p; num_cells = n }
    else null_block
chrpc_inner_array_value_to_block_value _ _ = null_block

unfoldable pub chrpc_inner_value_to_block_value : ChrpcType → InnerValue → BlockValue
unfolding chrpc_inner_array_value_to_block_value strlen
chrpc_inner_value_to_block_value (prim p) (num b) = record {
  block = b;
  cell_size = prim_size p;
  num_cells = 1;
}
chrpc_inner_value_to_block_value (prim p) (text b) = record {
  block = b;
  cell_size = 1;
  num_cells = (strlen b + 1) % 2 ^ 32;
}
chrpc_inner_value_to_block_value (array t) v = chrpc_inner_array_value_to_block_value t v
chrpc_inner_value_to_block_value _ _ = null_block

unfoldable pub chrpc_block_value_to_buffer : BlockValue → (len_prefix : Bool) → ℕ → ToBuffer
unfolding u32_bytes
chrpc_block_value_to_buffer b len_prefix buf_len =
    let arr_size = b.num_cells * b.cell_size in
    if len_prefix
    then if ltb buf_len 4
      then (buffer_too_small, [], none)
      else if ltb buf_len (4 + arr_size)
      then (buffer_too_small, u32_bytes b.num_cells, none)
      else (success, u32_bytes b.num_cells ++ take arr_size b.block, some (4 + arr_size))
    else if ltb buf_len arr_size
    then (buffer_too_small, [], none)
    else (success, take arr_size b.block, some arr_size)

-- the block of one string of an array
abbrev pub str_block : List ℕ → BlockValue
str_block s = record { block = s; cell_size = 1; num_cells = (strlen s + 1) % 2 ^ 32 }

-- the loop over an array of strings, from `pos` on
unfoldable pub strs_to_buffer : List (List ℕ) → ℕ → ℕ → ToBuffer
unfolding chrpc_block_value_to_buffer
strs_to_buffer [] buf_len pos = (success, [], some pos)
strs_to_buffer (s ∷ ss) buf_len pos =
    then_write (chrpc_block_value_to_buffer (str_block s) true (buf_len - pos))
      (λ w. strs_to_buffer ss buf_len (pos + w))

-- the loop over an array of composites; `write` is the recursive call
unfoldable pub entries_to_buffer : (InnerValue → ℕ → ToBuffer) → Entries → ℕ → ℕ → ToBuffer
entries_to_buffer write no_entries buf_len pos = (success, [], some pos)
entries_to_buffer write (entry v es) buf_len pos =
    then_write (write v (buf_len - pos)) (λ w. entries_to_buffer write es buf_len (pos + w))

-- the length of an array, in front of what the loop over its cells writes
abbrev pub with_array_len : ℕ → ℕ → ToBuffer → ToBuffer
with_array_len n buf_len cells =
    if ltb buf_len 4
    then (buffer_too_small, [], none)
    else (cells.0, u32_bytes n ++ cells.1, cells.2)

-- Only a type of numbers or strings, or an array of numbers, is blockable.
unfoldable mutual
  unfolding chrpc_type_is_blockable chrpc_inner_value_to_block_value entries_to_buffer
      strs_to_buffer chrpc_block_value_to_buffer

  pub chrpc_inner_value_to_buffer : ChrpcType → InnerValue → ℕ → ToBuffer
  chrpc_inner_value_to_buffer (prim p) v buf_len =
      chrpc_block_value_to_buffer (chrpc_inner_value_to_block_value (prim p) v) (not (is_numeric p))
        buf_len
  chrpc_inner_value_to_buffer (array (prim p)) v buf_len =
      if chrpc_type_is_blockable (array (prim p))
      then chrpc_block_value_to_buffer (chrpc_inner_value_to_block_value (array (prim p)) v) true
          buf_len
      else with_array_len (length (strs_of v)) buf_len (strs_to_buffer (strs_of v) buf_len 4)
  chrpc_inner_value_to_buffer (array t) v buf_len =
      with_array_len (count (entries_of v)) buf_len
        (entries_to_buffer (chrpc_inner_value_to_buffer t) (entries_of v) buf_len 4)
  chrpc_inner_value_to_buffer (struct fs) v buf_len =
      struct_values_to_buffer fs (entries_of v) buf_len 0

  -- the loop over the fields of a struct, from `pos` on
  pub struct_values_to_buffer : FieldTypes → Entries → ℕ → ℕ → ToBuffer
  struct_values_to_buffer no_fields es buf_len pos = (success, [], some pos)
  struct_values_to_buffer (field t fs) no_entries buf_len pos = (success, [], some pos)
  struct_values_to_buffer (field t fs) (entry v es) buf_len pos =
      then_write (chrpc_inner_value_to_buffer t v (buf_len - pos))
        (λ w. struct_values_to_buffer fs es buf_len (pos + w))

-- What is stored behind a value that was refused is not looked at.
unfoldable pub chrpc_value_to_buffer : Value → ℕ → ToBuffer
unfolding chrpc_inner_value_to_buffer
chrpc_value_to_buffer v buf_len = then_write (chrpc_type_to_buffer v.type buf_len) λ type_written.
    let (status, bytes, val_written) =
      chrpc_inner_value_to_buffer v.type v.value (buf_len - type_written) in
    (status, bytes, some (type_written + stored_or_zero val_written))

-- the prefix, which is stored when the value has been; `old` is what the reserved bytes held
abbrev pub with_len_prefix : List ℕ → ToBuffer → ToBuffer
with_len_prefix old (success, bytes, w) =
    (success, u32_bytes (stored_or_zero w) ++ bytes, some (4 + stored_or_zero w))
with_len_prefix old (status, bytes, w) = (status, old ++ bytes, none)

unfoldable pub chrpc_value_to_buffer_with_length : Option Value → (old : List ℕ) → ℕ → ToBuffer
unfolding chrpc_value_to_buffer u32_bytes
chrpc_value_to_buffer_with_length none old buf_len =
    if ltb buf_len 4 then (buffer_too_small, [], none) else (success, u32_bytes 0, some 4)
chrpc_value_to_buffer_with_length (some v) old buf_len =
    if ltb buf_len 4
    then (buffer_too_small, [], none)
    else with_len_prefix old (chrpc_value_to_buffer v (buf_len - 4))
