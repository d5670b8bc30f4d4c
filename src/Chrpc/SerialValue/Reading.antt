-- ===== src/Chrpc/SerialValue/Reading.antt =====
-- Reading values: chrpc/src/serial_value.c, from `chrpc_numeric_inner_value_from_buffer` on. A buffer
-- is the list of its `buf_len` bytes. What a failure deletes is not modelled.
use chlibs.Common.{
  ℕ, zero, suc, ◌+◌, ◌-◌, ◌*◌, List, [], ◌∷◌, length, take, drop, ltb, if◌then◌else◌,
}
use chlibs.Chrpc.SerialType.{
  unexpected_end, Prim, ChrpcType, FieldTypes, prim, struct, array, no_fields, field, str,
  FromBuffer, ok, failed, then_read, chrpc_type_from_buffer,
}
use chlibs.Chrpc.SerialValue.{
  InnerValue, num, num_arr, text, text_arr, array_entries, struct_entries, Entries, no_entries,
  entry, Value, is_numeric, prim_size, chrpc_type_is_blockable, chrpc_blockable_type_cell_size,
}

-- `*(uint32_t *)buf`, of at least four bytes
unfoldable pub u32_at : List ℕ → ℕ
u32_at (a ∷ b ∷ c ∷ d ∷ rest) = a + 256 * b + 65536 * c + 16777216 * d
u32_at _ = 0

unfoldable pub chrpc_numeric_inner_value_from_buffer : Prim → List ℕ → FromBuffer InnerValue
chrpc_numeric_inner_value_from_buffer p buf =
    if ltb (length buf) (prim_size p)
    then failed unexpected_end
    else ok (num (take (prim_size p) buf)) (prim_size p)

-- the number of cells and the block
unfoldable pub chrpc_block_array_from_buffer : ChrpcType → List ℕ → FromBuffer (ℕ × List ℕ)
unfolding u32_at chrpc_blockable_type_cell_size
chrpc_block_array_from_buffer ct buf =
    let arr_bytes = chrpc_blockable_type_cell_size ct * u32_at buf in
    if ltb (length buf) 4
    then failed unexpected_end
    else if ltb (length buf - 4) arr_bytes
    then failed unexpected_end
    else ok (u32_at buf, take arr_bytes (drop 4 buf)) (4 + arr_bytes)

-- the member that the block is stored in
abbrev pub block_array_value : ChrpcType → ℕ × List ℕ → InnerValue
block_array_value (prim str) (n, b) = text b
block_array_value _ (n, b) = num_arr n b

unfoldable pub chrpc_block_array_inner_value_from_buffer :
    ChrpcType → List ℕ → FromBuffer InnerValue
unfolding chrpc_block_array_from_buffer
chrpc_block_array_inner_value_from_buffer ct buf =
    then_read (chrpc_block_array_from_buffer ct buf) λ arr k. ok (block_array_value ct arr) k

-- the loop over `n` strings at `buf + pos`
unfoldable pub strs_from_buffer : ℕ → List ℕ → ℕ → FromBuffer (List (List ℕ))
unfolding chrpc_block_array_from_buffer
strs_from_buffer zero rem pos = ok [] pos
strs_from_buffer (suc n) rem pos =
    then_read (chrpc_block_array_from_buffer (prim str) rem) λ arr k.
      then_read (strs_from_buffer n (drop k rem) (pos + k)) λ ss total. ok (arr.1 ∷ ss) total

unfoldable pub chrpc_str_array_inner_value_from_buffer : List ℕ → FromBuffer InnerValue
unfolding strs_from_buffer u32_at
chrpc_str_array_inner_value_from_buffer buf =
    if ltb (length buf) 4
    then failed unexpected_end
    else then_read (strs_from_buffer (u32_at buf) (drop 4 buf) 4) λ ss total. ok (text_arr ss) total

-- the loop over `n` composites at `buf + pos`; `read` is the recursive call
unfoldable pub entries_from_buffer :
    (List ℕ → FromBuffer InnerValue) → ℕ → List ℕ → ℕ → FromBuffer Entries
entries_from_buffer read zero rem pos = ok no_entries pos
entries_from_buffer read (suc n) rem pos = then_read (read rem) λ v k.
    then_read (entries_from_buffer read n (drop k rem) (pos + k)) λ es total. ok (entry v es) total

unfoldable pub chrpc_cmp_array_inner_value_from_buffer :
    (List ℕ → FromBuffer InnerValue) → List ℕ → FromBuffer InnerValue
unfolding entries_from_buffer u32_at
chrpc_cmp_array_inner_value_from_buffer read buf =
    if ltb (length buf) 4
    then failed unexpected_end
    else then_read (entries_from_buffer read (u32_at buf) (drop 4 buf) 4)
        λ es total. ok (array_entries es) total

-- Only a type of numbers or strings, or an array of numbers, is blockable.
unfoldable mutual
  unfolding chrpc_type_is_blockable chrpc_numeric_inner_value_from_buffer
      chrpc_block_array_inner_value_from_buffer chrpc_str_array_inner_value_from_buffer
      chrpc_cmp_array_inner_value_from_buffer

  pub chrpc_inner_value_from_buffer : ChrpcType → List ℕ → FromBuffer InnerValue
  chrpc_inner_value_from_buffer (prim p) buf =
      if is_numeric p
      then chrpc_numeric_inner_value_from_buffer p buf
      else chrpc_block_array_inner_value_from_buffer (prim p) buf
  chrpc_inner_value_from_buffer (array (prim p)) buf =
      if chrpc_type_is_blockable (array (prim p))
      then chrpc_block_array_inner_value_from_buffer (array (prim p)) buf
      else chrpc_str_array_inner_value_from_buffer buf
  chrpc_inner_value_from_buffer (array t) buf =
      chrpc_cmp_array_inner_value_from_buffer (chrpc_inner_value_from_buffer t) buf
  chrpc_inner_value_from_buffer (struct fs) buf =
      then_read (struct_values_from_buffer fs buf 0) λ es total. ok (struct_entries es) total

  -- The loop over the fields of a struct at `buf + pos`. A struct type has a field; without one the
  -- code would test a status that was never set.
  pub struct_values_from_buffer : FieldTypes → List ℕ → ℕ → FromBuffer Entries
  struct_values_from_buffer no_fields rem pos = ok no_entries pos
  struct_values_from_buffer (field t fs) rem pos =
      then_read (chrpc_inner_value_from_buffer t rem) λ v k.
        then_read (struct_values_from_buffer fs (drop k rem) (pos + k))
          λ es total. ok (entry v es) total

unfoldable pub chrpc_value_from_buffer : List ℕ → FromBuffer Value
unfolding chrpc_inner_value_from_buffer
chrpc_value_from_buffer buf = then_read (chrpc_type_from_buffer buf) λ t k.
    then_read (chrpc_inner_value_from_buffer t (drop k buf))
      λ v l. ok (record { type = t; value = v }) (k + l)
