-- ===== src/Chrpc/SerialValue/Comparing.antt =====
-- Equality of values: `chrpc_inner_value_equals` and `chrpc_value_equals` of chrpc/src/serial_value.c.
use chlibs.Common.{
  ℕ, ◌*◌, Bool, true, false, ◌&&◌, Option, some, List, [], ◌∷◌, length, take, ◌==◌, if◌then◌else◌,
}
use chlibs.Chrpc.SerialType.{ChrpcType, FieldTypes, prim, struct, array, field, chrpc_type_equals}
use chlibs.Chrpc.SerialValue.{
  InnerValue, Entries, entry, Value, BlockValue, count, strs_of, entries_of, c_str,
  chrpc_type_is_blockable, chrpc_inner_value_to_block_value,
}

unfoldable pub bytes_equal : List ℕ → List ℕ → Bool
bytes_equal [] [] = true
bytes_equal (b ∷ bs) (c ∷ cs) = (b == c) && bytes_equal bs cs
bytes_equal _ _ = false

-- `memcmp` of the blocks, of the first one's size, gives 0
unfoldable pub blocks_equal : BlockValue → BlockValue → Bool
unfolding bytes_equal
blocks_equal b c =
    let size = b.cell_size * b.num_cells in
    if b.num_cells == c.num_cells
    then bytes_equal (take size b.block) (take size c.block)
    else false

-- the loop over the strings of two arrays of equal length; `strcmp` gives 0
unfoldable pub strs_equal : List (List ℕ) → List (List ℕ) → Bool
unfolding bytes_equal c_str
strs_equal (s ∷ ss) (r ∷ rs) = bytes_equal (c_str s) (c_str r) && strs_equal ss rs
strs_equal _ _ = true

-- the loop over the composites of two arrays of equal length; `equal` is the recursive call
unfoldable pub entries_equal : (InnerValue → InnerValue → Bool) → Entries → Entries → Bool
entries_equal equal (entry v es) (entry w fs) = equal v w && entries_equal equal es fs
entries_equal equal _ _ = true

-- Only a type of numbers or strings, or an array of numbers, is blockable.
unfoldable mutual
  unfolding chrpc_type_is_blockable chrpc_inner_value_to_block_value blocks_equal strs_equal
      entries_equal

  pub chrpc_inner_value_equals : ChrpcType → InnerValue → InnerValue → Bool
  chrpc_inner_value_equals (prim p) v w =
      blocks_equal (chrpc_inner_value_to_block_value (prim p) v)
        (chrpc_inner_value_to_block_value (prim p) w)
  chrpc_inner_value_equals (array (prim p)) v w =
      if chrpc_type_is_blockable (array (prim p))
      then blocks_equal (chrpc_inner_value_to_block_value (array (prim p)) v)
          (chrpc_inner_value_to_block_value (array (prim p)) w)
      else if length (strs_of v) == length (strs_of w)
      then strs_equal (strs_of v) (strs_of w)
      else false
  chrpc_inner_value_equals (array t) v w =
      let cells = entries_equal (chrpc_inner_value_equals t) (entries_of v) (entries_of w) in
      if count (entries_of v) == count (entries_of w) then cells else false
  chrpc_inner_value_equals (struct fs) v w = struct_values_equal fs (entries_of v) (entries_of w)

  -- the loop over the fields of a struct
  pub struct_values_equal : FieldTypes → Entries → Entries → Bool
  struct_values_equal (field t fs) (entry v es) (entry w ds) =
      chrpc_inner_value_equals t v w && struct_values_equal fs es ds
  struct_values_equal _ _ _ = true

-- `same` says whether the two pointers are equal; `none` is NULL.
unfoldable pub chrpc_value_equals : (same : Bool) → Option Value → Option Value → Bool
unfolding chrpc_inner_value_equals
chrpc_value_equals true v w = true
chrpc_value_equals false (some v) (some w) =
    if chrpc_type_equals v.type w.type
    then chrpc_inner_value_equals v.type v.value w.value
    else false
chrpc_value_equals false _ _ = false
