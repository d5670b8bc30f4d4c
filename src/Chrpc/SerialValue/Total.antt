-- ===== src/Chrpc/SerialValue/Total.antt =====
-- The reading of a value ends for every buffer: chrpc/src/serial_value.c, `chrpc_value_from_buffer`.
use chlibs.Common.{
  ℕ, zero, suc, ◌+◌, ◌*◌, ◌-◌, ◌≢◌, refl, Bool, true, false, List, length, drop, ltb, if◌then◌else◌,
}
use chlibs.Chrpc.SerialType.{
  ChrpcType, FieldTypes, Prim, prim, struct, array, no_fields, field, str, FromBuffer, ok, failed,
  out_of_fuel, then_read, chrpc_type_from_buffer,
}
use chlibs.Chrpc.SerialType.Reads.{chrpc_type_from_buffer-ne-out_of_fuel}
use chlibs.Chrpc.SerialValue.{
  InnerValue, is_numeric, prim_size, chrpc_type_is_blockable, chrpc_blockable_type_cell_size,
}
use chlibs.Chrpc.SerialValue.Reading.{
  u32_at, chrpc_numeric_inner_value_from_buffer, chrpc_block_array_from_buffer,
  chrpc_block_array_inner_value_from_buffer, strs_from_buffer,
  chrpc_str_array_inner_value_from_buffer, entries_from_buffer,
  chrpc_cmp_array_inner_value_from_buffer, chrpc_inner_value_from_buffer, struct_values_from_buffer,
  chrpc_value_from_buffer,
}

-- a value or a status
abbrev pub Ends {ℓ} : {A : Type ℓ} → FromBuffer A → Type 0
Ends out_of_fuel = ⊥
Ends _ = Unit {0}

pub Ends-then_read {ℓ κ} :
    {A : Type ℓ} {B : Type κ} (r : FromBuffer A) (f : A → ℕ → FromBuffer B)
    → Ends r
    → ((a : A) (k : ℕ) → Ends (f a k))
    → Ends (then_read r f)
Ends-then_read (ok a k) f h g = g a k
Ends-then_read (failed st) f h g = tt
Ends-then_read out_of_fuel f h g = h

pub Ends-if {ℓ} :
    {A : Type ℓ} (b : Bool) (r s : FromBuffer A) → Ends r → Ends s → Ends (if b then r else s)
Ends-if true r s h g = h
Ends-if false r s h g = g

numeric-Ends : (p : Prim) (buf : List ℕ) → Ends (chrpc_numeric_inner_value_from_buffer p buf)
unfolding chrpc_numeric_inner_value_from_buffer
numeric-Ends p buf = Ends-if (ltb (length buf) (prim_size p)) _ _ tt tt

block-Ends : (t : ChrpcType) (buf : List ℕ) → Ends (chrpc_block_array_from_buffer t buf)
unfolding chrpc_block_array_from_buffer
block-Ends t buf =
    Ends-if (ltb (length buf) 4) _ _ tt
      (Ends-if (ltb (length buf - 4) (chrpc_blockable_type_cell_size t * u32_at buf)) _ _ tt tt)

block_value-Ends :
    (t : ChrpcType) (buf : List ℕ) → Ends (chrpc_block_array_inner_value_from_buffer t buf)
unfolding chrpc_block_array_inner_value_from_buffer
block_value-Ends t buf =
    Ends-then_read (chrpc_block_array_from_buffer t buf) _ (block-Ends t buf) λ arr k. tt

strs-Ends : (n : ℕ) (rem : List ℕ) (pos : ℕ) → Ends (strs_from_buffer n rem pos)
unfolding strs_from_buffer
strs-Ends zero rem pos = tt
strs-Ends (suc n) rem pos =
    Ends-then_read (chrpc_block_array_from_buffer (prim str) rem) _ (block-Ends (prim str) rem)
      λ arr k.
        Ends-then_read (strs_from_buffer n (drop k rem) (pos + k)) _
          (strs-Ends n (drop k rem) (pos + k)) λ ss total. tt

str_array-Ends : (buf : List ℕ) → Ends (chrpc_str_array_inner_value_from_buffer buf)
unfolding chrpc_str_array_inner_value_from_buffer
str_array-Ends buf = Ends-if (ltb (length buf) 4) _ _ tt (
    Ends-then_read (strs_from_buffer (u32_at buf) (drop 4 buf) 4) _
      (strs-Ends (u32_at buf) (drop 4 buf) 4) λ ss total. tt)

module _ (call : List ℕ → FromBuffer InnerValue) (ends : (buf : List ℕ) → Ends (call buf)) where
  entries-Ends : (n : ℕ) (rem : List ℕ) (pos : ℕ) → Ends (entries_from_buffer call n rem pos)
  unfolding entries_from_buffer
  entries-Ends zero rem pos = tt
  entries-Ends (suc n) rem pos = Ends-then_read (call rem) _ (ends rem) λ v k.
      Ends-then_read (entries_from_buffer call n (drop k rem) (pos + k)) _
        (entries-Ends n (drop k rem) (pos + k)) λ es total. tt

  cmp_array-Ends : (buf : List ℕ) → Ends (chrpc_cmp_array_inner_value_from_buffer call buf)
  unfolding chrpc_cmp_array_inner_value_from_buffer
  cmp_array-Ends buf = Ends-if (ltb (length buf) 4) _ _ tt (
      Ends-then_read (entries_from_buffer call (u32_at buf) (drop 4 buf) 4) _
        (entries-Ends (u32_at buf) (drop 4 buf) 4) λ es total. tt)

mutual
  unfolding chrpc_inner_value_from_buffer

  value-Ends : (t : ChrpcType) (buf : List ℕ) → Ends (chrpc_inner_value_from_buffer t buf)
  value-Ends (prim p) buf =
      Ends-if (is_numeric p) _ _ (numeric-Ends p buf) (block_value-Ends (prim p) buf)
  value-Ends (array (prim p)) buf =
      Ends-if (chrpc_type_is_blockable (array (prim p))) _ _ (block_value-Ends (array (prim p)) buf)
        (str_array-Ends buf)
  value-Ends (array (array t)) buf = cmp_array-Ends _ (value-Ends (array t)) buf
  value-Ends (array (struct fs)) buf = cmp_array-Ends _ (value-Ends (struct fs)) buf
  value-Ends (struct fs) buf =
      Ends-then_read (struct_values_from_buffer fs buf 0) _ (fields-Ends fs buf 0) λ es total. tt

  fields-Ends :
      (fs : FieldTypes) (rem : List ℕ) (pos : ℕ) → Ends (struct_values_from_buffer fs rem pos)
  fields-Ends no_fields rem pos = tt
  fields-Ends (field t fs) rem pos =
      Ends-then_read (chrpc_inner_value_from_buffer t rem) _ (value-Ends t rem) λ v k.
        Ends-then_read (struct_values_from_buffer fs (drop k rem) (pos + k)) _
          (fields-Ends fs (drop k rem) (pos + k)) λ es total. tt

Ends-ne {ℓ} : {A : Type ℓ} (r : FromBuffer A) → r ≢ out_of_fuel → Ends r
Ends-ne (ok a k) h = tt
Ends-ne (failed st) h = tt
Ends-ne out_of_fuel h = absurd (h refl)

-- The reading of a value ends for every buffer.
pub chrpc_value_from_buffer-Ends : (buf : List ℕ) → Ends (chrpc_value_from_buffer buf)
unfolding chrpc_value_from_buffer
chrpc_value_from_buffer-Ends buf =
    Ends-then_read (chrpc_type_from_buffer buf) _
      (Ends-ne (chrpc_type_from_buffer buf) (chrpc_type_from_buffer-ne-out_of_fuel buf))
      λ t k.
        Ends-then_read (chrpc_inner_value_from_buffer t (drop k buf)) _ (value-Ends t (drop k buf))
          λ v l. tt
