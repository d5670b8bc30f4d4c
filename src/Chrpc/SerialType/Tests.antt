-- ===== src/Chrpc/SerialType/Tests.antt =====
-- Runs of the type functions and instances of their theorems.
use chlibs.Common.{ℕ, ◌≡◌, ◌≢◌, ◌↔◌, refl, true, none, some, List, [], ◌∷◌, ◌++◌, arith, length}
use chlibs.Chrpc.SerialType.{
  success, buffer_too_small, unexpected_end, empty_struct_type, syntax_error, ChrpcType, prim,
  struct, array, no_fields, field, byte, int32, str, chrpc_type_to_buffer, ok, failed, out_of_fuel,
  chrpc_type_from_buffer, chrpc_type_equals, new_chrpc_struct_type,
}
use chlibs.Chrpc.SerialType.Encoding.{encode_type, IsWellFormed}
use chlibs.Chrpc.SerialType.Reads.{
  chrpc_type_from_buffer_iff, chrpc_type_from_buffer-ne-out_of_fuel, from_buffer-to_buffer,
}
use chlibs.Chrpc.SerialType.Equality.{chrpc_type_equals_iff}

-- { b8; str[]; { i32; }; }
abbrev sample : ChrpcType
sample = struct (
    field (prim byte)
      (field (array (prim str)) (field (struct (field (prim int32) no_fields)) no_fields)))

abbrev sample_bytes : List ℕ
sample_bytes = 10 ∷ 3 ∷ 0 ∷ 11 ∷ 9 ∷ 10 ∷ 1 ∷ 2 ∷ []

writes-sample : chrpc_type_to_buffer sample 100 ≡ (success, sample_bytes, some 8)
unfolding chrpc_type_to_buffer
writes-sample = refl

cut-sample : (chrpc_type_to_buffer sample 7).0 ≡ buffer_too_small
unfolding chrpc_type_to_buffer
cut-sample = refl

reads-sample : chrpc_type_from_buffer (sample_bytes ++ 77 ∷ []) ≡ ok sample 8
unfolding chrpc_type_from_buffer
reads-sample = refl

reads_failures :
    (chrpc_type_from_buffer [] ≡ failed unexpected_end)
    × (chrpc_type_from_buffer (10 ∷ 0 ∷ []) ≡ failed empty_struct_type)
    × (chrpc_type_from_buffer (12 ∷ []) ≡ failed syntax_error)
    × (chrpc_type_from_buffer (11 ∷ []) ≡ failed unexpected_end)
unfolding chrpc_type_from_buffer
reads_failures = (refl, refl, refl, refl)

no_empty_struct : new_chrpc_struct_type no_fields ≡ none
unfolding new_chrpc_struct_type
no_empty_struct = refl

chrpc_type_from_buffer_iff_example : (chrpc_type_from_buffer sample_bytes ≡ ok sample 8) ↔ (
    (rest : List ℕ) × (sample_bytes ≡ encode_type sample ++ rest)
    × (8 ≡ length (encode_type sample))
    × IsWellFormed sample)
chrpc_type_from_buffer_iff_example = chrpc_type_from_buffer_iff sample_bytes sample 8

chrpc_type_from_buffer-ne-out_of_fuel_example : chrpc_type_from_buffer (11 ∷ 11 ∷ []) ≢ out_of_fuel
chrpc_type_from_buffer-ne-out_of_fuel_example = chrpc_type_from_buffer-ne-out_of_fuel (11 ∷ 11 ∷ [])

from_buffer-to_buffer_example :
    let (st, bytes, written) = chrpc_type_to_buffer sample 64 in
    (st ≡ success)
    × (chrpc_type_from_buffer (bytes ++ 1 ∷ 2 ∷ []) ≡ ok sample (length bytes))
    × (written ≡ some (length bytes))
unfolding encode_type
from_buffer-to_buffer_example =
    from_buffer-to_buffer sample 64 (1 ∷ 2 ∷ []) (omega arith) (omega arith)

chrpc_type_equals_iff_example :
    (chrpc_type_equals sample (array sample) ≡ true) ↔ (sample ≡ array sample)
chrpc_type_equals_iff_example = chrpc_type_equals_iff sample (array sample)
