-- ===== src/Chrpc/SerialType/Encoding.antt =====
-- The wire format of types, after the grammar in chrpc/include/chrpc/serial_type.h: one byte for a
-- primitive type, a tag before an array's cell type, and a tag and the number of fields before a
-- struct's field types.
use chlibs.Common.{ℕ, ◌+◌, ◌≤◌, ◌<◌, ◌≡◌, List, [], ◌∷◌, ◌++◌, arith, length, length-append}
use chlibs.Chrpc.SerialType.{
  Prim, ChrpcType, FieldTypes, prim, struct, array, no_fields, field, prim_tid, struct_tid,
  array_tid, max_struct_fields, num_fields,
}

unfoldable mutual
  pub encode_type : ChrpcType → List ℕ
  encode_type (prim p) = prim_tid p ∷ []
  encode_type (array t) = array_tid ∷ encode_type t
  encode_type (struct fs) = struct_tid ∷ num_fields fs ∷ encode_fields fs

  pub encode_fields : FieldTypes → List ℕ
  encode_fields no_fields = []
  encode_fields (field t fs) = encode_type t ++ encode_fields fs

-- Every struct has between 1 and 64 fields.
abbrev mutual
  pub IsWellFormed : ChrpcType → Type 0
  IsWellFormed (prim p) = Unit {0}
  IsWellFormed (array t) = IsWellFormed t
  IsWellFormed (struct fs) =
      (1 ≤ num_fields fs) × (num_fields fs ≤ max_struct_fields) × AllWellFormed fs

  pub AllWellFormed : FieldTypes → Type 0
  AllWellFormed no_fields = Unit {0}
  AllWellFormed (field t fs) = IsWellFormed t × AllWellFormed fs

pub length-encode_type_pos : (t : ChrpcType) → 0 < length (encode_type t)
unfolding encode_type
length-encode_type_pos (prim p) = omega arith
length-encode_type_pos (array t) = omega arith
length-encode_type_pos (struct fs) = omega arith

pub length-encode_field :
    (t : ChrpcType) (fs : FieldTypes)
    → length (encode_fields (field t fs)) ≡ length (encode_type t) + length (encode_fields fs)
unfolding encode_type
length-encode_field t fs = length-append (encode_type t) (encode_fields fs)
