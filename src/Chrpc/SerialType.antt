-- ===== src/Chrpc/SerialType.antt =====
-- The types of serialised values: chrpc/include/chrpc/serial_type.h and chrpc/src/serial_type.c.
-- A type is a tree; the numbered fields of a struct are the list `FieldTypes`, and `num_fields` is
-- its length. A buffer that is read is the list of its `buf_len` bytes, and a buffer that is
-- written is given by its `buf_len` and by the bytes that are put at its front.
pub mod Encoding
pub mod Writes
pub mod Reads
pub mod Equality
mod Tests
use chlibs.Common.{
  ℕ, zero, suc, ◌+◌, ◌-◌, Bool, true, false, ◌||◌, ◌&&◌, Option, none, some, List, [], ◌∷◌, ◌++◌,
  length, drop, ltb, ◌==◌, if◌then◌else◌,
}

-- The status codes of the library, in the order of their numbers.
pub data Status : Type 0 where
  success : Status
  syntax_error : Status
  unexpected_end : Status
  buffer_too_small : Status
  empty_struct_type : Status
  struct_type_too_large : Status
  malformed_type : Status
  server_creation_error : Status
  server_full : Status
  unknown_endpoint : Status
  argument_mismatch : Status
  client_channel_empty : Status
  client_channel_error : Status
  bad_request : Status
  server_internal_error : Status
  disconnect : Status
  bad_response : Status
  client_creation_error : Status
  too_many_arguments : Status

pub data Prim : Type 0 where
  byte : Prim
  int16 : Prim
  int32 : Prim
  int64 : Prim
  uint16 : Prim
  uint32 : Prim
  uint64 : Prim
  float32 : Prim
  float64 : Prim
  str : Prim

mutual
  pub data ChrpcType : Type 0 where
    prim : Prim → ChrpcType
    struct : FieldTypes → ChrpcType
    array : ChrpcType → ChrpcType

  pub data FieldTypes : Type 0 where
    no_fields : FieldTypes
    field : ChrpcType → FieldTypes → FieldTypes

abbrev pub struct_tid : ℕ
struct_tid = 10

abbrev pub array_tid : ℕ
array_tid = 11

abbrev pub max_struct_fields : ℕ
max_struct_fields = 64

abbrev pub prim_tid : Prim → ℕ
prim_tid byte = 0
prim_tid int16 = 1
prim_tid int32 = 2
prim_tid int64 = 3
prim_tid uint16 = 4
prim_tid uint32 = 5
prim_tid uint64 = 6
prim_tid float32 = 7
prim_tid float64 = 8
prim_tid str = 9

abbrev pub type_id : ChrpcType → ℕ
type_id (prim p) = prim_tid p
type_id (struct fs) = struct_tid
type_id (array t) = array_tid

unfoldable pub new_chrpc_primitive_type_from_id : ℕ → Option Prim
new_chrpc_primitive_type_from_id tid =
    if tid == 0
    then some byte
    else if tid == 1
    then some int16
    else if tid == 2
    then some int32
    else if tid == 3
    then some int64
    else if tid == 4
    then some uint16
    else if tid == 5
    then some uint32
    else if tid == 6
    then some uint64
    else if tid == 7
    then some float32
    else if tid == 8
    then some float64
    else if tid == 9
    then some str
    else none

abbrev pub num_fields : FieldTypes → ℕ
num_fields no_fields = 0
num_fields (field t fs) = suc (num_fields fs)

-- the constructor from a list of field types
unfoldable pub new_chrpc_struct_type : FieldTypes → Option ChrpcType
new_chrpc_struct_type fs =
    if ltb (num_fields fs) 1 || ltb max_struct_fields (num_fields fs)
    then none
    else some (struct fs)

-- The status, the bytes that were put into the buffer, and what was stored in `*written`.
abbrev pub ToBuffer : Type 0
ToBuffer = Status × List ℕ × Option ℕ

abbrev pub stored_or_zero : Option ℕ → ℕ
stored_or_zero none = 0
stored_or_zero (some w) = w

-- what `chrpc_type_to_buffer` does after a field: the loop goes on, or the status is returned
abbrev pub then_write : ToBuffer → (ℕ → ToBuffer) → ToBuffer
then_write (success, bs, w) rest =
    let (st, more, pos) = rest (stored_or_zero w) in (st, bs ++ more, pos)
then_write (st, bs, w) rest = (st, bs, none)

-- `buf_len - pos` does not wrap: `pos` counts bytes that fitted.
unfoldable mutual
  pub chrpc_type_to_buffer : ChrpcType → ℕ → ToBuffer
  chrpc_type_to_buffer (prim p) buf_len =
      if ltb buf_len 1 then (buffer_too_small, [], none) else (success, prim_tid p ∷ [], some 1)
  chrpc_type_to_buffer (array t) buf_len =
      let (st, bs, w) = chrpc_type_to_buffer t (buf_len - 1) in
      if ltb buf_len 1
      then (buffer_too_small, [], none)
      else (st, array_tid ∷ bs, some (stored_or_zero w + 1))
  chrpc_type_to_buffer (struct fs) buf_len =
      let (st, bs, w) = struct_fields_to_buffer fs buf_len 2 in
      if ltb buf_len 2
      then (buffer_too_small, [], none)
      else (st, struct_tid ∷ num_fields fs ∷ bs, w)

  -- the loop over the fields, from `pos` on
  pub struct_fields_to_buffer : FieldTypes → ℕ → ℕ → ToBuffer
  struct_fields_to_buffer no_fields buf_len pos = (success, [], some pos)
  struct_fields_to_buffer (field t fs) buf_len pos =
      then_write (chrpc_type_to_buffer t (buf_len - pos))
        (λ w. struct_fields_to_buffer fs buf_len (pos + w))

-- A value read off the front of a buffer and the number of bytes read, or the status of a failure.
-- `out_of_fuel` has no counterpart in the program.
pub data FromBuffer {ℓ} (A : Type ℓ) : Type ℓ where
  ok : A → ℕ → FromBuffer A
  failed : Status → FromBuffer A
  out_of_fuel : FromBuffer A

abbrev pub then_read {ℓ κ} :
    {A : Type ℓ} {B : Type κ} → FromBuffer A → (A → ℕ → FromBuffer B) → FromBuffer B
then_read (ok a n) f = f a n
then_read (failed st) f = failed st
then_read out_of_fuel f = out_of_fuel

-- the loop over `n` fields at `buf + pos`; `read` is the recursive call
unfoldable pub struct_fields_from_buffer :
    (List ℕ → FromBuffer ChrpcType) → ℕ → List ℕ → ℕ → FromBuffer FieldTypes
struct_fields_from_buffer read zero rem pos = ok no_fields pos
struct_fields_from_buffer read (suc n) rem pos = then_read (read rem) λ t k.
    then_read (struct_fields_from_buffer read n (drop k rem) (pos + k))
      λ fs total. ok (field t fs) total

-- what follows the type identifier of a struct
unfoldable pub struct_type_from_buffer :
    (List ℕ → FromBuffer ChrpcType) → List ℕ → FromBuffer ChrpcType
unfolding struct_fields_from_buffer
struct_type_from_buffer read [] = failed unexpected_end
struct_type_from_buffer read (n ∷ rest) =
    if ltb n 1
    then failed empty_struct_type
    else if ltb max_struct_fields n
    then failed struct_type_too_large
    else then_read (struct_fields_from_buffer read n rest 2) λ fs total. ok (struct fs) total

-- Each nested call is made on fewer bytes, so fuel above the length is enough.
unfoldable pub type_from_buffer : ℕ → List ℕ → FromBuffer ChrpcType
unfolding new_chrpc_primitive_type_from_id struct_type_from_buffer
type_from_buffer zero buf = out_of_fuel
type_from_buffer (suc fuel) [] = failed unexpected_end
type_from_buffer (suc fuel) (tid ∷ rest) = elim (new_chrpc_primitive_type_from_id tid) [
  | some p ↦ ok (prim p) 1
  | none ↦ elim (tid == array_tid) [
    | true ↦ then_read (type_from_buffer fuel rest) λ t k. ok (array t) (1 + k)
    | false ↦ elim (tid == struct_tid) [
      | true ↦ struct_type_from_buffer (type_from_buffer fuel) rest
      | false ↦ failed syntax_error
    ]
  ]
]

unfoldable pub chrpc_type_from_buffer : List ℕ → FromBuffer ChrpcType
unfolding type_from_buffer
chrpc_type_from_buffer buf = type_from_buffer (suc (length buf)) buf

unfoldable mutual
  pub new_chrpc_type_copy : ChrpcType → ChrpcType
  new_chrpc_type_copy (prim p) = prim p
  new_chrpc_type_copy (array t) = array (new_chrpc_type_copy t)
  new_chrpc_type_copy (struct fs) = struct (copy_fields fs)

  pub copy_fields : FieldTypes → FieldTypes
  copy_fields no_fields = no_fields
  copy_fields (field t fs) = field (new_chrpc_type_copy t) (copy_fields fs)

-- The loop over the fields runs through those of the first struct; the counts are equal there.
unfoldable mutual
  pub chrpc_type_equals : ChrpcType → ChrpcType → Bool
  chrpc_type_equals (prim p) u = prim_tid p == type_id u
  chrpc_type_equals (array t) (array u) = chrpc_type_equals t u
  chrpc_type_equals (struct fs) (struct gs) = num_fields fs == num_fields gs && fields_equal fs gs
  chrpc_type_equals _ _ = false

  pub fields_equal : FieldTypes → FieldTypes → Bool
  fields_equal no_fields gs = true
  fields_equal (field t fs) no_fields = false
  fields_equal (field t fs) (field u gs) = chrpc_type_equals t u && fields_equal fs gs
