-- ===== src/Chrpc/SerialValue/Tests.antt =====
-- The values of a request: a struct of a string and an array of byte arrays.
use chlibs.Common.{
  ℕ, ◌≤◌, ◌≡◌, ◌↔◌, refl, Bool, true, false, ◌&&◌, ltb, ltb→lt, some, List, [], ◌∷◌, ◌++◌, arith,
  length,
}
use chlibs.Chrpc.SerialType.{
  success, buffer_too_small, ChrpcType, prim, struct, array, no_fields, field, byte, int16, int32,
  int64, uint16, uint32, uint64, str, ok,
}
use chlibs.Chrpc.SerialValue.{
  InnerValue, num_arr, text, array_entries, struct_entries, no_entries, entry, Value,
  chrpc_inner_value_to_buffer, chrpc_value_to_buffer, c_str,
}
use chlibs.Chrpc.ChannelFd.{u32_bytes}
use chlibs.Chrpc.SerialType.Encoding.{encode_type}
use chlibs.Chrpc.SerialType.Equality.{and_true}
use chlibs.Chrpc.SerialValue.Reading.{chrpc_inner_value_from_buffer, chrpc_value_from_buffer}
use chlibs.Chrpc.SerialValue.Comparing.{chrpc_value_equals}
use chlibs.Chrpc.SerialValue.Encoding.{encode_value, HasType, StringsEnd, IsTerminated, AllBytes}
use chlibs.Chrpc.SerialValue.Writes.{chrpc_inner_value_to_buffer-refused}
use chlibs.Chrpc.SerialValue.Exact.{chrpc_inner_value_from_buffer_iff}
use chlibs.Chrpc.SerialValue.RoundTrip.{IsProper, encode_pair, value_from_buffer-to_buffer}
use chlibs.Chrpc.SerialValue.Equality.{chrpc_value_equals_iff}
use chlibs.Chrpc.SerialValue.Making.{
  new_chrpc_struct_value_va, new_chrpc_composite_nempty_array_value,
}
use chlibs.Chrpc.SerialValue.Numbers.{
  new_chrpc_b8_value, new_chrpc_i16_value, new_chrpc_i32_value, new_chrpc_i64_value,
  new_chrpc_u16_value, new_chrpc_u32_value, new_chrpc_u64_value, new_chrpc_b8_array_value_va,
  new_chrpc_i16_array_value_va, new_chrpc_i32_array_value_va, new_chrpc_i64_array_value_va,
  new_chrpc_u16_array_value_va, new_chrpc_u32_array_value_va, new_chrpc_u64_array_value_va,
}
use chlibs.Chrpc.SerialValue.Integers.{Number, Numbers, integer_values-Numbers}
use chlibs.Chrpc.SerialValue.Made.{
  new_chrpc_struct_value_va_iff, new_chrpc_composite_nempty_array_value_iff, SameType, Composite,
  struct_of, array_of,
}

abbrev request_t : ChrpcType
request_t = struct (field (prim str) (field (array (array (prim byte))) no_fields))

abbrev name : InnerValue
name = text (97 ∷ 98 ∷ 0 ∷ [])

abbrev args : InnerValue
args = array_entries (entry (num_arr 2 (7 ∷ 8 ∷ [])) no_entries)

abbrev request : InnerValue
request = struct_entries (entry name (entry args no_entries))

abbrev request_value : Value
request_value = record { type = request_t; value = request }

abbrev nested : Value
nested = record {
  type = struct (field request_t no_fields);
  value = struct_entries (entry request no_entries);
}

name-IsTerminated : IsTerminated (97 ∷ 98 ∷ 0 ∷ [])
unfolding c_str
name-IsTerminated = refl

request-HasType : HasType request_t request
request-HasType = ((refl, omega arith), ((omega arith, ((refl, omega arith, refl), tt)), tt))

request-StringsEnd : StringsEnd request
request-StringsEnd = (name-IsTerminated, ((tt, tt), tt))

request-IsProper : IsProper request_value
request-IsProper = ((omega arith, omega arith, (tt, (tt, tt))), request-HasType, request-StringsEnd)

length-request : length (encode_value request) ≡ 17
unfolding encode_value u32_bytes
length-request = refl

-- the bytes of the value, and what is too short for them
abbrev request_bytes : List ℕ
request_bytes = 3 ∷ 0 ∷ 0 ∷ 0 ∷ 97 ∷ 98 ∷ 0 ∷ 1 ∷ 0 ∷ 0 ∷ 0 ∷ 2 ∷ 0 ∷ 0 ∷ 0 ∷ 7 ∷ 8 ∷ []

writes_request :
    chrpc_inner_value_to_buffer request_t request 17 ≡ (success, request_bytes, some 17)
unfolding chrpc_inner_value_to_buffer
writes_request = refl

reads_request : chrpc_inner_value_from_buffer request_t (request_bytes ++ 9 ∷ []) ≡ ok request 17
unfolding chrpc_inner_value_from_buffer
reads_request = refl

all_below : List ℕ → Bool
all_below [] = true
all_below (c ∷ cs) = ltb c 256 && all_below cs

all_below-AllBytes : (cs : List ℕ) → all_below cs ≡ true → AllBytes cs
unfolding all_below
all_below-AllBytes [] e = tt
all_below-AllBytes (c ∷ cs) e =
    let (first, more) = and_true (ltb c 256) _ e in (ltb→lt c 256 first, all_below-AllBytes cs more)

bytes-AllBytes : AllBytes (request_bytes ++ 9 ∷ [])
unfolding all_below
bytes-AllBytes = all_below-AllBytes (request_bytes ++ 9 ∷ []) refl

chrpc_inner_value_to_buffer-refused_example :
    ((chrpc_inner_value_to_buffer request_t request 12).0 ≡ buffer_too_small)
    × (length (chrpc_inner_value_to_buffer request_t request 12).1 ≤ 12)
chrpc_inner_value_to_buffer-refused_example =
    chrpc_inner_value_to_buffer-refused request_t request 12 request-HasType request-StringsEnd
      (omega (arith, length-request))

chrpc_inner_value_from_buffer_iff_example :
    (chrpc_inner_value_from_buffer request_t (request_bytes ++ 9 ∷ []) ≡ ok request 17) ↔ (
      (rest : List ℕ) × (request_bytes ++ 9 ∷ [] ≡ encode_value request ++ rest)
      × (17 ≡ length (encode_value request))
      × HasType request_t request)
chrpc_inner_value_from_buffer_iff_example =
    chrpc_inner_value_from_buffer_iff request_t (request_bytes ++ 9 ∷ []) request 17
      request-IsProper.0 bytes-AllBytes

length-request_pair : length (encode_pair request_value) ≡ 23
unfolding encode_value encode_type u32_bytes
length-request_pair = refl

value_from_buffer-to_buffer_example :
    let (status, bytes, written) = chrpc_value_to_buffer request_value 128 in
    (status ≡ success)
    × (chrpc_value_from_buffer (bytes ++ 5 ∷ []) ≡ ok request_value (length bytes))
    × (written ≡ some (length bytes))
value_from_buffer-to_buffer_example =
    value_from_buffer-to_buffer request_value 128 (5 ∷ []) request-IsProper
      (omega (arith, length-request_pair))

chrpc_value_equals_iff_example :
    (chrpc_value_equals false (some request_value) (some request_value) ≡ true)
    ↔ (request_value ≡ request_value)
chrpc_value_equals_iff_example =
    chrpc_value_equals_iff false request_value request_value (λ e. refl) request-IsProper
      request-IsProper

integer_values-Numbers_example :
    Number byte 1 70000 (new_chrpc_b8_value 70000)
    × Numbers byte 1 (1 ∷ 70000 ∷ []) (new_chrpc_b8_array_value_va (1 ∷ 70000 ∷ []))
    × Number int16 2 70000 (new_chrpc_i16_value 70000)
    × Numbers int16 2 (1 ∷ 70000 ∷ []) (new_chrpc_i16_array_value_va (1 ∷ 70000 ∷ []))
    × Number int32 4 70000 (new_chrpc_i32_value 70000)
    × Numbers int32 4 (1 ∷ 70000 ∷ []) (new_chrpc_i32_array_value_va (1 ∷ 70000 ∷ []))
    × Number int64 8 70000 (new_chrpc_i64_value 70000)
    × Numbers int64 8 (1 ∷ 70000 ∷ []) (new_chrpc_i64_array_value_va (1 ∷ 70000 ∷ []))
    × Number uint16 2 70000 (new_chrpc_u16_value 70000)
    × Numbers uint16 2 (1 ∷ 70000 ∷ []) (new_chrpc_u16_array_value_va (1 ∷ 70000 ∷ []))
    × Number uint32 4 70000 (new_chrpc_u32_value 70000)
    × Numbers uint32 4 (1 ∷ 70000 ∷ []) (new_chrpc_u32_array_value_va (1 ∷ 70000 ∷ []))
    × Number uint64 8 70000 (new_chrpc_u64_value 70000)
    × Numbers uint64 8 (1 ∷ 70000 ∷ []) (new_chrpc_u64_array_value_va (1 ∷ 70000 ∷ []))
integer_values-Numbers_example = integer_values-Numbers 70000 (1 ∷ 70000 ∷ [])

new_chrpc_struct_value_va_iff_example :
    (new_chrpc_struct_value_va (request_value ∷ []) ≡ some nested)
    ↔ ((1 ≤ 1) × (1 ≤ 64) × (nested ≡ struct_of (request_value ∷ [])) × IsProper nested)
new_chrpc_struct_value_va_iff_example =
    new_chrpc_struct_value_va_iff (request_value ∷ []) nested (request-IsProper, tt)

new_chrpc_composite_nempty_array_value_iff_example :
    (new_chrpc_composite_nempty_array_value (request_value ∷ request_value ∷ []) ≡ some nested) ↔ (
      Composite request_t
      × SameType request_t (request_value ∷ [])
      × (nested ≡ array_of request_t (request_value ∷ request_value ∷ []))
      × IsProper nested)
new_chrpc_composite_nempty_array_value_iff_example =
    new_chrpc_composite_nempty_array_value_iff request_value (request_value ∷ []) nested
      (request-IsProper, (request-IsProper, tt)) (omega arith)
