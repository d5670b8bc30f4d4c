-- ===== src/Chrpc/SerialValue/RoundTrip.antt =====
-- `chrpc_value_from_buffer` undoes `chrpc_value_to_buffer`.
use chlibs.Common.{
  ℕ, ◌+◌, ◌-◌, ◌≤◌, ◌<◌, ◌≡◌, refl, sym, ap, Option, none, some, List, [], ◌++◌, arith, ltb, ltb→lt,
  lt→ltb, le→not-ltb, not-ltb, inl, inr, Bool-cases, length, length-append, append_assoc,
  drop-length_append,
}
use chlibs.Chrpc.SerialType.{
  success, buffer_too_small, ok, ToBuffer, then_write, chrpc_type_to_buffer,
}
use chlibs.Chrpc.SerialType.Encoding.{encode_type, IsWellFormed}
use chlibs.Chrpc.SerialType.Writes.{
  chrpc_type_to_buffer-encode, chrpc_type_to_buffer-refused, then_write_refused,
}
use chlibs.Chrpc.SerialType.Reads.{chrpc_type_from_buffer_iff}
use chlibs.Chrpc.SerialValue.{
  Value, chrpc_value_to_buffer, chrpc_value_to_buffer_with_length, with_len_prefix,
}
use chlibs.Chrpc.ChannelFd.{u32_bytes}
use chlibs.Chrpc.SerialValue.Reading.{chrpc_value_from_buffer}
use chlibs.Chrpc.SerialValue.Encoding.{encode_value, HasType, StringsEnd}
use chlibs.Chrpc.SerialValue.Writes.{
  chrpc_inner_value_to_buffer-encode, chrpc_inner_value_to_buffer-refused,
}
use chlibs.Chrpc.SerialValue.Reads.{chrpc_inner_value_from_buffer-encode}

-- A value of its own type, which has 1 to 64 fields in every struct, with terminated strings.
abbrev pub IsProper : Value → Type 0
IsProper v = IsWellFormed v.type × HasType v.type v.value × StringsEnd v.value

-- the type, then the value
abbrev pub encode_pair : Value → List ℕ
encode_pair v = encode_type v.type ++ encode_value v.value

pub chrpc_value_to_buffer-encode :
    (v : Value) (buf_len : ℕ)
    → IsProper v
    → length (encode_pair v) ≤ buf_len
    → chrpc_value_to_buffer v buf_len ≡ (success, encode_pair v, some (length (encode_pair v)))
unfolding chrpc_value_to_buffer
chrpc_value_to_buffer-encode v buf_len h room =
    let split = length-append (encode_type v.type) (encode_value v.value) in
    rw
      (
        chrpc_type_to_buffer-encode v.type buf_len (omega arith),
        chrpc_inner_value_to_buffer-encode v.type v.value (buf_len - length (encode_type v.type))
            h.1 h.2 (omega arith),
      )
      (ap (λ k. (success, encode_pair v, some k)) (sym split))

pub chrpc_value_from_buffer-encode :
    (v : Value) (rest : List ℕ)
    → IsWellFormed v.type
    → HasType v.type v.value
    → chrpc_value_from_buffer (encode_pair v ++ rest) ≡ ok v (length (encode_pair v))
unfolding chrpc_value_from_buffer
chrpc_value_from_buffer-encode v rest wf typed =
    let split = length-append (encode_type v.type) (encode_value v.value) in
    let tail = encode_value v.value ++ rest in
    rw
      (
        append_assoc (encode_type v.type) (encode_value v.value) rest,
        (chrpc_type_from_buffer_iff (encode_type v.type ++ tail) v.type _).1 (tail, refl, refl, wf),
        drop-length_append (encode_type v.type) tail,
        chrpc_inner_value_from_buffer-encode v.type v.value rest typed,
      )
      (ap (ok v) (sym split))

-- A proper value, written into a buffer with room for its type and itself, is read back whatever
-- bytes follow, and both count the same bytes.
pub value_from_buffer-to_buffer :
    (v : Value) (buf_len : ℕ) (rest : List ℕ)
    → IsProper v
    → length (encode_pair v) ≤ buf_len
    → let (status, bytes, written) = chrpc_value_to_buffer v buf_len in
      (status ≡ success)
      × (chrpc_value_from_buffer (bytes ++ rest) ≡ ok v (length bytes))
      × (written ≡ some (length bytes))
value_from_buffer-to_buffer v buf_len rest h room =
    rw (chrpc_value_to_buffer-encode v buf_len h room)
      (refl, chrpc_value_from_buffer-encode v rest h.0 h.1, refl)

-- A proper value does not fit if its encoding does not.
pub chrpc_value_to_buffer-refused :
    (v : Value) (buf_len : ℕ)
    → IsProper v
    → buf_len < length (encode_pair v)
    → (chrpc_value_to_buffer v buf_len).0 ≡ buffer_too_small
unfolding chrpc_value_to_buffer
chrpc_value_to_buffer-refused v buf_len h short =
    let split = length-append (encode_type v.type) (encode_value v.value) in
    elim (Bool-cases (ltb buf_len (length (encode_type v.type)))) [
      | inl e ↦
          refused_first (chrpc_type_to_buffer v.type buf_len) _
            (chrpc_type_to_buffer-refused v.type buf_len (ltb→lt _ _ e)).0
      | inr e ↦
          let fits = not-ltb buf_len (length (encode_type v.type)) e in
          rw (chrpc_type_to_buffer-encode v.type buf_len fits)
            (chrpc_inner_value_to_buffer-refused v.type v.value
              (buf_len - length (encode_type v.type)) h.1 h.2 (omega arith)).0
    ]
  where
    refused_first :
        (r : ToBuffer) (rest : ℕ → ToBuffer)
        → r.0 ≡ buffer_too_small
        → (then_write r rest).0 ≡ buffer_too_small
    refused_first (st, bs, w) rest e = rw (then_write_refused st bs w rest e) refl

-- what a value, or none, is in the bytes of a return value
abbrev pub encode_return : Option Value → List ℕ
encode_return none = []
encode_return (some v) = encode_pair v

abbrev pub ProperReturn : Option Value → Type 0
ProperReturn none = Unit {0}
ProperReturn (some v) = IsProper v

-- A return value that fits is put behind the length of its encoding; no value has length 0.
pub chrpc_value_to_buffer_with_length-encode :
    (v : Option Value) (old : List ℕ) (buf_len : ℕ)
    → ProperReturn v
    → 4 + length (encode_return v) ≤ buf_len
    → chrpc_value_to_buffer_with_length v old buf_len ≡ (
      success,
      u32_bytes (length (encode_return v)) ++ encode_return v,
      some (4 + length (encode_return v)),
    )
unfolding chrpc_value_to_buffer_with_length u32_bytes
chrpc_value_to_buffer_with_length-encode none old buf_len h room =
    rw (le→not-ltb buf_len 4 room) refl
chrpc_value_to_buffer_with_length-encode (some v) old buf_len h room =
    rw
      (
        le→not-ltb buf_len 4 (omega arith),
        chrpc_value_to_buffer-encode v (buf_len - 4) h (omega arith),
      )
      refl

-- A return value does not fit if its encoding and the length do not.
pub chrpc_value_to_buffer_with_length-refused :
    (v : Option Value) (old : List ℕ) (buf_len : ℕ)
    → ProperReturn v
    → buf_len < 4 + length (encode_return v)
    → (chrpc_value_to_buffer_with_length v old buf_len).0 ≡ buffer_too_small
unfolding chrpc_value_to_buffer_with_length
chrpc_value_to_buffer_with_length-refused none old buf_len h short =
    rw (lt→ltb buf_len 4 short) refl
chrpc_value_to_buffer_with_length-refused (some v) old buf_len h short =
    elim (Bool-cases (ltb buf_len 4)) [
      | inl e ↦ rw e refl
      | inr e ↦
          let le = not-ltb buf_len 4 e in
          rw e (
            prefix_refused (chrpc_value_to_buffer v (buf_len - 4))
              (chrpc_value_to_buffer-refused v (buf_len - 4) h (omega arith)))
    ]
  where
    prefix_refused :
        (r : ToBuffer) → r.0 ≡ buffer_too_small → (with_len_prefix old r).0 ≡ buffer_too_small
    prefix_refused (buffer_too_small, bs, w) e = refl
    prefix_refused (success, bs, w) e = cc
    prefix_refused (_, bs, w) e = cc
