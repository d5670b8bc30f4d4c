-- ===== src/Chrpc/SerialType/Writes.antt =====
-- What `chrpc_type_to_buffer` puts into a buffer.
use chlibs.Common.{
  ℕ, ◌+◌, ◌-◌, ◌≤◌, ◌<◌, ◌≡◌, refl, ap, Option, none, some, List, [], ◌∷◌, ◌++◌, arith, length,
  length-append, lt→ltb, le→not-ltb, inl, inr, Bool-cases, ltb, not-ltb, ltb→lt,
}
use chlibs.Chrpc.SerialType.{
  Status, success, buffer_too_small, ChrpcType, FieldTypes, prim, struct, array, no_fields, field,
  ToBuffer, then_write, chrpc_type_to_buffer, struct_fields_to_buffer, num_fields, struct_tid,
  array_tid,
}
use chlibs.Chrpc.SerialType.Encoding.{encode_type, encode_fields, length-encode_field}

mutual
  unfolding chrpc_type_to_buffer encode_type

  writes_type :
      (t : ChrpcType) (n : ℕ)
      → length (encode_type t) ≤ n
      → chrpc_type_to_buffer t n ≡ (success, encode_type t, some (length (encode_type t)))
  writes_type (prim p) n h = rw (le→not-ltb n 1 h) refl
  writes_type (array t) n h =
      rw (le→not-ltb n 1 (omega arith), writes_type t (n - 1) (omega arith))
        (ap (λ k. (success, array_tid ∷ encode_type t, some k)) (omega arith))
  writes_type (struct fs) n h =
      rw (le→not-ltb n 2 (omega arith), writes_fields fs n 2 (omega arith))
        (ap (λ k. (success, struct_tid ∷ num_fields fs ∷ encode_fields fs, some k)) (omega arith))

  writes_fields :
      (fs : FieldTypes) (n pos : ℕ)
      → pos + length (encode_fields fs) ≤ n
      → struct_fields_to_buffer fs n pos
        ≡ (success, encode_fields fs, some (pos + length (encode_fields fs)))
  writes_fields no_fields n pos h = ap (λ k. (success, [], some k)) (omega arith)
  writes_fields (field t fs) n pos h =
      let split = length-encode_field t fs in
      rw
        (
          writes_type t (n - pos) (omega arith),
          writes_fields fs n (pos + length (encode_type t)) (omega arith),
        )
        (ap (λ k. (success, encode_type t ++ encode_fields fs, some k)) (omega arith))

pub then_write_refused :
    (st : Status) (bs : List ℕ) (w : Option ℕ) (rest : ℕ → ToBuffer)
    → st ≡ buffer_too_small
    → then_write (st, bs, w) rest ≡ (buffer_too_small, bs, none)
then_write_refused buffer_too_small bs w rest e = refl
then_write_refused success bs w rest e = cc
then_write_refused _ bs w rest e = cc

-- A field that does not fit ends the loop with its status, within the buffer.
pub refused_field :
    (r : ToBuffer) (rest : ℕ → ToBuffer) (n pos : ℕ)
    → pos ≤ n
    → (r.0 ≡ buffer_too_small) × (length r.1 ≤ n - pos)
    → ((then_write r rest).0 ≡ buffer_too_small) × (pos + length (then_write r rest).1 ≤ n)
refused_field (st, bs, w) rest n pos p h =
    rw (then_write_refused st bs w rest h.0) (refl, omega arith)

mutual
  unfolding chrpc_type_to_buffer encode_type

  refuses_type :
      (t : ChrpcType) (n : ℕ)
      → n < length (encode_type t)
      → ((chrpc_type_to_buffer t n).0 ≡ buffer_too_small)
        × (length (chrpc_type_to_buffer t n).1 ≤ n)
  refuses_type (prim p) n h = rw (lt→ltb n 1 h) (refl, omega arith)
  refuses_type (array t) n h = elim (Bool-cases (ltb n 1)) [
    | inl e ↦ rw e (refl, omega arith)
    | inr e ↦
        let pos = not-ltb n 1 e in
        let r = refuses_type t (n - 1) (omega arith) in rw e (r.0, omega arith)
  ]
  refuses_type (struct fs) n h = elim (Bool-cases (ltb n 2)) [
    | inl e ↦ rw e (refl, omega arith)
    | inr e ↦
        let pos = not-ltb n 2 e in
        let r = refuses_fields fs n 2 (omega arith) (omega arith) in rw e (r.0, omega arith)
  ]

  refuses_fields :
      (fs : FieldTypes) (n pos : ℕ)
      → pos ≤ n
      → n < pos + length (encode_fields fs)
      → ((struct_fields_to_buffer fs n pos).0 ≡ buffer_too_small)
        × (pos + length (struct_fields_to_buffer fs n pos).1 ≤ n)
  refuses_fields no_fields n pos p h = absurd (omega arith)
  refuses_fields (field t fs) n pos p h =
      let split = length-encode_field t fs in
      elim (Bool-cases (ltb (n - pos) (length (encode_type t)))) [
        | inl e ↦
            let r = refuses_type t (n - pos) (ltb→lt _ _ e) in
            refused_field (chrpc_type_to_buffer t (n - pos))
              (λ w. struct_fields_to_buffer fs n (pos + w)) n pos p r
        | inr e ↦
            let fits = not-ltb (n - pos) (length (encode_type t)) e in
            let r =
              refuses_fields fs n (pos + length (encode_type t)) (omega arith) (omega arith) in
            rw (writes_type t (n - pos) fits) (
              r.0,
              omega (
                arith,
                length-append (encode_type t)
                    (struct_fields_to_buffer fs n (pos + length (encode_type t))).1,
              ),
            )
      ]

-- A buffer with room for the encoding of a type receives it, and its length is stored.
pub chrpc_type_to_buffer-encode :
    (t : ChrpcType) (buf_len : ℕ)
    → length (encode_type t) ≤ buf_len
    → chrpc_type_to_buffer t buf_len ≡ (success, encode_type t, some (length (encode_type t)))
chrpc_type_to_buffer-encode = writes_type

-- A buffer shorter than the encoding of a type is refused, and no more bytes are put than it has.
pub chrpc_type_to_buffer-refused :
    (t : ChrpcType) (buf_len : ℕ)
    → buf_len < length (encode_type t)
    → ((chrpc_type_to_buffer t buf_len).0 ≡ buffer_too_small)
      × (length (chrpc_type_to_buffer t buf_len).1 ≤ buf_len)
chrpc_type_to_buffer-refused = refuses_type
