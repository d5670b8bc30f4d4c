-- ===== src/Chrpc/SerialValue/Exact.antt =====
-- What `chrpc_inner_value_from_buffer` accepts: nothing but the encodings of values of the type.
use chlibs.Common.{
  ℕ, zero, suc, ◌+◌, ◌*◌, ◌^◌, ◌<◌, ◌≡◌, ◌↔◌, refl, sym, ap, ◌∙◌, true, List, ◌++◌, arith, length,
  take, drop, length-take, take-append-drop, inl, inr, Bool-cases, ltb, not-ltb,
}
use chlibs.Chrpc.SerialType.{
  Prim, ChrpcType, FieldTypes, prim, struct, array, no_fields, field, FromBuffer, ok, str,
}
use chlibs.Chrpc.SerialType.Encoding.{IsWellFormed}
use chlibs.Chrpc.SerialType.Reads.{Ensures, read, rejected, Ensures-ok, Ensures-then_read}
use chlibs.Chrpc.SerialValue.{InnerValue, array_entries, Entries, count, is_numeric, prim_size}
use chlibs.Chrpc.SerialValue.Reading.{
  u32_at, chrpc_numeric_inner_value_from_buffer, chrpc_block_array_inner_value_from_buffer,
  chrpc_str_array_inner_value_from_buffer, entries_from_buffer,
  chrpc_cmp_array_inner_value_from_buffer, chrpc_inner_value_from_buffer, struct_values_from_buffer,
}
use chlibs.Chrpc.SerialValue.Encoding.{
  encode_strs, encode_value, encode_entries, HasType, AllOf, FieldsOf, AllBytes,
}
use chlibs.Chrpc.SerialValue.Reads.{cell_size_numeric, chrpc_inner_value_from_buffer-encode}
use chlibs.Chrpc.SerialValue.Begins.{
  AllBytes-drop, Begins, BeginsFrom, Begins-join, Begins-counted, exact_block, exact_str,
  exact_strs,
}

-- The value begins the buffer.
abbrev pub ValueRead : ChrpcType → List ℕ → InnerValue → ℕ → Type 0
ValueRead t buf v k = Begins buf (encode_value v) k (HasType t v)

abbrev EntriesRead : ChrpcType → ℕ → List ℕ → ℕ → Entries → ℕ → Type 0
EntriesRead t n rem pos es total =
    BeginsFrom rem (encode_entries es) pos total ((count es ≡ n) × AllOf t es)

abbrev FieldsRead : FieldTypes → List ℕ → ℕ → Entries → ℕ → Type 0
FieldsRead fs rem pos es total = BeginsFrom rem (encode_entries es) pos total (FieldsOf fs es)

exact_str_array :
    (buf : List ℕ)
    → AllBytes buf
    → Ensures (ValueRead (array (prim str)) buf) (chrpc_str_array_inner_value_from_buffer buf)
unfolding chrpc_str_array_inner_value_from_buffer encode_value
exact_str_array buf h = elim (Bool-cases (ltb (length buf) 4)) [
  | inl e ↦ rw e rejected
  | inr e ↦ rw e (
      Ensures-then_read (exact_strs (u32_at buf) (drop 4 buf) 4 (AllBytes-drop 4 buf h))
        λ ss total all. read (
          Begins-counted buf (encode_strs ss) (length ss) total h (not-ltb _ _ e) all
            λ small short. (refl, small, short)))
]

-- The cells of an array, by a reader of one cell that accepts encodings only.
module _ (t : ChrpcType) (call : List ℕ → FromBuffer InnerValue)
    (exact : (buf : List ℕ) → AllBytes buf → Ensures (ValueRead t buf) (call buf)) where
  exact_entries :
      (n : ℕ) (rem : List ℕ) (pos : ℕ)
      → AllBytes rem
      → Ensures (EntriesRead t n rem pos) (entries_from_buffer call n rem pos)
  unfolding entries_from_buffer encode_value
  exact_entries zero rem pos h = read (rem, refl, omega arith, (refl, tt))
  exact_entries (suc n) rem pos h = Ensures-then_read (exact rem h) λ v k first.
      Ensures-then_read (exact_entries n (drop k rem) (pos + k) (AllBytes-drop k rem h))
        λ es total more. read (
          Begins-join rem (encode_value v) (encode_entries es) k pos total first more
            λ typed (count, all). (ap suc count, (typed, all)))

  exact_cmp_array :
      ((es : Entries) → count es < 2 ^ 32 → AllOf t es → HasType (array t) (array_entries es))
      → (buf : List ℕ) → AllBytes buf
      → Ensures (ValueRead (array t) buf) (chrpc_cmp_array_inner_value_from_buffer call buf)
  unfolding chrpc_cmp_array_inner_value_from_buffer encode_value
  exact_cmp_array has buf h = elim (Bool-cases (ltb (length buf) 4)) [
    | inl e ↦ rw e rejected
    | inr e ↦ rw e (
        Ensures-then_read (exact_entries (u32_at buf) (drop 4 buf) 4 (AllBytes-drop 4 buf h))
          λ es total all. read (
            Begins-counted buf (encode_entries es) (count es) total h (not-ltb _ _ e) all
              λ small typed. has es small typed))
  ]

exact_numeric :
    (p : Prim) (buf : List ℕ)
    → is_numeric p ≡ true
    → Ensures (ValueRead (prim p) buf) (chrpc_numeric_inner_value_from_buffer p buf)
unfolding chrpc_numeric_inner_value_from_buffer encode_value
exact_numeric p buf e = elim (Bool-cases (ltb (length buf) (prim_size p))) [
  | inl f ↦ rw f rejected
  | inr f ↦
      let room = not-ltb _ _ f in
      let len : length (take (prim_size p) buf) ≡ prim_size p =
        omega (arith, length-take (prim_size p) buf) in
      rw f
        (read (drop (prim_size p) buf, sym (take-append-drop (prim_size p) buf), sym len, (e, len)))
]

exact_numeric_array :
    (p : Prim) (buf : List ℕ)
    → is_numeric p ≡ true
    → AllBytes buf
    → Ensures
        (ValueRead (array (prim p)) buf)
        (chrpc_block_array_inner_value_from_buffer (array (prim p)) buf)
unfolding chrpc_block_array_inner_value_from_buffer encode_value
exact_numeric_array p buf e h =
    Ensures-then_read (exact_block (array (prim p)) buf h) λ arr k (rest, front, len, both).
      read (rest, front, len, (e, both.0, both.1 ∙ ap (λ s. s * arr.0) (cell_size_numeric p e)))

exact_string :
    (buf : List ℕ)
    → AllBytes buf
    → Ensures (ValueRead (prim str) buf) (chrpc_block_array_inner_value_from_buffer (prim str) buf)
unfolding chrpc_block_array_inner_value_from_buffer encode_value
exact_string buf h =
    Ensures-then_read (exact_str buf h)
      λ arr k (rest, front, len, short). read (rest, front, len, (refl, short))

mutual
  unfolding chrpc_inner_value_from_buffer encode_value

  exact_value :
      (t : ChrpcType) (buf : List ℕ)
      → AllBytes buf
      → Ensures (ValueRead t buf) (chrpc_inner_value_from_buffer t buf)
  exact_value (prim str) buf h = exact_string buf h
  exact_value (prim p) buf h = exact_numeric p buf refl
  exact_value (array (prim str)) buf h = exact_str_array buf h
  exact_value (array (prim p)) buf h = exact_numeric_array p buf refl h
  exact_value (array (array t)) buf h =
      exact_cmp_array (array t) _ (exact_value (array t)) (λ es small all. (small, all)) buf h
  exact_value (array (struct fs)) buf h =
      exact_cmp_array (struct fs) _ (exact_value (struct fs)) (λ es small all. (small, all)) buf h
  exact_value (struct fs) buf h =
      Ensures-then_read (exact_fields fs buf 0 h)
        λ es total (rest, e, len, all). read (rest, e, omega arith, all)

  exact_fields :
      (fs : FieldTypes) (rem : List ℕ) (pos : ℕ)
      → AllBytes rem
      → Ensures (FieldsRead fs rem pos) (struct_values_from_buffer fs rem pos)
  exact_fields no_fields rem pos h = read (rem, refl, omega arith, tt)
  exact_fields (field t fs) rem pos h = Ensures-then_read (exact_value t rem h) λ v k first.
      Ensures-then_read (exact_fields fs (drop k rem) (pos + k) (AllBytes-drop k rem h))
        λ es total more. read (
          Begins-join rem (encode_value v) (encode_entries es) k pos total first more
            λ typed all. (typed, all))

-- For a type whose structs have 1 to 64 fields, a buffer of bytes is read as a value of it exactly
-- if it begins with the encoding of that value, which has the type; the count is the length of the
-- encoding; a string is encoded as the number of its bytes, its NUL included, and its bytes, and
-- one that is read need not end in a NUL.
pub chrpc_inner_value_from_buffer_iff :
    (t : ChrpcType) (buf : List ℕ) (v : InnerValue) (k : ℕ)
    → IsWellFormed t
    → AllBytes buf
    → (chrpc_inner_value_from_buffer t buf ≡ ok v k) ↔ (
        (rest : List ℕ) × (buf ≡ encode_value v ++ rest)
        × (k ≡ length (encode_value v))
        × HasType t v)
chrpc_inner_value_from_buffer_iff t buf v k wf h = (
  λ e. Ensures-ok (exact_value t buf h) e,
  λ (rest, e, len, typed). rw (e, len) (chrpc_inner_value_from_buffer-encode t v rest typed),
)
