-- ===== src/Chrpc/SerialValue/Reads.antt =====
-- What `chrpc_inner_value_from_buffer` reads off the front of an encoding.
use chlibs.Common.{
  ℕ, ◌+◌, ◌-◌, ◌*◌, ◌^◌, ◌≤◌, ◌<◌, ◌≡◌, refl, sym, ap, ◌∙◌, true, List, [], ◌∷◌, ◌++◌, arith,
  length, length-append, append_assoc, drop, take-length_append, drop-length_append, le→not-ltb,
  if◌then◌else◌,
}
use chlibs.Chrpc.SerialType.{
  Prim, ChrpcType, FieldTypes, prim, struct, array, no_fields, field, FromBuffer, ok, then_read,
  str,
}
use chlibs.Chrpc.ChannelFd.{u32_bytes}
use chlibs.Chrpc.SerialValue.{
  InnerValue, num, num_arr, text, text_arr, array_entries, struct_entries, Entries, no_entries,
  entry, count, is_numeric, prim_size, chrpc_blockable_type_cell_size,
}
use chlibs.Chrpc.SerialValue.Reading.{
  u32_at, chrpc_numeric_inner_value_from_buffer, chrpc_block_array_from_buffer,
  chrpc_block_array_inner_value_from_buffer, block_array_value, strs_from_buffer,
  chrpc_str_array_inner_value_from_buffer, entries_from_buffer,
  chrpc_cmp_array_inner_value_from_buffer, chrpc_inner_value_from_buffer, struct_values_from_buffer,
}
use chlibs.Chrpc.SerialValue.Encoding.{
  encode_str, encode_strs, encode_value, encode_entries, AllShort, HasType, AllOf, FieldsOf,
}

pub u32_at-u32_bytes : (n : ℕ) (rest : List ℕ) → n < 2 ^ 32 → u32_at (u32_bytes n ++ rest) ≡ n
unfolding u32_at u32_bytes
u32_at-u32_bytes n rest h = omega arith

-- A block behind its number of cells.
reads_block :
    (t : ChrpcType) (n : ℕ) (b rest : List ℕ)
    → n < 2 ^ 32
    → chrpc_blockable_type_cell_size t * n ≡ length b
    → chrpc_block_array_from_buffer t ((u32_bytes n ++ b) ++ rest)
      ≡ ok (n, b) (length (u32_bytes n ++ b))
unfolding chrpc_block_array_from_buffer u32_bytes
reads_block t n b rest h e =
    let len = length-append b rest in
    rw
      (
        u32_at-u32_bytes n (b ++ rest) h,
        e,
        le→not-ltb (length ((u32_bytes n ++ b) ++ rest)) 4 (omega arith),
        le→not-ltb (length ((u32_bytes n ++ b) ++ rest) - 4) (length b) (omega arith),
        take-length_append b rest,
      )
      (ap (ok (n, b)) (omega arith))

reads_str :
    (s rest : List ℕ)
    → length s < 2 ^ 32
    → chrpc_block_array_from_buffer (prim str) (encode_str s ++ rest)
      ≡ ok (length s, s) (length (encode_str s))
unfolding encode_str chrpc_blockable_type_cell_size
reads_str s rest h = reads_block (prim str) (length s) s rest h (omega arith)

reads_strs :
    (ss : List (List ℕ)) (rest : List ℕ) (pos : ℕ)
    → AllShort ss
    → strs_from_buffer (length ss) (encode_strs ss ++ rest) pos
      ≡ ok ss (pos + length (encode_strs ss))
unfolding strs_from_buffer encode_strs
reads_strs [] rest pos h = ap (ok []) (omega arith)
reads_strs (s ∷ ss) rest pos h =
    let split = length-append (encode_str s) (encode_strs ss) in
    rw
      (
        append_assoc (encode_str s) (encode_strs ss) rest,
        reads_str s (encode_strs ss ++ rest) h.0,
        drop-length_append (encode_str s) (encode_strs ss ++ rest),
        reads_strs ss rest (pos + length (encode_str s)) h.1,
      )
      (ap (ok (s ∷ ss)) (omega arith))

-- A number of cells in front of what the loop over them reads.
reads_counted :
    (n : ℕ) (cells rest : List ℕ)
    → n < 2 ^ 32
    → (u32_at ((u32_bytes n ++ cells) ++ rest) ≡ n)
      × (drop 4 ((u32_bytes n ++ cells) ++ rest) ≡ cells ++ rest)
      × (length (u32_bytes n ++ cells) ≡ 4 + length cells)
      × (4 ≤ length ((u32_bytes n ++ cells) ++ rest))
unfolding u32_bytes
reads_counted n cells rest h =
    (u32_at-u32_bytes n (cells ++ rest) h, refl, omega arith, omega arith)

reads_str_array :
    (ss : List (List ℕ)) (rest : List ℕ)
    → length ss < 2 ^ 32
    → AllShort ss
    → chrpc_str_array_inner_value_from_buffer ((u32_bytes (length ss) ++ encode_strs ss) ++ rest)
      ≡ ok (text_arr ss) (length (u32_bytes (length ss) ++ encode_strs ss))
unfolding chrpc_str_array_inner_value_from_buffer
reads_str_array ss rest h short =
    let (at, tail, len, room) = reads_counted (length ss) (encode_strs ss) rest h in
    rw (le→not-ltb _ 4 room, at, tail, reads_strs ss rest 4 short, len) refl

reads_cmp_array :
    (read : List ℕ → FromBuffer InnerValue) (es : Entries) (rest : List ℕ)
    → count es < 2 ^ 32
    → ((pos : ℕ)
        → entries_from_buffer read (count es) (encode_entries es ++ rest) pos
          ≡ ok es (pos + length (encode_entries es)))
    → chrpc_cmp_array_inner_value_from_buffer read
        ((u32_bytes (count es) ++ encode_entries es) ++ rest)
      ≡ ok (array_entries es) (length (u32_bytes (count es) ++ encode_entries es))
unfolding chrpc_cmp_array_inner_value_from_buffer
reads_cmp_array read es rest h loop =
    let (at, tail, len, room) = reads_counted (count es) (encode_entries es) rest h in
    rw (le→not-ltb _ 4 room, at, tail, loop 4, len) refl

reads_numeric :
    (p : Prim) (b rest : List ℕ)
    → length b ≡ prim_size p
    → chrpc_numeric_inner_value_from_buffer p (b ++ rest) ≡ ok (num b) (length b)
unfolding chrpc_numeric_inner_value_from_buffer
reads_numeric p b rest e =
    let len = length-append b rest in
    rw (sym e, le→not-ltb (length (b ++ rest)) (length b) (omega arith), take-length_append b rest)
      refl

pub cell_size_numeric :
    (p : Prim) → is_numeric p ≡ true → chrpc_blockable_type_cell_size (array (prim p)) ≡ prim_size p
unfolding chrpc_blockable_type_cell_size
cell_size_numeric p e = rw e refl

reads_numeric_array :
    (p : Prim) (n : ℕ) (b rest : List ℕ)
    → HasType (array (prim p)) (num_arr n b)
    → chrpc_block_array_inner_value_from_buffer (array (prim p)) ((u32_bytes n ++ b) ++ rest)
      ≡ ok (num_arr n b) (length (u32_bytes n ++ b))
unfolding chrpc_block_array_inner_value_from_buffer
reads_numeric_array p n b rest h =
    ap (λ r. then_read r λ arr k. ok (block_array_value (array (prim p)) arr) k)
      (reads_block (array (prim p)) n b rest h.1
        (ap (λ k. k * n) (cell_size_numeric p h.0) ∙ sym h.2))

mutual
  unfolding chrpc_inner_value_from_buffer encode_value

  reads_value :
      (t : ChrpcType) (v : InnerValue) (rest : List ℕ)
      → HasType t v
      → chrpc_inner_value_from_buffer t (encode_value v ++ rest) ≡ ok v (length (encode_value v))
  reads_value (prim p) (num b) rest h = rw (h.0) (reads_numeric p b rest h.1)
  reads_value (prim str) (text s) rest h = rw (reads_str s rest h.1) refl
  reads_value (prim _) (text s) rest h = cc
  reads_value (array (prim p)) (num_arr n b) rest h =
      let buf = (u32_bytes n ++ b) ++ rest in
      ap
        (λ c.
          if c
          then chrpc_block_array_inner_value_from_buffer (array (prim p)) buf
          else chrpc_str_array_inner_value_from_buffer buf)
        h.0
      ∙ reads_numeric_array p n b rest h
  reads_value (array (prim str)) (text_arr ss) rest h = reads_str_array ss rest h.1 h.2
  reads_value (array (prim _)) (text_arr ss) rest h = cc
  reads_value (array (array t)) (array_entries es) rest h =
      reads_cmp_array _ es rest h.0 λ pos. reads_entries (array t) es rest pos h.1
  reads_value (array (struct fs)) (array_entries es) rest h =
      reads_cmp_array _ es rest h.0 λ pos. reads_entries (struct fs) es rest pos h.1
  reads_value (struct fs) (struct_entries es) rest h =
      rw (reads_fields fs es rest 0 h) (ap (ok (struct_entries es)) (omega arith))
  reads_value _ _ rest h = absurd h

  reads_entries :
      (t : ChrpcType) (es : Entries) (rest : List ℕ) (pos : ℕ)
      → AllOf t es
      → entries_from_buffer
          (chrpc_inner_value_from_buffer t)
          (count es)
          (encode_entries es ++ rest)
          pos
        ≡ ok es (pos + length (encode_entries es))
  reads_entries t no_entries rest pos h = ap (ok no_entries) (omega arith)
  reads_entries t (entry v es) rest pos h =
      let split = length-append (encode_value v) (encode_entries es) in
      rw
        (
          append_assoc (encode_value v) (encode_entries es) rest,
          reads_value t v (encode_entries es ++ rest) h.0,
          drop-length_append (encode_value v) (encode_entries es ++ rest),
          reads_entries t es rest (pos + length (encode_value v)) h.1,
        )
        (ap (ok (entry v es)) (omega arith))

  reads_fields :
      (fs : FieldTypes) (es : Entries) (rest : List ℕ) (pos : ℕ)
      → FieldsOf fs es
      → struct_values_from_buffer fs (encode_entries es ++ rest) pos
        ≡ ok es (pos + length (encode_entries es))
  reads_fields no_fields no_entries rest pos h = ap (ok no_entries) (omega arith)
  reads_fields (field t fs) (entry v es) rest pos h =
      let split = length-append (encode_value v) (encode_entries es) in
      rw
        (
          append_assoc (encode_value v) (encode_entries es) rest,
          reads_value t v (encode_entries es ++ rest) h.0,
          drop-length_append (encode_value v) (encode_entries es ++ rest),
          reads_fields fs es rest (pos + length (encode_value v)) h.1,
        )
        (ap (ok (entry v es)) (omega arith))
  reads_fields _ _ rest pos h = absurd h

-- The encoding of a value of its type is read back as that value, whatever bytes follow.
pub chrpc_inner_value_from_buffer-encode :
    (t : ChrpcType) (v : InnerValue) (rest : List ℕ)
    → HasType t v
    → chrpc_inner_value_from_buffer t (encode_value v ++ rest) ≡ ok v (length (encode_value v))
chrpc_inner_value_from_buffer-encode = reads_value
