-- ===== src/Chrpc/SerialValue/Writes.antt =====
-- What `chrpc_inner_value_to_buffer` puts into a buffer.
use chlibs.Common.{
  ℕ, ◌+◌, ◌-◌, ◌*◌, ◌%◌, ◌^◌, ◌≤◌, ◌<◌, ◌≡◌, refl, sym, subst, ap, ◌∙◌, true, false, some, List, [],
  ◌∷◌, ◌++◌, arith, mul_comm, length, length-append, take_all, lt→ltb, le→not-ltb, inl, inr,
  Bool-cases, ltb, not-ltb, ltb→lt,
}
use chlibs.Chrpc.SerialType.{
  success, buffer_too_small, Prim, ChrpcType, FieldTypes, prim, struct, array, no_fields, field,
  ToBuffer, then_write,
}
use chlibs.Chrpc.SerialType.Writes.{refused_field}
use chlibs.Chrpc.ChannelFd.{u32_bytes}
use chlibs.Chrpc.SerialValue.{
  InnerValue, num, num_arr, text, text_arr, array_entries, struct_entries, Entries, no_entries,
  entry, count, strlen, c_str, prim_size, chrpc_block_value_to_buffer, str_block, strs_to_buffer,
  entries_to_buffer, with_array_len, chrpc_inner_value_to_buffer, struct_values_to_buffer,
}
use chlibs.Chrpc.SerialValue.Encoding.{
  encode_str, encode_strs, encode_value, encode_entries, AllShort, HasType, AllOf, FieldsOf,
  IsTerminated, AllTerminated, StringsEnd, EntriesEnd,
}

-- A buffer of `n` bytes with room for `bs` receives them; one without is refused, within its bounds.
abbrev pub Puts : List ℕ → ℕ → ToBuffer → Type 0
Puts bs n r =
    (length bs ≤ n → r ≡ (success, bs, some (length bs)))
    × (n < length bs → (r.0 ≡ buffer_too_small) × (length r.1 ≤ n))

-- The same from `pos` on, with the count of the bytes in front.
abbrev pub PutsFrom : List ℕ → ℕ → ℕ → ToBuffer → Type 0
PutsFrom bs n pos r =
    (pos + length bs ≤ n → r ≡ (success, bs, some (pos + length bs)))
    × (n < pos + length bs → (r.0 ≡ buffer_too_small) × (pos + length r.1 ≤ n))

PutsFrom-nothing : (n pos : ℕ) → pos ≤ n → PutsFrom [] n pos (success, [], some pos)
PutsFrom-nothing n pos p =
    (λ h. ap (λ k. (success, [], some k)) (omega arith), λ h. absurd (omega arith))

PutsFrom-start : (bs : List ℕ) (n : ℕ) (r : ToBuffer) → PutsFrom bs n 0 r → Puts bs n r
PutsFrom-start bs n r puts = (
  λ h. puts.0 (omega arith) ∙ ap (λ k. (success, bs, some k)) (omega arith),
  λ h. let refused = puts.1 (omega arith) in (refused.0, omega arith),
)

-- One thing after another.
PutsFrom-then_write :
    (bs cs : List ℕ) (n pos : ℕ) (r : ToBuffer) (rest : ℕ → ToBuffer)
    → pos ≤ n
    → Puts bs (n - pos) r
    → (pos + length bs ≤ n → PutsFrom cs n (pos + length bs) (rest (length bs)))
    → PutsFrom (bs ++ cs) n pos (then_write r rest)
PutsFrom-then_write bs cs n pos r rest p first next =
    let split = length-append bs cs in
    elim (Bool-cases (ltb (n - pos) (length bs))) [
      | inl e ↦
          let short = ltb→lt (n - pos) (length bs) e in
          (λ h. absurd (omega arith), λ h. refused_field r rest n pos p (first.1 short))
      | inr e ↦
          let fits = not-ltb (n - pos) (length bs) e in
          let after = next (omega arith) in
          rw (first.0 fits) (
            λ h. rw (after.0 (omega arith)) (ap (λ k. (success, bs ++ cs, some k)) (omega arith)),
            λ h.
                let refused = after.1 (omega arith) in
                (refused.0, omega (arith, length-append bs (rest (length bs)).1)),
          )
    ]

-- A block without and with its length.
Puts-block :
    (b : List ℕ) (size cells n : ℕ)
    → cells * size ≡ length b
    → Puts b n (
        chrpc_block_value_to_buffer
          record { block = b; cell_size = size; num_cells = cells }
          false
          n)
unfolding chrpc_block_value_to_buffer
Puts-block b size cells n e = rw e (
  λ h. rw (le→not-ltb n (length b) h, take_all b) refl,
  λ h. rw (lt→ltb n (length b) h) (refl, omega arith),
)

Puts-prefixed_block :
    (b : List ℕ) (size cells n : ℕ)
    → cells * size ≡ length b
    → Puts (u32_bytes cells ++ b) n (
        chrpc_block_value_to_buffer
          record { block = b; cell_size = size; num_cells = cells }
          true
          n)
unfolding chrpc_block_value_to_buffer u32_bytes
Puts-prefixed_block b size cells n e = rw e (
  λ h.
      rw (le→not-ltb n 4 (omega arith), le→not-ltb n (4 + length b) (omega arith), take_all b)
        (ap (λ k. (success, u32_bytes cells ++ b, some k)) (omega arith)),
  λ h. elim (Bool-cases (ltb n 4)) [
    | inl few ↦ rw few (refl, omega arith)
    | inr enough ↦
        let le = not-ltb n 4 enough in
        rw (enough, lt→ltb n (4 + length b) (omega arith)) (refl, omega arith)
  ],
)

-- The cells of an array behind their number.
Puts-with_array_len :
    (bs : List ℕ) (cells n : ℕ) (r : ToBuffer)
    → (4 ≤ n → PutsFrom bs n 4 r)
    → Puts (u32_bytes cells ++ bs) n (with_array_len cells n r)
unfolding u32_bytes
Puts-with_array_len bs cells n r puts = (
  λ h.
      rw (le→not-ltb n 4 (omega arith), (puts (omega arith)).0 (omega arith))
        (ap (λ k. (success, u32_bytes cells ++ bs, some k)) (omega arith)),
  λ h. elim (Bool-cases (ltb n 4)) [
    | inl few ↦ rw few (refl, omega arith)
    | inr enough ↦
        let le = not-ltb n 4 enough in
        let refused = (puts le).1 (omega arith) in rw enough (refused.0, omega arith)
  ],
)

-- A terminated string has one cell more than its characters.
pub length-terminated : (s : List ℕ) → IsTerminated s → length s ≡ strlen s + 1
unfolding strlen
length-terminated s e = ap length e ∙ length-append (c_str s) (0 ∷ [])

Puts-str :
    (s : List ℕ) (n : ℕ)
    → IsTerminated s
    → length s < 2 ^ 32
    → Puts (encode_str s) n (chrpc_block_value_to_buffer (str_block s) true n)
unfolding encode_str
Puts-str s n e short =
    let len : length s ≡ (strlen s + 1) % 2 ^ 32 = omega (arith, length-terminated s e) in
    subst (λ k. Puts (u32_bytes k ++ s) n (chrpc_block_value_to_buffer (str_block s) true n))
      (sym len) (Puts-prefixed_block s 1 ((strlen s + 1) % 2 ^ 32) n (omega arith))

Puts-strs :
    (ss : List (List ℕ)) (n pos : ℕ)
    → AllTerminated ss
    → AllShort ss
    → pos ≤ n
    → PutsFrom (encode_strs ss) n pos (strs_to_buffer ss n pos)
unfolding strs_to_buffer encode_strs
Puts-strs [] n pos h short p = PutsFrom-nothing n pos p
Puts-strs (s ∷ ss) n pos h short p =
    PutsFrom-then_write (encode_str s) (encode_strs ss) n pos _ _ p
      (Puts-str s (n - pos) h.0 short.0)
      λ fits. Puts-strs ss n (pos + length (encode_str s)) h.1 short.1 fits

mutual
  unfolding chrpc_inner_value_to_buffer encode_value

  Puts-value :
      (t : ChrpcType) (v : InnerValue) (n : ℕ)
      → HasType t v
      → StringsEnd v
      → Puts (encode_value v) n (chrpc_inner_value_to_buffer t v n)
  Puts-value (prim p) (num b) n h s = rw (h.0) (Puts-block b (prim_size p) 1 n (omega (arith, h.1)))
  Puts-value (prim p) (text b) n h s = rw (h.0) (Puts-str b n s h.1)
  Puts-value (array (prim p)) (num_arr k b) n h s =
      rw (h.0) (Puts-prefixed_block b (prim_size p) k n (mul_comm k (prim_size p) ∙ sym h.2))
  Puts-value (array (prim p)) (text_arr ss) n h s =
      rw (h.0)
        (Puts-with_array_len (encode_strs ss) (length ss) n _ λ le. Puts-strs ss n 4 s h.2 le)
  Puts-value (array (array t)) (array_entries es) n h s =
      Puts-with_array_len (encode_entries es) (count es) n _
        λ le. Puts-entries (array t) es n 4 h.1 s le
  Puts-value (array (struct fs)) (array_entries es) n h s =
      Puts-with_array_len (encode_entries es) (count es) n _
        λ le. Puts-entries (struct fs) es n 4 h.1 s le
  Puts-value (struct fs) (struct_entries es) n h s =
      PutsFrom-start (encode_entries es) n _ (Puts-fields fs es n 0 h s (omega arith))
  Puts-value _ _ n h s = absurd h

  Puts-entries :
      (t : ChrpcType) (es : Entries) (n pos : ℕ)
      → AllOf t es
      → EntriesEnd es
      → pos ≤ n
      → PutsFrom
          (encode_entries es)
          n
          pos
          (entries_to_buffer (chrpc_inner_value_to_buffer t) es n pos)
  Puts-entries t no_entries n pos h s p = PutsFrom-nothing n pos p
  Puts-entries t (entry v es) n pos h s p =
      PutsFrom-then_write (encode_value v) (encode_entries es) n pos _ _ p
        (Puts-value t v (n - pos) h.0 s.0)
        λ fits. Puts-entries t es n (pos + length (encode_value v)) h.1 s.1 fits

  Puts-fields :
      (fs : FieldTypes) (es : Entries) (n pos : ℕ)
      → FieldsOf fs es
      → EntriesEnd es
      → pos ≤ n
      → PutsFrom (encode_entries es) n pos (struct_values_to_buffer fs es n pos)
  Puts-fields no_fields no_entries n pos h s p = PutsFrom-nothing n pos p
  Puts-fields (field t fs) (entry v es) n pos h s p =
      PutsFrom-then_write (encode_value v) (encode_entries es) n pos _ _ p
        (Puts-value t v (n - pos) h.0 s.0)
        λ fits. Puts-fields fs es n (pos + length (encode_value v)) h.1 s.1 fits
  Puts-fields _ _ n pos h s p = absurd h

-- A value of a type whose strings end in their only NUL is put into a buffer with room for its
-- encoding, and its length is stored.
pub chrpc_inner_value_to_buffer-encode :
    (t : ChrpcType) (v : InnerValue) (buf_len : ℕ)
    → HasType t v
    → StringsEnd v
    → length (encode_value v) ≤ buf_len
    → chrpc_inner_value_to_buffer t v buf_len
      ≡ (success, encode_value v, some (length (encode_value v)))
chrpc_inner_value_to_buffer-encode t v buf_len h s = (Puts-value t v buf_len h s).0

-- A buffer shorter than the encoding of a value of its type, whose strings are terminated, is
-- refused, and no more bytes are put than it has.
pub chrpc_inner_value_to_buffer-refused :
    (t : ChrpcType) (v : InnerValue) (buf_len : ℕ)
    → HasType t v
    → StringsEnd v
    → buf_len < length (encode_value v)
    → ((chrpc_inner_value_to_buffer t v buf_len).0 ≡ buffer_too_small)
      × (length (chrpc_inner_value_to_buffer t v buf_len).1 ≤ buf_len)
chrpc_inner_value_to_buffer-refused t v buf_len h s = (Puts-value t v buf_len h s).1
