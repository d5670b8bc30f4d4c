-- ===== src/Chrpc/SerialType/Reads.antt =====
-- What `chrpc_type_from_buffer` reads: exactly the encodings of well-formed types.
use chlibs.Common.{
  ℕ, zero, suc, ◌+◌, ◌≤◌, ◌<◌, ◌≡◌, ◌≢◌, ◌↔◌, refl, sym, subst, subst₂, ◌∙◌, ap, ap₂, some, List,
  [], ◌∷◌, ◌++◌, arith, length, length-append, append_assoc, drop, drop-length_append, ltb, ◌==◌,
  le→not-ltb, inl, inr, Bool-cases, not-ltb, Option-cases, ==→eq, length-drop,
}
use chlibs.Chrpc.SerialType.{
  Status, success, chrpc_type_to_buffer, ChrpcType, FieldTypes, prim, struct, array, no_fields,
  field, prim_tid, struct_tid, array_tid, byte, max_struct_fields, num_fields,
  new_chrpc_primitive_type_from_id, Prim, FromBuffer, ok, failed, out_of_fuel, then_read,
  struct_fields_from_buffer, struct_type_from_buffer, type_from_buffer, chrpc_type_from_buffer,
}
use chlibs.Chrpc.SerialType.Encoding.{
  encode_type, encode_fields, length-encode_field, IsWellFormed, AllWellFormed,
}
use chlibs.Chrpc.SerialType.Writes.{chrpc_type_to_buffer-encode}

mutual
  unfolding type_from_buffer encode_type

  reads_type :
      (t : ChrpcType) (fuel : ℕ) (rest : List ℕ)
      → IsWellFormed t
      → length (encode_type t) < fuel
      → type_from_buffer fuel (encode_type t ++ rest) ≡ ok t (length (encode_type t))
  reads_type t zero rest w h = absurd (omega arith)
  reads_type (prim byte) (suc fuel) rest w h = refl
  reads_type (prim _) (suc fuel) rest w h = refl
  reads_type (array t) (suc fuel) rest w h =
      rw (reads_type t fuel rest w (omega arith)) (ap (ok (array t)) (omega arith))
  reads_type (struct fs) (suc fuel) rest w h =
      rw
        (
          le→not-ltb (num_fields fs) 1 w.0,
          le→not-ltb max_struct_fields (num_fields fs) w.1,
          reads_fields fs fuel rest 2 w.2 (omega arith),
        )
        (ap (ok (struct fs)) (omega arith))

  reads_fields :
      (fs : FieldTypes) (fuel : ℕ) (rest : List ℕ) (pos : ℕ)
      → AllWellFormed fs
      → length (encode_fields fs) < fuel
      → struct_fields_from_buffer
          (type_from_buffer fuel)
          (num_fields fs)
          (encode_fields fs ++ rest)
          pos
        ≡ ok fs (pos + length (encode_fields fs))
  reads_fields no_fields fuel rest pos w h = ap (ok no_fields) (omega arith)
  reads_fields (field t fs) fuel rest pos w h =
      let split = length-encode_field t fs in
      rw
        (
          append_assoc (encode_type t) (encode_fields fs) rest,
          reads_type t fuel (encode_fields fs ++ rest) w.0 (omega arith),
          drop-length_append (encode_type t) (encode_fields fs ++ rest),
          reads_fields fs fuel rest (pos + length (encode_type t)) w.1 (omega arith),
        )
        (ap (ok (field t fs)) (omega arith))

-- A run kept within its fuel, and `P` holds of what it read if it read something.
pub data Ensures {ℓ κ} {A : Type ℓ} (P : A → ℕ → Type κ) : FromBuffer A → Type (ℓ ⊔ κ) where
  read : {a : A} {n : ℕ} → P a n → Ensures P (ok a n)
  rejected : {st : Status} → Ensures P (failed st)

module _ {ℓ κ} {A : Type ℓ} {P : A → ℕ → Type κ} where
  pub Ensures-ok : {r : FromBuffer A} {a : A} {n : ℕ} → Ensures P r → r ≡ ok a n → P a n
  Ensures-ok (read {a = b} {n = m} h) e = subst₂ P (cc) (cc) h
  Ensures-ok rejected e = cc

  Ensures-out_of_fuel : {r : FromBuffer A} → Ensures P r → r ≢ out_of_fuel
  Ensures-out_of_fuel (read h) = cc
  Ensures-out_of_fuel rejected = cc

  pub Ensures-then_read {ℓ' κ'} :
      {B : Type ℓ'} {Q : B → ℕ → Type κ'} {r : FromBuffer A} {f : A → ℕ → FromBuffer B}
      → Ensures P r
      → ((a : A) (n : ℕ) → P a n → Ensures Q (f a n))
      → Ensures Q (then_read r f)
  Ensures-then_read (read {a} {n} h) k = k a n h
  Ensures-then_read rejected k = rejected

-- The buffer begins with the encoding of `t`, of `k` bytes.
abbrev TypeRead : List ℕ → ChrpcType → ℕ → Type 0
TypeRead buf t k =
    (rest : List ℕ) × (buf ≡ encode_type t ++ rest) × (k ≡ length (encode_type t)) × IsWellFormed t

abbrev FieldsRead : ℕ → List ℕ → ℕ → FieldTypes → ℕ → Type 0
FieldsRead n rem pos fs total =
    (rest : List ℕ) × (rem ≡ encode_fields fs ++ rest)
    × (total ≡ pos + length (encode_fields fs))
    × (num_fields fs ≡ n)
    × AllWellFormed fs

sound_fields :
    (call : List ℕ → FromBuffer ChrpcType) (m : ℕ)
    → ((buf : List ℕ) → length buf < m → Ensures (TypeRead buf) (call buf))
    → (n : ℕ) (rem : List ℕ) (pos : ℕ) → length rem < m
    → Ensures (FieldsRead n rem pos) (struct_fields_from_buffer call n rem pos)
unfolding struct_fields_from_buffer encode_type
sound_fields call m h zero rem pos lt = read (rem, refl, omega arith, refl, tt)
sound_fields call m h (suc n) rem pos lt = Ensures-then_read (h rem lt) λ t k (rest, e, len, w).
    let dropped : drop k rem ≡ rest = ap₂ drop len e ∙ drop-length_append (encode_type t) rest in
    Ensures-then_read
      (sound_fields call m h n (drop k rem) (pos + k) (omega (arith, length-drop k rem)))
      λ fs total (rest', e', len', count, w'). read (
        rest',
        e
            ∙ ap (λ r. encode_type t ++ r) (sym dropped ∙ e')
            ∙ sym (append_assoc (encode_type t) (encode_fields fs) rest'),
        omega (arith, length-encode_field t fs),
        ap suc count,
        (w, w'),
      )

from_id_sound :
    (tid : ℕ) (p : Prim) → new_chrpc_primitive_type_from_id tid ≡ some p → tid ≡ prim_tid p
unfolding new_chrpc_primitive_type_from_id
from_id_sound tid p e = ground arith

sound_struct :
    (call : List ℕ → FromBuffer ChrpcType) (m : ℕ)
    → ((buf : List ℕ) → length buf < m → Ensures (TypeRead buf) (call buf))
    → (body : List ℕ) → length body ≤ m
    → Ensures (TypeRead (struct_tid ∷ body)) (struct_type_from_buffer call body)
unfolding struct_type_from_buffer encode_type
sound_struct call m h [] lt = rejected
sound_struct call m h (n ∷ body) lt = elim (Bool-cases (ltb n 1)) [
  | inl e ↦ rw e rejected
  | inr few ↦ rw few (elim (Bool-cases (ltb max_struct_fields n)) [
    | inl e ↦ rw e rejected
    | inr many ↦ rw many (
        Ensures-then_read (sound_fields call m h n body 2 lt) λ fs total (rest, e, len, count, w).
          read (
            rest,
            ap₂ (λ c r. struct_tid ∷ c ∷ r) (sym count) e,
            omega arith,
            (omega (arith, not-ltb n 1 few), omega (arith, not-ltb max_struct_fields n many), w),
          ))
  ])
]

sound_type :
    (fuel : ℕ) (buf : List ℕ)
    → length buf < fuel
    → Ensures (TypeRead buf) (type_from_buffer fuel buf)
unfolding type_from_buffer encode_type
sound_type zero buf lt = absurd (omega arith)
sound_type (suc fuel) [] lt = rejected
sound_type (suc fuel) (tid ∷ rest) lt = elim (Option-cases (new_chrpc_primitive_type_from_id tid)) [
  | inr (p, e) ↦
      rw (e, type_from_buffer) (read (rest, ap (λ c. c ∷ rest) (from_id_sound tid p e), refl, tt))
  | inl e ↦ elim (Bool-cases (tid == array_tid)) [
    | inl arr ↦
        rw (e, type_from_buffer, arr)
          (Ensures-then_read (sound_type fuel rest (omega arith)) λ t k (tail, e, len, w).
            read (tail, ap₂ (λ c r. c ∷ r) (==→eq tid array_tid arr) e, omega arith, w))
    | inr other ↦ elim (Bool-cases (tid == struct_tid)) [
      | inl str ↦
          rw (e, type_from_buffer, other, str)
            (subst
              (λ c.
                Ensures (TypeRead (c ∷ rest))
                  (struct_type_from_buffer (type_from_buffer fuel) rest))
              (sym (==→eq tid struct_tid str))
              (sound_struct (type_from_buffer fuel) fuel (λ buf h. sound_type fuel buf h) rest
                (omega arith)))
      | inr neither ↦ rw (e, type_from_buffer, other, neither) rejected
    ]
  ]
]

-- A buffer is read as a type exactly if it begins with the encoding of that type and every struct
-- in it has 1 to 64 fields, 64 being the limit that the code sets; the count is the length of the
-- encoding.
pub chrpc_type_from_buffer_iff :
    (buf : List ℕ) (t : ChrpcType) (k : ℕ)
    → (chrpc_type_from_buffer buf ≡ ok t k) ↔ (
        (rest : List ℕ) × (buf ≡ encode_type t ++ rest)
        × (k ≡ length (encode_type t))
        × IsWellFormed t)
unfolding chrpc_type_from_buffer
chrpc_type_from_buffer_iff buf t k = (
  λ e. Ensures-ok (sound_type (suc (length buf)) buf (omega arith)) e,
  λ (rest, e, len, w).
      rw (e, len)
        (reads_type t (suc (length (encode_type t ++ rest))) rest w
          (omega (arith, length-append (encode_type t) rest))),
)

-- The reading of a type ends for every buffer, with a type or a status.
pub chrpc_type_from_buffer-ne-out_of_fuel :
    (buf : List ℕ) → chrpc_type_from_buffer buf ≢ out_of_fuel
unfolding chrpc_type_from_buffer
chrpc_type_from_buffer-ne-out_of_fuel buf =
    Ensures-out_of_fuel (sound_type (suc (length buf)) buf (omega arith))

-- A type whose structs have 1 to 64 fields, written into a buffer with room for it, is read back
-- whatever bytes follow, and both count the same bytes.
pub from_buffer-to_buffer :
    (t : ChrpcType) (buf_len : ℕ) (rest : List ℕ)
    → IsWellFormed t
    → length (encode_type t) ≤ buf_len
    → let (st, bytes, written) = chrpc_type_to_buffer t buf_len in
      (st ≡ success)
      × (chrpc_type_from_buffer (bytes ++ rest) ≡ ok t (length bytes))
      × (written ≡ some (length bytes))
from_buffer-to_buffer t buf_len rest w h =
    rw (chrpc_type_to_buffer-encode t buf_len h)
      (refl, (chrpc_type_from_buffer_iff (encode_type t ++ rest) t _).1 (rest, refl, refl, w), refl)
