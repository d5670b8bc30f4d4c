-- ===== src/Chrpc/SerialValue/Begins.antt =====
-- Buffers that begin with given bytes, and what the readers of blocks and strings accept.
use chlibs.Common.{
  ℕ, zero, suc, ◌+◌, ◌-◌, ◌*◌, ◌^◌, ◌≤◌, ◌<◌, ◌≡◌, refl, sym, subst, ap, ap₂, ◌∙◌, List, [], ◌∷◌,
  ◌++◌, arith, length, length-append, append_assoc, take, drop, drop-length_append, length-take,
  length-drop, take-append-drop, inl, inr, Bool-cases, ltb, not-ltb,
}
use chlibs.Chrpc.SerialType.{Prim, ChrpcType, prim, FromBuffer, str}
use chlibs.Chrpc.SerialType.Reads.{Ensures, read, rejected, Ensures-then_read}
use chlibs.Chrpc.ChannelFd.{u32_bytes}
use chlibs.Chrpc.ChannelFd.Bytes.{length-u32_bytes}
use chlibs.Chrpc.SerialValue.{count, chrpc_blockable_type_cell_size}
use chlibs.Chrpc.SerialValue.Reading.{u32_at, chrpc_block_array_from_buffer, strs_from_buffer}
use chlibs.Chrpc.SerialValue.Encoding.{encode_str, encode_strs, AllShort, AllBytes}

pub AllBytes-drop : (n : ℕ) (buf : List ℕ) → AllBytes buf → AllBytes (drop n buf)
AllBytes-drop zero buf h = h
AllBytes-drop (suc n) [] h = h
AllBytes-drop (suc n) (c ∷ cs) h = AllBytes-drop n cs h.1

-- The four bytes at the front are those of the number read from them.
pub u32_at_exact :
    (buf : List ℕ)
    → AllBytes buf
    → 4 ≤ length buf
    → (u32_at buf < 2 ^ 32) × (buf ≡ u32_bytes (u32_at buf) ++ drop 4 buf)
unfolding u32_at u32_bytes
u32_at_exact [] h le = absurd (omega arith)
u32_at_exact (a ∷ []) h le = absurd (omega arith)
u32_at_exact (a ∷ b ∷ []) h le = absurd (omega arith)
u32_at_exact (a ∷ b ∷ c ∷ []) h le = absurd (omega arith)
u32_at_exact (a ∷ b ∷ c ∷ d ∷ rest) (ha, (hb, (hc, (hd, h)))) le =
    (omega arith, four (omega arith) (omega arith) (omega arith) (omega arith))
  where
    four :
        {a' b' c' d' : ℕ}
        → a ≡ a'
        → b ≡ b'
        → c ≡ c'
        → d ≡ d'
        → a ∷ b ∷ c ∷ d ∷ rest ≡ a' ∷ b' ∷ c' ∷ d' ∷ rest
    four e f g i = rw (e, f, g, i) refl

-- The buffer begins with `bs`, of `k` bytes, and `P` holds.
abbrev pub Begins : List ℕ → List ℕ → ℕ → Type 0 → Type 0
Begins buf bs k P = (rest : List ℕ) × (buf ≡ bs ++ rest) × (k ≡ length bs) × P

abbrev pub BlockRead : ChrpcType → List ℕ → ℕ × List ℕ → ℕ → Type 0
BlockRead t buf (n, b) k =
    Begins buf (u32_bytes n ++ b) k
      ((n < 2 ^ 32) × (length b ≡ chrpc_blockable_type_cell_size t * n))

pub exact_block :
    (t : ChrpcType) (buf : List ℕ)
    → AllBytes buf
    → Ensures (BlockRead t buf) (chrpc_block_array_from_buffer t buf)
unfolding chrpc_block_array_from_buffer
exact_block t buf h =
    let size = chrpc_blockable_type_cell_size t * u32_at buf in
    elim (Bool-cases (ltb (length buf) 4)) [
      | inl e ↦ rw e rejected
      | inr e ↦ elim (Bool-cases (ltb (length buf - 4) size)) [
        | inl f ↦ rw (e, f) rejected
        | inr f ↦
            let (small, front) = u32_at_exact buf h (not-ltb _ _ e) in
            let after = drop 4 buf in
            let room = not-ltb _ _ f in
            let len : length (take size after) ≡ size =
              omega (arith, length-take size after, length-drop 4 buf) in
            rw (e, f)
              (read (
                drop size after,
                front
                    ∙ ap (λ r. u32_bytes (u32_at buf) ++ r) (sym (take-append-drop size after))
                    ∙ sym
                        (append_assoc (u32_bytes (u32_at buf)) (take size after) (drop size after)),
                omega (
                  arith,
                  length-u32_bytes (u32_at buf),
                  length-append (u32_bytes (u32_at buf)) (take size after),
                ),
                (small, len),
              ))
      ]
    ]

-- The same from `pos` on, with the count of the bytes in front.
abbrev pub BeginsFrom : List ℕ → List ℕ → ℕ → ℕ → Type 0 → Type 0
BeginsFrom buf bs pos total P = (rest : List ℕ) × (buf ≡ bs ++ rest) × (total ≡ pos + length bs) × P

-- One thing after another.
pub Begins-join :
    (buf bs cs : List ℕ) (k pos total : ℕ) {P Q R : Type 0}
    → Begins buf bs k P
    → BeginsFrom (drop k buf) cs (pos + k) total Q
    → (P → Q → R)
    → BeginsFrom buf (bs ++ cs) pos total R
Begins-join buf bs cs k pos total (rest, e, len, p) (rest', e', len', q) both =
    let dropped : drop k buf ≡ rest = ap₂ drop len e ∙ drop-length_append bs rest in
    (
      rest',
      e ∙ ap (λ r. bs ++ r) (sym dropped ∙ e') ∙ sym (append_assoc bs cs rest'),
      omega (arith, length-append bs cs),
      both p q,
    )

-- As many cells as the number in front of them says.
pub Begins-counted :
    (buf cs : List ℕ) (n total : ℕ) {Q R : Type 0}
    → AllBytes buf
    → 4 ≤ length buf
    → BeginsFrom (drop 4 buf) cs 4 total ((n ≡ u32_at buf) × Q)
    → (n < 2 ^ 32 → Q → R)
    → Begins buf (u32_bytes n ++ cs) total R
Begins-counted buf cs n total h le (rest, e, len, (count, q)) both =
    let (small, front) = u32_at_exact buf h le in
    let four = u32_bytes n in
    (
      rest,
      front
          ∙ ap (λ m. u32_bytes m ++ drop 4 buf) (sym count)
          ∙ ap (λ r. four ++ r) e
          ∙ sym (append_assoc four cs rest),
      omega (arith, length-u32_bytes n, length-append four cs),
      both (omega arith) q,
    )

pub Ensures-weaken :
    {A : Type 0} {P Q : A → ℕ → Type 0} {r : FromBuffer A}
    → Ensures P r
    → ((a : A) (n : ℕ) → P a n → Q a n)
    → Ensures Q r
Ensures-weaken (read {a} {n} h) f = read (f a n h)
Ensures-weaken rejected f = rejected

abbrev pub StrRead : List ℕ → ℕ × List ℕ → ℕ → Type 0
StrRead buf arr k = Begins buf (encode_str arr.1) k (length arr.1 < 2 ^ 32)

pub exact_str :
    (buf : List ℕ)
    → AllBytes buf
    → Ensures (StrRead buf) (chrpc_block_array_from_buffer (prim str) buf)
unfolding encode_str chrpc_blockable_type_cell_size
exact_str buf h = Ensures-weaken (exact_block (prim str) buf h) λ arr k (rest, e, len, both).
    let same : arr.0 ≡ length arr.1 = omega (arith, both.1) in
    (
      rest,
      subst (λ n. buf ≡ (u32_bytes n ++ arr.1) ++ rest) same e,
      subst (λ n. k ≡ length (u32_bytes n ++ arr.1)) same len,
      omega (arith, both.0),
    )

abbrev pub StrsRead : ℕ → List ℕ → ℕ → List (List ℕ) → ℕ → Type 0
StrsRead n rem pos ss total =
    BeginsFrom rem (encode_strs ss) pos total ((length ss ≡ n) × AllShort ss)

pub exact_strs :
    (n : ℕ) (rem : List ℕ) (pos : ℕ)
    → AllBytes rem
    → Ensures (StrsRead n rem pos) (strs_from_buffer n rem pos)
unfolding strs_from_buffer encode_strs
exact_strs zero rem pos h = read (rem, refl, omega arith, (refl, tt))
exact_strs (suc n) rem pos h = Ensures-then_read (exact_str rem h) λ arr k first.
    Ensures-then_read (exact_strs n (drop k rem) (pos + k) (AllBytes-drop k rem h)) λ ss total more.
      read (
        Begins-join rem (encode_str arr.1) (encode_strs ss) k pos total first more
          λ short (count, shorts). (ap suc count, (short, shorts)))
