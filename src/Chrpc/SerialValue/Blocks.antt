-- ===== src/Chrpc/SerialValue/Blocks.antt =====
-- The comparison of blocks, strings and arrays of strings decides equality.
use chlibs.Common.{
  ℕ, ◌+◌, ◌*◌, ◌%◌, ◌^◌, ◌<◌, ◌≡◌, ◌↔◌, refl, sym, ap, ap₂, ◌∙◌, Bool, true, false, List, [], ◌∷◌,
  ◌++◌, arith, length, take, take_all, ◌==◌, ==→eq, eq→==, if◌then◌else◌, inl, inr, Bool-cases,
}
use chlibs.Chrpc.SerialType.{Prim}
use chlibs.Chrpc.SerialType.Equality.{and_true}
use chlibs.Chrpc.SerialValue.{num_arr, text, c_str, strlen, prim_size}
use chlibs.Chrpc.SerialValue.Encoding.{IsTerminated, AllTerminated}
use chlibs.Chrpc.SerialValue.Writes.{length-terminated}
use chlibs.Chrpc.SerialValue.Comparing.{bytes_equal, blocks_equal, strs_equal}

pub bytes_equal_iff : (bs cs : List ℕ) → (bytes_equal bs cs ≡ true) ↔ (bs ≡ cs)
unfolding bytes_equal
bytes_equal_iff [] [] = (λ e. refl, λ e. refl)
bytes_equal_iff [] (c ∷ cs) = (λ e. cc, λ e. cc)
bytes_equal_iff (b ∷ bs) [] = (λ e. cc, λ e. cc)
bytes_equal_iff (b ∷ bs) (c ∷ cs) = (
  λ e.
      let (h, r) = and_true (b == c) _ e in
      ap₂ (λ x xs. x ∷ xs) (==→eq b c h) ((bytes_equal_iff bs cs).0 r),
  λ e.
      let h : b ≡ c = cc in
      let r : bs ≡ cs = cc in rw (eq→== b c h, (bytes_equal_iff bs cs).1 r) refl,
)

-- Blocks of their own sizes.
pub blocks_equal_iff :
    (b c : List ℕ) (size n m : ℕ)
    → length b ≡ size * n
    → length c ≡ size * m
    → (blocks_equal
          record { block = b; cell_size = size; num_cells = n }
          record { block = c; cell_size = size; num_cells = m }
        ≡ true)
      ↔ ((n ≡ m) × (b ≡ c))
unfolding blocks_equal
blocks_equal_iff b c size n m hb hc = elim (Bool-cases (n == m)) [
  | inl e ↦
      let same = ==→eq n m e in
      rw (e, sym hb)
        ((
          λ h. (
            same,
            sym (take_all b)
                ∙ (bytes_equal_iff _ _).0 h
                ∙ ap (λ k. take k c) (hb ∙ ap (λ k. size * k) same ∙ sym hc)
                ∙ take_all c,
          ),
          λ h. (bytes_equal_iff _ _).1 (ap (take (length b)) h.1),
        ))
  | inr e ↦ rw e ((λ h. cc, λ h. let t = eq→== n m h.0 in cc))
]

-- Terminated strings, by their characters.
terminated_equal : (s r : List ℕ) → IsTerminated s → IsTerminated r → (c_str s ≡ c_str r) → s ≡ r
terminated_equal s r hs hr e = hs ∙ ap (λ c. c ++ (0 ∷ [])) e ∙ sym hr

pub strs_equal_iff :
    (ss rs : List (List ℕ))
    → AllTerminated ss
    → AllTerminated rs
    → length ss ≡ length rs
    → (strs_equal ss rs ≡ true) ↔ (ss ≡ rs)
unfolding strs_equal
strs_equal_iff [] [] hs hr e = (λ h. refl, λ h. refl)
strs_equal_iff [] (r ∷ rs) hs hr e = absurd (omega arith)
strs_equal_iff (s ∷ ss) [] hs hr e = absurd (omega arith)
strs_equal_iff (s ∷ ss) (r ∷ rs) hs hr e =
    let more = strs_equal_iff ss rs hs.1 hr.1 (omega arith) in
    (
      λ h.
          let (first, rest) = and_true (bytes_equal (c_str s) (c_str r)) _ h in
          ap₂ (λ x xs. x ∷ xs) (terminated_equal s r hs.0 hr.0 ((bytes_equal_iff _ _).0 first))
            (more.0 rest),
      λ h.
          let first : s ≡ r = cc in
          let rest : ss ≡ rs = cc in
          rw ((bytes_equal_iff _ _).1 (ap c_str first), more.1 rest) refl,
    )

-- A guard in front of a test.
pub guarded_iff :
    (n m : ℕ) (b : Bool) {P : Type 0}
    → (n ≡ m → (b ≡ true) ↔ P)
    → (P → n ≡ m)
    → ((if n == m then b else false) ≡ true) ↔ P
guarded_iff n m b test same = elim (Bool-cases (n == m)) [
  | inl e ↦ rw e (test (==→eq n m e))
  | inr e ↦ rw e ((λ h. cc, λ h. let s = same h in let t = eq→== n m s in cc))
]

-- Through a constructor.
module _ {A B : Type 0} {b : Bool} {x y : A} where
  pub under : (f : A → B) → (f x ≡ f y → x ≡ y) → (b ≡ true) ↔ (x ≡ y) → (b ≡ true) ↔ (f x ≡ f y)
  under f inj h = (λ e. ap f (h.0 e), λ e. h.1 (inj e))

pub numeric_blocks :
    (p : Prim) (b c : List ℕ) (n m : ℕ)
    → length b ≡ prim_size p * n
    → length c ≡ prim_size p * m
    → (blocks_equal
          record { block = b; cell_size = prim_size p; num_cells = n }
          record { block = c; cell_size = prim_size p; num_cells = m }
        ≡ true)
      ↔ (num_arr n b ≡ num_arr m c)
numeric_blocks p b c n m hb hc =
    let h = blocks_equal_iff b c (prim_size p) n m hb hc in
    (
      λ e. let (same, eq) = h.0 e in ap₂ num_arr same eq,
      λ e. let same : n ≡ m = cc in let eq : b ≡ c = cc in h.1 (same, eq),
    )

pub string_blocks :
    (s r : List ℕ)
    → length s < 2 ^ 32
    → length r < 2 ^ 32
    → IsTerminated s
    → IsTerminated r
    → (blocks_equal
          record { block = s; cell_size = 1; num_cells = (strlen s + 1) % 2 ^ 32 }
          record { block = r; cell_size = 1; num_cells = (strlen r + 1) % 2 ^ 32 }
        ≡ true)
      ↔ (text s ≡ text r)
string_blocks s r hs hr es er =
    let ns : length s ≡ 1 * ((strlen s + 1) % 2 ^ 32) = omega (arith, length-terminated s es) in
    let nr : length r ≡ 1 * ((strlen r + 1) % 2 ^ 32) = omega (arith, length-terminated r er) in
    let h = blocks_equal_iff s r 1 _ _ ns nr in
    (
      λ e. ap text (h.0 e).1,
      λ e. let eq : s ≡ r = cc in h.1 (ap (λ x. (strlen x + 1) % 2 ^ 32) eq, eq),
    )
