-- ===== src/Chutil/HashMap/Tables.antt =====
-- The table of a hash map: each chain stands at the index its keys lead to, so a key is looked up
-- in one chain as in all of them.
use mathlib.Core.List.{flatten}
use chlibs.Common.{
  ℕ, zero, suc, ◌+◌, ◌%◌, ◌<◌, ◌≡◌, ◌≢◌, ◌↔◌, refl, sym, ◌∙◌, ap, subst, Bool, true, Option, none,
  some, List, [], ◌∷◌, ◌++◌, length, length-append, set, replicate, dec_lt, if◌then◌else◌,
  Bool-cases, inl, inr, arith, ◌==◌, ==→eq, not-==→ne,
}
use chlibs.Chutil.HashMap.{Cell, hits, chain_at, find_value}
use chlibs.Chutil.HashMap.Chains.{find, find-cons, ChainOk, eq_func-ne}

abbrev pub or_else : {A : Type 0} → Option A → Option A → Option A
or_else none y = y
or_else (some x) y = some x

pub or_else-none : {A : Type 0} (x : Option A) → or_else x none ≡ x
or_else-none none = refl
or_else-none (some x) = refl

chain_at-set_self :
    {A : Type 0} (xs : List (List A)) (i : ℕ) (c : List A)
    → i < length xs
    → chain_at (set xs i c) i ≡ c
unfolding chain_at
chain_at-set_self [] i c h = absurd (omega arith)
chain_at-set_self (x ∷ xs) zero c h = refl
chain_at-set_self (x ∷ xs) (suc i) c h = chain_at-set_self xs i c (omega arith)

chain_at-set_ne :
    {A : Type 0} (xs : List (List A)) (i j : ℕ) (c : List A)
    → i ≢ j
    → chain_at (set xs i c) j ≡ chain_at xs j
unfolding chain_at
chain_at-set_ne [] i j c ne = refl
chain_at-set_ne (x ∷ xs) zero zero c ne = absurd (ne refl)
chain_at-set_ne (x ∷ xs) zero (suc j) c ne = refl
chain_at-set_ne (x ∷ xs) (suc i) zero c ne = refl
chain_at-set_ne (x ∷ xs) (suc i) (suc j) c ne = chain_at-set_ne xs i j c (λ e. ne (ap suc e))

-- A write to a chain changes the number of headers by the difference.
pub count-set :
    {A : Type 0} (xs : List (List A)) (i : ℕ) (c : List A)
    → i < length xs
    → length (flatten (set xs i c)) + length (chain_at xs i) ≡ length (flatten xs) + length c
unfolding chain_at flatten
count-set [] i c h = absurd (omega arith)
count-set (x ∷ xs) zero c h =
    omega (arith, length-append c (flatten xs), length-append x (flatten xs))
count-set (x ∷ xs) (suc i) c h = omega (
  arith,
  length-append x (flatten (set xs i c)),
  length-append x (flatten xs),
  count-set xs i c (omega arith),
)

pub count-replicate : {A : Type 0} (n : ℕ) → flatten {A = A} (replicate n []) ≡ []
unfolding flatten
count-replicate zero = refl
count-replicate (suc n) = count-replicate n

module _ {K V : Type 0} (hash_func : K → ℕ) (eq_func : K → K → Bool)
    (eq_law : (a b : K) → (eq_func a b ≡ true) ↔ (a ≡ b)) where
  -- The chains from index `i` on, of a table of `cap` chains.
  abbrev pub TableOk : (cap i : ℕ) → List (List (Cell K V)) → Type 0
  TableOk cap i [] = Unit {0}
  TableOk cap i (c ∷ cs) = ChainOk hash_func eq_func eq_law cap i c × TableOk cap (suc i) cs

  -- the lookup of `hm_get` in a table of `cap` chains
  abbrev pub look : (cap : ℕ) → List (List (Cell K V)) → K → Option V
  look cap chains k = find hash_func eq_func eq_law k (chain_at chains (hash_func k % cap))

  pub ChainOk-chain_at :
      (cap i j : ℕ) (chains : List (List (Cell K V)))
      → TableOk cap i chains
      → ChainOk hash_func eq_func eq_law cap (i + j) (chain_at chains j)
  unfolding chain_at
  ChainOk-chain_at cap i j [] ok = tt
  ChainOk-chain_at cap i zero (c ∷ cs) ok =
      subst (λ n. ChainOk hash_func eq_func eq_law cap n c) (omega arith) ok.0
  ChainOk-chain_at cap i (suc j) (c ∷ cs) ok =
      subst (λ n. ChainOk hash_func eq_func eq_law cap n (chain_at cs j)) (omega arith)
        (ChainOk-chain_at cap (suc i) j cs ok.1)

  pub TableOk-set :
      (cap i j : ℕ) (chains : List (List (Cell K V))) (c : List (Cell K V))
      → TableOk cap i chains
      → ChainOk hash_func eq_func eq_law cap (i + j) c
      → TableOk cap i (set chains j c)
  TableOk-set cap i j [] c ok new = tt
  TableOk-set cap i zero (x ∷ xs) c ok new =
      (subst (λ n. ChainOk hash_func eq_func eq_law cap n c) (omega arith) new, ok.1)
  TableOk-set cap i (suc j) (x ∷ xs) c ok new = (
    ok.0,
    TableOk-set cap (suc i) j xs c ok.1
        (subst (λ n. ChainOk hash_func eq_func eq_law cap n c) (omega arith) new),
  )

  -- What a write to a chain does to a lookup.
  pub look-set :
      (cap ind : ℕ) (chains : List (List (Cell K V))) (c : List (Cell K V)) (k : K)
      → ind < length chains
      → look cap (set chains ind c) k ≡ (
          if hash_func k % cap == ind then find hash_func eq_func eq_law k c else look cap chains k)
  look-set cap ind chains c k h = elim (Bool-cases (hash_func k % cap == ind)) [
    | inl e ↦ rw e (
        ap (λ j. find hash_func eq_func eq_law k (chain_at (set chains ind c) j)) (==→eq _ _ e)
        ∙ ap (find hash_func eq_func eq_law k) (chain_at-set_self chains ind c h))
    | inr e ↦ rw e (
        ap (find hash_func eq_func eq_law k)
          (chain_at-set_ne chains ind (hash_func k % cap) c (λ p. not-==→ne _ _ e (sym p))))
  ]

  pub find-append :
      (k : K) (xs ys : List (Cell K V))
      → find hash_func eq_func eq_law k (xs ++ ys)
        ≡ or_else (find hash_func eq_func eq_law k xs) (find hash_func eq_func eq_law k ys)
  unfolding find_value
  find-append k [] ys = refl
  find-append k (x ∷ xs) ys = elim (Bool-cases (hits hash_func eq_func (hash_func k) k x)) [
    | inl e ↦ rw e refl
    | inr e ↦ rw e (find-append k xs ys)
  ]

  -- A key is not in a chain that its hash value does not lead to.
  find-elsewhere :
      (cap i : ℕ) (k : K) (chain : List (Cell K V))
      → ChainOk hash_func eq_func eq_law cap i chain
      → hash_func k % cap ≢ i
      → find hash_func eq_func eq_law k chain ≡ none
  unfolding find_value
  find-elsewhere cap i k [] ok ne = refl
  find-elsewhere cap i k (c ∷ cs) (h, at, fresh, ok) ne =
      find-cons hash_func eq_func eq_law k c cs h
      ∙ rw
          (eq_func-ne eq_func eq_law c.key k
            (λ e. ne (ap (λ a. hash_func a % cap) (sym e) ∙ ap (λ t. t % cap) (sym h) ∙ at)))
          (find-elsewhere cap i k cs ok ne)

  find-later :
      (cap i : ℕ) (k : K) (chains : List (List (Cell K V)))
      → TableOk cap i chains
      → hash_func k % cap < i
      → find hash_func eq_func eq_law k (flatten chains) ≡ none
  unfolding find_value flatten
  find-later cap i k [] ok lt = refl
  find-later cap i k (c ∷ cs) ok lt =
      find-append k c (flatten cs)
      ∙ rw (find-elsewhere cap i k c ok.0 (omega arith))
          (find-later cap (suc i) k cs ok.1 (omega arith))

  -- A key of one chain is in no later chain.
  pub find-apart :
      (cap i : ℕ) (k : K) (c : List (Cell K V)) (cs : List (List (Cell K V)))
      → TableOk cap i (c ∷ cs)
      → find hash_func eq_func eq_law k c ≢ none
      → find hash_func eq_func eq_law k (flatten cs) ≡ none
  find-apart cap i k c cs ok e = elim (dec_lt (hash_func k % cap) (suc i)) [
    | yes lt ↦ find-later cap (suc i) k cs ok.1 lt
    | no ge ↦ absurd (e (find-elsewhere cap i k c ok.0 (omega arith)))
  ]

  find-flatten_from :
      (cap i j : ℕ) (k : K) (chains : List (List (Cell K V)))
      → TableOk cap i chains
      → hash_func k % cap ≡ i + j
      → find hash_func eq_func eq_law k (flatten chains)
        ≡ find hash_func eq_func eq_law k (chain_at chains j)
  unfolding find_value flatten chain_at
  find-flatten_from cap i j k [] ok e = refl
  find-flatten_from cap i zero k (c ∷ cs) ok e =
      find-append k c (flatten cs)
      ∙ rw (find-later cap (suc i) k cs ok.1 (omega arith)) (or_else-none _)
  find-flatten_from cap i (suc j) k (c ∷ cs) ok e =
      find-append k c (flatten cs)
      ∙ rw (find-elsewhere cap i k c ok.0 (omega arith))
          (find-flatten_from cap (suc i) j k cs ok.1 (omega arith))

  -- A lookup finds a key wherever it is in the table.
  pub find-flatten :
      (cap : ℕ) (k : K) (chains : List (List (Cell K V)))
      → TableOk cap 0 chains
      → find hash_func eq_func eq_law k (flatten chains) ≡ look cap chains k
  find-flatten cap k chains ok =
      find-flatten_from cap 0 (hash_func k % cap) k chains ok (omega arith)

-- A table of empty chains.
pub TableOk-replicate :
    {K : Type 0} (V : Type 0) (hash_func : K → ℕ) (eq_func : K → K → Bool)
    (eq_law : (a b : K) → (eq_func a b ≡ true) ↔ (a ≡ b)) (size i n : ℕ)
    → TableOk {V = V} hash_func eq_func eq_law size i (replicate n [])
TableOk-replicate V hash_func eq_func eq_law size i zero = tt
TableOk-replicate V hash_func eq_func eq_law size i (suc n) =
    (tt, TableOk-replicate V hash_func eq_func eq_law size (suc i) n)
