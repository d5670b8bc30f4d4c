-- ===== src/Chutil/HashMap/Resize.antt =====
-- `hm_check_resize` moves every header to the larger table, and no lookup changes.
use mathlib.Core.List.{flatten}
use chlibs.Common.{
  ℕ, suc, ◌+◌, ◌%◌, ◌<◌, ◌≡◌, ◌≢◌, ◌↔◌, refl, sym, ◌∙◌, ap, subst, Bool, true, none, some, List, [],
  ◌∷◌, ◌++◌, length, length-set, replicate, length-replicate, zero, if◌then◌else◌, Bool-cases, inl,
  inr, arith, mod-lt, eq→==, ◌==◌, ==→eq,
}
use chlibs.Chutil.HashMap.{Cell, chain_at, find_value, place, move_chain, move_chains}
use chlibs.Chutil.HashMap.Chains.{find, find-cons, ChainOk, eq_func_self}
use chlibs.Chutil.HashMap.Tables.{
  TableOk, look, ChainOk-chain_at, TableOk-set, look-set, find-flatten, or_else-none,
  count-replicate, find-apart, find-append, TableOk-replicate, count-set, or_else,
}

move_chain-append :
    {K V : Type 0} (n : ℕ) (acc : List (List (Cell K V))) (xs ys : List (Cell K V))
    → move_chain n acc (xs ++ ys) ≡ move_chain n (move_chain n acc xs) ys
unfolding move_chain
move_chain-append n acc [] ys = refl
move_chain-append n acc (x ∷ xs) ys = move_chain-append n (place n acc x) xs ys

move_chains-flatten :
    {K V : Type 0} (n : ℕ) (acc olds : List (List (Cell K V)))
    → move_chains n acc olds ≡ move_chain n acc (flatten olds)
unfolding move_chains move_chain flatten
move_chains-flatten n acc [] = refl
move_chains-flatten n acc (old ∷ olds) =
    move_chains-flatten n (move_chain n acc old) olds
    ∙ sym (move_chain-append n acc old (flatten olds))

module _ {K V : Type 0} (hash_func : K → ℕ) (eq_func : K → K → Bool)
    (eq_law : (a b : K) → (eq_func a b ≡ true) ↔ (a ≡ b)) where
  -- Headers with their keys' hash values, and no key twice.
  abbrev pub Fresh : List (Cell K V) → Type 0
  Fresh [] = Unit {0}
  Fresh (c ∷ cs) =
      (c.hash_val ≡ hash_func c.key) × (find hash_func eq_func eq_law c.key cs ≡ none) × Fresh cs

  -- A table of `n` chains, each header at its place.
  pub record Table (n : ℕ) (chains : List (List (Cell K V))) : Type 0 where
    pub ok : TableOk hash_func eq_func eq_law n 0 chains
    pub wide : length chains ≡ n
    pub some_chain : 0 < n

  -- A header in front of the chain at its place.
  pub record Placed (n : ℕ) (chains : List (List (Cell K V))) (c : Cell K V)
      (new : List (List (Cell K V))) : Type 0 where
    pub table : Table n new
    pub found :
        (k : K)
        → look hash_func eq_func eq_law n new k
          ≡ (if eq_func c.key k then some c.value else look hash_func eq_func eq_law n chains k)
    pub count : length (flatten new) ≡ suc (length (flatten chains))

  pub place-Placed :
      (n : ℕ) (chains : List (List (Cell K V))) (c : Cell K V)
      → Table n chains
      → c.hash_val ≡ hash_func c.key
      → look hash_func eq_func eq_law n chains c.key ≡ none
      → Placed n chains c (place n chains c)
  unfolding place
  place-Placed n chains c t h fresh =
      let ind = c.hash_val % n in
      let at : ind ≡ hash_func c.key % n = ap (λ a. a % n) h in
      let bound : ind < length chains = omega (arith, mod-lt c.hash_val t.some_chain, t.wide) in
      record {
        table = record {
          ok = TableOk-set hash_func eq_func eq_law n 0 ind chains (c ∷ chain_at chains ind) t.ok (
            h,
            omega arith,
            ap (λ j. find hash_func eq_func eq_law c.key (chain_at chains j)) at ∙ fresh,
            ChainOk-chain_at hash_func eq_func eq_law n 0 ind chains t.ok,
          );
          wide = length-set chains ind _ ∙ t.wide;
          some_chain = t.some_chain;
        };
        found = λ k.
            look-set hash_func eq_func eq_law n ind chains (c ∷ chain_at chains ind) k bound
            ∙ placed_at n chains c k h at;
        count = omega (arith, count-set chains ind (c ∷ chain_at chains ind) bound);
      }
    where
      placed_at :
          (n : ℕ) (chains : List (List (Cell K V))) (c : Cell K V) (k : K)
          → c.hash_val ≡ hash_func c.key
          → c.hash_val % n ≡ hash_func c.key % n
          → (if hash_func k % n == c.hash_val % n
              then find hash_func eq_func eq_law k (c ∷ chain_at chains (c.hash_val % n))
              else look hash_func eq_func eq_law n chains k)
            ≡ (if eq_func c.key k then some c.value else look hash_func eq_func eq_law n chains k)
      placed_at n chains c k h at = elim (Bool-cases (hash_func k % n == c.hash_val % n)) [
        | inl e ↦ rw e (
            find-cons hash_func eq_func eq_law k c (chain_at chains (c.hash_val % n)) h
            ∙ ap
                (λ j.
                  if eq_func c.key k
                  then some c.value
                  else find hash_func eq_func eq_law k (chain_at chains j))
                (sym (==→eq _ _ e)))
        | inr e ↦ elim (Bool-cases (eq_func c.key k)) [
          | inl same ↦
              let p : hash_func k % n ≡ c.hash_val % n =
                ap (λ a. hash_func a % n) (sym ((eq_law c.key k).0 same)) ∙ sym at in
              cc (e, eq→== (hash_func k % n) (c.hash_val % n) p)
          | inr other ↦ rw (e, other) refl
        ]
      ]

  -- What moving the headers `cells` into the table `acc` leaves.
  pub record Moved (n : ℕ) (acc : List (List (Cell K V))) (cells : List (Cell K V))
      (new : List (List (Cell K V))) : Type 0 where
    pub table : Table n new
    pub found :
        (k : K)
        → look hash_func eq_func eq_law n new k
          ≡ or_else (find hash_func eq_func eq_law k cells) (look hash_func eq_func eq_law n acc k)
    pub count : length (flatten new) ≡ length cells + length (flatten acc)

  still_apart :
      (n : ℕ) (acc : List (List (Cell K V))) (c : Cell K V) (cs : List (Cell K V)) (k : K)
      → c.hash_val ≡ hash_func c.key
      → find hash_func eq_func eq_law c.key cs ≡ none
      → (find hash_func eq_func eq_law k (c ∷ cs) ≢ none
          → look hash_func eq_func eq_law n acc k ≡ none)
      → find hash_func eq_func eq_law k cs ≢ none
      → (if eq_func c.key k then some c.value else look hash_func eq_func eq_law n acc k) ≡ none
  still_apart n acc c cs k h fresh apart e = elim (Bool-cases (eq_func c.key k)) [
    | inl same ↦
        absurd
          (e (ap (λ a. find hash_func eq_func eq_law a cs) (sym ((eq_law c.key k).0 same)) ∙ fresh))
    | inr other ↦
        rw other
          (apart (λ z. e (sym (find-cons hash_func eq_func eq_law k c cs h ∙ rw other refl) ∙ z)))
  ]

  moved_one :
      (n : ℕ) (acc : List (List (Cell K V))) (c : Cell K V) (cs : List (Cell K V)) (k : K)
      → c.hash_val ≡ hash_func c.key
      → find hash_func eq_func eq_law c.key cs ≡ none
      → or_else
          (find hash_func eq_func eq_law k cs)
          (if eq_func c.key k then some c.value else look hash_func eq_func eq_law n acc k)
        ≡ or_else (find hash_func eq_func eq_law k (c ∷ cs)) (look hash_func eq_func eq_law n acc k)
  moved_one n acc c cs k h fresh = elim (Bool-cases (eq_func c.key k)) [
    | inl same ↦
        let gone : find hash_func eq_func eq_law k cs ≡ none =
          ap (λ a. find hash_func eq_func eq_law a cs) (sym ((eq_law c.key k).0 same)) ∙ fresh in
        rw (find-cons hash_func eq_func eq_law k c cs h, same, gone) refl
    | inr other ↦ rw (find-cons hash_func eq_func eq_law k c cs h, other) refl
  ]

  pub move_chain-Moved :
      (n : ℕ) (acc : List (List (Cell K V))) (cells : List (Cell K V))
      → Table n acc
      → Fresh cells
      → ((k : K)
          → find hash_func eq_func eq_law k cells ≢ none
          → look hash_func eq_func eq_law n acc k ≡ none)
      → Moved n acc cells (move_chain n acc cells)
  unfolding move_chain find_value
  move_chain-Moved n acc [] t f apart = record { table = t; found = λ k. refl; count = omega arith }
  move_chain-Moved n acc (c ∷ cs) t (h, fresh, f) apart =
      let head : find hash_func eq_func eq_law c.key (c ∷ cs) ≡ some c.value =
        find-cons hash_func eq_func eq_law c.key c cs h
        ∙ rw (eq_func_self eq_func eq_law c.key) refl in
      let p = place-Placed n acc c t h (apart c.key (λ e. cc (head, e))) in
      let m =
        move_chain-Moved n (place n acc c) cs p.table f
          (λ k e. p.found k ∙ still_apart n acc c cs k h fresh (apart k) e) in
      record {
        table = m.table;
        found = λ k.
            m.found k
            ∙ ap (or_else (find hash_func eq_func eq_law k cs)) (p.found k)
            ∙ moved_one n acc c cs k h fresh;
        count = omega (arith, m.count, p.count);
      }

  Fresh-append :
      (xs ys : List (Cell K V))
      → Fresh xs
      → Fresh ys
      → ((k : K)
          → find hash_func eq_func eq_law k xs ≢ none
          → find hash_func eq_func eq_law k ys ≡ none)
      → Fresh (xs ++ ys)
  unfolding find_value
  Fresh-append [] ys f g apart = g
  Fresh-append (x ∷ xs) ys (h, fresh, f) g apart =
      let head : find hash_func eq_func eq_law x.key (x ∷ xs) ≡ some x.value =
        find-cons hash_func eq_func eq_law x.key x xs h
        ∙ rw (eq_func_self eq_func eq_law x.key) refl in
      (
        h,
        find-append hash_func eq_func eq_law x.key xs ys
            ∙ rw fresh (apart x.key (λ e. cc (head, e))),
        Fresh-append xs ys f g (λ k e. apart k (λ z. e (find-less x xs k h z))),
      )
    where
      find-less :
          (x : Cell K V) (xs : List (Cell K V)) (k : K)
          → x.hash_val ≡ hash_func x.key
          → find hash_func eq_func eq_law k (x ∷ xs) ≡ none
          → find hash_func eq_func eq_law k xs ≡ none
      find-less x xs k h z = elim (Bool-cases (eq_func x.key k)) [
        | inl same ↦ cc (find-cons hash_func eq_func eq_law k x xs h, same, z)
        | inr other ↦ sym (find-cons hash_func eq_func eq_law k x xs h ∙ rw other refl) ∙ z
      ]

  Fresh-chain :
      (n i : ℕ) (chain : List (Cell K V)) → ChainOk hash_func eq_func eq_law n i chain → Fresh chain
  Fresh-chain n i [] ok = tt
  Fresh-chain n i (c ∷ cs) (h, at, fresh, ok) = (h, fresh, Fresh-chain n i cs ok)

  -- The headers of a table, chain by chain.
  pub Fresh-flatten :
      (n i : ℕ) (chains : List (List (Cell K V)))
      → TableOk hash_func eq_func eq_law n i chains
      → Fresh (flatten chains)
  unfolding flatten
  Fresh-flatten n i [] ok = tt
  Fresh-flatten n i (c ∷ cs) ok =
      Fresh-append c (flatten cs) (Fresh-chain n i c ok.0) (Fresh-flatten n (suc i) cs ok.1)
        (λ k e. find-apart hash_func eq_func eq_law n i k c cs ok e)

  pub look-replicate :
      (n i : ℕ) (k : K)
      → find hash_func eq_func eq_law k (chain_at (replicate {A = List (Cell K V)} n []) i) ≡ none
  unfolding chain_at find_value
  look-replicate zero i k = refl
  look-replicate (suc n) zero k = refl
  look-replicate (suc n) (suc i) k = look-replicate n i k

  -- A table with the lookups and the number of headers of the table `old` of `m` chains.
  pub record Resized (n m : ℕ) (old new : List (List (Cell K V))) : Type 0 where
    pub table : Table n new
    pub found :
        (k : K) → look hash_func eq_func eq_law n new k ≡ look hash_func eq_func eq_law m old k
    pub count : length (flatten new) ≡ length (flatten old)

  -- A new table gets every header of the old one.
  pub move_chains-Resized :
      (n m : ℕ) (old : List (List (Cell K V)))
      → Table m old
      → 0 < n
      → Resized n m old (move_chains n (replicate n []) old)
  move_chains-Resized n m old t pos =
      let moved =
        move_chain-Moved n (replicate n []) (flatten old)
          (record {
            ok = TableOk-replicate V hash_func eq_func eq_law n 0 n;
            wide = length-replicate n [];
            some_chain = pos;
          })
          (Fresh-flatten m 0 old t.ok) (λ k e. look-replicate n (hash_func k % n) k) in
      let same = move_chains-flatten n (replicate n []) old in
      record {
        table = subst (Table n) (sym same) moved.table;
        found = λ k.
            ap (λ c. look hash_func eq_func eq_law n c k) same
            ∙ moved.found k
            ∙ ap (or_else (find hash_func eq_func eq_law k (flatten old)))
                (look-replicate n (hash_func k % n) k)
            ∙ or_else-none _
            ∙ find-flatten hash_func eq_func eq_law m k old t.ok;
        count =
            ap (λ c. length (flatten c)) same
            ∙ omega (arith, moved.count, ap length (count-replicate {A = Cell K V} n));
      }
