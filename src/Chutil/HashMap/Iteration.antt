-- ===== src/Chutil/HashMap/Iteration.antt =====
-- The iterator of the hash map.
use mathlib.Core.List.{flatten}
use chlibs.Common.{
  ℕ, zero, suc, ◌<◌, ◌≡◌, refl, sym, ◌∙◌, ap, ◌↔◌, Bool, true, Option, none, some, List, [], ◌∷◌,
  ◌++◌, length, drop, arith,
}
use chlibs.Chutil.HashMap.Chains.{find}
use chlibs.Chutil.HashMap.Tables.{find-flatten}
use chlibs.Chutil.HashMap.Resize.{Fresh, Fresh-flatten}
use chlibs.Chutil.HashMap.Refines.{Holds}
use chlibs.Chutil.HashMap.{Cell, HashMap, seek, next_of, hm_reset_iterator, hm_next_kvp}

drop_one : {A : Type 0} (n : ℕ) (xs : List A) → drop (suc n) xs ≡ drop 1 (drop n xs)
drop_one zero xs = refl
drop_one (suc n) [] = refl
drop_one (suc n) (x ∷ xs) = drop_one n xs

drop_tail :
    {A : Type 0} (n : ℕ) (all : List A) (x : A) (xs : List A)
    → drop n all ≡ x ∷ xs
    → drop (suc n) all ≡ xs
drop_tail n all x xs e = drop_one n all ∙ ap (drop 1) e

flatten-drop :
    {A : Type 0} (n : ℕ) (xs : List (List A)) → flatten xs ≡ [] → flatten (drop n xs) ≡ []
unfolding flatten
flatten-drop zero xs e = e
flatten-drop (suc n) [] e = refl
flatten-drop (suc n) ([] ∷ xs) e = flatten-drop n xs e
flatten-drop (suc n) ((y ∷ ys) ∷ xs) e = cc e

module _ {K V : Type 0} where
  -- The pairs that the loop `while ((kvp = hm_next_kvp(hm)) != HASH_MAP_EXHAUSTED)` sees, with fuel
  -- for its calls; `none` if the fuel runs out.
  unfoldable pub collect : ℕ → HashMap K V → Option (List (Cell K V))
  collect zero hm = none
  collect (suc fuel) hm =
      let (c, hm') = hm_next_kvp hm in
      let rest = collect fuel hm' in
      elim c [ none ↦ some [] | some x ↦ elim rest [ none ↦ none | some xs ↦ some (x ∷ xs) ] ]

  -- What the search for a chain finds: all that was ahead is still ahead, from a header on if there
  -- is one.
  record Found (all cs : List (List (Cell K V))) (r : ℕ × List (Cell K V)) : Type 0 where
    same : r.1 ++ flatten (drop (suc r.0) all) ≡ flatten cs
    finished : r.1 ≡ [] → flatten cs ≡ []

  seek-Found :
      (ind : ℕ) (all cs : List (List (Cell K V))) → drop ind all ≡ cs → Found all cs (seek ind cs)
  unfolding seek flatten
  seek-Found ind all [] e = record {
    same = ap flatten (drop_one ind all ∙ ap (drop 1) e);
    finished = λ h. refl;
  }
  seek-Found ind all ([] ∷ cs) e =
      let f = seek-Found (suc ind) all cs (drop_tail ind all [] cs e) in
      record { same = f.same; finished = f.finished }
  seek-Found ind all ((c ∷ chain) ∷ cs) e = record {
    same = ap (λ t. (c ∷ chain) ++ flatten t) (drop_tail ind all (c ∷ chain) cs e);
    finished = λ h. cc h;
  }

  -- The iterator at `iter`, with the chains from `suc ind` on behind it.
  abbrev at : HashMap K V → ℕ → List (Cell K V) → HashMap K V
  at hm ind iter = record hm { iter_chain_ind = ind; iter = iter }

  collect-at :
      (fuel : ℕ) (hm : HashMap K V) (ind : ℕ) (iter : List (Cell K V))
      → length (iter ++ flatten (drop (suc ind) hm.chains)) < fuel
      → (iter ≡ [] → flatten (drop (suc ind) hm.chains) ≡ [])
      → collect fuel (at hm ind iter) ≡ some (iter ++ flatten (drop (suc ind) hm.chains))
  unfolding collect hm_next_kvp next_of
  collect-at zero hm ind iter lt f = absurd (omega arith)
  collect-at (suc fuel) hm ind [] lt f = ap some (sym (f refl))
  collect-at (suc fuel) hm ind (c ∷ []) lt f =
      let r = seek (suc ind) (drop (suc ind) hm.chains) in
      let found = seek-Found (suc ind) hm.chains (drop (suc ind) hm.chains) refl in
      rw
        (collect-at fuel hm r.0 r.1 (omega (arith, ap length found.same)) (λ e.
          sym (ap (λ t. t ++ flatten (drop (suc r.0) hm.chains)) e)
          ∙ found.same
          ∙ found.finished e))
        (ap (λ t. some (c ∷ t)) found.same)
  collect-at (suc fuel) hm ind (c ∷ d ∷ chain) lt f =
      rw (collect-at fuel hm ind (d ∷ chain) (omega arith) (λ e. cc e)) refl

  -- A reset, and calls of next until it is exhausted, show every header of the table once, chain by
  -- chain.
  collect-flatten :
      (fuel : ℕ) (hm : HashMap K V)
      → length (flatten hm.chains) < fuel
      → collect fuel (hm_reset_iterator hm) ≡ some (flatten hm.chains)
  unfolding hm_reset_iterator
  collect-flatten fuel hm lt =
      let f = seek-Found 0 hm.chains hm.chains refl in
      go (seek 0 hm.chains).0 (seek 0 hm.chains).1 f
    where
      go :
          (i : ℕ) (chain : List (Cell K V))
          → Found hm.chains hm.chains (i, chain)
          → collect fuel (elim chain [
            | [] ↦ record hm { iter = [] }
            | c ∷ cs ↦ record hm { iter_chain_ind = i; iter = c ∷ cs }
          ])
            ≡ some (flatten hm.chains)
      go i [] f =
          let none_left = f.finished refl in
          collect-at fuel hm hm.iter_chain_ind []
            (omega (arith, ap length (flatten-drop (suc hm.iter_chain_ind) hm.chains none_left)))
            (λ e. flatten-drop (suc hm.iter_chain_ind) hm.chains none_left)
          ∙ ap some (flatten-drop (suc hm.iter_chain_ind) hm.chains none_left ∙ sym none_left)
      go i (c ∷ cs) f =
          collect-at fuel hm i (c ∷ cs) (omega (arith, ap length f.same)) (λ e. cc e)
          ∙ ap some f.same

-- In a well-formed hash map a reset and calls of next, one more than the map has keys, show each
-- key once and with its value, and as many pairs as the map counts, if the comparison decides
-- equality of keys.
pub collect-Holds :
    {K V : Type 0} (hash_func : K → ℕ) (eq_func : K → K → Bool)
    (eq_law : (a b : K) → (eq_func a b ≡ true) ↔ (a ≡ b)) {used : ℕ} {hm : HashMap K V}
    {m : K → Option V} {n : ℕ}
    → Holds hash_func eq_func eq_law used hm m n
    → (xs : List (Cell K V)) × (collect (suc n) (hm_reset_iterator hm) ≡ some xs)
      × (length xs ≡ n)
      × Fresh hash_func eq_func eq_law xs
      × ((k : K) → find hash_func eq_func eq_law k xs ≡ m k)
collect-Holds hash_func eq_func eq_law {hm} {n} v = (
  flatten hm.chains,
  collect-flatten (suc n) hm (omega (arith, v.count)),
  v.count,
  Fresh-flatten hash_func eq_func eq_law hm.chains_cap 0 hm.chains v.table.ok,
  λ k. find-flatten hash_func eq_func eq_law hm.chains_cap k hm.chains v.table.ok ∙ v.found k,
)
