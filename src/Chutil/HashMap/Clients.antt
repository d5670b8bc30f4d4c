-- ===== src/Chutil/HashMap/Clients.antt =====
-- Clients of the hash map: what a sequence of calls returns.
use chlibs.Common.{
  ℕ, ◌+◌, ◌^◌, ◌<◌, ◌≡◌, ◌↔◌, refl, ap, ap₂, Bool, true, Option, List, [], ◌∷◌, length, arith,
}
use chlibs.Chutil.HashMap.{HashMap, hm_get, hm_put, hm_remove}
use chlibs.Chutil.HashMap.Refines.{
  Holds, after_put, after_remove, map_put, map_remove, hm_put-Holds, hm_get-found, hm_remove-Holds,
}

-- The calls of a client, and what they return.
pub data Op (K V : Type 0) : Type 0 where
  put : K → V → Op K V
  get : K → Op K V
  remove : K → Op K V
  num_keys : Op K V

pub data Reply (V : Type 0) : Type 0 where
  done : Reply V
  value : Option V → Reply V
  removed : Bool → Reply V
  counted : ℕ → Reply V

module _ {K V : Type 0} (eq_func : K → K → Bool) where
  unfoldable pub run_map : (K → Option V) → ℕ → List (Op K V) → List (Reply V)
  run_map m n [] = []
  run_map m n (put k x ∷ ops) = done ∷ run_map (map_put eq_func m k x) (after_put (m k) n) ops
  run_map m n (get k ∷ ops) = value (m k) ∷ run_map m n ops
  run_map m n (remove k ∷ ops) =
      let (b, n') = after_remove (m k) n in removed b ∷ run_map (map_remove eq_func m k) n' ops
  run_map m n (num_keys ∷ ops) = counted n ∷ run_map m n ops

module _ {K V : Type 0} (hash_func : K → ℕ) (eq_func : K → K → Bool) where
  unfoldable pub run : HashMap K V → List (Op K V) → List (Reply V)
  run hm [] = []
  run hm (put k x ∷ ops) = done ∷ run (hm_put hash_func eq_func hm k x) ops
  run hm (get k ∷ ops) = value (hm_get hash_func eq_func hm k) ∷ run hm ops
  run hm (remove k ∷ ops) =
      let (b, hm') = hm_remove hash_func eq_func hm k in removed b ∷ run hm' ops
  run hm (num_keys ∷ ops) = counted hm.num_keys ∷ run hm ops

  -- No sequence of puts, gets, removes and counts tells a hash map from the finite map that it
  -- holds, if the comparison decides equality of keys and the puts before and in the sequence,
  -- with its other calls, are fewer than 2 ^ 60.
  pub run-run_map :
      (eq_law : (a b : K) → (eq_func a b ≡ true) ↔ (a ≡ b)) (ops : List (Op K V)) {used : ℕ}
      {hm : HashMap K V} {m : K → Option V} {n : ℕ}
      → Holds hash_func eq_func eq_law used hm m n
      → used + length ops < 2 ^ 60
      → run hm ops ≡ run_map eq_func m n ops
  unfolding run run_map
  run-run_map eq_law [] v small = refl
  run-run_map eq_law (put k x ∷ ops) v small =
      ap (λ t. done ∷ t)
        (run-run_map eq_law ops (hm_put-Holds hash_func eq_func eq_law v k x (omega arith))
          (omega arith))
  run-run_map eq_law (get k ∷ ops) v small =
      ap₂ (λ o t. value o ∷ t) (hm_get-found hash_func eq_func eq_law v k)
        (run-run_map eq_law ops v (omega arith))
  run-run_map eq_law (remove k ∷ ops) v small =
      let (b, v') = hm_remove-Holds hash_func eq_func eq_law v k (omega arith) in
      ap₂ (λ o t. removed o ∷ t) b (run-run_map eq_law ops v' (omega arith))
  run-run_map eq_law (num_keys ∷ ops) v small =
      ap₂ (λ o t. counted o ∷ t) v.keys (run-run_map eq_law ops v (omega arith))
